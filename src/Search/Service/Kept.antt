-- ===== src/Search/Service/Kept.antt =====
-- The pages of `JobSearchRepository.query` hold jobs that pass the filters, also where they are read
-- again by their identifiers.
use jobs_scraper_global.Prelude.{
  ℕ, zero, suc, ◌+◌, ◌-◌, ◌≡◌, ap, Bool, true, Option, some, List, [], ◌∷◌, filter, take, drop,
  slice, All, filter-All, Bool-cases, Option-cases, inl, inr,
}
use jobs_scraper_global.Search.Pagination.{PaginationParams, offset_of}
use jobs_scraper_global.Search.Hydration.{get_jobs}
use jobs_scraper_global.Search.Query.{query}
use jobs_scraper_global.Search.Batches.{query_lem}
use jobs_scraper_global.Search.Ranking.{
  RankedJob, insert, sort, candidates, ranks_before, ids_of, ranked_query,
}
use jobs_scraper_global.Search.Ranking.TopRanked.{ranked_query_lem}
use jobs_scraper_global.Search.Filters.Jobs.{MatchSort}

module _ {A : Type 0} (P : A → Type 0) where
  All-take : (n : ℕ) (xs : List A) → All P xs → All P (take n xs)
  All-take zero xs h = tt
  All-take (suc n) [] h = tt
  All-take (suc n) (x ∷ xs) (h, hs) = (h, All-take n xs hs)

  All-drop : (n : ℕ) (xs : List A) → All P xs → All P (drop n xs)
  All-drop zero xs h = h
  All-drop (suc n) [] h = tt
  All-drop (suc n) (x ∷ xs) (h, hs) = All-drop n xs hs

  insert-All :
      (before : A → A → Bool) (x : A) (xs : List A) → P x → All P xs → All P (insert before x xs)
  insert-All before x [] h hs = (h, tt)
  insert-All before x (y ∷ ys) h (k, ks) = elim (Bool-cases (before x y)) [
    | inl first ↦ rw (insert, first) (h, (k, ks))
    | inr later ↦ rw (insert, later) (k, insert-All before x ys h ks)
  ]

  sort-All : (before : A → A → Bool) (xs : List A) → All P xs → All P (sort before xs)
  sort-All before [] h = tt
  sort-All before (x ∷ xs) (h, hs) = insert-All before x (sort before xs) h (sort-All before xs hs)

module _ {Key Job : Type 0} (read : Key → Option Job) (test : Job → Bool) where
  pub query-All :
      (p : PaginationParams) (ids : List Key)
      → All (λ j. test j ≡ true) (query read test p ids).page
  query-All p ids = rw (query_lem read test p ids) (
      All-take (λ j. test j ≡ true) p.limit (drop (offset_of p) (filter test (get_jobs read ids)))
        (All-drop (λ j. test j ≡ true) (offset_of p) (filter test (get_jobs read ids))
          (filter-All test (get_jobs read ids))))

module _ {Key Job : Type 0} (read : Key → Option Job) (test : Job → Bool) (score : Job → ℕ)
    (key : Job → Key) (order : MatchSort) where
  -- Every job that is stored under the identifier passes.
  abbrev IsFit : Key → Type 0
  IsFit k = (j : Job) → read k ≡ some j → test j ≡ true

  abbrev IsFitJob : Job → Type 0
  IsFitJob j = test j ≡ true → IsFit (key j)

  get_jobs-IsFitJob :
      ((k : Key) (j : Job) → read k ≡ some j → key j ≡ k)
      → (ids : List Key) → All IsFitJob (get_jobs read ids)
  get_jobs-IsFitJob keyed [] = tt
  get_jobs-IsFitJob keyed (id ∷ ids) = elim (Option-cases (read id)) [
    | inl n ↦ rw (get_jobs, n) (get_jobs-IsFitJob keyed ids)
    | inr (job, n) ↦
        rw (get_jobs, n)
          ((λ good j r. cc (good, r, n, ap read (keyed id job n))), get_jobs-IsFitJob keyed ids)
  ]

  filter-IsFit :
      (rank : ℕ) (jobs : List Job)
      → All IsFitJob jobs
      → All (λ c. IsFit c.id) (candidates read test score key order rank (filter test jobs))
  filter-IsFit rank [] h = tt
  filter-IsFit rank (job ∷ jobs) (h, hs) = elim (Bool-cases (test job)) [
    | inl good ↦ rw good (h good, filter-IsFit (suc rank) jobs hs)
    | inr bad ↦ rw bad (filter-IsFit rank jobs hs)
  ]

  get_jobs-fit :
      (cs : List (RankedJob Key))
      → All (λ c. IsFit c.id) cs
      → All (λ j. test j ≡ true) (get_jobs read (ids_of read test score key order cs))
  get_jobs-fit [] h = tt
  get_jobs-fit (c ∷ cs) (h, hs) = elim (Option-cases (read c.id)) [
    | inl n ↦ rw (get_jobs, n) (get_jobs-fit cs hs)
    | inr (job, n) ↦ rw (get_jobs, n) (h job n, get_jobs-fit cs hs)
  ]

  pub ranked_query-All :
      ((k : Key) (j : Job) → read k ≡ some j → key j ≡ k)
      → (p : PaginationParams) (ids : List Key)
      → All (λ j. test j ≡ true) (ranked_query read test score key order p ids).0
  ranked_query-All keyed p ids =
      let all = candidates read test score key order 0 (filter test (get_jobs read ids)) in
      let sorted = sort (ranks_before order) all in
      let fit = λ (c : RankedJob Key). IsFit c.id in
      rw (ranked_query_lem read test score key order p ids) (
        get_jobs-fit (slice (offset_of p) (offset_of p + p.limit) sorted) (
          All-take fit (offset_of p + p.limit - offset_of p) (drop (offset_of p) sorted) (
            All-drop fit (offset_of p) sorted (
              sort-All fit (ranks_before order) all
                (filter-IsFit 0 (get_jobs read ids) (get_jobs-IsFitJob keyed ids))))))
