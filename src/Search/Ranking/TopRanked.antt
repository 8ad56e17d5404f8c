-- ===== src/Search/Ranking/TopRanked.antt =====
-- The page of a search that is sorted by match is a slice of all its matches in their order.
use jobs_scraper_global.Prelude.{
  ℕ, zero, suc, ◌+◌, ◌-◌, ◌≤◌, min, ◌≡◌, refl, sym, ◌∙◌, ap, Bool, true, false, Option, List, [],
  ◌∷◌, ◌++◌, length, filter, slice, take, drop, leb, arith, Bool-cases, Option-cases, inl, inr,
  filter-append, length-filter-le, length-append,
}
use mathlib.Core.List.{append-nil, append_assoc}
use jobs_scraper_global.Search.Pagination.{PaginationParams, offset_of}
use jobs_scraper_global.Search.Hydration.{get_jobs}
use jobs_scraper_global.Search.Query.{legacy_batches, batches_from}
use jobs_scraper_global.Search.Batches.{joined, joined-batches_from}
use jobs_scraper_global.Search.Filters.Jobs.{MatchSort, asc, desc}
use jobs_scraper_global.Search.Ranking.{
  RankedJob, ranks_before, insert, sort, candidates, Ranking, rank_batch, rank_batches, capacity_of,
  ids_of, ranked_query,
}
use jobs_scraper_global.Search.Ranking.Sorting.{take-take, take-sort-append}

module _ {Key : Type 0} where
  ranks_before-total :
      (order : MatchSort) (a b : RankedJob Key)
      → ranks_before order a b ≡ false
      → ranks_before order b a ≡ true
  ranks_before-total asc a b h = ground arith
  ranks_before-total desc a b h = ground arith

  ranks_before_trans :
      (order : MatchSort) (a b c : RankedJob Key)
      → ranks_before order a b ≡ true
      → ranks_before order b c ≡ true
      → ranks_before order a c ≡ true
  ranks_before_trans asc a b c h k = ground arith
  ranks_before_trans desc a b c h k = ground arith

module _ {A : Type 0} where
  length-insert :
      (before : A → A → Bool) (a : A) (bs : List A) → length (insert before a bs) ≡ suc (length bs)
  length-insert before a [] = refl
  length-insert before a (b ∷ bs) = ground (arith, length-insert before a bs)

  length-sort : (before : A → A → Bool) (as' : List A) → length (sort before as') ≡ length as'
  length-sort before [] = refl
  length-sort before (a ∷ as') =
      length-insert before a (sort before as') ∙ ap suc (length-sort before as')

  take-all : (n : ℕ) (xs : List A) → length xs ≤ n → take n xs ≡ xs
  take-all zero [] h = refl
  take-all zero (x ∷ xs) h = ground arith
  take-all (suc n) [] h = refl
  take-all (suc n) (x ∷ xs) h = ap (◌∷◌ x) (take-all n xs (omega (arith, h)))

  take-nil : (k : ℕ) → take {A = A} k [] ≡ []
  take-nil zero = refl
  take-nil (suc k) = refl

  window-take :
      (o l m : ℕ) (xs : List A) → m ≡ o + l → take l (drop o (take m xs)) ≡ take l (drop o xs)
  window-take zero l m xs e = let same : m ≡ l = omega (arith, e) in rw same (take-take l xs)
  window-take (suc o) l zero xs e = absurd (omega (arith, e))
  window-take (suc o) l (suc m) [] e = refl
  window-take (suc o) l (suc m) (x ∷ xs) e = window-take o l m xs (omega (arith, e))

  slice-take :
      (n o l : ℕ) (xs : List A)
      → length xs ≤ n
      → slice o (o + l) (take (min n (o + l)) xs) ≡ slice o (o + l) xs
  slice-take n o l xs h = elim (Bool-cases (leb (o + l) n)) [
    | inl short ↦ window-take o (o + l - o) (min n (o + l)) xs (ground arith)
    | inr long ↦
        let all : min n (o + l) ≡ n = ground arith in
        rw all (ap (slice o (o + l)) (take-all n xs h))
  ]

module _ {Key Job : Type 0} (read : Key → Option Job) where
  pub length-get_jobs : (ids : List Key) → length (get_jobs read ids) ≤ length ids
  length-get_jobs [] = omega arith
  length-get_jobs (id ∷ ids) = elim (Option-cases (read id)) [
    | inl n ↦ rw (get_jobs, n) (omega (arith, length-get_jobs ids))
    | inr (job, n) ↦ rw (get_jobs, n) (omega (arith, length-get_jobs ids))
  ]

module _ {Key Job : Type 0} (read : Key → Option Job) (matches : Job → Bool) (score : Job → ℕ)
    (key : Job → Key) (order : MatchSort) where
  -- The candidates that all matches give.
  abbrev pub all_candidates : List Job → List (RankedJob Key)
  all_candidates jobs = candidates read matches score key order 0 jobs

  length-candidates :
      (r : ℕ) (jobs : List Job)
      → length (candidates read matches score key order r jobs) ≡ length jobs
  length-candidates r [] = refl
  length-candidates r (job ∷ jobs) = ap suc (length-candidates (suc r) jobs)

  candidates-append :
      (r : ℕ) (xs ys : List Job)
      → candidates read matches score key order r (xs ++ ys)
        ≡ candidates read matches score key order r xs
          ++ candidates read matches score key order (r + length xs) ys
  candidates-append r [] ys = ap (λ n. candidates read matches score key order n ys) (omega arith)
  candidates-append r (x ∷ xs) ys = ap (◌∷◌ (record { id = key x; rank = r; score = score x })) (
      candidates-append (suc r) xs ys
      ∙ ap
          (λ n.
            candidates read matches score key order (suc r) xs
            ++ candidates read matches score key order n ys)
          (carry r (length xs)))
    where
      carry : (a b : ℕ) → suc a + b ≡ a + suc b
      carry a b = omega arith

  -- What has been ranked after some matches.
  abbrev ranking : ℕ → List Job → Ranking read matches score key order
  ranking capacity jobs = record {
    ranked = take capacity (sort (ranks_before order) (all_candidates jobs));
    total = length jobs;
  }

  ranking_eq :
      (a b : Ranking read matches score key order) → a.ranked ≡ b.ranked → a.total ≡ b.total → a ≡ b
  ranking_eq a b h k = cc

  rank_batch-ranking :
      (capacity : ℕ) (before jobs : List Job)
      → rank_batch read matches score key order capacity (ranking capacity before) jobs
        ≡ ranking capacity (before ++ jobs)
  rank_batch-ranking capacity before jobs =
      ranking_eq _ _
        (take-sort-append (ranks_before order) (ranks_before-total order) (ranks_before_trans order)
            capacity (all_candidates before)
            (candidates read matches score key order (length before) jobs)
          ∙ ap (λ cs. take capacity (sort (ranks_before order) cs)) (sym all))
        (sym (length-append before jobs))
    where
      all :
          all_candidates (before ++ jobs)
          ≡ all_candidates before ++ candidates read matches score key order (length before) jobs
      all =
          candidates-append 0 before jobs
          ∙ ap (λ n. all_candidates before ++ candidates read matches score key order n jobs)
              (omega arith)

  rank_batches-ranking :
      (capacity : ℕ) (before : List Job) (batches : List (List Job))
      → rank_batches read matches score key order capacity (ranking capacity before) batches
        ≡ ranking capacity (before ++ filter matches (joined read matches batches))
  unfolding joined
  rank_batches-ranking capacity before [] = ap (ranking capacity) (sym (append-nil before))
  rank_batches-ranking capacity before (batch ∷ batches) =
      ap (λ r. rank_batches read matches score key order capacity r batches)
        (rank_batch-ranking capacity before (filter matches batch))
      ∙ rank_batches-ranking capacity (before ++ filter matches batch) batches
      ∙ ap (λ jobs. ranking capacity jobs)
          (append_assoc before (filter matches batch) (filter matches (joined read matches batches))
            ∙ ap (λ xs. before ++ xs)
                (sym (filter-append matches batch (joined read matches batches))))

  all_ranked :
      (p : PaginationParams) (ids : List Key)
      → rank_batches read matches score key order
          (capacity_of read matches score key order p ids)
          (record { ranked = []; total = 0 })
          (legacy_batches read matches ids)
        ≡ ranking
            (capacity_of read matches score key order p ids)
            (filter matches (get_jobs read ids))
  unfolding legacy_batches
  all_ranked p ids =
      ap
        (λ r.
          rank_batches read matches score key order (capacity_of read matches score key order p ids)
            r (batches_from read matches (length ids) ids))
        (ranking_eq (record { ranked = []; total = 0 })
          (ranking (capacity_of read matches score key order p ids) [])
          (sym (take-nil (capacity_of read matches score key order p ids))) refl)
      ∙ rank_batches-ranking (capacity_of read matches score key order p ids) []
          (batches_from read matches (length ids) ids)
      ∙ ap (λ jobs. ranking (capacity_of read matches score key order p ids) (filter matches jobs))
          (joined-batches_from read matches (length ids) ids (omega arith))

  few_matches :
      (ids : List Key)
      → length (sort (ranks_before order) (all_candidates (filter matches (get_jobs read ids))))
        ≤ length ids
  few_matches ids = omega (
    arith,
    length-sort (ranks_before order) (all_candidates (filter matches (get_jobs read ids))),
    length-candidates 0 (filter matches (get_jobs read ids)),
    length-filter-le matches (get_jobs read ids),
    length-get_jobs read ids,
  )

  -- Sorted by match, in either direction, a page has the jobs of the slice for it of all the jobs that
  -- match, in the order of their scores and then of the identifiers, and the total is their number:
  -- the candidates that are dropped after each batch are never needed. The jobs are read again by
  -- their identifiers.
  pub ranked_query_lem :
      (p : PaginationParams) (ids : List Key)
      → ranked_query read matches score key order p ids ≡ (
        get_jobs read (
            ids_of read matches score key order (
              slice
                (offset_of p)
                (offset_of p + p.limit)
                (sort (ranks_before order) (all_candidates (filter matches (get_jobs read ids)))))),
        length (filter matches (get_jobs read ids)),
      )
  unfolding ranked_query
  ranked_query_lem p ids =
      ap
        (λ r. (
          get_jobs read (
              ids_of read matches score key order
                (slice (offset_of p) (offset_of p + p.limit) r.ranked)),
          r.total,
        ))
        (all_ranked p ids)
      ∙ ap
          (λ top. (
            get_jobs read (ids_of read matches score key order top),
            length (filter matches (get_jobs read ids)),
          ))
          (slice-take (length ids) (offset_of p) p.limit
            (sort (ranks_before order) (all_candidates (filter matches (get_jobs read ids))))
            (few_matches ids))
