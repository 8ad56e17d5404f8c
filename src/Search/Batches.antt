-- ===== src/Search/Batches.antt =====
-- The page that is gathered in batches is the slice of all matches.
use jobs_scraper_global.Prelude.{
  ℕ, zero, suc, ◌+◌, ◌≤◌, ◌<◌, ◌≡◌, refl, sym, ◌∙◌, ap, Bool, ◌&&◌, Option, List, [], ◌∷◌, ◌++◌,
  length, filter, take, drop, leb, ltb, if◌then◌else◌, arith, Bool-cases, Option-cases, inl, inr,
  take-append-drop, length-drop, length-append, length-take, filter-append, leb→le,
}
use jobs_scraper_global.Search.Pagination.{PaginationParams, offset_of}
use jobs_scraper_global.Search.Hydration.{get_jobs}
use jobs_scraper_global.Search.Query.{
  Found, batch_size, batches_from, legacy_batches, visit, visit_all, visit_batches, query,
}

module _ {A : Type 0} where
  drop-append_one :
      (n : ℕ) (xs : List A) (x : A)
      → n ≤ length xs
      → drop n (xs ++ (x ∷ [])) ≡ drop n xs ++ (x ∷ [])
  drop-append_one zero xs x h = refl
  drop-append_one (suc n) [] x h = ground arith
  drop-append_one (suc n) (y ∷ xs) x h = drop-append_one n xs x (omega (arith, h))

  drop-all : (n : ℕ) (xs : List A) → length xs ≤ n → drop n xs ≡ []
  drop-all zero [] h = refl
  drop-all zero (y ∷ xs) h = ground arith
  drop-all (suc n) [] h = refl
  drop-all (suc n) (y ∷ xs) h = drop-all n xs (omega (arith, h))

  take-append_one :
      (n : ℕ) (xs : List A) (x : A)
      → length xs < n
      → take n (xs ++ (x ∷ [])) ≡ take n xs ++ (x ∷ [])
  take-append_one zero xs x h = ground arith
  take-append_one (suc zero) [] x h = refl
  take-append_one (suc (suc n)) [] x h = refl
  take-append_one (suc n) (y ∷ xs) x h = ap (◌∷◌ y) (take-append_one n xs x (omega (arith, h)))

  take-append_full :
      (n : ℕ) (xs : List A) (x : A) → n ≤ length xs → take n (xs ++ (x ∷ [])) ≡ take n xs
  take-append_full zero xs x h = refl
  take-append_full (suc n) [] x h = ground arith
  take-append_full (suc n) (y ∷ xs) x h = ap (◌∷◌ y) (take-append_full n xs x (omega (arith, h)))

  window-nil : (n o : ℕ) → take n (drop {A = A} o []) ≡ []
  window-nil zero o = refl
  window-nil (suc n) zero = refl
  window-nil (suc n) (suc o) = refl

  append-nil : (xs : List A) → xs ++ [] ≡ xs
  append-nil [] = refl
  append-nil (x ∷ xs) = ap (◌∷◌ x) (append-nil xs)

  append_assoc : (xs ys zs : List A) → (xs ++ ys) ++ zs ≡ xs ++ (ys ++ zs)
  append_assoc [] ys zs = refl
  append_assoc (x ∷ xs) ys zs = ap (◌∷◌ x) (append_assoc xs ys zs)

  -- One more element at the end of a window of a list.
  window-append_one :
      (o n : ℕ) (xs : List A) (x : A)
      → take n (drop o (xs ++ (x ∷ []))) ≡ (
          if leb o (length xs) && ltb (length (take n (drop o xs))) n
          then take n (drop o xs) ++ (x ∷ [])
          else take n (drop o xs))
  window-append_one o n xs x = elim (Bool-cases (leb o (length xs))) [
    | inr short ↦
        rw
          (
            short,
            drop-all o (xs ++ (x ∷ [])) (ground (arith, length-append xs (x ∷ []))),
            drop-all o xs (ground arith),
          )
          refl
    | inl long ↦
        rw (long, drop-append_one o xs x (leb→le o (length xs) long))
          (elim (Bool-cases (ltb (length (take n (drop o xs))) n)) [
            | inl room ↦
                rw room
                  (take-append_one n (drop o xs) x (ground (arith, length-take n (drop o xs))))
            | inr full ↦
                rw full
                  (take-append_full n (drop o xs) x (ground (arith, length-take n (drop o xs))))
          ])
  ]

module _ {Key Job : Type 0} (read : Key → Option Job) where
  pub get_jobs-append :
      (xs ys : List Key) → get_jobs read (xs ++ ys) ≡ get_jobs read xs ++ get_jobs read ys
  get_jobs-append [] ys = refl
  get_jobs-append (x ∷ xs) ys = elim (Option-cases (read x)) [
    | inl n ↦ rw (get_jobs, n) (get_jobs-append xs ys)
    | inr (job, n) ↦ rw (get_jobs, n) (ap (◌∷◌ job) (get_jobs-append xs ys))
  ]

module _ {Key Job : Type 0} (read : Key → Option Job) (matches : Job → Bool) where
  -- What the loop has gathered after it has seen the given matches.
  abbrev pub seen : PaginationParams → List Job → Found Job
  seen p jobs = record { page = take p.limit (drop (offset_of p) jobs); total = length jobs }

  found_eq : (f g : Found Job) → f.page ≡ g.page → f.total ≡ g.total → f ≡ g
  found_eq f g e h = cc

  visit_all-seen :
      (p : PaginationParams) (before jobs : List Job)
      → visit_all read matches p (seen p before) jobs ≡ seen p (before ++ jobs)
  visit_all-seen p before [] = ap (seen p) (sym (append-nil before))
  visit_all-seen p before (job ∷ jobs) =
      ap (λ f. visit_all read matches p f jobs) one
      ∙ (visit_all-seen p (before ++ (job ∷ [])) jobs
          ∙ ap (seen p) (append_assoc before (job ∷ []) jobs))
    where
      longer : length before + 1 ≡ length (before ++ (job ∷ []))
      longer = omega (arith, length-append before (job ∷ []))

      one : visit read matches p (seen p before) job ≡ seen p (before ++ (job ∷ []))
      one = found_eq _ _ (sym (window-append_one (offset_of p) p.limit before job)) longer

  unfoldable pub joined : List (List Job) → List Job
  joined [] = []
  joined (batch ∷ batches) = batch ++ joined batches

  visit_batches-seen :
      (p : PaginationParams) (before : List Job) (batches : List (List Job))
      → visit_batches read matches p (seen p before) batches
        ≡ seen p (before ++ filter matches (joined batches))
  unfolding joined
  visit_batches-seen p before [] = ap (seen p) (sym (append-nil before))
  visit_batches-seen p before (batch ∷ batches) =
      ap (λ f. visit_batches read matches p f batches)
        (visit_all-seen p before (filter matches batch))
      ∙ (visit_batches-seen p (before ++ filter matches batch) batches
          ∙ ap (seen p) (
              append_assoc before (filter matches batch) (filter matches (joined batches))
              ∙ ap (λ xs. before ++ xs) (sym (filter-append matches batch (joined batches)))))

  pub joined-batches_from :
      (fuel : ℕ) (ids : List Key)
      → length ids ≤ fuel
      → joined (batches_from read matches fuel ids) ≡ get_jobs read ids
  unfolding joined batches_from
  joined-batches_from zero [] h = refl
  joined-batches_from zero (id ∷ ids) h = ground arith
  joined-batches_from (suc fuel) [] h = refl
  joined-batches_from (suc fuel) (id ∷ ids) h =
      ap (λ xs. get_jobs read (take batch_size (id ∷ ids)) ++ xs)
        (joined-batches_from fuel (drop batch_size (id ∷ ids))
          (omega (arith, h, length-drop batch_size (id ∷ ids))))
      ∙ (sym (get_jobs-append read (take batch_size (id ∷ ids)) (drop batch_size (id ∷ ids)))
          ∙ ap (get_jobs read) (take-append-drop batch_size (id ∷ ids)))

  -- The search in batches gives the slice for the page of all the jobs that match, in the order of
  -- the identifiers, and their number.
  pub query_lem :
      (p : PaginationParams) (ids : List Key)
      → query read matches p ids ≡ seen p (filter matches (get_jobs read ids))
  unfolding query legacy_batches
  query_lem p ids =
      ap (λ f. visit_batches read matches p f (batches_from read matches (length ids) ids)) start
      ∙ (visit_batches-seen p [] (batches_from read matches (length ids) ids)
          ∙ ap (λ jobs. seen p (filter matches jobs))
              (joined-batches_from (length ids) ids (omega arith)))
    where
      start : record { page = []; total = 0 } ≡ seen p []
      start =
          found_eq (record { page = []; total = 0 }) (seen p [])
            (sym (window-nil p.limit (offset_of p))) refl
