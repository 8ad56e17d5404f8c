-- ===== src/Search/Windows.antt =====
-- What the windows of `hydrateIndexPage` gather.
use jobs_scraper_global.Prelude.{
  ℕ, zero, suc, ◌+◌, ◌-◌, ◌≤◌, ◌<◌, min, ◌≡◌, refl, sym, ◌∙◌, ap, ◌⊎◌, inl, inr, false, ◌&&◌,
  Option, none, some, List, [], ◌∷◌, ◌++◌, length, take, drop, slice, ltb, arith, length-take,
  length-drop, length-append, Bool-cases,
}
use jobs_scraper_global.Search.Pagination.{PaginationParams, offset_of}
use jobs_scraper_global.Search.Hydration.{
  JobsByIds, sort_out, cache_get_jobs_by_ids_detailed, get_jobs, Loop, next_window, hydrate,
  start_of, hydrate_index_page,
}
use jobs_scraper_global.Search.Pages.{take-plus}
use jobs_scraper_global.Search.Batches.{get_jobs-append}

module _ {A : Type 0} where
  drop-drop : (n m : ℕ) (xs : List A) → drop m (drop n xs) ≡ drop (n + m) xs
  drop-drop zero m xs = ap (λ k. drop k xs) (zero_left m)
    where
      zero_left : (m : ℕ) → m ≡ 0 + m
      zero_left m = omega arith
  drop-drop (suc n) zero [] = ap (λ k. drop {A = A} k []) (right n)
    where
      right : (n : ℕ) → suc n ≡ suc n + 0
      right n = omega arith
  drop-drop (suc n) (suc m) [] = ap (λ k. drop {A = A} k []) (carry n m)
    where
      carry : (n m : ℕ) → suc (n + suc m) ≡ suc n + suc m
      carry n m = omega arith
  drop-drop (suc n) m (x ∷ xs) = drop-drop n m xs ∙ ap (λ k. drop k (x ∷ xs)) (carry n m)
    where
      carry : (n m : ℕ) → suc (n + m) ≡ suc n + m
      carry n m = omega arith

  take-length-take : (n : ℕ) (xs : List A) → take (length (take n xs)) xs ≡ take n xs
  take-length-take zero xs = refl
  take-length-take (suc n) [] = refl
  take-length-take (suc n) (x ∷ xs) = ap (◌∷◌ x) (take-length-take n xs)

progress :
    {j m c n : ℕ} (gj lm gm w : ℕ)
    → j < m
    → c < n
    → w ≡ min (c + (m - j) - c) (n - c)
    → gj + gm ≡ w
    → ((j + gj ≡ m) ⊎ (n ≤ c + w)) ⊎ (suc lm ≤ lm + gm)
progress gj lm gm w h k e s = ground arith

module _ {Key Job : Type 0} (read : Key → Option Job) where
  abbrev missing : List Key → List Key
  missing ids = (cache_get_jobs_by_ids_detailed read ids).missing_ids

  -- Every identifier gives a job or is missing.
  length-sorted : (ids : List Key) → length (get_jobs read ids) + length (missing ids) ≡ length ids
  length-sorted [] = omega arith
  length-sorted (id ∷ ids) =
      omega (arith, one (read id) (cache_get_jobs_by_ids_detailed read ids), length-sorted ids)
    where
      one :
          (o : Option Job) (r : JobsByIds Key Job)
          → length (sort_out read id o r).jobs + length (sort_out read id o r).missing_ids
            ≡ suc (length r.jobs + length r.missing_ids)
      one none r = omega arith
      one (some job) r = omega arith

  -- The jobs are those of the identifiers from the start to the cursor; the page is not overfull.
  record IsGathered (start limit : ℕ) (ids : List Key) (l : Loop read) : Type 0 where
    after : start ≤ l.cursor
    gathered : l.jobs ≡ get_jobs read (take (l.cursor - start) (drop start ids))
    fits : length l.jobs ≤ limit

  next_window-fits :
      (limit : ℕ) (ids : List Key) (l : Loop read)
      → length l.jobs ≤ limit
      → length (next_window read limit ids l).jobs ≤ limit
  next_window-fits limit ids l f = omega (
    arith,
    length-append l.jobs (get_jobs read window),
    length-sorted window,
    f,
    length-take (l.cursor + (limit - length l.jobs) - l.cursor) (drop l.cursor ids),
  )
    where
      window : List Key
      window = slice l.cursor (l.cursor + (limit - length l.jobs)) ids

  next_window-IsGathered :
      (start limit : ℕ) (ids : List Key) (l : Loop read)
      → IsGathered start limit ids l
      → IsGathered start limit ids (next_window read limit ids l)
  next_window-IsGathered start limit ids l g = record {
    after = omega (arith, g.after);
    gathered =
        ap (λ xs. xs ++ get_jobs read (window l)) g.gathered
        ∙ (sym (get_jobs-append read (take k from) (window l))
            ∙ ap (get_jobs read) (
                ap (λ xs. take k from ++ xs)
                  (sym (
                      take-length-take (l.cursor + (limit - length l.jobs) - l.cursor)
                        (drop l.cursor ids))
                    ∙ ap (take (length (window l)))
                        (ap (λ c. drop c ids) cursor_eq ∙ sym (drop-drop start k ids)))
                ∙ (sym (take-plus k (length (window l)) from)
                    ∙ ap (λ n. take n from) (omega (arith, g.after)))));
    fits = next_window-fits limit ids l g.fits;
  }
    where
      k : ℕ
      k = l.cursor - start

      from : List Key
      from = drop start ids

      cursor_eq : l.cursor ≡ start + (l.cursor - start)
      cursor_eq = omega (arith, g.after)

      window : Loop read → List Key
      window l = slice l.cursor (l.cursor + (limit - length l.jobs)) ids

  -- Why a loop stops: the page is full, or the identifiers are at an end.
  abbrev IsDone : ℕ → List Key → Loop read → Type 0
  IsDone limit ids l = (length l.jobs ≡ limit) ⊎ (length ids ≤ l.cursor)

  next_window-progress :
      (limit : ℕ) (ids : List Key) (l : Loop read)
      → length l.jobs < limit
      → l.cursor < length ids
      → IsDone limit ids (next_window read limit ids l)
        ⊎ (suc (length l.missing_ids) ≤ length (next_window read limit ids l).missing_ids)
  next_window-progress limit ids l h c =
      rw (length-append l.jobs (get_jobs read window), length-append l.missing_ids (missing window))
        (progress (length (get_jobs read window)) (length l.missing_ids) (length (missing window))
          (length window) h c
          (length-take (l.cursor + (limit - length l.jobs) - l.cursor) (drop l.cursor ids)
            ∙ ap (min (l.cursor + (limit - length l.jobs) - l.cursor)) (length-drop l.cursor ids))
          (length-sorted window))
    where
      window : List Key
      window = slice l.cursor (l.cursor + (limit - length l.jobs)) ids

  hydrate-done :
      (windows limit : ℕ) (ids : List Key) (l : Loop read)
      → IsDone limit ids l
      → hydrate read windows limit ids l ≡ l
  unfolding hydrate
  hydrate-done zero limit ids l d = refl
  hydrate-done (suc windows) limit ids l d =
      rw (hydrate, off (length l.jobs) l.cursor limit (length ids) d) refl
    where
      off : (j c m n : ℕ) → (j ≡ m) ⊎ (n ≤ c) → (ltb j m && ltb c n) ≡ false
      off j c m n d = ground arith

  hydrate-stops :
      (windows limit : ℕ) (ids : List Key) (l : Loop read)
      → length l.jobs ≤ limit
      → IsDone limit ids (hydrate read windows limit ids l)
        ⊎ (windows + length l.missing_ids ≤ length (hydrate read windows limit ids l).missing_ids)
  unfolding hydrate
  hydrate-stops zero limit ids l f = inr (omega arith)
  hydrate-stops (suc windows) limit ids l f =
      elim (Bool-cases (ltb (length l.jobs) limit && ltb l.cursor (length ids))) [
        | inr off ↦
            rw (hydrate, off) (inl (stopped (length l.jobs) l.cursor limit (length ids) f off))
        | inl on ↦
            rw (hydrate, on)
              (elim (next_window-progress limit ids l (ground arith) (ground arith)) [
                | inl d ↦
                    rw (hydrate-done windows limit ids (next_window read limit ids l) d) (inl d)
                | inr more ↦
                    elim (hydrate-stops windows limit ids (next_window read limit ids l)
                      (next_window-fits limit ids l f)) [
                        | inl d ↦ inl d
                        | inr all ↦ inr (omega (arith, all, more))
                      ]
              ])
      ]
    where
      stopped : (j c m n : ℕ) → j ≤ m → (ltb j m && ltb c n) ≡ false → (j ≡ m) ⊎ (n ≤ c)
      stopped j c m n f h = ground arith

  hydrate-IsGathered :
      (windows start limit : ℕ) (ids : List Key) (l : Loop read)
      → IsGathered start limit ids l
      → IsGathered start limit ids (hydrate read windows limit ids l)
  unfolding hydrate
  hydrate-IsGathered zero start limit ids l g = g
  hydrate-IsGathered (suc windows) start limit ids l g =
      elim (Bool-cases (ltb (length l.jobs) limit && ltb l.cursor (length ids))) [
        | inl on ↦
            rw (hydrate, on)
              (hydrate-IsGathered windows start limit ids (next_window read limit ids l)
                (next_window-IsGathered start limit ids l g))
        | inr off ↦ rw (hydrate, off) g
      ]

  -- A page of the index holds the jobs of the first identifiers from its offset on, as many of those
  -- as it looked up, and is within its limit; it is short only when the identifiers are at an end or
  -- at least ten of them had no job.
  pub hydrate_index_page-jobs :
      (ids : List Key) (p : PaginationParams)
      → (k : ℕ) × ((hydrate_index_page read ids p).0
          ≡ get_jobs read (take k (drop (offset_of p) ids)))
        × (length (hydrate_index_page read ids p).0 ≤ p.limit)
        × (((length (hydrate_index_page read ids p).0 ≡ p.limit) ⊎ (length ids ≤ offset_of p + k))
            ⊎ (10 ≤ length (hydrate_index_page read ids p).2))
  unfolding hydrate_index_page
  hydrate_index_page-jobs ids p = (
    l.cursor - offset_of p,
    g.gathered,
    g.fits,
    elim (hydrate-stops 10 p.limit ids (start_of read p) (omega arith)) [
      | inl (inl full) ↦ inl (inl full)
      | inl (inr over) ↦ inl (inr (omega (arith, over, g.after)))
      | inr many ↦ inr (omega (arith, many))
    ],
  )
    where
      l : Loop read
      l = hydrate read 10 p.limit ids (start_of read p)

      nothing : (a : ℕ) → a - a ≡ 0
      nothing a = omega arith

      g : IsGathered (offset_of p) p.limit ids l
      g = hydrate-IsGathered 10 (offset_of p) p.limit ids (start_of read p) record {
        after = omega arith;
        gathered =
            ap (λ k. get_jobs read (take k (drop (offset_of p) ids))) (sym (nothing (offset_of p)));
        fits = omega arith;
      }
