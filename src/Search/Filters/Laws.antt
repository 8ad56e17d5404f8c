-- ===== src/Search/Filters/Laws.antt =====
-- Which jobs the filters of a search let through.
use jobs_scraper_global.Prelude.{
  String, ◌≡◌, refl, sym, ap, Bool, true, List, [], ◌∷◌, map, any, filter, present, member, arith,
  Bool-cases, inl, inr, ◌==◌,
}
use jobs_scraper_global.Search.Filters.Comparable.{Unicode, SearchJob, normalize_comparable}
use jobs_scraper_global.Search.Filters.Places.{matches_location_part, matches_location_filter}
use jobs_scraper_global.Search.Filters.Jobs.{
  FamilyMode, primary, any_family, ParsedJobSearchQuery, Wanted, wants_nothing, primary_of,
  related_of, wanted, classified_families, some_in, passes, filter_wanted, filter_jobs,
}

filter_all : {A : Type 0} (p : A → Bool) (xs : List A) → ((a : A) → p a ≡ true) → filter p xs ≡ xs
filter_all p [] h = refl
filter_all p (a ∷ xs) h = rw (filter, h a) (ap (◌∷◌ a) (filter_all p xs h))

module _ (u : Unicode) where
  passes-wants_nothing :
      (mode : FamilyMode) (w : Wanted) (job : SearchJob)
      → wants_nothing w ≡ true
      → passes u mode w job ≡ true
  unfolding passes matches_location_part matches_location_filter
  passes-wants_nothing mode w job h = ground arith

  filter_wanted-eq-filter :
      (mode : FamilyMode) (w : Wanted) (jobs : List SearchJob)
      → filter_wanted u mode w jobs ≡ filter (passes u mode w) jobs
  unfolding passes
  filter_wanted-eq-filter mode w jobs = elim (Bool-cases (wants_nothing w)) [
    | inl nothing ↦
        rw (filter_wanted, nothing)
          (sym (filter_all (passes u mode w) jobs (λ job. passes-wants_nothing mode w job nothing)))
    | inr something ↦ rw (filter_wanted, something) refl
  ]

  -- The jobs that a search keeps are those that pass every filter, also where the filters are found
  -- empty and the jobs are returned at once.
  pub filter_jobs-eq-filter :
      (f : ParsedJobSearchQuery) (jobs : List SearchJob)
      → filter_jobs u f jobs ≡ filter (passes u f.family_mode (wanted u f)) jobs
  unfolding filter_jobs
  filter_jobs-eq-filter f jobs = filter_wanted-eq-filter f.family_mode (wanted u f) jobs

member-present :
    (f : String → String) (xs : List String) (s t : String)
    → member (map f (present (s ∷ []))) t ≡ true
    → member (map f (present (s ∷ xs))) t ≡ true
member-present f xs s t h = elim (Bool-cases (s == "")) [
  | inl blank ↦ ground arith
  | inr word ↦ ground arith
]

any_mono :
    (p q : String → Bool)
    → ((t : String) → p t ≡ true → q t ≡ true)
    → (ts : List String) → any p ts ≡ true
    → any q ts ≡ true
any_mono p q h [] e = e
any_mono p q h (t ∷ ts) e = ground (arith, h t, any_mono p q h ts)

some_in_mono :
    (wants has more : List String)
    → ((t : String) → member has t ≡ true → member more t ≡ true)
    → some_in wants has ≡ true
    → some_in wants more ≡ true
some_in_mono wants has more h e = ground (arith, any_mono (member has) (member more) h wants)

module _ (u : Unicode) where
  families_mono :
      (wants : List String) (job : SearchJob)
      → some_in wants (classified_families u primary job) ≡ true
      → some_in wants (classified_families u any_family job) ≡ true
  families_mono wants job =
      some_in_mono wants (classified_families u primary job) (classified_families u any_family job)
        (member-present (normalize_comparable u) (related_of any_family job.classification)
          (primary_of job.classification))

  -- A job that passes with its primary family alone passes with any of its families, under the same
  -- other filters.
  pub passes_any_family :
      (w : Wanted) (job : SearchJob)
      → passes u primary w job ≡ true
      → passes u any_family w job ≡ true
  unfolding passes
  passes_any_family w job h = ground (arith, families_mono w.families job)
