-- ===== src/Search/Parsers/Plain.antt =====
-- A search whose query asks for nothing but keywords needs no filtering: `SearchJobsService.execute`
-- of backend/src/modules/jobs/services/searchJobs.service.ts then reads the plain index.
use jobs_scraper_global.Prelude.{
  String, ◌≡◌, refl, Bool, true, false, not, ◌&&◌, List, [], ◌∷◌, map, or_text, arith, ◌==◌, eq_iff,
}
use jobs_scraper_global.Search.Filters.Comparable.{
  Unicode, SearchJob, normalize_comparable, normalize_level_filter,
}
use jobs_scraper_global.Search.Filters.Jobs.{
  ParsedJobSearchQuery, is_empty, wants_nothing, wanted, filter_wanted, filter_jobs,
}
use jobs_scraper_global.Search.Parsers.Query.{has_post_only_filters, has_structured_filters}

-- Nothing is asked for but keywords and an order.
IsPlain : ParsedJobSearchQuery → Type 0
IsPlain f =
    (f.level ≡ "")
    × (f.seniority ≡ "")
    × (or_text f.country f.location ≡ "")
    × (f.continent ≡ "")
    × (f.state ≡ "")
    × (f.city ≡ "")
    × (f.contract ≡ "")
    × (f.job_types ≡ [])
    × (f.families ≡ [])
    × (f.technology ≡ [])
    × (f.company ≡ [])

and_true : {a b : Bool} → a ≡ true → b ≡ true → a && b ≡ true
and_true h k = rw (h, k) refl

blank_of : (t : String) → not (t == "") ≡ false → t ≡ ""
blank_of t h = (eq_iff t "").0 (ground arith)

or_blank : (a b : String) → a ≡ "" → b ≡ "" → or_text a b ≡ ""
or_blank a b h k = rw (h, k) refl

empty_of : (ts : List String) → not (is_empty ts) ≡ false → ts ≡ []
empty_of [] h = refl
empty_of (t ∷ ts) h = cc

module _ (f : ParsedJobSearchQuery) where
  unfiltered-IsPlain :
      has_structured_filters f ≡ false → has_post_only_filters f ≡ false → IsPlain f
  unfolding IsPlain has_structured_filters has_post_only_filters
  unfiltered-IsPlain h k = (
    blank_of f.level (ground arith),
    blank_of f.seniority (ground arith),
    or_blank f.country f.location (blank_of f.country (ground arith))
        (blank_of f.location (ground arith)),
    blank_of f.continent (ground arith),
    blank_of f.state (ground arith),
    blank_of f.city (ground arith),
    blank_of f.contract (ground arith),
    empty_of f.job_types (ground arith),
    empty_of f.families (ground arith),
    empty_of f.technology (ground arith),
    empty_of f.company k,
  )

module _ (u : Unicode) (decompose_empty : u.decompose "" ≡ "")
    (to_lower_case_empty : u.to_lower_case "" ≡ "") where
  normalize_empty : normalize_comparable u "" ≡ ""
  unfolding normalize_comparable
  normalize_empty = rw (decompose_empty, to_lower_case_empty) refl

  level_empty : normalize_level_filter u "" ≡ ""
  unfolding normalize_level_filter
  level_empty = rw normalize_empty refl

  normal_blank : (t : String) → t ≡ "" → (normalize_comparable u t == "") ≡ true
  normal_blank t h = rw (h, normalize_empty) refl

  level_blank : (t : String) → t ≡ "" → (normalize_level_filter u t == "") ≡ true
  level_blank t h = rw (h, level_empty) refl

  map_blank : (ts : List String) → ts ≡ [] → is_empty (map (normalize_comparable u) ts) ≡ true
  map_blank ts h = rw h refl

  wanted_plain : (f : ParsedJobSearchQuery) → IsPlain f → wants_nothing (wanted u f) ≡ true
  unfolding IsPlain wanted
  wanted_plain f p =
      and_true
        (and_true
          (and_true
            (and_true
              (and_true
                (and_true
                  (and_true
                    (and_true
                      (and_true (and_true (level_blank f.level p.0) (level_blank f.seniority p.1))
                        (normal_blank (or_text f.country f.location) p.2))
                      (normal_blank f.continent p.3))
                    (normal_blank f.state p.4))
                  (normal_blank f.city p.5))
                (normal_blank f.contract p.6))
              (map_blank f.job_types p.7))
            (map_blank f.families p.8))
          (map_blank f.technology p.9))
        (map_blank f.company p.10)

  -- A query with neither structured filters nor those that are applied afterwards keeps every job, so
  -- that reading the plain index without filtering leaves nothing out and adds nothing.
  pub filter_jobs-plain :
      (f : ParsedJobSearchQuery) (jobs : List SearchJob)
      → has_structured_filters f ≡ false
      → has_post_only_filters f ≡ false
      → filter_jobs u f jobs ≡ jobs
  unfolding filter_jobs
  filter_jobs-plain f jobs h k = rw (filter_wanted, wanted_plain f (unfiltered-IsPlain f h k)) refl
