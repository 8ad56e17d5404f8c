-- ===== src/Search/Hydration.antt =====
-- `cacheGetJobsByIdsDetailed` of backend/src/lib/cache.ts, and `hydrateIndexPage` and
-- `orderIdsByProfileRelevance` of backend/src/modules/jobs/services/searchJobs.service.ts.
use jobs_scraper_global.Prelude.{
  ℕ, zero, suc, ◌+◌, ◌-◌, Bool, not, ◌&&◌, ◌||◌, Option, none, some, List, [], ◌∷◌, ◌++◌, length,
  filter, slice, ltb, eqb, if◌then◌else◌,
}
use jobs_scraper_global.Search.Pagination.{PaginationParams, Pagination, pagination_of, offset_of}

-- `CacheJobsByIdsResult`.
pub record JobsByIds (Key Job : Type 0) : Type 0 where
  pub jobs : List Job
  pub missing_ids : List Key

-- What the server holds under an identifier, `none` also for a text that is no job. The jobs do not
-- change during a call.
module _ {Key Job : Type 0} (read : Key → Option Job) where
  abbrev pub sort_out : Key → Option Job → JobsByIds Key Job → JobsByIds Key Job
  sort_out id none r = record { jobs = r.jobs; missing_ids = id ∷ r.missing_ids }
  sort_out id (some job) r = record { jobs = job ∷ r.jobs; missing_ids = r.missing_ids }

  abbrev pub cache_get_jobs_by_ids_detailed : List Key → JobsByIds Key Job
  cache_get_jobs_by_ids_detailed [] = record { jobs = []; missing_ids = [] }
  cache_get_jobs_by_ids_detailed (id ∷ ids) =
      sort_out id (read id) (cache_get_jobs_by_ids_detailed ids)

  abbrev pub get_jobs : List Key → List Job
  get_jobs ids = (cache_get_jobs_by_ids_detailed ids).jobs

  -- `MAX_HYDRATION_WINDOWS`.
  abbrev pub max_hydration_windows : ℕ
  max_hydration_windows = 10

  -- `jobs`, `missingIds` and `cursor`.
  pub record Loop : Type 0 where
    pub jobs : List Job
    pub missing_ids : List Key
    pub cursor : ℕ

  -- One round of the loop.
  abbrev pub next_window : ℕ → List Key → Loop → Loop
  next_window limit ids l =
      let window = slice l.cursor (l.cursor + (limit - length l.jobs)) ids in
      let hydrated = cache_get_jobs_by_ids_detailed window in
      record {
        jobs = l.jobs ++ hydrated.jobs;
        missing_ids = l.missing_ids ++ hydrated.missing_ids;
        cursor = l.cursor + length window;
      }

  -- The loop, with the windows that are left.
  unfoldable pub hydrate : ℕ → ℕ → List Key → Loop → Loop
  hydrate zero limit ids l = l
  hydrate (suc windows) limit ids l =
      let rest = hydrate windows limit ids (next_window limit ids l) in
      if ltb (length l.jobs) limit && ltb l.cursor (length ids) then rest else l

  abbrev pub start_of : PaginationParams → Loop
  start_of p = record { jobs = []; missing_ids = []; cursor = offset_of p }

  -- The jobs, the description of the page, and the identifiers that are removed from the index.
  unfoldable pub hydrate_index_page : List Key → PaginationParams → List Job × Pagination × List Key
  unfolding hydrate
  hydrate_index_page ids p =
      let l = hydrate max_hydration_windows p.limit ids (start_of p) in
      (l.jobs, pagination_of (length ids - length l.missing_ids) p, l.missing_ids)

-- `orderIdsByProfileRelevance` after the names are trimmed: whether there are any, the identifiers
-- that they find, and the test of the set of those. `none` is a search that fails.
abbrev pub preferred_first : {Key : Type 0} → (Key → Bool) → List Key → List Key × ℕ
preferred_first relevant ids =
    let preferred = filter relevant ids in
    if eqb (length preferred) 0
    then (ids, 0)
    else (preferred ++ filter (λ id. not (relevant id)) ids, length preferred)

unfoldable pub order_ids_by_profile_relevance :
    {Key : Type 0} → Bool → Option (Key → Bool) → List Key → List Key × ℕ
order_ids_by_profile_relevance has_names none ids = (ids, 0)
order_ids_by_profile_relevance has_names (some relevant) ids =
    let ordered = preferred_first relevant ids in
    if not has_names || eqb (length ids) 0 then (ids, 0) else ordered
