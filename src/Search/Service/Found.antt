-- ===== src/Search/Service/Found.antt =====
-- What an answer of `SearchJobsService.execute` shows, and what it leaves.
use jobs_scraper_global.Prelude.{String, ◌≡◌, ◌⊎◌, Bool, true, some, List, All}
use jobs_scraper_global.Postgres.{Postgres}
use jobs_scraper_global.Career.Store.{Db}
use jobs_scraper_global.Search.Filters.Comparable.{Unicode}
use jobs_scraper_global.Search.Filters.Jobs.{ParsedJobSearchQuery, desc, passes, wanted}
use jobs_scraper_global.Search.Profile.{Turn}
use jobs_scraper_global.Search.Service.{
  StoredJob, Outcome, Valkey, Searcher, sort_jobs_by_match, ranking_id, enriched,
}

module _ (u : Unicode) (locale_le : String → String → Bool) (pg : Postgres) (v : Valkey)
    (w : Searcher) where
  abbrev pub Passes : ParsedJobSearchQuery → StoredJob → Type 0
  Passes f job = passes u f.family_mode (wanted u f) job.fields ≡ true

  -- The answer shows jobs that pass every filter, with their match, perhaps sorted by it, and leaves
  -- the store as enriching them leaves it.
  abbrev pub IsFound : ParsedJobSearchQuery → List Turn → Db → Outcome → Type 0
  IsFound f turns s o =
      (found : List StoredJob) × All (Passes f) found
      × ((o.result.jobs ≡ (enriched u locale_le pg v w turns found s).0)
          ⊎ (o.result.jobs ≡ sort_jobs_by_match desc (enriched u locale_le pg v w turns found s).0))
      × (o.store ≡ (enriched u locale_le pg v w turns found s).1)

  -- Every job is stored under its own identifier.
  abbrev pub IsKeyed : Type 0
  IsKeyed = (k : String) (j : StoredJob) → v.job_of k ≡ some j → ranking_id u locale_le pg v w j ≡ k
