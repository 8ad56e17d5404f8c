-- ===== src/Search/Query.antt =====
-- `JobSearchRepository.query` of backend/src/modules/jobs/repositories/jobSearch.repository.ts
-- without an index and without sorting by match.
use jobs_scraper_global.Prelude.{
  ℕ, zero, suc, ◌+◌, Bool, ◌&&◌, Option, List, [], ◌∷◌, ◌++◌, length, filter, take, drop, leb, ltb,
  if◌then◌else◌,
}
use jobs_scraper_global.Search.Pagination.{PaginationParams, offset_of}
use jobs_scraper_global.Search.Hydration.{get_jobs}

-- `page` and `total`.
pub record Found (Job : Type 0) : Type 0 where
  pub page : List Job
  pub total : ℕ

-- `BATCH_SIZE`.
abbrev pub batch_size : ℕ
batch_size = 200

-- `read` gives the job with an identifier, if there is one; `matches` is the test of `filterJobs`.
module _ {Key Job : Type 0} (read : Key → Option Job) (matches : Job → Bool) where
  -- The slices of `legacyBatches` from a cursor on; a round for each identifier is enough.
  unfoldable pub batches_from : ℕ → List Key → List (List Job)
  batches_from zero ids = []
  batches_from (suc fuel) [] = []
  batches_from (suc fuel) (id ∷ ids) =
      get_jobs read (take batch_size (id ∷ ids)) ∷ batches_from fuel (drop batch_size (id ∷ ids))

  unfoldable pub legacy_batches : List Key → List (List Job)
  unfolding batches_from
  legacy_batches ids = batches_from (length ids) ids

  -- One round of the inner loop.
  abbrev pub visit : PaginationParams → Found Job → Job → Found Job
  visit p f job = record {
    page =
        if leb (offset_of p) f.total && ltb (length f.page) p.limit
        then f.page ++ (job ∷ [])
        else f.page;
    total = f.total + 1;
  }

  abbrev pub visit_all : PaginationParams → Found Job → List Job → Found Job
  visit_all p f [] = f
  visit_all p f (job ∷ jobs) = visit_all p (visit p f job) jobs

  abbrev pub visit_batches : PaginationParams → Found Job → List (List Job) → Found Job
  visit_batches p f [] = f
  visit_batches p f (batch ∷ batches) =
      visit_batches p (visit_all p f (filter matches batch)) batches

  unfoldable pub query : PaginationParams → List Key → Found Job
  unfolding legacy_batches
  query p ids = visit_batches p (record { page = []; total = 0 }) (legacy_batches ids)
