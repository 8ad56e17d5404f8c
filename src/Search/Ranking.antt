-- ===== src/Search/Ranking.antt =====
-- `JobSearchRepository.query` of backend/src/modules/jobs/repositories/jobSearch.repository.ts with
-- sorting by match and without an index.
pub mod Sorting
pub mod TopRanked
mod Tests
use jobs_scraper_global.Prelude.{
  ℕ, zero, suc, ◌+◌, ◌-◌, min, Bool, ◌&&◌, ◌||◌, Option, List, [], ◌∷◌, ◌++◌, map, length, filter,
  slice, take, ltb, leb, eqb, if◌then◌else◌,
}
use jobs_scraper_global.Search.Pagination.{PaginationParams, offset_of}
use jobs_scraper_global.Search.Hydration.{get_jobs}
use jobs_scraper_global.Search.Query.{legacy_batches}
use jobs_scraper_global.Search.Filters.Jobs.{MatchSort, asc, desc}

pub record RankedJob (Key : Type 0) : Type 0 where
  pub id : Key
  pub rank : ℕ
  pub score : ℕ

-- Whether `compare a b` is at most 0.
abbrev pub ranks_before : {Key : Type 0} → MatchSort → RankedJob Key → RankedJob Key → Bool
ranks_before asc a b = ltb a.score b.score || (eqb a.score b.score && leb a.rank b.rank)
ranks_before desc a b = ltb b.score a.score || (eqb a.score b.score && leb a.rank b.rank)

module _ {A : Type 0} (before : A → A → Bool) where
  abbrev pub insert : A → List A → List A
  insert a [] = a ∷ []
  insert a (b ∷ bs) = let rest = insert a bs in if before a b then a ∷ b ∷ bs else b ∷ rest

  -- `sort(compare)`, which keeps the order of elements that compare as equal.
  abbrev pub sort : List A → List A
  sort [] = []
  sort (a ∷ bs) = insert a (sort bs)

-- `read` gives the job with an identifier, `matches` is the test of `filterJobs`, `score` the match of a
-- job after `enrich`, or 0, and `key` its identifier.
module _ {Key Job : Type 0} (read : Key → Option Job) (matches : Job → Bool) (score : Job → ℕ)
    (key : Job → Key) (order : MatchSort) where
  -- `candidates`, from a rank on.
  abbrev pub candidates : ℕ → List Job → List (RankedJob Key)
  candidates rank [] = []
  candidates rank (job ∷ jobs) =
      record { id = key job; rank = rank; score = score job } ∷ candidates (suc rank) jobs

  -- `ranked` and `total`.
  pub record Ranking : Type 0 where
    pub ranked : List (RankedJob Key)
    pub total : ℕ

  abbrev pub rank_batch : ℕ → Ranking → List Job → Ranking
  rank_batch capacity r jobs = record {
    ranked = take capacity (sort (ranks_before order) (r.ranked ++ candidates r.total jobs));
    total = r.total + length jobs;
  }

  abbrev pub rank_batches : ℕ → Ranking → List (List Job) → Ranking
  rank_batches capacity r [] = r
  rank_batches capacity r (batch ∷ batches) =
      rank_batches capacity (rank_batch capacity r (filter matches batch)) batches

  abbrev pub capacity_of : PaginationParams → List Key → ℕ
  capacity_of p ids = min (length ids) (offset_of p + p.limit)

  abbrev pub ids_of : List (RankedJob Key) → List Key
  ids_of = map (λ a. a.id)

  -- The jobs of the page, read again, and the total.
  unfoldable pub ranked_query : PaginationParams → List Key → List Job × ℕ
  unfolding legacy_batches
  ranked_query p ids =
      let r =
        rank_batches (capacity_of p ids) (record { ranked = []; total = 0 })
          (legacy_batches read matches ids) in
      (get_jobs read (ids_of (slice (offset_of p) (offset_of p + p.limit) r.ranked)), r.total)
