-- ===== src/Search/Ranking/Tests.antt =====
-- A page of ranked jobs.
use jobs_scraper_global.Prelude.{
  ℕ, ◌≡◌, refl, Bool, true, Option, none, some, List, [], ◌∷◌, length, filter, slice, eqb,
  if◌then◌else◌,
}
use jobs_scraper_global.Search.Pagination.{PaginationParams}
use jobs_scraper_global.Search.Hydration.{get_jobs}
use jobs_scraper_global.Search.Query.{legacy_batches, batches_from}
use jobs_scraper_global.Search.Filters.Jobs.{desc}
use jobs_scraper_global.Search.Ranking.{ids_of, sort, ranks_before, ranked_query}
use jobs_scraper_global.Search.Ranking.TopRanked.{all_candidates, ranked_query_lem}

abbrev ids : List ℕ
ids = 1 ∷ 2 ∷ 3 ∷ 4 ∷ 5 ∷ []

-- Identifier 4 has no job.
abbrev read : ℕ → Option ℕ
read n = if eqb n 4 then none else some n

abbrev every : ℕ → Bool
every n = true

-- Jobs 2 and 5 match best.
abbrev score : ℕ → ℕ
score n = if eqb n 2 then 90 else if eqb n 5 then 90 else 45

abbrev page : PaginationParams
page = record { page = 1; limit = 3 }

best_first : ranked_query read every score (λ n. n) desc page ids ≡ (2 ∷ 5 ∷ 1 ∷ [], 4)
unfolding ranked_query legacy_batches batches_from
best_first = refl

ranked_query_lem_example : ranked_query read every score (λ n. n) desc page ids ≡ (
  get_jobs read (
      ids_of read every score
        (λ n. n)
        desc
        (slice 0 3 (
          sort
            (ranks_before desc)
            (all_candidates read every score (λ n. n) desc (filter every (get_jobs read ids)))))),
  length (filter every (get_jobs read ids)),
)
ranked_query_lem_example = ranked_query_lem read every score (λ n. n) desc page ids
