-- ===== src/Search/Tests.antt =====
-- Pages and searches on small lists.
use jobs_scraper_global.Prelude.{
  ℕ, ◌≡◌, refl, ◌≤◌, ◌+◌, ◌⊎◌, Option, none, some, List, [], ◌∷◌, length, filter, take, drop, leb,
  eqb, if◌then◌else◌, trim_start,
}
use jobs_scraper_global.Search.Pagination.{PaginationParams, parse_int, parse_pagination, offset_of}
use jobs_scraper_global.Search.Hydration.{get_jobs, hydrate_index_page}
use jobs_scraper_global.Search.Query.{query, legacy_batches, batches_from}
use jobs_scraper_global.Search.Batches.{seen, query_lem}
use jobs_scraper_global.Search.Windows.{hydrate_index_page-jobs}

abbrev second : PaginationParams
second = record { page = 2; limit = 2 }

abbrev ids : List ℕ
ids = 1 ∷ 2 ∷ 3 ∷ 4 ∷ 5 ∷ 6 ∷ 7 ∷ []

-- Identifier 4 has no job.
abbrev read : ℕ → Option ℕ
read n = if eqb n 4 then none else some (10 + n)

parsed : parse_pagination (some " 3x") (some "-7") ≡ record { page = 3; limit = 1 }
unfolding parse_pagination parse_int trim_start
parsed = refl

-- The page goes on past the missing identifier.
hydrated : (hydrate_index_page read ids second).0 ≡ 13 ∷ 15 ∷ []
unfolding hydrate_index_page
hydrated = refl

searched : (query read (leb 12) second ids).page ≡ 15 ∷ 16 ∷ []
unfolding query legacy_batches batches_from
searched = refl

query_lem_example :
    query read (leb 12) second ids ≡ seen read (leb 12) second (filter (leb 12) (get_jobs read ids))
query_lem_example = query_lem read (leb 12) second ids

hydrate_index_page-jobs_example :
    (k : ℕ) × ((hydrate_index_page read ids second).0
      ≡ get_jobs read (take k (drop (offset_of second) ids)))
    × (length (hydrate_index_page read ids second).0 ≤ 2)
    × (((length (hydrate_index_page read ids second).0 ≡ 2) ⊎ (length ids ≤ offset_of second + k))
        ⊎ (10 ≤ length (hydrate_index_page read ids second).2))
hydrate_index_page-jobs_example = hydrate_index_page-jobs read ids second
