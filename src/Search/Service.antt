-- ===== src/Search/Service.antt =====
-- `SearchJobsService.execute` of backend/src/modules/jobs/services/searchJobs.service.ts, where Valkey
-- has no active index, with `sortJobsByMatch` of filters/jobSearch.filter.ts.
pub mod Kept
pub mod Found
pub mod Bounds
pub mod Tests
use jobs_scraper_global.Prelude.{
  ℕ, String, Bool, true, false, not, ◌&&◌, ◌||◌, Option, none, some, List, [], ◌∷◌, map, filter,
  leb, eqb, or_else, trim, is_some, ◌==◌, if◌then◌else◌, concat, join, member, present,
}
use jobs_scraper_global.Exec.{Result, ok, err}
use jobs_scraper_global.Postgres.{Postgres}
use jobs_scraper_global.Career.Store.{Db}
use jobs_scraper_global.Search.Pagination.{
  PaginationParams, Pagination, pagination_of, parse_pagination,
}
use jobs_scraper_global.Search.Hydration.{hydrate_index_page, order_ids_by_profile_relevance}
use jobs_scraper_global.Search.Query.{query}
use jobs_scraper_global.Search.Ranking.{sort, ranked_query}
use jobs_scraper_global.Search.Filters.Comparable.{Unicode, SearchJob}
use jobs_scraper_global.Search.Filters.Jobs.{
  ParsedJobSearchQuery, MatchSort, asc, desc, passes, wanted, is_empty,
}
use jobs_scraper_global.Search.Parsers.Values.{unique}
use jobs_scraper_global.Search.Parsers.Query.{
  RequestQuery, parse_job_search_query, has_structured_filters, has_post_only_filters,
}
use jobs_scraper_global.Search.Matching.Technologies.{TechnologyExperience}
use jobs_scraper_global.Search.Matching.Profile.{MatchPreferences}
use jobs_scraper_global.Search.Profile.{
  MatchedJob, Turn, enrich, scored, no_preferences, has_none, is_none,
}

-- A job of Valkey as the filters and as the match read it.
pub record StoredJob : Type 0 where
  pub fields : SearchJob
  pub matched : MatchedJob

abbrev pub match_or_zero : MatchedJob → ℕ
match_or_zero job = or_else job.match_score 0

abbrev pub before_by_match : MatchSort → MatchedJob → MatchedJob → Bool
before_by_match asc a b = leb (match_or_zero a) (match_or_zero b)
before_by_match desc a b = leb (match_or_zero b) (match_or_zero a)

unfoldable pub sort_jobs_by_match : MatchSort → List MatchedJob → List MatchedJob
sort_jobs_by_match direction jobs = sort (before_by_match direction) jobs

-- `SearchJobsResult`.
pub record SearchJobsResult : Type 0 where
  pub pagination : Pagination
  pub jobs : List MatchedJob
  pub source : String

-- The answer, the identifiers that are removed from the index, and the store.
pub record Outcome : Type 0 where
  pub result : SearchJobsResult
  pub removed : List String
  pub store : Db

-- What Valkey holds: the job under an identifier, the identifiers that keywords find, `none` where
-- the search for a profile fails, and the index of all.
pub record Valkey : Type 0 where
  pub job_of : String → Option StoredJob
  pub search_keywords : List String → List String
  pub search_profile : List String → Option (List String)
  pub index : List String

-- The one who searches: the user, and what `getUserTechnologies` gives.
pub record Searcher : Type 0 where
  pub user_id : Option String
  pub technologies : List TechnologyExperience
  pub preferences : Option MatchPreferences

abbrev pub names_of_profile : List TechnologyExperience → List String
unfolding trim
names_of_profile ts = present (map (λ t. trim t.name) ts)

-- The set of the identifiers that are found.
abbrev pub among : Option (List String) → Option (String → Bool)
among none = none
among (some ids) = some (member ids)

abbrev pub source_of : ParsedJobSearchQuery → String
source_of f =
    if is_empty f.keywords
    then "valkey_global_index"
    else concat ("valkey_filtered_by_keywords:" ∷ join "+" f.keywords ∷ [])

abbrev pub sorted_suffix : Option MatchSort → String
sorted_suffix none = ""
sorted_suffix (some asc) = ":match_sorted_asc"
sorted_suffix (some desc) = ":match_sorted_desc"

module _ (v : Valkey) where
  -- `legacyResolveIds`.
  abbrev pub legacy_resolve_ids : ParsedJobSearchQuery → List String
  legacy_resolve_ids f = if is_empty f.keywords then v.index else v.search_keywords f.keywords

  -- The order of the identifiers, and how many of them the profile finds.
  abbrev pub relevance_of : List TechnologyExperience → List String → List String × ℕ
  unfolding order_ids_by_profile_relevance trim
  relevance_of ts ids =
      order_ids_by_profile_relevance (not (is_empty (names_of_profile ts)))
        (among (v.search_profile (names_of_profile ts))) ids

module _ (u : Unicode) (locale_le : String → String → Bool) (pg : Postgres) (v : Valkey)
    (w : Searcher) where
  abbrev pub matches : ParsedJobSearchQuery → StoredJob → Bool
  unfolding passes wanted
  matches f job = passes u f.family_mode (wanted u f) job.fields

  -- The score of a job after `enrich`, and its identifier, as the ranking reads them.
  abbrev pub ranking_score : StoredJob → ℕ
  unfolding scored
  ranking_score job =
      let enriched =
        scored u locale_le pg w.technologies (or_else w.preferences no_preferences) job.matched in
      if has_none w.technologies && is_none w.preferences
      then match_or_zero job.matched
      else match_or_zero enriched

  abbrev pub ranking_id : StoredJob → String
  ranking_id job = or_else job.matched.id "undefined"

  -- `JobSearchRepository.query`: the page and the total.
  abbrev pub repository_query :
      Option MatchSort → ParsedJobSearchQuery → PaginationParams → List String → List StoredJob × ℕ
  unfolding query ranked_query
  repository_query none f p ids =
      let found = query v.job_of (matches f) p ids in (found.page, found.total)
  repository_query (some order) f p ids =
      ranked_query v.job_of (matches f) ranking_score ranking_id order p ids

  abbrev pub enriched : List Turn → List StoredJob → Db → List MatchedJob × Db
  unfolding enrich
  enriched turns found s =
      let r =
        enrich u locale_le pg w.user_id turns (map (λ j. j.matched) found) w.technologies
          w.preferences true s in
      (r.0, r.1.1)

  -- The branch of a search with filters or sorting.
  unfoldable pub filtered : ParsedJobSearchQuery → PaginationParams → List Turn → Db → Outcome
  unfolding repository_query enriched unique
  filtered f p turns s =
      let found = repository_query f.match_sort f p (unique (legacy_resolve_ids v f)) in
      let e = enriched turns found.0 s in
      record {
        result = record {
          pagination = pagination_of found.1 p;
          jobs = e.0;
          source = concat (source_of f ∷ ":verified_batches" ∷ sorted_suffix f.match_sort ∷ []);
        };
        removed = [];
        store = e.1;
      }

  -- The branch of a search without them.
  unfoldable pub unfiltered : ParsedJobSearchQuery → PaginationParams → List Turn → Db → Outcome
  unfolding hydrate_index_page relevance_of enriched sort_jobs_by_match
  unfiltered f p turns s =
      let relevance = relevance_of v w.technologies (legacy_resolve_ids v f) in
      let page = hydrate_index_page v.job_of relevance.0 p in
      let e = enriched turns page.0 s in
      let sorted = sort_jobs_by_match desc e.0 in
      record {
        result = record {
          pagination = page.1;
          jobs = if eqb relevance.1 0 then e.0 else sorted;
          source =
              if eqb relevance.1 0
              then source_of f
              else concat (source_of f ∷ ":profile_ranked" ∷ []);
        };
        removed = page.2;
        store = e.1;
      }

  abbrev pub answer : ParsedJobSearchQuery → PaginationParams → List Turn → Db → Outcome
  unfolding filtered unfiltered has_structured_filters has_post_only_filters
  answer f p turns s =
      let with_filters = filtered f p turns s in
      let without = unfiltered f p turns s in
      if has_structured_filters f || has_post_only_filters f || is_some f.match_sort
      then with_filters
      else without

  abbrev pub answered :
      Result ParsedJobSearchQuery → PaginationParams → List Turn → Db → Result Outcome
  unfolding answer
  answered (err e) p turns s = err e
  answered (ok f) p turns s = ok (answer f p turns s)

  -- The texts are those of the parameters page and limit.
  unfoldable pub execute :
      RequestQuery → Option String → Option String → List Turn → Db → Result Outcome
  unfolding answered parse_job_search_query parse_pagination
  execute q page limit turns s =
      answered (parse_job_search_query q) (parse_pagination page limit) turns s
