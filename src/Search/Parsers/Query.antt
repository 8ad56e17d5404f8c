-- ===== src/Search/Parsers/Query.antt =====
-- `parseJobSearchQuery` and the tests of what it gives:
-- backend/src/modules/jobs/parsers/jobSearchQuery.parser.ts.
use jobs_scraper_global.Prelude.{
  String, Bool, not, ◌||◌, Option, none, some, List, [], ◌∷◌, or_text, if◌then◌else◌, ◌==◌,
}
use jobs_scraper_global.Exec.{Result, ok, err}
use jobs_scraper_global.Search.Filters.Jobs.{ParsedJobSearchQuery, MatchSort, asc, desc, is_empty}
use jobs_scraper_global.Search.Parsers.Values.{QueryValue, query_values, first_query_value}
use jobs_scraper_global.Search.Parsers.Families.{Families, parse_family_query}

-- The parameters that are read.
pub record RequestQuery : Type 0 where
  pub keywords : QueryValue
  pub family : QueryValue
  pub family_mode : QueryValue
  pub technology : QueryValue
  pub company : QueryValue
  pub model : QueryValue
  pub job_type : QueryValue
  pub level : QueryValue
  pub seniority : QueryValue
  pub location : QueryValue
  pub continent : QueryValue
  pub country : QueryValue
  pub state : QueryValue
  pub city : QueryValue
  pub contract : QueryValue
  pub contract_type : QueryValue
  pub job_types : QueryValue
  pub match_sort : QueryValue
  pub sort : QueryValue

abbrev pub values_or : List String → List String → List String
values_or [] ts = ts
values_or (s ∷ ss) ts = s ∷ ss

abbrev pub sort_of : String → Option MatchSort
sort_of s = if s == "asc" then some asc else if s == "desc" then some desc else none

-- The query, with the families that have been read.
abbrev pub with_families : RequestQuery → Result Families → Result ParsedJobSearchQuery
unfolding query_values first_query_value
with_families q (err e) = err e
with_families q (ok (families, mode)) = ok (record {
  keywords = query_values q.keywords;
  families = families;
  family_mode = mode;
  technology = query_values q.technology;
  company = query_values q.company;
  job_types = values_or (query_values q.model) (query_values q.job_type);
  level = first_query_value q.level;
  seniority = first_query_value q.seniority;
  location = first_query_value q.location;
  continent = first_query_value q.continent;
  country = first_query_value q.country;
  state = first_query_value q.state;
  city = first_query_value q.city;
  contract =
      or_text (or_text (first_query_value q.contract) (first_query_value q.contract_type))
        (first_query_value q.job_types);
  match_sort = sort_of (or_text (first_query_value q.match_sort) (first_query_value q.sort));
})

unfoldable pub parse_job_search_query : RequestQuery → Result ParsedJobSearchQuery
unfolding query_values first_query_value parse_family_query
parse_job_search_query q = with_families q (parse_family_query q.family q.family_mode)

unfoldable pub has_post_only_filters : ParsedJobSearchQuery → Bool
has_post_only_filters f = not (is_empty f.company)

unfoldable pub has_structured_filters : ParsedJobSearchQuery → Bool
has_structured_filters f =
    not (f.level == "")
    || not (f.location == "")
    || not (f.country == "")
    || not (f.continent == "")
    || not (f.state == "")
    || not (f.city == "")
    || not (is_empty f.families)
    || not (is_empty f.technology)
    || not (f.seniority == "")
    || not (is_empty f.job_types)
    || not (f.contract == "")
