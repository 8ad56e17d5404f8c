-- ===== src/Search/Parsers/Tests.antt =====
-- Queries that are read.
use jobs_scraper_global.Prelude.{String, ◌≡◌, ◌≢◌, refl, ◌⊎◌, true, none, List, [], ◌∷◌, join}
use jobs_scraper_global.Exec.{ok}
use jobs_scraper_global.Search.Filters.Jobs.{primary, any_family, ParsedJobSearchQuery, filter_jobs}
use jobs_scraper_global.Search.Filters.Comparable.{Unicode, SearchJob}
use jobs_scraper_global.Search.Parsers.Values.{
  QueryValue, missing, text, array, end, item, query_values,
}
use jobs_scraper_global.Search.Parsers.Families.{
  family_values, is_public_family, parse_family_query,
}
use jobs_scraper_global.Search.Parsers.Query.{has_structured_filters, has_post_only_filters}
use jobs_scraper_global.Search.Parsers.Canonical.{IsCanonical, parse_family_query-IsCanonical}
use jobs_scraper_global.Search.Parsers.RoundTrip.{parse_family_query-join}
use jobs_scraper_global.Search.Parsers.Plain.{filter_jobs-plain}

abbrev repeated : QueryValue
repeated = array (item (text "qa, backend") (item (text "qa") end))

abbrev two : List String
two = "backend" ∷ "qa" ∷ []

repeated_read : parse_family_query repeated (text "primary") ≡ ok (two, primary)
unfolding parse_family_query family_values is_public_family
repeated_read = refl

listed : query_values repeated ≡ "qa" ∷ "backend" ∷ "qa" ∷ []
unfolding query_values
listed = refl

given : repeated ≢ missing
given h = cc

parse_family_query-IsCanonical_example : ((repeated ≡ missing) × (two ≡ [])) ⊎ IsCanonical two
parse_family_query-IsCanonical_example =
    parse_family_query-IsCanonical repeated (text "primary") two primary repeated_read

parse_family_query-join_example :
    parse_family_query (text (join "," two)) (text "primary") ≡ ok (two, primary)
parse_family_query-join_example =
    parse_family_query-join repeated (text "primary") two primary given repeated_read

abbrev same_text : Unicode
same_text = record { decompose = λ t. t; to_lower_case = λ t. t; is_letter_or_number = λ c. true }

abbrev keywords_only : ParsedJobSearchQuery
keywords_only = record {
  keywords = "go" ∷ [];
  families = [];
  family_mode = any_family;
  technology = [];
  company = [];
  job_types = [];
  level = "";
  seniority = "";
  location = "";
  continent = "";
  country = "";
  state = "";
  city = "";
  contract = "";
  match_sort = none;
}

abbrev job : SearchJob
job = record {
  title = none;
  company = none;
  location = none;
  modality = none;
  description = none;
  classification = none;
}

filter_jobs-plain_example : filter_jobs same_text keywords_only (job ∷ []) ≡ job ∷ []
unfolding has_structured_filters has_post_only_filters
filter_jobs-plain_example = filter_jobs-plain same_text refl refl keywords_only (job ∷ []) refl refl
