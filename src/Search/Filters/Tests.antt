-- ===== src/Search/Filters/Tests.antt =====
-- Filters on a few jobs whose texts are in lower case and have no accents.
use jobs_scraper_global.Prelude.{◌≡◌, refl, ◌||◌, ◌&&◌, none, some, [], ◌∷◌, filter, leb}
use jobs_scraper_global.Search.Filters.Comparable.{
  Unicode, SearchJob, normalize_comparable, normalize_level_filter, contains_any, infer_job_level,
  infer_job_type,
}
use jobs_scraper_global.Search.Filters.Places.{
  infer_job_location_parts, matches_location_part, matches_location_filter,
}
use jobs_scraper_global.Search.Filters.Jobs.{
  any_family, ParsedJobSearchQuery, wanted, passes, filter_jobs,
}
use jobs_scraper_global.Search.Filters.Laws.{filter_jobs-eq-filter}
use jobs_scraper_global.Search.Filters.Consistency.{IsPlaced, infer-IsPlaced}

abbrev plain_text : Unicode
plain_text = record {
  decompose = λ t. t;
  to_lower_case = λ t. t;
  is_letter_or_number = λ c. (leb 97 c && leb c 122) || (leb 48 c && leb c 57);
}

abbrev go_job : SearchJob
go_job = record {
  title = some "senior go developer";
  company = some "acme";
  location = some "curitiba - pr";
  modality = none;
  description = some "home office";
  classification = some (record {
    primary_family = some "backend";
    related_families = some ("devops" ∷ []);
    technologies = some ("go" ∷ []);
    seniority = none;
  });
}

abbrev design_job : SearchJob
design_job = record go_job { title = some "ux designer"; classification = none }

abbrev asked : ParsedJobSearchQuery
asked = record {
  keywords = [];
  families = "devops" ∷ [];
  family_mode = any_family;
  technology = [];
  company = [];
  job_types = "remoto" ∷ [];
  level = "senior";
  seniority = "";
  location = "";
  continent = "";
  country = "brasil";
  state = "pr";
  city = "";
  contract = "";
  match_sort = none;
}

found : filter_jobs plain_text asked (design_job ∷ go_job ∷ []) ≡ go_job ∷ []
unfolding filter_jobs passes wanted normalize_comparable normalize_level_filter infer_job_level
    infer_job_type contains_any infer_job_location_parts matches_location_part
    matches_location_filter
found = refl

-- A text of South Carolina gets the state of Santa Catarina beside its country.
south_carolina : infer_job_location_parts plain_text "charleston, sc, usa" ≡ record {
  country = "estados unidos";
  continent = "america do norte";
  location = "estados unidos";
  state = "sc";
  city = "";
}
unfolding infer_job_location_parts
south_carolina = refl

filter_jobs-eq-filter_example :
    filter_jobs plain_text asked (design_job ∷ go_job ∷ [])
    ≡ filter (passes plain_text any_family (wanted plain_text asked)) (design_job ∷ go_job ∷ [])
filter_jobs-eq-filter_example = filter_jobs-eq-filter plain_text asked (design_job ∷ go_job ∷ [])

infer-IsPlaced_example : IsPlaced (infer_job_location_parts plain_text "curitiba - pr")
infer-IsPlaced_example = infer-IsPlaced plain_text "curitiba - pr"
