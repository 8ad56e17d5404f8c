-- ===== src/Search/Service/Tests.antt =====
-- A search for the jobs of one company.
use jobs_scraper_global.Prelude.{
  ◌≤◌, String, ◌≡◌, refl, Bool, true, false, none, some, [], ◌∷◌, ◌==◌, if◌then◌else◌, leb,
}
use jobs_scraper_global.Exec.{ok}
use jobs_scraper_global.Postgres.{sample_postgres}
use jobs_scraper_global.Career.Store.{Db}
use jobs_scraper_global.Search.Query.{query, legacy_batches, batches_from}
use jobs_scraper_global.Search.Filters.Comparable.{Unicode}
use jobs_scraper_global.Search.Filters.Places.{matches_location_filter, matches_location_part}
use jobs_scraper_global.Search.Parsers.Values.{missing, text}
use jobs_scraper_global.Search.Parsers.Query.{RequestQuery}
use jobs_scraper_global.Search.Service.{
  StoredJob, Outcome, Valkey, Searcher, filtered, matches, execute,
}
use jobs_scraper_global.Search.Service.Bounds.{execute-bounds}

abbrev same_text : Unicode
same_text = record {
  decompose = λ t. t;
  to_lower_case = λ t. t;
  is_letter_or_number = λ c. leb 97 c;
}

abbrev any_order : String → String → Bool
any_order a b = true

abbrev empty : Db
empty = record {
  saved_jobs = [];
  application_events = [];
  application_notes = [];
  user_notifications = [];
  drawn = 0;
  now = 7;
}

abbrev job_at : String → String → StoredJob
job_at id company = record {
  fields = record {
    title = none;
    company = some company;
    location = none;
    modality = none;
    description = none;
    classification = none;
  };
  matched = record {
    job = record {
      values = [];
      location = none;
      modality = none;
      job_type = none;
      level = none;
      classification = none;
    };
    id = some id;
    title = none;
    job_title = none;
    company = some company;
    url = none;
    job_link = none;
    match_score = none;
    matched_technologies = none;
    match_reasons = none;
  };
}

abbrev two_jobs : Valkey
two_jobs = record {
  job_of = λ k.
      if k == "a"
      then some (job_at "a" "acme")
      else if k == "b"
      then some (job_at "b" "be")
      else none;
  search_keywords = λ ks. [];
  search_profile = λ ks. none;
  index = "b" ∷ "a" ∷ [];
}

abbrev somebody : Searcher
somebody = record { user_id = some "ana"; technologies = []; preferences = none }

abbrev of_acme : RequestQuery
of_acme = record {
  keywords = missing;
  family = missing;
  family_mode = missing;
  technology = missing;
  company = text "acme";
  model = missing;
  job_type = missing;
  level = missing;
  seniority = missing;
  location = missing;
  continent = missing;
  country = missing;
  state = missing;
  city = missing;
  contract = missing;
  contract_type = missing;
  job_types = missing;
  match_sort = missing;
  sort = missing;
}

abbrev outcome : Outcome
outcome = record {
  result = record {
    pagination = record {
      total = 1;
      page = 1;
      limit = 5;
      total_pages = 1;
      has_next = false;
      has_prev = false;
    };
    jobs = (job_at "a" "acme").matched ∷ [];
    source = "valkey_global_index:verified_batches";
  };
  removed = [];
  store = empty;
}

executed :
    execute same_text any_order sample_postgres two_jobs somebody of_acme none (some "5") [] empty
    ≡ ok outcome
unfolding execute filtered query legacy_batches batches_from matches matches_location_filter
    matches_location_part
executed = refl

execute-bounds_example : (1 ≤ 5) × (1 ≤ 5) × (5 ≤ 100)
execute-bounds_example =
    execute-bounds same_text any_order sample_postgres two_jobs somebody of_acme none (some "5") []
      empty outcome executed
