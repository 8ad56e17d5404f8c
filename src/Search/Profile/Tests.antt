-- ===== src/Search/Profile/Tests.antt =====
-- Two jobs of a page that match highly, noted by calls that run at the same time.
use jobs_scraper_global.Prelude.{
  trim, ◌≤◌, String, ◌≡◌, refl, Bool, true, none, some, List, [], ◌∷◌, map, length, All, leb, ◌&&◌,
  ◌||◌, arith,
}
use jobs_scraper_global.Postgres.{sample_postgres}
use jobs_scraper_global.Career.Store.{Db}
use jobs_scraper_global.Search.Filters.Comparable.{Unicode}
use jobs_scraper_global.Search.Matching.Words.{MatchableJob, one}
use jobs_scraper_global.Search.Matching.Technologies.{
  TechnologyExperience, from_names, parse_technologies_from_user,
}
use jobs_scraper_global.Search.Matching.Professional.{score_classified}
use jobs_scraper_global.Search.Profile.{
  MatchedJob, as_matched, Call, Turn, statement, failure, enrich, scored,
}
use jobs_scraper_global.Search.Profile.{no_preferences}
use jobs_scraper_global.Search.Profile.Reading.{
  ProfileUser, SavedPreferences, thrown, row, with_level, get_user_technologies,
}
use jobs_scraper_global.Search.Profile.Notices.{IsServed}
use jobs_scraper_global.Search.Profile.Once.{count}
use jobs_scraper_global.Search.Profile.Enriched.{enrich-AreServed, enrich-count}

abbrev plain_text : Unicode
plain_text = record {
  decompose = λ t. t;
  to_lower_case = λ t. t;
  is_letter_or_number = λ c. (leb 97 c && leb c 122) || (leb 48 c && leb c 57);
}

abbrev any_order : String → String → Bool
any_order a b = true

abbrev empty : Db
empty = record {
  saved_jobs = [];
  application_events = [];
  application_notes = [];
  user_notifications = [];
  drawn = 0;
  now = 7;
}

abbrev rust_text : MatchableJob
rust_text = record {
  values = one "rust developer" ∷ [];
  location = none;
  modality = none;
  job_type = none;
  level = none;
  classification = none;
}

abbrev rust_job : String → MatchedJob
rust_job link = record {
  job = rust_text;
  id = none;
  title = some "rust developer";
  job_title = none;
  company = none;
  url = some link;
  job_link = none;
  match_score = none;
  matched_technologies = none;
  match_reasons = none;
}

abbrev skills : List TechnologyExperience
skills = record { name = "rust"; years = 2 } ∷ []

-- Both calls look before either inserts.
abbrev together : List Turn
together = statement 0 ∷ statement 1 ∷ statement 1 ∷ statement 0 ∷ []

abbrev enriched : List Turn → List MatchedJob → List MatchedJob × (List Call × Db)
unfolding enrich
enriched turns jobs =
    enrich plain_text any_order sample_postgres (some "ana") turns jobs skills none true empty

abbrev two_jobs : List MatchedJob
two_jobs = rust_job "l1" ∷ rust_job " l2 " ∷ []

noted_jobs : length (enriched together two_jobs).1.1.user_notifications ≡ 2
unfolding enriched enrich scored score_classified
noted_jobs = refl

-- A failed query leaves the other job to be noted.
noted_one : length (enriched (statement 0 ∷ failure 1 ∷ []) two_jobs).1.1.user_notifications ≡ 1
unfolding enriched enrich scored score_classified
noted_one = refl

-- Two jobs with one link are noted twice when both calls look before either inserts, and once when
-- one call follows the other.
noted_twice :
    count sample_postgres "ana" "l1" (enriched together (rust_job "l1" ∷ rust_job "l1" ∷ [])).1.1
    ≡ 2
unfolding enriched enrich scored score_classified
noted_twice = refl

noted_in_order :
    count sample_postgres "ana" "l1" (enriched [] (rust_job "l1" ∷ rust_job "l1" ∷ [])).1.1 ≡ 1
unfolding enriched enrich scored score_classified
noted_in_order = refl

-- A profile is read without its preferences when these cannot be read, or name what is no modality.
abbrev rust_user : ProfileUser
rust_user = record {
  level = some "Senior";
  technology_experiences = none;
  technologies = " rust " ∷ "" ∷ [];
}

abbrev remote_rust : SavedPreferences
remote_rust = record {
  search_location = none;
  remote_only = true;
  job_types = "Remoto" ∷ "CLT" ∷ [];
  keywords = "go" ∷ [];
}

read_without_preferences :
    get_user_technologies (some "ana") (row (some rust_user)) thrown
    ≡ (record { name = "rust"; years = 1 } ∷ [], some (with_level (some "Senior")))
unfolding get_user_technologies parse_technologies_from_user from_names trim
read_without_preferences = refl

read_with_preferences :
    (get_user_technologies (some "ana") (row (some rust_user)) (row (some remote_rust))).1
    ≡ some (record no_preferences {
      seniority = "Senior";
      modality = "remoto";
      skills = record { name = "go"; years = 1 } ∷ [];
    })
unfolding get_user_technologies parse_technologies_from_user from_names trim
read_with_preferences = refl

nobody_read : get_user_technologies none thrown thrown ≡ ([], none)
unfolding get_user_technologies
nobody_read = refl

enrich-AreServed_example :
    let r =
      enrich plain_text any_order sample_postgres
        (some "ana")
        together
        two_jobs
        skills
        none
        true
        empty in
    All (IsServed sample_postgres "ana" r.1.1) (map as_matched r.0)
enrich-AreServed_example =
    enrich-AreServed plain_text any_order sample_postgres "ana" together two_jobs skills none empty
      refl refl (tt, (tt, (tt, (tt, tt))))

enrich-count_example :
    count sample_postgres "ana" "l1"
      (enrich plain_text any_order sample_postgres
        (some "ana")
        together
        two_jobs
        skills
        none
        true
        empty).1.1
    ≤ 1
unfolding enrich scored score_classified
enrich-count_example =
    enrich-count plain_text any_order sample_postgres "ana" together two_jobs skills none empty "l1"
      (omega arith) (omega arith)
