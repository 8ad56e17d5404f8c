-- ===== src/Search/Profile/Reading.antt =====
-- `getUserTechnologies` of backend/src/modules/jobs/services/jobProfileMatch.service.ts: what a search
-- knows of the one who searches, also where the user or the preferences cannot be read.
use jobs_scraper_global.Prelude.{
  String, Bool, ◌&&◌, ◌||◌, Option, none, some, List, [], map, length, all, leb, or_else, ◌==◌,
  if◌then◌else◌,
}
use jobs_scraper_global.Search.Matching.Technologies.{
  Experience, TechnologyExperience, parse_technologies_from_user,
}
use jobs_scraper_global.Search.Matching.Profile.{MatchPreferences, is_given}
use jobs_scraper_global.Search.Profile.{no_preferences}

-- The columns of a user, and of the preferences of a user, that are read; an array that is null has no
-- elements.
pub record ProfileUser : Type 0 where
  pub level : Option String
  pub technology_experiences : Option (List Experience)
  pub technologies : List String

pub record SavedPreferences : Type 0 where
  pub search_location : Option String
  pub remote_only : Bool
  pub job_types : List String
  pub keywords : List String

-- What a query of one row gives.
pub data Reading (A : Type 0) : Type 0 where
  thrown : Reading A
  row : Option A → Reading A

-- `updatePreferencesSchema.shape.jobTypes`: at most three of `jobTypePreferenceSchema`.
abbrev pub is_job_type : String → Bool
is_job_type t = t == "Remoto" || t == "Híbrido" || t == "Presencial"

abbrev pub modalities_of : List String → List String
modalities_of ts = if all is_job_type ts && leb (length ts) 3 then ts else []

abbrev pub with_level : Option String → MatchPreferences
with_level level = record no_preferences { seniority = or_else level "" }

abbrev pub with_saved : Option String → SavedPreferences → MatchPreferences
with_saved level saved = record no_preferences {
  seniority = or_else level "";
  location = or_else saved.search_location "";
  modality = if saved.remote_only then "remoto" else "";
  modalities = modalities_of saved.job_types;
  skills = map (λ name. record { name = name; years = 1 }) saved.keywords;
}

-- The preferences that are captured; the array of modalities counts as given also when it is empty.
abbrev pub captured : Option String → Reading SavedPreferences → Option MatchPreferences
captured level (row (some saved)) = some (with_saved level saved)
captured level _ = if is_given (or_else level "") then some (with_level level) else none

abbrev pub profile_of :
    Reading ProfileUser
    → Reading SavedPreferences
    → List TechnologyExperience × Option MatchPreferences
unfolding parse_technologies_from_user
profile_of thrown saved = ([], none)
profile_of (row none) saved = ([], none)
profile_of (row (some user)) saved = (
  parse_technologies_from_user user.technology_experiences user.technologies,
  captured user.level saved,
)

unfoldable pub get_user_technologies :
    Option String
    → Reading ProfileUser
    → Reading SavedPreferences
    → List TechnologyExperience × Option MatchPreferences
unfolding profile_of
get_user_technologies none user saved = ([], none)
get_user_technologies (some id) user saved =
    let profile = profile_of user saved in if id == "" then ([], none) else profile
