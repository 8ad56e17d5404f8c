-- ===== src/Search/Filters/Jobs.antt =====
-- `filterJobs` of backend/src/modules/jobs/filters/jobSearch.filter.ts, and the filters of
-- backend/src/modules/jobs/types/jobSearch.types.ts.
use jobs_scraper_global.Prelude.{
  String, Bool, true, ◌&&◌, ◌||◌, Option, none, some, List, [], ◌∷◌, map, any, filter, includes,
  present, member, or_else, or_text, if◌then◌else◌, ◌==◌,
}
use jobs_scraper_global.Search.Filters.Comparable.{
  Unicode, Classification, SearchJob, normalize_comparable, normalize_level_filter, infer_job_level,
  infer_job_type, infer_job_contract,
}
use jobs_scraper_global.Search.Filters.Places.{
  infer_job_location_parts, matches_location_part, matches_location_filter,
}

pub data FamilyMode : Type 0 where
  primary any_family : FamilyMode

pub data MatchSort : Type 0 where
  asc desc : MatchSort

-- `ParsedJobSearchQuery`.
pub record ParsedJobSearchQuery : Type 0 where
  pub keywords : List String
  pub families : List String
  pub family_mode : FamilyMode
  pub technology : List String
  pub company : List String
  pub job_types : List String
  pub level : String
  pub seniority : String
  pub location : String
  pub continent : String
  pub country : String
  pub state : String
  pub city : String
  pub contract : String
  pub match_sort : Option MatchSort

-- The filters as they are compared.
pub record Wanted : Type 0 where
  pub level : String
  pub seniority : String
  pub location : String
  pub continent : String
  pub state : String
  pub city : String
  pub contract : String
  pub job_types : List String
  pub families : List String
  pub technologies : List String
  pub companies : List String

abbrev pub is_empty : List String → Bool
is_empty [] = true
is_empty (t ∷ ts) = Bool.false

abbrev pub wants_nothing : Wanted → Bool
wants_nothing w =
    w.level == ""
    && w.seniority == ""
    && w.location == ""
    && w.continent == ""
    && w.state == ""
    && w.city == ""
    && w.contract == ""
    && is_empty w.job_types
    && is_empty w.families
    && is_empty w.technologies
    && is_empty w.companies

abbrev pub primary_of : Option Classification → String
primary_of none = ""
primary_of (some c) = or_else c.primary_family ""

abbrev pub related_of : FamilyMode → Option Classification → List String
related_of primary c = []
related_of any_family none = []
related_of any_family (some c) = or_else c.related_families []

abbrev pub technologies_of : Option Classification → List String
technologies_of none = []
technologies_of (some c) = or_else c.technologies []

abbrev pub seniority_of : Option Classification → String
seniority_of none = ""
seniority_of (some c) = or_else c.seniority ""

-- A list of filters is off when it is empty.
abbrev pub some_in : List String → List String → Bool
some_in wants has = is_empty wants || any (member has) wants

module _ (u : Unicode) where
  unfoldable pub wanted : ParsedJobSearchQuery → Wanted
  unfolding normalize_comparable normalize_level_filter
  wanted f = record {
    level = normalize_level_filter u f.level;
    seniority = normalize_level_filter u f.seniority;
    location = normalize_comparable u (or_text f.country f.location);
    continent = normalize_comparable u f.continent;
    state = normalize_comparable u f.state;
    city = normalize_comparable u f.city;
    contract = normalize_comparable u f.contract;
    job_types = map (normalize_comparable u) f.job_types;
    families = map (normalize_comparable u) f.families;
    technologies = map (normalize_comparable u) f.technology;
    companies = map (normalize_comparable u) f.company;
  }

  abbrev pub classified_families : FamilyMode → SearchJob → List String
  classified_families mode job =
      map (normalize_comparable u)
        (present (primary_of job.classification ∷ related_of mode job.classification))

  abbrev pub classified_technologies : SearchJob → List String
  classified_technologies job =
      map (normalize_comparable u) (present (technologies_of job.classification))

  abbrev pub matches_level : Wanted → SearchJob → Bool
  matches_level w job = w.level == "" || infer_job_level u (or_else job.title "") == w.level

  abbrev pub matches_seniority : Wanted → SearchJob → Bool
  matches_seniority w job =
      w.seniority == ""
      || normalize_level_filter u (seniority_of job.classification) == w.seniority
      || infer_job_level u (or_else job.title "") == w.seniority

  abbrev pub matches_place : Wanted → String → Bool
  matches_place w at =
      let parts = infer_job_location_parts u at in
      matches_location_filter u at w.location
      && matches_location_part u parts.continent at w.continent
      && matches_location_part u parts.state at w.state
      && matches_location_part u parts.city at w.city

  abbrev pub matches_contract : Wanted → SearchJob → Bool
  matches_contract w job = w.contract == "" || infer_job_contract u job == w.contract

  abbrev pub matches_company : Wanted → SearchJob → Bool
  matches_company w job =
      is_empty w.companies
      || any (includes (normalize_comparable u (or_else job.company ""))) w.companies

  -- The test of one job.
  unfoldable pub passes : FamilyMode → Wanted → SearchJob → Bool
  passes mode w job =
      matches_level w job
      && matches_seniority w job
      && matches_place w (or_else job.location "")
      && matches_contract w job
      && some_in w.job_types (infer_job_type u job ∷ [])
      && some_in w.families (classified_families mode job)
      && some_in w.technologies (classified_technologies job)
      && matches_company w job

  -- `filterJobs` after its filters are normalised.
  abbrev pub filter_wanted : FamilyMode → Wanted → List SearchJob → List SearchJob
  unfolding passes
  filter_wanted mode w jobs = if wants_nothing w then jobs else filter (passes mode w) jobs

  unfoldable pub filter_jobs : ParsedJobSearchQuery → List SearchJob → List SearchJob
  unfolding wanted passes
  filter_jobs f jobs = filter_wanted f.family_mode (wanted f) jobs
