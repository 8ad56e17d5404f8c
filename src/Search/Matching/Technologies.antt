-- ===== src/Search/Matching/Technologies.antt =====
-- `scoreJobWithTechnologies` and `getUserMatchTechnologies` of
-- backend/src/modules/jobs/services/jobMatch.service.ts. Years are whole numbers, and the coverage is an
-- exact fraction.
use jobs_scraper_global.Prelude.{
  ℕ, ◌+◌, ◌*◌, ◌/◌, min, max, String, Option, none, some, List, [], ◌∷◌, ◌++◌, map, filter, length,
  trim, or_else, if◌then◌else◌, ◌==◌,
}
use jobs_scraper_global.Search.Filters.Comparable.{Unicode, normalize_comparable}
use jobs_scraper_global.Search.Matching.Words.{MatchableJob, is_named, job_match_text}

pub record TechnologyExperience : Type 0 where
  pub name : String
  pub years : ℕ

-- An item of `technologyExperiences`; `strange` is not an object.
pub data Experience : Type 0 where
  strange : Experience
  experience : Option String → Option ℕ → Experience

abbrev pub named : String → ℕ → List TechnologyExperience
named name years = if name == "" then [] else record { name = name; years = max 0 years } ∷ []

unfoldable pub from_experiences : List Experience → List TechnologyExperience
unfolding trim
from_experiences [] = []
from_experiences (strange ∷ es) = from_experiences es
from_experiences (experience name years ∷ es) =
    named (trim (or_else name "")) (or_else years 1) ++ from_experiences es

unfoldable pub from_names : List String → List TechnologyExperience
unfolding trim
from_names [] = []
from_names (t ∷ ts) = named (trim t) 1 ++ from_names ts

-- The two columns of a user: `technologyExperiences`, if it is an array, and `technologies`.
unfoldable pub parse_technologies_from_user :
    Option (List Experience) → List String → List TechnologyExperience
unfolding from_experiences from_names
parse_technologies_from_user none names = from_names names
parse_technologies_from_user (some experiences) names = from_experiences experiences

-- `Map.set`: a key that is there keeps its place.
abbrev pub set_skill {ℓ} : {V : Type ℓ} → String → V → List (String × V) → List (String × V)
set_skill k v [] = (k, v) ∷ []
set_skill k v ((j, w) ∷ m) =
    let rest = set_skill k v m in if j == k then (k, v) ∷ m else (j, w) ∷ rest

-- What a match adds to a job; `none` leaves the job as it is.
pub record Match : Type 0 where
  pub score : ℕ
  pub matched_technologies : List String
  pub reasons : List String

abbrev pub weight : List TechnologyExperience → ℕ
weight [] = 0
weight (t ∷ ts) = max 1 t.years + weight ts

-- `Math.round(matched / total * 35)`.
abbrev pub rounded_coverage : ℕ → ℕ → ℕ
rounded_coverage matched total = (70 * matched + total) / (2 * total)

abbrev pub score_of : List TechnologyExperience → List TechnologyExperience → ℕ
score_of [] all = 45
score_of (t ∷ ts) all =
    min 99 (55 + rounded_coverage (weight (t ∷ ts)) (weight all) + min (length (t ∷ ts) * 4) 9)

abbrev pub names_of : List TechnologyExperience → List String
names_of = map (λ t. t.name)

module _ (u : Unicode) where
  abbrev pub by_name :
      List TechnologyExperience
      → List (String × TechnologyExperience)
      → List (String × TechnologyExperience)
  unfolding normalize_comparable trim
  by_name [] m = m
  by_name (t ∷ ts) m = by_name ts (
      if trim t.name == ""
      then m
      else set_skill (normalize_comparable u t.name)
          (record { name = trim t.name; years = max 0 t.years }) m)

  unfoldable pub normalized_technologies : List TechnologyExperience → List TechnologyExperience
  unfolding normalize_comparable trim
  normalized_technologies technologies = map (λ e. e.1) (by_name technologies [])

  -- The score of a text with technologies of which none is repeated.
  abbrev pub score_text : String → List TechnologyExperience → Option Match
  unfolding is_named
  score_text text [] = none
  score_text text (t ∷ ts) =
      let matched = filter (λ s. is_named u text s.name) (t ∷ ts) in
      some (record {
        score = score_of matched (t ∷ ts);
        matched_technologies = names_of matched;
        reasons = [];
      })

  unfoldable pub score_job_with_technologies :
      MatchableJob → List TechnologyExperience → Option Match
  unfolding normalized_technologies job_match_text is_named
  score_job_with_technologies job technologies =
      score_text (job_match_text u job) (normalized_technologies technologies)
