-- ===== src/Search/Matching/Tests.antt =====
-- Matches of a few jobs whose texts are in lower case and have no accents.
use jobs_scraper_global.Prelude.{
  ◌≤◌, String, ◌≡◌, refl, Bool, true, ◌||◌, ◌&&◌, none, some, List, [], ◌∷◌, length, leb,
}
use jobs_scraper_global.Search.Filters.Comparable.{Unicode}
use jobs_scraper_global.Search.Matching.Words.{
  one, other, many, MatchableJob, JobClassification, is_named, job_match_text,
}
use jobs_scraper_global.Search.Matching.Technologies.{
  TechnologyExperience, Match, normalized_technologies, score_job_with_technologies,
}
use jobs_scraper_global.Search.Matching.Profile.{MatchPreferences, product}
use jobs_scraper_global.Search.Matching.Professional.{
  is_relevant, score_professional_job, score_classified, score_family, score_evidence, with_skills,
}
use jobs_scraper_global.Search.Matching.Bounds.{IsBounded, score_job_with_technologies-IsBounded}
use jobs_scraper_global.Search.Matching.Growth.{score_job_with_technologies_mono}
use jobs_scraper_global.Search.Matching.Evidence.{
  score_professional_job-IsEvident, score_professional_job-relevant,
}

abbrev plain_text : Unicode
plain_text = record {
  decompose = λ t. t;
  to_lower_case = λ t. t;
  is_letter_or_number = λ c. (leb 97 c && leb c 122) || (leb 48 c && leb c 57);
}

-- An order of names that is enough for one name.
abbrev any_order : String → String → Bool
any_order a b = true

abbrev node_job : MatchableJob
node_job = record {
  values = one "node.js developer" ∷ many (some "sql" ∷ none ∷ []) ∷ other ∷ [];
  location = none;
  modality = none;
  job_type = none;
  level = none;
  classification = none;
}

abbrev skills : List TechnologyExperience
skills = record { name = "nodejs"; years = 3 } ∷ record { name = "rust"; years = 1 } ∷ []

abbrev node_match : Match
node_match = record { score = 85; matched_technologies = "nodejs" ∷ []; reasons = [] }

node_scored : score_job_with_technologies plain_text node_job skills ≡ some node_match
unfolding score_job_with_technologies
node_scored = refl

abbrev product_class : JobClassification
product_class = record {
  primary_family = some "product";
  related_families = [];
  seniority = some "senior";
}

abbrev product_job : MatchableJob
product_job = record node_job {
  values = one "product manager roadmap" ∷ [];
  classification = some product_class;
}

abbrev wishes : MatchPreferences
wishes = record {
  family = "";
  seniority = "senior";
  modality = "";
  modalities = [];
  location = "";
  contract = "";
  skills = [];
}

abbrev roadmap : List TechnologyExperience
roadmap = record { name = "roadmap"; years = 2 } ∷ []

abbrev product_match : Match
product_match = record {
  score = 72;
  matched_technologies = "roadmap" ∷ [];
  reasons = "senioridade compatível" ∷ "competências e ferramentas de Produto relacionadas" ∷ [];
}

product_scored :
    score_professional_job plain_text any_order product_job roadmap wishes ≡ some product_match
unfolding score_professional_job score_classified score_family score_evidence with_skills
product_scored = refl

score_job_with_technologies-IsBounded_example :
    IsBounded (length (normalized_technologies plain_text skills)) node_match
score_job_with_technologies-IsBounded_example =
    score_job_with_technologies-IsBounded plain_text node_job skills node_match node_scored

-- A job that names both technologies.
abbrev rust_job : MatchableJob
rust_job = record node_job { values = one "node.js and rust developer" ∷ [] }

abbrev rust_match : Match
rust_match = record { score = 98; matched_technologies = "nodejs" ∷ "rust" ∷ []; reasons = [] }

rust_scored : score_job_with_technologies plain_text rust_job skills ≡ some rust_match
unfolding score_job_with_technologies
rust_scored = refl

score_job_with_technologies_mono_example : node_match.score ≤ rust_match.score
unfolding normalized_technologies is_named job_match_text
score_job_with_technologies_mono_example =
    score_job_with_technologies_mono plain_text node_job rust_job skills node_match rust_match
      (λ h. refl, (λ h. refl, tt)) node_scored rust_scored

score_professional_job-IsEvident_example :
    (57 ≤ product_match.score) × (product_match.score ≤ 99) × (1 ≤ length product_match.reasons)
score_professional_job-IsEvident_example =
    score_professional_job-IsEvident plain_text any_order product_job product_class product refl
      refl roadmap wishes product_match product_scored

score_professional_job-relevant_example :
    score_professional_job plain_text any_order product_job
      (record { name = "rust"; years = 9 } ∷ roadmap)
      wishes
    ≡ score_professional_job plain_text any_order product_job roadmap wishes
unfolding is_relevant
score_professional_job-relevant_example =
    score_professional_job-relevant plain_text any_order product_job product_class product refl refl
      (record { name = "rust"; years = 9 } ∷ roadmap) roadmap wishes refl
