-- ===== src/Search/Matching/Profile.antt =====
-- The preferences and the evidence of `scoreProfessionalJob`:
-- backend/src/modules/jobs/services/jobMatch.service.ts.
use jobs_scraper_global.Prelude.{
  ℕ, ◌+◌, String, Bool, true, false, not, Option, none, some, List, [], ◌∷◌, ◌++◌, if◌then◌else◌,
  ◌==◌,
}
use jobs_scraper_global.Search.Matching.Technologies.{TechnologyExperience}

-- `MatchPreferences`. An empty text is one that was not given.
pub record MatchPreferences : Type 0 where
  pub family : String
  pub seniority : String
  pub modality : String
  pub modalities : List String
  pub location : String
  pub contract : String
  pub skills : List TechnologyExperience

-- The families that are scored by evidence.
pub data Professional : Type 0 where
  product product_design : Professional

abbrev pub professional_of : Option String → Option Professional
professional_of none = none
professional_of (some f) =
    if f == "product"
    then some product
    else if f == "product_design"
    then some product_design
    else none

abbrev pub family_name : Professional → String
family_name product = "product"
family_name product_design = "product_design"

unfoldable pub vocabulary : Professional → List String
vocabulary product =
    "product" ∷ "produto" ∷ "discovery" ∷ "roadmap" ∷ "backlog" ∷ "priorizacao" ∷ "analytics"
    ∷ "amplitude" ∷ "mixpanel" ∷ "jira" ∷ "sql" ∷ "agile" ∷ "scrum" ∷ "kanban" ∷ "stakeholder"
    ∷ "experimentos" ∷ "estrategia" ∷ []
vocabulary product_design =
    "ux" ∷ "ui" ∷ "design" ∷ "figma" ∷ "sketch" ∷ "adobe" ∷ "pesquisa" ∷ "research" ∷ "prototipacao"
    ∷ "prototype" ∷ "acessibilidade" ∷ "accessibility" ∷ "wireframe" ∷ "usabilidade" ∷ "html"
    ∷ "css" ∷ []

-- Points with the reasons for them.
pub record Evidence : Type 0 where
  pub points : ℕ
  pub reasons : List String

abbrev pub no_evidence : Evidence
no_evidence = record { points = 0; reasons = [] }

abbrev pub add_if : Bool → ℕ → String → Evidence → Evidence
add_if test points reason e =
    if test then record { points = e.points + points; reasons = e.reasons ++ (reason ∷ []) } else e

-- A test, and what it adds when it holds.
pub data Clue : Type 0 where
  clue : Bool → ℕ → String → Clue

abbrev pub gather : List Clue → Evidence → Evidence
gather [] e = e
gather (clue test points reason ∷ clues) e = gather clues (add_if test points reason e)

abbrev pub is_given : String → Bool
is_given t = not (t == "")

abbrev pub skills_reason : Professional → String
skills_reason product = "competências e ferramentas de Produto relacionadas"
skills_reason product_design = "competências e ferramentas de Design relacionadas"

abbrev pub or_other : Option String → Option String → Option String
or_other none b = b
or_other (some a) b = some a

abbrev pub is_nonempty : List TechnologyExperience → Bool
is_nonempty [] = false
is_nonempty (t ∷ ts) = true
