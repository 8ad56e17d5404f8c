-- ===== src/Search/Filters/Comparable.antt =====
-- The texts that filters compare, and what is inferred from the words of a job:
-- backend/src/modules/jobs/filters/jobSearch.filter.ts.
use Prim.Native.Char.{code}
use jobs_scraper_global.Prelude.{
  ℕ, String, Bool, false, not, ◌&&◌, ◌||◌, Option, List, [], ◌∷◌, any, trim, squeeze, includes,
  is_space, leb, contains_token, present, join, or_else, if◌then◌else◌, ◌==◌,
}

-- The tables of Unicode that the runtime brings: canonical decomposition, lower case, and the letters
-- and numbers.
pub record Unicode : Type 0 where
  pub decompose : String → String
  pub to_lower_case : String → String
  pub is_letter_or_number : ℕ → Bool

-- The text without its combining marks from U+0300 to U+036F.
unfoldable pub unmarked : String → String
unmarked String.[] = ""
unmarked (String.◌∷◌ c s) =
    let rest = unmarked s in
    if leb 0x300 (code c) && leb (code c) 0x36F then rest else String.◌∷◌ c rest

-- `SearchJob` with its classification.
pub record Classification : Type 0 where
  pub primary_family : Option String
  pub related_families : Option (List String)
  pub technologies : Option (List String)
  pub seniority : Option String

pub record SearchJob : Type 0 where
  pub title : Option String
  pub company : Option String
  pub location : Option String
  pub modality : Option String
  pub description : Option String
  pub classification : Option Classification

module _ (u : Unicode) where
  unfoldable pub normalize_comparable : String → String
  unfolding squeeze trim unmarked is_space
  normalize_comparable value = trim (
      squeeze (λ c. not (is_space c)) false
        (squeeze u.is_letter_or_number false (u.to_lower_case (unmarked (u.decompose value)))))

  abbrev pub level_of : String → String
  level_of normalized =
      if normalized == "estagio trainee"
        || normalized == "estagio"
        || normalized == "trainee"
        || normalized == "intern"
        || normalized == "internship"
      then "estagio"
      else normalized

  unfoldable pub normalize_level_filter : String → String
  unfolding normalize_comparable
  normalize_level_filter value = level_of (normalize_comparable value)

  unfoldable pub contains_any : String → List String → Bool
  unfolding contains_token
  contains_any text needles = any (contains_token text) needles

  unfoldable pub infer_job_level : String → String
  unfolding normalize_comparable contains_any
  infer_job_level title =
      let normalized = normalize_comparable title in
      if contains_any normalized
        ("estagio" ∷ "estagiario" ∷ "intern" ∷ "internship" ∷ "trainee" ∷ "aprendiz" ∷ [])
      then "estagio"
      else if contains_any normalized
          ("senior" ∷ "sr" ∷ "especialista" ∷ "lead" ∷ "principal" ∷ "staff" ∷ [])
      then "senior"
      else if contains_any normalized ("junior" ∷ "jr" ∷ "entry level" ∷ "assistente" ∷ [])
      then "junior"
      else "pleno"

  -- The words that a job is described by.
  abbrev pub described : SearchJob → String
  unfolding normalize_comparable
  described job = normalize_comparable (
      join " " (
        present (
          or_else job.title ""
          ∷ or_else job.location ""
          ∷ or_else job.modality ""
          ∷ or_else job.description ""
          ∷ [])))

  unfoldable pub infer_job_type : SearchJob → String
  unfolding normalize_comparable includes
  infer_job_type job =
      let normalized = described job in
      if includes normalized "hibrid" || includes normalized "hybrid"
      then "hibrido"
      else if includes normalized "remot"
          || includes normalized "home office"
          || includes normalized "teletrabalho"
          || includes normalized "anywhere"
          || includes normalized "worldwide"
      then "remoto"
      else if includes normalized "presencial"
          || includes normalized "onsite"
          || includes normalized "on site"
          || includes normalized "on-site"
          || includes normalized "in office"
          || includes normalized "escritorio"
      then "presencial"
      else "presencial"

  unfoldable pub infer_job_contract : SearchJob → String
  unfolding normalize_comparable contains_any
  infer_job_contract job =
      let text = described job in
      if contains_any text ("cooperado" ∷ "cooperativa" ∷ [])
      then "cooperado"
      else if contains_any text
          ("pj" ∷ "pessoa juridica" ∷ "contractor" ∷ "freelance" ∷ "freela" ∷ [])
      then "pj"
      else if contains_any text ("clt" ∷ "full time" ∷ "efetivo" ∷ "permanent" ∷ [])
      then "clt"
      else ""
