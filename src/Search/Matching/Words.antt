-- ===== src/Search/Matching/Words.antt =====
-- The texts that are matched: backend/src/modules/jobs/services/jobMatch.service.ts.
use Prim.Native.Char.{Char, code}
use Prim.Native.String
use jobs_scraper_global.Prelude.{
  ℕ, String, Bool, false, ◌&&◌, ◌||◌, Option, none, some, List, [], ◌∷◌, ◌++◌, map, any, concat,
  contains_token, present, join, leb, eqb, if◌then◌else◌, ◌==◌,
}
use jobs_scraper_global.Search.Filters.Comparable.{Unicode, normalize_comparable}

-- A value of a job: a text, something else, or an array of those.
pub data JobValue : Type 0 where
  one : String → JobValue
  other : JobValue
  many : List (Option String) → JobValue

pub record JobClassification : Type 0 where
  pub primary_family : Option String
  pub related_families : List String
  pub seniority : Option String

-- `MatchableJob`: the fields that are read by name, and all values of its own.
pub record MatchableJob : Type 0 where
  pub values : List JobValue
  pub location : Option String
  pub modality : Option String
  pub job_type : Option String
  pub level : Option String
  pub classification : Option JobClassification

-- A text without a suffix, if it has it.
unfoldable pub strip_suffix : String → String → Option String
strip_suffix suffix String.[] = if suffix == "" then some "" else none
strip_suffix suffix (String.◌∷◌ c s) =
    let rest = strip_suffix suffix s in
    if String.◌∷◌ c s == suffix
    then some ""
    else elim rest [ none ↦ none | some r ↦ some (String.◌∷◌ c r) ]

-- With `js` written to its word, and apart from it. A normalised text has single spaces.
abbrev pub joined_alias : Option String → List String
joined_alias none = []
joined_alias (some r) = String.◌++◌ r "js" ∷ []

abbrev pub parted_alias : Option String → List String
parted_alias none = []
parted_alias (some r) = if r == "" then [] else String.◌++◌ r " js" ∷ []

-- `matchAliases` of a normalised name.
unfoldable pub aliases_of : String → List String
unfolding strip_suffix
aliases_of normalized =
    let parted = parted_alias (strip_suffix "js" normalized) in
    elim (joined_alias (strip_suffix " js" normalized)) [
      | [] ↦ present (normalized ∷ parted)
      | alias ∷ rest ↦ present (normalized ∷ alias ∷ parted)
    ]

unfoldable pub text_matches_alias : String → String → Bool
unfolding contains_token
text_matches_alias text alias = if alias == "" then false else contains_token text alias

abbrev pub text_or_empty : Option String → String
text_or_empty none = ""
text_or_empty (some t) = t

abbrev pub texts_of : List JobValue → List String
texts_of [] = []
texts_of (one t ∷ values) = t ∷ texts_of values
texts_of (other ∷ values) = "" ∷ texts_of values
texts_of (many items ∷ values) = map text_or_empty items ++ texts_of values

-- A character of a word, for `\b` and `\w`.
abbrev pub is_word_char : ℕ → Bool
is_word_char c =
    (leb 97 c && leb c 122) || (leb 65 c && leb c 90) || (leb 48 c && leb c 57) || eqb c 95

abbrev pub starts_word : String → Bool
starts_word String.[] = false
starts_word (String.◌∷◌ c s) = is_word_char (code c)

abbrev pub extend : Char → List String → List String
extend c [] = String.◌∷◌ c "" ∷ []
extend c (r ∷ rs) =
    if is_word_char (code c) && starts_word r then String.◌∷◌ c r ∷ rs else String.◌∷◌ c "" ∷ r ∷ rs

-- The words of a text, and each other character by itself, in their order.
unfoldable pub runs : String → List String
runs String.[] = []
runs (String.◌∷◌ c s) = extend c (runs s)

-- `text.replace(/\bfrom\b/g, to)`.
unfoldable pub replace_word : String → String → String → String
unfolding runs
replace_word from to text = concat (map (λ r. if r == from then to else r) (runs text))

module _ (u : Unicode) where
  abbrev pub normalize_match_text : String → String
  unfolding normalize_comparable
  normalize_match_text value = normalize_comparable u value

  unfoldable pub match_aliases : String → List String
  unfolding aliases_of normalize_comparable
  match_aliases technology = aliases_of (normalize_comparable u technology)

  unfoldable pub job_match_text : MatchableJob → String
  unfolding normalize_comparable
  job_match_text job = normalize_comparable u (join " " (texts_of job.values))

  -- Whether a technology is named in a text.
  unfoldable pub is_named : String → String → Bool
  unfolding match_aliases text_matches_alias
  is_named text name = any (text_matches_alias text) (match_aliases name)
