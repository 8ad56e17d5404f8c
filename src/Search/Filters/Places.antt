-- ===== src/Search/Filters/Places.antt =====
-- What is inferred of the place of a job, and the filters by place:
-- backend/src/modules/jobs/filters/jobSearch.filter.ts.
use jobs_scraper_global.Prelude.{
  String, Bool, ◌&&◌, Option, none, some, List, [], ◌∷◌, find?, includes, if◌then◌else◌, ◌==◌,
}
use jobs_scraper_global.Search.Filters.Comparable.{Unicode, normalize_comparable, contains_any}

pub record LocationRule : Type 0 where
  pub country : String
  pub continent : String
  pub aliases : List String

abbrev pub rule : String → String → List String → LocationRule
rule country continent aliases = record {
  country = country;
  continent = continent;
  aliases = aliases;
}

unfoldable pub location_rules : List LocationRule
location_rules =
    rule "brasil" "america do sul" ("brasil" ∷ "brazil" ∷ "br" ∷ [])
    ∷ rule "estados unidos" "america do norte"
        ("estados unidos" ∷ "united states" ∷ "usa" ∷ "us" ∷ "eua" ∷ [])
    ∷ rule "canada" "america do norte" ("canada" ∷ [])
    ∷ rule "mexico" "america do norte" ("mexico" ∷ [])
    ∷ rule "argentina" "america do sul" ("argentina" ∷ [])
    ∷ rule "chile" "america do sul" ("chile" ∷ [])
    ∷ rule "colombia" "america do sul" ("colombia" ∷ [])
    ∷ rule "portugal" "europa" ("portugal" ∷ [])
    ∷ rule "espanha" "europa" ("spain" ∷ "espanha" ∷ "espana" ∷ [])
    ∷ rule "reino unido" "europa"
        ("reino unido" ∷ "united kingdom" ∷ "uk" ∷ "england" ∷ "london" ∷ [])
    ∷ rule "franca" "europa" ("france" ∷ "franca" ∷ [])
    ∷ rule "alemanha" "europa" ("germany" ∷ "alemanha" ∷ "deutschland" ∷ [])
    ∷ rule "paises baixos" "europa" ("netherlands" ∷ "paises baixos" ∷ "holanda" ∷ [])
    ∷ rule "india" "asia" ("india" ∷ [])
    ∷ rule "singapura" "asia" ("singapore" ∷ "singapura" ∷ [])
    ∷ rule "australia" "oceania" ("australia" ∷ [])
    ∷ rule "nova zelandia" "oceania" ("new zealand" ∷ "nova zelandia" ∷ [])
    ∷ rule "africa do sul" "africa" ("south africa" ∷ "africa do sul" ∷ [])
    ∷ []

unfoldable pub brazilian_states : List (String × List String)
brazilian_states =
    ("sp", ("sp" ∷ "sao paulo" ∷ []))
    ∷ ("rj", ("rj" ∷ "rio de janeiro" ∷ []))
    ∷ ("mg", ("mg" ∷ "minas gerais" ∷ "belo horizonte" ∷ []))
    ∷ ("pr", ("pr" ∷ "parana" ∷ "curitiba" ∷ []))
    ∷ ("sc", ("sc" ∷ "santa catarina" ∷ "florianopolis" ∷ []))
    ∷ ("rs", ("rs" ∷ "rio grande do sul" ∷ "porto alegre" ∷ []))
    ∷ ("ba", ("ba" ∷ "bahia" ∷ "salvador" ∷ []))
    ∷ ("pe", ("pe" ∷ "pernambuco" ∷ "recife" ∷ []))
    ∷ ("ce", ("ce" ∷ "ceara" ∷ "fortaleza" ∷ []))
    ∷ ("df", ("df" ∷ "distrito federal" ∷ "brasilia" ∷ []))
    ∷ []

unfoldable pub known_cities : List String
known_cities =
    "sao paulo" ∷ "rio de janeiro" ∷ "belo horizonte" ∷ "curitiba" ∷ "joinville" ∷ "florianopolis"
    ∷ "porto alegre" ∷ "salvador" ∷ "recife" ∷ "fortaleza" ∷ "brasilia" ∷ "lisboa" ∷ "porto"
    ∷ "madrid" ∷ "barcelona" ∷ "london" ∷ "paris" ∷ "berlin" ∷ "amsterdam" ∷ "toronto" ∷ "vancouver"
    ∷ "new york" ∷ "san francisco" ∷ "singapore" ∷ "sydney" ∷ []

-- `JobLocationParts`.
pub record JobLocationParts : Type 0 where
  pub country : String
  pub continent : String
  pub location : String
  pub state : String
  pub city : String

abbrev pub nowhere : JobLocationParts
nowhere = record { country = ""; continent = ""; location = ""; state = ""; city = "" }

abbrev pub with_rule : Option LocationRule → JobLocationParts → JobLocationParts
with_rule none parts = parts
with_rule (some r) parts = record parts {
  country = r.country;
  location = r.country;
  continent = r.continent;
}

abbrev pub with_remote : Bool → JobLocationParts → JobLocationParts
with_remote remote parts =
    if parts.continent == "" && remote
    then record parts { continent = "global remoto"; location = "global remoto" }
    else parts

abbrev pub in_brazil : JobLocationParts → JobLocationParts
in_brazil parts =
    if parts.country == ""
    then record parts { country = "brasil"; location = "brasil"; continent = "america do sul" }
    else parts

abbrev pub with_state : Option (String × List String) → JobLocationParts → JobLocationParts
with_state none parts = parts
with_state (some (state, aliases)) parts = in_brazil (record parts { state = state })

abbrev pub with_city : Option String → JobLocationParts → JobLocationParts
with_city none parts = parts
with_city (some city) parts = record parts { city = city }

module _ (u : Unicode) where
  abbrev pub rule_of : String → Option LocationRule
  rule_of text = find? (λ r. contains_any u text r.aliases) location_rules

  abbrev pub is_remote : String → Bool
  is_remote text = contains_any u text ("remote" ∷ "remoto" ∷ "global" ∷ "worldwide" ∷ [])

  abbrev pub state_of : String → Option (String × List String)
  state_of text = find? (λ s. contains_any u text s.1) brazilian_states

  abbrev pub city_of : String → Option String
  city_of text = find? (λ c. contains_any u text (c ∷ [])) known_cities

  abbrev pub parts_of : String → JobLocationParts
  parts_of text =
      with_city (city_of text) (
        with_state (state_of text)
          (with_remote (is_remote text) (with_rule (rule_of text) nowhere)))

  abbrev pub located : String → JobLocationParts
  located text = if text == "" then nowhere else parts_of text

  unfoldable pub infer_job_location_parts : String → JobLocationParts
  unfolding normalize_comparable contains_any location_rules brazilian_states known_cities
  infer_job_location_parts location = located (normalize_comparable u location)

  -- `value` is a filter, which is off when it is empty; `inferred` is what is known of the job.
  unfoldable pub matches_location_part : String → String → String → Bool
  unfolding normalize_comparable includes
  matches_location_part inferred job_location value =
      if value == ""
      then Bool.true
      else if inferred == ""
      then includes (normalize_comparable u job_location) value
      else inferred == value

  unfoldable pub matches_location_filter : String → String → Bool
  unfolding normalize_comparable includes infer_job_location_parts
  matches_location_filter job_location location =
      if location == ""
      then Bool.true
      else if (infer_job_location_parts job_location).country == ""
      then includes (normalize_comparable u job_location) location
      else (infer_job_location_parts job_location).country == location
