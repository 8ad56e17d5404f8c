-- ===== src/Search/Filters/Consistency.antt =====
-- The country, the continent, the location and the state that are inferred of a place.
use mathlib.Core.Option
use jobs_scraper_global.Prelude.{
  String, ◌≡◌, refl, ◌∙◌, Bool, true, false, ◌&&◌, Option, none, some, List, find?, All, All-find?,
  arith, Bool-cases, inl, inr, ◌==◌,
}
use jobs_scraper_global.Search.Filters.Comparable.{Unicode, normalize_comparable, contains_any}
use jobs_scraper_global.Search.Filters.Places.{
  LocationRule, location_rules, JobLocationParts, nowhere, with_rule, with_remote, in_brazil,
  with_state, with_city, rule_of, is_remote, state_of, city_of, parts_of, located,
  infer_job_location_parts,
}

-- The continent that the rules give a country.
abbrev pub continent_of : String → Option String
continent_of country =
    Option.map (λ r. r.continent) (find? (λ r. r.country == country) location_rules)

-- A country has its continent and is the location; without a country the location is the continent.
abbrev pub AreAligned : JobLocationParts → Type 0
AreAligned p =
    ((p.country == "") ≡ false
      → (p.location ≡ p.country)
        × (continent_of p.country ≡ some p.continent)
        × ((p.continent == "") ≡ false))
    × ((p.country == "") ≡ true → p.location ≡ p.continent)

IsKnown : LocationRule → Type 0
IsKnown r =
    ((r.country == "") ≡ false)
    × (continent_of r.country ≡ some r.continent)
    × ((r.continent == "") ≡ false)

rules-IsKnown : All IsKnown location_rules
unfolding IsKnown location_rules
rules-IsKnown = ground arith

rule-AreAligned :
    (r : Option LocationRule)
    → ((k : LocationRule) → r ≡ some k → IsKnown k)
    → AreAligned (with_rule r nowhere)
unfolding IsKnown
rule-AreAligned none known = (λ h. cc, λ h. refl)
rule-AreAligned (some r) known = let k = known r refl in (λ h. (refl, k.1, k.2), λ h. cc (k.0))

remote-AreAligned :
    (remote : Bool) (p : JobLocationParts) → AreAligned p → AreAligned (with_remote remote p)
remote-AreAligned remote p a = elim (Bool-cases ((p.continent == "") && remote)) [
  | inl far ↦ rw (with_remote, far) (λ h. cc (far, (a.0 h).2), λ h. refl)
  | inr near ↦ rw (with_remote, near) a
]

brazil-AreAligned :
    (p : JobLocationParts)
    → AreAligned p
    → AreAligned (in_brazil p) × (((in_brazil p).country == "") ≡ false)
unfolding location_rules
brazil-AreAligned p a = elim (Bool-cases (p.country == "")) [
  | inl unknown ↦ rw (in_brazil, unknown) ((λ h. (refl, refl, refl), λ h. cc), refl)
  | inr known ↦ rw (in_brazil, known) (a, known)
]

-- With a state there is some country.
abbrev pub IsPlaced : JobLocationParts → Type 0
IsPlaced p = AreAligned p × ((p.state == "") ≡ false → (p.country == "") ≡ false)

state-IsPlaced :
    (s : Option (String × List String)) (p : JobLocationParts)
    → AreAligned p
    → p.state ≡ ""
    → IsPlaced (with_state s p)
state-IsPlaced none p a e = (a, λ h. let blank : (p.state == "") ≡ true = rw e in cc)
state-IsPlaced (some (state, aliases)) p a e =
    let (aligned, placed) = brazil-AreAligned (record p { state = state }) a in
    (aligned, λ h. placed)

city-IsPlaced : (c : Option String) (p : JobLocationParts) → IsPlaced p → IsPlaced (with_city c p)
city-IsPlaced none p h = h
city-IsPlaced (some c) p h = h

remote-state : (remote : Bool) (p : JobLocationParts) → (with_remote remote p).state ≡ p.state
remote-state remote p = ground arith

rule-state : (r : Option LocationRule) → (with_rule r nowhere).state ≡ ""
rule-state none = refl
rule-state (some r) = refl

module _ (u : Unicode) where
  parts_of-IsPlaced : (text : String) → IsPlaced (parts_of u text)
  parts_of-IsPlaced text =
      let start = with_rule (rule_of u text) nowhere in
      let placed : IsPlaced (with_state (state_of u text) (with_remote (is_remote u text) start)) =
        state-IsPlaced (state_of u text) (with_remote (is_remote u text) start)
          (remote-AreAligned (is_remote u text) start (
            rule-AreAligned (rule_of u text) (λ k found.
              All-find? IsKnown (λ r. contains_any u text r.aliases) location_rules k rules-IsKnown
                found)))
          (remote-state (is_remote u text) start ∙ rule-state (rule_of u text)) in
      city-IsPlaced (city_of u text)
        (with_state (state_of u text) (with_remote (is_remote u text) start)) placed

  located-IsPlaced : (text : String) → IsPlaced (located u text)
  located-IsPlaced text = elim (Bool-cases (text == "")) [
    | inl blank ↦ rw (located, blank) ((λ h. cc, λ h. refl), λ h. cc)
    | inr words ↦ rw (located, words) (parts_of-IsPlaced text)
  ]

  -- Whatever the text of a location is, a country that is found has the continent of its rule and is
  -- the location; without a country the location is the continent; and where there is a state there
  -- is some country.
  pub infer-IsPlaced : (location : String) → IsPlaced (infer_job_location_parts u location)
  unfolding infer_job_location_parts
  infer-IsPlaced location = located-IsPlaced (normalize_comparable u location)
