-- ===== src/Search/Parsers/RoundTrip.antt =====
-- The families that a query has been read to can be written into a query again.
use Prim.Native.Char.{code}
use Prim.Native.String
use package.text.Mathlib.TextLemmas.{nil-append, cons-append}
use mathlib.Core.List.{append-nil}
use jobs_scraper_global.Prelude.{
  String, ◌≡◌, refl, ◌∙◌, ap, ◌≢◌, Bool, true, false, not, ◌&&◌, ◌||◌, List, [], ◌∷◌, map, length,
  all, All, filter, member, trim, present, join, join_after, eqb, ltb, arith, Bool-cases, inl, inr,
  ◌==◌, eq_iff,
}
use jobs_scraper_global.Exec.{Result, ok}
use jobs_scraper_global.Search.Filters.Jobs.{FamilyMode, any_family, primary}
use jobs_scraper_global.Search.Parsers.Values.{
  QueryValue, missing, text, object, array, split, texts_of, names_in, unique, insert, sort,
}
use jobs_scraper_global.Search.Parsers.Families.{
  Families, professional_families, is_public_family, all_texts, family_values, with_values,
  with_mode, parse_family_query,
}
use jobs_scraper_global.Search.Parsers.Canonical.{
  Differs, IsDistinct, Under, IsAscending, IsCanonical, parse_family_query-IsCanonical,
}

no_comma : String → Bool
no_comma String.[] = true
no_comma (String.◌∷◌ c s) = not (eqb (code c) b',') && no_comma s

IsName : String → Type 0
IsName t = (no_comma t ≡ true) × (trim t ≡ t) × ((t == "") ≡ false)

families-IsName : All IsName professional_families
unfolding IsName professional_families no_comma trim
families-IsName = ground arith

member-All :
    (P : String → Type 0) (xs : List String) (t : String) → All P xs → member xs t ≡ true → P t
member-All P [] t h m = cc
member-All P (x ∷ xs) t (h, hs) m = elim (Bool-cases (x == t)) [
  | inl same ↦ let e : x ≡ t = (eq_iff x t).0 same in rw (← e) h
  | inr other ↦ member-All P xs t hs (rw other at m)
]

public-IsName_one : (t : String) → is_public_family t ≡ true → IsName t
unfolding is_public_family
public-IsName_one t h = member-All IsName professional_families t families-IsName h

public-IsName : (ts : List String) → all is_public_family ts ≡ true → All IsName ts
public-IsName [] h = tt
public-IsName (t ∷ ts) h = elim (Bool-cases (is_public_family t)) [
  | inl known ↦ (public-IsName_one t known, public-IsName ts (rw known at h))
  | inr other ↦ cc (rw other at h)
]

split-name : (t : String) → no_comma t ≡ true → split t ≡ t ∷ []
unfolding no_comma split
split-name String.[] h = refl
split-name (String.◌∷◌ c t) h = ground (arith, split-name t)

split-before_comma :
    (t r : String) → no_comma t ≡ true → split (String.◌++◌ t (String.◌++◌ "," r)) ≡ t ∷ split r
unfolding no_comma split
split-before_comma String.[] r h = rw (nil-append, cons-append, nil-append) refl
split-before_comma (String.◌∷◌ c t) r h =
    rw (cons-append c t (String.◌++◌ "," r)) (ground (arith, split-before_comma t r))

split-join :
    (t : String) (ts : List String) → All IsName (t ∷ ts) → split (join_after "," t ts) ≡ t ∷ ts
unfolding IsName
split-join t [] (h, hs) = split-name t h.0
split-join t (s ∷ ts) (h, hs) =
    split-before_comma t (join_after "," s ts) h.0 ∙ ap (◌∷◌ t) (split-join s ts hs)

map-trim : (ts : List String) → All IsName ts → map trim ts ≡ ts
unfolding IsName
map-trim [] h = refl
map-trim (t ∷ ts) (h, hs) = cc (h.1, map-trim ts hs)

present-names : (ts : List String) → All IsName ts → present ts ≡ ts
unfolding IsName
present-names [] h = refl
present-names (t ∷ ts) (h, hs) = rw (present, h.2) (ap (◌∷◌ t) (present-names ts hs))

filter-others :
    (t : String) (ts : List String) → All (Differs t) ts → filter (λ s. not (s == t)) ts ≡ ts
filter-others t [] h = refl
filter-others t (s ∷ ts) (h, hs) = rw (filter, h) (ap (◌∷◌ s) (filter-others t ts hs))

unique_of_distinct : (ts : List String) → IsDistinct ts → unique ts ≡ ts
unfolding unique
unique_of_distinct [] h = refl
unique_of_distinct (t ∷ ts) (h, hs) =
    ap (λ ss. t ∷ filter (λ s. not (s == t)) ss) (unique_of_distinct ts hs)
    ∙ ap (◌∷◌ t) (filter-others t ts h)

insert-first : (t : String) (ts : List String) → Under t ts → insert t ts ≡ t ∷ ts
unfolding insert
insert-first t [] h = refl
insert-first t (s ∷ ts) h = rw h refl

sort_of_ascending : (ts : List String) → IsAscending ts → sort ts ≡ ts
unfolding sort
sort_of_ascending [] h = refl
sort_of_ascending (t ∷ ts) (h, hs) = ap (insert t) (sort_of_ascending ts hs) ∙ insert-first t ts h

family_values-join :
    (t : String) (ts : List String)
    → IsCanonical (t ∷ ts)
    → family_values (join "," (t ∷ ts) ∷ []) ≡ t ∷ ts
unfolding family_values
family_values-join t ts c =
    let names : All IsName (t ∷ ts) = public-IsName (t ∷ ts) c.2 in
    let read : names_in (join_after "," t ts ∷ []) ≡ t ∷ ts =
      ap (λ ss. present (map trim ss))
        (append-nil (split (join_after "," t ts)) ∙ split-join t ts names)
      ∙ ap present (map-trim (t ∷ ts) names)
      ∙ present-names (t ∷ ts) names in
    ap (λ ss. sort (unique ss)) read
    ∙ ap sort (unique_of_distinct (t ∷ ts) c.1)
    ∙ sort_of_ascending (t ∷ ts) c.0

with_values-canonical :
    (fs : List String) (mode : FamilyMode) → IsCanonical fs → with_values fs mode ≡ ok (fs, mode)
unfolding is_public_family
with_values-canonical fs mode c = ground arith

with_mode-join :
    (t : String) (ts : List String) (mode : FamilyMode)
    → IsCanonical (t ∷ ts)
    → with_mode (text (join "," (t ∷ ts))) mode ≡ ok (t ∷ ts, mode)
unfolding family_values is_public_family
with_mode-join t ts mode c =
    ap (λ fs. with_values fs mode) (family_values-join t ts c)
    ∙ with_values-canonical (t ∷ ts) mode c

mode_of :
    {values fs : List String} {mode mode' : FamilyMode}
    → ◌≡◌ {A = Result Families} (ok (values, mode)) (ok (fs, mode'))
    → mode ≡ mode'
mode_of h = cc

with_values-mode :
    (values fs : List String) (mode mode' : FamilyMode)
    → with_values values mode ≡ ok (fs, mode')
    → mode ≡ mode'
unfolding is_public_family
with_values-mode values fs mode mode' h =
    elim (Bool-cases
      (eqb (length values) 0 || ltb 13 (length values) || not (all is_public_family values))) [
        | inl bad ↦ cc (rw (with_values, bad) at h)
        | inr good ↦ mode_of (rw (with_values, good) at h)
      ]

with_mode-mode :
    (v : QueryValue) (fs : List String) (mode mode' : FamilyMode)
    → with_mode v mode ≡ ok (fs, mode')
    → mode ≡ mode'
unfolding family_values is_public_family
with_mode-mode missing fs mode mode' h = mode_of h
with_mode-mode (text t) fs mode mode' h = with_values-mode (family_values (t ∷ [])) fs mode mode' h
with_mode-mode object fs mode mode' h = cc
with_mode-mode (array values) fs mode mode' h = elim (Bool-cases (all_texts values)) [
  | inl texts ↦ with_values-mode (family_values (texts_of values)) fs mode mode' (rw texts at h)
  | inr others ↦ cc (rw others at h)
]

-- Other values of the families, read with the same mode.
parse-same_mode :
    (v v' m : QueryValue) (fs : List String) (mode : FamilyMode)
    → parse_family_query v m ≡ ok (fs, mode)
    → with_mode v' mode ≡ ok (fs, mode)
    → parse_family_query v' m ≡ ok (fs, mode)
unfolding parse_family_query
parse-same_mode v v' missing fs mode h k =
    ap (with_mode v') (with_mode-mode v fs any_family mode h) ∙ k
parse-same_mode v v' (text m) fs mode h k = elim (Bool-cases (m == "any")) [
  | inl any ↦ rw any (ap (with_mode v') (with_mode-mode v fs any_family mode (rw any at h)) ∙ k)
  | inr other ↦ elim (Bool-cases (m == "primary")) [
    | inl first ↦
        rw (other, first)
          (ap (with_mode v') (with_mode-mode v fs primary mode (rw (other, first) at h)) ∙ k)
    | inr bad ↦ cc (rw (other, bad) at h)
  ]
]
parse-same_mode v v' object fs mode h k = cc
parse-same_mode v v' (array vs) fs mode h k = cc

join-canonical :
    (fs : List String) (mode : FamilyMode)
    → IsCanonical fs
    → with_mode (text (join "," fs)) mode ≡ ok (fs, mode)
join-canonical [] mode c = absurd (omega (arith, c.3))
join-canonical (t ∷ ts) mode c = with_mode-join t ts mode c

-- The families that a query has been read to, written with commas between them, are read to the same
-- families again, with the same mode.
pub parse_family_query-join :
    (v m : QueryValue) (fs : List String) (mode : FamilyMode)
    → v ≢ missing
    → parse_family_query v m ≡ ok (fs, mode)
    → parse_family_query (text (join "," fs)) m ≡ ok (fs, mode)
parse_family_query-join v m fs mode given h = elim (parse_family_query-IsCanonical v m fs mode h) [
  | inl (none_given, e) ↦ absurd (given none_given)
  | inr c ↦ parse-same_mode v (text (join "," fs)) m fs mode h (join-canonical fs mode c)
]
