-- ===== src/Search/Parsers/Canonical.antt =====
-- What the parser of families gives is sorted, without duplicates, public, and of a bounded length.
use Prim.Native.Char.{Char, code}
use package.text.Mathlib.TextEquality.{Char-path}
use mathlib.Core.Path.{subst}
use jobs_scraper_global.Prelude.{
  ◌≤◌, String, ◌≡◌, refl, sym, ◌⊎◌, Bool, true, false, not, ◌||◌, List, [], ◌∷◌, length, all, All,
  filter, All-filter, ltb, eqb, arith, Bool-cases, inl, inr, ◌==◌, eq_iff,
}
use jobs_scraper_global.Exec.{Result, ok}
use jobs_scraper_global.Search.Filters.Jobs.{FamilyMode, primary, any_family}
use jobs_scraper_global.Search.Parsers.Values.{
  QueryValue, missing, text, object, array, unique, text_less, insert, sort, names_in, texts_of,
}
use jobs_scraper_global.Search.Parsers.Families.{
  Families, is_public_family, all_texts, family_values, with_values, with_mode, parse_family_query,
}

abbrev pub Differs : String → String → Type 0
Differs t s = (s == t) ≡ false

abbrev pub IsDistinct : List String → Type 0
IsDistinct [] = Unit
IsDistinct (t ∷ ts) = All (Differs t) ts × IsDistinct ts

-- `t` comes before the first of the texts, if there is one.
abbrev pub Under : String → List String → Type 0
Under t [] = Unit
Under t (s ∷ ss) = text_less t s ≡ true

abbrev pub IsAscending : List String → Type 0
IsAscending [] = Unit
IsAscending (t ∷ ts) = Under t ts × IsAscending ts

Differs-sym : (t s : String) → Differs t s → Differs s t
Differs-sym t s h = ground (arith, eq_iff s t, eq_iff t s)

Differs-tail :
    (c d : Char) (t s : String) → c ≡ d → Differs (String.◌∷◌ c t) (String.◌∷◌ d s) → Differs t s
Differs-tail c d t s e h = elim (Bool-cases (s == t)) [
  | inl same ↦
      let tails : s ≡ t = (eq_iff s t).0 same in
      let all : String.◌∷◌ d s ≡ String.◌∷◌ c t = cc in
      cc (h, (eq_iff (String.◌∷◌ d s) (String.◌∷◌ c t)).1 all)
  | inr other ↦ other
]

text_less-total : (s t : String) → Differs t s → text_less t s ≡ false → text_less s t ≡ true
unfolding text_less
text_less-total String.[] String.[] h e = cc
text_less-total String.[] (String.◌∷◌ d t) h e = refl
text_less-total (String.◌∷◌ c s) String.[] h e = cc
text_less-total (String.◌∷◌ c s) (String.◌∷◌ d t) h e = elim (Bool-cases (eqb (code c) (code d))) [
  | inr other ↦ ground arith
  | inl same ↦
      ground (arith, text_less-total s t (Differs-tail d c t s (Char-path d c (ground arith)) h))
]

filter-Differs : (t : String) (ss : List String) → All (Differs t) (filter (λ s. not (s == t)) ss)
filter-Differs t [] = tt
filter-Differs t (s ∷ ss) = ground (arith, filter-Differs t ss)

filter-IsDistinct :
    (p : String → Bool) (ts : List String) → IsDistinct ts → IsDistinct (filter p ts)
filter-IsDistinct p [] h = tt
filter-IsDistinct p (t ∷ ts) (h, hs) = elim (Bool-cases (p t)) [
  | inl kept ↦ rw (filter, kept) (All-filter (Differs t) p ts h, filter-IsDistinct p ts hs)
  | inr gone ↦ rw (filter, gone) (filter-IsDistinct p ts hs)
]

pub unique-IsDistinct : (ts : List String) → IsDistinct (unique ts)
unfolding unique
unique-IsDistinct [] = tt
unique-IsDistinct (t ∷ ts) = (
  filter-Differs t (unique ts),
  filter-IsDistinct (λ s. not (s == t)) (unique ts) (unique-IsDistinct ts),
)

insert-All :
    (P : String → Type 0) (t : String) (ss : List String) → P t → All P ss → All P (insert t ss)
unfolding insert
insert-All P t [] h hs = (h, tt)
insert-All P t (s ∷ ss) h (k, ks) = elim (Bool-cases (text_less t s)) [
  | inl less ↦ rw less (h, (k, ks))
  | inr more ↦ rw more (k, insert-All P t ss h ks)
]

sort-All : (P : String → Type 0) (ts : List String) → All P ts → All P (sort ts)
unfolding sort
sort-All P [] h = tt
sort-All P (t ∷ ts) (h, hs) = insert-All P t (sort ts) h (sort-All P ts hs)

insert-IsDistinct :
    (t : String) (ss : List String) → All (Differs t) ss → IsDistinct ss → IsDistinct (insert t ss)
unfolding insert
insert-IsDistinct t [] h d = (tt, tt)
insert-IsDistinct t (s ∷ ss) (h, hs) (d, ds) = elim (Bool-cases (text_less t s)) [
  | inl less ↦ rw less ((h, hs), (d, ds))
  | inr more ↦
      rw more (insert-All (Differs s) t ss (Differs-sym t s h) d, insert-IsDistinct t ss hs ds)
]

insert-Under :
    (s t : String) (ss : List String) → text_less s t ≡ true → Under s ss → Under s (insert t ss)
unfolding insert
insert-Under s t [] e h = e
insert-Under s t (r ∷ ss) e h = ground arith

insert-IsAscending :
    (t : String) (ss : List String)
    → All (Differs t) ss
    → IsAscending ss
    → IsAscending (insert t ss)
unfolding insert
insert-IsAscending t [] h a = (tt, tt)
insert-IsAscending t (s ∷ ss) (h, hs) (a, as') = elim (Bool-cases (text_less t s)) [
  | inl less ↦ rw less (less, (a, as'))
  | inr more ↦
      rw more (insert-Under s t ss (text_less-total s t h more) a, insert-IsAscending t ss hs as')
]

pub sort-IsDistinct : (ts : List String) → IsDistinct ts → IsDistinct (sort ts)
unfolding sort
sort-IsDistinct [] d = tt
sort-IsDistinct (t ∷ ts) (d, ds) =
    insert-IsDistinct t (sort ts) (sort-All (Differs t) ts d) (sort-IsDistinct ts ds)

pub sort-IsAscending : (ts : List String) → IsDistinct ts → IsAscending (sort ts)
unfolding sort
sort-IsAscending [] d = tt
sort-IsAscending (t ∷ ts) (d, ds) =
    insert-IsAscending t (sort ts) (sort-All (Differs t) ts d) (sort-IsAscending ts ds)

-- What a search with families has been given: ascending, distinct public families, from 1 to 13.
abbrev pub IsCanonical : List String → Type 0
IsCanonical fs =
    IsAscending fs
    × IsDistinct fs
    × (all is_public_family fs ≡ true)
    × (1 ≤ length fs)
    × (length fs ≤ 13)

family_values-sorted :
    (raw : List String) → IsAscending (family_values raw) × IsDistinct (family_values raw)
unfolding family_values
family_values-sorted raw =
    let d = unique-IsDistinct (names_in raw) in
    (sort-IsAscending (unique (names_in raw)) d, sort-IsDistinct (unique (names_in raw)) d)

values_of :
    {values fs : List String} {mode mode' : FamilyMode}
    → ◌≡◌ {A = Result Families} (ok (values, mode)) (ok (fs, mode'))
    → values ≡ fs
values_of h = cc

with_values-IsCanonical :
    (values fs : List String) (mode mode' : FamilyMode)
    → IsAscending values × IsDistinct values
    → with_values values mode ≡ ok (fs, mode')
    → IsCanonical fs
unfolding is_public_family
with_values-IsCanonical values fs mode mode' s h =
    elim (Bool-cases
      (eqb (length values) 0 || ltb 13 (length values) || not (all is_public_family values))) [
        | inl bad ↦ cc (rw (with_values, bad) at h)
        | inr good ↦
            subst IsCanonical (values_of (rw (with_values, good) at h))
              (s.0, s.1, ground arith, ground arith, ground arith)
      ]

with_mode-IsCanonical :
    (v : QueryValue) (fs : List String) (mode mode' : FamilyMode)
    → with_mode v mode ≡ ok (fs, mode')
    → ((v ≡ missing) × (fs ≡ [])) ⊎ IsCanonical fs
unfolding family_values is_public_family
with_mode-IsCanonical missing fs mode mode' h = inl (refl, sym (values_of h))
with_mode-IsCanonical (text t) fs mode mode' h = inr (
    with_values-IsCanonical (family_values (t ∷ [])) fs mode mode' (family_values-sorted (t ∷ []))
      h)
with_mode-IsCanonical object fs mode mode' h = cc
with_mode-IsCanonical (array values) fs mode mode' h = elim (Bool-cases (all_texts values)) [
  | inl texts ↦ inr (
      with_values-IsCanonical (family_values (texts_of values)) fs mode mode'
        (family_values-sorted (texts_of values)) (rw texts at h))
  | inr others ↦ cc (rw others at h)
]

-- When the parameters of the families are accepted, either none was given and no family is asked for,
-- or the families are public, in ascending order, without duplicates, and from 1 to 13.
pub parse_family_query-IsCanonical :
    (v m : QueryValue) (fs : List String) (mode : FamilyMode)
    → parse_family_query v m ≡ ok (fs, mode)
    → ((v ≡ missing) × (fs ≡ [])) ⊎ IsCanonical fs
unfolding parse_family_query
parse_family_query-IsCanonical v missing fs mode h = with_mode-IsCanonical v fs any_family mode h
parse_family_query-IsCanonical v (text m) fs mode h = elim (Bool-cases (m == "any")) [
  | inl any ↦ with_mode-IsCanonical v fs any_family mode (rw any at h)
  | inr other ↦ elim (Bool-cases (m == "primary")) [
    | inl first ↦ with_mode-IsCanonical v fs primary mode (rw (other, first) at h)
    | inr bad ↦ cc (rw (other, bad) at h)
  ]
]
parse_family_query-IsCanonical v object fs mode h = cc
parse_family_query-IsCanonical v (array vs) fs mode h = cc
