-- ===== src/Search/Cache/Codes.antt =====
-- Texts as codes of values, for the fingerprints of the tests.
use Prim.Native.Char.{code}
use jobs_scraper_global.Prelude.{
  ℕ, zero, suc, String, ◌≡◌, refl, sym, ap, Option, none, some, List, [], ◌∷◌, arith,
}
use jobs_scraper_global.Search.Filters.Jobs.{FamilyMode, primary, any_family, MatchSort, asc, desc}
use jobs_scraper_global.Search.Cache.Server.{Generation}
use jobs_scraper_global.Search.Cache.Fingerprint.{Normalized}

-- A text with its end marked, before another text.
unfoldable pub marked : String → String → String
marked String.[] t = String.◌∷◌ "0" t
marked (String.◌∷◌ c s) t = String.◌∷◌ "1" (String.◌∷◌ c (marked s t))

unfoldable pub tally : ℕ → String → String
tally zero t = String.◌∷◌ "0" t
tally (suc n) t = String.◌∷◌ "1" (tally n t)

head_code : String → ℕ
head_code String.[] = 0
head_code (String.◌∷◌ c s) = code c

apart : (s t : String) → String.◌∷◌ "0" s ≡ String.◌∷◌ "1" t → ⊥
unfolding head_code
apart s t h = let codes : 48 ≡ 49 = ap head_code h in omega (arith, codes)

pub tally-injective : (n m : ℕ) (s t : String) → tally n s ≡ tally m t → (n ≡ m) × (s ≡ t)
unfolding tally
tally-injective zero zero s t h = (refl, cc)
tally-injective zero (suc m) s t h = absurd (apart s (tally m t) h)
tally-injective (suc n) zero s t h = absurd (apart t (tally n s) (sym h))
tally-injective (suc n) (suc m) s t h = let (e, f) = tally-injective n m s t (cc) in (ap suc e, f)

pub marked-injective : (a b s t : String) → marked a s ≡ marked b t → (a ≡ b) × (s ≡ t)
unfolding marked
marked-injective String.[] String.[] s t h = (refl, cc)
marked-injective String.[] (String.◌∷◌ c b) s t h = absurd (apart s (String.◌∷◌ c (marked b t)) h)
marked-injective (String.◌∷◌ c a) String.[] s t h =
    absurd (apart t (String.◌∷◌ c (marked a s)) (sym h))
marked-injective (String.◌∷◌ c a) (String.◌∷◌ d b) s t h =
    let (e, f) = marked-injective a b s t (cc) in (cc, f)

unfoldable pub row_code : List String → String → String
unfolding marked
row_code [] t = String.◌∷◌ "0" t
row_code (s ∷ ss) t = String.◌∷◌ "1" (marked s (row_code ss t))

row_code-injective :
    (a b : List String) (s t : String) → row_code a s ≡ row_code b t → (a ≡ b) × (s ≡ t)
unfolding row_code
row_code-injective [] [] s t h = (refl, cc)
row_code-injective [] (x ∷ b) s t h = absurd (apart s (marked x (row_code b t)) h)
row_code-injective (x ∷ a) [] s t h = absurd (apart t (marked x (row_code a s)) (sym h))
row_code-injective (x ∷ a) (y ∷ b) s t h =
    let (e, h1) = marked-injective x y (row_code a s) (row_code b t) (cc) in
    let (f, h2) = row_code-injective a b s t h1 in (cc, h2)

unfoldable pub rows_code : List (List String) → String → String
unfolding row_code
rows_code [] t = String.◌∷◌ "0" t
rows_code (r ∷ rs) t = String.◌∷◌ "1" (row_code r (rows_code rs t))

rows_code-injective :
    (a b : List (List String)) (s t : String) → rows_code a s ≡ rows_code b t → (a ≡ b) × (s ≡ t)
unfolding rows_code
rows_code-injective [] [] s t h = (refl, cc)
rows_code-injective [] (x ∷ b) s t h = absurd (apart s (row_code x (rows_code b t)) h)
rows_code-injective (x ∷ a) [] s t h = absurd (apart t (row_code x (rows_code a s)) (sym h))
rows_code-injective (x ∷ a) (y ∷ b) s t h =
    let (e, h1) = row_code-injective x y (rows_code a s) (rows_code b t) (cc) in
    let (f, h2) = rows_code-injective a b s t h1 in (cc, h2)

abbrev mode_row : FamilyMode → List String
mode_row primary = []
mode_row any_family = "" ∷ []

abbrev ordering_row : Option MatchSort → List String
ordering_row none = []
ordering_row (some asc) = "" ∷ []
ordering_row (some desc) = "" ∷ "" ∷ []

abbrev context_row : Option String → List String
context_row none = []
context_row (some c) = c ∷ []

unfoldable pub number_row : ℕ → List String
number_row zero = []
number_row (suc n) = "" ∷ number_row n

mode_row-injective : (a b : FamilyMode) → mode_row a ≡ mode_row b → a ≡ b
mode_row-injective a b h = ground arith

ordering_row-injective : (a b : Option MatchSort) → ordering_row a ≡ ordering_row b → a ≡ b
ordering_row-injective none none h = refl
ordering_row-injective none (some asc) h = cc
ordering_row-injective none (some desc) h = cc
ordering_row-injective (some asc) none h = cc
ordering_row-injective (some desc) none h = cc
ordering_row-injective (some asc) (some asc) h = refl
ordering_row-injective (some asc) (some desc) h = cc
ordering_row-injective (some desc) (some asc) h = cc
ordering_row-injective (some desc) (some desc) h = refl

context_row-injective : (a b : Option String) → context_row a ≡ context_row b → a ≡ b
context_row-injective none none h = refl
context_row-injective none (some c) h = cc
context_row-injective (some c) none h = cc
context_row-injective (some c) (some d) h = cc

number_row-injective : (a b : ℕ) → number_row a ≡ number_row b → a ≡ b
unfolding number_row
number_row-injective zero zero h = refl
number_row-injective zero (suc b) h = cc
number_row-injective (suc a) zero h = cc
number_row-injective (suc a) (suc b) h = ap suc (number_row-injective a b (cc))

abbrev text_row : Normalized → List String
text_row n =
    n.contract_version ∷ n.taxonomy_version ∷ n.taxonomy_hash ∷ n.level ∷ n.seniority ∷ n.location
    ∷ n.continent ∷ n.country ∷ n.state ∷ n.city ∷ n.contract ∷ []

abbrev rows_of : Normalized → List (List String)
rows_of n =
    text_row n
    ∷ n.families
    ∷ n.keywords
    ∷ n.technology
    ∷ n.company
    ∷ n.job_types
    ∷ mode_row n.family_mode
    ∷ ordering_row n.ordering
    ∷ context_row n.ranking_context
    ∷ number_row n.page
    ∷ number_row n.limit
    ∷ []

rows_of-injective : (n m : Normalized) → rows_of n ≡ rows_of m → n ≡ m
rows_of-injective n m h =
    let mode : n.family_mode ≡ m.family_mode = mode_row-injective _ _ (cc) in
    let ordering : n.ordering ≡ m.ordering = ordering_row-injective _ _ (cc) in
    let context : n.ranking_context ≡ m.ranking_context = context_row-injective _ _ (cc) in
    let page : n.page ≡ m.page = number_row-injective _ _ (cc) in
    let limit : n.limit ≡ m.limit = number_row-injective _ _ (cc) in cc

unfoldable pub generation_code : Generation → String
unfolding tally marked
generation_code g = tally g.expiry (marked g.version (marked g.counter (marked g.taxonomy "")))

pub generation_code-injective : (g h : Generation) → generation_code g ≡ generation_code h → g ≡ h
unfolding generation_code
generation_code-injective g h e =
    let (a, e1) = tally-injective g.expiry h.expiry _ _ e in
    let (b, e2) = marked-injective g.version h.version _ _ e1 in
    let (c, e3) = marked-injective g.counter h.counter _ _ e2 in
    let (d, e4) = marked-injective g.taxonomy h.taxonomy _ _ e3 in cc

unfoldable pub fingerprint_code : Normalized → Generation → String
unfolding rows_code generation_code
fingerprint_code n g = rows_code (rows_of n) (generation_code g)

pub fingerprint_code-injective :
    (n m : Normalized) (g h : Generation)
    → fingerprint_code n g ≡ fingerprint_code m h
    → (n ≡ m) × (g ≡ h)
unfolding fingerprint_code
fingerprint_code-injective n m g h e =
    let (rows, rest) = rows_code-injective (rows_of n) (rows_of m) _ _ e in
    (rows_of-injective n m rows, generation_code-injective g h rest)
