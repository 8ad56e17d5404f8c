-- ===== src/Prelude/Text.antt =====
-- The methods of ECMAScript strings that the program uses, over the characters of native texts.
use Prim.Native.Nat.{ℕ, zero, suc, ◌/◌, ◌%◌}
use Prim.Native.Char.{Char, code}
use Prim.Native.String
use Prim.Native.String.{String}
use mathlib.Core.Path.{◌≡◌, refl}
use mathlib.Core.Bool.{Bool, true, false, not, ◌&&◌, ◌||◌}
use mathlib.Core.List.{List, [], ◌∷◌}
use text.Mathlib.Text.{◌==◌}
use jobs_scraper_global.Prelude.Tests.{leb, eqb, if◌then◌else◌}

-- White space and line terminators of ECMA-262.
unfoldable pub is_space : ℕ → Bool
is_space c =
    (leb 9 c && leb c 13)
    || eqb c 32
    || eqb c 0xA0
    || eqb c 0x1680
    || (leb 0x2000 c && leb c 0x200A)
    || eqb c 0x2028
    || eqb c 0x2029
    || eqb c 0x202F
    || eqb c 0x205F
    || eqb c 0x3000
    || eqb c 0xFEFF

unfoldable pub trim_start : String → String
unfolding is_space
trim_start String.[] = ""
trim_start (String.◌∷◌ c s) =
    let rest = trim_start s in if is_space (code c) then rest else String.◌∷◌ c s

-- Puts a character before a text that has been trimmed at its end.
pub cons_trimmed : Char → String → String
cons_trimmed c String.[] = if is_space (code c) then "" else String.◌∷◌ c String.[]
cons_trimmed c (String.◌∷◌ d s) = String.◌∷◌ c (String.◌∷◌ d s)

pub trim_end : String → String
trim_end String.[] = ""
trim_end (String.◌∷◌ c s) = cons_trimmed c (trim_end s)

unfoldable pub trim : String → String
unfolding trim_start trim_end cons_trimmed is_space
trim s = trim_start (trim_end s)

abbrev pub concat : List String → String
concat [] = ""
concat (s ∷ ss) = String.◌++◌ s (concat ss)

-- `a || b` of texts.
abbrev pub or_text : String → String → String
or_text a b = if a == "" then b else a

-- Replaces each run of the characters that fail a test by one space; `run` says that one has begun.
unfoldable pub squeeze : (ℕ → Bool) → Bool → String → String
squeeze p run String.[] = ""
squeeze p run (String.◌∷◌ c s) =
    let rest = squeeze p (not (p (code c))) s in
    if p (code c) then String.◌∷◌ c rest else if run then rest else String.◌∷◌ " " rest

begins : String → String → Bool
begins String.[] t = true
begins (String.◌∷◌ c s) String.[] = false
begins (String.◌∷◌ c s) (String.◌∷◌ d t) = eqb (code c) (code d) && begins s t

-- `text.includes(needle)`.
unfoldable pub includes : String → String → Bool
unfolding begins
includes String.[] needle = begins needle ""
includes (String.◌∷◌ c s) needle = begins needle (String.◌∷◌ c s) || includes s needle

-- A needle with a space is looked for anywhere, another one between spaces.
unfoldable pub contains_token : String → String → Bool
unfolding includes
contains_token text needle =
    if includes needle " "
    then includes text needle
    else includes (concat (" " ∷ text ∷ " " ∷ [])) (concat (" " ∷ needle ∷ " " ∷ []))

-- `filter(Boolean)` of texts.
abbrev pub present : List String → List String
present [] = []
present (s ∷ ss) = if s == "" then present ss else s ∷ present ss

abbrev pub join_after : String → String → List String → String
join_after sep s [] = s
join_after sep s (t ∷ ts) = String.◌++◌ s (String.◌++◌ sep (join_after sep t ts))

-- `texts.join(sep)`.
abbrev pub join : String → List String → String
join sep [] = ""
join sep (s ∷ ss) = join_after sep s ss

-- `texts.includes(text)`.
abbrev pub member : List String → String → Bool
member [] t = false
member (s ∷ ss) t = s == t || member ss t

digit : ℕ → String
digit d =
    if eqb d 0
    then "0"
    else if eqb d 1
    then "1"
    else if eqb d 2
    then "2"
    else if eqb d 3
    then "3"
    else if eqb d 4
    then "4"
    else if eqb d 5
    then "5"
    else if eqb d 6
    then "6"
    else if eqb d 7
    then "7"
    else if eqb d 8
    then "8"
    else "9"

-- The decimal digits of `n`; `n + 1` rounds are enough.
digits_from : ℕ → ℕ → String
digits_from zero n = ""
digits_from (suc f) n =
    let rest = String.◌++◌ (digits_from f (n / 10)) (digit (n % 10)) in
    if leb n 9 then digit n else rest

-- A whole number in a template literal.
unfoldable pub show : ℕ → String
unfolding digits_from digit
show n = digits_from (suc n) n

show_test : show 1085 ≡ "1085"
unfolding show
show_test = refl

trim_test : trim " a b \n" ≡ "a b"
unfolding trim
trim_test = refl

squeeze_test : squeeze (λ c. leb 97 c) false "a--b c-" ≡ "a b c "
unfolding squeeze
squeeze_test = refl

contains_test : contains_token "dev senior go" "go" ≡ true
unfolding contains_token
contains_test = refl
