-- ===== src/Search/Parsers/Values.antt =====
-- Values of a request's query, and the array and text methods that its parsers use:
-- backend/src/modules/jobs/parsers/jobSearchQuery.parser.ts.
use Prim.Native.Char.{Char, code}
use jobs_scraper_global.Prelude.{
  String, Bool, true, false, not, ◌&&◌, ◌||◌, List, [], ◌∷◌, ◌++◌, map, filter, trim, present, ltb,
  eqb, if◌then◌else◌, ◌==◌,
}

-- A value of `Request["query"]`; `object` is a nested one.
mutual
  pub data QueryValue : Type 0 where
    missing : QueryValue
    text : String → QueryValue
    object : QueryValue
    array : Values → QueryValue

  pub data Values : Type 0 where
    end : Values
    item : QueryValue → Values → Values

unfoldable mutual
  unfolding trim

  pub first_query_value : QueryValue → String
  first_query_value missing = ""
  first_query_value (text t) = trim t
  first_query_value object = ""
  first_query_value (array values) = first_of values

  pub first_of : Values → String
  first_of end = ""
  first_of (item v values) = first_query_value v

abbrev pub cons_first : Char → List String → List String
cons_first c [] = String.◌∷◌ c "" ∷ []
cons_first c (t ∷ ts) = String.◌∷◌ c t ∷ ts

-- `text.split(",")`.
unfoldable pub split : String → List String
split String.[] = "" ∷ []
split (String.◌∷◌ c s) =
    let rest = split s in if eqb (code c) b',' then "" ∷ rest else cons_first c rest

abbrev pub split_all : List String → List String
unfolding split
split_all [] = []
split_all (t ∷ ts) = split t ++ split_all ts

abbrev pub texts_of : Values → List String
texts_of end = []
texts_of (item (text t) values) = t ∷ texts_of values
texts_of (item v values) = texts_of values

abbrev pub strings_of : QueryValue → List String
strings_of missing = []
strings_of (text t) = t ∷ []
strings_of object = []
strings_of (array values) = texts_of values

-- The texts of a list of names that commas and repeated parameters separate.
abbrev pub names_in : List String → List String
unfolding split trim
names_in ts = present (map trim (split_all ts))

unfoldable pub query_values : QueryValue → List String
unfolding split trim
query_values v = names_in (strings_of v)

-- `[...new Set(texts)]`.
unfoldable pub unique : List String → List String
unique [] = []
unique (t ∷ ts) = t ∷ filter (λ s. not (s == t)) (unique ts)

-- The order of texts by their characters.
unfoldable pub text_less : String → String → Bool
text_less s String.[] = false
text_less String.[] (String.◌∷◌ d t) = true
text_less (String.◌∷◌ c s) (String.◌∷◌ d t) =
    ltb (code c) (code d) || (eqb (code c) (code d) && text_less s t)

unfoldable pub insert : String → List String → List String
unfolding text_less
insert t [] = t ∷ []
insert t (s ∷ ss) = let rest = insert t ss in if text_less t s then t ∷ s ∷ ss else s ∷ rest

-- `texts.sort()`.
unfoldable pub sort : List String → List String
unfolding insert
sort [] = []
sort (t ∷ ts) = insert t (sort ts)
