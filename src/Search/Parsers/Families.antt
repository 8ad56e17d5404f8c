-- ===== src/Search/Parsers/Families.antt =====
-- `parseFamilyQuery` of backend/src/modules/jobs/parsers/familyQuery.parser.ts, and the families of
-- backend/src/modules/jobs/types/professionalTaxonomy.ts.
use jobs_scraper_global.Prelude.{
  String, Bool, true, false, not, ◌||◌, none, List, [], ◌∷◌, length, all, member, trim, ltb, eqb,
  if◌then◌else◌, ◌==◌,
}
use jobs_scraper_global.Errors.{ErrorCode, app, invalid_job_family, invalid_family_mode}
use jobs_scraper_global.Exec.{Result, ok, err}
use jobs_scraper_global.Search.Filters.Jobs.{FamilyMode, primary, any_family}
use jobs_scraper_global.Search.Parsers.Values.{
  QueryValue, missing, text, object, array, Values, end, item, split, names_in, texts_of, unique,
  sort,
}

-- The identifiers of `professionalFamilies`.
unfoldable pub professional_families : List String
professional_families =
    "backend" ∷ "frontend" ∷ "fullstack" ∷ "mobile" ∷ "data" ∷ "devops" ∷ "platform" ∷ "qa"
    ∷ "security" ∷ "product" ∷ "product_design" ∷ "software" ∷ "leadership" ∷ []

unfoldable pub is_public_family : String → Bool
unfolding professional_families
is_public_family value = member professional_families value

abbrev pub bad_request : {A : Type 0} → ErrorCode → String → Result A
bad_request c m = err (app (record { code = c; status_code = 400; message = m; details = none }))

-- Whether every value of an array is a text.
abbrev pub all_texts : Values → Bool
all_texts end = true
all_texts (item (text t) values) = all_texts values
all_texts (item missing values) = false
all_texts (item object values) = false
all_texts (item (array vs) values) = false

abbrev pub Families : Type 0
Families = List String × FamilyMode

-- `values`, when every part of `raw` is a text.
unfoldable pub family_values : List String → List String
unfolding split trim unique sort
family_values raw = sort (unique (names_in raw))

abbrev pub with_values : List String → FamilyMode → Result Families
unfolding is_public_family
with_values values mode =
    if eqb (length values) 0 || ltb 13 (length values) || not (all is_public_family values)
    then bad_request invalid_job_family "Informe de 1 a 13 famílias públicas válidas."
    else ok (values, mode)

abbrev pub not_texts : Result Families
not_texts = bad_request invalid_job_family "family deve conter IDs canônicos de famílias."

abbrev pub with_mode : QueryValue → FamilyMode → Result Families
unfolding family_values is_public_family
with_mode missing mode = ok ([], mode)
with_mode (text t) mode = with_values (family_values (t ∷ [])) mode
with_mode object mode = not_texts
with_mode (array values) mode =
    if all_texts values then with_values (family_values (texts_of values)) mode else not_texts

abbrev pub bad_mode : Result Families
bad_mode = bad_request invalid_family_mode "familyMode deve ser any ou primary."

-- The arguments are `query.family` and `query.familyMode`.
unfoldable pub parse_family_query : QueryValue → QueryValue → Result Families
unfolding family_values is_public_family
parse_family_query family missing = with_mode family any_family
parse_family_query family (text m) =
    let with_any = with_mode family any_family in
    let with_primary = with_mode family primary in
    if m == "any" then with_any else if m == "primary" then with_primary else bad_mode
parse_family_query family object = bad_mode
parse_family_query family (array values) = bad_mode
