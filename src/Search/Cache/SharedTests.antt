-- ===== src/Search/Cache/SharedTests.antt =====
-- A run of the cache in which two searches that differ in case, space and order share a page.
use jobs_scraper_global.Prelude.{
  ℕ, ◌+◌, ◌*◌, String, ◌≡◌, refl, true, arith, none, some, [], ◌∷◌, squeeze, is_space, trim,
  if◌then◌else◌, ◌==◌,
}
use jobs_scraper_global.Search.Filters.Comparable.{Unicode}
use jobs_scraper_global.Search.Filters.Jobs.{any_family, desc}
use jobs_scraper_global.Search.Parsers.Values.{unique, text_less, insert, sort}
use jobs_scraper_global.Search.Cache.Server.{Generation, Catalog, generation, write_if_generation}
use jobs_scraper_global.Search.Cache.Flight.{
  Setting, State, Step, move, take_off, store, land, call, generation_read, page_read, check,
  queried, Reach, here, next,
}
use jobs_scraper_global.Search.Cache.Fingerprint.{
  Search, Normalized, Digests, text, values, normalized, job_search_cache_key, search_setting,
}
use jobs_scraper_global.Search.Cache.Codes.{
  tally, marked, row_code, rows_code, number_row, generation_code, fingerprint_code,
  fingerprint_code-injective,
}
use jobs_scraper_global.Search.Cache.Shared.{IsSameSearch, search_lem}

abbrev lower_case : Unicode
lower_case = record {
  decompose = λ t. t;
  to_lower_case = λ t. if t == "Go  LANG" then "go  lang" else t;
  is_letter_or_number = λ c. true;
}

abbrev digests : Digests
digests = record { taxonomy_hash = "h"; fingerprint = fingerprint_code }

-- A search for the third page of jobs at two companies, the best first.
abbrev third_page : String → String → String → Search
third_page keyword one other = record {
  filters = record {
    keywords = keyword ∷ [];
    families = [];
    family_mode = any_family;
    technology = [];
    company = one ∷ other ∷ [];
    job_types = [];
    level = "";
    seniority = "";
    location = "";
    continent = "";
    country = "";
    state = "";
    city = "";
    contract = "";
    match_sort = some desc;
  };
  pagination = record { page = 3; limit = 2 };
  ranking_context = none;
}

abbrev first_search : Search
first_search = third_page "Go  LANG" "acme" "zeta"

abbrev second_search : Search
second_search = third_page "go lang" "zeta" " acme"

abbrev page_of : Search → ℕ → ℕ
page_of q n = 10 * q.pagination.page + n

abbrev setting : Setting Search Normalized ℕ
setting = search_setting lower_case digests page_of (λ g. g.expiry) 120

abbrev catalog : Catalog
catalog = record { version = some "a"; counter = none; expiry = none }

abbrev first_generation : Generation
first_generation = record { version = "a"; counter = "0"; expiry = 0; taxonomy = "v1" }

first_epoch :
    (g : Generation)
    → generation {Page = ℕ} (record { catalog = catalog; pages = λ k. none; now = 5 }) ≡ some g
    → g.expiry ≡ 0
first_epoch g e = ground arith

abbrev Reached : Type 0
Reached = (s : State Search ℕ) × Reach setting s

infixl 5 ◌then_does◌
abbrev ◌then_does◌ : (r : Reached) {t : State Search ℕ} → Step setting r.0 t → Reached
◌then_does◌ r {t} st = (t, next r.1 st)

-- The first call has stored the page of its query, and the second has read and returned that page.
abbrev shared : Reached
unfolding write_if_generation text values normalized job_search_cache_key unique text_less insert
    sort tally marked row_code rows_code number_row generation_code fingerprint_code squeeze
    is_space trim
shared =
    (_, here catalog 5 first_epoch)
    then_does move 0 (call first_search)
    then_does move 0 (generation_read 0 first_search)
    then_does take_off 0 0 first_search first_generation refl refl
    then_does move 0 (page_read 0 first_search first_generation)
    then_does move 0 (check 0 first_search first_generation none)
    then_does move 0 (queried 0 0 first_search first_generation 30 (λ e. refl))
    then_does store 0 0 first_search first_generation 30 refl
    then_does land 0 0 first_search first_generation (some 30) refl
    then_does move 1 (call second_search)
    then_does move 1 (generation_read 0 second_search)
    then_does take_off 1 0 second_search first_generation refl refl
    then_does move 1 (page_read 0 second_search first_generation)
    then_does move 1 (check 0 second_search first_generation (some 30))
    then_does land 1 0 second_search first_generation (some 30) refl

search_lem_example :
    (asked : Search) × IsSameSearch lower_case asked second_search × (30 ≡ page_of asked 0)
unfolding write_if_generation text values normalized job_search_cache_key unique text_less insert
    sort tally marked row_code rows_code number_row generation_code fingerprint_code squeeze
    is_space trim
search_lem_example =
    search_lem digests fingerprint_code-injective lower_case page_of (λ g. g.expiry) 120 1 0
      second_search 30 shared.1 refl
