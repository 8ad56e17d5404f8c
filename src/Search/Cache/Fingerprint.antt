-- ===== src/Search/Cache/Fingerprint.antt =====
-- `jobSearchCacheKey` of backend/src/modules/jobs/cache/jobSearchFingerprint.ts.
use Prim.Native.String
use jobs_scraper_global.Prelude.{
  ℕ, String, false, not, Option, List, map, trim, squeeze, is_space, present,
}
use jobs_scraper_global.Search.Filters.Comparable.{Unicode}
use jobs_scraper_global.Search.Filters.Jobs.{FamilyMode, MatchSort, ParsedJobSearchQuery}
use jobs_scraper_global.Search.Pagination.{PaginationParams}
use jobs_scraper_global.Search.Parsers.Values.{unique, sort}
use jobs_scraper_global.Search.Cache.Server.{Generation, taxonomy_version}
use jobs_scraper_global.Search.Cache.Flight.{Setting}

-- The arguments of the cached search but for the query; `ranking_context` is the JSON text of the
-- value of that name, and `none` where it is null.
pub record Search : Type 0 where
  pub filters : ParsedJobSearchQuery
  pub pagination : PaginationParams
  pub ranking_context : Option String

-- `normalized`, but for the generation.
pub record Normalized : Type 0 where
  pub contract_version : String
  pub taxonomy_version : String
  pub taxonomy_hash : String
  pub families : List String
  pub family_mode : FamilyMode
  pub keywords : List String
  pub technology : List String
  pub company : List String
  pub job_types : List String
  pub level : String
  pub seniority : String
  pub location : String
  pub continent : String
  pub country : String
  pub state : String
  pub city : String
  pub contract : String
  pub ordering : Option MatchSort
  pub page : ℕ
  pub limit : ℕ
  pub ranking_context : Option String

-- `searchContractVersion`.
abbrev pub search_contract_version : String
search_contract_version = "v2"

-- What SHA-256 makes of the families of the taxonomy, and of the JSON text of `normalized`.
pub record Digests : Type 0 where
  pub taxonomy_hash : String
  pub fingerprint : Normalized → Generation → String

module _ (u : Unicode) where
  unfoldable pub text : String → String
  unfolding trim squeeze is_space
  text value = squeeze (λ c. not (is_space c)) false (u.to_lower_case (trim value))

  unfoldable pub values : List String → List String
  unfolding text unique sort
  values items = sort (unique (present (map text items)))

  unfoldable pub normalized : Digests → Search → Normalized
  unfolding text values unique sort
  normalized digests search =
      let filters = search.filters in
      record {
        contract_version = search_contract_version;
        taxonomy_version = taxonomy_version;
        taxonomy_hash = digests.taxonomy_hash;
        families = sort (unique filters.families);
        family_mode = filters.family_mode;
        keywords = values filters.keywords;
        technology = values filters.technology;
        company = values filters.company;
        job_types = values filters.job_types;
        level = text filters.level;
        seniority = text filters.seniority;
        location = text filters.location;
        continent = text filters.continent;
        country = text filters.country;
        state = text filters.state;
        city = text filters.city;
        contract = text filters.contract;
        ordering = filters.match_sort;
        page = search.pagination.page;
        limit = search.pagination.limit;
        ranking_context = search.ranking_context;
      }

-- `jobSearchCacheKey` from `normalized` on.
unfoldable pub job_search_cache_key : Digests → Normalized → Generation → String
job_search_cache_key digests n g =
    String.◌++◌ "jobs:search:"
      (String.◌++◌ search_contract_version (String.◌++◌ ":" (digests.fingerprint n g)))

-- The cache as the searches use it.
abbrev pub search_setting :
    {Page : Type 0}
    → Unicode
    → Digests
    → (Search → ℕ → Page)
    → (Generation → ℕ)
    → ℕ
    → Setting Search Normalized Page
search_setting u digests answer epoch ttl_seconds = record {
  normal = normalized u digests;
  key = job_search_cache_key digests;
  answer = answer;
  epoch = epoch;
  ttl_seconds = ttl_seconds;
}
