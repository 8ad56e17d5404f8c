-- ===== src/Search/Cache/Server.antt =====
-- `ValkeySearchCacheStore` and its two scripts, which the server runs one at a time:
-- backend/src/modules/jobs/cache/valkeySearchCache.adapter.ts.
use jobs_scraper_global.Prelude.{
  ℕ, ◌+◌, ◌-◌, ◌≤◌, ◌<◌, min, String, ◌≡◌, Bool, true, false, not, ◌&&◌, Option, none, some, ◌==◌,
  eq_iff, ltb, leb, eqb, if◌then◌else◌, or_else, arith, Bool-cases, inl, inr,
}

-- What a generation is joined from; the parts can be told apart in the text, since only the first
-- may have a colon.
pub record Generation : Type 0 where
  pub version : String
  pub counter : String
  pub expiry : ℕ
  pub taxonomy : String

-- The keys of the catalog that the scripts read; `expiry` is the least score of the set `expires`.
pub record Catalog : Type 0 where
  pub version : Option String
  pub counter : Option String
  pub expiry : Option ℕ

-- The time is in seconds. A page has the time at which it expires.
pub record Server (Page : Type 0) : Type 0 where
  pub catalog : Catalog
  pub pages : String → Option (Page × ℕ)
  pub now : ℕ

-- `taxonomyVersion`.
abbrev pub taxonomy_version : String
taxonomy_version = "v1"

abbrev pub generation_with : String → Catalog → Generation
generation_with v c = record {
  version = v;
  counter = or_else c.counter "0";
  expiry = or_else c.expiry 0;
  taxonomy = taxonomy_version;
}

abbrev pub same_generation : Generation → Generation → Bool
same_generation g h =
    g.version == h.version
    && g.counter == h.counter
    && eqb g.expiry h.expiry
    && g.taxonomy == h.taxonomy

-- `put m k v` is the map with another value at one key.
abbrev pub put {ℓ} : {V : Type ℓ} → (String → V) → String → V → String → V
put m k v j = if j == k then v else m j

abbrev pub live : ℕ → Catalog → Bool
live now c = not (ltb 0 (or_else c.expiry 0) && leb (or_else c.expiry 0) now)

-- `generationScript`.
abbrev pub catalog_generation : Option String → ℕ → Catalog → Option Generation
catalog_generation none now c = none
catalog_generation (some v) now c = if live now c then some (generation_with v c) else none

-- The seconds that a page may stay: no longer than the next job of the catalog.
abbrev pub capped_ttl : ℕ → ℕ → ℕ → ℕ
capped_ttl ttl expiry now = if ltb 0 expiry then min ttl (expiry - now) else ttl

module _ {Page : Type 0} where
  abbrev pub generation : Server Page → Option Generation
  generation s = catalog_generation s.catalog.version s.now s.catalog

  abbrev pub unexpired : ℕ → Option (Page × ℕ) → Option Page
  unexpired now none = none
  unexpired now (some (page, deadline)) = if ltb now deadline then some page else none

  abbrev pub read : String → Server Page → Option Page
  read key s = unexpired s.now (s.pages key)

  abbrev pub set_page : String → Page → ℕ → Server Page → Bool × Server Page
  set_page key page ttl s =
      if ltb ttl 1
      then (false, s)
      else (true, record s { pages = put s.pages key (some (page, s.now + ttl)) })

  abbrev pub write_checked :
      String → Page → Generation → ℕ → Option String → Server Page → Bool × Server Page
  write_checked key page expected ttl none s = (false, s)
  write_checked key page expected ttl (some v) s =
      let written = set_page key page (capped_ttl ttl (or_else s.catalog.expiry 0) s.now) s in
      if same_generation (generation_with v s.catalog) expected then written else (false, s)

  -- `writeScript`: whether the page was stored, and the server afterwards.
  unfoldable pub write_if_generation :
      String → Page → Generation → ℕ → Server Page → Bool × Server Page
  write_if_generation key page expected ttl s =
      write_checked key page expected ttl s.catalog.version s

pub same_generation-eq : (g h : Generation) → same_generation g h ≡ true → g ≡ h
same_generation-eq g h e =
    ground
      (arith, eq_iff g.version h.version, eq_iff g.counter h.counter, eq_iff g.taxonomy h.taxonomy)

module _ {Page : Type 0} (key : String) (page : Page) (expected : Generation) (ttl : ℕ) where
  write_checked_stored :
      (v : Option String) (s : Server Page)
      → (write_checked key page expected ttl v s).0 ≡ true
      → (d : ℕ) × ((write_checked key page expected ttl v s).1
          ≡ record s { pages = put s.pages key (some (page, d)) })
        × (catalog_generation v s.now s.catalog ≡ some expected)
        × (s.now < d)
        × (d ≤ s.now + ttl)
        × (0 < expected.expiry → d ≤ expected.expiry)
  write_checked_stored none s h = ground arith
  write_checked_stored (some v) s h =
      elim (Bool-cases (same_generation (generation_with v s.catalog) expected)) [
        | inr other ↦ ground arith
        | inl same ↦ stored (same_generation-eq (generation_with v s.catalog) expected same)
      ]
    where
      deadline : ℕ
      deadline = s.now + capped_ttl ttl (or_else s.catalog.expiry 0) s.now

      stored :
          generation_with v s.catalog ≡ expected
          → (d : ℕ) × ((write_checked key page expected ttl (some v) s).1
              ≡ record s { pages = put s.pages key (some (page, d)) })
            × (catalog_generation (some v) s.now s.catalog ≡ some expected)
            × (s.now < d)
            × (d ≤ s.now + ttl)
            × (0 < expected.expiry → d ≤ expected.expiry)
      stored e =
          (deadline, ground arith, ground arith, ground arith, ground arith, λ p. ground arith)

  write_checked_refused :
      (v : Option String) (s : Server Page)
      → (write_checked key page expected ttl v s).0 ≡ false
      → (write_checked key page expected ttl v s).1 ≡ s
  write_checked_refused none s h = ground arith
  write_checked_refused (some v) s h = ground arith

  pub write_if_generation-refused :
      (s : Server Page)
      → (write_if_generation key page expected ttl s).0 ≡ false
      → (write_if_generation key page expected ttl s).1 ≡ s
  unfolding write_if_generation
  write_if_generation-refused s h = write_checked_refused s.catalog.version s h

  -- A page is stored only under the generation of that moment, for at least a second, for the given
  -- time at most, and not beyond the expiry of the next job.
  pub write_if_generation-stored :
      (s : Server Page)
      → (write_if_generation key page expected ttl s).0 ≡ true
      → (d : ℕ) × ((write_if_generation key page expected ttl s).1
          ≡ record s { pages = put s.pages key (some (page, d)) })
        × (generation s ≡ some expected)
        × (s.now < d)
        × (d ≤ s.now + ttl)
        × (0 < expected.expiry → d ≤ expected.expiry)
  unfolding write_if_generation
  write_if_generation-stored s h = write_checked_stored s.catalog.version s h
