-- ===== src/Search/Cache/Flight.antt =====
-- `JobSearchCache.search` of backend/src/modules/jobs/cache/jobSearchCache.ts, as the steps of many
-- calls in one process between which the server, the catalog and the time may change.
use jobs_scraper_global.Prelude.{
  ℕ, suc, ◌≤◌, String, ◌≡◌, Bool, false, Option, none, some, eqb, if◌then◌else◌,
}
use jobs_scraper_global.Search.Cache.Server.{
  Generation, Catalog, Server, same_generation, put, generation, read, write_if_generation,
}

-- Where a call of `search` stands. `began` and `since` count the changes of the catalog before the
-- call and before its query; no code reads them. A result is `none` where the query has failed.
pub data Phase (Query Page : Type 0) : Type 0 where
  idle : Phase Query Page
  starting : (began : ℕ) → Query → Phase Query Page
  looked : (began : ℕ) → Query → Option Generation → Phase Query Page
  direct : (began since : ℕ) → Query → Phase Query Page
  reading : (began : ℕ) → Query → Generation → Phase Query Page
  checking : (began : ℕ) → Query → Generation → Option Page → Phase Query Page
  querying : (began since : ℕ) → Query → Generation → Phase Query Page
  writing : (began : ℕ) → Query → Generation → Page → Phase Query Page
  settled : (began : ℕ) → Query → Generation → Option Page → Phase Query Page
  following : (began : ℕ) → Query → Generation → (leader : ℕ) → Phase Query Page
  led : (began ended : ℕ) → Query → Generation → Option Page → Phase Query Page
  answered : (began ended : ℕ) → Query → Option Page → Phase Query Page

-- `inFlight`, the calls by number, and the number of changes of the catalog.
pub record State (Query Page : Type 0) : Type 0 where
  pub server : Server Page
  pub changes : ℕ
  pub in_flight : String → Option ℕ
  pub calls : ℕ → Phase Query Page

abbrev pub update {ℓ} : {A : Type ℓ} → (ℕ → A) → ℕ → A → ℕ → A
update f i a j = if eqb i j then a else f j

abbrev pub same_as_current : Generation → Option Generation → Bool
same_as_current g none = false
same_as_current g (some h) = same_generation h g

module _ {Query Page : Type 0} where
  -- What the leader does with what it has read.
  abbrev pub checked :
      ℕ → ℕ → Query → Generation → Option Page → Option Generation → Phase Query Page
  checked began since q g none current = querying began since q g
  checked began since q g (some page) current =
      if same_as_current g current then settled began q g (some page) else querying began since q g

  -- The result of a promise in `inFlight` that has settled.
  abbrev pub result_of : Phase Query Page → Option (Option Page)
  result_of (settled began q g r) = some r
  result_of (led began ended q g r) = some r
  result_of _ = none

-- What the cache is used with. `normal` gives the normal form of the arguments of a search, and
-- `key` the key of that and of the generation (both are in Fingerprint); `answer q n` is the page that the
-- query gives on the catalog after n changes, and `epoch` counts the changes before a generation.
pub record Setting (Query Normal Page : Type 0) : Type 0 where
  pub normal : Query → Normal
  pub key : Normal → Generation → String
  pub answer : Query → ℕ → Page
  pub epoch : Generation → ℕ
  pub ttl_seconds : ℕ

module _ {Query Normal Page : Type 0} (x : Setting Query Normal Page) where
  abbrev pub key_of : Query → Generation → String
  key_of q g = x.key (x.normal q) g

  -- A query that no change of the catalog disturbs gives its answer.
  abbrev pub IsSteady : State Query Page → ℕ → Query → Page → Type 0
  IsSteady s since q page = since ≡ s.changes → page ≡ x.answer q since

  -- The steps of a call that change nothing but its phase.
  pub data Move (s : State Query Page) : Phase Query Page → Phase Query Page → Type 0 where
    call : (q : Query) → Move s idle (starting s.changes q)
    generation_read : (b : ℕ) (q : Query) → Move s (starting b q) (looked b q (generation s.server))
    generation_failed : (b : ℕ) (q : Query) → Move s (starting b q) (direct b s.changes q)
    bypass : (b : ℕ) (q : Query) → Move s (looked b q none) (direct b s.changes q)
    join :
        (b : ℕ) (q : Query) (g : Generation) (l : ℕ)
        → s.in_flight (key_of q g) ≡ some l
        → Move s (looked b q (some g)) (following b q g l)
    page_read :
        (b : ℕ) (q : Query) (g : Generation)
        → Move s (reading b q g) (checking b q g (read (key_of q g) s.server))
    read_failed :
        (b : ℕ) (q : Query) (g : Generation) → Move s (reading b q g) (querying b s.changes q g)
    check :
        (b : ℕ) (q : Query) (g : Generation) (cached : Option Page)
        → Move s (checking b q g cached) (checked b s.changes q g cached (generation s.server))
    check_failed :
        (b : ℕ) (q : Query) (g : Generation) (cached : Option Page)
        → Move s (checking b q g cached) (querying b s.changes q g)
    queried :
        (b since : ℕ) (q : Query) (g : Generation) (page : Page)
        → IsSteady s since q page
        → Move s (querying b since q g) (writing b q g page)
    query_failed :
        (b since : ℕ) (q : Query) (g : Generation)
        → Move s (querying b since q g) (settled b q g none)
    write_failed :
        (b : ℕ) (q : Query) (g : Generation) (page : Page)
        → Move s (writing b q g page) (settled b q g (some page))
    follow :
        (b : ℕ) (q : Query) (g : Generation) (l : ℕ) (r : Option Page)
        → result_of (s.calls l) ≡ some r
        → Move s (following b q g l) (answered b s.changes q r)
    answer_directly :
        (b since : ℕ) (q : Query) (page : Page)
        → IsSteady s since q page
        → Move s (direct b since q) (answered b s.changes q (some page))
    fail_directly :
        (b since : ℕ) (q : Query) → Move s (direct b since q) (answered b s.changes q none)

  abbrev pub moved : State Query Page → ℕ → Phase Query Page → State Query Page
  moved s i p = record s { calls = update s.calls i p }

  -- The call becomes the leader for its key.
  abbrev pub took_off : State Query Page → ℕ → ℕ → Query → Generation → State Query Page
  took_off s i b q g = record s {
    in_flight = put s.in_flight (key_of q g) (some i);
    calls = update s.calls i (reading b q g);
  }

  abbrev pub stored : State Query Page → ℕ → ℕ → Query → Generation → Page → State Query Page
  stored s i b q g page = record s {
    server = (write_if_generation (key_of q g) page g x.ttl_seconds s.server).1;
    calls = update s.calls i (settled b q g (some page));
  }

  -- The leader's `finally`.
  abbrev pub landed : State Query Page → ℕ → ℕ → Query → Generation → Option Page → State Query Page
  landed s i b q g r = record s {
    in_flight = put s.in_flight (key_of q g) none;
    calls = update s.calls i (led b s.changes q g r);
  }

  -- The catalog may change at any moment, and then has a generation that it never had. That a job
  -- expires is such a change. Otherwise time passes while the generation stays, and the server may
  -- drop a page.
  pub data Step (s : State Query Page) : State Query Page → Type 0 where
    move : (i : ℕ) {p : Phase Query Page} → Move s (s.calls i) p → Step s (moved s i p)
    take_off :
        (i b : ℕ) (q : Query) (g : Generation)
        → s.calls i ≡ looked b q (some g)
        → s.in_flight (key_of q g) ≡ none
        → Step s (took_off s i b q g)
    store :
        (i b : ℕ) (q : Query) (g : Generation) (page : Page)
        → s.calls i ≡ writing b q g page
        → Step s (stored s i b q g page)
    land :
        (i b : ℕ) (q : Query) (g : Generation) (r : Option Page)
        → s.calls i ≡ settled b q g r
        → Step s (landed s i b q g r)
    change :
        (c : Catalog) (now : ℕ)
        → ((g : Generation)
            → generation (record s.server { catalog = c; now = now }) ≡ some g
            → x.epoch g ≡ suc s.changes)
        → Step s (record s {
          server = record s.server { catalog = c; now = now };
          changes = suc s.changes;
        })
    pass :
        (now : ℕ)
        → s.server.now ≤ now
        → generation (record s.server { now = now }) ≡ generation s.server
        → Step s (record s { server = record s.server { now = now } })
    evict :
        (k : String)
        → Step s (record s { server = record s.server { pages = put s.server.pages k none } })

  abbrev pub start : Catalog → ℕ → State Query Page
  start c now = record {
    server = record { catalog = c; pages = λ k. none; now = now };
    changes = 0;
    in_flight = λ k. none;
    calls = λ i. idle;
  }

  -- The states that are reached from the start of the process, with an empty cache.
  pub data Reach : State Query Page → Type 0 where
    here :
        (c : Catalog) (now : ℕ)
        → ((g : Generation) → generation (start c now).server ≡ some g → x.epoch g ≡ 0)
        → Reach (start c now)
    next : {s t : State Query Page} → Reach s → Step s t → Reach t
