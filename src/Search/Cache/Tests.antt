-- ===== src/Search/Cache/Tests.antt =====
-- Runs of the cache of search pages, with fingerprints that are codes of their arguments.
use jobs_scraper_global.Prelude.{ℕ, ◌+◌, ◌*◌, String, ◌≡◌, refl, none, some, arith}
use jobs_scraper_global.Search.Cache.Server.{Generation, Catalog, generation}
use jobs_scraper_global.Search.Cache.Flight.{
  Setting, State, Step, move, take_off, call, generation_read, page_read, check, Reach, here, next,
}
use jobs_scraper_global.Search.Cache.Invariant.{Leads}
use jobs_scraper_global.Search.Cache.Safety.{single_flight}
use jobs_scraper_global.Search.Cache.Codes.{
  tally, tally-injective, generation_code, generation_code-injective,
}

abbrev code_of : ℕ → Generation → String
code_of n g = tally n (generation_code g)

code_of-injective : (n m : ℕ) (g h : Generation) → code_of n g ≡ code_of m h → (n ≡ m) × (g ≡ h)
code_of-injective n m g h e =
    let (a, rest) = tally-injective n m (generation_code g) (generation_code h) e in
    (a, generation_code-injective g h rest)

abbrev setting : Setting ℕ ℕ ℕ
setting = record {
  normal = λ q. q;
  key = code_of;
  answer = λ q n. 10 * q + n;
  epoch = λ g. g.expiry;
  ttl_seconds = 120;
}

abbrev catalog : Catalog
catalog = record { version = some "a"; counter = none; expiry = none }

abbrev first_generation : Generation
first_generation = record { version = "a"; counter = "0"; expiry = 0; taxonomy = "v1" }

abbrev Reached : Type 0
Reached = (s : State ℕ ℕ) × Reach setting s

infixl 5 ◌then_does◌
abbrev ◌then_does◌ : (r : Reached) {t : State ℕ ℕ} → Step setting r.0 t → Reached
◌then_does◌ r {t} st = (t, next r.1 st)

first_epoch :
    (g : Generation)
    → generation {Page = ℕ} (record { catalog = catalog; pages = λ k. none; now = 5 }) ≡ some g
    → g.expiry ≡ 0
first_epoch g e = ground arith

-- The first call has looked for its page, in vain.
abbrev looked_up : Reached
looked_up =
    (_, here catalog 5 first_epoch)
    then_does move 0 (call 7)
    then_does move 0 (generation_read 0 7)
    then_does take_off 0 0 7 first_generation refl refl
    then_does move 0 (page_read 0 7 first_generation)
    then_does move 0 (check 0 7 first_generation none)

single_flight_example :
    (Leads setting (code_of 7 first_generation) (looked_up.0.calls 0)
      → Leads setting (code_of 7 first_generation) (looked_up.0.calls 1)
      → ◌≡◌ {A = ℕ} 0 1)
    × (looked_up.0.in_flight (code_of 7 first_generation) ≡ some 0
        → Leads setting (code_of 7 first_generation) (looked_up.0.calls 0))
single_flight_example =
    single_flight setting code_of-injective (code_of 7 first_generation) 0 1 looked_up.1
