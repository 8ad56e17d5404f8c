-- ===== src/RateLimit.antt =====
-- The limits on sign-in attempts: backend/src/middleware/rateLimit.ts.
pub mod Window
pub mod Valkey
pub mod Lockout
mod Tests
use jobs_scraper_global.Prelude.{
  ℕ, String, Bool, true, false, Option, none, some, List, [], ◌∷◌, ◌+◌, ◌*◌, ◌-◌, ◌/◌, max, ltb,
  leb, if◌then◌else◌, ◌==◌, concat,
}

-- `RateLimitConfig`; `keyGenerator` takes a request to a key, if it has one.
pub record RateLimitConfig (Request : Type 0) : Type 0 where
  pub name : String
  pub max_count : ℕ
  pub window_seconds : ℕ
  pub key_generator : Request → Option String

-- `RateLimitEntry`; times are in milliseconds.
pub record RateLimitEntry : Type 0 where
  pub count : ℕ
  pub reset_at : ℕ

-- `memoryStore`.
abbrev pub MemoryStore : Type 0
MemoryStore = List (String × RateLimitEntry)

abbrev pub get : String → MemoryStore → Option RateLimitEntry
get key [] = none
get key ((k, e) ∷ store) = let rest = get key store in if k == key then some e else rest

abbrev pub set : String → RateLimitEntry → MemoryStore → MemoryStore
set key e [] = (key, e) ∷ []
set key e ((k, old) ∷ store) =
    let rest = set key e store in if k == key then (k, e) ∷ store else (k, old) ∷ rest

-- The entry of a window that opens at `now`.
abbrev pub opened : ℕ → ℕ → RateLimitEntry
opened window_seconds now = record { count = 1; reset_at = now + window_seconds * 1000 }

abbrev pub counted : RateLimitEntry → RateLimitEntry
counted e = record { count = e.count + 1; reset_at = e.reset_at }

abbrev pub next_entry : ℕ → ℕ → Option RateLimitEntry → RateLimitEntry
next_entry window_seconds now none = opened window_seconds now
next_entry window_seconds now (some e) =
    if leb e.reset_at now then opened window_seconds now else counted e

unfoldable pub consume_from_memory :
    String → ℕ → ℕ → MemoryStore → Option RateLimitEntry × MemoryStore
consume_from_memory key window_seconds now store =
    let entry = next_entry window_seconds now (get key store) in (some entry, set key entry store)

-- The headers of `setRateLimitHeaders`.
pub record Headers : Type 0 where
  pub limit : ℕ
  pub remaining : ℕ
  pub reset : ℕ
  pub retry_after : Option ℕ

-- `now` is read from the clock again. A time that has passed gives one second either way.
abbrev pub reset_seconds : RateLimitEntry → ℕ → ℕ
reset_seconds e now = max 1 ((e.reset_at - now + 999) / 1000)

unfoldable pub headers_of : ℕ → RateLimitEntry → ℕ → Headers
headers_of max_count e now = record {
  limit = max_count;
  remaining = max_count - e.count;
  reset = reset_seconds e now;
  retry_after = if ltb max_count e.count then some (reset_seconds e now) else none;
}

-- What the middleware does with a request: it lets it pass, answers 429 or answers 503.
pub data Outcome : Type 0 where
  skipped : Outcome
  passed too_many : Headers → Outcome
  unavailable : Outcome

-- The part of the middleware after the entry is known; `none` is a store that failed.
unfoldable pub decide : ℕ → ℕ → Option RateLimitEntry → Outcome
unfolding headers_of
decide max_count now none = unavailable
decide max_count now (some e) =
    if ltb max_count e.count
    then too_many (headers_of max_count e now)
    else passed (headers_of max_count e now)

-- The key of a request; one without a key, or with an empty one, is not limited.
abbrev full_key : String → Option String → Option String
full_key name none = none
full_key name (some k) =
    if k == "" then none else some (concat ("rate-limit:" ∷ name ∷ ":" ∷ k ∷ []))

unfoldable pub key_of : {Request : Type 0} → RateLimitConfig Request → Request → Option String
key_of config request = full_key config.name (config.key_generator request)

module _ {Store : Type 0} {Request : Type 0}
    (consume : String → ℕ → ℕ → Store → Option RateLimitEntry × Store) where
  abbrev pub limit_key : RateLimitConfig Request → Option String → ℕ → ℕ → Store → Outcome × Store
  limit_key config none now answered store = (skipped, store)
  limit_key config (some key) now answered store =
      let (entry, store') = consume key config.window_seconds now store in
      (decide config.max_count answered entry, store')

  -- The middleware of `createRateLimiter`; `now` and `answered` are the two readings of the clock.
  unfoldable pub limit_request : RateLimitConfig Request → Request → ℕ → ℕ → Store → Outcome × Store
  unfolding decide key_of
  limit_request config request now answered store =
      limit_key config (key_of config request) now answered store
