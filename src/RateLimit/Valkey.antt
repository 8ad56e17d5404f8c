-- ===== src/RateLimit/Valkey.antt =====
-- `consumeFromValkey`: the counter of a Valkey server.
use jobs_scraper_global.Prelude.{
  ℕ, String, Bool, true, Option, none, some, ◌+◌, ◌*◌, eqb, ltb, if◌then◌else◌,
}
use jobs_scraper_global.RateLimit.{RateLimitEntry}

-- The answer of TTL: -1 without an expiry, -2 without the key.
pub data Ttl : Type 0 where
  seconds : ℕ → Ttl
  no_expiry no_key : Ttl

-- The commands of the client; `none` and `false` are commands that fail.
pub record Client (Server : Type 0) : Type 0 where
  pub incr : String → Server → Option ℕ × Server
  pub expire : String → ℕ → Server → Bool × Server
  pub ttl : String → Server → Option Ttl

abbrev pub safe_ttl : ℕ → Ttl → ℕ
safe_ttl window_seconds (seconds n) = if ltb 0 n then n else window_seconds
safe_ttl window_seconds _ = window_seconds

abbrev pub with_ttl : ℕ → ℕ → ℕ → Option Ttl → Option RateLimitEntry
with_ttl window_seconds count now none = none
with_ttl window_seconds count now (some t) =
    some record { count = count; reset_at = now + safe_ttl window_seconds t * 1000 }

module _ {Server : Type 0} (client : Client Server) where
  -- The expiry is set with the first count only.
  abbrev start_window : String → ℕ → ℕ → Server → Bool × Server
  start_window key window_seconds count server =
      let set_now = client.expire key window_seconds server in
      if eqb count 1 then set_now else (true, server)

  abbrev pub after_incr : String → ℕ → ℕ → Option ℕ × Server → Option RateLimitEntry × Server
  after_incr key window_seconds now (none, server) = (none, server)
  after_incr key window_seconds now (some count, server) =
      let (fine, server') = start_window key window_seconds count server in
      (if fine then with_ttl window_seconds count now (client.ttl key server') else none, server')

  unfoldable pub consume_from_valkey : String → ℕ → ℕ → Server → Option RateLimitEntry × Server
  consume_from_valkey key window_seconds now server =
      after_incr key window_seconds now (client.incr key server)
