-- ===== src/RateLimit/Lockout.antt =====
-- What becomes of a counter of Valkey that has been left without an expiry.
use jobs_scraper_global.Prelude.{
  ℕ, String, ◌≡◌, ◌<◌, ◌≤◌, ◌+◌, Bool, false, Option, none, some, arith, eqb, Option-cases, inl,
  inr,
}
use jobs_scraper_global.RateLimit.{
  RateLimitConfig, Headers, passed, decide, key_of, limit_key, limit_request,
}
use jobs_scraper_global.RateLimit.Valkey.{Ttl, with_ttl, Client, after_incr, consume_from_valkey}

-- What the server holds under a key: the count, and whether it expires.
abbrev pub Counter : Type 0
Counter = Option (ℕ × Bool)

-- The documented behaviour of INCR on a counter without an expiry: when it is answered, the count
-- has grown by one and is the answer, and there is still no expiry; when not, it may have run.
pub record CountsUp {Server : Type 0} (client : Client Server) (counter : String → Server → Counter)
    : Type 0 where
  pub incr_answered :
      (key : String) (server : Server) (n m : ℕ)
      → counter key server ≡ some (n, false)
      → (client.incr key server).0 ≡ some m
      → (m ≡ n + 1) × (counter key (client.incr key server).1 ≡ some (n + 1, false))
  pub incr_failed :
      (key : String) (server : Server) (n : ℕ)
      → counter key server ≡ some (n, false)
      → (client.incr key server).0 ≡ none
      → (m : ℕ) × (n ≤ m) × (counter key (client.incr key server).1 ≡ some (m, false))

not_passed :
    (max_count answered window_seconds count now : ℕ) (t : Option Ttl) (h : Headers)
    → max_count < count
    → decide max_count answered (with_ttl window_seconds count now t) ≡ passed h
    → ⊥
unfolding decide
not_passed max_count answered window_seconds count now none h b k = ground arith
not_passed max_count answered window_seconds count now (some t) h b k = ground arith

module _ {Server Request : Type 0} (client : Client Server) (counter : String → Server → Counter)
    (laws : CountsUp client counter) (config : RateLimitConfig Request) where
  -- The counter has reached the maximum and does not expire.
  abbrev pub IsStuck : String → Server → Type 0
  IsStuck key server =
      (n : ℕ) × (0 < n) × (config.max_count ≤ n) × (counter key server ≡ some (n, false))

  -- Once a counter without an expiry has reached the maximum, no request for its key passes, and the
  -- counter stays so, whatever commands fail, where INCR behaves as documented.
  pub limit_request-IsStuck :
      (request : Request) (key : String) (now answered : ℕ) (server : Server) (h : Headers)
      → key_of config request ≡ some key
      → IsStuck key server
      → ((limit_request (consume_from_valkey client) config request now answered server).0
            ≡ passed h
          → ⊥)
        × IsStuck key
            (limit_request (consume_from_valkey client) config request now answered server).1
  unfolding limit_request consume_from_valkey decide
  limit_request-IsStuck request key now answered server h k (n, p, b, c) =
      rw (k, limit_key)
        (elim (Option-cases (client.incr key server).0) [
          | inl e ↦
              let (m, le, c') = laws.incr_failed key server n c e in
              rw (after_incr, e) (λ q. ground arith, (m, omega arith, omega arith, c'))
          | inr (m, e) ↦
              let (mn, c') = laws.incr_answered key server n m c e in
              let later : eqb m 1 ≡ false = ground arith in
              rw (after_incr, e, later)
                (
                  not_passed config.max_count answered config.window_seconds m now
                      (client.ttl key (client.incr key server).1) h (omega arith),
                  (n + 1, omega arith, omega arith, c'),
                )
        ])
