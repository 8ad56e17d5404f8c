-- ===== src/RateLimit/Tests.antt =====
-- The limiter at concrete requests.
use jobs_scraper_global.Prelude.{
  ℕ, String, ◌≡◌, refl, ◌+◌, false, Option, none, some, List, [], ◌∷◌, arith, min,
}
use jobs_scraper_global.RateLimit.{
  RateLimitConfig, Headers, passed, too_many, unavailable, consume_from_memory, key_of,
  limit_request,
}
use jobs_scraper_global.RateLimit.Valkey.{no_expiry, Client, consume_from_valkey}
use jobs_scraper_global.RateLimit.Window.{Arrival, asked, let_pass, let_pass-opened}
use jobs_scraper_global.RateLimit.Lockout.{Counter, CountsUp, IsStuck, limit_request-IsStuck}

-- At most two requests in fifteen minutes; a request is its key.
abbrev account : RateLimitConfig String
account = record {
  name = "auth:account";
  max_count = 2;
  window_seconds = 900;
  key_generator = λ r. some r;
}

abbrev anna_key : String
anna_key = "rate-limit:auth:account:anna"

abbrev arrivals : List (Arrival String)
arrivals = ("bert", 20, 20) ∷ ("anna", 30, 31) ∷ ("anna", 899999, 900001) ∷ []

abbrev all_arrivals : List (Arrival String)
all_arrivals = ("anna", 0, 1) ∷ arrivals

third_refused :
    (limit_request consume_from_memory account "anna" 899999 899999
      ((anna_key, record { count = 2; reset_at = 900000 }) ∷ [])).0
    ≡ too_many record { limit = 2; remaining = 0; reset = 1; retry_after = some 1 }
unfolding limit_request consume_from_memory
third_refused = refl

let_pass-opened_example :
    let_pass account anna_key all_arrivals [] ≡ min (asked account anna_key all_arrivals) 2
unfolding key_of
let_pass-opened_example =
    let_pass-opened account anna_key "anna" 0 1 arrivals [] refl tt
      (omega arith, (omega arith, (omega arith, tt)))

-- A server of one counter, on which EXPIRE always fails.
abbrev count_up : Counter → Option ℕ × Counter
count_up none = (some 1, some (1, false))
count_up (some (n, x)) = (some (n + 1), some (n + 1, x))

abbrev lame : Client Counter
lame = record {
  incr = λ key s. count_up s;
  expire = λ key secs s. (false, s);
  ttl = λ key s. some no_expiry;
}

abbrev counter : String → Counter → Counter
counter key s = s

lame-CountsUp : CountsUp lame counter
lame-CountsUp = record { incr_answered = answered; incr_failed = λ key s n c e. ground arith }
  where
    answered :
        (key : String) (s : Counter) (n m : ℕ)
        → s ≡ some (n, false)
        → (count_up s).0 ≡ some m
        → (m ≡ n + 1) × ((count_up s).1 ≡ some (n + 1, false))
    answered key s n m c e = ground arith

first_unavailable :
    limit_request (consume_from_valkey lame) account "anna" 0 0 none
    ≡ (unavailable, some (1, false))
unfolding limit_request consume_from_valkey
first_unavailable = refl

abbrev shown : Headers
shown = record { limit = 2; remaining = 0; reset = 900; retry_after = none }

limit_request-IsStuck_example :
    ((limit_request (consume_from_valkey lame) account "anna" 0 0 (some (2, false))).0
        ≡ passed shown
      → ⊥)
    × IsStuck lame counter lame-CountsUp account anna_key
        (limit_request (consume_from_valkey lame) account "anna" 0 0 (some (2, false))).1
unfolding key_of
limit_request-IsStuck_example =
    limit_request-IsStuck lame counter lame-CountsUp account "anna" anna_key 0 0 (some (2, false))
      shown refl (2, omega arith, omega arith, refl)
