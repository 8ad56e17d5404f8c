-- ===== src/Errors/Handler.antt =====
-- The last middleware of the stack: backend/src/middleware/errorHandler.ts.
use text.Mathlib.Text.{starts_with}
use jobs_scraper_global.Prelude.{
  ℕ, String, ◌≡◌, none, some, [], ◌∷◌, Bool, true, false, if◌then◌else◌, arith, ◌==◌,
}
use jobs_scraper_global.Errors.{
  line, ErrorDetails, AppError, Thrown, app, zod, plain, sqlstate, forbidden, internal,
  from_zod_error, Body, to_json,
}

pub record Response : Type 0 where
  pub status : ℕ
  pub body : Body

answer : AppError → Response
unfolding to_json
answer e = record { status = e.status_code; body = to_json e }

-- `error.message || "unknown"`.
cause : String → String
cause m = if m == "" then "unknown" else m

-- The tests of `errorHandler` after that of the CORS message, in their order.
dispatch : Bool → Thrown → String → Response
unfolding answer cause from_zod_error internal
dispatch production (app e) m = answer e
dispatch production (zod d) m = answer (from_zod_error d)
dispatch production _ m =
    answer (
      internal "Erro interno." (if production then none else some (("cause", line (cause m)) ∷ [])))

-- An error that the program did not raise as an `AppError` and that is not Zod's.
abbrev pub IsUnexpected : Thrown → Type 0
IsUnexpected (app e) = ⊥
IsUnexpected (zod d) = ⊥
IsUnexpected _ = Unit

abbrev pub expected_status : Thrown → ℕ
expected_status (app e) = e.status_code
expected_status (zod d) = 400
expected_status _ = 500

-- The messages of the database driver and of Zod are not the program's.
module _ (driver_message : String → String) (zod_message : ErrorDetails → String) where
  -- `error.message`.
  abbrev pub message_of : Thrown → String
  message_of (app e) = e.message
  message_of (zod d) = zod_message d
  message_of (plain m) = m
  message_of (sqlstate c) = driver_message c

  abbrev pub is_cors : Thrown → Bool
  is_cors e = starts_with (message_of e) "Origin not allowed by CORS"

  -- `errorHandler`, with `isProduction()` as its first argument.
  unfoldable pub error_handler : Bool → Thrown → Response
  unfolding dispatch forbidden
  error_handler production e =
      let rest = dispatch production e (message_of e) in
      if is_cors e then answer (forbidden "Origem não permitida.") else rest

  -- In production the answers to any two unexpected errors that are not CORS errors are the same,
  -- whatever their messages.
  pub error_handler_hides :
      (e f : Thrown)
      → IsUnexpected e
      → IsUnexpected f
      → is_cors e ≡ false
      → is_cors f ≡ false
      → error_handler true e ≡ error_handler true f
  unfolding error_handler
  error_handler_hides e f he hf ce cf = ground arith

  -- Outside CORS errors an `AppError` is answered with its own status,
  -- a `ZodError` with 400, and any other error with 500.
  pub error_handler-status :
      (production : Bool) (e : Thrown)
      → is_cors e ≡ false
      → (error_handler production e).status ≡ expected_status e
  unfolding error_handler
  error_handler-status production e c = ground arith
