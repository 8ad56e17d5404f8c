-- ===== src/Errors.antt =====
-- Errors and their HTTP answers: backend/src/lib/errors.ts and backend/src/middleware/errorHandler.ts.
pub mod Handler
mod Tests
use jobs_scraper_global.Prelude.{ℕ, String, Option, none, some, List, Bool, true, false}

-- `ErrorCode`.
pub data ErrorCode : Type 0 where
  invalid_job_family invalid_family_mode validation_error unauthorized_error : ErrorCode
  forbidden_error not_found_error conflict_error internal_error : ErrorCode

-- A value of `ErrorDetails`: a text, or the list of texts that Zod gives for a field.
pub data Detail : Type 0 where
  line : String → Detail
  lines : List String → Detail

abbrev pub ErrorDetails : Type 0
ErrorDetails = List (String × Detail)

pub record AppError : Type 0 where
  pub code : ErrorCode
  pub status_code : ℕ
  pub message : String
  pub details : Option ErrorDetails

-- What a `throw` carries: an `AppError`, a `ZodError` with its field errors, a plain `Error`, or
-- the error of drizzle for a failed query, whose cause is the driver's error with its SQLSTATE.
pub data Thrown : Type 0 where
  app : AppError → Thrown
  zod : ErrorDetails → Thrown
  plain : String → Thrown
  sqlstate : String → Thrown

abbrev code_text : ErrorCode → String
code_text invalid_job_family = "INVALID_JOB_FAMILY"
code_text invalid_family_mode = "INVALID_FAMILY_MODE"
code_text validation_error = "VALIDATION_ERROR"
code_text unauthorized_error = "UNAUTHORIZED"
code_text forbidden_error = "FORBIDDEN"
code_text not_found_error = "NOT_FOUND"
code_text conflict_error = "CONFLICT"
code_text internal_error = "INTERNAL_ERROR"

-- `err.code` of what is caught. Drizzle's error has no code of its own: the SQLSTATE is at its
-- `cause`.
abbrev pub code_of : Thrown → Option String
code_of (app e) = some (code_text e.code)
code_of _ = none

unfoldable pub validation : String → Option ErrorDetails → AppError
validation m d = record { code = validation_error; status_code = 400; message = m; details = d }

unfoldable pub unauthorized : String → AppError
unauthorized m = record {
  code = unauthorized_error;
  status_code = 401;
  message = m;
  details = none;
}

unfoldable pub forbidden : String → AppError
forbidden m = record { code = forbidden_error; status_code = 403; message = m; details = none }

unfoldable pub not_found : String → AppError
not_found m = record { code = not_found_error; status_code = 404; message = m; details = none }

unfoldable pub conflict : String → Option ErrorDetails → AppError
conflict m d = record { code = conflict_error; status_code = 409; message = m; details = d }

unfoldable pub internal : String → Option ErrorDetails → AppError
internal m d = record { code = internal_error; status_code = 500; message = m; details = d }

unfoldable pub from_zod_error : ErrorDetails → AppError
unfolding validation
from_zod_error field_errors = validation "Dados inválidos" (some field_errors)

-- The body of `toJSON`: `details` is there exactly when it was given.
pub record Body : Type 0 where
  pub code : ErrorCode
  pub message : String
  pub details : Option ErrorDetails

unfoldable pub to_json : AppError → Body
to_json e = record { code = e.code; message = e.message; details = e.details }

unfoldable pub is_app_error : Thrown → Bool
is_app_error (app e) = true
is_app_error _ = false
