-- ===== src/Errors/Tests.antt =====
-- The error handler at concrete errors.
use jobs_scraper_global.Prelude.{String, ◌≡◌, refl, true, false, some, [], ◌∷◌}
use jobs_scraper_global.Errors.{ErrorDetails, line, plain, sqlstate}
use jobs_scraper_global.Errors.Handler.{error_handler, error_handler_hides}

abbrev driver : String → String
driver c = "duplicate key value"

abbrev zod_text : ErrorDetails → String
zod_text d = "[]"

cors_answer :
    (error_handler driver zod_text true (plain "Origin not allowed by CORS: x")).status ≡ 403
unfolding error_handler
cors_answer = refl

shown_cause :
    (error_handler driver zod_text false (sqlstate "23505")).body.details
    ≡ some (("cause", line "duplicate key value") ∷ [])
unfolding error_handler
shown_cause = refl

error_handler_hides_example :
    error_handler driver zod_text true (plain "password of the mail server")
    ≡ error_handler driver zod_text true (sqlstate "23505")
error_handler_hides_example =
    error_handler_hides driver zod_text (plain "password of the mail server") (sqlstate "23505") tt
      tt refl refl
