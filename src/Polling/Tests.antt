-- ===== src/Polling/Tests.antt =====
-- A polled resource with numbers as data.
use jobs_scraper_global.Prelude.{ℕ, ◌≡◌, refl, true, false, none, some, List, [], ◌∷◌, arith, ltb}
use jobs_scraper_global.Polling.{
  Request, Options, loaded, failed, Event, refresh, subscribe, unsubscribe, settle, step, run,
  created,
}
use jobs_scraper_global.Polling.Subscriptions.{IsWellFormed}
use jobs_scraper_global.Polling.Runs.{run-IsWellFormed, run-forbidden, settle-old}

abbrev options : Options ℕ
options = record {
  error_message = "e";
  unavailable_message = none;
  accept = ltb 3;
  timestamp = λ n. "now";
}

-- A reader leaves before the answer comes, and another one subscribes.
abbrev change_of_reader : List (Event ℕ)
change_of_reader = subscribe 1 5 ∷ refresh ∷ unsubscribe 1 ∷ subscribe 2 9 ∷ refresh ∷ []

abbrev refusal : List (Event ℕ)
refusal =
    subscribe 1 5 ∷ refresh ∷ settle 0 (loaded 7) ∷ refresh ∷ settle 1 (failed (some 403)) ∷ []

read_7 :
    (run options
      (subscribe 1 5 ∷ refresh ∷ settle 0 (loaded 7) ∷ refresh ∷ [])
      (created false)).state.reading
    ≡ some 7
unfolding run step
read_7 = refl

refused : (run options refusal (created false)).state.forbidden ≡ true
unfolding run step
refused = refl

run-IsWellFormed_example : IsWellFormed (run options change_of_reader (created false))
run-IsWellFormed_example = run-IsWellFormed options false change_of_reader

run-forbidden_example :
    ((run options
        (subscribe 3 1 ∷ refresh ∷ [])
        (run options refusal (created false))).state.reading
      ≡ none)
    × ((run options (subscribe 3 1 ∷ refresh ∷ []) (run options refusal (created false))).pending
        ≡ none)
run-forbidden_example = run-forbidden options false refusal (subscribe 3 1 ∷ refresh ∷ []) refused

abbrev old_request : Request
old_request = record { id = 0; sent_in = 0 }

settle-old_example :
    ((step options (settle 0 (loaded 8)) (run options change_of_reader (created false))).state
      ≡ (run options change_of_reader (created false)).state)
    × ((step options (settle 0 (loaded 8)) (run options change_of_reader (created false))).pending
        ≡ (run options change_of_reader (created false)).pending)
unfolding run step
settle-old_example =
    settle-old options false change_of_reader 0 (loaded 8) old_request refl (λ e. ground arith)
