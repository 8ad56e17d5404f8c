-- ===== src/Search/Profile/Calls.antt =====
-- The calls that `enrich` makes stay those of the jobs that it has started them for.
use jobs_scraper_global.Prelude.{
  ℕ, zero, suc, ◌≡◌, refl, ◌∙◌, ap, Option, none, some, List, [], ◌∷◌, map, find?, or_else, ◌==◌,
  Bool-cases, inl, inr, ltb, ◌||◌, String,
}
use jobs_scraper_global.Postgres.{Postgres}
use jobs_scraper_global.Career.Store.{Db, UserNotification}
use jobs_scraper_global.Career.Notifications.{Matched, is_match_of, create}
use jobs_scraper_global.Search.Profile.{
  Call, asked, missing, noted, dropped, begin, Turn, statement, failure, fail, fail_at, looked,
  advance, advance_at, take_turns, finish_calls, settle_all,
}

-- The job of a call.
abbrev pub job_of : Call → Matched
job_of (asked job) = job
job_of (missing job) = job
job_of (noted job) = job
job_of (dropped job) = job

module _ (pg : Postgres) (user : String) where
  looked-job_of :
      (job : Matched) (o : Option UserNotification) → job_of (looked pg user job o) ≡ job
  looked-job_of job none = refl
  looked-job_of job (some n) = refl

  advance-job_of : (c : Call) (s : Db) → job_of (advance pg user c s).0 ≡ job_of c
  unfolding create
  advance-job_of (asked job) s =
      looked-job_of job (find? (is_match_of user job.identity) s.user_notifications)
  advance-job_of (missing job) s = refl
  advance-job_of (noted job) s = refl
  advance-job_of (dropped job) s = refl

  fail-job_of : (c : Call) → job_of (fail c) ≡ job_of c
  fail-job_of (asked job) = refl
  fail-job_of (missing job) = refl
  fail-job_of (noted job) = refl
  fail-job_of (dropped job) = refl

  advance_at-job_of :
      (n : ℕ) (calls : List Call) (s : Db)
      → map job_of (advance_at pg user n calls s).0 ≡ map job_of calls
  unfolding advance_at
  advance_at-job_of n [] s = refl
  advance_at-job_of zero (c ∷ calls) s = ap (λ j. j ∷ map job_of calls) (advance-job_of c s)
  advance_at-job_of (suc n) (c ∷ calls) s = ap (◌∷◌ (job_of c)) (advance_at-job_of n calls s)

  fail_at-job_of : (n : ℕ) (calls : List Call) → map job_of (fail_at n calls) ≡ map job_of calls
  fail_at-job_of n [] = refl
  fail_at-job_of zero (c ∷ calls) = ap (λ j. j ∷ map job_of calls) (fail-job_of c)
  fail_at-job_of (suc n) (c ∷ calls) = ap (◌∷◌ (job_of c)) (fail_at-job_of n calls)

  take_turns-job_of :
      (turns : List Turn) (calls : List Call) (s : Db)
      → map job_of (take_turns pg user turns calls s).0 ≡ map job_of calls
  unfolding take_turns
  take_turns-job_of [] calls s = refl
  take_turns-job_of (statement n ∷ turns) calls s =
      let r = advance_at pg user n calls s in
      take_turns-job_of turns r.0 r.1 ∙ advance_at-job_of n calls s
  take_turns-job_of (failure n ∷ turns) calls s =
      take_turns-job_of turns (fail_at n calls) s ∙ fail_at-job_of n calls

  finish_calls-job_of :
      (calls : List Call) (s : Db) → map job_of (finish_calls pg user calls s).0 ≡ map job_of calls
  unfolding finish_calls
  finish_calls-job_of [] s = refl
  finish_calls-job_of (c ∷ calls) s =
      let first = advance pg user c s in
      let second = advance pg user first.0 first.1 in
      cc (finish_calls-job_of calls second.1, advance-job_of c s, advance-job_of first.0 first.1)

  begin-job_of : (jobs : List Matched) → map job_of (map begin jobs) ≡ jobs
  begin-job_of [] = refl
  begin-job_of (job ∷ jobs) =
      elim (Bool-cases (ltb (or_else job.match_score 0) 85 || job.identity == "")) [
        | inl low ↦ rw (begin, low) (ap (◌∷◌ job) (begin-job_of jobs))
        | inr high ↦ rw (begin, high) (ap (◌∷◌ job) (begin-job_of jobs))
      ]

  pub settle_all-job_of :
      (turns : List Turn) (jobs : List Matched) (s : Db)
      → map job_of (settle_all pg user turns (map begin jobs) s).0 ≡ jobs
  unfolding settle_all
  settle_all-job_of turns jobs s =
      let r = take_turns pg user turns (map begin jobs) s in
      finish_calls-job_of r.0 r.1 ∙ take_turns-job_of turns (map begin jobs) s ∙ begin-job_of jobs
