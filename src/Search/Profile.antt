-- ===== src/Search/Profile.antt =====
-- `JobProfileMatchService` of backend/src/modules/jobs/services/jobProfileMatch.service.ts, with
-- `jobNotificationIdentity` of jobMatch.service.ts: the jobs of a page are scored, and those that
-- match highly are noted by calls of the notifications service that run at the same time.
pub mod Reading
pub mod Calls
pub mod Notices
pub mod Enriched
pub mod Once
pub mod Tests
use jobs_scraper_global.Prelude.{
  ℕ, zero, suc, String, Bool, true, false, ◌&&◌, ◌||◌, Option, none, some, List, [], ◌∷◌, map, not,
  filter, find?, leb, ltb, or_else, or_text, trim, is_some, ◌==◌, if◌then◌else◌,
}
use jobs_scraper_global.Postgres.{Postgres}
use jobs_scraper_global.Career.Store.{Db, UserNotification}
use jobs_scraper_global.Career.Notifications.{Matched, is_match_of, match_notification, create}
use jobs_scraper_global.Search.Filters.Comparable.{Unicode}
use jobs_scraper_global.Search.Matching.Words.{MatchableJob}
use jobs_scraper_global.Search.Matching.Technologies.{TechnologyExperience, Match}
use jobs_scraper_global.Search.Matching.Profile.{MatchPreferences}
use jobs_scraper_global.Search.Matching.Professional.{score_professional_job}

-- `MatchedJob`: a job with what a match has added to it. A field that is not a text is `none`.
pub record MatchedJob : Type 0 where
  pub job : MatchableJob
  pub id : Option String
  pub title : Option String
  pub job_title : Option String
  pub company : Option String
  pub url : Option String
  pub job_link : Option String
  pub match_score : Option ℕ
  pub matched_technologies : Option (List String)
  pub match_reasons : Option (List String)

-- The score by technologies gives no reasons.
abbrev pub reasons_or : Option (List String) → List String → Option (List String)
reasons_or old [] = old
reasons_or old (r ∷ rs) = some (r ∷ rs)

abbrev pub with_match : Option Match → MatchedJob → MatchedJob
with_match none job = job
with_match (some m) job = record job {
  match_score = some m.score;
  matched_technologies = some m.matched_technologies;
  match_reasons = reasons_or job.match_reasons m.reasons;
}

abbrev pub link_of : Option String → Option String → String
link_of none link = or_else link ""
link_of (some url) link = url

-- `jobNotificationIdentity`.
abbrev pub job_notification_identity : MatchedJob → String
job_notification_identity job = or_text (trim (link_of job.url job.job_link)) (or_else job.id "")

-- The job as the notifications service reads it.
abbrev pub as_matched : MatchedJob → Matched
as_matched job = record {
  title = job.title;
  job_title = job.job_title;
  company = job.company;
  match_score = job.match_score;
  matched_technologies = job.matched_technologies;
  identity = job_notification_identity job;
}

abbrev pub is_high : Matched → Bool
is_high job = leb 85 (or_else job.match_score 0)

-- Where a call of `createHighMatchIfMissing` stands: before its query, after a query that has found
-- nothing, with a notification, or without one since it was not to look or has thrown.
pub data Call : Type 0 where
  asked missing noted dropped : Matched → Call

abbrev pub begin : Matched → Call
begin job =
    if ltb (or_else job.match_score 0) 85 || job.identity == "" then dropped job else asked job

-- A statement of the call with a number, or its failure, which the service catches.
pub data Turn : Type 0 where
  statement failure : ℕ → Turn

abbrev pub fail : Call → Call
fail (asked job) = dropped job
fail (missing job) = dropped job
fail c = c

abbrev pub fail_at : ℕ → List Call → List Call
fail_at n [] = []
fail_at zero (c ∷ calls) = fail c ∷ calls
fail_at (suc n) (c ∷ calls) = c ∷ fail_at n calls

module _ (pg : Postgres) (user : String) where
  abbrev pub looked : Matched → Option UserNotification → Call
  looked job none = missing job
  looked job (some n) = noted job

  abbrev pub advance : Call → Db → Call × Db
  unfolding create
  advance (asked job) s =
      (looked job (find? (is_match_of user job.identity) s.user_notifications), s)
  advance (missing job) s =
      (noted job, (create pg (match_notification user job (or_else job.match_score 0)) s).1)
  advance c s = (c, s)

  abbrev pub advance_at : ℕ → List Call → Db → List Call × Db
  unfolding create
  advance_at n [] s = ([], s)
  advance_at zero (c ∷ calls) s = let r = advance c s in (r.0 ∷ calls, r.1)
  advance_at (suc n) (c ∷ calls) s = let r = advance_at n calls s in (c ∷ r.0, r.1)

  abbrev pub take_turns : List Turn → List Call → Db → List Call × Db
  unfolding create
  take_turns [] calls s = (calls, s)
  take_turns (statement n ∷ turns) calls s =
      let r = advance_at n calls s in take_turns turns r.0 r.1
  take_turns (failure n ∷ turns) calls s = take_turns turns (fail_at n calls) s

  -- The calls that have not come to their end yet run one after the other.
  abbrev pub finish_calls : List Call → Db → List Call × Db
  unfolding create
  finish_calls [] s = ([], s)
  finish_calls (c ∷ calls) s =
      let first = advance c s in
      let second = advance first.0 first.1 in
      let rest = finish_calls calls second.1 in (second.0 ∷ rest.0, rest.1)

  abbrev pub settle_all : List Turn → List Call → Db → List Call × Db
  unfolding create
  settle_all turns calls s = let r = take_turns turns calls s in finish_calls r.0 r.1

  -- `notifyHighMatches` of a user: the calls at their end, and the store. The turns say in which order
  -- the statements of the calls come, as far as they do not come one call after the other.
  unfoldable pub notify_high_matches : List Turn → List MatchedJob → Db → List Call × Db
  unfolding create
  notify_high_matches turns jobs s =
      settle_all turns (map begin (filter is_high (map as_matched jobs))) s

abbrev pub no_preferences : MatchPreferences
no_preferences = record {
  family = "";
  seniority = "";
  modality = "";
  modalities = [];
  location = "";
  contract = "";
  skills = [];
}

abbrev pub is_none : Option MatchPreferences → Bool
is_none p = not (is_some p)

abbrev pub has_none : List TechnologyExperience → Bool
has_none [] = true
has_none (t ∷ ts) = false

module _ (u : Unicode) (locale_le : String → String → Bool) (pg : Postgres) where
  unfoldable pub scored : List TechnologyExperience → MatchPreferences → MatchedJob → MatchedJob
  unfolding score_professional_job
  scored technologies preferences job =
      with_match (score_professional_job u locale_le job.job technologies preferences) job

  -- The test `if (!userId) return`.
  abbrev pub notify_user : Option String → List Turn → List MatchedJob → Db → List Call × Db
  unfolding notify_high_matches
  notify_user none turns jobs s = ([], s)
  notify_user (some user) turns jobs s =
      let result = notify_high_matches pg user turns jobs s in
      if user == "" then ([], s) else result

  -- `enrich`, with the calls that it has made; `notify_high` is `options.notifyHighMatches`.
  unfoldable pub enrich :
      Option String
      → List Turn
      → List MatchedJob
      → List TechnologyExperience
      → Option MatchPreferences
      → Bool
      → Db
      → List MatchedJob × (List Call × Db)
  unfolding score_professional_job notify_high_matches
  enrich user turns jobs technologies preferences notify_high s =
      let matched = map (scored technologies (or_else preferences no_preferences)) jobs in
      let result = notify_user user turns matched s in
      if has_none technologies && is_none preferences
      then (jobs, ([], s))
      else (matched, (if notify_high then result else ([], s)))
