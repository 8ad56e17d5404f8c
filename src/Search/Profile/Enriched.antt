-- ===== src/Search/Profile/Enriched.antt =====
-- What `enrich` leaves in the table of notifications.
use jobs_scraper_global.Prelude.{
  ◌≤◌, String, ◌≡◌, Bool, true, false, ◌&&◌, Option, some, List, [], ◌∷◌, map, filter, All, or_else,
  ◌==◌, arith, Bool-cases, inl, inr,
}
use jobs_scraper_global.Postgres.{Postgres}
use jobs_scraper_global.Career.Store.{Db}
use jobs_scraper_global.Career.Notifications.{Matched}
use jobs_scraper_global.Search.Filters.Comparable.{Unicode}
use jobs_scraper_global.Search.Matching.Technologies.{TechnologyExperience}
use jobs_scraper_global.Search.Matching.Profile.{MatchPreferences}
use jobs_scraper_global.Search.Profile.{
  MatchedJob, as_matched, is_high, Turn, notify_high_matches, scored, no_preferences, is_none,
  has_none, notify_user, enrich,
}
use jobs_scraper_global.Search.Profile.Notices.{IsStatement, IsServed, settle_all-AreServed}
use jobs_scraper_global.Search.Profile.Once.{times, count, settle_all-count}

module _ (pg : Postgres) (user : String) where
  high-AreServed :
      (s : Db) (jobs : List Matched)
      → All (IsServed pg user s) (filter is_high jobs)
      → All (IsServed pg user s) jobs
  high-AreServed s [] h = tt
  high-AreServed s (job ∷ jobs) h = elim (Bool-cases (is_high job)) [
    | inl high ↦
        let k : All (IsServed pg user s) (job ∷ filter is_high jobs) = rw high at h in
        (k.0, high-AreServed s jobs k.1)
    | inr low ↦ (λ told. ground arith, high-AreServed s jobs (rw low at h))
  ]

  notify-AreServed :
      (turns : List Turn) (jobs : List MatchedJob) (s : Db)
      → All IsStatement turns
      → All (IsServed pg user (notify_high_matches pg user turns jobs s).1) (map as_matched jobs)
  unfolding notify_high_matches
  notify-AreServed turns jobs s f =
      high-AreServed (notify_high_matches pg user turns jobs s).1 (map as_matched jobs)
        (settle_all-AreServed pg user turns (filter is_high (map as_matched jobs)) s f)

  notify-count :
      (e : String) (turns : List Turn) (jobs : List MatchedJob) (s : Db)
      → times e (filter is_high (map as_matched jobs)) ≤ 1
      → count pg user e s ≤ 1
      → count pg user e (notify_high_matches pg user turns jobs s).1 ≤ 1
  unfolding notify_high_matches
  notify-count e turns jobs s h k =
      settle_all-count pg user e turns (filter is_high (map as_matched jobs)) s h k

module _ (u : Unicode) (locale_le : String → String → Bool) (pg : Postgres) (user : String)
    (turns : List Turn) (jobs : List MatchedJob) (ts : List TechnologyExperience)
    (p : Option MatchPreferences) (s : Db) where
  -- When the jobs of a page have been enriched for a user with a profile, and no statement has failed,
  -- every job of the page with a score of at least 85 and a link or an identifier has a notification
  -- of the user, in whatever order the statements have come.
  pub enrich-AreServed :
      (user == "") ≡ false
      → (has_none ts && is_none p) ≡ false
      → All IsStatement turns
      → let r = enrich u locale_le pg (some user) turns jobs ts p true s in
        All (IsServed pg user r.1.1) (map as_matched r.0)
  unfolding enrich notify_user
  enrich-AreServed named profile f = rw profile (
      rw named (
        notify-AreServed pg user turns
          (map (scored u locale_le pg ts (or_else p no_preferences)) jobs) s f))

  -- When a user has at most one notification for an identity, and at most one of the high matches of a
  -- page has it, then there is at most one afterwards, in whatever order the statements have come and
  -- whichever of them have failed.
  pub enrich-count :
      (e : String)
      → let r = enrich u locale_le pg (some user) turns jobs ts p true s in
        times e (filter is_high (map as_matched r.0)) ≤ 1
        → count pg user e s ≤ 1
        → count pg user e r.1.1 ≤ 1
  unfolding enrich notify_user
  enrich-count e h k = elim (Bool-cases (has_none ts && is_none p)) [
    | inl plain ↦ rw plain k
    | inr profile ↦ elim (Bool-cases (user == "")) [
      | inl nobody ↦ rw (profile, nobody) k
      | inr named ↦
          rw (profile, named)
            (notify-count pg user e turns
              (map (scored u locale_le pg ts (or_else p no_preferences)) jobs) s (rw profile at h)
              k)
    ]
  ]
