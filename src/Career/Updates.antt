-- ===== src/Career/Updates.antt =====
-- What `update` of the saved-jobs service does to a job that its user owns, and the log of events.
use jobs_scraper_global.Prelude.{
  ℕ, String, ◌≡◌, refl, sym, ◌∙◌, ap, true, Option, none, some, List, [], ◌∷◌, arith, eq_refl,
  filter, find?, find?-eq-first-filter, Bool-cases, inl, inr, if◌then◌else◌, first, or_else,
}
use jobs_scraper_global.Exec.{ok, transaction_of_ok}
use jobs_scraper_global.Table.{insert, update_where, returning, first-returning, filter-insert}
use jobs_scraper_global.Postgres.{Postgres}
use jobs_scraper_global.Career.Store.{JobStatus, status_eq, SavedJob, ApplicationEvent, Db}
use jobs_scraper_global.Career.Notifications
use jobs_scraper_global.Career.SavedJobs
use jobs_scraper_global.Career.SavedJobs.{
  Patch, set_job, insert_event, is_job, has_link, is_event_of, log_change, patched, update_body,
}

pub status_eq→eq : (a b : JobStatus) → status_eq a b ≡ true → a ≡ b
status_eq→eq a b h = ground arith

-- `from` is the status before the first of the events, each of which starts where the one before
-- it ended, and `to` is the status after the last.
abbrev pub IsChain : JobStatus → List ApplicationEvent → JobStatus → Type 0
IsChain from [] to = from ≡ to
IsChain from (e ∷ es) to = (e.from_status ≡ from) × IsChain e.to_status es to

IsChain-insert :
    (from to new : JobStatus) (es : List ApplicationEvent) (e : ApplicationEvent)
    → IsChain from es to
    → e.from_status ≡ to
    → e.to_status ≡ new
    → IsChain from (insert e es) new
IsChain-insert from to new [] e h a b = (a ∙ sym h, b)
IsChain-insert from to new (d ∷ es) e (p, h) a b = (p, IsChain-insert d.to_status to new es e h a b)

-- A patched row is found where the row was.
find?-patched :
    (user id : String) (d : Patch) (now : ℕ) (rows : List SavedJob) (j : SavedJob)
    → find? (is_job user id) rows ≡ some j
    → find? (is_job user id) (update_where (is_job user id) (patched d now) rows)
      ≡ some (patched d now j)
find?-patched user id d now [] j e = cc
find?-patched user id d now (r ∷ rows) j e = elim (Bool-cases (is_job user id r)) [
  | inl hit ↦
      let same : r ≡ j = ground arith in rw hit (rw hit (ap (λ x. some (patched d now x)) same))
  | inr miss ↦ rw miss (rw miss (find?-patched user id d now rows j (rw miss at e)))
]

module _ (pg : Postgres) (user id : String) (d : Patch) (s : Db) where
  -- The store after the update of the row, the insertion of an event and a notification.
  log_change-result :
      (new : Option JobStatus) (current updated : SavedJob) (t : Db)
      → (log_change pg new user id current updated t).0 ≡ ok updated
  unfolding insert_event Notifications.create_for_job_status_change Notifications.create
  log_change-result none current updated t = refl
  log_change-result (some new) current updated t =
      elim (Bool-cases (status_eq new current.status)) [
        | inl same ↦ rw same
        | inr changed ↦ rw changed (elim (Bool-cases (status_eq current.status updated.status)) [
          | inl e ↦ rw e
          | inr e ↦ rw e
        ])
      ]

  log_change-saved_jobs :
      (new : Option JobStatus) (current updated : SavedJob) (t : Db)
      → (log_change pg new user id current updated t).1.saved_jobs ≡ t.saved_jobs
  unfolding insert_event Notifications.create_for_job_status_change Notifications.create
  log_change-saved_jobs none current updated t = refl
  log_change-saved_jobs (some new) current updated t =
      elim (Bool-cases (status_eq new current.status)) [
        | inl same ↦ rw same
        | inr changed ↦ rw changed (elim (Bool-cases (status_eq current.status updated.status)) [
          | inl e ↦ rw e
          | inr e ↦ rw e
        ])
      ]

  -- The event of a change of status.
  abbrev pub event : JobStatus → JobStatus → ℕ → ℕ → ApplicationEvent
  event from to drawn now = record {
    id = pg.uuid drawn;
    user_id = user;
    saved_job_id = id;
    from_status = from;
    to_status = to;
    created_at = now;
  }

  -- The events after an update from the status `old`: one more, if another status is given.
  abbrev pub events_after :
      Option JobStatus → JobStatus → ℕ → ℕ → List ApplicationEvent → List ApplicationEvent
  events_after none old drawn now es = es
  events_after (some new) old drawn now es =
      if status_eq new old then es else insert (event old new drawn now) es

  log_change-events :
      (new : Option JobStatus) (current updated : SavedJob) (t : Db)
      → (log_change pg new user id current updated t).1.application_events
        ≡ events_after new current.status t.drawn t.now t.application_events
  unfolding insert_event Notifications.create_for_job_status_change Notifications.create
  log_change-events none current updated t = refl
  log_change-events (some new) current updated t =
      elim (Bool-cases (status_eq new current.status)) [
        | inl same ↦ rw same
        | inr changed ↦ rw changed (elim (Bool-cases (status_eq current.status updated.status)) [
          | inl e ↦ rw e
          | inr e ↦ rw e
        ])
      ]

  module _ (j : SavedJob) (found : find? (is_job user id) s.saved_jobs ≡ some j) where
    updated_row :
        first (returning (is_job user id) (patched d s.now) s.saved_jobs) ≡ some (patched d s.now j)
    updated_row =
        first-returning (is_job user id) (patched d s.now) s.saved_jobs j
          (sym (find?-eq-first-filter (is_job user id) s.saved_jobs) ∙ found)

    update_body-eq :
        update_body pg user id d s
        ≡ log_change pg d.status user id j (patched d s.now j) (set_job pg user id d s).1
    unfolding set_job
    update_body-eq = rw found (rw updated_row)

    update-eq :
        SavedJobs.update pg user id d s
        ≡ log_change pg d.status user id j (patched d s.now j) (set_job pg user id d s).1
    unfolding SavedJobs.update
    update-eq =
        transaction_of_ok (update_body pg user id d) s (patched d s.now j) (
          rw update_body-eq
            (log_change-result d.status j (patched d s.now j) (set_job pg user id d s).1))
        ∙ update_body-eq

    -- An update of a job that its user owns succeeds, and returns the row with the given fields.
    pub update-ok : (SavedJobs.update pg user id d s).0 ≡ ok (patched d s.now j)
    update-ok =
        rw update-eq (log_change-result d.status j (patched d s.now j) (set_job pg user id d s).1)

    pub update-saved_jobs :
        (SavedJobs.update pg user id d s).1.saved_jobs
        ≡ update_where (is_job user id) (patched d s.now) s.saved_jobs
    unfolding set_job
    update-saved_jobs =
        rw update-eq
          (log_change-saved_jobs d.status j (patched d s.now j) (set_job pg user id d s).1)

    update-events :
        (SavedJobs.update pg user id d s).1.application_events
        ≡ events_after d.status j.status s.drawn s.now s.application_events
    unfolding set_job
    update-events =
        rw update-eq (log_change-events d.status j (patched d s.now j) (set_job pg user id d s).1)

    -- The events of the job that an update leaves are one more, or the same.
    pub update-own_events :
        filter (is_event_of user id) (SavedJobs.update pg user id d s).1.application_events
        ≡ events_after d.status j.status s.drawn s.now
            (filter (is_event_of user id) s.application_events)
    update-own_events = rw update-events (own d.status)
      where
        is_own : (new : JobStatus) → is_event_of user id (event j.status new s.drawn s.now) ≡ true
        is_own new = rw (eq_refl user) (eq_refl id)

        own :
            (new : Option JobStatus)
            → filter
                (is_event_of user id)
                (events_after new j.status s.drawn s.now s.application_events)
              ≡ events_after new j.status s.drawn s.now
                  (filter (is_event_of user id) s.application_events)
        own none = refl
        own (some new) = elim (Bool-cases (status_eq new j.status)) [
          | inl same ↦ rw same
          | inr changed ↦ rw changed (rw filter-insert (rw (is_own new)))
        ]

    -- If the events of a job lead from a status to its current one, they still do after an update,
    -- which succeeds and whose job is found again.
    pub update-IsChain :
        (from : JobStatus)
        → IsChain from (filter (is_event_of user id) s.application_events) j.status
        → (k : SavedJob) × ((SavedJobs.update pg user id d s).0 ≡ ok k)
          × (find? (is_job user id) (SavedJobs.update pg user id d s).1.saved_jobs ≡ some k)
          × IsChain from
              (filter (is_event_of user id) (SavedJobs.update pg user id d s).1.application_events)
              k.status
    update-IsChain from chain = (
      patched d s.now j,
      update-ok,
      rw update-saved_jobs (find?-patched user id d s.now s.saved_jobs j found),
      rw update-own_events (extended d.status),
    )
      where
        extended :
            (new : Option JobStatus)
            → IsChain from
                (events_after new j.status s.drawn s.now
                  (filter (is_event_of user id) s.application_events))
                (or_else new j.status)
        extended none = chain
        extended (some new) = elim (Bool-cases (status_eq new j.status)) [
          | inl same ↦ rw same (rw (status_eq→eq new j.status same) chain)
          | inr changed ↦ rw changed (IsChain-insert from j.status new _ _ chain refl refl)
        ]
