-- ===== src/Career/Requests/OwnedJobs.antt =====
-- Creating and updating saved jobs keeps every row with the owner of its job.
use jobs_scraper_global.Prelude.{
  ℕ, suc, String, ◌≡◌, Option, none, some, List, [], ◌∷◌, arith, eq_iff, All, All-append, find?,
  Option-cases, Bool-cases, inl, inr, first,
}
use jobs_scraper_global.Exec.{transaction-keeps}
use jobs_scraper_global.Table.{returning}
use jobs_scraper_global.Postgres.{Postgres}
use jobs_scraper_global.Career.Store.{
  JobStatus, status_eq, SavedJob, ApplicationEvent, ApplicationNote, Db,
}
use jobs_scraper_global.Career.Notifications
use jobs_scraper_global.Career.Notifications.{Matched, is_match_of}
use jobs_scraper_global.Career.SavedJobs
use jobs_scraper_global.Career.SavedJobs.{
  NewSavedJob, Patch, insert_job, set_job, insert_event, is_job, has_link, cascade, log_change,
  patched, update_body,
}
use jobs_scraper_global.Career.Notes
use jobs_scraper_global.Career.Notes.{is_note_of, is_note}
use jobs_scraper_global.Career.Requests.Ownership.{
  Owns, IsOwned, IsConsistent, Owns-suc, extend, All-Owns, IsOwned-suc, insert_job-IsOwned,
  set_job-IsOwned,
}

module _ (pg : Postgres) where
  -- A row that a query of a user's saved job finds is owned by that user.
  pub found-Owns :
      (owner : ℕ → String) (n : ℕ) (user id : String) (rows : List SavedJob) (j : SavedJob)
      → All (λ j. Owns pg owner n j.id j.user_id) rows
      → find? (is_job user id) rows ≡ some j
      → Owns pg owner n id user
  found-Owns owner n user id [] j h e = cc
  found-Owns owner n user id (r ∷ rows) j ((k, a, b, c), hs) e =
      elim (Bool-cases (is_job user id r)) [
        | inl hit ↦
            let u : r.user_id ≡ user = ground (arith, eq_iff r.user_id user) in
            let i : r.id ≡ id = ground (arith, eq_iff r.id id) in (k, a, cc, cc)
        | inr miss ↦ found-Owns owner n user id rows j hs (ground arith)
      ]

  pub insert_event-IsOwned :
      (owner : ℕ → String) (user id : String) (from to : JobStatus) (s : Db)
      → Owns pg owner s.drawn id user
      → IsOwned pg owner s
      → IsOwned pg owner (insert_event pg user id from to s).1
  unfolding insert_event
  insert_event-IsOwned owner user id from to s own h =
      let up = λ (i v : String). Owns-suc pg owner s.drawn i v in
      record {
        jobs =
            All-Owns pg owner _ _ _ (λ j. j.id) (λ j. j.user_id) (λ j. up j.id j.user_id)
              s.saved_jobs h.jobs;
        events =
            All-append
              (λ (e : ApplicationEvent). Owns pg owner (suc s.drawn) e.saved_job_id e.user_id)
              s.application_events _
              (All-Owns pg owner _ _ _ (λ e. e.saved_job_id) (λ e. e.user_id)
                (λ e. up e.saved_job_id e.user_id) s.application_events h.events)
              (up id user own, tt);
        notes =
            All-Owns pg owner _ _ _ (λ n. n.saved_job_id) (λ n. n.user_id)
              (λ n. up n.saved_job_id n.user_id) s.application_notes h.notes;
      }

  pub insert_note-IsOwned :
      (owner : ℕ → String) (user id content : String) (s : Db)
      → Owns pg owner s.drawn id user
      → IsOwned pg owner s
      → IsOwned pg owner (Notes.insert_note pg user id content s).1
  unfolding Notes.insert_note
  insert_note-IsOwned owner user id content s own h =
      let up = λ (i v : String). Owns-suc pg owner s.drawn i v in
      record {
        jobs =
            All-Owns pg owner _ _ _ (λ j. j.id) (λ j. j.user_id) (λ j. up j.id j.user_id)
              s.saved_jobs h.jobs;
        events =
            All-Owns pg owner _ _ _ (λ e. e.saved_job_id) (λ e. e.user_id)
              (λ e. up e.saved_job_id e.user_id) s.application_events h.events;
        notes =
            All-append
              (λ (n : ApplicationNote). Owns pg owner (suc s.drawn) n.saved_job_id n.user_id)
              s.application_notes _
              (All-Owns pg owner _ _ _ (λ n. n.saved_job_id) (λ n. n.user_id)
                (λ n. up n.saved_job_id n.user_id) s.application_notes h.notes)
              (up id user own, tt);
      }

  pub create-IsConsistent :
      (user : String) (d : NewSavedJob) (s : Db)
      → IsConsistent pg s
      → IsConsistent pg (SavedJobs.create pg user d s).1
  unfolding SavedJobs.create
  create-IsConsistent user d s (owner, h) =
      elim (Option-cases (find? (has_link user d.job_link) s.saved_jobs)) [
        | inl fresh ↦ rw fresh (
          extend owner s.drawn user,
          unfold insert_job Notifications.create_for_saved_job Notifications.create in
              IsOwned-suc pg _ (insert_job pg user d s).1 _
                (insert_job-IsOwned pg owner user d s h),
        )
        | inr (j, taken) ↦ rw taken (owner, h)
      ]

  log_change-IsOwned :
      (owner : ℕ → String) (new : Option JobStatus) (user id : String) (current updated : SavedJob)
      (s : Db)
      → Owns pg owner s.drawn id user
      → IsOwned pg owner s
      → IsOwned pg owner (log_change pg new user id current updated s).1
  unfolding insert_event Notifications.create_for_job_status_change Notifications.create
  log_change-IsOwned owner none user id current updated s own h = h
  log_change-IsOwned owner (some new) user id current updated s own h =
      let logged = insert_event-IsOwned owner user id current.status new s own h in
      elim (Bool-cases (status_eq new current.status)) [
        | inl same ↦ rw same h
        | inr other ↦ rw other (elim (Bool-cases (status_eq current.status updated.status)) [
          | inl e ↦ rw e logged
          | inr e ↦
              rw e (IsOwned-suc pg owner (insert_event pg user id current.status new s).1 _ logged)
        ])
      ]

  pub update-IsConsistent :
      (user id : String) (d : Patch) (s : Db)
      → IsConsistent pg s
      → IsConsistent pg (SavedJobs.update pg user id d s).1
  unfolding SavedJobs.update
  update-IsConsistent user id d s (owner, h) =
      transaction-keeps (IsConsistent pg) (update_body pg user id d) s (owner, h)
        (elim (Option-cases (find? (is_job user id) s.saved_jobs)) [
          | inl missing ↦ rw missing (owner, h)
          | inr (j, found) ↦
              let own = found-Owns owner s.drawn user id s.saved_jobs j h.jobs found in
              let kept = set_job-IsOwned pg owner user id d s h in
              rw found
                (elim (Option-cases
                  (first (returning (is_job user id) (patched d s.now) s.saved_jobs))) [
                    | inl e ↦ unfold set_job in rw e (owner, kept)
                    | inr (u, e) ↦
                        unfold set_job in
                        rw e (owner, log_change-IsOwned owner d.status user id j u _ own kept)
                  ])
        ])
