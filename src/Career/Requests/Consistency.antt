-- ===== src/Career/Requests/Consistency.antt =====
-- Every request keeps the owners: the events and the notes of a saved job belong to its user.
use jobs_scraper_global.Prelude.{
  String, All-filter, find?, Option-cases, Bool-cases, inl, inr, ltb, or_else, ◌||◌, ◌==◌,
}
use jobs_scraper_global.Table.{All-update_where}
use jobs_scraper_global.Postgres.{Postgres}
use jobs_scraper_global.Career.Store.{SavedJob, ApplicationEvent, ApplicationNote, Db}
use jobs_scraper_global.Career.Notifications
use jobs_scraper_global.Career.Notifications.{Matched, is_match_of}
use jobs_scraper_global.Career.SavedJobs
use jobs_scraper_global.Career.SavedJobs.{
  NewSavedJob, Patch, insert_job, set_job, insert_event, is_job, has_link, cascade, log_change,
  patched, update_body,
}
use jobs_scraper_global.Career.Notes
use jobs_scraper_global.Career.Notes.{is_note_of, is_note}
use jobs_scraper_global.Career.Requests.{
  Request, list_notifications, mark_read, mark_all_read, clear, high_match, get_jobs, get_job,
  create_job, update_job, get_events, delete_job, list_notes, create_note, update_note, delete_note,
  step,
}
use jobs_scraper_global.Career.Requests.Stores.{
  delete-store, update_note-store, delete_note-store, mark_read-store, get_events-store,
  list_notes-store,
}
use jobs_scraper_global.Career.Requests.Ownership.{Owns, IsConsistent, IsOwned-suc}
use jobs_scraper_global.Career.Requests.OwnedJobs.{
  found-Owns, insert_note-IsOwned, create-IsConsistent, update-IsConsistent,
}

module _ (pg : Postgres) where
  delete-IsConsistent :
      (user id : String) (s : Db)
      → IsConsistent pg s
      → IsConsistent pg (SavedJobs.delete user id s).1
  delete-IsConsistent user id s (owner, h) = rw delete-store (
    owner,
    record {
      jobs =
          All-filter (λ (j : SavedJob). Owns pg owner s.drawn j.id j.user_id) _ s.saved_jobs h.jobs;
      events =
          All-filter (λ (e : ApplicationEvent). Owns pg owner s.drawn e.saved_job_id e.user_id) _
            s.application_events h.events;
      notes =
          All-filter (λ (n : ApplicationNote). Owns pg owner s.drawn n.saved_job_id n.user_id) _
            s.application_notes h.notes;
    },
  )

  create_note-IsConsistent :
      (user id content : String) (s : Db)
      → IsConsistent pg s
      → IsConsistent pg (Notes.create pg user id content s).1
  unfolding Notes.create
  create_note-IsConsistent user id content s (owner, h) =
      elim (Option-cases (find? (is_job user id) s.saved_jobs)) [
        | inl missing ↦ rw missing (owner, h)
        | inr (j, found) ↦
            let own = found-Owns pg owner s.drawn user id s.saved_jobs j h.jobs found in
            rw found (owner, insert_note-IsOwned pg owner user id content s own h)
      ]

  update_note-IsConsistent :
      (user id note content : String) (s : Db)
      → IsConsistent pg s
      → IsConsistent pg (Notes.update user id note content s).1
  update_note-IsConsistent user id note content s (owner, h) =
      let set = λ (n : ApplicationNote). record n { content = content; updated_at = s.now } in
      rw update_note-store (
        owner,
        record {
          jobs = h.jobs;
          events = h.events;
          notes =
              All-update_where
                (λ (n : ApplicationNote). Owns pg owner s.drawn n.saved_job_id n.user_id)
                (is_note user id note) set s.application_notes (λ n k. k) h.notes;
        },
      )

  delete_note-IsConsistent :
      (user id note : String) (s : Db)
      → IsConsistent pg s
      → IsConsistent pg (Notes.delete user id note s).1
  delete_note-IsConsistent user id note s (owner, h) = rw delete_note-store (
    owner,
    record {
      jobs = h.jobs;
      events = h.events;
      notes =
          All-filter (λ (n : ApplicationNote). Owns pg owner s.drawn n.saved_job_id n.user_id) _
            s.application_notes h.notes;
    },
  )

  high_match-IsConsistent :
      (user : String) (job : Matched) (s : Db)
      → IsConsistent pg s
      → IsConsistent pg (Notifications.create_high_match_if_missing pg user job s).1
  unfolding Notifications.create_high_match_if_missing Notifications.create
  high_match-IsConsistent user job s (owner, h) =
      elim (Bool-cases (ltb (or_else job.match_score 0) 85 || job.identity == "")) [
        | inl low ↦ rw low (owner, h)
        | inr high ↦
            rw high
              (elim (Option-cases (find? (is_match_of user job.identity) s.user_notifications)) [
                | inl e ↦ rw e (owner, IsOwned-suc pg owner s _ h)
                | inr (n, e) ↦ rw e (owner, h)
              ])
      ]

  mark_read-IsConsistent :
      (user id : String) (s : Db)
      → IsConsistent pg s
      → IsConsistent pg (Notifications.mark_read user id s).1
  mark_read-IsConsistent user id s (owner, h) =
      rw mark_read-store (owner, record { jobs = h.jobs; events = h.events; notes = h.notes })

  -- Every request, whether it succeeds or throws, leaves a consistent store consistent.
  pub step-IsConsistent :
      (user : String) (r : Request) (s : Db)
      → IsConsistent pg s
      → IsConsistent pg (step pg user r s)
  unfolding step
  step-IsConsistent user (list_notifications q) s h = unfold Notifications.list in h
  step-IsConsistent user (mark_read id) s h = mark_read-IsConsistent user id s h
  step-IsConsistent user (mark_all_read c) s (owner, h) =
      unfold Notifications.mark_all_read in
      (owner, record { jobs = h.jobs; events = h.events; notes = h.notes })
  step-IsConsistent user (clear c) s (owner, h) =
      unfold Notifications.clear in
      (owner, record { jobs = h.jobs; events = h.events; notes = h.notes })
  step-IsConsistent user (high_match job) s h = high_match-IsConsistent user job s h
  step-IsConsistent user get_jobs s h = unfold SavedJobs.get_all in h
  step-IsConsistent user (get_job id) s h = unfold SavedJobs.get_by_id in h
  step-IsConsistent user (create_job d) s h = create-IsConsistent pg user d s h
  step-IsConsistent user (update_job id d) s h = update-IsConsistent pg user id d s h
  step-IsConsistent user (get_events id) s h = rw get_events-store h
  step-IsConsistent user (delete_job id) s h = delete-IsConsistent user id s h
  step-IsConsistent user (list_notes id) s h = rw list_notes-store h
  step-IsConsistent user (create_note id c) s h = create_note-IsConsistent user id c s h
  step-IsConsistent user (update_note id n c) s h = update_note-IsConsistent user id n c s h
  step-IsConsistent user (delete_note id n) s h = delete_note-IsConsistent user id n s h
