-- ===== src/Career/Requests/Isolation.antt =====
-- What a request leaves of the rows of another user.
use jobs_scraper_global.Prelude.{
  String, ◌≡◌, refl, ◌≢◌, true, false, ◌&&◌, ◌||◌, Option, some, List, [], ◌∷◌, arith, eq_iff, All,
  find?, Option-cases, Bool-cases, inl, inr, ltb, or_else, ◌==◌,
}
use jobs_scraper_global.Table.{filter-insert, filter-update_where, filter-delete_where}
use jobs_scraper_global.Postgres.{Postgres}
use jobs_scraper_global.Career.Store.{Channel, ApplicationNote, UserNotification, Db, owned_by}
use jobs_scraper_global.Career.Notifications
use jobs_scraper_global.Career.Notifications.{
  Matched, mine, mine_unread, saved_notification, status_notification, match_notification,
  is_match_of,
}
use jobs_scraper_global.Career.SavedJobs
use jobs_scraper_global.Career.SavedJobs.{
  NewSavedJob, Patch, new_row, insert_job, set_job, insert_event, is_job, has_link, cascade,
  log_change, patched, update_body,
}
use jobs_scraper_global.Career.Notes
use jobs_scraper_global.Career.Notes.{is_note_of, is_note}
use jobs_scraper_global.Career.Requests.{
  Request, list_notifications, mark_read, mark_all_read, clear, high_match, get_jobs, get_job,
  create_job, update_job, get_events, delete_job, list_notes, create_note, update_note, delete_note,
  step, serve,
}
use jobs_scraper_global.Career.Requests.Stores.{
  update_note-store, delete_note-store, mark_read-store, get_events-store, list_notes-store,
}
use jobs_scraper_global.Career.Requests.Ownership.{IsConsistent}
use jobs_scraper_global.Career.Requests.Consistency.{step-IsConsistent}
use jobs_scraper_global.Career.Requests.SavedRows.{
  not_mine, other, notify-SameRows, create-SameRows, update-SameRows, delete-SameRows, SameRows,
  SameRows-trans,
}

module _ (pg : Postgres) (u v : String) (differ : u ≢ v) where
  create_note-SameRows :
      (id content : String) (s : Db) → SameRows v s (Notes.create pg u id content s).1
  unfolding Notes.create
  create_note-SameRows id content s = elim (Option-cases (find? (is_job u id) s.saved_jobs)) [
    | inl missing ↦ rw missing (refl, refl, refl, refl)
    | inr (j, found) ↦ rw found (refl, refl, rw filter-insert (rw (not_mine pg u v differ)), refl)
  ]

  note_other :
      (id note : String) (n : ApplicationNote)
      → is_note u id note n ≡ true
      → owned_by v n.user_id ≡ false
  note_other id note n h = other pg u v differ n.user_id (ground arith)

  update_note-SameRows :
      (id note content : String) (s : Db) → SameRows v s (Notes.update u id note content s).1
  update_note-SameRows id note content s = rw update_note-store (
    refl,
    refl,
    filter-update_where _ (is_note u id note)
        (λ n. record n { content = content; updated_at = s.now }) s.application_notes
        (λ n h. (note_other id note n h, note_other id note n h)),
    refl,
  )

  mark_read-SameRows : (id : String) (s : Db) → SameRows v s (Notifications.mark_read u id s).1
  mark_read-SameRows id s = rw mark_read-store (
    refl,
    refl,
    refl,
    filter-update_where _ (λ n. n.id == id && owned_by u n.user_id)
        (λ n. record n { read_at = some s.now }) s.user_notifications
        (λ n h. let o = other pg u v differ n.user_id (ground arith) in (o, o)),
  )

  delete_note-SameRows : (id note : String) (s : Db) → SameRows v s (Notes.delete u id note s).1
  delete_note-SameRows id note s = rw delete_note-store (
    refl,
    refl,
    filter-delete_where _ (is_note u id note) s.application_notes (others-All s.application_notes),
    refl,
  )
    where
      others-All :
          (rows : List ApplicationNote)
          → All (λ n. owned_by v n.user_id ≡ true → is_note u id note n ≡ false) rows
      others-All [] = tt
      others-All (n ∷ rows) =
          (λ yes_v. ground (arith, eq_iff n.user_id u, eq_iff n.user_id v), others-All rows)

  clear-SameRows :
      (channel : Option Channel) (s : Db) → SameRows v s (Notifications.clear u channel s).1
  unfolding Notifications.clear
  clear-SameRows channel s = (
    refl,
    refl,
    refl,
    filter-delete_where _ (mine u channel) s.user_notifications (others-All s.user_notifications),
  )
    where
      others-All :
          (rows : List UserNotification)
          → All (λ n. owned_by v n.user_id ≡ true → mine u channel n ≡ false) rows
      others-All [] = tt
      others-All (n ∷ rows) =
          (λ yes_v. ground (arith, eq_iff n.user_id u, eq_iff n.user_id v), others-All rows)

  mark_all_read-SameRows :
      (channel : Option Channel) (s : Db) → SameRows v s (Notifications.mark_all_read u channel s).1
  unfolding Notifications.mark_all_read
  mark_all_read-SameRows channel s = (
    refl,
    refl,
    refl,
    filter-update_where _ (mine_unread u channel) (λ n. record n { read_at = some s.now })
        s.user_notifications
        (λ n h. let o = other pg u v differ n.user_id (ground arith) in (o, o)),
  )

  high_match-SameRows :
      (job : Matched) (s : Db)
      → SameRows v s (Notifications.create_high_match_if_missing pg u job s).1
  unfolding Notifications.create_high_match_if_missing Notifications.create
  high_match-SameRows job s =
      elim (Bool-cases (ltb (or_else job.match_score 0) 85 || job.identity == "")) [
        | inl low ↦ rw low (refl, refl, refl, refl)
        | inr high ↦
            rw high (elim (Option-cases (find? (is_match_of u job.identity) s.user_notifications)) [
              | inl e ↦ rw e (
                  notify-SameRows pg u v differ
                    (match_notification u job (or_else job.match_score 0)) s s refl
                    (refl, refl, refl, refl))
              | inr (n, e) ↦ rw e (refl, refl, refl, refl)
            ])
      ]

  -- A request of one user, whether it succeeds or throws, leaves every row of another as it was.
  pub step-SameRows : (r : Request) (s : Db) → IsConsistent pg s → SameRows v s (step pg u r s)
  unfolding step
  step-SameRows (list_notifications q) s h = unfold Notifications.list in (refl, refl, refl, refl)
  step-SameRows (mark_read id) s h = mark_read-SameRows id s
  step-SameRows (mark_all_read c) s h = mark_all_read-SameRows c s
  step-SameRows (clear c) s h = clear-SameRows c s
  step-SameRows (high_match job) s h = high_match-SameRows job s
  step-SameRows get_jobs s h = unfold SavedJobs.get_all in (refl, refl, refl, refl)
  step-SameRows (get_job id) s h = unfold SavedJobs.get_by_id in (refl, refl, refl, refl)
  step-SameRows (create_job d) s h = create-SameRows pg u v differ d s
  step-SameRows (update_job id d) s h = update-SameRows pg u v differ id d s
  step-SameRows (get_events id) s h = rw get_events-store (refl, refl, refl, refl)
  step-SameRows (delete_job id) s h = delete-SameRows pg u v differ id s h
  step-SameRows (list_notes id) s h = rw list_notes-store (refl, refl, refl, refl)
  step-SameRows (create_note id c) s h = create_note-SameRows id c s
  step-SameRows (update_note id n c) s h = update_note-SameRows id n c s
  step-SameRows (delete_note id n) s h = delete_note-SameRows id n s

-- From a consistent store, whatever the other users request and in whatever order their requests
-- run, the rows of a user stay as they were.
pub serve-SameRows :
    (pg : Postgres) (v : String) (history : List (String × Request)) (s : Db)
    → All (λ e. e.0 ≢ v) history
    → IsConsistent pg s
    → SameRows v s (serve pg history s)
unfolding serve
serve-SameRows pg v [] s others h = (refl, refl, refl, refl)
serve-SameRows pg v ((u, r) ∷ history) s (differ, others) h =
    SameRows-trans v s (step pg u r s) (serve pg history (step pg u r s))
      (step-SameRows pg u v differ r s h)
      (serve-SameRows pg v history (step pg u r s) others (step-IsConsistent pg u r s h))
