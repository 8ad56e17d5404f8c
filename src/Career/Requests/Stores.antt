-- ===== src/Career/Requests/Stores.antt =====
-- The store that is left by the methods that end in a test for "not found".
use jobs_scraper_global.Prelude.{
  String, ◌≡◌, ◌&&◌, some, Option-cases, inl, inr, first, filter, find?, ◌==◌,
}
use jobs_scraper_global.Table.{update_where, delete_where, returning}
use jobs_scraper_global.Postgres.{Postgres}
use jobs_scraper_global.Career.Store.{UserNotification, ApplicationNote, Db, owned_by}
use jobs_scraper_global.Career.Notifications
use jobs_scraper_global.Career.SavedJobs
use jobs_scraper_global.Career.SavedJobs.{is_job, cascade}
use jobs_scraper_global.Career.Notes
use jobs_scraper_global.Career.Notes.{is_note}

pub mark_read-store :
    (user id : String) (s : Db)
    → (Notifications.mark_read user id s).1 ≡ record s {
      user_notifications =
          update_where
            (λ (n : UserNotification). n.id == id && owned_by user n.user_id)
            (λ n. record n { read_at = some s.now })
            s.user_notifications;
    }
unfolding Notifications.mark_read
mark_read-store user id s =
    let hit = λ (n : UserNotification). n.id == id && owned_by user n.user_id in
    let set = λ (n : UserNotification). record n { read_at = some s.now } in
    elim (Option-cases (first (returning hit set s.user_notifications))) [
      | inl e ↦ rw (e, Notifications.mark_read)
      | inr (n, e) ↦ rw (e, Notifications.mark_read)
    ]

pub delete-store :
    (user id : String) (s : Db)
    → (SavedJobs.delete user id s).1
      ≡ cascade
          (filter (is_job user id) s.saved_jobs)
          (record s { saved_jobs = delete_where (is_job user id) s.saved_jobs })
unfolding SavedJobs.delete
delete-store user id s = elim (Option-cases (first (filter (is_job user id) s.saved_jobs))) [
  | inl e ↦ rw (e, SavedJobs.delete)
  | inr (j, e) ↦ rw (e, SavedJobs.delete)
]

pub update_note-store :
    (user job note content : String) (s : Db)
    → (Notes.update user job note content s).1 ≡ record s {
      application_notes =
          update_where
            (is_note user job note)
            (λ n. record n { content = content; updated_at = s.now })
            s.application_notes;
    }
unfolding Notes.update
update_note-store user job note content s =
    let set = λ (n : ApplicationNote). record n { content = content; updated_at = s.now } in
    elim (Option-cases (first (returning (is_note user job note) set s.application_notes))) [
      | inl e ↦ rw (e, Notes.update)
      | inr (n, e) ↦ rw (e, Notes.update)
    ]

pub delete_note-store :
    (user job note : String) (s : Db)
    → (Notes.delete user job note s).1
      ≡ record s { application_notes = delete_where (is_note user job note) s.application_notes }
unfolding Notes.delete
delete_note-store user job note s =
    elim (Option-cases (first (filter (is_note user job note) s.application_notes))) [
      | inl e ↦ rw (e, Notes.delete)
      | inr (n, e) ↦ rw (e, Notes.delete)
    ]

module _ (pg : Postgres) where
  pub get_events-store : (user id : String) (s : Db) → (SavedJobs.get_events pg user id s).1 ≡ s
  unfolding SavedJobs.get_events SavedJobs.get_by_id
  get_events-store user id s = elim (Option-cases (find? (is_job user id) s.saved_jobs)) [
    | inl e ↦ rw (e, SavedJobs.get_events)
    | inr (j, e) ↦ rw (e, SavedJobs.get_events)
  ]

  pub list_notes-store : (user id : String) (s : Db) → (Notes.list pg user id s).1 ≡ s
  unfolding Notes.list
  list_notes-store user id s = elim (Option-cases (find? (is_job user id) s.saved_jobs)) [
    | inl e ↦ rw (e, Notes.list)
    | inr (j, e) ↦ rw (e, Notes.list)
  ]
