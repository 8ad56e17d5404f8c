-- ===== src/Career/Lifetime.antt =====
-- A saved job from its creation on: its events, in the order in which they were written, lead from
-- the status that it was created with to the one that it has.
use jobs_scraper_global.Prelude.{
  ℕ, String, ◌≡◌, refl, sym, ◌∙◌, true, false, none, some, List, [], ◌∷◌, arith, eq_iff, eq_refl,
  All, filter, find?, Bool-cases, inl, inr, or_else, ◌==◌,
}
use jobs_scraper_global.Table.{insert}
use jobs_scraper_global.Postgres.{Postgres}
use jobs_scraper_global.Career.Store.{JobStatus, saved, SavedJob, ApplicationEvent, Db}
use jobs_scraper_global.Career.Notifications
use jobs_scraper_global.Career.SavedJobs
use jobs_scraper_global.Career.SavedJobs.{
  NewSavedJob, Patch, new_row, insert_job, is_job, has_link, is_event_of,
}
use jobs_scraper_global.Career.Requests.Ownership.{Owns, IsConsistent}
use jobs_scraper_global.Career.Updates.{IsChain, update-IsChain}

module _ (pg : Postgres) (user : String) where
  -- The updates of one job, one after the other.
  unfoldable pub updates : String → List Patch → Db → Db
  updates id [] s = s
  updates id (d ∷ ds) s = updates id ds (SavedJobs.update pg user id d s).1

  -- A job is found whose status the events lead to.
  abbrev pub IsLogged : String → JobStatus → Db → Type 0
  IsLogged id from s =
      (k : SavedJob) × (find? (is_job user id) s.saved_jobs ≡ some k)
      × IsChain from (filter (is_event_of user id) s.application_events) k.status

  updates-IsLogged :
      (id : String) (from : JobStatus) (ds : List Patch) (s : Db)
      → IsLogged id from s
      → IsLogged id from (updates id ds s)
  unfolding updates
  updates-IsLogged id from [] s h = h
  updates-IsLogged id from (d ∷ ds) s (j, found, chain) =
      let (k, _, found', chain') = update-IsChain pg user id d s j found from chain in
      updates-IsLogged id from ds (SavedJobs.update pg user id d s).1 (k, found', chain')

  -- The identifier that is drawn next is in no row.
  fresh :
      (owner : ℕ → String) (n : ℕ) (id v : String)
      → Owns pg owner n id v
      → (id == pg.uuid n) ≡ false
  fresh owner n id v (k, lt, e, _) = elim (Bool-cases (id == pg.uuid n)) [
    | inl same ↦
        let clash : k ≡ n = pg.uuid_injective k n (sym e ∙ (eq_iff id (pg.uuid n)).0 same) in
        absurd (omega arith)
    | inr other ↦ other
  ]

  find?-fresh :
      (owner : ℕ → String) (n : ℕ) (rows : List SavedJob) (new : SavedJob)
      → All (λ j. Owns pg owner n j.id j.user_id) rows
      → is_job user (pg.uuid n) new ≡ true
      → find? (is_job user (pg.uuid n)) (insert new rows) ≡ some new
  find?-fresh owner n [] new h is = rw is
  find?-fresh owner n (r ∷ rows) new (h, hs) is =
      ground (arith, fresh owner n r.id r.user_id h, find?-fresh owner n rows new hs is)

  no_events :
      (owner : ℕ → String) (n : ℕ) (rows : List ApplicationEvent)
      → All (λ e. Owns pg owner n e.saved_job_id e.user_id) rows
      → filter (is_event_of user (pg.uuid n)) rows ≡ []
  no_events owner n [] h = refl
  no_events owner n (e ∷ rows) (h, hs) =
      ground (arith, fresh owner n e.saved_job_id e.user_id h, no_events owner n rows hs)

  create-IsLogged :
      (d : NewSavedJob) (s : Db)
      → IsConsistent pg s
      → find? (has_link user d.job_link) s.saved_jobs ≡ none
      → IsLogged (pg.uuid s.drawn) (or_else d.status saved) (SavedJobs.create pg user d s).1
  unfolding SavedJobs.create insert_job Notifications.create_for_saved_job Notifications.create
  create-IsLogged d s (owner, h) new_link = rw new_link (
    new_row pg user d s,
    find?-fresh owner s.drawn s.saved_jobs (new_row pg user d s) h.jobs
        (rw (eq_refl user) (eq_refl (pg.uuid s.drawn))),
    rw (no_events owner s.drawn s.application_events h.events) refl,
  )

  -- After the creation of a job in a consistent store, under a link that the user has not saved,
  -- and any updates of it, the job is still there, and its events lead from the status of its
  -- creation to its status.
  pub updates-create-IsLogged :
      (d : NewSavedJob) (ds : List Patch) (s : Db)
      → IsConsistent pg s
      → find? (has_link user d.job_link) s.saved_jobs ≡ none
      → IsLogged
          (pg.uuid s.drawn)
          (or_else d.status saved)
          (updates (pg.uuid s.drawn) ds (SavedJobs.create pg user d s).1)
  updates-create-IsLogged d ds s h new_link =
      updates-IsLogged (pg.uuid s.drawn) (or_else d.status saved) ds _
        (create-IsLogged d s h new_link)
