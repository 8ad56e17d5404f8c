-- ===== src/Career/Requests/SavedRows.antt =====
-- Requests about saved jobs leave the rows of other users as they are.
use jobs_scraper_global.Prelude.{
  ℕ, String, ◌≡◌, refl, ◌∙◌, ◌≢◌, true, false, ◌&&◌, Option, none, some, List, [], ◌∷◌, arith,
  eq_iff, All, filter, find?, Option-cases, Bool-cases, inl, inr, first, ◌==◌, is_some,
}
use jobs_scraper_global.Exec.{transaction-keeps}
use jobs_scraper_global.Table.{filter-insert, filter-update_where, filter-delete_where, returning}
use jobs_scraper_global.Postgres.{Postgres}
use jobs_scraper_global.Career.Store.{JobStatus, status_eq, SavedJob, NewNotification, Db, owned_by}
use jobs_scraper_global.Career.Notifications
use jobs_scraper_global.Career.Notifications.{
  Matched, mine, mine_unread, saved_notification, status_notification, match_notification,
  is_match_of,
}
use jobs_scraper_global.Career.SavedJobs
use jobs_scraper_global.Career.SavedJobs.{
  NewSavedJob, Patch, new_row, insert_job, set_job, insert_event, is_job, has_link, cascade,
  log_change, patched, update_body,
}
use jobs_scraper_global.Career.Requests.Stores.{delete-store}
use jobs_scraper_global.Career.Requests.Ownership.{Owns, IsConsistent, Owns-same}

-- The rows of a user are the same, in the same order, in both stores.
abbrev pub SameRows : String → Db → Db → Type 0
SameRows v s t =
    (filter (λ j. owned_by v j.user_id) t.saved_jobs
      ≡ filter (λ j. owned_by v j.user_id) s.saved_jobs)
    × (filter (λ e. owned_by v e.user_id) t.application_events
        ≡ filter (λ e. owned_by v e.user_id) s.application_events)
    × (filter (λ n. owned_by v n.user_id) t.application_notes
        ≡ filter (λ n. owned_by v n.user_id) s.application_notes)
    × (filter (λ n. owned_by v n.user_id) t.user_notifications
        ≡ filter (λ n. owned_by v n.user_id) s.user_notifications)

pub SameRows-trans : (v : String) (s t u : Db) → SameRows v s t → SameRows v t u → SameRows v s u
SameRows-trans v s t u (a, b, c, d) (a', b', c', d') = (a' ∙ a, b' ∙ b, c' ∙ c, d' ∙ d)

module _ (pg : Postgres) (u v : String) (differ : u ≢ v) where
  pub not_mine : (u == v) ≡ false
  not_mine = ground (arith, eq_iff u v)

  -- A row of `u` is not one of `v`.
  pub other : (x : String) → (x == u) ≡ true → (x == v) ≡ false
  other x h = ground (arith, eq_iff x u, eq_iff x v)

  pub notify-SameRows :
      (new : NewNotification) (s t : Db)
      → new.user_id ≡ u
      → SameRows v s t
      → SameRows v s (Notifications.create pg new t).1
  unfolding Notifications.create
  notify-SameRows new s t e (a, b, c, d) = (a, b, c, rw filter-insert (rw e (rw not_mine d)))

  insert_job-SameRows : (d : NewSavedJob) (s : Db) → SameRows v s (insert_job pg u d s).1
  unfolding insert_job
  insert_job-SameRows d s = (rw filter-insert (rw not_mine), refl, refl, refl)

  pub create-SameRows : (d : NewSavedJob) (s : Db) → SameRows v s (SavedJobs.create pg u d s).1
  unfolding SavedJobs.create insert_job Notifications.create_for_saved_job Notifications.create
  create-SameRows d s = elim (Option-cases (find? (has_link u d.job_link) s.saved_jobs)) [
    | inl fresh ↦ rw fresh (
        notify-SameRows (saved_notification u (new_row pg u d s)) s (insert_job pg u d s).1 refl
          (insert_job-SameRows d s))
    | inr (j, taken) ↦ rw taken (refl, refl, refl, refl)
  ]

  set_job-SameRows : (id : String) (d : Patch) (s : Db) → SameRows v s (set_job pg u id d s).1
  unfolding set_job
  set_job-SameRows id d s = (
    filter-update_where _ (is_job u id) (patched d s.now) s.saved_jobs
        (λ r h. let o = other r.user_id (ground arith) in (o, o)),
    refl,
    refl,
    refl,
  )

  insert_event-SameRows :
      (id : String) (from to : JobStatus) (s : Db) → SameRows v s (insert_event pg u id from to s).1
  unfolding insert_event
  insert_event-SameRows id from to s = (refl, rw filter-insert (rw not_mine), refl, refl)

  log_change-SameRows :
      (new : Option JobStatus) (id : String) (current updated : SavedJob) (s : Db)
      → SameRows v s (log_change pg new u id current updated s).1
  unfolding insert_event Notifications.create_for_job_status_change Notifications.create
  log_change-SameRows none id current updated s = (refl, refl, refl, refl)
  log_change-SameRows (some new) id current updated s =
      let logged = insert_event-SameRows id current.status new s in
      elim (Bool-cases (status_eq new current.status)) [
        | inl same ↦ rw same (refl, refl, refl, refl)
        | inr changed ↦ rw changed (elim (Bool-cases (status_eq current.status updated.status)) [
          | inl e ↦ rw e logged
          | inr e ↦ rw e (
              notify-SameRows (status_notification u current updated) s
                (insert_event pg u id current.status new s).1 refl logged)
        ])
      ]

  pub update-SameRows :
      (id : String) (d : Patch) (s : Db) → SameRows v s (SavedJobs.update pg u id d s).1
  unfolding SavedJobs.update set_job
  update-SameRows id d s =
      transaction-keeps (SameRows v s) (update_body pg u id d) s (refl, refl, refl, refl)
        (elim (Option-cases (find? (is_job u id) s.saved_jobs)) [
          | inl missing ↦ rw missing (refl, refl, refl, refl)
          | inr (j, found) ↦
              let kept = set_job-SameRows id d s in
              rw found
                (elim (Option-cases
                  (first (returning (is_job u id) (patched d s.now) s.saved_jobs))) [
                    | inl e ↦ rw e kept
                    | inr (new, e) ↦ rw e (
                        SameRows-trans v s (set_job pg u id d s).1
                          (log_change pg d.status u id j new (set_job pg u id d s).1).1 kept
                          (log_change-SameRows d.status id j new (set_job pg u id d s).1))
                  ])
        ])

  -- A saved job that a deletion removes is one of `u`.
  gone-Owns :
      (owner : ℕ → String) (n : ℕ) (id job : String) (rows : List SavedJob)
      → All (λ j. Owns pg owner n j.id j.user_id) rows
      → is_some (find? (λ j. j.id == job) (filter (is_job u id) rows)) ≡ true
      → Owns pg owner n job u
  gone-Owns owner n id job [] h e = cc
  gone-Owns owner n id job (r ∷ rows) ((k, a, b, c), hs) e =
      elim (Bool-cases (is_job u id r && (r.id == job))) [
        | inl hit ↦ (k, a, ground (arith, eq_iff r.id job), ground (arith, eq_iff r.user_id u))
        | inr miss ↦ gone-Owns owner n id job rows hs (ground arith)
      ]

  kept-All :
      {A : Type 0} (owner : ℕ → String) (n : ℕ) (id : String) (jobs : List SavedJob)
      (job user : A → String) (rows : List A)
      → All (λ j. Owns pg owner n j.id j.user_id) jobs
      → All (λ a. Owns pg owner n (job a) (user a)) rows
      → All
          (λ a.
            owned_by v (user a) ≡ true
            → is_some (find? (λ j. j.id == job a) (filter (is_job u id) jobs)) ≡ false)
          rows
  kept-All owner n id jobs job user [] h hs = tt
  kept-All owner n id jobs job user (r ∷ rows) h (k, ks) = (
    λ yes_v.
        elim (Bool-cases
          (is_some (find? (λ (j : SavedJob). j.id == job r) (filter (is_job u id) jobs)))) [
            | inl gone ↦ absurd (
                differ (
                  Owns-same pg owner n (job r) u v (gone-Owns owner n id (job r) jobs h gone)
                    (rw ((eq_iff (user r) v).0 yes_v) at k)))
            | inr kept ↦ kept
          ],
    kept-All owner n id jobs job user rows h ks,
  )

  pub delete-SameRows :
      (id : String) (s : Db) → IsConsistent pg s → SameRows v s (SavedJobs.delete u id s).1
  delete-SameRows id s (owner, h) = rw delete-store (
    filter-delete_where _ (is_job u id) s.saved_jobs (others-All id s.saved_jobs),
    filter-delete_where _ _ s.application_events (
        kept-All owner s.drawn id s.saved_jobs (λ e. e.saved_job_id) (λ e. e.user_id)
          s.application_events h.jobs h.events),
    filter-delete_where _ _ s.application_notes (
        kept-All owner s.drawn id s.saved_jobs (λ n. n.saved_job_id) (λ n. n.user_id)
          s.application_notes h.jobs h.notes),
    refl,
  )
    where
      others-All :
          (id : String) (rows : List SavedJob)
          → All (λ j. owned_by v j.user_id ≡ true → is_job u id j ≡ false) rows
      others-All id [] = tt
      others-All id (j ∷ rows) =
          (λ mine. ground (arith, eq_iff j.user_id u, eq_iff j.user_id v), others-All id rows)
