-- ===== src/Career/Links.antt =====
-- The links of a user's saved jobs: `create` refuses a second job with the same link, and `update`
-- does not.
use jobs_scraper_global.Prelude.{
  ℕ, String, ◌≡◌, ap, ◌≤◌, Bool, true, ◌&&◌, not, none, some, List, [], ◌∷◌, arith, eq_refl, filter,
  find?, Option-cases, inl, inr, length,
}
use jobs_scraper_global.Errors.{app, conflict}
use jobs_scraper_global.Exec.{ok, err}
use jobs_scraper_global.Table.{update_where, find?-insert, filter-insert_first}
use jobs_scraper_global.Postgres.{Postgres}
use jobs_scraper_global.Career.Store.{SavedJob, Db}
use jobs_scraper_global.Career.Notifications
use jobs_scraper_global.Career.SavedJobs
use jobs_scraper_global.Career.SavedJobs.{
  NewSavedJob, Patch, new_row, insert_job, is_job, has_link, patched,
}
use jobs_scraper_global.Career.Updates.{update-saved_jobs}

-- The jobs that a user has saved under a link.
abbrev pub saved_under : String → String → Db → ℕ
saved_under user link s = length (filter (has_link user link) s.saved_jobs)

module _ (pg : Postgres) (user : String) where
  -- A creation that returns a job leaves exactly one under its link, and the same request again
  -- throws the conflict and writes nothing.
  pub create_once :
      (d : NewSavedJob) (s : Db) (j : SavedJob)
      → (SavedJobs.create pg user d s).0 ≡ ok j
      → (saved_under user d.job_link (SavedJobs.create pg user d s).1 ≡ 1)
        × (SavedJobs.create pg user d (SavedJobs.create pg user d s).1
            ≡ (err (app (conflict "Vaga já salva." none)), (SavedJobs.create pg user d s).1))
  unfolding SavedJobs.create insert_job Notifications.create_for_saved_job Notifications.create
  create_once d s j h = elim (Option-cases (find? (has_link user d.job_link) s.saved_jobs)) [
    | inl fresh ↦
        let is : has_link user d.job_link (new_row pg user d s) ≡ true =
          rw (eq_refl user) (eq_refl d.job_link) in
        rw fresh (
          ap length (
              filter-insert_first (has_link user d.job_link) (new_row pg user d s) s.saved_jobs
                fresh is),
          rw (find?-insert (has_link user d.job_link) (new_row pg user d s) s.saved_jobs fresh is),
        )
    | inr (k, taken) ↦ absurd (cc (rw taken at h))
  ]

  module _ (id link : String) (d : Patch) (s : Db) (j k : SavedJob) where
    abbrev is_another : SavedJob → Bool
    is_another r = has_link user link r && not (is_job user id r)

    one_link :
        (rows : List SavedJob) (now : ℕ)
        → find? (is_job user id) rows ≡ some j
        → d.job_link ≡ some link
        → 1
          ≤ length
              (filter (has_link user link) (update_where (is_job user id) (patched d now) rows))
    one_link [] now a c = cc
    one_link (r ∷ rows) now a c = ground (arith, one_link rows now, eq_refl link)

    another_link :
        (rows : List SavedJob) (now : ℕ)
        → find? is_another rows ≡ some k
        → 1
          ≤ length
              (filter (has_link user link) (update_where (is_job user id) (patched d now) rows))
    another_link [] now b = cc
    another_link (r ∷ rows) now b = ground (arith, another_link rows now)

    two_links :
        (rows : List SavedJob) (now : ℕ)
        → find? (is_job user id) rows ≡ some j
        → find? is_another rows ≡ some k
        → d.job_link ≡ some link
        → 2
          ≤ length
              (filter (has_link user link) (update_where (is_job user id) (patched d now) rows))
    two_links [] now a b c = cc
    two_links (r ∷ rows) now a b c =
        ground (arith, one_link rows now, another_link rows now, two_links rows now, eq_refl link)

    -- An update that gives a job a link under which the user has saved another job leaves two jobs
    -- under that link.
    pub update-duplicates :
        find? (is_job user id) s.saved_jobs ≡ some j
        → find? is_another s.saved_jobs ≡ some k
        → d.job_link ≡ some link
        → 2 ≤ saved_under user link (SavedJobs.update pg user id d s).1
    update-duplicates found another given =
        rw (update-saved_jobs pg user id d s j found)
          (two_links s.saved_jobs s.now found another given)
