-- ===== src/Career/Requests/Ownership.antt =====
-- Every event and every note belongs to the user of its saved job, and every request keeps it so.
use jobs_scraper_global.Prelude.{
  ℕ, suc, String, ◌≡◌, refl, sym, ◌∙◌, ap, ◌<◌, List, [], ◌∷◌, arith, eqb, All, All-append,
  if◌then◌else◌,
}
use jobs_scraper_global.Table.{All-update_where}
use jobs_scraper_global.Postgres.{Postgres}
use jobs_scraper_global.Career.Store.{SavedJob, UserNotification, Db}
use jobs_scraper_global.Career.SavedJobs.{NewSavedJob, Patch, insert_job, set_job}

-- The owners after the identifier number `n` is drawn for a user.
abbrev pub extend : (ℕ → String) → ℕ → String → ℕ → String
extend owner n user k = if eqb k n then user else owner k

-- `user` is the owner of the identifier `id`, which is one of the first `n` drawn.
module _ (pg : Postgres) where
  abbrev pub Owns : (ℕ → String) → ℕ → String → String → Type 0
  Owns owner n id user = (k : ℕ) × (k < n) × (id ≡ pg.uuid k) × (owner k ≡ user)

  pub record IsOwned (owner : ℕ → String) (s : Db) : Type 0 where
    pub jobs : All (λ j. Owns owner s.drawn j.id j.user_id) s.saved_jobs
    pub events : All (λ e. Owns owner s.drawn e.saved_job_id e.user_id) s.application_events
    pub notes : All (λ n. Owns owner s.drawn n.saved_job_id n.user_id) s.application_notes

  -- The tables name no saved job but by its owner.
  abbrev pub IsConsistent : Db → Type 0
  IsConsistent s = (owner : ℕ → String) × IsOwned owner s

  -- An identifier has one owner.
  pub Owns-same :
      (owner : ℕ → String) (n : ℕ) (id u v : String) → Owns owner n id u → Owns owner n id v → u ≡ v
  Owns-same owner n id u v (k, _, p, a) (l, _, q, b) =
      let e : k ≡ l = pg.uuid_injective k l (sym p ∙ q) in sym a ∙ ap owner e ∙ b

  Owns-extend :
      (owner : ℕ → String) (n : ℕ) (id v user : String)
      → Owns owner n id v
      → Owns (extend owner n user) (suc n) id v
  Owns-extend owner n id v user (k, h, p, a) = (k, omega arith, p, ground arith)

  pub Owns-suc :
      (owner : ℕ → String) (n : ℕ) (id v : String) → Owns owner n id v → Owns owner (suc n) id v
  Owns-suc owner n id v (k, h, p, a) = (k, omega arith, p, a)

  Owns-fresh :
      (owner : ℕ → String) (n : ℕ) (user : String)
      → Owns (extend owner n user) (suc n) (pg.uuid n) user
  Owns-fresh owner n user = (n, omega arith, refl, ground arith)

  pub All-Owns :
      {A : Type 0} (owner owner' : ℕ → String) (n m : ℕ) (id user : A → String)
      → ((a : A) → Owns owner n (id a) (user a) → Owns owner' m (id a) (user a))
      → (rows : List A) → All (λ a. Owns owner n (id a) (user a)) rows
      → All (λ a. Owns owner' m (id a) (user a)) rows
  All-Owns owner owner' n m id user f [] h = tt
  All-Owns owner owner' n m id user f (r ∷ rows) (h, hs) =
      (f r h, All-Owns owner owner' n m id user f rows hs)

  -- What draws no identifier for a saved job keeps the owners.
  pub IsOwned-suc :
      (owner : ℕ → String) (s : Db) (rows : List UserNotification)
      → IsOwned owner s
      → IsOwned owner (record s { user_notifications = rows; drawn = suc s.drawn })
  IsOwned-suc owner s rows h = record {
    jobs =
        All-Owns owner owner _ _ (λ j. j.id) (λ j. j.user_id)
          (λ j. Owns-suc owner s.drawn j.id j.user_id) s.saved_jobs h.jobs;
    events =
        All-Owns owner owner _ _ (λ e. e.saved_job_id) (λ e. e.user_id)
          (λ e. Owns-suc owner s.drawn e.saved_job_id e.user_id) s.application_events h.events;
    notes =
        All-Owns owner owner _ _ (λ n. n.saved_job_id) (λ n. n.user_id)
          (λ n. Owns-suc owner s.drawn n.saved_job_id n.user_id) s.application_notes h.notes;
  }

  pub insert_job-IsOwned :
      (owner : ℕ → String) (user : String) (d : NewSavedJob) (s : Db)
      → IsOwned owner s
      → IsOwned (extend owner s.drawn user) (insert_job pg user d s).1
  unfolding insert_job
  insert_job-IsOwned owner user d s h =
      let up = λ (id v : String). Owns-extend owner s.drawn id v user in
      record {
        jobs =
            All-append
              (λ (j : SavedJob). Owns (extend owner s.drawn user) (suc s.drawn) j.id j.user_id)
              s.saved_jobs _
              (All-Owns owner _ _ _ (λ j. j.id) (λ j. j.user_id) (λ j. up j.id j.user_id)
                s.saved_jobs h.jobs)
              (Owns-fresh owner s.drawn user, tt);
        events =
            All-Owns owner _ _ _ (λ e. e.saved_job_id) (λ e. e.user_id)
              (λ e. up e.saved_job_id e.user_id) s.application_events h.events;
        notes =
            All-Owns owner _ _ _ (λ n. n.saved_job_id) (λ n. n.user_id)
              (λ n. up n.saved_job_id n.user_id) s.application_notes h.notes;
      }

  pub set_job-IsOwned :
      (owner : ℕ → String) (user id : String) (d : Patch) (s : Db)
      → IsOwned owner s
      → IsOwned owner (set_job pg user id d s).1
  unfolding set_job
  set_job-IsOwned owner user id d s h = record {
    jobs =
        All-update_where (λ (j : SavedJob). Owns owner s.drawn j.id j.user_id) _ _ s.saved_jobs
          (λ j k. k) h.jobs;
    events = h.events;
    notes = h.notes;
  }
