-- ===== src/Career/SavedJobs.antt =====
-- backend/src/modules/savedJobs/savedJobs.service.ts: one function for each method.
use jobs_scraper_global.Prelude.{
  ℕ, suc, String, Bool, ◌&&◌, ◌||◌, Option, none, some, List, ltb, eqb, if◌then◌else◌, or_else,
  filter, find?, first, is_some, ◌==◌,
}
use jobs_scraper_global.Errors.{app, not_found, conflict}
use jobs_scraper_global.Exec.{Exec, ok, err, pure, throw, gets, transaction, ◌>>=◌, ◌>>◌}
use jobs_scraper_global.Table.{insert, update_where, returning, delete_where}
use jobs_scraper_global.Postgres.{Postgres}
use jobs_scraper_global.Career.Store.{
  JobStatus, saved, status_eq, SavedJob, ApplicationEvent, Db, owned_by,
}
use jobs_scraper_global.Career.Notifications.{create_for_saved_job, create_for_job_status_change}

-- The body of a creation, `CreateSavedJobInput`; a field that is left out is stored as null, and
-- the status as the column's default.
pub record NewSavedJob : Type 0 where
  pub job_link : String
  pub job_title : Option String
  pub company : Option String
  pub location : Option String
  pub source : Option String
  pub keyword : Option String
  pub status : Option JobStatus
  pub applied_at : Option ℕ
  pub notes : Option String

-- The body of an update, `UpdateSavedJobInput`: every field may be left out.
pub record Patch : Type 0 where
  pub job_link : Option String
  pub job_title : Option String
  pub company : Option String
  pub location : Option String
  pub source : Option String
  pub keyword : Option String
  pub status : Option JobStatus
  pub applied_at : Option ℕ
  pub notes : Option String

-- `new ?? old` on a nullable column.
abbrev pub or_keep {ℓ} : {A : Type ℓ} → Option A → Option A → Option A
or_keep none old = old
or_keep (some a) old = some a

-- `.set({ ...data, updatedAt })`: drizzle writes no column whose value is undefined.
abbrev pub patched : Patch → ℕ → SavedJob → SavedJob
patched d now j = record {
  id = j.id;
  user_id = j.user_id;
  job_link = or_else d.job_link j.job_link;
  job_title = or_keep d.job_title j.job_title;
  company = or_keep d.company j.company;
  location = or_keep d.location j.location;
  source = or_keep d.source j.source;
  keyword = or_keep d.keyword j.keyword;
  status = or_else d.status j.status;
  applied_at = or_keep d.applied_at j.applied_at;
  notes = or_keep d.notes j.notes;
  created_at = j.created_at;
  updated_at = now;
}

abbrev pub newer : SavedJob → SavedJob → Bool
newer a b = ltb b.created_at a.created_at

abbrev pub is_job : String → String → SavedJob → Bool
is_job user id j = owned_by user j.user_id && j.id == id

abbrev pub has_link : String → String → SavedJob → Bool
has_link user link j = owned_by user j.user_id && j.job_link == link

abbrev pub is_event_of : String → String → ApplicationEvent → Bool
is_event_of user job e = owned_by user e.user_id && e.saved_job_id == job

module _ (pg : Postgres) where
  unfoldable pub get_all : String → Exec Db (List SavedJob)
  get_all user =
      gets λ s. pg.order_by SavedJob newer (filter (λ j. owned_by user j.user_id) s.saved_jobs)

  unfoldable pub get_by_id : String → String → Exec Db (Option SavedJob)
  get_by_id user id = gets λ s. find? (is_job user id) s.saved_jobs

  -- The row that `insert(savedJobs).values({ ...data, userId }).returning()` gives.
  abbrev pub new_row : String → NewSavedJob → Db → SavedJob
  new_row user d s = record {
    id = pg.uuid s.drawn;
    user_id = user;
    job_link = d.job_link;
    job_title = d.job_title;
    company = d.company;
    location = d.location;
    source = d.source;
    keyword = d.keyword;
    status = or_else d.status saved;
    applied_at = d.applied_at;
    notes = d.notes;
    created_at = s.now;
    updated_at = s.now;
  }

  unfoldable pub insert_job : String → NewSavedJob → Exec Db SavedJob
  insert_job user d s = (
    ok (new_row user d s),
    record s { saved_jobs = insert (new_row user d s) s.saved_jobs; drawn = suc s.drawn },
  )

  unfoldable pub create : String → NewSavedJob → Exec Db SavedJob
  unfolding conflict
  create user d = do
    existing ← gets (λ s. find? (has_link user d.job_link) s.saved_jobs)
    if is_some existing
        then throw (app (conflict "Vaga já salva." none))
        else do row ← insert_job user d; create_for_saved_job pg user row; pure row

  -- `insert(applicationEvents)` of a change of status.
  unfoldable pub insert_event : String → String → JobStatus → JobStatus → Exec Db (Unit {0})
  insert_event user job from to s =
      let row : ApplicationEvent = record {
        id = pg.uuid s.drawn;
        user_id = user;
        saved_job_id = job;
        from_status = from;
        to_status = to;
        created_at = s.now;
      } in
      (
        ok tt,
        record s { application_events = insert row s.application_events; drawn = suc s.drawn },
      )

  unfoldable pub set_job : String → String → Patch → Exec Db (Option SavedJob)
  set_job user id d s =
      let hit = is_job user id in
      let set = patched d s.now in
      (
        ok (first (returning hit set s.saved_jobs)),
        record s { saved_jobs = update_where hit set s.saved_jobs },
      )

  -- What follows the update of the row: nothing, unless a status is given and is another one.
  abbrev pub log_change :
      Option JobStatus → String → String → SavedJob → SavedJob → Exec Db SavedJob
  log_change none user id current updated = pure updated
  log_change (some new) user id current updated =
      if status_eq new current.status then pure updated else do
        insert_event user id current.status new
        create_for_job_status_change pg user current updated
        pure updated

  abbrev pub after_set : Option SavedJob → String → String → Patch → SavedJob → Exec Db SavedJob
  after_set none user id d current = throw (app (not_found "Vaga não encontrada"))
  after_set (some updated) user id d current = log_change d.status user id current updated

  abbrev pub with_current : Option SavedJob → String → String → Patch → Exec Db SavedJob
  with_current none user id d = throw (app (not_found "Vaga não encontrada"))
  with_current (some current) user id d = do
    updated ← set_job user id d
    after_set updated user id d current

  abbrev pub update_body : String → String → Patch → Exec Db SavedJob
  update_body user id d = do
    current ← gets (λ s. find? (is_job user id) s.saved_jobs)
    with_current current user id d

  unfoldable pub update : String → String → Patch → Exec Db SavedJob
  update user id d = transaction (update_body user id d)

  -- `orderBy: [asc(createdAt), asc(id)]`.
  abbrev pub older : ApplicationEvent → ApplicationEvent → Bool
  older a b = ltb a.created_at b.created_at || (eqb a.created_at b.created_at && pg.id_lt a.id b.id)

  unfoldable pub get_events : String → String → Exec Db (List ApplicationEvent)
  unfolding not_found get_by_id
  get_events user job = do
    found ← get_by_id user job
    if is_some found
        then gets (λ s.
          pg.order_by ApplicationEvent older (filter (is_event_of user job) s.application_events))
        else throw (app (not_found "Vaga não encontrada"))

-- `on delete cascade` of the events and the notes of a saved job that is gone.
abbrev pub cascade : List SavedJob → Db → Db
cascade gone s =
    let is_gone = λ (job : String). is_some (find? (λ j. j.id == job) gone) in
    record s {
      application_events = delete_where (λ e. is_gone e.saved_job_id) s.application_events;
      application_notes = delete_where (λ n. is_gone n.saved_job_id) s.application_notes;
    }

unfoldable pub delete : String → String → Exec Db (Unit {0})
unfolding not_found
delete user id s =
    let hit = is_job user id in
    let gone = filter hit s.saved_jobs in
    let s' = cascade gone (record s { saved_jobs = delete_where hit s.saved_jobs }) in
    elim (first gone) [
      | none ↦ (err (app (not_found "Vaga não encontrada")), s')
      | some j ↦ (ok tt, s')
    ]
