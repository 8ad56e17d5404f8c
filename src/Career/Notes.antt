-- ===== src/Career/Notes.antt =====
-- backend/src/modules/savedJobs/applicationNotes.service.ts: one function for each method.
use jobs_scraper_global.Prelude.{
  suc, String, Bool, ◌&&◌, ◌||◌, none, some, List, ltb, eqb, if◌then◌else◌, filter, find?, first,
  is_some, ◌==◌,
}
use jobs_scraper_global.Errors.{app, not_found}
use jobs_scraper_global.Exec.{Exec, ok, err, pure, throw, gets, ◌>>=◌, ◌>>◌}
use jobs_scraper_global.Table.{insert, update_where, returning, delete_where}
use jobs_scraper_global.Postgres.{Postgres}
use jobs_scraper_global.Career.Store.{ApplicationNote, Db, owned_by}
use jobs_scraper_global.Career.SavedJobs.{is_job}

abbrev pub is_note_of : String → String → ApplicationNote → Bool
is_note_of user job n = owned_by user n.user_id && n.saved_job_id == job

abbrev pub is_note : String → String → String → ApplicationNote → Bool
is_note user job note n = is_note_of user job n && n.id == note

unfoldable pub ensure_job_owner : String → String → Exec Db (Unit {0})
unfolding not_found
ensure_job_owner user job = do
  found ← gets (λ s. find? (is_job user job) s.saved_jobs)
  if is_some found then pure tt else throw (app (not_found "Vaga não encontrada"))

module _ (pg : Postgres) where
  abbrev pub older : ApplicationNote → ApplicationNote → Bool
  older a b = ltb a.created_at b.created_at || (eqb a.created_at b.created_at && pg.id_lt a.id b.id)

  unfoldable pub list : String → String → Exec Db (List ApplicationNote)
  unfolding ensure_job_owner
  list user job = do
    ensure_job_owner user job
    gets (λ s. pg.order_by ApplicationNote older (filter (is_note_of user job) s.application_notes))

  unfoldable pub insert_note : String → String → String → Exec Db ApplicationNote
  insert_note user job content s =
      let row : ApplicationNote = record {
        id = pg.uuid s.drawn;
        user_id = user;
        saved_job_id = job;
        content = content;
        created_at = s.now;
        updated_at = s.now;
      } in
      (ok row, record s { application_notes = insert row s.application_notes; drawn = suc s.drawn })

  unfoldable pub create : String → String → String → Exec Db ApplicationNote
  unfolding ensure_job_owner insert_note
  create user job content = do ensure_job_owner user job; insert_note user job content

unfoldable pub update : String → String → String → String → Exec Db ApplicationNote
unfolding not_found
update user job note content s =
    let hit = is_note user job note in
    let set = λ (n : ApplicationNote). record n { content = content; updated_at = s.now } in
    let s' = record s { application_notes = update_where hit set s.application_notes } in
    elim (first (returning hit set s.application_notes)) [
      | none ↦ (err (app (not_found "Nota não encontrada")), s')
      | some n ↦ (ok n, s')
    ]

unfoldable pub delete : String → String → String → Exec Db (Unit {0})
unfolding not_found
delete user job note s =
    let hit = is_note user job note in
    let s' = record s { application_notes = delete_where hit s.application_notes } in
    elim (first (filter hit s.application_notes)) [
      | none ↦ (err (app (not_found "Nota não encontrada")), s')
      | some n ↦ (ok tt, s')
    ]
