-- ===== src/Career/Requests.antt =====
-- The requests of a signed-in user to the services of this component, as one step function.
pub mod Stores
pub mod Ownership
pub mod OwnedJobs
pub mod Consistency
pub mod SavedRows
pub mod Isolation
use jobs_scraper_global.Prelude.{String, ℕ, Option, List, [], ◌∷◌}
use jobs_scraper_global.Postgres.{Postgres}
use jobs_scraper_global.Career.Store.{Channel, Db}
use jobs_scraper_global.Career.Notifications
use jobs_scraper_global.Career.Notifications.{ListQuery, Matched}
use jobs_scraper_global.Career.SavedJobs
use jobs_scraper_global.Career.SavedJobs.{NewSavedJob, Patch}
use jobs_scraper_global.Career.Notes

-- One constructor for each method that a route reaches.
pub data Request : Type 0 where
  list_notifications : ListQuery → Request
  mark_read : String → Request
  mark_all_read : Option Channel → Request
  clear : Option Channel → Request
  high_match : Matched → Request
  get_jobs : Request
  get_job : String → Request
  create_job : NewSavedJob → Request
  update_job : String → Patch → Request
  get_events : String → Request
  delete_job : String → Request
  list_notes : String → Request
  create_note : String → String → Request
  update_note : String → String → String → Request
  delete_note : String → String → Request

module _ (pg : Postgres) where
  -- The store that a request leaves, whether it succeeds or throws.
  unfoldable pub step : String → Request → Db → Db
  step user (list_notifications q) s = (Notifications.list pg user q s).1
  step user (mark_read id) s = (Notifications.mark_read user id s).1
  step user (mark_all_read channel) s = (Notifications.mark_all_read user channel s).1
  step user (clear channel) s = (Notifications.clear user channel s).1
  step user (high_match job) s = (Notifications.create_high_match_if_missing pg user job s).1
  step user get_jobs s = (SavedJobs.get_all pg user s).1
  step user (get_job id) s = (SavedJobs.get_by_id pg user id s).1
  step user (create_job d) s = (SavedJobs.create pg user d s).1
  step user (update_job id d) s = (SavedJobs.update pg user id d s).1
  step user (get_events id) s = (SavedJobs.get_events pg user id s).1
  step user (delete_job id) s = (SavedJobs.delete user id s).1
  step user (list_notes id) s = (Notes.list pg user id s).1
  step user (create_note id content) s = (Notes.create pg user id content s).1
  step user (update_note id note content) s = (Notes.update user id note content s).1
  step user (delete_note id note) s = (Notes.delete user id note s).1

  -- A history of requests, each by its user, in the order in which they run.
  pub serve : List (String × Request) → Db → Db
  serve [] s = s
  serve ((user, r) ∷ rest) s = serve rest (step user r s)
