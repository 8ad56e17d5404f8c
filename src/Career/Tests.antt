-- ===== src/Career/Tests.antt =====
-- Runs of the services on small stores, and the theorems at them.
use jobs_scraper_global.Prelude.{
  String, ◌≡◌, refl, ◌≢◌, ◌≤◌, true, none, some, [], ◌∷◌, arith, eq_iff, length,
}
use jobs_scraper_global.Errors.{app, not_found, conflict}
use jobs_scraper_global.Exec.{ok, err, transaction}
use jobs_scraper_global.Postgres.{sample_postgres}
use jobs_scraper_global.Career.Store.{JobStatus, saved, applied, interviewing, SavedJob, Db}
use jobs_scraper_global.Career.Notifications
use jobs_scraper_global.Career.Notifications.{ListQuery, Listing, Matched, listed}
use jobs_scraper_global.Career.SavedJobs
use jobs_scraper_global.Career.SavedJobs.{
  NewSavedJob, Patch, new_row, insert_job, has_link, is_event_of, patched,
}
use jobs_scraper_global.Career.Requests.{create_job, delete_job, update_job, step, serve}
use jobs_scraper_global.Career.Requests.Ownership.{IsConsistent}
use jobs_scraper_global.Career.Requests.Consistency.{step-IsConsistent}
use jobs_scraper_global.Career.Requests.Isolation.{serve-SameRows}
use jobs_scraper_global.Career.Requests.SavedRows.{SameRows}
use jobs_scraper_global.Career.Lifetime.{updates, IsLogged, updates-create-IsLogged}
use jobs_scraper_global.Career.Links.{saved_under, create_once, update-duplicates}

abbrev empty : Db
empty = record {
  saved_jobs = [];
  application_events = [];
  application_notes = [];
  user_notifications = [];
  drawn = 0;
  now = 7;
}

empty-IsConsistent : IsConsistent sample_postgres empty
empty-IsConsistent = (λ k. "", record { jobs = tt; events = tt; notes = tt })

abbrev job : String → NewSavedJob
job link = record {
  job_link = link;
  job_title = some "Dev";
  company = none;
  location = none;
  source = none;
  keyword = none;
  status = none;
  applied_at = none;
  notes = none;
}

abbrev to_status : JobStatus → Patch
to_status st = record {
  job_link = none;
  job_title = none;
  company = none;
  location = none;
  source = none;
  keyword = none;
  status = some st;
  applied_at = none;
  notes = none;
}

abbrev to_link : String → Patch
to_link link = record (to_status saved) { job_link = some link; status = none }

-- The store in which `ana` has saved two jobs; their identifiers are the numbers 0 and 2.
abbrev two_jobs : Db
two_jobs =
    step sample_postgres "ana" (create_job (job "l2"))
      (step sample_postgres "ana" (create_job (job "l1")) empty)

two_jobs-IsConsistent : IsConsistent sample_postgres two_jobs
two_jobs-IsConsistent =
    step-IsConsistent sample_postgres "ana" (create_job (job "l2")) _
      (step-IsConsistent sample_postgres "ana" (create_job (job "l1")) empty empty-IsConsistent)

bob-ne-ana : ◌≢◌ {A = String} "bob" "ana"
bob-ne-ana = ground (arith, eq_iff "bob" "ana")

serve-SameRows_example : SameRows "ana" two_jobs (
    serve sample_postgres
      (("bob", create_job (job "l1")) ∷ ("bob", delete_job "uu") ∷ ("bob", delete_job "") ∷ [])
      two_jobs)
serve-SameRows_example =
    serve-SameRows sample_postgres "ana"
      (("bob", create_job (job "l1")) ∷ ("bob", delete_job "uu") ∷ ("bob", delete_job "") ∷ [])
      two_jobs (bob-ne-ana, (bob-ne-ana, (bob-ne-ana, tt))) two_jobs-IsConsistent

step-IsConsistent_example :
    IsConsistent sample_postgres
      (step sample_postgres "ana" (update_job "uu" (to_status applied)) two_jobs)
step-IsConsistent_example =
    step-IsConsistent sample_postgres "ana" (update_job "uu" (to_status applied)) two_jobs
      two_jobs-IsConsistent

updates-create-IsLogged_example : IsLogged sample_postgres "ana" "" saved (
    updates sample_postgres "ana" ""
      (to_status applied ∷ to_status applied ∷ to_status interviewing ∷ [])
      (SavedJobs.create sample_postgres "ana" (job "l1") empty).1)
updates-create-IsLogged_example =
    updates-create-IsLogged sample_postgres "ana" (job "l1")
      (to_status applied ∷ to_status applied ∷ to_status interviewing ∷ []) empty empty-IsConsistent
      refl

-- Two events are written for the three updates.
two_events :
    length
      (updates sample_postgres "ana" ""
        (to_status applied ∷ to_status applied ∷ to_status interviewing ∷ [])
        (SavedJobs.create sample_postgres "ana" (job "l1") empty).1).application_events
    ≡ 2
unfolding updates SavedJobs.create insert_job SavedJobs.update transaction SavedJobs.set_job
    SavedJobs.insert_event Notifications.create_for_saved_job
    Notifications.create_for_job_status_change Notifications.create
two_events = refl

no_such_job :
    (SavedJobs.update sample_postgres "bob" "" (to_status applied) two_jobs).0
    ≡ err (app (not_found "Vaga não encontrada"))
unfolding SavedJobs.update transaction step SavedJobs.create insert_job
    Notifications.create_for_saved_job Notifications.create
no_such_job = refl

created :
    (SavedJobs.create sample_postgres "ana" (job "l1") empty).0
    ≡ ok (new_row sample_postgres "ana" (job "l1") empty)
unfolding SavedJobs.create insert_job Notifications.create_for_saved_job Notifications.create
created = refl

create_once_example :
    (saved_under "ana" "l1" (SavedJobs.create sample_postgres "ana" (job "l1") empty).1 ≡ 1)
    × (SavedJobs.create sample_postgres "ana"
          (job "l1")
          (SavedJobs.create sample_postgres "ana" (job "l1") empty).1
        ≡ (
          err (app (conflict "Vaga já salva." none)),
          (SavedJobs.create sample_postgres "ana" (job "l1") empty).1,
        ))
create_once_example = create_once sample_postgres "ana" (job "l1") empty _ created

-- The second job of `ana`, and the first.
abbrev first_job : SavedJob
first_job = new_row sample_postgres "ana" (job "l1") empty

abbrev second_job : SavedJob
second_job = record first_job { id = "uu"; job_link = "l2" }

abbrev after_two : Db
after_two = record empty { saved_jobs = first_job ∷ second_job ∷ []; drawn = 4 }

two_jobs-saved_jobs : two_jobs.saved_jobs ≡ after_two.saved_jobs
unfolding step SavedJobs.create insert_job Notifications.create_for_saved_job Notifications.create
two_jobs-saved_jobs = refl

update-duplicates_example :
    2
    ≤ saved_under "ana" "l1"
        (SavedJobs.update sample_postgres "ana" "uu" (to_link "l1") after_two).1
update-duplicates_example =
    update-duplicates sample_postgres "ana" "uu" "l1" (to_link "l1") after_two second_job first_job
      refl refl refl

abbrev all_of_ana : ListQuery
all_of_ana = record { channel = none; unread_only = true; limit = 1 }

abbrev two_notices : Db
two_notices = record empty {
  user_notifications =
      record {
        id = "a";
        new = Notifications.saved_notification "ana" first_job;
        read_at = none;
        created_at = 1;
      }
      ∷ record {
        id = "b";
        new = Notifications.saved_notification "ana" second_job;
        read_at = none;
        created_at = 2;
      }
      ∷ [];
}

abbrev listing_of_two : Listing
listing_of_two = record {
  notifications =
      record {
        id = "a";
        new = Notifications.saved_notification "ana" first_job;
        read_at = none;
        created_at = 1;
      }
      ∷ [];
  unread_count = 2;
}

list_two : (Notifications.list sample_postgres "ana" all_of_ana two_notices).0 ≡ ok listing_of_two
unfolding Notifications.list
list_two = refl

list_read :
    (Notifications.list sample_postgres "ana" all_of_ana
      (Notifications.mark_all_read "ana" none two_notices).1).0
    ≡ ok (record { notifications = []; unread_count = 0 })
unfolding Notifications.list Notifications.mark_all_read
list_read = refl

abbrev match : Matched
match = record {
  title = some "Dev";
  job_title = none;
  company = some "Acme";
  match_score = some 90;
  matched_technologies = none;
  identity = "https://jobs/1";
}
