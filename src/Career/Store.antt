-- ===== src/Career/Store.antt =====
-- The four tables: backend/src/db/schema/{savedJobs,applicationEvents,applicationNotes,userNotifications}.ts.
use jobs_scraper_global.Prelude.{ℕ, String, Bool, true, false, Option, List, ◌==◌}

-- `jobStatusEnum`.
pub data JobStatus : Type 0 where
  saved applied interviewing rejected accepted : JobStatus

abbrev pub status_eq : JobStatus → JobStatus → Bool
status_eq saved saved = true
status_eq applied applied = true
status_eq interviewing interviewing = true
status_eq rejected rejected = true
status_eq accepted accepted = true
status_eq _ _ = false

pub record SavedJob : Type 0 where
  pub id : String
  pub user_id : String
  pub job_link : String
  pub job_title : Option String
  pub company : Option String
  pub location : Option String
  pub source : Option String
  pub keyword : Option String
  pub status : JobStatus
  pub applied_at : Option ℕ
  pub notes : Option String
  pub created_at : ℕ
  pub updated_at : ℕ

-- The only `ApplicationEventType` is `status_changed`; the column `metadata` is never written.
pub record ApplicationEvent : Type 0 where
  pub id : String
  pub user_id : String
  pub saved_job_id : String
  pub from_status : JobStatus
  pub to_status : JobStatus
  pub created_at : ℕ

pub record ApplicationNote : Type 0 where
  pub id : String
  pub user_id : String
  pub saved_job_id : String
  pub content : String
  pub created_at : ℕ
  pub updated_at : ℕ

-- `notificationChannelEnum` and `notificationTypeEnum`.
pub data Channel : Type 0 where
  notification message : Channel

abbrev pub channel_eq : Channel → Channel → Bool
channel_eq notification notification = true
channel_eq message message = true
channel_eq _ _ = false

pub data NotificationType : Type 0 where
  job_saved job_applied job_status_changed high_match mentor system : NotificationType

abbrev pub is_high_match : NotificationType → Bool
is_high_match high_match = true
is_high_match _ = false

-- A value of the column `metadata`.
pub data Meta : Type 0 where
  text : Option String → Meta
  status_is : JobStatus → Meta
  number : ℕ → Meta
  texts : List String → Meta

-- `NewUserNotification`, without the columns that the database fills in.
pub record NewNotification : Type 0 where
  pub user_id : String
  pub channel : Channel
  pub type : NotificationType
  pub title : String
  pub body : String
  pub entity_type : Option String
  pub entity_id : Option String
  pub metadata : List (String × Meta)

pub record UserNotification : Type 0 where
  pub id : String
  pub new : NewNotification
  pub open new use *
  pub read_at : Option ℕ
  pub created_at : ℕ

-- The tables, the number of identifiers drawn so far, and the time at which a request runs.
pub record Db : Type 0 where
  pub saved_jobs : List SavedJob
  pub application_events : List ApplicationEvent
  pub application_notes : List ApplicationNote
  pub user_notifications : List UserNotification
  pub drawn : ℕ
  pub now : ℕ

-- The test of `ownedBy`, as a condition on a row's column.
abbrev pub owned_by : String → String → Bool
owned_by user column = column == user
