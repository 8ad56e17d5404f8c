-- ===== src/Career.antt =====
-- What a candidate keeps about job applications: backend/src/modules/savedJobs and
-- backend/src/modules/notifications, over the tables of backend/src/db/schema.
pub mod Store
pub mod Notifications
pub mod SavedJobs
pub mod Notes
pub mod Requests
pub mod Updates
pub mod Lifetime
pub mod Inbox
pub mod Links
mod Tests
