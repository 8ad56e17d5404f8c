-- ===== src/Search/Matching.antt =====
-- The match of jobs and profiles: backend/src/modules/jobs/services/jobMatch.service.ts.
pub mod Words
pub mod Technologies
pub mod Profile
pub mod Professional
pub mod Bounds
pub mod Growth
pub mod Evidence
mod Tests
