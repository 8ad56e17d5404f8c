-- ===== src/Search/Filters.antt =====
-- The filters of a search: backend/src/modules/jobs/filters/jobSearch.filter.ts.
pub mod Comparable
pub mod Places
pub mod Jobs
pub mod Laws
pub mod Consistency
mod Tests
