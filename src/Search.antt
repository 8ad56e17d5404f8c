-- ===== src/Search.antt =====
-- The search for jobs: backend/src/lib/pagination.ts and backend/src/modules/jobs.
pub mod Pagination
pub mod Pages
pub mod Query
pub mod Batches
pub mod Hydration
pub mod Windows
pub mod Relevance
pub mod Cache
pub mod Filters
pub mod Matching
pub mod Ranking
pub mod Parsers
pub mod Profile
pub mod Service
mod Tests
