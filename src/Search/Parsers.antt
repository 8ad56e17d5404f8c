-- ===== src/Search/Parsers.antt =====
-- The query of a search request: backend/src/modules/jobs/parsers.
pub mod Values
pub mod Families
pub mod Query
pub mod Plain
pub mod Canonical
pub mod RoundTrip
mod Tests
