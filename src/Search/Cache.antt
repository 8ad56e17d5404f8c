-- ===== src/Search/Cache.antt =====
-- The cache of search pages: backend/src/modules/jobs/cache/jobSearchCache.ts over the store of
-- valkeySearchCache.adapter.ts, with the keys of jobSearchFingerprint.ts, all in that directory.
pub mod Server
pub mod Flight
pub mod Invariant
pub mod Steps
pub mod Flights
pub mod Safety
pub mod Fingerprint
pub mod Shared
mod Codes
mod Tests
mod SharedTests
