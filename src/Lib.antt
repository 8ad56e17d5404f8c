-- ===== src/Lib.antt =====
-- A model of Jobs Scraper Global: the services of its backend, with the theorems that make them
-- correct.
--
-- The program. A backend (backend/src) serves a front end for candidates (frontend), one for the
-- administration (front_admin) and keeps its data in PostgreSQL, through Drizzle, and in Valkey. A
-- request passes the middleware (session, rate limit, guards of role and permission), reaches a
-- controller, which calls a service, and a throw ends in the error handler. The services share the
-- tables: saved jobs, their events and notes, and notifications; users, accounts and credentials;
-- permission rules. The jobs themselves come from Valkey, where a scraper puts them.
--
-- The files and the code that they model.
--   Errors, Errors/Handler: lib/errors.ts and middleware/errorHandler.ts (here and below under
--     backend/src).
--   Exec, Table, Postgres: what the services stand on: methods that return or throw, statements on
--     a table as functions on the list of its rows, and what PostgreSQL decides.
--   Career/Store, Notifications, SavedJobs, Notes: the services of modules/notifications and
--     modules/savedJobs. Career/Requests makes one step of each endpoint, so that a history of the
--     requests of several users is a list of steps.
--   Access/Matrix, Rules, Gate: modules/admin/permissions, middleware/requireAuth.ts, and the three
--     routers that app.ts mounts at /admin.
--   RateLimit, RateLimit/Valkey: middleware/rateLimit.ts with its two counters.
--   Accounts/Store, Users, Connections, Credentials: modules/users/functions,
--     modules/users/users.repository.ts, utils/generateUsername.ts and
--     modules/auth/credentials.service.ts. Accounts/Admin: modules/admin/users.
--   Search/Pagination, Hydration, Query: lib/pagination.ts, cacheGetJobsByIdsDetailed of
--     lib/cache.ts, modules/jobs/services/searchJobs.service.ts and
--     modules/jobs/repositories/jobSearch.repository.ts. Search/Ranking: the same repository where it
--     sorts by match.
--   Search/Cache: modules/jobs/cache/jobSearchCache.ts and valkeySearchCache.adapter.ts: each await of
--     `search` ends a step of its call, and between the steps of the calls the catalog changes, time
--     passes and stored pages are lost. Search/Cache/Fingerprint: jobSearchFingerprint.ts beside them.
--   Search/Filters: modules/jobs/filters/jobSearch.filter.ts. Search/Parsers:
--     modules/jobs/parsers, with the families of modules/jobs/types/professionalTaxonomy.ts.
--   Search/Matching: modules/jobs/services/jobMatch.service.ts. Search/Profile: `enrich` and
--     `notifyHighMatches` of jobProfileMatch.service.ts, whose calls of the notifications service run
--     at the same time: the order of their statements is an argument. Search/Profile/Reading:
--     `getUserTechnologies` of the same service.
--   Search/Service: `SearchJobsService.execute` of searchJobs.service.ts, which puts these together; its
--     query is asked directly, without the cache of pages.
--   Polling: front_admin/src/lib/polling/pollingResource.ts, a state machine whose events are its
--     calls, the timer, the visibility of the page and the settling of requests.
-- The other files hold the theorems about these, and each Tests file runs them.
--
-- The correspondence. A function of the source in camelCase is the definition with its name in
-- snake_case. A service's methods take the store and give the result with the store that they
-- leave; a throw is a value. `db.transaction` takes the writes back on a throw. In Accounts the
-- store also says whether the connection is in a transaction that a failed statement has aborted,
-- as PostgreSQL does it: every later statement fails with 25P02, and a commit rolls back. In Career
-- no statement fails inside a transaction otherwise than by a throw of the service, so that this
-- state is left out there. A search of users gives them decrypted, as `toPublicUser` does, but for
-- `findUserByProvider`, which gives the raw row. (`User` keeps the hash of the address, which
-- `toPublicUser` drops and no caller reads.)
--
-- Bounds and fuel. Numbers are exact natural numbers, also the years of experience, and the coverage
-- of a match is rounded from an exact fraction. The loop of `generateUsername` has its 20 attempts,
-- that of `hydrateIndexPage` its 10 windows, both of the source. The batches of the search are cut
-- with a round for each identifier, which is enough since a batch takes at least one. A number is
-- printed with a round for each unit, more than it has digits.
--
-- Parameters. The identifiers that PostgreSQL draws and the order of rows (Postgres), the order in
-- which concurrent statements of `updateRules` arrive, the messages of the driver and of Zod, the
-- hash of an address and its lower case, the commands of the client of Valkey, the number drawn
-- for a user name, the salted hash of a password, the job that Valkey holds under an identifier
-- and the identifiers that it finds by keywords, the profile of the one who searches, what Unicode
-- says of texts (decomposition, lower case, letters and numbers), and the order of names in the
-- locale. The cached search stands on SHA-256 over the JSON text of the normal form of its
-- arguments, whose values are assumed not to collide, and on the number of changes of the catalog
-- before a generation, so that no generation comes twice. Of drizzle-orm (0.45.4) the code relies
-- on three things: the error of a failed query has the SQLSTATE at its cause and no code itself, an
-- update leaves a column whose value is undefined as it is, and an insertion makes it null.
--
-- Not modelled: the mail, OAuth and Prometheus, which are input and output; encryption at rest,
-- where the rows of the model hold the texts that are encrypted; the parsing of bodies by Zod,
-- whose types the records have; row locks; components of React; the search over the index of
-- Valkey, so that `execute` is that of a server without an active index; of the audit log all but
-- the actors of its entries, whose foreign key stops the deletion of a user; and the domain code of
-- the front ends.
pub mod Prelude
pub mod Errors
pub mod Exec
pub mod Table
pub mod Postgres
pub mod Career
pub mod Access
pub mod RateLimit
pub mod Accounts
pub mod Search
pub mod Polling
