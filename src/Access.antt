-- ===== src/Access.antt =====
-- Who may do what in the administration: backend/src/modules/admin/permissions and the routers
-- that are mounted at /admin by backend/src/app.ts.
pub mod Matrix
pub mod Rules
pub mod Gate
pub mod RuleLaws
pub mod RuleViews
pub mod GateLaws
mod Tests
