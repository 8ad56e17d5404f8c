-- ===== src/Access/Gate.antt =====
-- backend/src/modules/admin/permissions/requireRole.ts, backend/src/middleware/requireAuth.ts, and
-- the routers of backend/src/routes that backend/src/app.ts mounts at /admin, in their order.
use jobs_scraper_global.Prelude.{
  ℕ, String, Bool, true, false, Option, none, some, List, [], ◌∷◌, ltb, if◌then◌else◌, ◌==◌,
}
use jobs_scraper_global.Access.Matrix.{
  Role, support, admin, super_admin, role_level, Resource, users, scrapers, dashboard,
  observability, audit, permissions, Action, read, block, unblock, delete, reset_password,
  change_role, trigger, health, metrics, manage,
}
use jobs_scraper_global.Access.Rules.{PermissionRule, can}

-- `SessionData`.
pub record Session : Type 0 where
  pub user_id : Option String
  pub role : Option Role

-- What a middleware does with a request.
pub data Verdict : Type 0 where
  next : Verdict
  status : ℕ → Verdict

-- A user id that is missing or empty is no sign-in.
abbrev pub has_user : Option String → Bool
has_user none = false
has_user (some id) = if id == "" then false else true

unfoldable pub require_auth : Session → Verdict
require_auth s = if has_user s.user_id then next else status 401

abbrev role_at_least : Role → Option Role → Verdict
role_at_least min none = status 401
role_at_least min (some role) = if ltb (role_level role) (role_level min) then status 403 else next

unfoldable pub require_role : Role → Session → Verdict
require_role min s = if has_user s.user_id then role_at_least min s.role else status 401

abbrev permitted : Option (List PermissionRule) → Resource → Action → Option Role → Verdict
permitted rules r a none = status 401
permitted rules r a (some role) = if can rules role r a then next else status 403

unfoldable pub require_permission :
    Option (List PermissionRule) → Resource → Action → Session → Verdict
unfolding can
require_permission rules r a s =
    if has_user s.user_id then permitted rules r a s.role else status 401

-- The endpoints of the three routers, in their order.
pub data Endpoint : Type 0 where
  get_dashboard list_scrapers scraper_status list_jobs count_jobs get_health : Endpoint
  list_users get_user block_user unblock_user reset_user run_scraper run_one_scraper : Endpoint
  get_snapshot get_metrics get_dashboards get_audit list_rules : Endpoint
  change_user_role delete_user update_rules clear_jobs_cache : Endpoint

pub data Router : Type 0 where
  support_router admin_router super_admin_router : Router

-- The role of a router's `router.use(requireAuth, requireRole(...))`.
abbrev pub router_role : Router → Role
router_role support_router = support
router_role admin_router = admin
router_role super_admin_router = super_admin

abbrev pub router_of : Endpoint → Router
router_of get_dashboard = support_router
router_of list_scrapers = support_router
router_of scraper_status = support_router
router_of list_jobs = support_router
router_of count_jobs = support_router
router_of get_health = support_router
router_of change_user_role = super_admin_router
router_of delete_user = super_admin_router
router_of update_rules = super_admin_router
router_of clear_jobs_cache = super_admin_router
router_of _ = admin_router

-- The arguments of an endpoint's `requirePermission`; clearing the cache of jobs has none.
abbrev pub permission_of : Endpoint → Option (Resource × Action)
permission_of get_dashboard = some (dashboard, read)
permission_of list_scrapers = some (scrapers, read)
permission_of scraper_status = some (scrapers, read)
permission_of list_jobs = some (scrapers, read)
permission_of count_jobs = some (scrapers, read)
permission_of get_health = some (observability, health)
permission_of list_users = some (users, read)
permission_of get_user = some (users, read)
permission_of block_user = some (users, block)
permission_of unblock_user = some (users, unblock)
permission_of reset_user = some (users, reset_password)
permission_of run_scraper = some (scrapers, trigger)
permission_of run_one_scraper = some (scrapers, trigger)
permission_of get_snapshot = some (observability, metrics)
permission_of get_metrics = some (observability, metrics)
permission_of get_dashboards = some (observability, metrics)
permission_of get_audit = some (audit, read)
permission_of list_rules = some (permissions, read)
permission_of change_user_role = some (users, change_role)
permission_of delete_user = some (users, delete)
permission_of update_rules = some (permissions, manage)
permission_of clear_jobs_cache = none

abbrev pub router_eq : Router → Router → Bool
router_eq support_router support_router = true
router_eq admin_router admin_router = true
router_eq super_admin_router super_admin_router = true
router_eq _ _ = false

-- `next()` goes on to what follows, an answer ends the request.
infixl 5 ◌>>◌
abbrev ◌>>◌ : Verdict → Verdict → Verdict
next >> v = v
status n >> v = status n

module _ (rules : Option (List PermissionRule)) (s : Session) where
  abbrev own_guard : Option (Resource × Action) → Verdict
  own_guard none = next
  own_guard (some (r, a)) = require_permission rules r a s

  -- The routers are tried in turn: the guards of a router run before it is known whether one of
  -- its routes matches.
  abbrev through : List Router → Endpoint → Verdict
  through [] e = status 404
  through (router ∷ routers) e =
      let rest = through routers e in
      require_auth s
      >> (require_role (router_role router) s
          >> (if router_eq (router_of e) router then own_guard (permission_of e) else rest))

  -- `next` means that the endpoint's handler runs.
  unfoldable pub admin_gate : Endpoint → Verdict
  unfolding require_auth require_role require_permission
  admin_gate e = through (support_router ∷ admin_router ∷ super_admin_router ∷ []) e
