-- ===== src/Access/GateLaws.antt =====
-- Which requests reach the handlers of the administration.
use jobs_scraper_global.Prelude.{
  ◌≡◌, ◌↔◌, ◌≤◌, true, Option, none, some, List, arith, Option-cases, inl, inr,
}
use jobs_scraper_global.Access.Matrix.{Role, role_level, Resource, Action}
use jobs_scraper_global.Access.Rules.{PermissionRule, can}
use jobs_scraper_global.Access.Gate.{
  Session, next, get_dashboard, clear_jobs_cache, has_user, Endpoint, router_role, router_of,
  permission_of, admin_gate,
}

-- The rules allow the role what the endpoint asks for.
abbrev pub IsPermitted : Option (List PermissionRule) → Role → Option (Resource × Action) → Type 0
IsPermitted rules role none = Unit
IsPermitted rules role (some (r, a)) = can rules role r a ≡ true

-- The session is signed in with a role that the endpoint's router and the rules accept.
abbrev pub IsAdmitted : Option (List PermissionRule) → Session → Endpoint → Type 0
IsAdmitted rules s e =
    (role : Role) × (s.role ≡ some role)
    × (has_user s.user_id ≡ true)
    × (role_level (router_role (router_of e)) ≤ role_level role)
    × IsPermitted rules role (permission_of e)

module _ (rules : Option (List PermissionRule)) where
  unsigned : (s : Session) (e : Endpoint) → s.role ≡ none → admin_gate rules s e ≡ next → ⊥
  unfolding admin_gate
  unsigned s e none_role h = ground arith

  sound :
      (s : Session) (role : Role) (e : Endpoint)
      → s.role ≡ some role
      → admin_gate rules s e ≡ next
      → (has_user s.user_id ≡ true)
        × (role_level (router_role (router_of e)) ≤ role_level role)
        × IsPermitted rules role (permission_of e)
  unfolding admin_gate
  sound s role get_dashboard r h = (ground arith, ground arith, ground arith)
  sound s role clear_jobs_cache r h = (ground arith, ground arith, tt)
  sound s role e r h = (ground arith, ground arith, ground arith)

  complete :
      (s : Session) (role : Role) (e : Endpoint)
      → s.role ≡ some role
      → has_user s.user_id ≡ true
      → role_level (router_role (router_of e)) ≤ role_level role
      → IsPermitted rules role (permission_of e)
      → admin_gate rules s e ≡ next
  unfolding admin_gate
  complete s role get_dashboard r u l p = ground arith
  complete s role e r u l p = ground arith

  -- A handler of the administration runs exactly when the session is signed in, its role is at least
  -- that of the router that holds the endpoint, and the rules allow it what the endpoint asks for.
  pub admin_gate_iff :
      (s : Session) (e : Endpoint) → (admin_gate rules s e ≡ next) ↔ IsAdmitted rules s e
  admin_gate_iff s e = (
    λ h. elim (Option-cases s.role) [
      | inl none_role ↦ absurd (unsigned s e none_role h)
      | inr (role, r) ↦ let (u, l, p) = sound s role e r h in (role, r, u, l, p)
    ],
    λ a. let (role, r, u, l, p) = a in complete s role e r u l p,
  )
