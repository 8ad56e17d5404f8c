-- ===== src/Access/Tests.antt =====
-- The access rules at concrete sessions, rows and inputs.
use jobs_scraper_global.Prelude.{◌≡◌, refl, ◌↔◌, true, none, some, List, [], ◌∷◌}
use jobs_scraper_global.Access.Matrix.{
  Role, user, support, admin, super_admin, Resource, users, scrapers, permissions, Action, read,
  block, change_role, trigger, manage, permission_matrix,
}
use jobs_scraper_global.Access.Rules.{
  PermissionRule, UpdateInput, get_effective_matrix, can, check_rules, update_rules, refused,
  immutable_rule,
}
use jobs_scraper_global.Access.Gate.{Session, next, status, block_user, admin_gate}
use jobs_scraper_global.Access.RuleLaws.{update_many, update_many-immutable}
use jobs_scraper_global.Access.RuleViews.{HasUniqueKeys, expected_role, update_rules-roles}
use jobs_scraper_global.Access.GateLaws.{IsAdmitted, admin_gate_iff}

abbrev rule : Resource → Action → Role → PermissionRule
rule r a m = record { resource = r; action = a; min_role = m; reason = some "why" }

-- A request without a reason.
abbrev ask : Resource → Action → Role → UpdateInput
ask r a m = record { resource = r; action = a; min_role = m; reason = none }

-- Supporters may block users; triggering a scraper takes a super administrator.
abbrev rows : List PermissionRule
rows = rule users block support ∷ rule scrapers trigger super_admin ∷ []

abbrev signed_in : Role → Session
signed_in r = record { user_id = some "u1"; role = some r }

abbrev in_order : List UpdateInput → List UpdateInput
in_order inputs = inputs

-- The rules let a supporter block users, the router does not.
supporter_blocks : can (some rows) support users block ≡ true
unfolding can get_effective_matrix
supporter_blocks = refl

supporter_stopped : admin_gate (some rows) (signed_in support) block_user ≡ status 403
unfolding admin_gate
supporter_stopped = refl

admin_passes : admin_gate (some rows) (signed_in admin) block_user ≡ next
unfolding admin_gate can
admin_passes = refl

manage_refused :
    update_rules in_order (ask users read admin ∷ ask permissions manage user ∷ []) rows
    ≡ (refused (immutable_rule permissions manage), rows)
unfolding update_rules
manage_refused = refl

admin_gate_iff_example :
    (admin_gate (some rows) (signed_in admin) block_user ≡ next)
    ↔ IsAdmitted (some rows) (signed_in admin) block_user
admin_gate_iff_example = admin_gate_iff (some rows) (signed_in admin) block_user

super_changes :
    can
      (some (update_many in_order ((ask users read user ∷ []) ∷ []) rows))
      super_admin
      users
      change_role
    ≡ true
unfolding can update_many update_rules
super_changes = refl

update_many-immutable_example : super_admin ≡ super_admin
update_many-immutable_example =
    update_many-immutable in_order (λ P inputs h. h) ((ask users read user ∷ []) ∷ []) rows
      super_admin users change_role (refl, (refl, tt)) refl super_changes

two_inputs : check_rules (ask users block admin ∷ ask users block super_admin ∷ []) ≡ none
unfolding check_rules
two_inputs = refl

abbrev inputs : List UpdateInput
inputs = ask users block admin ∷ ask users block super_admin ∷ []

-- The old reason stays, and a new row has none.
reasons :
    (update_rules in_order (ask users read admin ∷ ask users block admin ∷ []) rows).1
    ≡ rule users block admin
      ∷ rule scrapers trigger super_admin
      ∷ record (rule users read admin) { reason = none }
      ∷ []
unfolding update_rules
reasons = refl

update_rules-roles_example :
    HasUniqueKeys (update_rules in_order inputs rows).1
    × ((r : Resource) (a : Action) (d : Role)
        → permission_matrix r a ≡ some d
        → get_effective_matrix (update_rules in_order inputs rows).1 r a
          ≡ some (expected_role inputs rows r a d))
update_rules-roles_example = update_rules-roles in_order inputs rows two_inputs (refl, (refl, tt))
