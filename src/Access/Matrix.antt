-- ===== src/Access/Matrix.antt =====
-- backend/src/modules/admin/permissions/{roles,permissionMatrix}.ts.
use jobs_scraper_global.Prelude.{
  ℕ, Bool, true, false, Option, none, some, List, [], ◌∷◌, leb, ◌≡◌, ◌↔◌, arith,
}

-- `Role`.
pub data Role : Type 0 where
  user support admin super_admin : Role

-- `ROLE_LEVEL`.
abbrev pub role_level : Role → ℕ
role_level user = 0
role_level support = 1
role_level admin = 2
role_level super_admin = 3

-- `hasMinRole`.
abbrev pub has_min_role : Role → Role → Bool
has_min_role role min = leb (role_level min) (role_level role)

pub data Resource : Type 0 where
  users scrapers dashboard observability audit permissions : Resource

pub data Action : Type 0 where
  read block unblock delete reset_password change_role trigger health metrics manage : Action

abbrev pub resource_eq : Resource → Resource → Bool
resource_eq users users = true
resource_eq scrapers scrapers = true
resource_eq dashboard dashboard = true
resource_eq observability observability = true
resource_eq audit audit = true
resource_eq permissions permissions = true
resource_eq _ _ = false

abbrev pub action_eq : Action → Action → Bool
action_eq read read = true
action_eq block block = true
action_eq unblock unblock = true
action_eq delete delete = true
action_eq reset_password reset_password = true
action_eq change_role change_role = true
action_eq trigger trigger = true
action_eq health health = true
action_eq metrics metrics = true
action_eq manage manage = true
action_eq _ _ = false

pub resource_eq_iff : (a b : Resource) → (resource_eq a b ≡ true) ↔ (a ≡ b)
resource_eq_iff a b = ground arith

pub action_eq_iff : (a b : Action) → (action_eq a b ≡ true) ↔ (a ≡ b)
action_eq_iff a b = ground arith

-- `PermissionMatrix`: the least role for an action on a resource, if there is such an action.
abbrev pub PermissionMatrix : Type 0
PermissionMatrix = Resource → Action → Option Role

abbrev pub permission_matrix : PermissionMatrix
permission_matrix users read = some admin
permission_matrix users block = some admin
permission_matrix users unblock = some admin
permission_matrix users delete = some super_admin
permission_matrix users reset_password = some admin
permission_matrix users change_role = some super_admin
permission_matrix scrapers read = some support
permission_matrix scrapers trigger = some admin
permission_matrix dashboard read = some support
permission_matrix observability health = some support
permission_matrix observability metrics = some admin
permission_matrix audit read = some admin
permission_matrix permissions read = some admin
permission_matrix permissions manage = some super_admin
permission_matrix _ _ = none

-- The entries of the matrix in the order of its text, as `Object.entries` gives them.
abbrev pub entries : List (Resource × Action × Role)
entries =
    (users, read, admin)
    ∷ (users, block, admin)
    ∷ (users, unblock, admin)
    ∷ (users, delete, super_admin)
    ∷ (users, reset_password, admin)
    ∷ (users, change_role, super_admin)
    ∷ (scrapers, read, support)
    ∷ (scrapers, trigger, admin)
    ∷ (dashboard, read, support)
    ∷ (observability, health, support)
    ∷ (observability, metrics, admin)
    ∷ (audit, read, admin)
    ∷ (permissions, read, admin)
    ∷ (permissions, manage, super_admin)
    ∷ []
