-- ===== src/Access/Rules.antt =====
-- backend/src/modules/admin/permissions/permissions.service.ts over the table
-- `permission_rules` of backend/src/db/schema/permissionRules.ts.
use jobs_scraper_global.Prelude.{
  String, Bool, true, false, ◌&&◌, Option, none, some, List, [], ◌∷◌, map, leb, if◌then◌else◌,
  is_some, or_else,
}
use jobs_scraper_global.Access.Matrix.{
  Role, role_level, Resource, users, permissions, Action, delete, change_role, manage, resource_eq,
  action_eq, PermissionMatrix, permission_matrix, entries,
}

-- A row of `permission_rules`; the primary key is the pair of resource and action.
pub record PermissionRule : Type 0 where
  pub resource : Resource
  pub action : Action
  pub min_role : Role
  pub reason : Option String

-- `UpdatePermissionRuleInput`; `none` is a reason that is left out, `some none` one that is null.
pub record UpdateInput : Type 0 where
  pub resource : Resource
  pub action : Action
  pub min_role : Role
  pub reason : Option (Option String)

-- The row that is inserted: a column without a value is null.
abbrev pub row_of : UpdateInput → PermissionRule
row_of input = record {
  resource = input.resource;
  action = input.action;
  min_role = input.min_role;
  reason = or_else input.reason none;
}

-- The row that the update makes of an old one: drizzle leaves a column without a value as it is.
abbrev pub updated_row : UpdateInput → PermissionRule → PermissionRule
updated_row input old = record old {
  min_role = input.min_role;
  reason = or_else input.reason old.reason;
}

pub record PermissionRuleView : Type 0 where
  pub resource : Resource
  pub action : Action
  pub default_min_role : Role
  pub min_role : Role
  pub customized : Bool
  pub reason : Option String

abbrev pub same_key : Resource → Action → PermissionRule → Bool
same_key r a rule = resource_eq rule.resource r && action_eq rule.action a

-- `overrideMap.get(...)`: the last row with the key.
abbrev pub override : List PermissionRule → Resource → Action → Option PermissionRule
override [] r a = none
override (rule ∷ rules) r a =
    let later = override rules r a in
    elim later [ some x ↦ some x | none ↦ if same_key r a rule then some rule else none ]

abbrev pub min_role_of : Option PermissionRule → Role → Role
min_role_of none d = d
min_role_of (some rule) d = rule.min_role

abbrev pub reason_of : Option PermissionRule → Option String
reason_of none = none
reason_of (some rule) = rule.reason

unfoldable pub view : List PermissionRule → Resource × Action × Role → PermissionRuleView
view rules (r, a, d) = record {
  resource = r;
  action = a;
  default_min_role = d;
  min_role = min_role_of (override rules r a) d;
  customized = is_some (override rules r a);
  reason = reason_of (override rules r a);
}

unfoldable pub get_rules : List PermissionRule → List PermissionRuleView
unfolding view
get_rules rules = map (view rules) entries

-- One round of the loop of `getEffectiveMatrix`: only an entry that is there is overwritten.
abbrev pub overwrite : PermissionMatrix → PermissionRule → PermissionMatrix
overwrite m rule r a = if same_key r a rule && is_some (m r a) then some rule.min_role else m r a

abbrev pub overwrite_all : PermissionMatrix → List PermissionRule → PermissionMatrix
overwrite_all m [] = m
overwrite_all m (rule ∷ rules) = overwrite_all (overwrite m rule) rules

unfoldable pub get_effective_matrix : List PermissionRule → PermissionMatrix
get_effective_matrix rules = overwrite_all permission_matrix rules

abbrev pub allows : Option Role → Role → Bool
allows none role = false
allows (some min) role = leb (role_level min) (role_level role)

-- `can`; `none` stands for a query that fails, after which the defaults are used.
unfoldable pub can : Option (List PermissionRule) → Role → Resource → Action → Bool
unfolding get_effective_matrix
can none role r a = allows (permission_matrix r a) role
can (some rules) role r a = allows (get_effective_matrix rules r a) role

-- `IMMUTABLE_RULES`.
abbrev pub is_immutable : Resource → Action → Bool
is_immutable permissions manage = true
is_immutable users change_role = true
is_immutable users delete = true
is_immutable _ _ = false

pub data RuleError : Type 0 where
  unknown_rule immutable_rule : Resource → Action → RuleError

-- `assertRuleCanBeUpdated`: the error that it throws, if any.
unfoldable pub check_rule : UpdateInput → Option RuleError
check_rule input =
    if is_some (permission_matrix input.resource input.action)
    then (if is_immutable input.resource input.action
        then some (immutable_rule input.resource input.action)
        else none)
    else some (unknown_rule input.resource input.action)

-- The loop over the inputs: the first error.
unfoldable pub check_rules : List UpdateInput → Option RuleError
unfolding check_rule
check_rules [] = none
check_rules (input ∷ inputs) =
    let rest = check_rules inputs in elim (check_rule input) [ none ↦ rest | some e ↦ some e ]

-- `insert ... onConflictDoUpdate` on the primary key.
abbrev pub upsert : UpdateInput → List PermissionRule → List PermissionRule
upsert input [] = row_of input ∷ []
upsert input (rule ∷ rules) =
    let rest = upsert input rules in
    if same_key input.resource input.action rule
    then updated_row input rule ∷ rules
    else rule ∷ rest

abbrev pub upsert_all : List UpdateInput → List PermissionRule → List PermissionRule
upsert_all [] rules = rules
upsert_all (input ∷ inputs) rules = upsert_all inputs (upsert input rules)

pub data UpdateResult : Type 0 where
  updated : List PermissionRuleView → UpdateResult
  refused : RuleError → UpdateResult

-- `updateRules`. The statements run concurrently: `order` is the order in which they reach the
-- table.
module _ (order : List UpdateInput → List UpdateInput) where
  unfoldable pub update_rules :
      List UpdateInput → List PermissionRule → UpdateResult × List PermissionRule
  unfolding check_rules get_rules
  update_rules inputs rules =
      let rules' = upsert_all (order inputs) rules in
      elim (check_rules inputs) [
        | some e ↦ (refused e, rules)
        | none ↦ (updated (get_rules rules'), rules')
      ]
