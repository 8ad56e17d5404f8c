-- ===== src/Access/RuleLaws.antt =====
-- What the rules table can and cannot change.
use jobs_scraper_global.Prelude.{
  ◌≡◌, refl, ◌∙◌, ap, ◌≤◌, true, false, Option, none, some, List, [], ◌∷◌, arith, Option-cases, inl,
  inr, All,
}
use jobs_scraper_global.Access.Matrix.{
  Role, super_admin, role_level, Resource, Action, resource_eq_iff, action_eq_iff, PermissionMatrix,
  permission_matrix,
}
use jobs_scraper_global.Access.Rules.{
  PermissionRule, UpdateInput, override, min_role_of, overwrite, overwrite_all,
  get_effective_matrix, allows, can, is_immutable, check_rules, upsert, upsert_all, update_rules,
}

pub overwrite_all-override :
    (m : PermissionMatrix) (rules : List PermissionRule) (r : Resource) (a : Action) (d : Role)
    → m r a ≡ some d
    → overwrite_all m rules r a ≡ some (min_role_of (override rules r a) d)
overwrite_all-override m [] r a d h = h
overwrite_all-override m (rule ∷ rules) r a d h = ground (
  arith,
  overwrite_all-override (overwrite m rule) rules r a d,
  overwrite_all-override (overwrite m rule) rules r a rule.min_role,
)

overwrite_all-none :
    (m : PermissionMatrix) (rules : List PermissionRule) (r : Resource) (a : Action)
    → m r a ≡ none
    → overwrite_all m rules r a ≡ none
overwrite_all-none m [] r a h = h
overwrite_all-none m (rule ∷ rules) r a h =
    overwrite_all-none (overwrite m rule) rules r a (ground arith)

-- An action that the default matrix does not name is refused to every role, whatever the rules.
pub can-unknown :
    (rules : Option (List PermissionRule)) (role : Role) (r : Resource) (a : Action)
    → permission_matrix r a ≡ none
    → can rules role r a ≡ false
unfolding can
can-unknown none role r a h = rw h
can-unknown (some rules) role r a h = rw (overwrite_all-none permission_matrix rules r a h)

allows_mono :
    (min : Option Role) (low high : Role)
    → role_level low ≤ role_level high
    → allows min low ≡ true
    → allows min high ≡ true
allows_mono none low high h k = k
allows_mono (some min) low high h k = ground arith

-- What a role may do, every higher role may do, under any rules and when they cannot be read.
pub can_mono :
    (rules : Option (List PermissionRule)) (low high : Role) (r : Resource) (a : Action)
    → role_level low ≤ role_level high
    → can rules low r a ≡ true
    → can rules high r a ≡ true
unfolding can
can_mono none low high r a h k = allows_mono (permission_matrix r a) low high h k
can_mono (some rules) low high r a h k = allows_mono (get_effective_matrix rules r a) low high h k

-- No row names an immutable rule.
abbrev pub HasNoImmutable : List PermissionRule → Type 0
HasNoImmutable rules = All (λ rule. is_immutable rule.resource rule.action ≡ false) rules

-- No input names an immutable rule.
abbrev AreMutable : List UpdateInput → Type 0
AreMutable inputs = All (λ input. is_immutable input.resource input.action ≡ false) inputs

upsert-HasNoImmutable :
    (input : UpdateInput) (rules : List PermissionRule)
    → is_immutable input.resource input.action ≡ false
    → HasNoImmutable rules
    → HasNoImmutable (upsert input rules)
upsert-HasNoImmutable input [] i h = (i, tt)
upsert-HasNoImmutable input (rule ∷ rules) i (h, hs) =
    ground (arith, upsert-HasNoImmutable input rules i hs)

upsert_all-HasNoImmutable :
    (inputs : List UpdateInput) (rules : List PermissionRule)
    → AreMutable inputs
    → HasNoImmutable rules
    → HasNoImmutable (upsert_all inputs rules)
upsert_all-HasNoImmutable [] rules is h = h
upsert_all-HasNoImmutable (input ∷ inputs) rules (i, is) h =
    upsert_all-HasNoImmutable inputs (upsert input rules) is (upsert-HasNoImmutable input rules i h)

-- Inputs that pass the check are known and mutable.
pub check_rules-AreMutable :
    (inputs : List UpdateInput) → check_rules inputs ≡ none → AreMutable inputs
unfolding check_rules
check_rules-AreMutable [] h = tt
check_rules-AreMutable (input ∷ inputs) h =
    (ground arith, check_rules-AreMutable inputs (ground arith))

override-immutable :
    (rules : List PermissionRule) (r : Resource) (a : Action)
    → HasNoImmutable rules
    → is_immutable r a ≡ true
    → override rules r a ≡ none
override-immutable [] r a h i = refl
override-immutable (rule ∷ rules) r a (h, hs) i = ground (
  arith,
  override-immutable rules r a hs i,
  resource_eq_iff rule.resource r,
  action_eq_iff rule.action a,
)

module _ (order : List UpdateInput → List UpdateInput) where
  -- Any number of calls of `updateRules`.
  unfoldable pub update_many : List (List UpdateInput) → List PermissionRule → List PermissionRule
  update_many [] rules = rules
  update_many (inputs ∷ calls) rules = update_many calls (update_rules order inputs rules).1

-- `order` lists the inputs in another order.
module _ (order : List UpdateInput → List UpdateInput)
    (order_All : (P : UpdateInput → Type 0) (inputs : List UpdateInput)
      → All P inputs
      → All P (order inputs)) where
  update_rules-HasNoImmutable :
      (inputs : List UpdateInput) (rules : List PermissionRule)
      → HasNoImmutable rules
      → HasNoImmutable (update_rules order inputs rules).1
  unfolding update_rules
  update_rules-HasNoImmutable inputs rules h = elim (Option-cases (check_rules inputs)) [
    | inl fine ↦
        rw (fine, update_rules)
          (upsert_all-HasNoImmutable (order inputs) rules
            (order_All (λ input. is_immutable input.resource input.action ≡ false) inputs
              (check_rules-AreMutable inputs fine))
            h)
    | inr (e, bad) ↦ rw (bad, update_rules) h
  ]

  update_many-HasNoImmutable :
      (calls : List (List UpdateInput)) (rules : List PermissionRule)
      → HasNoImmutable rules
      → HasNoImmutable (update_many order calls rules)
  unfolding update_many
  update_many-HasNoImmutable [] rules h = h
  update_many-HasNoImmutable (inputs ∷ calls) rules h =
      update_many-HasNoImmutable calls _ (update_rules-HasNoImmutable inputs rules h)

  -- From a table without immutable rules, no calls of `updateRules`, accepted or refused, let a role
  -- below `super_admin` manage permissions, change roles or delete users, provided that in the order
  -- of their arrival the inputs have whatever they all had.
  pub update_many-immutable :
      (calls : List (List UpdateInput)) (rules : List PermissionRule) (role : Role) (r : Resource)
      (a : Action)
      → HasNoImmutable rules
      → is_immutable r a ≡ true
      → can (some (update_many order calls rules)) role r a ≡ true
      → role ≡ super_admin
  unfolding can
  update_many-immutable calls rules role r a h i allowed =
      let none_there =
        override-immutable (update_many order calls rules) r a
          (update_many-HasNoImmutable calls rules h) i in
      let kept : get_effective_matrix (update_many order calls rules) r a ≡ some super_admin =
        unfold get_effective_matrix in
        overwrite_all-override permission_matrix (update_many order calls rules) r a super_admin
          (default_immutable r a i)
        ∙ ap (λ o. some (min_role_of o super_admin)) none_there in
      only_super role (rw kept at allowed)
    where
      default_immutable :
          (r : Resource) (a : Action)
          → is_immutable r a ≡ true
          → permission_matrix r a ≡ some super_admin
      default_immutable r a i = ground arith

      only_super : (role : Role) → allows (some super_admin) role ≡ true → role ≡ super_admin
      only_super role k = ground arith
