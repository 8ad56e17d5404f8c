-- ===== src/Access/RuleViews.antt =====
-- What the administration shows of the rules, and what an update makes of them.
use jobs_scraper_global.Prelude.{
  ◌≡◌, refl, sym, ◌∙◌, ap, Bool, true, false, Option, none, some, List, [], ◌∷◌, map, arith,
  if◌then◌else◌, Option-cases, Bool-cases, inl, inr, All,
}
use jobs_scraper_global.Access.Matrix.{
  Role, Resource, Action, resource_eq_iff, action_eq_iff, permission_matrix, entries,
}
use jobs_scraper_global.Access.Rules.{
  PermissionRule, UpdateInput, row_of, updated_row, PermissionRuleView, same_key, override,
  min_role_of, view, get_rules, get_effective_matrix, check_rules, upsert, upsert_all, update_rules,
}
use jobs_scraper_global.Access.RuleLaws.{overwrite_all-override}

-- An entry is one of the default matrix.
abbrev IsEntry : Resource × Action × Role → Type 0
IsEntry (r, a, d) = permission_matrix r a ≡ some d

-- What is shown for an entry is what is enforced.
abbrev pub IsEnforced : List PermissionRule → PermissionRuleView → Type 0
IsEnforced rules v = get_effective_matrix rules v.resource v.action ≡ some v.min_role

views-IsEnforced :
    (rules : List PermissionRule) (es : List (Resource × Action × Role))
    → All IsEntry es
    → All (IsEnforced rules) (map (view rules) es)
unfolding view get_effective_matrix
views-IsEnforced rules [] h = tt
views-IsEnforced rules ((r, a, d) ∷ es) (h, hs) =
    (overwrite_all-override permission_matrix rules r a d h, views-IsEnforced rules es hs)

-- For every rule that `getRules` shows, the least role that it shows is the one that
-- `getEffectiveMatrix` gives for the action.
pub get_rules-IsEnforced : (rules : List PermissionRule) → All (IsEnforced rules) (get_rules rules)
unfolding get_rules
get_rules-IsEnforced rules = views-IsEnforced rules entries (
  refl,
  (
    refl,
    (
      refl,
      (refl, (refl, (refl, (refl, (refl, (refl, (refl, (refl, (refl, (refl, (refl, tt))))))))))),
    ),
  ),
)

-- The rows have different keys, as the primary key demands.
abbrev pub HasUniqueKeys : List PermissionRule → Type 0
HasUniqueKeys [] = Unit
HasUniqueKeys (rule ∷ rules) =
    (override rules rule.resource rule.action ≡ none) × HasUniqueKeys rules

-- The last input that names the action, or what there was.
abbrev pub or_old : Option PermissionRule → Option PermissionRule → Option PermissionRule
or_old none old = old
or_old (some rule) old = some rule

same_key-same :
    (x y : PermissionRule) (r : Resource) (a : Action)
    → same_key y.resource y.action x ≡ true
    → same_key r a x ≡ same_key r a y
same_key-same x y r a h =
    ground (arith, resource_eq_iff x.resource y.resource, action_eq_iff x.action y.action)

override-same :
    (rules : List PermissionRule) (x : PermissionRule) (r : Resource) (a : Action)
    → same_key r a x ≡ true
    → override rules r a ≡ override rules x.resource x.action
override-same rules x r a h = ground (arith, resource_eq_iff x.resource r, action_eq_iff x.action a)

override-miss :
    (rules : List PermissionRule) (x : PermissionRule) (r : Resource) (a : Action)
    → same_key r a x ≡ false
    → override (x ∷ rules) r a ≡ override rules r a
override-miss rules x r a h = elim (Option-cases (override rules r a)) [
  | inl n ↦ rw (n, h) refl
  | inr (z, e) ↦ rw e refl
]

override-hit :
    (rules : List PermissionRule) (x : PermissionRule) (r : Resource) (a : Action)
    → override rules r a ≡ none
    → same_key r a x ≡ true
    → override (x ∷ rules) r a ≡ some x
override-hit rules x r a n h = rw (n, h) refl

-- What an input makes of the row with its key, if there is one.
abbrev merged : UpdateInput → Option PermissionRule → PermissionRule
merged input none = row_of input
merged input (some old) = updated_row input old

same_key-other :
    (input : UpdateInput) (rule : PermissionRule) (r : Resource) (a : Action)
    → same_key input.resource input.action rule ≡ false
    → same_key r a (row_of input) ≡ true
    → same_key r a rule ≡ false
same_key-other input rule r a h k = ground (
  arith,
  resource_eq_iff input.resource r,
  action_eq_iff input.action a,
  resource_eq_iff rule.resource r,
  action_eq_iff rule.action a,
  resource_eq_iff rule.resource input.resource,
  action_eq_iff rule.action input.action,
)

-- An input changes the row with its key and leaves the others.
override-upsert :
    (input : UpdateInput) (rules : List PermissionRule) (r : Resource) (a : Action)
    → HasUniqueKeys rules
    → override (upsert input rules) r a ≡ (
        if same_key r a (row_of input)
        then some (merged input (override rules r a))
        else override rules r a)
override-upsert input [] r a u = refl
override-upsert input (rule ∷ rules) r a (n, u) =
    elim (Bool-cases (same_key input.resource input.action rule)) [
      | inl e ↦ rw (e, sym (same_key-same rule (row_of input) r a e)) (changed e)
      | inr e ↦ elim (Bool-cases (same_key r a (row_of input))) [
        | inl k ↦
            rw (e, override-upsert input rules r a u, k)
              (ap (λ o. some (merged input o))
                (sym (override-miss rules rule r a (same_key-other input rule r a e k))))
        | inr k ↦ rw (e, override-upsert input rules r a u, k) refl
      ]
    ]
  where
    changed :
        same_key input.resource input.action rule ≡ true
        → override (updated_row input rule ∷ rules) r a ≡ (
            if same_key r a rule
            then some (merged input (override (rule ∷ rules) r a))
            else override (rule ∷ rules) r a)
    changed e = elim (Bool-cases (same_key r a rule)) [
      | inl k ↦
          let gone = override-same rules rule r a k ∙ n in
          rw (k, override-hit rules rule r a gone k)
            (override-hit rules (updated_row input rule) r a gone k)
      | inr k ↦
          rw (k, override-miss rules rule r a k)
            (override-miss rules (updated_row input rule) r a k)
    ]

upsert-HasUniqueKeys :
    (input : UpdateInput) (rules : List PermissionRule)
    → HasUniqueKeys rules
    → HasUniqueKeys (upsert input rules)
upsert-HasUniqueKeys input [] u = (refl, tt)
upsert-HasUniqueKeys input (rule ∷ rules) (n, u) =
    elim (Bool-cases (same_key input.resource input.action rule)) [
      | inl e ↦ rw e (n, u)
      | inr e ↦ rw e (fresh e, upsert-HasUniqueKeys input rules u)
    ]
  where
    swap :
        (x y : PermissionRule)
        → same_key y.resource y.action x ≡ false
        → same_key x.resource x.action y ≡ false
    swap x y h = ground (
      arith,
      resource_eq_iff x.resource y.resource,
      action_eq_iff x.action y.action,
      resource_eq_iff y.resource x.resource,
      action_eq_iff y.action x.action,
    )

    fresh :
        same_key input.resource input.action rule ≡ false
        → override (upsert input rules) rule.resource rule.action ≡ none
    fresh e =
        rw (override-upsert input rules rule.resource rule.action u, swap rule (row_of input) e) n

-- What the inputs make, one after the other, of the row with a key.
abbrev after : List UpdateInput → Resource → Action → Option PermissionRule → Option PermissionRule
after [] r a old = old
after (input ∷ inputs) r a old =
    after inputs r a (if same_key r a (row_of input) then some (merged input old) else old)

override-upsert_all :
    (inputs : List UpdateInput) (rules : List PermissionRule) (r : Resource) (a : Action)
    → HasUniqueKeys rules
    → override (upsert_all inputs rules) r a ≡ after inputs r a (override rules r a)
override-upsert_all [] rules r a u = refl
override-upsert_all (input ∷ inputs) rules r a u =
    override-upsert_all inputs (upsert input rules) r a (upsert-HasUniqueKeys input rules u)
    ∙ ap (after inputs r a) (override-upsert input rules r a u)

upsert_all-HasUniqueKeys :
    (inputs : List UpdateInput) (rules : List PermissionRule)
    → HasUniqueKeys rules
    → HasUniqueKeys (upsert_all inputs rules)
upsert_all-HasUniqueKeys [] rules u = u
upsert_all-HasUniqueKeys (input ∷ inputs) rules u =
    upsert_all-HasUniqueKeys inputs (upsert input rules) (upsert-HasUniqueKeys input rules u)

-- The role of the last input that names the action, else that of its row, else the default.
abbrev pub expected_role : List UpdateInput → List PermissionRule → Resource → Action → Role → Role
expected_role inputs rules r a d =
    min_role_of (or_old (override (map row_of inputs) r a) (override rules r a)) d

after-role :
    (inputs : List UpdateInput) (r : Resource) (a : Action) (old : Option PermissionRule) (d : Role)
    → min_role_of (after inputs r a old) d
      ≡ min_role_of (or_old (override (map row_of inputs) r a) old) d
after-role [] r a old d = refl
after-role (input ∷ inputs) r a old d =
    after-role inputs r a _ d
    ∙ last (same_key r a (row_of input)) (override (map row_of inputs) r a)
  where
    changed_role : (o : Option PermissionRule) → (merged input o).min_role ≡ input.min_role
    changed_role none = refl
    changed_role (some x) = refl

    last :
        (b : Bool) (o : Option PermissionRule)
        → min_role_of (or_old o (if b then some (merged input old) else old)) d
          ≡ min_role_of
              (or_old
                (elim o [ some x ↦ some x | none ↦ if b then some (row_of input) else none ])
                old)
              d
    last true none = changed_role old
    last false none = refl
    last b (some x) = refl

module _ (order : List UpdateInput → List UpdateInput) where
  -- After an accepted `updateRules` on rows with different keys, the rows still have different keys,
  -- and the role that is enforced for each action of the default matrix is that of the last input for
  -- it, in the order in which the statements reach the table; without one, that of its row before;
  -- without a row, the default.
  pub update_rules-roles :
      (inputs : List UpdateInput) (rules : List PermissionRule)
      → check_rules inputs ≡ none
      → HasUniqueKeys rules
      → HasUniqueKeys (update_rules order inputs rules).1
        × ((r : Resource) (a : Action) (d : Role)
            → permission_matrix r a ≡ some d
            → get_effective_matrix (update_rules order inputs rules).1 r a
              ≡ some (expected_role (order inputs) rules r a d))
  unfolding update_rules get_effective_matrix
  update_rules-roles inputs rules fine u =
      rw (fine, update_rules)
        (
          upsert_all-HasUniqueKeys (order inputs) rules u,
          λ r a d h.
              overwrite_all-override permission_matrix (upsert_all (order inputs) rules) r a d h
              ∙ ap (λ o. some (min_role_of o d)) (override-upsert_all (order inputs) rules r a u)
              ∙ ap some (after-role (order inputs) r a (override rules r a) d),
        )
