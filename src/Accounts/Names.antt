-- ===== src/Accounts/Names.antt =====
-- The user name that `generateUsername` chooses, and the sign-in whose user name is taken.
use jobs_scraper_global.Prelude.{
  ℕ, zero, suc, ◌+◌, String, ◌≡◌, refl, ◌⊎◌, inl, inr, Bool, true, false, Option, none, some, List,
  ◌∷◌, [], any, find?, or_text, Bool-cases, ◌||◌,
}
use jobs_scraper_global.Errors.{sqlstate}
use jobs_scraper_global.Exec.{ok, err}
use jobs_scraper_global.Accounts.Store.{
  User, Db, same_text, statement, is_account, clashes, insert_user, begin, abort,
  in_new_transaction,
}
use jobs_scraper_global.Accounts.Users.{
  OAuthProfile, Texts, truthy, has_username, attempt, first_free, chosen_username,
  find_user_by_provider, find_user_by_email, username_of, or_existing, CreateUserParams, user_of,
  create_params, create_user, find_or_create_user,
}

-- The attempts from `i` on are all in use.
abbrev pub AllTaken : List User → String → ℕ → ℕ → Type 0
AllTaken users base zero i = Unit
AllTaken users base (suc left) i =
    (any (has_username (attempt base i)) users ≡ true) × AllTaken users base left (i + 1)

first_free-cases :
    (users : List User) (base fallback : String) (left i : ℕ)
    → (any (has_username (first_free users base fallback left i)) users ≡ false)
      ⊎ ((first_free users base fallback left i ≡ fallback) × AllTaken users base left i)
unfolding first_free
first_free-cases users base fallback zero i = inr (refl, tt)
first_free-cases users base fallback (suc left) i =
    elim (Bool-cases (any (has_username (attempt base i)) users)) [
      | inr free ↦ inl (rw (free, free) refl)
      | inl taken ↦ elim (first_free-cases users base fallback left (i + 1)) [
        | inl free ↦ inl (rw (taken, free) refl)
        | inr (e, all) ↦ inr (rw taken e, (taken, all))
      ]
    ]

-- The user name that is chosen is free, unless the name and the name with each of 1 to 20 are all
-- taken; it is then the name with the random number, free or not.
pub chosen_username-free :
    (normalized : String) (random : ℕ) (users : List User)
    → (any (has_username (chosen_username normalized random users)) users ≡ false)
      ⊎ ((chosen_username normalized random users ≡ attempt (or_text normalized "user") random)
          × (any (has_username (or_text normalized "user")) users ≡ true)
          × AllTaken users (or_text normalized "user") 20 1)
unfolding chosen_username
chosen_username-free normalized random users =
    let base = or_text normalized "user" in
    elim (Bool-cases (any (has_username base) users)) [
      | inr free ↦ inl (rw (free, free) refl)
      | inl taken ↦ elim (first_free-cases users base (attempt base random) 20 1) [
        | inl free ↦ inl (rw (taken, free) refl)
        | inr (e, all) ↦ inr (rw taken e, taken, all)
      ]
    ]

any-clashes :
    (u : User) (name : String) (users : List User)
    → u.username ≡ some name
    → any (has_username name) users ≡ true
    → any (clashes u) users ≡ true
any-clashes u name [] e h = h
any-clashes u name (v ∷ users) e h = rw e (
    join (same_text v.username (some name)) (same_text v.email_hash u.email_hash) _ _ h
      (λ k. any-clashes u name users e k))
  where
    join : (a b c d : Bool) → (a || c) ≡ true → (c ≡ true → d ≡ true) → ((a || b) || d) ≡ true
    join true b c d h k = refl
    join false true c d h k = refl
    join false false c d h k = k h

module _ (texts : Texts) (uuid : ℕ → String) (random : ℕ) where
  insert_user-clash :
      (profile : CreateUserParams) (u : User) (db : Db)
      → db.aborted ≡ false
      → any (clashes u) db.users ≡ true
      → or_existing texts uuid random profile (insert_user u db)
        ≡ (err (sqlstate "23505"), abort db)
  unfolding insert_user statement
  insert_user-clash profile u db a taken = rw (a, taken) refl

  given :
      (profile : CreateUserParams) (o : Option String) (name : String) (db : Db)
      → o ≡ some name
      → username_of texts uuid random profile o db ≡ (ok name, db)
  given profile o name db h = rw h refl

  create_user-taken :
      (profile : CreateUserParams) (name : String) (db : Db)
      → db.aborted ≡ false
      → profile.username ≡ some name
      → any (has_username name) db.users ≡ true
      → create_user texts uuid random profile db ≡ (err (sqlstate "23505"), abort db)
  unfolding create_user
  create_user-taken profile name db a n taken =
      let u = user_of texts uuid random profile name db in
      rw (given profile profile.username name db n)
        (insert_user-clash profile u db a (any-clashes u name db.users refl taken))

  -- A first sign-in with an address that no user has fails when the provider's user name is taken:
  -- the catch does not know the unique violation, whose SQLSTATE is at the cause of drizzle's error,
  -- and throws it on, and nothing is written.
  pub find_or_create_user-taken :
      (provider email name : String) (profile : OAuthProfile) (db : Db)
      → find? (is_account provider profile.id) db.accounts ≡ none
      → truthy profile.email ≡ some email
      → find? (λ u. same_text u.email_hash (some (texts.email_hash email))) db.users ≡ none
      → profile.username ≡ some name
      → any (has_username name) db.users ≡ true
      → find_or_create_user texts uuid random provider profile db ≡ (err (sqlstate "23505"), db)
  unfolding find_or_create_user in_new_transaction find_user_by_provider statement
      find_user_by_email
  find_or_create_user-taken provider email name profile db a e h n taken =
      rw (a, e, h)
        (rw
          (create_user-taken (create_params texts uuid random profile) name (begin db) refl n taken)
          refl)
