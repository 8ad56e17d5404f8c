-- ===== src/Accounts/SignIn.antt =====
-- Signing in at a provider leads to the same user ever after.
use jobs_scraper_global.Prelude.{
  ℕ, String, ◌≡◌, refl, ◌⊎◌, Bool, true, false, Option, none, some, List, [], ◌∷◌, ◌++◌, any, find?,
  arith, eq_iff, eq_refl, Bool-cases, inl, inr, All,
}
use jobs_scraper_global.Errors.{Thrown, sqlstate}
use jobs_scraper_global.Exec.{ok, err}
use jobs_scraper_global.Accounts.Store.{
  User, Account, Db, statement, is_account, has_id, with_account, with_user, insert_account,
  clashes, insert_user,
}
use jobs_scraper_global.Accounts.Users.{
  OAuthProfile, CreateUserParams, Texts, account_of, create_account, find_user_by_email,
  chosen_username, normalize, base_name, generate_username, user_of, username_of, or_existing,
  create_user,
}

module _ {A : Type 0} (p : A → Bool) where
  pub find?-any : (xs : List A) → find? p xs ≡ none → any p xs ≡ false
  find?-any [] h = refl
  find?-any (x ∷ xs) h = ground (arith, find?-any xs)

  pub any-find? : (xs : List A) → any p xs ≡ true → (x : A) × (find? p xs ≡ some x)
  any-find? [] h = ground arith
  any-find? (x ∷ xs) h = elim (Bool-cases (p x)) [
    | inl k ↦ rw k (x, refl)
    | inr k ↦ rw k (any-find? xs (rw k at h))
  ]

  pub find?-append :
      (xs : List A) (x : A) → any p xs ≡ false → p x ≡ true → find? p (xs ++ (x ∷ [])) ≡ some x
  find?-append [] x h k = rw k refl
  find?-append (y ∷ xs) x h k = ground (arith, find?-append xs x)

  pub any-append : (xs : List A) (x : A) → p x ≡ true → any p (xs ++ (x ∷ [])) ≡ true
  any-append [] x k = rw k refl
  any-append (y ∷ xs) x k = ground (arith, any-append xs x k)

-- No two users have the same identifier.
abbrev pub HasUniqueIds : List User → Type 0
HasUniqueIds [] = Unit
HasUniqueIds (u ∷ users) = (any (has_id u.id) users ≡ false) × HasUniqueIds users

pub any-of_find? :
    (p : User → Bool) (users : List User) (u : User)
    → find? p users ≡ some u
    → any (has_id u.id) users ≡ true
any-of_find? p [] u h = ground arith
any-of_find? p (v ∷ users) u h = ground (arith, any-of_find? p users u, eq_refl u.id, eq_refl v.id)

pub find?-id :
    (p : User → Bool) (users : List User) (u : User)
    → HasUniqueIds users
    → find? p users ≡ some u
    → find? (has_id u.id) users ≡ some u
find?-id p [] u q h = ground arith
find?-id p (v ∷ users) u (n, q) h =
    ground (arith, find?-id p users u q, any-of_find? p users u, eq_refl v.id, eq_iff v.id u.id)

-- Identifiers are unique, the next one is not in use, and an account belongs to a user.
pub record IsSound (uuid : ℕ → String) (db : Db) : Type 0 where
  pub unique_ids : HasUniqueIds db.users
  pub fresh_id : any (has_id (uuid db.drawn)) db.users ≡ false
  pub linked : All (λ a. any (has_id a.user_id) db.users ≡ true) db.accounts

pub linked-found :
    (users : List User) (accounts : List Account) (p : Account → Bool) (a : Account)
    → All (λ b. any (has_id b.user_id) users ≡ true) accounts
    → find? p accounts ≡ some a
    → any (has_id a.user_id) users ≡ true
linked-found users [] p a l h = ground arith
linked-found users (b ∷ accounts) p a (l, ls) h = ground (arith, linked-found users accounts p a ls)

pub create_account-fresh :
    (user_id provider : String) (profile : OAuthProfile) (db : Db)
    → db.aborted ≡ false
    → any (is_account provider profile.id) db.accounts ≡ false
    → any (has_id user_id) db.users ≡ true
    → create_account user_id provider profile db
      ≡ (ok tt, with_account (account_of user_id provider profile db) db)
unfolding create_account insert_account statement
create_account-fresh user_id provider profile db a f k = rw (a, f, k) refl

module _ (texts : Texts) (uuid : ℕ → String) (random : ℕ) where
  username_of-keeps :
      (profile : CreateUserParams) (o : Option String) (db : Db)
      → db.aborted ≡ false
      → (name : String) × (username_of texts uuid random profile o db ≡ (ok name, db))
  unfolding generate_username statement
  username_of-keeps profile none db a = (
    chosen_username (normalize texts uuid random (base_name texts uuid random profile)) random
        db.users,
    rw a refl,
  )
  username_of-keeps profile (some name) db a = (name, refl)

  insert_user-cases :
      (profile : CreateUserParams) (u : User) (db : Db)
      → db.aborted ≡ false
      → db.in_transaction ≡ true
      → (or_existing texts uuid random profile (insert_user u db) ≡ (ok u, with_user u db))
        ⊎ ((e : Thrown) × ((or_existing texts uuid random profile (insert_user u db)).0 ≡ err e))
  unfolding insert_user statement find_user_by_email
  insert_user-cases profile u db a t = elim (Bool-cases (any (clashes u) db.users)) [
    | inr free ↦ inl (rw (a, free) refl)
    | inl taken ↦ inr (sqlstate "23505", rw (a, taken) refl)
  ]

  abbrev pub Created : CreateUserParams → Db → Type 0
  Created profile db =
      (name : String) × (create_user texts uuid random profile db ≡ (
        ok (user_of texts uuid random profile name db),
        with_user (user_of texts uuid random profile name db) db,
      ))

  pub create_user-cases :
      (profile : CreateUserParams) (db : Db)
      → db.aborted ≡ false
      → db.in_transaction ≡ true
      → Created profile db ⊎ ((e : Thrown) × ((create_user texts uuid random profile db).0 ≡ err e))
  unfolding create_user
  create_user-cases profile db a t =
      let (name, named) = username_of-keeps profile profile.username db a in
      elim (insert_user-cases profile (user_of texts uuid random profile name db) db a t) [
        | inl e ↦ inl (name, rw named e)
        | inr (e, h) ↦ inr (e, rw named h)
      ]
