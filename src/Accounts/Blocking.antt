-- ===== src/Accounts/Blocking.antt =====
-- What blocking a user changes.
use jobs_scraper_global.Prelude.{
  ℕ, String, ◌≡◌, refl, true, false, Option, none, some, List, [], ◌∷◌, find?, first, if◌then◌else◌,
  ◌==◌, arith, Bool-cases, Option-cases, inl, inr,
}
use jobs_scraper_global.Errors.{plain}
use jobs_scraper_global.Exec.{Result, ok, err}
use jobs_scraper_global.Table.{update_where, returning}
use jobs_scraper_global.Accounts.Store.{User, Credential, Db, statement, has_id}
use jobs_scraper_global.Accounts.Users.{Texts}
use jobs_scraper_global.Accounts.Credentials.{Argon, has_email_hash, with_password, login}
use jobs_scraper_global.Accounts.Admin.{
  with_users, set_user, blocked_as, with_found, block_found, block_user,
}
use jobs_scraper_global.Accounts.Passwords.{by_email, by_id}

-- The user as it is after its block.
abbrev pub when_blocked : String → User → User
when_blocked id u = if u.id == id then blocked_as true u else u

abbrev pub shown_blocked : String → Result User → Result User
shown_blocked id (ok u) = ok (when_blocked id u)
shown_blocked id (err e) = err e

abbrev pub blocked : String → Db → Db
blocked id db = with_users (update_where (has_id id) (blocked_as true) db.users) db

block_user-ok :
    (id : String) (db : Db) (v : User)
    → db.aborted ≡ false
    → (block_user id db).0 ≡ ok v
    → (block_user id db).1 ≡ blocked id db
unfolding block_user set_user statement
block_user-ok id db v a h =
    rw (by_id id db a) (found (find? (has_id id) db.users) (rw (by_id id db a) at h))
  where
    refused : err (plain "Usuário já está bloqueado") ≡ ok v → ⊥
    refused e = cc

    found :
        (o : Option User)
        → (with_found (block_found id) o db).0 ≡ ok v
        → (with_found (block_found id) o db).1 ≡ blocked id db
    found none k = ground arith
    found (some u) k = elim (Bool-cases u.is_blocked) [
      | inl b ↦ absurd (refused (rw b at k))
      | inr b ↦ elim (Option-cases (first (returning (has_id id) (blocked_as true) db.users))) [
        | inl n ↦ rw (b, a, n) refl
        | inr (w, n) ↦ rw (b, a, n) refl
      ]
    ]

abbrev found_blocked : String → Option User → Option User
found_blocked id none = none
found_blocked id (some u) = some (when_blocked id u)

find?-blocked :
    (id k : String) (users : List User)
    → find? (has_id k) (update_where (has_id id) (blocked_as true) users)
      ≡ found_blocked id (find? (has_id k) users)
find?-blocked id k [] = refl
find?-blocked id k (u ∷ users) = elim (Bool-cases (u.id == id)) [
  | inl e ↦ elim (Bool-cases (u.id == k)) [
    | inl h ↦ rw (e, h, e) refl
    | inr h ↦ rw (e, h) (find?-blocked id k users)
  ]
  | inr e ↦ elim (Bool-cases (u.id == k)) [
    | inl h ↦ rw (e, h, e) refl
    | inr h ↦ rw (e, h) (find?-blocked id k users)
  ]
]

module _ (texts : Texts) (uuid : ℕ → String) (random : ℕ) (argon : Argon) where
  found-blocked :
      (password id : String) (o : Option Credential) (db : Db)
      → db.aborted ≡ false
      → with_password texts uuid random argon password o (blocked id db)
        ≡ (shown_blocked id (with_password texts uuid random argon password o db).0, blocked id db)
  found-blocked password id none db a = refl
  found-blocked password id (some c) db a =
      elim (Bool-cases (argon.verify c.password_hash password)) [
        | inr wrong ↦ rw wrong refl
        | inl right ↦ elim (Option-cases (find? (has_id c.user_id) db.users)) [
          | inl n ↦
              rw
                (
                  right,
                  by_id c.user_id db a,
                  by_id c.user_id (blocked id db) a,
                  find?-blocked id c.user_id db.users,
                  n,
                )
                refl
          | inr (u, n) ↦
              rw
                (
                  right,
                  by_id c.user_id db a,
                  by_id c.user_id (blocked id db) a,
                  find?-blocked id c.user_id db.users,
                  n,
                )
                refl
        ]
      ]

  -- Blocking a user changes no sign-in with a password: after it, every address and password, those of
  -- the blocked user too, have the outcome that they had, but that the user shows as blocked. (The
  -- connection is in no aborted transaction.)
  pub login-block_user :
      (id email password : String) (db : Db) (v : User)
      → db.aborted ≡ false
      → (block_user id db).0 ≡ ok v
      → login texts uuid random argon email password (block_user id db).1 ≡ (
        shown_blocked id (login texts uuid random argon email password db).0,
        (block_user id db).1,
      )
  unfolding login
  login-block_user id email password db v a h =
      rw
        (
          block_user-ok id db v a h,
          by_email texts uuid random argon email (blocked id db) a,
          by_email texts uuid random argon email db a,
        )
        (found-blocked password id (find? (has_email_hash (texts.email_hash email)) db.credentials)
          db a)
