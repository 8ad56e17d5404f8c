-- ===== src/Accounts/Deletion.antt =====
-- What the deletion of a user takes away.
use jobs_scraper_global.Prelude.{
  ℕ, String, ◌≡◌, refl, Bool, true, false, not, Option, none, some, List, [], ◌∷◌, any, find?,
  filter, first, ◌==◌, arith, Bool-cases, Option-cases, inl, inr,
}
use jobs_scraper_global.Errors.{app, sqlstate, unauthorized}
use jobs_scraper_global.Exec.{ok, err}
use jobs_scraper_global.Accounts.Store.{User, Credential, Db, statement, has_id}
use jobs_scraper_global.Accounts.Users.{Texts}
use jobs_scraper_global.Accounts.Credentials.{
  Argon, has_email_hash, with_password, or_not_found, login,
}
use jobs_scraper_global.Accounts.Admin.{with_found, without_user, delete_found, delete_user}
use jobs_scraper_global.Accounts.Passwords.{by_email, by_id}

find?-filter :
    {A : Type 0} (q t : A → Bool) (xs : List A) (x : A)
    → find? q (filter t xs) ≡ some x
    → t x ≡ true
find?-filter q t [] x h = ground arith
find?-filter q t (y ∷ xs) x h = elim (Bool-cases (t y)) [
  | inr unmet ↦ find?-filter q t xs x (rw unmet at h)
  | inl met ↦ elim (Bool-cases (q y)) [
    | inr past ↦ find?-filter q t xs x (rw (met, past) at h)
    | inl here ↦ let same : some y ≡ some x = rw (met, here) at h in first_one same met
  ]
]
  where
    first_one : some y ≡ some x → t y ≡ true → t x ≡ true
    first_one e m = ground arith

delete_user-ok :
    (id : String) (db : Db) (v : User)
    → db.aborted ≡ false
    → (delete_user id db).0 ≡ ok v
    → (delete_user id db).1 ≡ without_user id db
unfolding delete_user statement
delete_user-ok id db v a h =
    rw (by_id id db a) (found (find? (has_id id) db.users) (rw (by_id id db a) at h))
  where
    stopped : err (sqlstate "23503") ≡ ok v → ⊥
    stopped e = cc

    found :
        (o : Option User)
        → (with_found (delete_found id) o db).0 ≡ ok v
        → (with_found (delete_found id) o db).1 ≡ without_user id db
    found none k = ground arith
    found (some u) k = elim (Bool-cases (any (λ actor. actor == id) db.audit_actors)) [
      | inl acted ↦ absurd (stopped (rw (a, acted) at k))
      | inr idle ↦ elim (Option-cases (first (filter (has_id id) db.users))) [
        | inl n ↦ rw (a, idle, n) refl
        | inr (w, n) ↦ rw (a, idle, n) refl
      ]
    ]

module _ (texts : Texts) (uuid : ℕ → String) (random : ℕ) (argon : Argon) where
  signed_in :
      (email password : String) (db : Db) (u : User)
      → db.aborted ≡ false
      → (login texts uuid random argon email password db).0 ≡ ok u
      → (k : String) × (find? (has_id k) db.users ≡ some u)
  unfolding login
  signed_in email password db u a h =
      checked (find? (has_email_hash (texts.email_hash email)) db.credentials)
        (rw (by_email texts uuid random argon email db a) at h)
    where
      no_user : err (app (unauthorized "Credenciais inválidas")) ≡ ok u → ⊥
      no_user e = cc

      known :
          (k : String) (o : Option User)
          → (or_not_found texts uuid random argon o db).0 ≡ ok u
          → o ≡ some u
      known k none e = ground arith
      known k (some w) e = cc

      checked :
          (o : Option Credential)
          → (with_password texts uuid random argon password o db).0 ≡ ok u
          → (k : String) × (find? (has_id k) db.users ≡ some u)
      checked none e = ground arith
      checked (some c) e = elim (Bool-cases (argon.verify c.password_hash password)) [
        | inr wrong ↦ absurd (no_user (rw wrong at e))
        | inl right ↦ (
          c.user_id,
          known c.user_id (find? (has_id c.user_id) db.users)
              (rw (right, by_id c.user_id db a) at e),
        )
      ]

  -- After a user is deleted, no sign-in with a password yields that user. (The connection is in no
  -- aborted transaction.)
  pub delete_user-login :
      (id email password : String) (db : Db) (v u : User)
      → db.aborted ≡ false
      → (delete_user id db).0 ≡ ok v
      → (login texts uuid random argon email password (delete_user id db).1).0 ≡ ok u
      → (u.id == id) ≡ false
  delete_user-login id email password db v u a h l =
      let (k, found) =
        signed_in email password (without_user id db) u a (rw (delete_user-ok id db v a h) at l) in
      let kept = find?-filter (has_id k) (λ w. not (has_id id w)) db.users u found in
      ground (arith, kept)
