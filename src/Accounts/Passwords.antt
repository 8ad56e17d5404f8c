-- ===== src/Accounts/Passwords.antt =====
-- Whoever has registered signs in with the password, and only with it.
use jobs_scraper_global.Prelude.{
  ℕ, String, ◌≡◌, refl, ◌∙◌, ap, false, none, some, [], ◌∷◌, ◌++◌, any, find?, if◌then◌else◌,
  eq_refl, Bool-cases, or_else, Option-cases, inl, inr,
}
use jobs_scraper_global.Errors.{app, conflict, unauthorized}
use jobs_scraper_global.Exec.{Result, ok, err}
use jobs_scraper_global.Accounts.Store.{
  User, Credential, Db, statement, has_id, clashes, insert_user, begin, finish, in_new_transaction,
}
use jobs_scraper_global.Accounts.Users.{
  Texts, before_at, normalize, chosen_username, user_of, generate_username, user_by_id,
}
use jobs_scraper_global.Accounts.Credentials.{
  Argon, trimmed, RegisterInput, has_email_hash, credential_clashes, insert_credential,
  credential_by_email, params_of, credential_of, insert_both, create_both, register, login,
}
use jobs_scraper_global.Accounts.Again.{has_hash, by_email-open}
use jobs_scraper_global.Accounts.SignIn.{find?-any, find?-append, any-append}

generated :
    (name : String) (random : ℕ) (db : Db)
    → db.aborted ≡ false
    → generate_username name random db ≡ (ok (chosen_username name random db.users), db)
unfolding generate_username statement
generated name random db a = rw a refl

pub by_id :
    (id : String) (db : Db)
    → db.aborted ≡ false
    → user_by_id id db ≡ (ok (find? (has_id id) db.users), db)
unfolding statement
by_id id db a = rw a refl

module _ (texts : Texts) (uuid : ℕ → String) (random : ℕ) (argon : Argon) where
  pub by_email :
      (email : String) (db : Db)
      → db.aborted ≡ false
      → credential_by_email texts uuid random argon email db
        ≡ (ok (find? (has_email_hash (texts.email_hash email)) db.credentials), db)
  unfolding credential_by_email statement
  by_email email db a = rw a refl

  -- What a registration has stored.
  abbrev Stored : String → RegisterInput → Db → Result User × Db → Type 0
  Stored password_hash input db (err e, after) = Unit
  Stored password_hash input db (ok u, after) =
      (after.aborted ≡ false)
      × (u.id ≡ uuid db.drawn)
      × (after.users ≡ db.users ++ (u ∷ []))
      × (after.credentials
          ≡ db.credentials ++ (credential_of texts uuid random argon u.id password_hash input ∷ []))

  insert_both-Stored :
      (password_hash username : String) (input : RegisterInput) (db : Db)
      → db.aborted ≡ false
      → Stored password_hash input db
          (insert_both texts uuid random argon password_hash input username db)
  unfolding insert_user insert_credential statement
  insert_both-Stored password_hash username input db a =
      let u = user_of texts uuid random (params_of texts uuid random argon input) username db in
      let c = credential_of texts uuid random argon u.id password_hash input in
      elim (Bool-cases (any (clashes u) db.users)) [
        | inl taken ↦ rw (a, taken) tt
        | inr free ↦ elim (Bool-cases (any (credential_clashes c) db.credentials)) [
          | inl used ↦ rw (a, free, used) tt
          | inr unused ↦
              rw (a, free, unused, any-append (has_id u.id) db.users u (eq_refl u.id))
                (refl, refl, refl, refl)
        ]
      ]

  create_both-Stored :
      (password_hash : String) (input : RegisterInput) (db : Db)
      → db.aborted ≡ false
      → Stored password_hash input db (create_both texts uuid random argon password_hash input db)
  create_both-Stored password_hash input db a =
      let name =
        normalize texts uuid random (or_else (trimmed input.name) (before_at input.email)) in
      rw (generated name random db a)
        (insert_both-Stored password_hash (chosen_username name random db.users) input db a)

  -- A registration that succeeds has found no credential and no user with the address.
  abbrev Registered : ℕ → RegisterInput → Db → Result User × Db → Type 0
  Registered salt input db (err e, after) = Unit
  Registered salt input db (ok u, after) =
      (any (has_email_hash (texts.email_hash input.email)) db.credentials ≡ false)
      × Stored (argon.hash salt input.password) input db (ok u, after)

  finish-Registered :
      (salt : ℕ) (input : RegisterInput) (db : Db) (r : Result User × Db)
      → any (has_email_hash (texts.email_hash input.email)) db.credentials ≡ false
      → Stored (argon.hash salt input.password) input (begin db) r
      → Registered salt input db (finish db r)
  finish-Registered salt input db (err e, after) n s = tt
  finish-Registered salt input db (ok u, after) n (a, i, us, cs) = rw a (n, (refl, i, us, cs))

  register-Registered :
      (salt : ℕ) (input : RegisterInput) (db : Db)
      → db.aborted ≡ false
      → Registered salt input db (register texts uuid random argon salt input db)
  unfolding register in_new_transaction
  register-Registered salt input db a =
      let p = has_email_hash (texts.email_hash input.email) in
      elim (Option-cases (find? p db.credentials)) [
        | inr (c, n) ↦ rw (by_email input.email db a, n) tt
        | inl n ↦
            rw (by_email input.email db a, n)
              (elim (Option-cases (find? (has_hash (texts.email_hash input.email)) db.users)) [
                | inr (u, m) ↦ rw (by_email-open texts uuid random input.email db a, m) tt
                | inl m ↦
                    rw (by_email-open texts uuid random input.email db a, m)
                      (finish-Registered salt input db
                        (create_both texts uuid random argon (argon.hash salt input.password) input
                          (begin db))
                        (find?-any p db.credentials n)
                        (create_both-Stored (argon.hash salt input.password) input (begin db) refl))
              ])
      ]

  -- A sign-in where the address has a credential and its user is there.
  login-stored :
      (email password : String) (db : Db) (u : User) (c : Credential)
      → db.aborted ≡ false
      → find? (has_email_hash (texts.email_hash email)) db.credentials ≡ some c
      → find? (has_id c.user_id) db.users ≡ some u
      → login texts uuid random argon email password db ≡ (
        if argon.verify c.password_hash password
            then ok u
            else err (app (unauthorized "Credenciais inválidas")),
        db,
      )
  unfolding login
  login-stored email password db u c a n m =
      elim (Bool-cases (argon.verify c.password_hash password)) [
        | inl right ↦ rw (by_email email db a, n, right, by_id c.user_id db a, m) refl
        | inr wrong ↦ rw (by_email email db a, n, wrong) refl
      ]

  -- A registration with an address that has a credential is refused, and writes nothing.
  register-again :
      (salt : ℕ) (input : RegisterInput) (db : Db) (c : Credential)
      → db.aborted ≡ false
      → find? (has_email_hash (texts.email_hash input.email)) db.credentials ≡ some c
      → register texts uuid random argon salt input db
        ≡ (err (app (conflict "Email já cadastrado" none)), db)
  unfolding register
  register-again salt input db c a n = rw (by_email input.email db a, n) refl

  -- After a registration that succeeds, a sign-in with its address yields its user when argon2
  -- verifies the password against the hash of the registered one, and is unauthorized otherwise; a
  -- second registration with the address is a conflict; neither writes anything. (The next identifier
  -- of a user is not in use, and the connection is in no aborted transaction.)
  pub register-login :
      (salt : ℕ) (input : RegisterInput) (db : Db) (u : User)
      → db.aborted ≡ false
      → any (has_id (uuid db.drawn)) db.users ≡ false
      → (register texts uuid random argon salt input db).0 ≡ ok u
      → ((password : String)
          → login texts uuid random argon input.email password
              (register texts uuid random argon salt input db).1
            ≡ (
              if argon.verify (argon.hash salt input.password) password
                  then ok u
                  else err (app (unauthorized "Credenciais inválidas")),
              (register texts uuid random argon salt input db).1,
            ))
        × ((other : RegisterInput)
            → other.email ≡ input.email
            → register texts uuid random argon salt other
                (register texts uuid random argon salt input db).1
              ≡ (
                err (app (conflict "Email já cadastrado" none)),
                (register texts uuid random argon salt input db).1,
              ))
  register-login salt input db u a f h =
      after (register texts uuid random argon salt input db) (register-Registered salt input db a) h
    where
      after :
          (r : Result User × Db)
          → Registered salt input db r
          → r.0 ≡ ok u
          → ((password : String)
              → login texts uuid random argon input.email password r.1 ≡ (
                if argon.verify (argon.hash salt input.password) password
                    then ok u
                    else err (app (unauthorized "Credenciais inválidas")),
                r.1,
              ))
            × ((other : RegisterInput)
                → other.email ≡ input.email
                → register texts uuid random argon salt other r.1
                  ≡ (err (app (conflict "Email já cadastrado" none)), r.1))
      after (err e, d) w k = cc
      after (ok v, d) (n, (b, i, us, cs)) k =
          let same : v ≡ u = cc in
          let c =
            credential_of texts uuid random argon v.id (argon.hash salt input.password) input in
          let p = has_email_hash (texts.email_hash input.email) in
          let c_there : find? p d.credentials ≡ some c =
            ap (find? p) cs
            ∙ find?-append p db.credentials c n (eq_refl (texts.email_hash input.email)) in
          let u_there : find? (has_id v.id) d.users ≡ some v =
            ap (find? (has_id v.id)) us
            ∙ find?-append (has_id v.id) db.users v (ap (λ x. any (has_id x) db.users) i ∙ f)
                (eq_refl v.id) in
          (
            λ password.
                login-stored input.email password d v c b c_there u_there
                ∙ ap
                    (λ x. (
                      if argon.verify (argon.hash salt input.password) password
                          then ok x
                          else err (app (unauthorized "Credenciais inválidas")),
                      d,
                    ))
                    same,
            λ other e.
                register-again salt other d c b
                  (ap (λ m. find? (has_email_hash (texts.email_hash m)) d.credentials) e ∙ c_there),
          )
