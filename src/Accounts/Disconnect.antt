-- ===== src/Accounts/Disconnect.antt =====
-- A disconnection never takes the last way to sign in.
use jobs_scraper_global.Prelude.{
  ◌+◌, String, ◌≡◌, refl, ◌∙◌, ap, Bool, true, false, not, ◌&&◌, ◌||◌, Option, none, some, List, [],
  ◌∷◌, map, any, find?, filter, length, is_some, eqb, if◌then◌else◌, ◌==◌, arith, eq_iff,
  Bool-cases, inl, inr,
}
use jobs_scraper_global.Errors.{app, conflict}
use jobs_scraper_global.Exec.{ok, err}
use jobs_scraper_global.Accounts.Store.{
  Account, Credential, Db, statement, ended, in_new_transaction,
}
use jobs_scraper_global.Accounts.Connections.{
  is_of_user, has_user_id, set_of, methods_after, without_accounts, run_disconnect,
  disconnect_provider,
}

-- The user can sign in: with a password, or at a provider.
abbrev pub has_login : String → Db → Bool
has_login user_id db =
    any (has_user_id user_id) db.credentials || any (is_of_user user_id) db.accounts

-- The user can sign in without the provider.
abbrev pub has_other_login : String → String → Db → Bool
has_other_login user_id provider db =
    any (has_user_id user_id) db.credentials
    || any (λ a. is_of_user user_id a && not (a.provider == provider)) db.accounts

is_some-find? : {A : Type 0} (p : A → Bool) (xs : List A) → is_some (find? p xs) ≡ any p xs
is_some-find? p [] = refl
is_some-find? p (x ∷ xs) = ground (arith, is_some-find? p xs)

is_empty : {A : Type 0} → List A → Bool
is_empty [] = true
is_empty (x ∷ xs) = false

remaining-empty :
    (user_id provider : String) (accounts : List Account)
    → is_empty (
        filter
          (λ p. not (p == provider))
          (map (λ a. a.provider) (filter (is_of_user user_id) accounts)))
      ≡ not (any (λ a. is_of_user user_id a && not (a.provider == provider)) accounts)
unfolding is_empty
remaining-empty user_id provider [] = refl
remaining-empty user_id provider (a ∷ accounts) =
    ground (arith, remaining-empty user_id provider accounts)

no_methods :
    (ts : List String) (password : Option Credential)
    → eqb (length (set_of ts) + (if is_some password then 1 else 0)) 0
      ≡ (is_empty ts && not (is_some password))
unfolding is_empty set_of
no_methods [] none = refl
no_methods [] (some c) = refl
no_methods (t ∷ ts) password = ground arith

methods_after_lem :
    (user_id provider : String) (db : Db)
    → eqb
        (methods_after provider
          (filter (is_of_user user_id) db.accounts)
          (find? (has_user_id user_id) db.credentials))
        0
      ≡ not (has_other_login user_id provider db)
unfolding set_of
methods_after_lem user_id provider db =
    no_methods
      (filter (λ p. not (p == provider))
        (map (λ a. a.provider) (filter (is_of_user user_id) db.accounts)))
      (find? (has_user_id user_id) db.credentials)
    ∙ rw
        (
          remaining-empty user_id provider db.accounts,
          is_some-find? (has_user_id user_id) db.credentials,
        )
        (de_morgan (any (has_user_id user_id) db.credentials) _)
  where
    de_morgan : (b c : Bool) → (not c && not b) ≡ not (b || c)
    de_morgan true true = refl
    de_morgan true false = refl
    de_morgan false true = refl
    de_morgan false false = refl

-- A disconnection succeeds exactly when the user can sign in without the provider; it then deletes
-- the user's accounts there and nothing else. Otherwise it throws a conflict and writes nothing.
pub disconnect_provider_lem :
    (user_id provider : String) (db : Db)
    → disconnect_provider user_id provider db ≡ (
        if has_other_login user_id provider db
        then (ok tt, ended (without_accounts user_id provider db))
        else (
          err (app (conflict "Não é possível desconectar seu último método de login." none)),
          db,
        ))
unfolding disconnect_provider run_disconnect in_new_transaction statement
disconnect_provider_lem user_id provider db =
    elim (Bool-cases (has_other_login user_id provider db)) [
      | inl h ↦ rw (h, methods_after_lem user_id provider db ∙ ap not h) refl
      | inr h ↦ rw (h, methods_after_lem user_id provider db ∙ ap not h) refl
    ]

any-without_other :
    (u v provider : String) (accounts : List Account)
    → (u == v) ≡ false
    → any (is_of_user u) (filter (λ a. not (is_of_user v a && a.provider == provider)) accounts)
      ≡ any (is_of_user u) accounts
any-without_other u v provider [] h = refl
any-without_other u v provider (a ∷ accounts) h = ground (
  arith,
  any-without_other u v provider accounts h,
  eq_iff a.user_id u,
  eq_iff a.user_id v,
  eq_iff u v,
)

any-without :
    (u provider : String) (accounts : List Account)
    → any (is_of_user u) (filter (λ a. not (is_of_user u a && a.provider == provider)) accounts)
      ≡ any (λ a. is_of_user u a && not (a.provider == provider)) accounts
any-without u provider [] = refl
any-without u provider (a ∷ accounts) = ground (arith, any-without u provider accounts)

-- No disconnection, of any user from any provider, accepted or refused, takes from a user who can
-- sign in the last way to do so.
pub disconnect_provider-has_login :
    (u v provider : String) (db : Db)
    → has_login u db ≡ true
    → has_login u (disconnect_provider v provider db).1 ≡ true
disconnect_provider-has_login u v provider db h =
    elim (Bool-cases (has_other_login v provider db)) [
      | inr o ↦ rw (disconnect_provider_lem v provider db, o) h
      | inl o ↦ elim (Bool-cases (u == v)) [
        | inl e ↦
            rw
              (
                disconnect_provider_lem v provider db,
                o,
                (eq_iff u v).0 e,
                any-without v provider db.accounts,
              )
              o
        | inr e ↦
            rw
              (
                disconnect_provider_lem v provider db,
                o,
                any-without_other u v provider db.accounts e,
              )
              h
      ]
    ]
