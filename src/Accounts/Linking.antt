-- ===== src/Accounts/Linking.antt =====
-- Linking a provider, and what the list of connections shows.
use jobs_scraper_global.Prelude.{
  String, ◌≡◌, refl, true, false, ◌&&◌, Option, none, some, List, [], ◌∷◌, any, find?, filter,
  is_some, if◌then◌else◌, ◌==◌, arith, All, Option-cases, Bool-cases, inl, inr,
}
use jobs_scraper_global.Errors.{app, conflict}
use jobs_scraper_global.Exec.{Result, ok, err}
use jobs_scraper_global.Accounts.Store.{
  Account, Credential, Db, statement, is_account, has_id, with_account,
}
use jobs_scraper_global.Accounts.Users.{OAuthProfile, account_of, link_provider_to_user}
use jobs_scraper_global.Accounts.Connections.{
  is_of_user, has_user_id, ConnectionStatus, UserConnections, list_user_connections,
}
use jobs_scraper_global.Accounts.SignIn.{find?-any, create_account-fresh}

abbrev pub linked_state : String → String → OAuthProfile → Db → Option Account → Result Unit × Db
linked_state user_id provider profile db none =
    (ok tt, with_account (account_of user_id provider profile db) db)
linked_state user_id provider profile db (some a) =
    if a.user_id == user_id
    then (ok tt, db)
    else (err (app (conflict "Essa conta já está vinculada a outro usuário." none)), db)

-- Linking, for a user that exists and outside an aborted transaction, adds the account when nobody
-- has it, changes nothing when the user has it, and is refused, writing nothing, when another has it.
pub link_provider_to_user_lem :
    (user_id provider : String) (profile : OAuthProfile) (db : Db)
    → db.aborted ≡ false
    → any (has_id user_id) db.users ≡ true
    → link_provider_to_user user_id provider profile db
      ≡ linked_state user_id provider profile db
          (find? (is_account provider profile.id) db.accounts)
unfolding link_provider_to_user
link_provider_to_user_lem user_id provider profile db a k =
    elim (Option-cases (find? (is_account provider profile.id) db.accounts)) [
      | inl n ↦
          rw (read, n)
            ((create_account-fresh user_id provider profile db a
              (find?-any (is_account provider profile.id) db.accounts n) k))
      | inr (acc, n) ↦ elim (Bool-cases (acc.user_id == user_id)) [
        | inl own ↦ rw (read, n, own) refl
        | inr other ↦ rw (read, n, other) refl
      ]
    ]
  where
    read :
        statement (λ d. (ok (find? (is_account provider profile.id) d.accounts), d)) db
        ≡ (ok (find? (is_account provider profile.id) db.accounts), db)
    read = unfold statement in rw a refl

-- What is shown for a provider is whether the user has an account there.
abbrev pub IsShown : String → Db → ConnectionStatus → Type 0
IsShown user_id db c =
    c.connected ≡ any (λ a. is_of_user user_id a && a.provider == c.provider) db.accounts

shown :
    (user_id provider : String) (accounts : List Account)
    → is_some (find? (λ a. a.provider == provider) (filter (is_of_user user_id) accounts))
      ≡ any (λ a. is_of_user user_id a && a.provider == provider) accounts
shown user_id provider [] = refl
shown user_id provider (a ∷ accounts) = ground (arith, shown user_id provider accounts)

has_password :
    (user_id : String) (db : Db)
    → is_some (find? (has_user_id user_id) db.credentials)
      ≡ any (has_user_id user_id) db.credentials
has_password user_id db = found db.credentials
  where
    found :
        (cs : List Credential)
        → is_some (find? (has_user_id user_id) cs) ≡ any (has_user_id user_id) cs
    found [] = refl
    found (c ∷ cs) = ground (arith, found cs)

abbrev pub ShownAs : String → Db → Result UserConnections × Db → Type 0
ShownAs user_id db (err e, after) = ⊥
ShownAs user_id db (ok c, after) =
    (after ≡ db)
    × (c.has_password ≡ any (has_user_id user_id) db.credentials)
    × All (IsShown user_id db) c.connections

-- Outside an aborted transaction the list of connections is given, writes nothing, says whether the
-- user has a password, and says of each provider in it whether the user has an account there.
pub list_user_connections_lem :
    (user_id : String) (db : Db)
    → db.aborted ≡ false
    → ShownAs user_id db (list_user_connections user_id db)
unfolding list_user_connections statement
list_user_connections_lem user_id db a = rw a (
  refl,
  has_password user_id db,
  (
    shown user_id "google" db.accounts,
    (shown user_id "linkedin" db.accounts, (shown user_id "github" db.accounts, tt)),
  ),
)
