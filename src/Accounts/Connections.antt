-- ===== src/Accounts/Connections.antt =====
-- backend/src/modules/users/functions/{disconnectProvider,listUserConnections}.ts.
use jobs_scraper_global.Prelude.{
  ℕ, ◌+◌, String, Bool, not, ◌&&◌, Option, none, some, List, [], ◌∷◌, map, find?, filter, length,
  is_some, eqb, if◌then◌else◌, ◌==◌,
}
use jobs_scraper_global.Errors.{app, conflict}
use jobs_scraper_global.Exec.{ok, Exec, pure, throw, gets, ◌>>=◌}
use jobs_scraper_global.Accounts.Store.{Account, Credential, Db, statement, in_new_transaction}

abbrev pub is_of_user : String → Account → Bool
is_of_user user_id a = a.user_id == user_id

abbrev pub has_user_id : String → Credential → Bool
has_user_id user_id c = c.user_id == user_id

-- `new Set(texts)`: each text once, in the order of insertion.
unfoldable pub set_of : List String → List String
set_of [] = []
set_of (t ∷ ts) = t ∷ filter (λ u. not (u == t)) (set_of ts)

abbrev pub remaining_providers : String → List Account → List String
unfolding set_of
remaining_providers provider accounts =
    set_of (filter (λ p. not (p == provider)) (map (λ a. a.provider) accounts))

-- The login methods that are left: other providers, and a password.
abbrev pub methods_after : String → List Account → Option Credential → ℕ
unfolding set_of
methods_after provider accounts password =
    length (remaining_providers provider accounts) + (if is_some password then 1 else 0)

abbrev pub without_accounts : String → String → Db → Db
without_accounts user_id provider db = record {
  users = db.users;
  accounts = filter (λ a. not (is_of_user user_id a && a.provider == provider)) db.accounts;
  credentials = db.credentials;
  audit_actors = db.audit_actors;
  drawn = db.drawn;
  now = db.now;
  in_transaction = db.in_transaction;
  aborted = db.aborted;
}

abbrev pub delete_accounts : String → String → Exec Db Unit
unfolding statement
delete_accounts user_id provider = statement (λ db. (ok tt, without_accounts user_id provider db))

abbrev pub accounts_of : String → Exec Db (List Account)
unfolding statement
accounts_of user_id = statement (gets (λ db. filter (is_of_user user_id) db.accounts))

abbrev pub password_of : String → Exec Db (Option Credential)
unfolding statement
password_of user_id = statement (gets (λ db. find? (has_user_id user_id) db.credentials))

unfoldable pub run_disconnect : String → String → Exec Db Unit
unfolding statement set_of
run_disconnect user_id provider = accounts_of user_id >>= λ accounts.
    password_of user_id >>= λ password.
    (if eqb (methods_after provider accounts password) 0
      then throw (app (conflict "Não é possível desconectar seu último método de login." none))
      else delete_accounts user_id provider)

-- `disconnectProvider` without a transaction of the caller's.
unfoldable pub disconnect_provider : String → String → Exec Db Unit
unfolding run_disconnect in_new_transaction
disconnect_provider user_id provider = in_new_transaction (run_disconnect user_id provider)

-- `SUPPORTED_PROVIDERS`.
abbrev pub supported_providers : List String
supported_providers = "google" ∷ "linkedin" ∷ "github" ∷ []

pub record ConnectionStatus : Type 0 where
  pub provider : String
  pub connected : Bool
  pub connected_at : Option ℕ

pub record UserConnections : Type 0 where
  pub has_password : Bool
  pub connections : List ConnectionStatus

abbrev pub created_at_of : Option Account → Option ℕ
created_at_of none = none
created_at_of (some a) = some a.created_at

abbrev pub status_of : List Account → String → ConnectionStatus
status_of accounts provider =
    let account = find? (λ a. a.provider == provider) accounts in
    record {
      provider = provider;
      connected = is_some account;
      connected_at = created_at_of account;
    }

unfoldable pub list_user_connections : String → Exec Db UserConnections
unfolding statement
list_user_connections user_id = accounts_of user_id >>= λ accounts.
    password_of user_id >>= λ password. pure record {
      has_password = is_some password;
      connections = map (status_of accounts) supported_providers;
    }
