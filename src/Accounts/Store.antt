-- ===== src/Accounts/Store.antt =====
-- The tables `users`, `accounts` and `credentials` of backend/src/db/schema, and the statements on
-- them. The encrypted columns hold the texts that are encrypted; a hash column holds the hash.
use jobs_scraper_global.Prelude.{
  ℕ, ◌+◌, String, Bool, true, false, ◌&&◌, ◌||◌, Option, some, List, [], ◌∷◌, ◌++◌, any,
  if◌then◌else◌, ◌==◌,
}
use jobs_scraper_global.Errors.{sqlstate}
use jobs_scraper_global.Access.Matrix.{Role}
use jobs_scraper_global.Exec.{Result, ok, err, Exec}

pub record User : Type 0 where
  pub id : String
  pub username : Option String
  pub email : Option String
  pub email_hash : Option String
  pub display_name : Option String
  pub first_name : Option String
  pub last_name : Option String
  pub avatar_url : Option String
  pub role : Role
  pub is_blocked : Bool

pub record Account : Type 0 where
  pub user_id : String
  pub provider : String
  pub provider_account_id : String
  pub access_token : Option String
  pub refresh_token : Option String
  pub expires_at : Option ℕ
  pub created_at : ℕ

pub record Credential : Type 0 where
  pub user_id : String
  pub email_hash : Option String
  pub password_hash : String

-- The tables, the users that entries of `audit_logs` name as their actor, the identifiers drawn so far, the clock, and the state of the connection: whether it
-- is in a transaction, and whether a statement of the transaction has failed.
pub record Db : Type 0 where
  pub users : List User
  pub accounts : List Account
  pub credentials : List Credential
  pub audit_actors : List String
  pub drawn : ℕ
  pub now : ℕ
  pub in_transaction : Bool
  pub aborted : Bool

-- Equal texts; a unique index lets null through any number of times.
abbrev pub same_text : Option String → Option String → Bool
same_text (some a) (some b) = a == b
same_text _ _ = false

-- A failed statement aborts the transaction that it is in.
abbrev pub abort : Db → Db
abort db = record {
  users = db.users;
  accounts = db.accounts;
  credentials = db.credentials;
  audit_actors = db.audit_actors;
  drawn = db.drawn;
  now = db.now;
  in_transaction = db.in_transaction;
  aborted = db.in_transaction;
}

module _ {A : Type 0} where
  abbrev pub fails : String → Exec Db A
  fails code db = (err (sqlstate code), abort db)

  -- In an aborted transaction every statement fails with 25P02.
  unfoldable pub statement : Exec Db A → Exec Db A
  statement m db = let run = m db in if db.aborted then (err (sqlstate "25P02"), db) else run

-- The columns of `accounts_provider_unique`.
abbrev pub is_account : String → String → Account → Bool
is_account provider id a = a.provider == provider && a.provider_account_id == id

abbrev pub with_account : Account → Db → Db
with_account a db = record {
  users = db.users;
  accounts = db.accounts ++ (a ∷ []);
  credentials = db.credentials;
  audit_actors = db.audit_actors;
  drawn = db.drawn;
  now = db.now;
  in_transaction = db.in_transaction;
  aborted = db.aborted;
}

abbrev pub with_user : User → Db → Db
with_user u db = record {
  users = db.users ++ (u ∷ []);
  accounts = db.accounts;
  credentials = db.credentials;
  audit_actors = db.audit_actors;
  drawn = db.drawn + 1;
  now = db.now;
  in_transaction = db.in_transaction;
  aborted = db.aborted;
}

abbrev pub has_id : String → User → Bool
has_id id u = u.id == id

-- `insert into accounts`: the unique index, then the foreign key.
unfoldable pub insert_account : Account → Exec Db Unit
unfolding statement
insert_account a = statement (λ db.
    let checked : Result Unit × Db =
      if any (has_id a.user_id) db.users then (ok tt, with_account a db) else fails "23503" db in
    if any (is_account a.provider a.provider_account_id) db.accounts
    then fails "23505" db
    else checked)

abbrev pub clashes : User → User → Bool
clashes u v = same_text v.username u.username || same_text v.email_hash u.email_hash

-- `insert into users ... returning`: the unique indexes on the user name and on the hash.
unfoldable pub insert_user : User → Exec Db User
unfolding statement
insert_user u =
    statement (λ db. if any (clashes u) db.users then fails "23505" db else (ok u, with_user u db))

abbrev pub begin : Db → Db
begin db = record {
  users = db.users;
  accounts = db.accounts;
  credentials = db.credentials;
  audit_actors = db.audit_actors;
  drawn = db.drawn;
  now = db.now;
  in_transaction = true;
  aborted = false;
}

abbrev pub ended : Db → Db
ended db = record {
  users = db.users;
  accounts = db.accounts;
  credentials = db.credentials;
  audit_actors = db.audit_actors;
  drawn = db.drawn;
  now = db.now;
  in_transaction = false;
  aborted = false;
}

module _ {A : Type 0} where
  -- A commit of an aborted transaction rolls back, and reports no error.
  abbrev pub finish : Db → Result A × Db → Result A × Db
  finish before (err e, db) = (err e, before)
  finish before (ok a, db) = if db.aborted then (ok a, before) else (ok a, ended db)

  -- `db.transaction(...)` on a connection that is in none.
  unfoldable pub in_new_transaction : Exec Db A → Exec Db A
  in_new_transaction m db = finish db (m (begin db))
