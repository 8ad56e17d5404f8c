-- ===== src/Accounts/Credentials.antt =====
-- `register` and `login` of backend/src/modules/auth/credentials.service.ts, after their inputs are
-- parsed. The preferences that a registration also stores and the mail of welcome, whose failure is
-- only logged, are left out.
use jobs_scraper_global.Prelude.{
  ℕ, String, Bool, ◌||◌, Option, none, some, [], ◌∷◌, ◌++◌, any, find?, if◌then◌else◌, ◌==◌, trim,
  or_else,
}
use jobs_scraper_global.Errors.{app, conflict, unauthorized, not_found}
use jobs_scraper_global.Exec.{Result, ok, Exec, pure, throw, gets, ◌>>=◌, ◌>>◌}
use jobs_scraper_global.Accounts.Store.{
  User, Credential, Db, same_text, statement, fails, has_id, insert_user, in_new_transaction,
}
use jobs_scraper_global.Accounts.Users.{
  CreateUserParams, Texts, truthy, before_at, generate_username, normalize, user_of,
  find_user_by_email, user_by_id,
}

-- argon2: `hash` draws a salt.
pub record Argon : Type 0 where
  pub hash : ℕ → String → String
  pub verify : String → String → Bool

pub record RegisterInput : Type 0 where
  pub email : String
  pub password : String
  pub name : Option String

abbrev pub has_email_hash : String → Credential → Bool
has_email_hash hash c = same_text c.email_hash (some hash)

abbrev pub with_credential : Credential → Db → Db
with_credential c db = record {
  users = db.users;
  accounts = db.accounts;
  credentials = db.credentials ++ (c ∷ []);
  audit_actors = db.audit_actors;
  drawn = db.drawn;
  now = db.now;
  in_transaction = db.in_transaction;
  aborted = db.aborted;
}

abbrev pub credential_clashes : Credential → Credential → Bool
credential_clashes c d = d.user_id == c.user_id || same_text d.email_hash c.email_hash

-- `insert into credentials`: the unique columns, then the foreign key.
unfoldable pub insert_credential : Credential → Exec Db Unit
insert_credential c = statement (λ db.
    let checked : Result Unit × Db =
      if any (has_id c.user_id) db.users then (ok tt, with_credential c db) else fails "23503" db in
    if any (credential_clashes c) db.credentials then fails "23505" db else checked)

abbrev pub trimmed : Option String → Option String
trimmed none = none
trimmed (some t) = truthy (some (trim t))

module _ (texts : Texts) (uuid : ℕ → String) (random : ℕ) (argon : Argon) where
  unfoldable pub credential_by_email : String → Exec Db (Option Credential)
  credential_by_email email =
      statement (gets (λ db. find? (has_email_hash (texts.email_hash email)) db.credentials))

  abbrev pub params_of : RegisterInput → CreateUserParams
  params_of input = record {
    email = some input.email;
    display_name = input.name;
    first_name = none;
    last_name = none;
    avatar_url = none;
    username = none;
  }

  abbrev pub credential_of : String → String → RegisterInput → Credential
  credential_of user_id password_hash input = record {
    user_id = user_id;
    email_hash = some (texts.email_hash input.email);
    password_hash = password_hash;
  }

  abbrev pub insert_both : String → RegisterInput → String → Exec Db User
  insert_both password_hash input username db =
      (insert_user (user_of texts uuid random (params_of input) username db) >>= λ u.
      insert_credential (credential_of u.id password_hash input) >> pure u)
        db

  -- The transaction: the user name, the user and the credential.
  abbrev pub create_both : String → RegisterInput → Exec Db User
  create_both password_hash input =
      generate_username
        (normalize texts uuid random (or_else (trimmed input.name) (before_at input.email))) random
      >>= insert_both password_hash input

  abbrev pub unless_user : ℕ → RegisterInput → Option User → Exec Db User
  unless_user salt input (some u) = throw (app (conflict "Email já cadastrado" none))
  unless_user salt input none =
      in_new_transaction (create_both (argon.hash salt input.password) input)

  abbrev pub unless_credential : ℕ → RegisterInput → Option Credential → Exec Db User
  unless_credential salt input (some c) = throw (app (conflict "Email já cadastrado" none))
  unless_credential salt input none =
      find_user_by_email texts uuid random input.email >>= unless_user salt input

  unfoldable pub register : ℕ → RegisterInput → Exec Db User
  register salt input = credential_by_email input.email >>= unless_credential salt input

  abbrev pub or_not_found : Option User → Exec Db User
  or_not_found none = throw (app (not_found "Usuário não encontrado"))
  or_not_found (some u) = pure u

  abbrev pub with_password : String → Option Credential → Exec Db User
  with_password password none = throw (app (unauthorized "Credenciais inválidas"))
  with_password password (some c) =
      let found = user_by_id c.user_id >>= or_not_found in
      if argon.verify c.password_hash password
      then found
      else throw (app (unauthorized "Credenciais inválidas"))

  unfoldable pub login : String → String → Exec Db User
  login email password = credential_by_email email >>= with_password password
