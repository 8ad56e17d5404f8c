-- ===== src/Accounts/Admin.antt =====
-- backend/src/modules/admin/users/adminUsers.{service,repository}.ts, but for the listing.
use jobs_scraper_global.Prelude.{
  ℕ, String, Bool, true, false, Option, none, some, List, any, filter, first, if◌then◌else◌, ◌==◌,
  eqb,
}
use jobs_scraper_global.Errors.{plain}
use jobs_scraper_global.Exec.{Result, ok, Exec, pure, throw, ◌>>=◌}
use jobs_scraper_global.Table.{update_where, returning, delete_where}
use jobs_scraper_global.Access.Matrix.{Role, role_level}
use jobs_scraper_global.Accounts.Store.{User, Credential, Db, fails, statement, has_id}
use jobs_scraper_global.Accounts.Users.{user_by_id}
use jobs_scraper_global.Accounts.Connections.{is_of_user, has_user_id, password_of}
use jobs_scraper_global.Accounts.Credentials.{Argon}

abbrev pub with_users : List User → Db → Db
with_users users db = record {
  users = users;
  accounts = db.accounts;
  credentials = db.credentials;
  audit_actors = db.audit_actors;
  drawn = db.drawn;
  now = db.now;
  in_transaction = db.in_transaction;
  aborted = db.aborted;
}

-- `update(users).set(...).where(eq(users.id, id)).returning()`.
unfoldable pub set_user : String → (User → User) → Exec Db (Option User)
set_user id f = statement (λ db. (
  ok (first (returning (has_id id) f db.users)),
  with_users (update_where (has_id id) f db.users) db,
))

abbrev pub blocked_as : Bool → User → User
blocked_as b u = record u { is_blocked = b }

abbrev pub with_role : Role → User → User
with_role r u = record u { role = r }

abbrev pub or_failed : String → Option User → Exec Db User
or_failed message none = throw (plain message)
or_failed message (some u) = pure u

-- Each handler first looks for the user.
abbrev pub with_found : (User → Exec Db User) → Option User → Exec Db User
with_found f none = throw (plain "Usuário não encontrado")
with_found f (some u) = f u

abbrev pub block_found : String → User → Exec Db User
block_found id u =
    let set = set_user id (blocked_as true) >>= or_failed "Falha ao bloquear usuário" in
    if u.is_blocked then throw (plain "Usuário já está bloqueado") else set

unfoldable pub block_user : String → Exec Db User
block_user id = user_by_id id >>= with_found (block_found id)

abbrev pub unblock_found : String → User → Exec Db User
unblock_found id u =
    let set = set_user id (blocked_as false) >>= or_failed "Falha ao desbloquear usuário" in
    if u.is_blocked then set else throw (plain "Usuário não está bloqueado")

unfoldable pub unblock_user : String → Exec Db User
unblock_user id = user_by_id id >>= with_found (unblock_found id)

abbrev pub change_found : String → Role → User → Exec Db User
change_found id role u =
    let set = set_user id (with_role role) >>= or_failed "Falha ao alterar role" in
    if eqb (role_level u.role) (role_level role)
    then throw (plain "Usuário já possui esta role")
    else set

unfoldable pub change_role : String → Role → Exec Db User
change_role id role = user_by_id id >>= with_found (change_found id role)

-- The foreign keys delete the accounts and the credentials of a user that is gone; that of
-- `audit_logs` has no action, and stops the deletion of a user that an entry names as its actor.
abbrev pub without_user : String → Db → Db
without_user id db = record {
  users = delete_where (has_id id) db.users;
  accounts = delete_where (is_of_user id) db.accounts;
  credentials = delete_where (has_user_id id) db.credentials;
  audit_actors = db.audit_actors;
  drawn = db.drawn;
  now = db.now;
  in_transaction = db.in_transaction;
  aborted = db.aborted;
}

abbrev pub delete_found : String → User → Exec Db User
delete_found id u =
    statement (λ db.
      let deleted : Result (Option User) × Db =
        (ok (first (filter (has_id id) db.users)), without_user id db) in
      if any (λ actor. actor == id) db.audit_actors then fails "23503" db else deleted)
    >>= or_failed "Falha ao deletar usuário"

unfoldable pub delete_user : String → Exec Db User
delete_user id = user_by_id id >>= with_found (delete_found id)

abbrev pub with_hash : String → Credential → Credential
with_hash hash c = record c { password_hash = hash }

abbrev pub set_hash : String → String → Exec Db Unit
set_hash id hash = statement (λ db. (
  ok tt,
  record db { credentials = update_where (has_user_id id) (with_hash hash) db.credentials },
))

abbrev pub reset_found : String → String → User → Exec Db Unit
reset_found id hash u = password_of id >>= λ c. elim c [
  | none ↦ throw (plain "Credencial não encontrada")
  | some old ↦ set_hash id hash
]

abbrev pub reset_if_found : String → String → Option User → Exec Db Unit
reset_if_found id hash none = throw (plain "Usuário não encontrado")
reset_if_found id hash (some u) = reset_found id hash u

unfoldable pub reset_password : Argon → ℕ → String → String → Exec Db Unit
reset_password argon salt id password =
    user_by_id id >>= reset_if_found id (argon.hash salt password)
