-- ===== src/Accounts/Tests.antt =====
-- Sign-ins, links and disconnections on small databases.
use jobs_scraper_global.Prelude.{
  ◌==◌, trim, ℕ, String, ◌≡◌, refl, true, false, Option, none, some, [], ◌∷◌, concat, show,
  if◌then◌else◌,
}
use jobs_scraper_global.Errors.{app, sqlstate, conflict, unauthorized}
use jobs_scraper_global.Access.Matrix.{Role}
use jobs_scraper_global.Exec.{ok, err}
use jobs_scraper_global.Postgres.{sample_postgres}
use jobs_scraper_global.Accounts.Store.{
  User, Account, Db, statement, insert_account, insert_user, in_new_transaction,
}
use jobs_scraper_global.Accounts.Users.{
  OAuthProfile, Texts, raw_row, before_at, keep_allowed, take_chars, first_free, chosen_username,
  generate_username, normalize, create_account, find_user_by_provider, find_user_by_email,
  create_user, find_or_create_user,
}
use jobs_scraper_global.Accounts.Connections.{disconnect_provider}
use jobs_scraper_global.Accounts.SignIn.{IsSound}
use jobs_scraper_global.Accounts.Credentials.{
  Argon, RegisterInput, credential_by_email, insert_credential, register, login,
}
use jobs_scraper_global.Accounts.Passwords.{register-login}
use jobs_scraper_global.Accounts.Admin.{blocked_as, set_user, block_user, delete_user}
use jobs_scraper_global.Accounts.Deletion.{delete_user-login}
use jobs_scraper_global.Accounts.Blocking.{shown_blocked, login-block_user}
use jobs_scraper_global.Accounts.Soundness.{IsSoundOn, find_or_create_user-IsSoundOn}
use jobs_scraper_global.Accounts.Again.{find_or_create_user_again}
use jobs_scraper_global.Accounts.Names.{find_or_create_user-taken}
use jobs_scraper_global.Accounts.Disconnect.{has_login, disconnect_provider-has_login}

abbrev texts : Texts
texts = record {
  email_hash = λ e. concat ("#" ∷ e ∷ []);
  normalize_email = λ e. e;
  decompose = λ t. t;
}

abbrev uuid : ℕ → String
uuid = sample_postgres.uuid

abbrev user : String → String → String → User
user id name email = record {
  id = id;
  username = some name;
  email = some email;
  email_hash = some (concat ("#" ∷ email ∷ []));
  display_name = none;
  first_name = none;
  last_name = none;
  avatar_url = none;
  role = Role.user;
  is_blocked = false;
}

abbrev profile : String → Option String → String → OAuthProfile
profile id name email = record {
  id = id;
  email = some email;
  name = none;
  username = name;
  given_name = none;
  family_name = none;
  picture = none;
  access_token = some "t";
  refresh_token = none;
  expires_at = some 0;
}

abbrev account : String → String → Account
account user_id provider = record {
  user_id = user_id;
  provider = provider;
  provider_account_id = "1";
  access_token = none;
  refresh_token = none;
  expires_at = none;
  created_at = 5;
}

-- Anna has an account at Google and a password, Bert an account at GitHub.
abbrev two_users : Db
two_users = record {
  users = user "" "anna" "a@x" ∷ user "b" "bert" "b@x" ∷ [];
  accounts = account "" "google" ∷ account "b" "github" ∷ [];
  credentials = record { user_id = ""; email_hash = none; password_hash = "h" } ∷ [];
  audit_actors = "" ∷ [];
  drawn = 1;
  now = 9;
  in_transaction = false;
  aborted = false;
}

two_users-IsSound : IsSound uuid two_users
two_users-IsSound = record {
  unique_ids = (refl, (refl, tt));
  fresh_id = refl;
  linked = (refl, (refl, tt));
}

-- A new user whose address is "anna@y" gets the user name "anna_1".
new_anna :
    (find_or_create_user texts uuid 77 "github" (profile "9" none "anna@y") two_users).0
    ≡ ok (user "u" "anna_1" "anna@y", true)
unfolding find_or_create_user in_new_transaction statement create_user insert_user create_account
    insert_account find_user_by_email find_user_by_provider before_at generate_username normalize
    chosen_username first_free keep_allowed take_chars show
new_anna = refl

find_or_create_user_again_example :
    find_or_create_user texts uuid 77 "github"
      (profile "9" none "anna@y")
      (find_or_create_user texts uuid 77 "github" (profile "9" none "anna@y") two_users).1
    ≡ (
      ok (raw_row (user "u" "anna_1" "anna@y"), false),
      (find_or_create_user texts uuid 77 "github" (profile "9" none "anna@y") two_users).1,
    )
find_or_create_user_again_example =
    find_or_create_user_again texts uuid 77 "github" (profile "9" none "anna@y") two_users
      (user "u" "anna_1" "anna@y") true two_users-IsSound new_anna

find_or_create_user-taken_example :
    find_or_create_user texts uuid 77 "github" (profile "9" (some "anna") "c@x") two_users
    ≡ (err (sqlstate "23505"), two_users)
find_or_create_user-taken_example =
    find_or_create_user-taken texts uuid 77 "github" "c@x" "anna" (profile "9" (some "anna") "c@x")
      two_users refl refl refl refl refl

disconnect_provider-has_login_example :
    has_login "" (disconnect_provider "" "google" two_users).1 ≡ true
disconnect_provider-has_login_example = disconnect_provider-has_login "" "" "google" two_users refl

-- A hash that shows the salt and the password.
abbrev argon : Argon
argon = record {
  hash = λ salt p. concat (show salt ∷ ":" ∷ p ∷ []);
  verify = λ h p. h == concat ("7:" ∷ p ∷ []);
}

abbrev carla : RegisterInput
carla = record { email = "c@x"; password = "secret"; name = some "anna" }

-- The user name "anna" is taken.
carla_registered :
    (register texts uuid 77 argon 7 carla two_users).0
    ≡ ok (record (user "u" "anna_1" "c@x") { display_name = some "anna" })
unfolding register credential_by_email find_user_by_email statement in_new_transaction
    generate_username normalize chosen_username first_free keep_allowed take_chars insert_user
    insert_credential show trim before_at
carla_registered = refl

register-login_example :
    ((password : String)
      → login texts uuid 77 argon "c@x" password (register texts uuid 77 argon 7 carla two_users).1
        ≡ (
          if argon.verify (argon.hash 7 "secret") password
              then ok (record (user "u" "anna_1" "c@x") { display_name = some "anna" })
              else err (app (unauthorized "Credenciais inválidas")),
          (register texts uuid 77 argon 7 carla two_users).1,
        ))
    × ((other : RegisterInput)
        → other.email ≡ "c@x"
        → register texts uuid 77 argon 7 other (register texts uuid 77 argon 7 carla two_users).1
          ≡ (
            err (app (conflict "Email já cadastrado" none)),
            (register texts uuid 77 argon 7 carla two_users).1,
          ))
register-login_example =
    register-login texts uuid 77 argon 7 carla two_users
      (record (user "u" "anna_1" "c@x") { display_name = some "anna" }) refl refl carla_registered

-- Anna can sign in with the password "pw".
abbrev with_pw : Db
with_pw = record two_users {
  credentials = record { user_id = ""; email_hash = some "#a@x"; password_hash = "7:pw" } ∷ [];
}

abbrev anna : User
anna = user "" "anna" "a@x"

anna_blocked : (block_user "" with_pw).0 ≡ ok (blocked_as true anna)
unfolding block_user set_user statement
anna_blocked = refl

blocked_signs_in :
    (login texts uuid 77 argon "a@x" "pw" (block_user "" with_pw).1).0 ≡ ok (blocked_as true anna)
unfolding block_user set_user statement login credential_by_email show
blocked_signs_in = refl

login-block_user_example :
    login texts uuid 77 argon "a@x" "pw" (block_user "" with_pw).1
    ≡ (shown_blocked "" (login texts uuid 77 argon "a@x" "pw" with_pw).0, (block_user "" with_pw).1)
login-block_user_example =
    login-block_user texts uuid 77 argon "" "a@x" "pw" with_pw (blocked_as true anna) refl
      anna_blocked

bert_deleted : (delete_user "b" with_pw).0 ≡ ok (user "b" "bert" "b@x")
unfolding delete_user statement
bert_deleted = refl

-- Anna has done something that the audit log keeps.
anna_stays : delete_user "" with_pw ≡ (err (sqlstate "23503"), with_pw)
unfolding delete_user statement
anna_stays = refl

anna_signs_in : (login texts uuid 77 argon "a@x" "pw" (delete_user "b" with_pw).1).0 ≡ ok anna
unfolding delete_user statement login credential_by_email show
anna_signs_in = refl

delete_user-login_example : (anna.id == "b") ≡ false
delete_user-login_example =
    delete_user-login texts uuid 77 argon "b" "a@x" "pw" with_pw (user "b" "bert" "b@x") anna refl
      bert_deleted anna_signs_in

abbrev nobody : Db
nobody = record {
  users = [];
  accounts = [];
  credentials = [];
  audit_actors = [];
  drawn = 0;
  now = 1;
  in_transaction = false;
  aborted = false;
}

find_or_create_user-IsSoundOn_example :
    IsSoundOn uuid (find_or_create_user texts uuid 77 "github" (profile "9" none "anna@y") nobody).1
find_or_create_user-IsSoundOn_example =
    find_or_create_user-IsSoundOn uuid texts 77 "github" (profile "9" none "anna@y")
      sample_postgres.uuid_injective nobody
      (record { unique_ids = tt; fresh_ids = λ n h. refl; linked = tt })
