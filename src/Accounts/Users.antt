-- ===== src/Accounts/Users.antt =====
-- backend/src/modules/users/functions/{findUsers,createUser,createAccount,findOrCreateUser,
-- linkProviderToUser}.ts, backend/src/modules/users/users.repository.ts and
-- backend/src/utils/generateUsername.ts.
use Prim.Native.Char.{code}
use jobs_scraper_global.Prelude.{
  ℕ, zero, suc, ◌+◌, ◌*◌, String, Bool, true, false, Option, none, some, List, [], ◌∷◌, any, find?,
  if◌then◌else◌, ◌==◌, concat, show, trim, or_else, or_text, eqb, leb, ◌&&◌, ◌||◌,
}
use jobs_scraper_global.Errors.{Thrown, app, code_of, conflict}
use jobs_scraper_global.Access.Matrix.{Role}
use jobs_scraper_global.Exec.{Result, ok, err, Exec, pure, throw, gets, ◌>>=◌, ◌>>◌}
use jobs_scraper_global.Accounts.Store.{
  User, Account, Db, same_text, statement, is_account, has_id, insert_account, insert_user,
  in_new_transaction,
}

-- `OAuthProfile`.
pub record OAuthProfile : Type 0 where
  pub id : String
  pub email : Option String
  pub name : Option String
  pub username : Option String
  pub given_name : Option String
  pub family_name : Option String
  pub picture : Option String
  pub access_token : Option String
  pub refresh_token : Option String
  pub expires_at : Option ℕ

-- `CreateUserParams`, as far as a profile fills it.
pub record CreateUserParams : Type 0 where
  pub email : Option String
  pub display_name : Option String
  pub first_name : Option String
  pub last_name : Option String
  pub avatar_url : Option String
  pub username : Option String

abbrev pub map_text : (String → String) → Option String → Option String
map_text f none = none
map_text f (some t) = some (f t)

-- A value that JavaScript takes for true.
abbrev pub truthy : Option String → Option String
truthy none = none
truthy (some t) = if t == "" then none else some t

-- `protectNullableText`, but for the encryption.
abbrev pub protect : Option String → Option String
protect none = none
protect (some t) = if t == "" then none else some (trim t)

-- `t.split("@")[0]`.
unfoldable pub before_at : String → String
before_at String.[] = ""
before_at (String.◌∷◌ c s) =
    let rest = before_at s in if eqb (code c) 64 then "" else String.◌∷◌ c rest

abbrev pub local_part : Option String → Option String
local_part none = none
local_part (some email) = some (before_at email)

abbrev pub has_username : String → User → Bool
has_username name u = same_text u.username (some name)

abbrev pub attempt : String → ℕ → String
attempt base i = concat (base ∷ "_" ∷ show i ∷ [])

-- The loop of `generateUsername` from `i` on, with the attempts that are left.
unfoldable pub first_free : List User → String → String → ℕ → ℕ → String
first_free users base fallback zero i = fallback
first_free users base fallback (suc left) i =
    let rest = first_free users base fallback left (i + 1) in
    if any (has_username (attempt base i)) users then rest else attempt base i

abbrev pub max_attempts : ℕ
max_attempts = 20

-- The characters of `[a-z0-9_]`; the replacements before that drop none of them.
abbrev pub is_allowed : ℕ → Bool
is_allowed c = (leb 97 c && leb c 122) || (leb 48 c && leb c 57) || eqb c 95

unfoldable pub keep_allowed : String → String
keep_allowed String.[] = ""
keep_allowed (String.◌∷◌ c s) =
    let rest = keep_allowed s in if is_allowed (code c) then String.◌∷◌ c rest else rest

-- `t.slice(0, n)` of characters in one unit each.
unfoldable pub take_chars : ℕ → String → String
take_chars zero s = ""
take_chars (suc n) String.[] = ""
take_chars (suc n) (String.◌∷◌ c s) = String.◌∷◌ c (take_chars n s)

-- The arguments are the name after `normalize` and the number that is drawn for the last resort.
unfoldable pub chosen_username : String → ℕ → List User → String
unfolding first_free
chosen_username normalized random users =
    let base = or_text normalized "user" in
    let tried = first_free users base (attempt base random) max_attempts 1 in
    if any (has_username base) users then tried else base

unfoldable pub generate_username : String → ℕ → Exec Db String
unfolding statement chosen_username
generate_username normalized random =
    statement (gets (λ db. chosen_username normalized random db.users))

-- `createAccount`'s row.
abbrev pub account_of : String → String → OAuthProfile → Db → Account
account_of user_id provider profile db = record {
  user_id = user_id;
  provider = provider;
  provider_account_id = profile.id;
  access_token = profile.access_token;
  refresh_token = profile.refresh_token;
  expires_at = milliseconds profile.expires_at;
  created_at = db.now;
}
  where
    milliseconds : Option ℕ → Option ℕ
    milliseconds none = none
    milliseconds (some t) = if eqb t 0 then none else some (t * 1000)

-- `catch (err) { if (err.code !== "23505") throw err; }`.
abbrev pub unless_duplicate : Result Unit × Db → Result Unit × Db
unless_duplicate (ok u, db) = (ok u, db)
unless_duplicate (err e, db) =
    if same_text (code_of e) (some "23505") then (ok tt, db) else (err e, db)

unfoldable pub create_account : String → String → OAuthProfile → Exec Db Unit
unfolding insert_account
create_account user_id provider profile db =
    unless_duplicate (insert_account (account_of user_id provider profile db) db)

unfoldable pub link_provider_to_user : String → String → OAuthProfile → Exec Db Unit
link_provider_to_user user_id provider profile =
    statement (gets (λ db. find? (is_account provider profile.id) db.accounts)) >>= λ existing.
    elim existing [
      | none ↦ create_account user_id provider profile
      | some a ↦
          if a.user_id == user_id
          then pure tt
          else throw (app (conflict "Essa conta já está vinculada a outro usuário." none))
    ]

abbrev pub user_by_id : String → Exec Db (Option User)
unfolding statement
user_by_id id = statement (gets (λ db. find? (has_id id) db.users))

-- The row as the table has it, without the decryption of `toPublicUser`: in the rows that the program
-- writes the plain columns of what is encrypted are null. (The columns of the ciphertexts are not in
-- `User`, and a user that `toPublicUser` gives keeps its hash there, which no caller reads.)
abbrev pub raw_row : User → User
raw_row u = record u {
  email = none;
  display_name = none;
  first_name = none;
  last_name = none;
  avatar_url = none;
}

abbrev pub raw_found : Option User → Exec Db (Option User)
raw_found none = pure none
raw_found (some u) = pure (some (raw_row u))

unfoldable pub find_user_by_provider : String → String → Exec Db (Option User)
unfolding statement
find_user_by_provider provider id =
    statement (gets (λ db. find? (is_account provider id) db.accounts)) >>= λ existing.
    elim existing [ none ↦ pure none | some a ↦ user_by_id a.user_id >>= raw_found ]

-- `generateSearchableHash` after `normalizeEmail`, the stored address, and the text after
-- `toLowerCase` and `normalize("NFD")` are not the program's.
pub record Texts : Type 0 where
  pub email_hash : String → String
  pub normalize_email : String → String
  pub decompose : String → String

module _ (texts : Texts) (uuid : ℕ → String) (random : ℕ) where
  unfoldable pub normalize : String → String
  unfolding take_chars keep_allowed
  normalize t = take_chars 20 (keep_allowed (texts.decompose t))

  unfoldable pub find_user_by_email : String → Exec Db (Option User)
  unfolding statement
  find_user_by_email email =
      statement
        (gets (λ db. find? (λ u. same_text u.email_hash (some (texts.email_hash email))) db.users))

  -- `toUserCreateValues` with the user name.
  abbrev pub user_of : CreateUserParams → String → Db → User
  user_of profile username db = record {
    id = uuid db.drawn;
    username = some username;
    email = map_text texts.normalize_email (truthy profile.email);
    email_hash = map_text texts.email_hash (truthy profile.email);
    display_name = protect profile.display_name;
    first_name = protect profile.first_name;
    last_name = protect profile.last_name;
    avatar_url = protect profile.avatar_url;
    role = Role.user;
    is_blocked = false;
  }

  -- `profile.displayName || profile.email?.split("@")[0] || "user"`.
  abbrev pub base_name : CreateUserParams → String
  base_name profile =
      or_else (truthy profile.username)
        (or_else (truthy profile.display_name) (or_else (truthy (local_part profile.email)) "user"))

  abbrev pub username_of : CreateUserParams → Option String → Exec Db String
  username_of profile none = generate_username (normalize (base_name profile)) random
  username_of profile (some username) = pure username

  abbrev pub returned : Thrown → Option User → Exec Db User
  returned e none = throw e
  returned e (some u) = pure u

  abbrev pub look_up : Thrown → Option String → Exec Db User
  look_up e none = throw e
  look_up e (some email) = find_user_by_email email >>= returned e

  -- The `catch` of `createUser` with `onEmailConflict: "returnExisting"`.
  abbrev pub or_existing : CreateUserParams → Result User × Db → Result User × Db
  or_existing profile (ok u, db) = (ok u, db)
  or_existing profile (err e, db) =
      let found_there = look_up e (truthy profile.email) db in
      if same_text (code_of e) (some "23505") then found_there else (err e, db)

  -- `createUser` with `onEmailConflict: "returnExisting"`, the one way in which it is called.
  unfoldable pub create_user : CreateUserParams → Exec Db User
  unfolding insert_user
  create_user profile = username_of profile profile.username >>= λ username db.
      or_existing profile (insert_user (user_of profile username db) db)

  -- `mapOAuthProfileToCreateUserParams`.
  abbrev pub create_params : OAuthProfile → CreateUserParams
  create_params profile = record {
    email = profile.email;
    display_name = profile.name;
    first_name = profile.given_name;
    last_name = profile.family_name;
    avatar_url = profile.picture;
    username = profile.username;
  }

  abbrev pub joined : String → OAuthProfile → Bool → User → Exec Db (User × Bool)
  joined provider profile is_new u = create_account u.id provider profile >> pure (u, is_new)

  abbrev pub by_email : Option String → Exec Db (Option User)
  by_email none = pure none
  by_email (some email) = find_user_by_email email

  abbrev pub created : String → OAuthProfile → Option User → Exec Db (User × Bool)
  created provider profile (some u) = joined provider profile false u
  created provider profile none =
      create_user (create_params profile) >>= joined provider profile true

  abbrev pub unless_known : String → OAuthProfile → Option User → Exec Db (User × Bool)
  unless_known provider profile (some u) = pure (u, false)
  unless_known provider profile none = by_email (truthy profile.email) >>= created provider profile

  -- `findOrCreateUser`: the user, and whether it is new.
  unfoldable pub find_or_create_user : String → OAuthProfile → Exec Db (User × Bool)
  unfolding find_user_by_provider in_new_transaction
  find_or_create_user provider profile =
      in_new_transaction
        (find_user_by_provider provider profile.id >>= unless_known provider profile)
