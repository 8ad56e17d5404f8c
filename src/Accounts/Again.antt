-- ===== src/Accounts/Again.antt =====
-- A sign-in at a provider leads to the same user ever after.
use jobs_scraper_global.Prelude.{
  ℕ, String, ◌≡◌, refl, ◌∙◌, ap, Bool, true, false, Option, none, some, any, find?, eq_refl,
  Option-cases, inl, inr,
}
use jobs_scraper_global.Exec.{Result, ok, err, ◌>>=◌}
use jobs_scraper_global.Accounts.Store.{
  User, Account, Db, same_text, statement, is_account, has_id, with_user, begin, ended, finish,
  in_new_transaction,
}
use jobs_scraper_global.Accounts.Users.{
  OAuthProfile, Texts, truthy, account_of, raw_row, find_user_by_provider, find_user_by_email,
  user_of, create_params, joined, by_email, created, unless_known, find_or_create_user,
}
use jobs_scraper_global.Accounts.SignIn.{
  find?-any, any-find?, find?-append, any-append, find?-id, any-of_find?, IsSound, linked-found,
  create_account-fresh, create_user-cases,
}

-- The account that a profile names belongs to the user.
abbrev pub BelongsTo : String → String → Db → User → Type 0
BelongsTo provider id db u =
    (a : Account) × (find? (is_account provider id) db.accounts ≡ some a)
    × (find? (has_id a.user_id) db.users ≡ some u)

-- A body that returns has not been aborted and leaves the account with a user whose row is that of
-- the user that it returns.
abbrev IsSettled : String → String → Result (User × Bool) × Db → Type 0
IsSettled provider id (err e, db) = Unit
IsSettled provider id (ok (u, is_new), db) =
    (db.aborted ≡ false) × (v : User) × BelongsTo provider id db v × (raw_row v ≡ raw_row u)

same_user : (p q : User × Bool) → ok p ≡ ok q → p.0 ≡ q.0
same_user p q e = let same : p ≡ q = cc in ap (λ x. x.0) same

abbrev pub has_hash : String → User → Bool
has_hash hash u = same_text u.email_hash (some hash)

pub by_email-open :
    (texts : Texts) (uuid : ℕ → String) (random : ℕ) (email : String) (db : Db)
    → db.aborted ≡ false
    → find_user_by_email texts uuid random email db
      ≡ (ok (find? (has_hash (texts.email_hash email)) db.users), db)
unfolding find_user_by_email statement
by_email-open texts uuid random email db a = rw a refl

pub by_provider-none :
    (provider id : String) (db : Db)
    → db.aborted ≡ false
    → find? (is_account provider id) db.accounts ≡ none
    → find_user_by_provider provider id db ≡ (ok none, db)
unfolding find_user_by_provider statement
by_provider-none provider id db a n = rw (a, n) refl

pub by_provider-some :
    (provider id : String) (db : Db) (u : User)
    → db.aborted ≡ false
    → BelongsTo provider id db u
    → find_user_by_provider provider id db ≡ (ok (some (raw_row u)), db)
unfolding find_user_by_provider statement
by_provider-some provider id db u a (acc, n, q) = rw (a, n, q) refl

module _ (texts : Texts) (uuid : ℕ → String) (random : ℕ) (provider : String)
    (profile : OAuthProfile) where
  joined-IsSettled :
      (is_new : Bool) (u : User) (db : Db)
      → db.aborted ≡ false
      → any (is_account provider profile.id) db.accounts ≡ false
      → any (has_id u.id) db.users ≡ true
      → find? (has_id u.id) db.users ≡ some u
      → IsSettled provider profile.id (joined texts uuid random provider profile is_new u db)
  joined-IsSettled is_new u db a f k q =
      rw (joined, create_account-fresh u.id provider profile db a f k)
        (
          a,
          u,
          (
            account_of u.id provider profile db,
            find?-append (is_account provider profile.id) db.accounts
                (account_of u.id provider profile db) f
                (rw (eq_refl provider, eq_refl profile.id) refl),
            q,
          ),
          refl,
        )

  created-IsSettled :
      (db : Db)
      → IsSound uuid db
      → db.aborted ≡ false
      → db.in_transaction ≡ true
      → any (is_account provider profile.id) db.accounts ≡ false
      → IsSettled provider profile.id (created texts uuid random provider profile none db)
  created-IsSettled db s a t f =
      elim (create_user-cases texts uuid random (create_params texts uuid random profile) db a t) [
        | inl (name, e) ↦
            let u = user_of texts uuid random (create_params texts uuid random profile) name db in
            rw (created, e)
              (joined-IsSettled true u (with_user u db) a f
                (any-append (has_id u.id) db.users u (eq_refl u.id))
                (find?-append (has_id u.id) db.users u s.fresh_id (eq_refl u.id)))
        | inr (e, h) ↦ rw (created, h) tt
      ]

  by_email-IsSettled :
      (o : Option String) (db : Db)
      → IsSound uuid db
      → db.aborted ≡ false
      → db.in_transaction ≡ true
      → any (is_account provider profile.id) db.accounts ≡ false
      → IsSettled provider profile.id
          ((by_email texts uuid random o >>= created texts uuid random provider profile) db)
  by_email-IsSettled none db s a t f = created-IsSettled db s a t f
  by_email-IsSettled (some email) db s a t f =
      let p = has_hash (texts.email_hash email) in
      elim (Option-cases (find? p db.users)) [
        | inl n ↦ rw (by_email-open texts uuid random email db a, n) (created-IsSettled db s a t f)
        | inr (u, n) ↦
            rw (by_email-open texts uuid random email db a, n)
              (joined-IsSettled false u db a f (any-of_find? p db.users u n)
                (find?-id p db.users u s.unique_ids n))
      ]

  body-IsSettled :
      (db : Db)
      → IsSound uuid db
      → db.aborted ≡ false
      → db.in_transaction ≡ true
      → IsSettled provider profile.id (
          (find_user_by_provider provider profile.id
              >>= unless_known texts uuid random provider profile)
            db)
  body-IsSettled db s a t =
      elim (Option-cases (find? (is_account provider profile.id) db.accounts)) [
        | inl n ↦ rw (by_provider-none provider profile.id db a n) (
            by_email-IsSettled (truthy profile.email) db s a t
              (find?-any (is_account provider profile.id) db.accounts n))
        | inr (acc, n) ↦
            let (u, q) =
              any-find? (has_id acc.user_id) db.users (
                linked-found db.users db.accounts (is_account provider profile.id) acc s.linked
                  n) in
            rw (by_provider-some provider profile.id db u a (acc, n, q)) (a, u, (acc, n, q), refl)
      ]

  -- A sign-in on a database where the account belongs to the user.
  known :
      (db : Db) (u : User)
      → BelongsTo provider profile.id db u
      → find_or_create_user texts uuid random provider profile (ended db)
        ≡ (ok (raw_row u, false), ended db)
  unfolding find_or_create_user in_new_transaction
  known db u b = rw (by_provider-some provider profile.id (begin db) u refl b) refl

  finished :
      (before : Db) (r : Result (User × Bool) × Db) (u : User) (is_new : Bool)
      → IsSettled provider profile.id r
      → (finish before r).0 ≡ ok (u, is_new)
      → find_or_create_user texts uuid random provider profile (finish before r).1
        ≡ (ok (raw_row u, false), (finish before r).1)
  finished before (err e, db) u is_new k h = cc
  finished before (ok (w, b), db) u is_new (a, v, k, e) h =
      let same = same_user (w, b) (u, is_new) (rw a at h) in
      rw a (known db v k ∙ ap (λ x. (ok (x, false), ended db)) (e ∙ ap raw_row same))

  -- After a sign-in that succeeds, signing in again with the same profile yields the same user, not
  -- as a new one, and writes nothing; this time as the raw row, without the address, the names and
  -- the avatar, which are null there. (The identifiers are unique, the next one is not in use, and
  -- accounts belong to users.)
  pub find_or_create_user_again :
      (db : Db) (u : User) (is_new : Bool)
      → IsSound uuid db
      → (find_or_create_user texts uuid random provider profile db).0 ≡ ok (u, is_new)
      → find_or_create_user texts uuid random provider profile
          (find_or_create_user texts uuid random provider profile db).1
        ≡ (ok (raw_row u, false), (find_or_create_user texts uuid random provider profile db).1)
  unfolding find_or_create_user in_new_transaction
  find_or_create_user_again db u is_new s h =
      finished db
        ((find_user_by_provider provider profile.id
            >>= unless_known texts uuid random provider profile)
          (begin db))
        u is_new
        (body-IsSettled (begin db)
          (record { unique_ids = s.unique_ids; fresh_id = s.fresh_id; linked = s.linked }) refl
          refl)
        h
