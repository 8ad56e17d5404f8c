-- ===== src/Accounts/Soundness.antt =====
-- What a sign-in relies on holds again after it.
use jobs_scraper_global.Prelude.{
  ℕ, ◌+◌, ◌≤◌, String, ◌≡◌, refl, sym, ◌∙◌, ap, Bool, true, false, Option, none, some, List, [],
  ◌∷◌, ◌++◌, any, find?, ◌==◌, arith, eq_iff, eq_refl, Bool-cases, Option-cases, inl, inr, All,
  All-append,
}
use jobs_scraper_global.Exec.{Result, ok, err, ◌>>=◌}
use jobs_scraper_global.Accounts.Store.{
  User, Account, Db, is_account, has_id, with_account, with_user, begin, finish, in_new_transaction,
}
use jobs_scraper_global.Accounts.Users.{
  OAuthProfile, Texts, truthy, account_of, find_user_by_provider, user_of, create_params, joined,
  by_email, created, unless_known, find_or_create_user,
}
use jobs_scraper_global.Accounts.SignIn.{
  find?-any, any-find?, any-append, any-of_find?, HasUniqueIds, linked-found, create_account-fresh,
  create_user-cases,
}
use jobs_scraper_global.Accounts.Again.{has_hash, by_email-open, by_provider-none, by_provider-some}

-- As `IsSound`, but no identifier that is still to be drawn is in use.
pub record IsSoundOn (uuid : ℕ → String) (db : Db) : Type 0 where
  pub unique_ids : HasUniqueIds db.users
  pub fresh_ids : (n : ℕ) → db.drawn ≤ n → any (has_id (uuid n)) db.users ≡ false
  pub linked : All (λ a. any (has_id a.user_id) db.users ≡ true) db.accounts

any-append_false :
    {A : Type 0} (p : A → Bool) (xs : List A) (x : A)
    → any p xs ≡ false
    → p x ≡ false
    → any p (xs ++ (x ∷ [])) ≡ false
any-append_false p [] x h k = rw k refl
any-append_false p (y ∷ xs) x h k = ground (arith, any-append_false p xs x)

any-append_true :
    {A : Type 0} (p : A → Bool) (xs : List A) (x : A)
    → any p xs ≡ true
    → any p (xs ++ (x ∷ [])) ≡ true
any-append_true p [] x h = ground arith
any-append_true p (y ∷ xs) x h = ground (arith, any-append_true p xs x)

append-HasUniqueIds :
    (users : List User) (u : User)
    → HasUniqueIds users
    → any (has_id u.id) users ≡ false
    → HasUniqueIds (users ++ (u ∷ []))
append-HasUniqueIds [] u q h = (refl, tt)
append-HasUniqueIds (v ∷ users) u (n, q) h = (
  any-append_false (has_id v.id) users u n (ground (arith, eq_iff v.id u.id, eq_iff u.id v.id)),
  append-HasUniqueIds users u q (ground arith),
)

linked-append :
    (users : List User) (u : User) (accounts : List Account)
    → All (λ a. any (has_id a.user_id) users ≡ true) accounts
    → All (λ a. any (has_id a.user_id) (users ++ (u ∷ [])) ≡ true) accounts
linked-append users u [] l = tt
linked-append users u (a ∷ accounts) (l, ls) =
    (any-append_true (has_id a.user_id) users u l, linked-append users u accounts ls)

module _ (uuid : ℕ → String) where
  with_account-IsSoundOn :
      (a : Account) (db : Db)
      → IsSoundOn uuid db
      → any (has_id a.user_id) db.users ≡ true
      → IsSoundOn uuid (with_account a db)
  with_account-IsSoundOn a db s k = record {
    unique_ids = s.unique_ids;
    fresh_ids = s.fresh_ids;
    linked =
        All-append (λ b. any (has_id b.user_id) db.users ≡ true) db.accounts (a ∷ []) s.linked
          (k, tt);
  }

  with_user-IsSoundOn :
      (u : User) (db : Db)
      → ((m n : ℕ) → uuid m ≡ uuid n → m ≡ n)
      → IsSoundOn uuid db
      → u.id ≡ uuid db.drawn
      → IsSoundOn uuid (with_user u db)
  with_user-IsSoundOn u db injective s i = record {
    unique_ids =
        append-HasUniqueIds db.users u s.unique_ids
          (ap (λ x. any (has_id x) db.users) i ∙ s.fresh_ids db.drawn (omega arith));
    fresh_ids = λ n h.
        any-append_false (has_id (uuid n)) db.users u (s.fresh_ids n (omega (arith, h)))
          (other n h);
    linked = linked-append db.users u db.accounts s.linked;
  }
    where
      later : (n : ℕ) → db.drawn + 1 ≤ n → u.id ≡ uuid n → ⊥
      later n h e = omega (arith, h, injective db.drawn n (sym i ∙ e))

      other : (n : ℕ) → db.drawn + 1 ≤ n → (u.id == uuid n) ≡ false
      other n h = elim (Bool-cases (u.id == uuid n)) [
        | inr differ ↦ differ
        | inl same ↦ absurd (later n h ((eq_iff u.id (uuid n)).0 same))
      ]

  -- A body that returns leaves a sound database; one that throws is rolled back.
  abbrev IsKept : {A : Type 0} → Result A × Db → Type 0
  IsKept (err e, db) = Unit
  IsKept (ok a, db) = IsSoundOn uuid db

  finish-IsSoundOn :
      {A : Type 0} (before : Db) (r : Result A × Db)
      → IsSoundOn uuid before
      → IsKept r
      → IsSoundOn uuid (finish before r).1
  finish-IsSoundOn before (err e, db) s k = s
  finish-IsSoundOn before (ok a, db) s k = elim (Bool-cases db.aborted) [
    | inl stopped ↦ rw (finish, stopped) s
    | inr fine ↦
        rw (finish, fine)
          record { unique_ids = k.unique_ids; fresh_ids = k.fresh_ids; linked = k.linked }
  ]

  module _ (texts : Texts) (random : ℕ) (provider : String) (profile : OAuthProfile)
      (injective : (m n : ℕ) → uuid m ≡ uuid n → m ≡ n) where
    joined-IsKept :
        (is_new : Bool) (u : User) (db : Db)
        → db.aborted ≡ false
        → any (is_account provider profile.id) db.accounts ≡ false
        → any (has_id u.id) db.users ≡ true
        → IsSoundOn uuid db
        → IsKept (joined texts uuid random provider profile is_new u db)
    joined-IsKept is_new u db a f k s =
        rw (joined, create_account-fresh u.id provider profile db a f k)
          (with_account-IsSoundOn (account_of u.id provider profile db) db s k)

    created-IsKept :
        (db : Db)
        → IsSoundOn uuid db
        → db.aborted ≡ false
        → db.in_transaction ≡ true
        → any (is_account provider profile.id) db.accounts ≡ false
        → IsKept (created texts uuid random provider profile none db)
    created-IsKept db s a t f =
        elim (create_user-cases texts uuid random (create_params texts uuid random profile) db a
          t) [
            | inl (name, e) ↦
                let u =
                  user_of texts uuid random (create_params texts uuid random profile) name db in
                rw (created, e)
                  (joined-IsKept true u (with_user u db) a f
                    (any-append (has_id u.id) db.users u (eq_refl u.id))
                    (with_user-IsSoundOn u db injective s refl))
            | inr (e, h) ↦ rw (created, h) tt
          ]

    by_email-IsKept :
        (o : Option String) (db : Db)
        → IsSoundOn uuid db
        → db.aborted ≡ false
        → db.in_transaction ≡ true
        → any (is_account provider profile.id) db.accounts ≡ false
        → IsKept ((by_email texts uuid random o >>= created texts uuid random provider profile) db)
    by_email-IsKept none db s a t f = created-IsKept db s a t f
    by_email-IsKept (some email) db s a t f =
        let p = has_hash (texts.email_hash email) in
        elim (Option-cases (find? p db.users)) [
          | inl n ↦ rw (by_email-open texts uuid random email db a, n) (created-IsKept db s a t f)
          | inr (u, n) ↦
              rw (by_email-open texts uuid random email db a, n)
                (joined-IsKept false u db a f (any-of_find? p db.users u n) s)
        ]

    body-IsKept :
        (db : Db)
        → IsSoundOn uuid db
        → db.aborted ≡ false
        → db.in_transaction ≡ true
        → IsKept (
            (find_user_by_provider provider profile.id
                >>= unless_known texts uuid random provider profile)
              db)
    body-IsKept db s a t =
        elim (Option-cases (find? (is_account provider profile.id) db.accounts)) [
          | inl n ↦ rw (by_provider-none provider profile.id db a n) (
              by_email-IsKept (truthy profile.email) db s a t
                (find?-any (is_account provider profile.id) db.accounts n))
          | inr (acc, n) ↦
              let (u, q) = any-find? (has_id acc.user_id) db.users (
                linked-found db.users db.accounts (is_account provider profile.id) acc s.linked
                  n) in
              rw (by_provider-some provider profile.id db u a (acc, n, q)) s
        ]

    -- Where PostgreSQL draws no identifier twice, every sign-in at a provider, successful or not, keeps
    -- that the identifiers of users are unique, that none still to be drawn is in use, and that every
    -- account belongs to a user.
    pub find_or_create_user-IsSoundOn :
        (db : Db)
        → IsSoundOn uuid db
        → IsSoundOn uuid (find_or_create_user texts uuid random provider profile db).1
    unfolding find_or_create_user in_new_transaction
    find_or_create_user-IsSoundOn db s =
        finish-IsSoundOn db
          ((find_user_by_provider provider profile.id
              >>= unless_known texts uuid random provider profile)
            (begin db))
          s
          (body-IsKept (begin db)
            (record { unique_ids = s.unique_ids; fresh_ids = s.fresh_ids; linked = s.linked }) refl
            refl)
