-- ===== src/Career/Inbox.antt =====
-- The notifications that a user sees before and after the methods of the notifications service.
use jobs_scraper_global.Prelude.{
  ℕ, zero, suc, ◌≤◌, String, ◌≡◌, refl, sym, ◌∙◌, ap, Bool, true, ◌||◌, not, none, some, List, [],
  ◌∷◌, arith, eq_refl, All, filter, find?, Option-cases, Bool-cases, inl, inr, or_else, ◌==◌,
  length, length-map, take, ltb,
}
use jobs_scraper_global.Exec.{Result, ok, err}
use jobs_scraper_global.Table.{filter-update_where_self, delete_where, find?-insert}
use jobs_scraper_global.Postgres.{Postgres}
use jobs_scraper_global.Career.Store.{UserNotification, Db}
use jobs_scraper_global.Career.Notifications.{
  ListQuery, Listing, Matched, list, create, mark_all_read, clear, create_high_match_if_missing,
  listed, mine, mine_unread, newer, is_match_of, match_notification,
}

module _ {A : Type 0} where
  -- A list none of whose rows fails a test.
  All-of_none_fails :
      (p : A → Bool) (xs : List A)
      → length (filter (λ x. not (p x)) xs) ≡ 0
      → All (λ x. p x ≡ true) xs
  All-of_none_fails p [] h = tt
  All-of_none_fails p (x ∷ xs) h = elim (Bool-cases (p x)) [
    | inl e ↦ (e, All-of_none_fails p xs (rw e at h))
    | inr e ↦ absurd (ground arith)
  ]

  none_fails_of_All :
      (p : A → Bool) (xs : List A)
      → All (λ x. p x ≡ true) xs
      → length (filter (λ x. not (p x)) xs) ≡ 0
  none_fails_of_All p [] h = refl
  none_fails_of_All p (x ∷ xs) (h, hs) = rw h (none_fails_of_All p xs hs)

  All-take : (P : A → Type 0) (n : ℕ) (xs : List A) → All P xs → All P (take n xs)
  All-take P zero xs h = tt
  All-take P (suc n) [] h = tt
  All-take P (suc n) (x ∷ xs) (h, hs) = (h, All-take P n xs hs)

  length-take-le : (n : ℕ) (xs : List A) → length (take n xs) ≤ n
  length-take-le zero xs = omega arith
  length-take-le (suc n) [] = omega arith
  length-take-le (suc n) (x ∷ xs) = omega (arith, length-take-le n xs)

  filter-true : (p : A → Bool) (xs : List A) → All (λ x. p x ≡ true) (filter p xs)
  filter-true p [] = tt
  filter-true p (x ∷ xs) = ground (arith, filter-true p xs)

  take-nil : (n : ℕ) → ◌≡◌ {A = List A} (take n []) []
  take-nil zero = refl
  take-nil (suc n) = refl

  filter-delete_where_within :
      (q p : A → Bool) (rows : List A)
      → ((r : A) → q r ≡ true → p r ≡ true)
      → filter q (delete_where p rows) ≡ []
  filter-delete_where_within q p [] h = refl
  filter-delete_where_within q p (r ∷ rows) h =
      ground (arith, filter-delete_where_within q p rows h, h r)

  nil_of_length : (xs : List A) → length (filter (λ x. true) xs) ≡ 0 → xs ≡ []
  nil_of_length [] h = refl
  nil_of_length (x ∷ xs) h = absurd (omega arith)

-- The unread count of an answer.
abbrev unread : Result Listing → ℕ
unread (ok l) = l.unread_count
unread (err e) = 0

module _ (pg : Postgres) where
  -- Ordering keeps what all rows satisfy.
  order_by-All :
      (Row : Type 0) (before : Row → Row → Bool) (p : Row → Bool) (rows : List Row)
      → All (λ r. p r ≡ true) rows
      → All (λ r. p r ≡ true) (pg.order_by Row before rows)
  order_by-All Row before p rows h =
      All-of_none_fails p (pg.order_by Row before rows)
        (pg.order_by_same Row before (λ r. not (p r)) rows ∙ none_fails_of_All p rows h)

  order_by-nil : (Row : Type 0) (before : Row → Row → Bool) → pg.order_by Row before [] ≡ []
  order_by-nil Row before = nil_of_length _ (pg.order_by_same Row before (λ r. true) [])

  module _ (user : String) (q : ListQuery) (s : Db) (l : Listing)
      (answer : (list pg user q s).0 ≡ ok l) where
    listing : l ≡ record {
      notifications =
          take q.limit
            (pg.order_by UserNotification newer (filter (listed user q) s.user_notifications));
      unread_count = length (filter (mine_unread user q.channel) s.user_notifications);
    }
    unfolding list
    listing = cc

    -- A listing holds at most as many rows as its limit, each of them the user's, on the channel
    -- that is asked for, and unread if only unread rows are asked for.
    pub list-bounds :
        (length l.notifications ≤ q.limit) × All (λ n. listed user q n ≡ true) l.notifications
    list-bounds = rw listing (
      length-take-le q.limit _,
      All-take (λ n. listed user q n ≡ true) q.limit _
          (order_by-All UserNotification newer (listed user q) _
            (filter-true (listed user q) s.user_notifications)),
    )

    -- Marking all as read updates as many rows as the listing counts as unread, and a listing of
    -- the same channel afterwards counts none.
    pub mark_all_read-list :
        (m : Listing)
        → (list pg user q (mark_all_read user q.channel s).1).0 ≡ ok m
        → ((mark_all_read user q.channel s).0 ≡ ok l.unread_count) × (m.unread_count ≡ 0)
    mark_all_read-list m again =
        (rw listing (unfold mark_all_read in ap ok (length-map _ _)), none_left m again)
      where
        none_left :
            (m : Listing)
            → (list pg user q (mark_all_read user q.channel s).1).0 ≡ ok m
            → m.unread_count ≡ 0
        none_left m again =
            ap (λ (r : Result Listing). unread r) (sym again)
            ∙ (unfold list mark_all_read in
                ap length (
                  filter-update_where_self (mine_unread user q.channel)
                    (λ n. record n { read_at = some s.now }) s.user_notifications
                    (λ n h. ground arith)))

  -- After a clearing of a channel the listing of that channel is empty and counts none unread,
  -- whatever else is asked for.
  pub clear-list :
      (user : String) (q : ListQuery) (s : Db)
      → (list pg user q (clear user q.channel s).1).0
        ≡ ok (record { notifications = []; unread_count = 0 })
  unfolding list clear
  clear-list user q s =
      rw
        (filter-delete_where_within (listed user q) (mine user q.channel) s.user_notifications
          (λ n h. ground arith))
        (rw
          (filter-delete_where_within (mine_unread user q.channel) (mine user q.channel)
            s.user_notifications (λ n h. ground arith))
          (rw order_by-nil (rw (take-nil q.limit))))

  -- Asking twice for the notification of a high match gives the same answer, and the second time
  -- writes nothing.
  pub high_match_idempotent :
      (user : String) (job : Matched) (s : Db)
      → let once = create_high_match_if_missing pg user job s in
        create_high_match_if_missing pg user job once.1 ≡ once
  unfolding create_high_match_if_missing create
  high_match_idempotent user job s =
      elim (Bool-cases (ltb (or_else job.match_score 0) 85 || job.identity == "")) [
        | inl low ↦ rw low
        | inr high ↦
            rw high
              (elim (Option-cases (find? (is_match_of user job.identity) s.user_notifications)) [
                | inl e ↦
                    let new : UserNotification = record {
                      id = pg.uuid s.drawn;
                      new = match_notification user job (or_else job.match_score 0);
                      read_at = none;
                      created_at = s.now;
                    } in
                    rw e (
                      rw (
                        find?-insert (is_match_of user job.identity) new s.user_notifications e
                          (rw (eq_refl user) (rw (eq_refl job.identity)))))
                | inr (n, e) ↦ rw e (rw e)
              ])
      ]
