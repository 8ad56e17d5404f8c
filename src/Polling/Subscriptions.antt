-- ===== src/Polling/Subscriptions.antt =====
-- What holds of every resource of the polling, and that its calls keep it.
use jobs_scraper_global.Prelude.{
  ℕ, suc, ◌≡◌, refl, ◌<◌, ◌≤◌, Bool, true, false, not, ◌||◌, Option, none, some, List, [], ◌∷◌,
  filter, find?, is_some, eqb, arith, All, Bool-cases, inl, inr,
}
use jobs_scraper_global.Polling.{
  Request, Resource, Options, is_empty, scheduled, set_listener, send, try_refresh, subscribed,
  left, unsubscribed, created,
}

module _ {A : Type 0} (P Q : A → Type 0) where
  pub All-map : (xs : List A) → ((x : A) → P x → Q x) → All P xs → All Q xs
  All-map [] f h = tt
  All-map (x ∷ xs) f (h, hs) = (f x h, All-map xs f hs)

  pub All-filter_map :
      (t : A → Bool) (xs : List A)
      → ((x : A) → t x ≡ true → P x → Q x)
      → All P xs
      → All Q (filter t xs)
  All-filter_map t [] f h = tt
  All-filter_map t (x ∷ xs) f (h, hs) = elim (Bool-cases (t x)) [
    | inl met ↦ rw met (f x met h, All-filter_map t xs f hs)
    | inr unmet ↦ rw unmet (All-filter_map t xs f hs)
  ]

  pub All-find? :
      (t : A → Bool) (xs : List A) (x : A) → All P xs → find? t xs ≡ some x → P x × (t x ≡ true)
  All-find? t [] x h e = ground arith
  All-find? t (y ∷ xs) x (h, hs) e = elim (Bool-cases (t y)) [
    | inl met ↦ let same : y ≡ x = ground arith in (rw (← same) h, rw (← same) met)
    | inr unmet ↦ All-find? t xs x hs (rw unmet at e)
  ]

-- The pending request is the one of the current generation; numbers are given out in order.
abbrev pub IsCurrent : ℕ → Option ℕ → ℕ → Request → Type 0
IsCurrent generation pending next_id q =
    (q.sent_in ≤ generation)
    × (q.id < next_id)
    × (q.sent_in ≡ generation → pending ≡ some q.id)
    × (pending ≡ some q.id → q.sent_in ≡ generation)

pub set_listener-is_empty : (l i : ℕ) (ls : List (ℕ × ℕ)) → is_empty (set_listener l i ls) ≡ false
set_listener-is_empty l i [] = refl
set_listener-is_empty l i ((k, j) ∷ ls) = ground arith

module _ {Data : Type 0} where
  -- What every reachable resource satisfies.
  pub record IsWellFormed (r : Resource Data) : Type 0 where
    pub current : All (IsCurrent r.generation r.pending r.next_id) r.requests
    pub refreshes : r.state.refreshing ≡ is_some r.pending
    pub timed : r.timer ≡ scheduled r.listeners r.state.forbidden
    pub withheld : r.state.forbidden ≡ true → (r.state.reading ≡ none) × (r.pending ≡ none)
    pub listened : is_empty r.listeners ≡ true → r.pending ≡ none

  pub created-IsWellFormed : (hidden : Bool) → IsWellFormed (created hidden)
  created-IsWellFormed hidden = record {
    current = tt;
    refreshes = refl;
    timed = refl;
    withheld = λ h. ground arith;
    listened = λ h. refl;
  }

  module _ (options : Options Data) where
    pub send-IsWellFormed :
        (r : Resource Data)
        → IsWellFormed r
        → is_empty r.listeners ≡ false
        → r.state.forbidden ≡ false
        → r.pending ≡ none
        → IsWellFormed (send options r)
    send-IsWellFormed r w l f p = record {
      current = (
        (omega arith, omega arith, λ h. refl, λ h. refl),
        All-map (IsCurrent r.generation r.pending r.next_id)
            (IsCurrent r.generation (some r.next_id) (suc r.next_id)) r.requests
            (λ q c. (
              omega (arith, c),
              omega (arith, c),
              λ h. absurd (clash q.id (c.2 h)),
              λ h. absurd (later q.id r.next_id c.1 h),
            ))
            w.current,
      );
      refreshes = refl;
      timed = w.timed;
      withheld = λ h. ground arith;
      listened = λ h. ground arith;
    }
      where
        clash : (n : ℕ) → r.pending ≡ some n → ⊥
        clash n e = ground (arith, p, e)

        later : (a b : ℕ) → a < b → some b ≡ some a → ⊥
        later a b h e = ground arith

    pub try_refresh-IsWellFormed :
        (r : Resource Data) → IsWellFormed r → IsWellFormed (try_refresh options r)
    try_refresh-IsWellFormed r w =
        elim (Bool-cases
          (is_empty r.listeners || r.state.forbidden || r.hidden || is_some r.pending)) [
            | inl stop ↦ rw (try_refresh, stop) w
            | inr go ↦
                rw (try_refresh, go)
                  (send-IsWellFormed r w (ground arith) (ground arith) (ground arith))
          ]

    pub subscribed-IsWellFormed :
        (l i : ℕ) (r : Resource Data) → IsWellFormed r → IsWellFormed (subscribed options l i r)
    subscribed-IsWellFormed l i r w = record {
      current = w.current;
      refreshes = w.refreshes;
      timed = refl;
      withheld = w.withheld;
      listened = λ h. ground (arith, set_listener-is_empty l i r.listeners);
    }

    pub left-IsWellFormed : (r : Resource Data) → IsWellFormed r → IsWellFormed (left options r)
    left-IsWellFormed r w = record {
      current =
          All-map (IsCurrent r.generation r.pending r.next_id)
            (IsCurrent (suc r.generation) none r.next_id) r.requests
            (λ q c. (
              omega (arith, c),
              c.1,
              λ h. absurd (over q.sent_in r.generation c.0 h),
              λ h. ground arith,
            ))
            w.current;
      refreshes = refl;
      timed = refl;
      withheld = λ h. ((w.withheld h).0, refl);
      listened = λ h. refl;
    }
      where
        over : (a b : ℕ) → a ≤ b → a ≡ suc b → ⊥
        over a b h e = omega (arith, h, e)

    pub unsubscribed-IsWellFormed :
        (l : ℕ) (r : Resource Data) → IsWellFormed r → IsWellFormed (unsubscribed options l r)
    unsubscribed-IsWellFormed l r w =
        elim (Bool-cases (is_empty (filter (λ k. not (eqb k.0 l)) r.listeners))) [
          | inl gone ↦ rw (unsubscribed, gone) (left-IsWellFormed r w)
          | inr some_left ↦
              rw (unsubscribed, some_left)
                (record {
                  current = w.current;
                  refreshes = w.refreshes;
                  timed = refl;
                  withheld = w.withheld;
                  listened = λ h. ground arith;
                })
        ]
