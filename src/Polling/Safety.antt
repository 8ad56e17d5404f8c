-- ===== src/Polling/Safety.antt =====
-- What holds of a polled resource after any events.
use jobs_scraper_global.Prelude.{
  ℕ, ◌≡◌, refl, sym, ◌∙◌, ap, true, false, not, ◌&&◌, Option, none, some, List, [], ◌∷◌, filter,
  find?, eqb, if◌then◌else◌, arith, Bool-cases, Option-cases, inl, inr, All-filter,
}
use jobs_scraper_global.Polling.{
  PollingState, Request, Resource, Options, Outcome, loaded, failed, Event, refresh, subscribe,
  unsubscribe, settle, set_hidden, is_empty, scheduled, is_forbidden, is_request, is_pending,
  accepted, rejected, refused, broken, publish, finish, settled, step,
}
use jobs_scraper_global.Polling.Subscriptions.{
  try_refresh-IsWellFormed, subscribed-IsWellFormed, unsubscribed-IsWellFormed, IsCurrent,
  IsWellFormed, All-filter_map, All-find?,
}

module _ {Data : Type 0} where
  module _ (options : Options Data) where
    abbrev kept : ℕ → List Request → List Request
    kept id qs = filter (λ p. not (is_request id p)) qs

    -- The pending request ends with the given state and timer.
    ended-IsWellFormed :
        (id : ℕ) (r : Resource Data) (s : PollingState Data) (t : Option ℕ)
        → IsWellFormed r
        → r.pending ≡ some id
        → t ≡ scheduled r.listeners s.forbidden
        → (s.forbidden ≡ true → s.reading ≡ none)
        → IsWellFormed (
            finish options id r.generation
              (record r { state = s; timer = t; requests = kept id r.requests }))
    ended-IsWellFormed id r s t w p timed withheld =
        rw (finish, is_it, same r.generation, heard)
          record {
            current =
                All-filter_map (IsCurrent r.generation r.pending r.next_id)
                  (IsCurrent r.generation none r.next_id) (λ q. not (is_request id q)) r.requests
                  (λ q other c.
                    (c.0, c.1, λ h. absurd (twice q.id other (c.2 h)), λ h. ground arith))
                  w.current;
            refreshes = refl;
            timed = timed;
            withheld = λ h. (withheld h, refl);
            listened = λ h. refl;
          }
      where
        is_it : is_pending id r.pending ≡ true
        is_it = ground arith

        same : (n : ℕ) → eqb n n ≡ true
        same n = ground arith

        heard : is_empty r.listeners ≡ false
        heard = ground (arith, w.listened)

        twice : (n : ℕ) → not (eqb n id) ≡ true → r.pending ≡ some n → ⊥
        twice n h e = ground arith

    scheduled-forbidden : (ls : List (ℕ × ℕ)) → scheduled ls true ≡ none
    scheduled-forbidden [] = refl
    scheduled-forbidden ((l, i) ∷ ls) = refl

    allowed :
        (id : ℕ) (r : Resource Data)
        → IsWellFormed r
        → r.pending ≡ some id
        → r.state.forbidden ≡ false
    allowed id r w p = ground (arith, w.withheld)

    now-IsWellFormed :
        (id : ℕ) (o : Outcome Data) (r : Resource Data)
        → IsWellFormed r
        → r.pending ≡ some id
        → IsWellFormed (
            finish options id r.generation
              (publish options o (record r { requests = kept id r.requests })))
    now-IsWellFormed id (loaded d) r w p = elim (Bool-cases (options.accept d)) [
      | inl met ↦ rw met (
          ended-IsWellFormed id r (accepted options d r.state) r.timer w p w.timed
            (λ h. ground (arith, allowed id r w p)))
      | inr unmet ↦ rw unmet (
          ended-IsWellFormed id r (rejected options r.state) r.timer w p w.timed
            (λ h. ground (arith, allowed id r w p)))
    ]
    now-IsWellFormed id (failed status) r w p = elim (Bool-cases (is_forbidden status)) [
      | inl met ↦ rw met (
          ended-IsWellFormed id r (refused options r.state) none w p
            (sym (scheduled-forbidden r.listeners)) (λ h. refl))
      | inr unmet ↦ rw unmet (
          ended-IsWellFormed id r (broken options r.state) r.timer w p
            (w.timed ∙ ap (scheduled r.listeners) (allowed id r w p)) (λ h. ground arith))
    ]

    late-IsWellFormed :
        (id : ℕ) (r : Resource Data)
        → IsWellFormed r
        → is_pending id r.pending ≡ false
        → IsWellFormed (record r { requests = filter (λ p. not (is_request id p)) r.requests })
    late-IsWellFormed id r w p = record {
      current =
          All-filter (IsCurrent r.generation r.pending r.next_id) (λ p. not (is_request id p))
            r.requests w.current;
      refreshes = w.refreshes;
      timed = w.timed;
      withheld = w.withheld;
      listened = w.listened;
    }

    settle_at :
        (id n : ℕ) (o : Outcome Data) (r : Resource Data)
        → IsWellFormed r
        → (n ≡ r.generation → r.pending ≡ some id)
        → (r.pending ≡ some id → n ≡ r.generation)
        → IsWellFormed (
            finish options id n (
              if eqb n r.generation && not (is_empty r.listeners)
              then publish options o (record r { requests = kept id r.requests })
              else record r { requests = kept id r.requests }))
    settle_at id n o r w now pending = elim (Bool-cases (is_pending id r.pending)) [
      | inl it ↦
          let p : r.pending ≡ some id = ground arith in
          let heard : is_empty r.listeners ≡ false = ground (arith, w.listened) in
          let same : eqb r.generation r.generation ≡ true = ground arith in
          rw (pending p, same, heard) (now-IsWellFormed id o r w p)
      | inr other ↦
          let late : eqb n r.generation ≡ false = ground (arith, now) in
          rw (late, finish, other) (late-IsWellFormed id r w other)
    ]

    settled-IsWellFormed :
        (id : ℕ) (o : Outcome Data) (r : Resource Data)
        → IsWellFormed r
        → IsWellFormed (settled options id o (find? (is_request id) r.requests) r)
    settled-IsWellFormed id o r w = elim (Option-cases (find? (is_request id) r.requests)) [
      | inl nothing ↦ rw nothing w
      | inr (q, found) ↦
          let (c, is_it) =
            All-find? (IsCurrent r.generation r.pending r.next_id) (λ x. Unit) (is_request id)
              r.requests q w.current found in
          let same : q.id ≡ id = ground arith in
          rw found (
            settle_at id q.sent_in o r w (λ h. c.2 h ∙ ap (λ n. some n) same)
              (λ h. c.3 (h ∙ ap (λ n. some n) (sym same))))
    ]

    pub step-IsWellFormed :
        (e : Event Data) (r : Resource Data) → IsWellFormed r → IsWellFormed (step options e r)
    unfolding step
    step-IsWellFormed refresh r w = try_refresh-IsWellFormed options r w
    step-IsWellFormed (subscribe l i) r w = subscribed-IsWellFormed options l i r w
    step-IsWellFormed (unsubscribe l) r w = unsubscribed-IsWellFormed options l r w
    step-IsWellFormed (settle id o) r w = settled-IsWellFormed id o r w
    step-IsWellFormed (set_hidden b) r w = record {
      current = w.current;
      refreshes = w.refreshes;
      timed = w.timed;
      withheld = w.withheld;
      listened = w.listened;
    }
