-- ===== src/Polling/Runs.antt =====
-- A polled resource from its creation on.
use jobs_scraper_global.Prelude.{
  ℕ, ◌≡◌, refl, sym, ◌∙◌, ap, ◌≢◌, Bool, true, false, not, ◌||◌, Option, none, some, List, [], ◌∷◌,
  filter, find?, is_some, eqb, arith, Bool-cases, inl, inr,
}
use jobs_scraper_global.Polling.{
  Request, Resource, Options, Outcome, Event, refresh, subscribe, unsubscribe, settle, set_hidden,
  is_empty, is_request, is_pending, try_refresh, unsubscribed, finish, settled, step, run, created,
}
use jobs_scraper_global.Polling.Subscriptions.{
  IsWellFormed, IsCurrent, All-find?, created-IsWellFormed,
}
use jobs_scraper_global.Polling.Safety.{step-IsWellFormed}

is_pending-some : (id : ℕ) (p : Option ℕ) → is_pending id p ≡ true → p ≡ some id
is_pending-some id none h = ground arith
is_pending-some id (some n) h = ground arith

module _ {Data : Type 0} (options : Options Data) where
  run-keeps :
      (es : List (Event Data)) (r : Resource Data)
      → IsWellFormed r
      → IsWellFormed (run options es r)
  unfolding run
  run-keeps [] r w = w
  run-keeps (e ∷ es) r w = run-keeps es (step options e r) (step-IsWellFormed options e r w)

  -- After any events on a new resource: a request that is out is of the current generation exactly
  -- when it is the pending one, `refreshing` says whether there is one, the timer has the least
  -- interval of the listeners and is off when that is 0, without listeners, or when access was
  -- refused; a refused resource shows no data and has no pending request; and without listeners none
  -- is pending.
  pub run-IsWellFormed :
      (hidden : Bool) (es : List (Event Data)) → IsWellFormed (run options es (created hidden))
  run-IsWellFormed hidden es = run-keeps es (created hidden) (created-IsWellFormed hidden)

  settled-forbidden :
      (id : ℕ) (o : Outcome Data) (q : Option Request) (r : Resource Data)
      → r.state.forbidden ≡ true
      → r.pending ≡ none
      → ((s : Request) → q ≡ some s → eqb s.sent_in r.generation ≡ false)
      → (settled options id o q r).state.forbidden ≡ true
  settled-forbidden id o none r f p c = f
  settled-forbidden id o (some s) r f p c =
      let old = c s refl in
      let quiet : is_pending id r.pending ≡ false = ground arith in rw (old, finish, quiet) f

  step-forbidden :
      (e : Event Data) (r : Resource Data)
      → IsWellFormed r
      → r.state.forbidden ≡ true
      → (step options e r).state.forbidden ≡ true
  unfolding step
  step-forbidden refresh r w f =
      elim (Bool-cases
        (is_empty r.listeners || r.state.forbidden || r.hidden || is_some r.pending)) [
          | inl stop ↦ rw (try_refresh, stop) f
          | inr go ↦ ground arith
        ]
  step-forbidden (subscribe l i) r w f = f
  step-forbidden (unsubscribe l) r w f =
      elim (Bool-cases (is_empty (filter (λ k. not (eqb k.0 l)) r.listeners))) [
        | inl gone ↦ rw (unsubscribed, gone) f
        | inr some_left ↦ rw (unsubscribed, some_left) f
      ]
  step-forbidden (settle id o) r w f =
      settled-forbidden id o (find? (is_request id) r.requests) r f (w.withheld f).1 (λ q found.
        old q
          (All-find? (IsCurrent r.generation r.pending r.next_id) (λ x. Unit) (is_request id)
            r.requests q w.current found).0
          (w.withheld f).1)
    where
      old :
          (q : Request)
          → IsCurrent r.generation r.pending r.next_id q
          → r.pending ≡ none
          → eqb q.sent_in r.generation ≡ false
      old q c n = ground (arith, c.2)
  step-forbidden (set_hidden b) r w f = f

  run-forbidden_from :
      (es : List (Event Data)) (r : Resource Data)
      → IsWellFormed r
      → r.state.forbidden ≡ true
      → (run options es r).state.forbidden ≡ true
  unfolding run
  run-forbidden_from [] r w f = f
  run-forbidden_from (e ∷ es) r w f =
      run-forbidden_from es (step options e r) (step-IsWellFormed options e r w)
        (step-forbidden e r w f)

  -- Once access to a resource has been refused, it shows no data and sends nothing after any further
  -- events, whoever subscribes and whatever settles.
  pub run-forbidden :
      (hidden : Bool) (es later : List (Event Data))
      → (run options es (created hidden)).state.forbidden ≡ true
      → ((run options later (run options es (created hidden))).state.reading ≡ none)
        × ((run options later (run options es (created hidden))).pending ≡ none)
  run-forbidden hidden es later f =
      let r = run options es (created hidden) in
      let w = run-IsWellFormed hidden es in
      (run-keeps later r w).withheld (run-forbidden_from later r w f)

  -- A request that was sent in an earlier generation changes neither what is shown nor the pending
  -- request when it settles, however it does.
  pub settle-old :
      (hidden : Bool) (es : List (Event Data)) (id : ℕ) (o : Outcome Data) (q : Request)
      → find? (is_request id) (run options es (created hidden)).requests ≡ some q
      → q.sent_in ≢ (run options es (created hidden)).generation
      → ((step options (settle id o) (run options es (created hidden))).state
          ≡ (run options es (created hidden)).state)
        × ((step options (settle id o) (run options es (created hidden))).pending
            ≡ (run options es (created hidden)).pending)
  unfolding step
  settle-old hidden es id o q found n =
      stale (run options es (created hidden)) (run-IsWellFormed hidden es) found n
    where
      stale :
          (r : Resource Data)
          → IsWellFormed r
          → find? (is_request id) r.requests ≡ some q
          → q.sent_in ≢ r.generation
          → ((settled options id o (find? (is_request id) r.requests) r).state ≡ r.state)
            × ((settled options id o (find? (is_request id) r.requests) r).pending ≡ r.pending)
      stale r w e m =
          let (c, is_it) =
            All-find? (IsCurrent r.generation r.pending r.next_id) (λ x. Unit) (is_request id)
              r.requests q w.current e in
          let same : q.id ≡ id = ground arith in
          let old : eqb q.sent_in r.generation ≡ false = ground (arith, m) in
          let other : is_pending id r.pending ≡ false =
            (elim (Bool-cases (is_pending id r.pending)) [
              | inr no_more ↦ no_more
              | inl it ↦
                  absurd (m (c.3 (is_pending-some id r.pending it ∙ ap (λ x. some x) (sym same))))
            ]) in
          rw (e, old, finish, other) (refl, refl)
