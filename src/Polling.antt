-- ===== src/Polling.antt =====
-- A polled resource of the administration's front end: front_admin/src/lib/polling/pollingResource.ts.
pub mod Subscriptions
pub mod Safety
pub mod Runs
mod Tests
use jobs_scraper_global.Prelude.{
  ℕ, suc, String, Bool, true, false, not, ◌&&◌, ◌||◌, Option, none, some, List, [], ◌∷◌, filter,
  find?, is_some, min, eqb, ltb, if◌then◌else◌,
}

-- `PollingState`; its `data` is called `reading` here.
pub record PollingState (Data : Type 0) : Type 0 where
  pub reading : Option Data
  pub loading : Bool
  pub refreshing : Bool
  pub stale : Bool
  pub forbidden : Bool
  pub error : Option String
  pub updated_at : Option String

-- A request that has not settled: its number, and the generation that it was sent in.
pub record Request : Type 0 where
  pub id : ℕ
  pub sent_in : ℕ

-- The variables of `createPollingResource`, `document.hidden`, and the requests that are out.
-- `timer` holds the interval that is set.
pub record Resource (Data : Type 0) : Type 0 where
  pub state : PollingState Data
  pub listeners : List (ℕ × ℕ)
  pub timer : Option ℕ
  pub pending : Option ℕ
  pub generation : ℕ
  pub hidden : Bool
  pub requests : List Request
  pub next_id : ℕ

-- `Options`; `timestamp` gives the time of the data, or that of the clock.
pub record Options (Data : Type 0) : Type 0 where
  pub error_message : String
  pub unavailable_message : Option String
  pub accept : Data → Bool
  pub timestamp : Data → String

-- How a request settles: with data, or with an error and the status of an `ApiError`, if it is one.
pub data Outcome (Data : Type 0) : Type 0 where
  loaded : Data → Outcome Data
  failed : Option ℕ → Outcome Data

-- The calls from outside, and what the browser brings about.
pub data Event (Data : Type 0) : Type 0 where
  refresh : Event Data
  subscribe : ℕ → ℕ → Event Data
  unsubscribe : ℕ → Event Data
  settle : ℕ → Outcome Data → Event Data
  set_hidden : Bool → Event Data

abbrev pub is_empty : List (ℕ × ℕ) → Bool
is_empty [] = true
is_empty (l ∷ ls) = false

-- `Math.min(...listeners.values())` of at least one listener.
abbrev pub least : ℕ → List (ℕ × ℕ) → ℕ
least i [] = i
least i ((l, j) ∷ ls) = least (min i j) ls

-- What `schedule` leaves in the timer. Without listeners the least interval is infinite, and a
-- timer is not set then by any caller.
abbrev pub scheduled : List (ℕ × ℕ) → Bool → Option ℕ
scheduled [] forbidden = none
scheduled ((l, i) ∷ ls) forbidden =
    if not forbidden && ltb 0 (least i ls) then some (least i ls) else none

abbrev pub set_listener : ℕ → ℕ → List (ℕ × ℕ) → List (ℕ × ℕ)
set_listener l i [] = (l, i) ∷ []
set_listener l i ((k, j) ∷ ls) =
    let rest = set_listener l i ls in if eqb k l then (k, i) ∷ ls else (k, j) ∷ rest

abbrev pub is_forbidden : Option ℕ → Bool
is_forbidden none = false
is_forbidden (some status) = eqb status 401 || eqb status 403

abbrev pub is_request : ℕ → Request → Bool
is_request id q = eqb q.id id

abbrev pub is_pending : ℕ → Option ℕ → Bool
is_pending id none = false
is_pending id (some p) = eqb p id

module _ {Data : Type 0} (options : Options Data) where
  -- The start of a request.
  abbrev pub send : Resource Data → Resource Data
  send r = record r {
    state = record r.state { refreshing = true };
    pending = some r.next_id;
    requests = record { id = r.next_id; sent_in = r.generation } ∷ r.requests;
    next_id = suc r.next_id;
  }

  abbrev pub try_refresh : Resource Data → Resource Data
  try_refresh r =
      if is_empty r.listeners || r.state.forbidden || r.hidden || is_some r.pending
      then r
      else send r

  abbrev pub subscribed : ℕ → ℕ → Resource Data → Resource Data
  subscribed l i r = record r {
    listeners = set_listener l i r.listeners;
    timer = scheduled (set_listener l i r.listeners) r.state.forbidden;
  }

  -- The last listener has left.
  abbrev pub left : Resource Data → Resource Data
  left r = record r {
    listeners = [];
    timer = none;
    pending = none;
    generation = suc r.generation;
    state = record r.state { refreshing = false; stale = is_some r.state.reading || r.state.stale };
  }

  abbrev pub unsubscribed : ℕ → Resource Data → Resource Data
  unsubscribed l r =
      let rest = filter (λ k. not (eqb k.0 l)) r.listeners in
      if is_empty rest
      then left r
      else record r { listeners = rest; timer = scheduled rest r.state.forbidden }

  abbrev pub accepted : Data → PollingState Data → PollingState Data
  accepted d s = record s {
    reading = some d;
    loading = false;
    stale = false;
    error = none;
    updated_at = some (options.timestamp d);
  }

  abbrev pub message_or : Option String → String → String
  message_or none m = m
  message_or (some u) m = u

  abbrev pub rejected : PollingState Data → PollingState Data
  rejected s = record s {
    stale = true;
    loading = false;
    error = some (message_or options.unavailable_message options.error_message);
  }

  abbrev pub refused : PollingState Data → PollingState Data
  refused s = record s {
    loading = false;
    stale = true;
    forbidden = true;
    reading = none;
    updated_at = none;
    error = some "Sem autorização para consultar este recurso.";
  }

  abbrev pub broken : PollingState Data → PollingState Data
  broken s = record s {
    loading = false;
    stale = true;
    forbidden = false;
    error = some options.error_message;
  }

  -- The `then` and the `catch` of a request of the current generation.
  abbrev pub publish : Outcome Data → Resource Data → Resource Data
  publish (loaded d) r = record r {
    state = if options.accept d then accepted d r.state else rejected r.state;
  }
  publish (failed status) r =
      if is_forbidden status
      then record r { state = refused r.state; timer = none }
      else record r { state = broken r.state }

  -- The `finally`.
  abbrev pub finish : ℕ → ℕ → Resource Data → Resource Data
  finish id sent_in r =
      if is_pending id r.pending
      then record r {
        pending = none;
        state =
            if eqb sent_in r.generation && not (is_empty r.listeners)
            then record r.state { refreshing = false }
            else r.state;
      }
      else r

  abbrev pub settled : ℕ → Outcome Data → Option Request → Resource Data → Resource Data
  settled id o none r = r
  settled id o (some q) r =
      let out = record r { requests = filter (λ p. not (is_request id p)) r.requests } in
      finish id q.sent_in
        (if eqb q.sent_in r.generation && not (is_empty r.listeners) then publish o out else out)

  unfoldable pub step : Event Data → Resource Data → Resource Data
  step refresh r = try_refresh r
  step (subscribe l i) r = subscribed l i r
  step (unsubscribe l) r = unsubscribed l r
  step (settle id o) r = settled id o (find? (is_request id) r.requests) r
  step (set_hidden b) r = record r { hidden = b }

  unfoldable pub run : List (Event Data) → Resource Data → Resource Data
  run [] r = r
  run (e ∷ es) r = run es (step e r)

-- The resource as it is created.
abbrev pub created : {Data : Type 0} → Bool → Resource Data
created hidden = record {
  state = record {
    reading = none;
    loading = true;
    refreshing = false;
    stale = false;
    forbidden = false;
    error = none;
    updated_at = none;
  };
  listeners = [];
  timer = none;
  pending = none;
  generation = 0;
  hidden = hidden;
  requests = [];
  next_id = 0;
}
