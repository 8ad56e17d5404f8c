-- ===== src/RateLimit/Window.antt =====
-- How many requests the limiter in memory lets pass while a window is open.
use jobs_scraper_global.Prelude.{
  ℕ, String, ◌≡◌, refl, sym, ◌∙◌, ap, ◌<◌, ◌≤◌, ◌+◌, ◌-◌, ◌*◌, Bool, true, false, ◌&&◌, Option,
  none, some, List, [], ◌∷◌, min, arith, eq_iff, eq_refl, ◌==◌, All, Bool-cases, Option-cases, inl,
  inr,
}
use jobs_scraper_global.RateLimit.{
  RateLimitConfig, RateLimitEntry, MemoryStore, get, set, opened, counted, next_entry,
  consume_from_memory, Outcome, passed, decide, key_of, limit_key, limit_request,
}

get-set :
    (key : String) (e : RateLimitEntry) (store : MemoryStore) → get key (set key e store) ≡ some e
get-set key e [] = rw (eq_refl key) refl
get-set key e ((k, old) ∷ store) = ground (arith, get-set key e store, eq_iff k key)

get-set_other :
    (key other : String) (e : RateLimitEntry) (store : MemoryStore)
    → (key == other) ≡ false
    → get other (set key e store) ≡ get other store
get-set_other key other e [] h = rw h refl
get-set_other key other e ((k, old) ∷ store) h =
    ground
      (arith, get-set_other key other e store h, eq_iff k key, eq_iff key other, eq_iff k other)

-- A request with the two readings of the clock.
abbrev pub Arrival : Type 0 → Type 0
Arrival Request = Request × ℕ × ℕ

abbrev has_key : String → Option String → Bool
has_key key none = false
has_key key (some k) = k == key

abbrev is_passed : Outcome → Bool
is_passed (passed h) = true
is_passed _ = false

abbrev one_more : Bool → ℕ → ℕ
one_more true n = n + 1
one_more false n = n

next_entry-open :
    (window_seconds now : ℕ) (e : RateLimitEntry)
    → now < e.reset_at
    → next_entry window_seconds now (some e) ≡ counted e
next_entry-open window_seconds now e h = ground arith

one_pass :
    (max_count answered : ℕ) (e : RateLimitEntry) (n : ℕ)
    → one_more
        (is_passed (decide max_count answered (some (counted e))))
        (min n (max_count - (e.count + 1)))
      ≡ min (n + 1) (max_count - e.count)
unfolding decide
one_pass max_count answered e n = ground arith

opened_pass :
    (m window_seconds now answered n : ℕ)
    → one_more (is_passed (decide m answered (some (opened window_seconds now)))) (min n (m - 1))
      ≡ min (n + 1) m
unfolding decide
opened_pass m window_seconds now answered n = ground arith

module _ {Request : Type 0} (config : RateLimitConfig Request) (key : String) where
  -- The requests for the key, and those of them that the limiter lets pass.
  abbrev pub asked : List (Arrival Request) → ℕ
  asked [] = 0
  asked ((request, now, answered) ∷ rest) =
      one_more (has_key key (key_of config request)) (asked rest)

  abbrev pub let_pass : List (Arrival Request) → MemoryStore → ℕ
  let_pass [] store = 0
  let_pass ((request, now, answered) ∷ rest) store =
      let (outcome, store') = limit_request consume_from_memory config request now answered store in
      one_more (has_key key (key_of config request) && is_passed outcome) (let_pass rest store')

  -- While the window of an entry is open, the limiter lets pass, of any requests in any order among
  -- those for other keys, the first ones for the key until the maximum is reached, and no others.
  pub let_pass-window :
      (arrivals : List (Arrival Request)) (store : MemoryStore) (e : RateLimitEntry)
      → get key store ≡ some e
      → All (λ a. a.1 < e.reset_at) arrivals
      → let_pass arrivals store ≡ min (asked arrivals) (config.max_count - e.count)
  unfolding limit_request consume_from_memory decide
  let_pass-window [] store e h w = omega arith
  let_pass-window ((request, now, answered) ∷ rest) store e h (w, ws) =
      elim (Option-cases (key_of config request)) [
        | inl n ↦ rw n (let_pass-window rest store e h ws)
        | inr (k, n) ↦ elim (Bool-cases (k == key)) [
          | inl same ↦
              rw
                (
                  n,
                  limit_key,
                  ap (λ x. get x store) ((eq_iff k key).0 same) ∙ h,
                  next_entry-open config.window_seconds now e w,
                  same,
                  let_pass-window rest (set k (counted e) store) (counted e)
                      (ap (λ x. get x (set k (counted e) store)) (sym ((eq_iff k key).0 same))
                        ∙ get-set k (counted e) store)
                      ws,
                )
                (one_pass config.max_count answered e (asked rest))
          | inr other ↦
              rw (n, other)
                (let_pass-window rest
                  (set k (next_entry config.window_seconds now (get k store)) store) e
                  (get-set_other k key (next_entry config.window_seconds now (get k store)) store
                      other
                    ∙ h)
                  ws)
        ]
      ]

  -- No entry for the key is open at the time.
  abbrev pub IsClosed : ℕ → Option RateLimitEntry → Type 0
  IsClosed now none = Unit
  IsClosed now (some e) = e.reset_at ≤ now

  -- From a request for a key without an open window and until its window ends, the limiter lets pass,
  -- of that request and any later ones in any order among those for other keys, exactly the first
  -- `max` for the key, or all when there are fewer.
  pub let_pass-opened :
      (request : Request) (now answered : ℕ) (rest : List (Arrival Request)) (store : MemoryStore)
      → key_of config request ≡ some key
      → IsClosed now (get key store)
      → All (λ a. a.1 < now + config.window_seconds * 1000) rest
      → let_pass ((request, now, answered) ∷ rest) store
        ≡ min (asked ((request, now, answered) ∷ rest)) config.max_count
  unfolding limit_request consume_from_memory
  let_pass-opened request now answered rest store n c ws =
      rw
        (
          n,
          limit_key,
          eq_refl key,
          next_entry-closed (get key store) c,
          let_pass-window rest (set key (opened config.window_seconds now) store)
              (opened config.window_seconds now)
              (get-set key (opened config.window_seconds now) store) ws,
        )
        (opened_pass config.max_count config.window_seconds now answered (asked rest))
    where
      next_entry-closed :
          (o : Option RateLimitEntry)
          → IsClosed now o
          → next_entry config.window_seconds now o ≡ opened config.window_seconds now
      next_entry-closed none c = refl
      next_entry-closed (some e) c = ground arith
