-- ===== src/Search/Cache/Steps.antt =====
-- Every step of the cache of search pages keeps the invariant of Search/Cache/Invariant.antt.
use jobs_scraper_global.Prelude.{
  ℕ, ◌≤◌, String, ◌≡◌, refl, sym, ◌∙◌, ◌↔◌, Option, none, some, Bool-cases, inl, inr,
}
use jobs_scraper_global.Search.Cache.Server.{Generation, Server, generation}
use jobs_scraper_global.Search.Cache.Flight.{
  Phase, reading, checking, querying, writing, settled, following, State, Setting, update, Move,
  call, generation_read, generation_failed, bypass, join, page_read, read_failed, check,
  check_failed, queried, query_failed, write_failed, follow, answer_directly, fail_directly,
  checked, key_of, same_as_current, moved,
}
use jobs_scraper_global.Search.Cache.Invariant.{
  update-each, IsAnswer, IsSound, Leads, Promises, Follows, IsCoherent, Move-IsSound,
}

module _ {Query Normal Page : Type 0} (x : Setting Query Normal Page) where
  -- Another phase for one call that leads and promises what its old phase did.
  module _ (s : State Query Page) (inv : IsCoherent x s) (i : ℕ) (p : Phase Query Page) where
    Promises-update :
        (n : Normal) (g : Generation)
        → (Promises x n g (s.calls i) → Promises x n g p)
        → (l : ℕ) → Promises x n g (s.calls l)
        → Promises x n g (update s.calls i p l)
    Promises-update n g keep =
        update-each (λ l p'. Promises x n g (s.calls l) → Promises x n g p') s.calls i p keep
          (λ l other m. m)

    Follows-update :
        ((n : Normal) (g : Generation) → Promises x n g (s.calls i) → Promises x n g p)
        → (f : Phase Query Page) → Follows x s.calls f
        → Follows x (update s.calls i p) f
    Follows-update keep (following b q g l) m =
        Promises-update (x.normal q) g (keep (x.normal q) g) l m
    Follows-update keep _ m = tt

    pub followers-update :
        ((n : Normal) (g : Generation) → Promises x n g (s.calls i) → Promises x n g p)
        → Follows x s.calls p
        → (j : ℕ) → Follows x (update s.calls i p) (update s.calls i p j)
    followers-update keep f =
        update-each (λ j p'. Follows x (update s.calls i p) p') s.calls i p
          (Follows-update keep p f) (λ j other. Follows-update keep (s.calls j) (inv.followers j))

    pub phases-update : IsSound x s.changes p → (j : ℕ) → IsSound x s.changes (update s.calls i p j)
    phases-update w =
        update-each (λ j p'. IsSound x s.changes p') s.calls i p w (λ j other. inv.phases j)

    pub moved-IsCoherent :
        IsSound x s.changes p
        → ((k : String) → Leads x k (s.calls i) → Leads x k p)
        → ((k : String) → Leads x k p → Leads x k (s.calls i))
        → ((n : Normal) (g : Generation) → Promises x n g (s.calls i) → Promises x n g p)
        → Follows x s.calls p
        → IsCoherent x (moved x s i p)
    moved-IsCoherent w lead_on leads keep f = record {
      current = inv.current;
      phases = phases-update w;
      entries = inv.entries;
      flights = λ k l e.
          update-each (λ j p'. s.in_flight k ≡ some j → Leads x k p') s.calls i p
            (λ h. lead_on k (inv.flights k i h)) (λ j other h. inv.flights k j h) l e;
      leaders = λ j k m.
          update-each (λ j p'. Leads x k p' → s.in_flight k ≡ some j) s.calls i p
            (λ h. inv.leaders i k (leads k h)) (λ j other h. inv.leaders j k h) j m;
      followers = followers-update keep f;
    }

  -- Another server of the same generation.
  pub served-IsCoherent :
      (s : State Query Page) (server : Server Page)
      → IsCoherent x s
      → generation server ≡ generation s.server
      → ((k : String) (page : Page) (d : ℕ)
          → server.pages k ≡ some (page, d)
          → (q : Query) (g : Generation) → key_of x q g ≡ k
          → (x.epoch g ≤ s.changes) × IsAnswer x (x.epoch g) q page)
      → IsCoherent x (record s { server = server })
  served-IsCoherent s server inv same held = record {
    current = λ g e. inv.current g (sym same ∙ e);
    phases = inv.phases;
    entries = held;
    flights = inv.flights;
    leaders = inv.leaders;
    followers = inv.followers;
  }

  checked-Leads :
      (k : String) (b c : ℕ) (q : Query) (g : Generation) (o : Option Page) (h : Option Generation)
      → (key_of x q g ≡ k) ↔ Leads x k (checked b c q g o h)
  checked-Leads k b c q g none h = (λ m. m, λ m. m)
  checked-Leads k b c q g (some page) h = elim (Bool-cases (same_as_current g h)) [
    | inl hit ↦ rw (checked, hit) (λ m. m, λ m. m)
    | inr old ↦ rw (checked, old) (λ m. m, λ m. m)
  ]

  checked-Promises :
      (n : Normal) (g' : Generation) (b c : ℕ) (q : Query) (g : Generation) (o : Option Page)
      (h : Option Generation)
      → (x.normal q ≡ n) × (g ≡ g')
      → Promises x n g' (checked b c q g o h)
  checked-Promises n g' b c q g none h m = m
  checked-Promises n g' b c q g (some page) h m = elim (Bool-cases (same_as_current g h)) [
    | inl hit ↦ rw (checked, hit) m
    | inr old ↦ rw (checked, old) m
  ]

  checked-Follows :
      (calls : ℕ → Phase Query Page) (b c : ℕ) (q : Query) (g : Generation) (o : Option Page)
      (h : Option Generation)
      → Follows x calls (checked b c q g o h)
  checked-Follows calls b c q g none h = tt
  checked-Follows calls b c q g (some page) h = elim (Bool-cases (same_as_current g h)) [
    | inl hit ↦ rw (checked, hit) tt
    | inr old ↦ rw (checked, old) tt
  ]

  Move-Leads :
      (s : State Query Page) {p p' : Phase Query Page} (k : String)
      → Move x s p p'
      → Leads x k p ↔ Leads x k p'
  Move-Leads s k (check b q g o) = checked-Leads k b s.changes q g o (generation s.server)
  Move-Leads s k (call q) = (λ m. m, λ m. m)
  Move-Leads s k (generation_read b q) = (λ m. m, λ m. m)
  Move-Leads s k (generation_failed b q) = (λ m. m, λ m. m)
  Move-Leads s k (bypass b q) = (λ m. m, λ m. m)
  Move-Leads s k (join b q g l e) = (λ m. m, λ m. m)
  Move-Leads s k (page_read b q g) = (λ m. m, λ m. m)
  Move-Leads s k (read_failed b q g) = (λ m. m, λ m. m)
  Move-Leads s k (check_failed b q g o) = (λ m. m, λ m. m)
  Move-Leads s k (queried b since q g page e) = (λ m. m, λ m. m)
  Move-Leads s k (query_failed b since q g) = (λ m. m, λ m. m)
  Move-Leads s k (write_failed b q g page) = (λ m. m, λ m. m)
  Move-Leads s k (follow b q g l r e) = (λ m. m, λ m. m)
  Move-Leads s k (answer_directly b since q page e) = (λ m. m, λ m. m)
  Move-Leads s k (fail_directly b since q) = (λ m. m, λ m. m)

  Move-Promises :
      (s : State Query Page) {p p' : Phase Query Page} (n : Normal) (g' : Generation)
      → Move x s p p'
      → Promises x n g' p
      → Promises x n g' p'
  Move-Promises s n g' (check b q g o) m =
      checked-Promises n g' b s.changes q g o (generation s.server) m
  Move-Promises s n g' (page_read b q g) m = m
  Move-Promises s n g' (read_failed b q g) m = m
  Move-Promises s n g' (check_failed b q g o) m = m
  Move-Promises s n g' (queried b since q g page e) m = m
  Move-Promises s n g' (query_failed b since q g) m = m
  Move-Promises s n g' (write_failed b q g page) m = m
  Move-Promises s n g' _ m = absurd m

  module _
      (no_collision : (n m : Normal) (g h : Generation)
        → x.key n g ≡ x.key m h
        → (n ≡ m) × (g ≡ h)) where
    Leads-Promises :
        (k : String) (q : Query) (g : Generation) (p : Phase Query Page)
        → key_of x q g ≡ k
        → Leads x k p
        → Promises x (x.normal q) g p
    Leads-Promises k q g (reading b q' h) e m = no_collision _ _ _ _ (m ∙ sym e)
    Leads-Promises k q g (checking b q' h o) e m = no_collision _ _ _ _ (m ∙ sym e)
    Leads-Promises k q g (querying b since q' h) e m = no_collision _ _ _ _ (m ∙ sym e)
    Leads-Promises k q g (writing b q' h page) e m = no_collision _ _ _ _ (m ∙ sym e)
    Leads-Promises k q g (settled b q' h r) e m = no_collision _ _ _ _ (m ∙ sym e)
    Leads-Promises k q g _ e m = absurd m

    module _ (s : State Query Page) (inv : IsCoherent x s) where
      Move-Follows :
          {p p' : Phase Query Page} → Move x s p p' → Follows x s.calls p → Follows x s.calls p'
      Move-Follows (join b q g l e) f =
          Leads-Promises (key_of x q g) q g (s.calls l) refl (inv.flights (key_of x q g) l e)
      Move-Follows (check b q g o) f =
          checked-Follows s.calls b s.changes q g o (generation s.server)
      Move-Follows (call q) f = tt
      Move-Follows (generation_read b q) f = tt
      Move-Follows (generation_failed b q) f = tt
      Move-Follows (bypass b q) f = tt
      Move-Follows (page_read b q g) f = tt
      Move-Follows (read_failed b q g) f = tt
      Move-Follows (check_failed b q g o) f = tt
      Move-Follows (queried b since q g page e) f = tt
      Move-Follows (query_failed b since q g) f = tt
      Move-Follows (write_failed b q g page) f = tt
      Move-Follows (follow b q g l r e) f = tt
      Move-Follows (answer_directly b since q page e) f = tt
      Move-Follows (fail_directly b since q) f = tt

      pub move-IsCoherent :
          (i : ℕ) {p : Phase Query Page} → Move x s (s.calls i) p → IsCoherent x (moved x s i p)
      move-IsCoherent i {p} m =
          moved-IsCoherent s inv i p (Move-IsSound x s inv m (inv.phases i) (inv.followers i))
            (λ k. (Move-Leads s k m).0) (λ k. (Move-Leads s k m).1) (λ n g. Move-Promises s n g m)
            (Move-Follows m (inv.followers i))
