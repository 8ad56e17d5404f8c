-- ===== src/Search/Cache/Flights.antt =====
-- The steps of the cache of search pages that change the map of promises or the stored pages keep its
-- invariant.
use jobs_scraper_global.Prelude.{
  ℕ, ◌≤◌, String, ◌≡◌, refl, sym, ◌∙◌, ap, true, false, Option, none, some, eqb, ◌==◌, eq_iff,
  arith, Bool-cases, inl, inr,
}
use mathlib.Core.Path.{subst}
use jobs_scraper_global.Search.Cache.Server.{
  Generation, Server, generation, put, write_if_generation, write_if_generation-stored,
  write_if_generation-refused,
}
use jobs_scraper_global.Search.Cache.Flight.{
  looked, reading, writing, settled, led, State, Setting, update, key_of, moved, took_off, stored,
  landed,
}
use jobs_scraper_global.Search.Cache.Invariant.{
  update-each, IsAnswer, IsSound, Leads, Promises, IsCoherent,
}
use jobs_scraper_global.Search.Cache.Steps.{
  phases-update, followers-update, moved-IsCoherent, served-IsCoherent,
}

update_self : {A : Type 0} (f : ℕ → A) (i : ℕ) (a : A) → update f i a i ≡ a
update_self f i a = let same : eqb i i ≡ true = ground arith in rw same

module _ {V : Type 0} (m : String → V) (k : String) (v : V) where
  put_at : (j : String) → (j == k) ≡ true → put m k v j ≡ v
  put_at j e = rw e

  put_away : (j : String) → (j == k) ≡ false → put m k v j ≡ m j
  put_away j e = rw e

module _ {Query Normal Page : Type 0} (x : Setting Query Normal Page) where
  module _ (s : State Query Page) (inv : IsCoherent x s) where
    module _ (i b : ℕ) (q : Query) (g : Generation) (e : s.calls i ≡ looked b q (some g))
        (free : s.in_flight (key_of x q g) ≡ none) where
      took_off-flights :
          (k : String) (l : ℕ)
          → put s.in_flight (key_of x q g) (some i) k ≡ some l
          → Leads x k (update s.calls i (reading b q g) l)
      took_off-flights k l h = elim (Bool-cases (k == key_of x q g)) [
        | inl here ↦
            let mine : i ≡ l = cc (h, put_at s.in_flight (key_of x q g) (some i) k here) in
            subst (λ j. Leads x k (update s.calls i (reading b q g) j)) mine
              (subst (Leads x k) (sym (update_self s.calls i (reading b q g)))
                (sym ((eq_iff k (key_of x q g)).0 here)))
        | inr away ↦
            update-each (λ j p. s.in_flight k ≡ some j → Leads x k p) s.calls i (reading b q g)
              (λ h'. absurd (subst (Leads x k) e (inv.flights k i h'))) (λ j other. inv.flights k j)
              l (sym (put_away s.in_flight (key_of x q g) (some i) k away) ∙ h)
      ]

      took_off-leaders :
          (j : ℕ) (k : String)
          → Leads x k (update s.calls i (reading b q g) j)
          → put s.in_flight (key_of x q g) (some i) k ≡ some j
      took_off-leaders j k =
          update-each (λ j p. Leads x k p → put s.in_flight (key_of x q g) (some i) k ≡ some j)
            s.calls i (reading b q g)
            (λ m.
              put_at s.in_flight (key_of x q g) (some i) k ((eq_iff k (key_of x q g)).1 (sym m)))
            (λ j other m. elim (Bool-cases (k == key_of x q g)) [
              | inl here ↦
                  let same : k ≡ key_of x q g = (eq_iff k (key_of x q g)).0 here in
                  cc (inv.leaders j k m, ap s.in_flight same, free)
              | inr away ↦ put_away s.in_flight (key_of x q g) (some i) k away ∙ inv.leaders j k m
            ])
            j

      pub took_off-IsCoherent : IsCoherent x (took_off x s i b q g)
      took_off-IsCoherent = record {
        current = inv.current;
        phases =
            phases-update x s inv i (reading b q g)
              ((subst (IsSound x s.changes) e (inv.phases i)).1 g refl);
        entries = inv.entries;
        flights = took_off-flights;
        leaders = took_off-leaders;
        followers =
            followers-update x s inv i (reading b q g)
              (λ n h m. absurd (subst (Promises x n h) e m)) tt;
      }

    module _ (i b : ℕ) (q : Query) (g : Generation) (r : Option Page)
        (e : s.calls i ≡ settled b q g r) where
      landed-flights :
          (k : String) (l : ℕ)
          → put s.in_flight (key_of x q g) none k ≡ some l
          → Leads x k (update s.calls i (led b s.changes q g r) l)
      landed-flights k l h = elim (Bool-cases (k == key_of x q g)) [
        | inl here ↦ cc (h, put_at s.in_flight (key_of x q g) none k here)
        | inr away ↦
            update-each (λ j p. s.in_flight k ≡ some j → Leads x k p) s.calls i
              (led b s.changes q g r)
              (λ h'.
                let same : key_of x q g ≡ k = subst (Leads x k) e (inv.flights k i h') in
                absurd (cc (away, (eq_iff k (key_of x q g)).1 (sym same))))
              (λ j other. inv.flights k j) l
              (sym (put_away s.in_flight (key_of x q g) none k away) ∙ h)
      ]

      landed-leaders :
          (j : ℕ) (k : String)
          → Leads x k (update s.calls i (led b s.changes q g r) j)
          → put s.in_flight (key_of x q g) none k ≡ some j
      landed-leaders j k =
          update-each (λ j p. Leads x k p → put s.in_flight (key_of x q g) none k ≡ some j) s.calls
            i (led b s.changes q g r) (λ m. absurd m)
            (λ j other m. elim (Bool-cases (k == key_of x q g)) [
              | inl here ↦
                  let same : key_of x q g ≡ k = sym ((eq_iff k (key_of x q g)).0 here) in
                  let mine : s.in_flight k ≡ some i =
                    inv.leaders i k (subst (Leads x k) (sym e) same) in
                  let one : i ≡ j = cc (mine, inv.leaders j k m) in ground (arith, other)
              | inr away ↦ put_away s.in_flight (key_of x q g) none k away ∙ inv.leaders j k m
            ])
            j

      pub landed-IsCoherent : IsCoherent x (landed x s i b q g r)
      landed-IsCoherent =
          let was = subst (IsSound x s.changes) e (inv.phases i) in
          record {
            current = inv.current;
            phases =
                phases-update x s inv i (led b s.changes q g r) (was.0, was.1, omega arith, was.2);
            entries = inv.entries;
            flights = landed-flights;
            leaders = landed-leaders;
            followers =
                followers-update x s inv i (led b s.changes q g r)
                  (λ n h m. subst (Promises x n h) e m) tt;
          }

    module _
        (no_collision : (n m : Normal) (g h : Generation)
          → x.key n g ≡ x.key m h
          → (n ≡ m) × (g ≡ h))
        (i b : ℕ) (q : Query) (g : Generation) (page : Page)
        (e : s.calls i ≡ writing b q g page) where
      as_settled : IsCoherent x (moved x s i (settled b q g (some page)))
      as_settled =
          moved-IsCoherent x s inv i (settled b q g (some page))
            (subst (IsSound x s.changes) e (inv.phases i)) (λ k m. subst (Leads x k) e m)
            (λ k m. subst (Leads x k) (sym e) m) (λ n h m. subst (Promises x n h) e m) tt

      stored-entries :
          (d : ℕ)
          → generation s.server ≡ some g
          → (k : String) (page' : Page) (d' : ℕ)
          → put s.server.pages (key_of x q g) (some (page, d)) k ≡ some (page', d')
          → (q' : Query) (g' : Generation) → key_of x q' g' ≡ k
          → (x.epoch g' ≤ s.changes) × IsAnswer x (x.epoch g') q' page'
      stored-entries d now k page' d' h q' g' ek = elim (Bool-cases (k == key_of x q g)) [
        | inr away ↦
            inv.entries k page' d'
              (sym (put_away s.server.pages (key_of x q g) (some (page, d)) k away) ∙ h) q' g' ek
        | inl here ↦
            let (nf, same) =
              no_collision (x.normal q') (x.normal q) g' g
                (ek ∙ (eq_iff k (key_of x q g)).0 here) in
            let at : x.epoch g ≡ s.changes = inv.current g now in
            let epochs : x.epoch g' ≡ x.epoch g = ap x.epoch same in
            let (asked, form, answers) =
              (subst (IsSound x s.changes) e (inv.phases i)).2 at page refl in
            let pages : page' ≡ page =
              cc (h, put_at s.server.pages (key_of x q g) (some (page, d)) k here) in
            (
              omega (arith, epochs, at),
              (asked, form ∙ sym nf, pages ∙ answers ∙ ap (x.answer asked) (sym epochs)),
            )
      ]

      pub stored-IsCoherent : IsCoherent x (stored x s i b q g page)
      stored-IsCoherent =
          elim (Bool-cases (write_if_generation (key_of x q g) page g x.ttl_seconds s.server).0) [
            | inr refused ↦
                subst with_server
                  (sym (
                    write_if_generation-refused (key_of x q g) page g x.ttl_seconds s.server
                      refused))
                  as_settled
            | inl written ↦
                let (d, becomes, now, soon, late, capped) =
                  write_if_generation-stored (key_of x q g) page g x.ttl_seconds s.server written in
                subst with_server (sym becomes) (
                  served-IsCoherent x (moved x s i (settled b q g (some page)))
                    (record s.server { pages = put s.server.pages (key_of x q g) (some (page, d)) })
                    as_settled refl (stored-entries d now))
          ]
        where
          with_server : Server Page → Type 0
          with_server v =
              IsCoherent x (record (moved x s i (settled b q g (some page))) { server = v })
