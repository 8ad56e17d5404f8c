-- ===== src/Search/Cache/Safety.antt =====
-- What callers of the cache of search pages can rely on.
use jobs_scraper_global.Prelude.{
  ℕ, suc, String, ◌≡◌, refl, sym, ◌∙◌, ap, true, Option, none, some, ◌==◌, arith, Bool-cases, inl,
  inr,
}
use mathlib.Core.Path.{subst}
use jobs_scraper_global.Search.Cache.Server.{Generation, generation, put, same_generation-eq}
use jobs_scraper_global.Search.Cache.Flight.{
  Phase, checking, led, answered, State, Setting, same_as_current, Step, move, take_off, store,
  land, change, pass, evict, Reach, here, next,
}
use jobs_scraper_global.Search.Cache.Invariant.{IsAnswer, IsSound, Leads, IsCoherent, IsSound-le}
use jobs_scraper_global.Search.Cache.Steps.{served-IsCoherent, move-IsCoherent}
use jobs_scraper_global.Search.Cache.Flights.{
  took_off-IsCoherent, stored-IsCoherent, landed-IsCoherent,
}

-- What a finished call has returned, and the changes of the catalog before it and before its end.
abbrev pub returned :
    {Query Page : Type 0} → Phase Query Page → Option (ℕ × ℕ × Query × Option Page)
returned (led b e q g r) = some (b, e, q, r)
returned (answered b e q r) = some (b, e, q, r)
returned _ = none

current-eq : (g : Generation) (h : Option Generation) → same_as_current g h ≡ true → h ≡ some g
current-eq g none e = ground arith
current-eq g (some h) e = ap some (same_generation-eq h g e)

module _ {Query Normal Page : Type 0} (x : Setting Query Normal Page)
    (no_collision : (n m : Normal) (g h : Generation)
      → x.key n g ≡ x.key m h
      → (n ≡ m) × (g ≡ h)) where
  put-none :
      (s : State Query Page) (k j : String) (page : Page) (d : ℕ)
      → put s.server.pages k none j ≡ some (page, d)
      → s.server.pages j ≡ some (page, d)
  put-none s k j page d h = elim (Bool-cases (j == k)) [
    | inl same ↦ let gone : put s.server.pages k none j ≡ none = rw same in cc
    | inr away ↦ let kept : put s.server.pages k none j ≡ s.server.pages j = rw away in sym kept ∙ h
  ]

  Step-IsCoherent : {s t : State Query Page} → Step x s t → IsCoherent x s → IsCoherent x t
  Step-IsCoherent {s} (move i m) inv = move-IsCoherent x no_collision s inv i m
  Step-IsCoherent {s} (take_off i b q g e free) inv = took_off-IsCoherent x s inv i b q g e free
  Step-IsCoherent {s} (store i b q g page e) inv =
      stored-IsCoherent x s inv no_collision i b q g page e
  Step-IsCoherent {s} (land i b q g r e) inv = landed-IsCoherent x s inv i b q g r e
  Step-IsCoherent {s} (change c now fresh) inv = record {
    current = fresh;
    phases = λ i. IsSound-le x s.changes (suc s.changes) (s.calls i) (omega arith) (inv.phases i);
    entries = λ k page d h q g e.
        let (before, right) = inv.entries k page d h q g e in (omega (arith, before), right);
    flights = inv.flights;
    leaders = inv.leaders;
    followers = inv.followers;
  }
  Step-IsCoherent {s} (pass now later same) inv =
      served-IsCoherent x s (record s.server { now = now }) inv same inv.entries
  Step-IsCoherent {s} (evict k) inv =
      served-IsCoherent x s (record s.server { pages = put s.server.pages k none }) inv refl
        (λ j page d h. inv.entries j page d (put-none s k j page d h))

  pub Reach-IsCoherent : {s : State Query Page} → Reach x s → IsCoherent x s
  Reach-IsCoherent (here c now fresh) = record {
    current = fresh;
    phases = λ i. tt;
    entries = λ k page d h. cc;
    flights = λ k l h. cc;
    leaders = λ i k m. absurd m;
    followers = λ i. tt;
  }
  Reach-IsCoherent (next r st) = Step-IsCoherent st (Reach-IsCoherent r)

  returned-IsAnswer :
      (c b e : ℕ) (q : Query) (page : Page) (p : Phase Query Page)
      → IsSound x c p
      → returned p ≡ some (b, e, q, some page)
      → b ≡ e
      → IsAnswer x b q page
  returned-IsAnswer c b e q page (led b' e' q' g r) w h n =
      let same : r ≡ some page = cc in
      let asked_for : q' ≡ q = cc in
      let from : b' ≡ b = cc in
      let until : e' ≡ e = cc in
      let (asked, nf, right) = w.3 (omega (arith, from, until, n, w.0, w.1)) page same in
      (
        asked,
        nf ∙ ap x.normal asked_for,
        right ∙ ap (x.answer asked) (omega (arith, from, until, n, w)),
      )
  returned-IsAnswer c b e q page (answered b' e' q' r) w h n =
      let same : r ≡ some page = cc in
      let asked_for : q' ≡ q = cc in
      let from : b' ≡ b = cc in
      let until : e' ≡ e = cc in
      let (asked, nf, right) = w.2 (omega (arith, from, until, n)) page same in
      (
        asked,
        nf ∙ ap x.normal asked_for,
        right ∙ ap (x.answer asked) (omega (arith, from, until, n, w)),
      )
  returned-IsAnswer c b e q page _ w h n = cc

  -- A call of the cached search that returns a page, and during which the catalog does not change,
  -- returns the page that the query of a search with the same normal form gives on that catalog:
  -- whether the page was stored, another call was waited for, or the store failed, whatever other
  -- calls, expiries and failures there are. Fingerprints are assumed not to collide.
  pub search-IsAnswer :
      {s : State Query Page} (i b : ℕ) (q : Query) (page : Page)
      → Reach x s
      → returned (s.calls i) ≡ some (b, b, q, some page)
      → IsAnswer x b q page
  search-IsAnswer {s} i b q page r h =
      returned-IsAnswer s.changes b b q page (s.calls i) ((Reach-IsCoherent r).phases i) h refl

  -- A stored page that passes the comparison of the generations is, at that moment, the page that the
  -- query of a search with the same normal form gives on the catalog.
  pub hit-IsAnswer :
      {s : State Query Page} (i b : ℕ) (q : Query) (g : Generation) (page : Page)
      → Reach x s
      → s.calls i ≡ checking b q g (some page)
      → same_as_current g (generation s.server) ≡ true
      → IsAnswer x s.changes q page
  hit-IsAnswer {s} i b q g page r e hit =
      let inv = Reach-IsCoherent r in
      let now : x.epoch g ≡ s.changes = inv.current g (current-eq g (generation s.server) hit) in
      let (asked, nf, right) = (subst (IsSound x s.changes) e (inv.phases i)).2 page refl in
      (asked, nf, right ∙ ap (x.answer asked) now)

  -- At most one call at a time works for a key, and every promise in the map is that of a call that
  -- still works for its key.
  pub single_flight :
      {s : State Query Page} (k : String) (i j : ℕ)
      → Reach x s
      → (Leads x k (s.calls i) → Leads x k (s.calls j) → i ≡ j)
        × (s.in_flight k ≡ some i → Leads x k (s.calls i))
  single_flight k i j r =
      let inv = Reach-IsCoherent r in
      (λ m n. cc (inv.leaders i k m, inv.leaders j k n), inv.flights k i)
