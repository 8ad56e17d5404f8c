-- ===== src/Search/Cache/Invariant.antt =====
-- What holds of the calls and of the stored pages in every state of the cache of search pages, and
-- how a change of one call keeps it.
use jobs_scraper_global.Prelude.{
  ℕ, ◌≤◌, String, ◌≡◌, refl, sym, ◌∙◌, ap, true, false, Option, none, some, eqb, arith, Bool-cases,
  inl, inr,
}
use mathlib.Core.Path.{subst}
use jobs_scraper_global.Search.Cache.Server.{Generation, generation, unexpired}
use jobs_scraper_global.Search.Cache.Flight.{
  Phase, idle, starting, looked, direct, reading, checking, querying, writing, settled, following,
  led, answered, State, update, Move, call, generation_read, generation_failed, bypass, join,
  page_read, read_failed, check, check_failed, queried, query_failed, write_failed, follow,
  answer_directly, fail_directly, checked, result_of, key_of, same_as_current, Setting,
}

-- What holds of every value of a family, also of one that is changed.
pub update-each :
    {A : Type 0} (P : ℕ → A → Type 0) (f : ℕ → A) (i : ℕ) (a : A)
    → P i a
    → ((j : ℕ) → eqb i j ≡ false → P j (f j))
    → (j : ℕ) → P j (update f i a j)
update-each P f i a h k j = elim (Bool-cases (eqb i j)) [
  | inl same ↦ rw same (subst (λ x. P x a) (at_same same) h)
  | inr other ↦ rw other (k j other)
]
  where
    at_same : eqb i j ≡ true → i ≡ j
    at_same e = ground arith

module _ {Query Normal Page : Type 0} (x : Setting Query Normal Page) where
  -- The page is the answer to a query with the same normal form on the catalog after n changes.
  abbrev pub IsAnswer : ℕ → Query → Page → Type 0
  IsAnswer n q page = (asked : Query) × (x.normal asked ≡ x.normal q) × (page ≡ x.answer asked n)

  abbrev pub AreAnswers : ℕ → Query → Option Page → Type 0
  AreAnswers n q r = (page : Page) → r ≡ some page → IsAnswer n q page

  abbrev pub IsSound : ℕ → Phase Query Page → Type 0
  IsSound c idle = Unit
  IsSound c (starting b q) = b ≤ c
  IsSound c (looked b q r) =
      (b ≤ c) × ((g : Generation) → r ≡ some g → (b ≤ x.epoch g) × (x.epoch g ≤ c))
  IsSound c (direct b since q) = (b ≤ since) × (since ≤ c)
  IsSound c (reading b q g) = (b ≤ x.epoch g) × (x.epoch g ≤ c)
  IsSound c (checking b q g o) = (b ≤ x.epoch g) × (x.epoch g ≤ c) × AreAnswers (x.epoch g) q o
  IsSound c (querying b since q g) = (b ≤ x.epoch g) × (x.epoch g ≤ since) × (since ≤ c)
  IsSound c (writing b q g page) =
      (b ≤ x.epoch g) × (x.epoch g ≤ c) × (x.epoch g ≡ c → AreAnswers (x.epoch g) q (some page))
  IsSound c (settled b q g r) =
      (b ≤ x.epoch g) × (x.epoch g ≤ c) × (x.epoch g ≡ c → AreAnswers (x.epoch g) q r)
  IsSound c (following b q g l) = (b ≤ x.epoch g) × (x.epoch g ≤ c)
  IsSound c (led b e q g r) =
      (b ≤ x.epoch g) × (x.epoch g ≤ e) × (e ≤ c) × (x.epoch g ≡ e → AreAnswers (x.epoch g) q r)
  IsSound c (answered b e q r) = (b ≤ e) × (e ≤ c) × (b ≡ e → AreAnswers e q r)

  -- The call has put its promise under the key, and not taken it away yet.
  abbrev pub Leads : String → Phase Query Page → Type 0
  Leads k (reading b q g) = key_of x q g ≡ k
  Leads k (checking b q g o) = key_of x q g ≡ k
  Leads k (querying b since q g) = key_of x q g ≡ k
  Leads k (writing b q g page) = key_of x q g ≡ k
  Leads k (settled b q g r) = key_of x q g ≡ k
  Leads k _ = ⊥

  -- The call is or was the leader for queries of that form at that generation.
  abbrev pub Promises : Normal → Generation → Phase Query Page → Type 0
  Promises n g (reading b q h) = (x.normal q ≡ n) × (h ≡ g)
  Promises n g (checking b q h o) = (x.normal q ≡ n) × (h ≡ g)
  Promises n g (querying b since q h) = (x.normal q ≡ n) × (h ≡ g)
  Promises n g (writing b q h page) = (x.normal q ≡ n) × (h ≡ g)
  Promises n g (settled b q h r) = (x.normal q ≡ n) × (h ≡ g)
  Promises n g (led b e q h r) = (x.normal q ≡ n) × (h ≡ g)
  Promises n g _ = ⊥

  abbrev pub Follows : (ℕ → Phase Query Page) → Phase Query Page → Type 0
  Follows calls (following b q g l) = Promises (x.normal q) g (calls l)
  Follows calls _ = Unit

  pub record IsCoherent (s : State Query Page) : Type 0 where
    pub current : (g : Generation) → generation s.server ≡ some g → x.epoch g ≡ s.changes
    pub phases : (i : ℕ) → IsSound s.changes (s.calls i)
    pub entries :
        (k : String) (page : Page) (d : ℕ)
        → s.server.pages k ≡ some (page, d)
        → (q : Query) (g : Generation) → key_of x q g ≡ k
        → (x.epoch g ≤ s.changes) × IsAnswer (x.epoch g) q page
    pub flights : (k : String) (l : ℕ) → s.in_flight k ≡ some l → Leads k (s.calls l)
    pub leaders : (i : ℕ) (k : String) → Leads k (s.calls i) → s.in_flight k ≡ some i
    pub followers : (i : ℕ) → Follows s.calls (s.calls i)

  -- Changes of the catalog keep the soundness of a call.
  pub IsSound-le : (c d : ℕ) (p : Phase Query Page) → c ≤ d → IsSound c p → IsSound d p
  IsSound-le c d idle h w = w
  IsSound-le c d (starting b q) h w = omega arith
  IsSound-le c d (looked b q r) h w =
      (omega (arith, w.0), λ g e. (omega (arith, w.1 g e), omega (arith, w.1 g e)))
  IsSound-le c d (direct b since q) h w = (omega arith, omega arith)
  IsSound-le c d (reading b q g) h w = (omega arith, omega arith)
  IsSound-le c d (checking b q g o) h w = (omega (arith, w.0), omega (arith, w.1), w.2)
  IsSound-le c d (querying b since q g) h w = (omega arith, omega arith, omega arith)
  IsSound-le c d (writing b q g page) h w =
      (omega (arith, w.0), omega (arith, w.1), λ e. w.2 (omega (arith, w.1, e)))
  IsSound-le c d (settled b q g r) h w =
      (omega (arith, w.0), omega (arith, w.1), λ e. w.2 (omega (arith, w.1, e)))
  IsSound-le c d (following b q g l) h w = (omega arith, omega arith)
  IsSound-le c d (led b e q g r) h w = (w.0, w.1, omega (arith, w.2), w.3)
  IsSound-le c d (answered b e q r) h w = (w.0, omega (arith, w.1), w.2)

  checked-IsSound :
      (c b : ℕ) (q : Query) (g : Generation) (o : Option Page) (h : Option Generation)
      → IsSound c (checking b q g o)
      → IsSound c (checked b c q g o h)
  checked-IsSound c b q g none h w = (w.0, w.1, omega arith)
  checked-IsSound c b q g (some page) h w = elim (Bool-cases (same_as_current g h)) [
    | inl hit ↦ rw (checked, hit) (w.0, w.1, λ e. w.2)
    | inr old ↦ rw (checked, old) (w.0, w.1, omega arith)
  ]

  same_answers :
      (n m : ℕ) (q q' : Query) (r r' : Option Page)
      → AreAnswers n q r
      → x.normal q ≡ x.normal q'
      → n ≡ m
      → r ≡ r'
      → AreAnswers m q' r'
  same_answers n m q q' r r' h nf e er page is =
      let (asked, same, answers) = h page (er ∙ is) in
      (asked, same ∙ nf, answers ∙ ap (x.answer asked) e)

  -- What a promise gives is an answer, if the catalog has not changed since the generation was read.
  result-AreAnswers :
      (c b : ℕ) (q : Query) (g : Generation) (p : Phase Query Page) (r : Option Page)
      → IsSound c p
      → Promises (x.normal q) g p
      → result_of p ≡ some r
      → b ≤ x.epoch g
      → b ≡ c
      → AreAnswers c q r
  result-AreAnswers c b q g (settled b' q' g' r') r w m e f n =
      let same : x.epoch g' ≡ x.epoch g = ap x.epoch m.1 in
      let now : x.epoch g' ≡ c = omega (arith, w.0, w.1, same, f, n) in
      same_answers (x.epoch g') c q' q r' r (w.2 now) m.0 now (cc)
  result-AreAnswers c b q g (led b' ended q' g' r') r w m e f n =
      let same : x.epoch g' ≡ x.epoch g = ap x.epoch m.1 in
      let now : x.epoch g' ≡ c = omega (arith, w.1, w.2, same, f, n) in
      same_answers (x.epoch g') c q' q r' r (w.3 (omega (arith, now, w.1, w.2))) m.0 now (cc)
  result-AreAnswers c b q g _ r w m e f n = cc

  unexpired-some :
      (now : ℕ) (o : Option (Page × ℕ)) (page : Page)
      → unexpired now o ≡ some page
      → (d : ℕ) × (o ≡ some (page, d))
  unexpired-some now none page h = ground arith
  unexpired-some now (some (p, d)) page h = (d, ground arith)

  steady-AreAnswers :
      (c since : ℕ) (q : Query) (page : Page)
      → (since ≡ c → page ≡ x.answer q since)
      → since ≡ c
      → AreAnswers c q (some page)
  steady-AreAnswers c since q page steady e found is =
      let same : found ≡ page = cc in (q, refl, same ∙ steady e ∙ ap (x.answer q) e)

  module _ (s : State Query Page) (inv : IsCoherent s) where
    pub Move-IsSound :
        {p p' : Phase Query Page}
        → Move x s p p'
        → IsSound s.changes p
        → Follows s.calls p
        → IsSound s.changes p'
    Move-IsSound (call q) w f = omega arith
    Move-IsSound (generation_read b q) w f =
        (w, λ g e. (omega (arith, w, inv.current g e), omega (arith, inv.current g e)))
    Move-IsSound (generation_failed b q) w f = (w, omega arith)
    Move-IsSound (bypass b q) w f = (w.0, omega arith)
    Move-IsSound (join b q g l e) w f = w.1 g refl
    Move-IsSound (page_read b q g) w f = (
      w.0,
      w.1,
      λ page is.
          let (d, held) = unexpired-some s.server.now (s.server.pages (key_of x q g)) page is in
          (inv.entries (key_of x q g) page d held q g refl).1,
    )
    Move-IsSound (read_failed b q g) w f = (w.0, w.1, omega arith)
    Move-IsSound (check b q g o) w f = checked-IsSound s.changes b q g o (generation s.server) w
    Move-IsSound (check_failed b q g o) w f = (w.0, w.1, omega arith)
    Move-IsSound (queried b since q g page steady) w f = (
      w.0,
      omega (arith, w.1, w.2),
      λ e.
          same_answers s.changes (x.epoch g) q q (some page) (some page)
            (steady-AreAnswers s.changes since q page steady (omega (arith, e, w.1, w.2))) refl
            (sym e) refl,
    )
    Move-IsSound (query_failed b since q g) w f = (w.0, omega arith, λ e page i. cc)
    Move-IsSound (write_failed b q g page) w f = w
    Move-IsSound (follow b q g l r e) w f = (
      omega (arith, w.0, w.1),
      omega arith,
      λ n. result-AreAnswers s.changes b q g (s.calls l) r (inv.phases l) f e w.0 n,
    )
    Move-IsSound (answer_directly b since q page steady) w f = (
      omega (arith, w.0, w.1),
      omega arith,
      λ n. steady-AreAnswers s.changes since q page steady (omega (arith, n, w.0, w.1)),
    )
    Move-IsSound (fail_directly b since q) w f = (omega arith, omega arith, λ e page i. cc)
