-- ===== src/Search/Cache/Shared.antt =====
-- Which searches get the pages of one another from the cache.
use Prim.Native.String
use Prim.Native.String.append
use jobs_scraper_global.Prelude.{
  ℕ, String, ◌≡◌, refl, sym, ◌∙◌, ap, Bool, true, false, not, ◌||◌, some, List, [], ◌∷◌, map, any,
  filter, present, ◌==◌, arith, eq_iff, Bool-cases, inl, inr,
}
use jobs_scraper_global.Search.Filters.Comparable.{Unicode}
use jobs_scraper_global.Search.Parsers.Values.{text_less, unique, insert, sort}
use jobs_scraper_global.Search.Cache.Server.{Generation}
use jobs_scraper_global.Search.Cache.Flight.{State, Reach}
use jobs_scraper_global.Search.Cache.Fingerprint.{
  Search, Normalized, Digests, text, values, normalized, job_search_cache_key, search_setting,
}
use jobs_scraper_global.Search.Cache.Safety.{returned, search-IsAnswer}

abbrev is_text : String → String → Bool
is_text t s = s == t

any-insert :
    (p : String → Bool) (t : String) (ss : List String) → any p (insert t ss) ≡ any p (t ∷ ss)
unfolding insert
any-insert p t [] = refl
any-insert p t (s ∷ ss) = elim (Bool-cases (text_less t s)) [
  | inl less ↦ rw less refl
  | inr more ↦ rw (more, any-insert p t ss) (swap (p s) (p t) (any p ss))
]
  where
    swap : (a b c : Bool) → (a || (b || c)) ≡ (b || (a || c))
    swap true true c = refl
    swap true false c = refl
    swap false b c = refl

any-sort : (p : String → Bool) (ts : List String) → any p (sort ts) ≡ any p ts
unfolding sort
any-sort p [] = refl
any-sort p (t ∷ ts) = any-insert p t (sort ts) ∙ ap (λ b. p t || b) (any-sort p ts)

any-others :
    (t x : String) (ss : List String)
    → (x == t) ≡ false
    → any (is_text t) (filter (λ s. not (s == x)) ss) ≡ any (is_text t) ss
any-others t x [] h = refl
any-others t x (s ∷ ss) h = ground (arith, any-others t x ss h, eq_iff s x, eq_iff s t, eq_iff x t)

any-unique : (t : String) (ts : List String) → any (is_text t) (unique ts) ≡ any (is_text t) ts
unfolding unique
any-unique t [] = refl
any-unique t (x ∷ ts) = elim (Bool-cases (x == t)) [
  | inl same ↦ rw same refl
  | inr other ↦ rw other (any-others t x (unique ts) other ∙ any-unique t ts)
]

any-present :
    (t : String) (ts : List String)
    → (t == "") ≡ false
    → any (is_text t) (present ts) ≡ any (is_text t) ts
any-present t [] h = refl
any-present t (x ∷ ts) h = ground (arith, any-present t ts h, eq_iff x "", eq_iff x t, eq_iff t "")

any-map :
    (f : String → String) (p : String → Bool) (ts : List String)
    → any p (map f ts) ≡ any (λ s. p (f s)) ts
any-map f p [] = refl
any-map f p (t ∷ ts) = ap (λ b. p (f t) || b) (any-map f p ts)

module _ (u : Unicode) where
  -- The texts differ in case and space only.
  abbrev pub IsAlike : String → String → Type 0
  IsAlike s t = text u s ≡ text u t

  -- The texts differ in order, repetitions, blank ones, case and space only.
  abbrev pub AreAlike : List String → List String → Type 0
  AreAlike ss ts =
      (t : String) → (t == "") ≡ false → any (λ s. text u s == t) ss ≡ any (λ s. text u s == t) ts

  any-values :
      (t : String) (ts : List String)
      → (t == "") ≡ false
      → any (is_text t) (values u ts) ≡ any (λ s. text u s == t) ts
  unfolding values
  any-values t ts h =
      any-sort (is_text t) (unique (present (map (text u) ts)))
      ∙ any-unique t (present (map (text u) ts))
      ∙ any-present t (map (text u) ts) h
      ∙ any-map (text u) (is_text t) ts

  values-AreAlike : (ss ts : List String) → values u ss ≡ values u ts → AreAlike ss ts
  values-AreAlike ss ts e t h = sym (any-values t ss h) ∙ ap (any (is_text t)) e ∙ any-values t ts h

  -- The searches ask for the same page of the same jobs in the same order, but for case and space in
  -- the texts and the order of lists.
  pub record IsSameSearch (a b : Search) : Type 0 where
    pub same_families :
        (t : String) → any (λ s. s == t) a.filters.families ≡ any (λ s. s == t) b.filters.families
    pub same_mode : a.filters.family_mode ≡ b.filters.family_mode
    pub same_keywords : AreAlike a.filters.keywords b.filters.keywords
    pub same_technology : AreAlike a.filters.technology b.filters.technology
    pub same_company : AreAlike a.filters.company b.filters.company
    pub same_job_types : AreAlike a.filters.job_types b.filters.job_types
    pub same_level : IsAlike a.filters.level b.filters.level
    pub same_seniority : IsAlike a.filters.seniority b.filters.seniority
    pub same_location : IsAlike a.filters.location b.filters.location
    pub same_continent : IsAlike a.filters.continent b.filters.continent
    pub same_country : IsAlike a.filters.country b.filters.country
    pub same_state : IsAlike a.filters.state b.filters.state
    pub same_city : IsAlike a.filters.city b.filters.city
    pub same_contract : IsAlike a.filters.contract b.filters.contract
    pub same_ordering : a.filters.match_sort ≡ b.filters.match_sort
    pub same_page : a.pagination.page ≡ b.pagination.page
    pub same_limit : a.pagination.limit ≡ b.pagination.limit
    pub same_context : a.ranking_context ≡ b.ranking_context

  normalized-IsSameSearch :
      (digests : Digests) (a b : Search)
      → normalized u digests a ≡ normalized u digests b
      → IsSameSearch a b
  unfolding normalized
  normalized-IsSameSearch digests a b e = record {
    same_families = λ t.
        sym (any-sort (is_text t) (unique a.filters.families) ∙ any-unique t a.filters.families)
        ∙ ap (λ n. any (is_text t) n.families) e
        ∙ any-sort (is_text t) (unique b.filters.families)
        ∙ any-unique t b.filters.families;
    same_mode = ap (λ n. n.family_mode) e;
    same_keywords = values-AreAlike _ _ (ap (λ n. n.keywords) e);
    same_technology = values-AreAlike _ _ (ap (λ n. n.technology) e);
    same_company = values-AreAlike _ _ (ap (λ n. n.company) e);
    same_job_types = values-AreAlike _ _ (ap (λ n. n.job_types) e);
    same_level = ap (λ n. n.level) e;
    same_seniority = ap (λ n. n.seniority) e;
    same_location = ap (λ n. n.location) e;
    same_continent = ap (λ n. n.continent) e;
    same_country = ap (λ n. n.country) e;
    same_state = ap (λ n. n.state) e;
    same_city = ap (λ n. n.city) e;
    same_contract = ap (λ n. n.contract) e;
    same_ordering = ap (λ n. n.ordering) e;
    same_page = ap (λ n. n.page) e;
    same_limit = ap (λ n. n.limit) e;
    same_context = ap (λ n. n.ranking_context) e;
  }

after_prefix : (p s t : String) → String.◌++◌ p s ≡ String.◌++◌ p t → s ≡ t
after_prefix String.[] s t h = sym (append.nil s) ∙ h ∙ append.nil t
after_prefix (String.◌∷◌ c p) s t h =
    let tails : String.◌∷◌ c (String.◌++◌ p s) ≡ String.◌∷◌ c (String.◌++◌ p t) =
      sym (append.cons c p s) ∙ h ∙ append.cons c p t in
    after_prefix p s t (cc tails)

module _ (digests : Digests)
    (no_collision : (n m : Normalized) (g h : Generation)
      → digests.fingerprint n g ≡ digests.fingerprint m h
      → (n ≡ m) × (g ≡ h)) where
  pub job_search_cache_key-injective :
      (n m : Normalized) (g h : Generation)
      → job_search_cache_key digests n g ≡ job_search_cache_key digests m h
      → (n ≡ m) × (g ≡ h)
  unfolding job_search_cache_key
  job_search_cache_key-injective n m g h e =
      no_collision n m g h
        (after_prefix ":" _ _ (after_prefix "v2" _ _ (after_prefix "jobs:search:" _ _ e)))

  module _ {Page : Type 0} (u : Unicode) (answer : Search → ℕ → Page) (epoch : Generation → ℕ)
      (ttl_seconds : ℕ) where
    -- A call of the cached search that returns a page, and during which the catalog does not change,
    -- returns the page that the query of the same search gives on that catalog, or that of one with
    -- the same families, mode, ordering, page, limit and ranking context, whose other filters differ
    -- in case and space only, in lists also in order, repetitions and blank texts: whether the page
    -- was stored, another call was waited for, or the store failed, whatever other calls, expiries and
    -- failures there are. Fingerprints are assumed not to collide.
    pub search_lem :
        {s : State Search Page} (i b : ℕ) (q : Search) (page : Page)
        → Reach (search_setting u digests answer epoch ttl_seconds) s
        → returned (s.calls i) ≡ some (b, b, q, some page)
        → (asked : Search) × IsSameSearch u asked q × (page ≡ answer asked b)
    search_lem i b q page r h =
        let (asked, same, right) =
          search-IsAnswer (search_setting u digests answer epoch ttl_seconds)
            job_search_cache_key-injective i b q page r h in
        (asked, normalized-IsSameSearch u digests asked q same, right)
