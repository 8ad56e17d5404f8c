-- ===== src/Search/Ranking/Sorting.antt =====
-- Sorting by insertion, and sorting in parts of which only the first elements are kept.
use mathlib.Core.List.{append-nil, append_assoc}
use jobs_scraper_global.Prelude.{
  ℕ, zero, suc, ◌≡◌, refl, sym, ◌∙◌, ap, Bool, true, false, List, [], ◌∷◌, ◌++◌, take, arith,
  Bool-cases, inl, inr, if◌then◌else◌,
}
use jobs_scraper_global.Search.Ranking.{insert, sort}

module _ {A : Type 0} where
  pub take-take : (k : ℕ) (bs : List A) → take k (take k bs) ≡ take k bs
  take-take zero bs = refl
  take-take (suc k) [] = refl
  take-take (suc k) (b ∷ bs) = ap (◌∷◌ b) (take-take k bs)

  take-take-suc : (k : ℕ) (bs : List A) → take k (take (suc k) bs) ≡ take k bs
  take-take-suc zero bs = refl
  take-take-suc (suc k) [] = refl
  take-take-suc (suc k) (b ∷ bs) = ap (◌∷◌ b) (take-take-suc k bs)

  take-shorter : (k : ℕ) (b : A) (bs : List A) → take k (b ∷ take k bs) ≡ take k (b ∷ bs)
  take-shorter zero b bs = refl
  take-shorter (suc k) b bs = ap (◌∷◌ b) (take-take-suc k bs)

module _ {A : Type 0} (before : A → A → Bool)
    (before-total : (a b : A) → before a b ≡ false → before b a ≡ true)
    (before-trans : (a b c : A) → before a b ≡ true → before b c ≡ true → before a c ≡ true) where
  -- Puts an element after those that compare as equal to it.
  abbrev pub insert_after : A → List A → List A
  insert_after a [] = a ∷ []
  insert_after a (b ∷ bs) =
      let rest = insert_after a bs in if before b a then b ∷ rest else a ∷ b ∷ bs

  abbrev pub insert_all : List A → List A → List A
  insert_all [] bs = bs
  insert_all (a ∷ as') bs = insert_all as' (insert_after a bs)

  insert-insert_after :
      (a b : A) (cs : List A)
      → insert before a (insert_after b cs) ≡ insert_after b (insert before a cs)
  insert-insert_after a b [] = refl
  insert-insert_after a b (c ∷ cs) = elim (Bool-cases (before c b)) [
    | inl b_later ↦ elim (Bool-cases (before a c)) [
      | inl a_first ↦
          let first : before a b ≡ true = before-trans a c b a_first b_later in ground arith
      | inr a_later ↦ ground (arith, insert-insert_after a b cs)
    ]
    | inr b_first ↦ elim (Bool-cases (before a c)) [
      | inl a_first ↦ elim (Bool-cases (before a b)) [
        | inl first ↦ ground arith
        | inr last ↦ ground arith
      ]
      | inr a_later ↦ elim (Bool-cases (before a b)) [
        | inl first ↦ cc (a_later, before-trans a b c first (before-total c b b_first))
        | inr last ↦ ground arith
      ]
    ]
  ]

  sort-append_one :
      (as' : List A) (b : A) → sort before (as' ++ (b ∷ [])) ≡ insert_after b (sort before as')
  sort-append_one [] b = refl
  sort-append_one (a ∷ as') b =
      ap (insert before a) (sort-append_one as' b) ∙ insert-insert_after a b (sort before as')

  sort-append : (as' bs : List A) → sort before (as' ++ bs) ≡ insert_all bs (sort before as')
  sort-append as' [] = ap (sort before) (append-nil as')
  sort-append as' (b ∷ bs) =
      ap (sort before) (sym (append_assoc as' (b ∷ []) bs))
      ∙ sort-append (as' ++ (b ∷ [])) bs
      ∙ ap (insert_all bs) (sort-append_one as' b)

  take-insert_after :
      (k : ℕ) (a : A) (bs : List A)
      → take k (insert_after a (take k bs)) ≡ take k (insert_after a bs)
  take-insert_after zero a bs = refl
  take-insert_after (suc k) a [] = refl
  take-insert_after (suc k) a (b ∷ bs) = elim (Bool-cases (before b a)) [
    | inl later ↦ ground (arith, take-insert_after k a bs)
    | inr first ↦ rw (insert_after, first) (ap (◌∷◌ a) (take-shorter k b bs))
  ]

  take-insert_all :
      (k : ℕ) (as' bs : List A) → take k (insert_all as' (take k bs)) ≡ take k (insert_all as' bs)
  take-insert_all k [] bs = take-take k bs
  take-insert_all k (a ∷ as') bs =
      sym (take-insert_all k as' (insert_after a (take k bs)))
      ∙ ap (λ cs. take k (insert_all as' cs)) (take-insert_after k a bs)
      ∙ take-insert_all k as' (insert_after a bs)

  abbrev Leads : A → List A → Type 0
  Leads a [] = Unit
  Leads a (b ∷ bs) = before a b ≡ true

  abbrev IsSorted : List A → Type 0
  IsSorted [] = Unit
  IsSorted (a ∷ as') = Leads a as' × IsSorted as'

  insert-Leads :
      (b a : A) (as' : List A) → before b a ≡ true → Leads b as' → Leads b (insert before a as')
  insert-Leads b a [] h k = h
  insert-Leads b a (c ∷ cs) h k = ground arith

  insert-IsSorted : (a : A) (bs : List A) → IsSorted bs → IsSorted (insert before a bs)
  insert-IsSorted a [] h = (tt, tt)
  insert-IsSorted a (b ∷ bs) (h, hs) = elim (Bool-cases (before a b)) [
    | inl first ↦ rw (insert, first) (first, (h, hs))
    | inr later ↦
        rw (insert, later) (insert-Leads b a bs (before-total a b later) h, insert-IsSorted a bs hs)
  ]

  sort-IsSorted : (as' : List A) → IsSorted (sort before as')
  sort-IsSorted [] = tt
  sort-IsSorted (a ∷ as') = insert-IsSorted a (sort before as') (sort-IsSorted as')

  take-Leads : (k : ℕ) (a : A) (bs : List A) → Leads a bs → Leads a (take k bs)
  take-Leads zero a bs h = tt
  take-Leads (suc k) a [] h = tt
  take-Leads (suc k) a (b ∷ bs) h = h

  take-IsSorted : (k : ℕ) (bs : List A) → IsSorted bs → IsSorted (take k bs)
  take-IsSorted zero bs h = tt
  take-IsSorted (suc k) [] h = tt
  take-IsSorted (suc k) (b ∷ bs) (h, hs) = (take-Leads k b bs h, take-IsSorted k bs hs)

  insert-Leading : (a : A) (bs : List A) → Leads a bs → insert before a bs ≡ a ∷ bs
  insert-Leading a [] h = refl
  insert-Leading a (b ∷ bs) h = rw (insert, h) refl

  sort_of_sorted : (as' : List A) → IsSorted as' → sort before as' ≡ as'
  sort_of_sorted [] h = refl
  sort_of_sorted (a ∷ as') (h, hs) =
      ap (insert before a) (sort_of_sorted as' hs) ∙ insert-Leading a as' h

  -- To keep the first k of a list after sorting it, it is enough to have kept the first k of its
  -- beginning after sorting that.
  pub take-sort-append :
      (k : ℕ) (as' bs : List A)
      → take k (sort before (take k (sort before as') ++ bs)) ≡ take k (sort before (as' ++ bs))
  take-sort-append k as' bs =
      let first = take k (sort before as') in
      ap (take k) (
        sort-append first bs
        ∙ ap (insert_all bs)
            (sort_of_sorted first (take-IsSorted k (sort before as') (sort-IsSorted as'))))
      ∙ take-insert_all k bs (sort before as')
      ∙ ap (take k) (sym (sort-append as' bs))
