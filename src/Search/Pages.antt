-- ===== src/Search/Pages.antt =====
-- What the pages of a list add up to, and the bounds of the parameters.
use native.Mathlib.Nat.{suc-mul, zero-mul, le-div_iff_mul-le}
use jobs_scraper_global.Prelude.{
  ℕ, zero, suc, ◌+◌, ◌-◌, ◌*◌, ◌≤◌, ◌<◌, min, String, ◌≡◌, refl, sym, ◌∙◌, ap, ◌↔◌, true, Option,
  none, some, List, [], ◌∷◌, ◌++◌, length, take, drop, slice, arith, length-take, ltb→lt, lt→ltb,
}
use jobs_scraper_global.Search.Pagination.{
  PaginationParams, Parsed, nan, plus, minus, parse_int, at_least_one, read_param, parse_pagination,
  ceil_div, paginate,
}

at_least_one-pos : (p : Parsed) (d : ℕ) → 1 ≤ at_least_one p d
at_least_one-pos nan d = omega arith
at_least_one-pos (plus n) d = ground arith
at_least_one-pos (minus n) d = ground arith

read_param-pos : (t : Option String) (d : ℕ) → 1 ≤ read_param t d
unfolding parse_int
read_param-pos none d = at_least_one-pos (plus d) d
read_param-pos (some t) d = at_least_one-pos (parse_int t) d

-- Whatever the texts are, the page is at least 1 and the limit is from 1 to 100.
pub parse_pagination-bounds :
    (page limit : Option String)
    → (1 ≤ (parse_pagination page limit).page)
      × (1 ≤ (parse_pagination page limit).limit)
      × ((parse_pagination page limit).limit ≤ 100)
unfolding parse_pagination
parse_pagination-bounds page limit =
    (read_param-pos page 1, omega (arith, read_param-pos limit 100), omega arith)

module _ {A : Type 0} where
  pub take-plus : (a b : ℕ) (xs : List A) → take (a + b) xs ≡ take a xs ++ take b (drop a xs)
  take-plus zero b xs = ap (λ k. take k xs) (zero_left b)
    where
      zero_left : (b : ℕ) → 0 + b ≡ b
      zero_left b = omega arith
  take-plus (suc a) zero [] = ap (λ k. take {A = A} k []) (right a)
    where
      right : (a : ℕ) → suc a + 0 ≡ suc a
      right a = omega arith
  take-plus (suc a) (suc b) [] = ap (λ k. take {A = A} k []) (carry a b)
    where
      carry : (a b : ℕ) → suc a + suc b ≡ suc (a + suc b)
      carry a b = omega arith
  take-plus (suc a) b (x ∷ xs) =
      ap (λ k. take k (x ∷ xs)) (carry a b) ∙ ap (◌∷◌ x) (take-plus a b xs)
    where
      carry : (a b : ℕ) → suc a + b ≡ suc (a + b)
      carry a b = omega arith

  take-all : (n : ℕ) (xs : List A) → length xs ≤ n → take n xs ≡ xs
  take-all zero [] h = refl
  take-all zero (x ∷ xs) h = ground arith
  take-all (suc n) [] h = refl
  take-all (suc n) (x ∷ xs) h = ap (◌∷◌ x) (take-all n xs (omega (arith, h)))

  -- The data of the pages from 1 on, one after another.
  abbrev pub first_pages : ℕ → ℕ → List A → List A
  first_pages limit zero items = []
  first_pages limit (suc n) items =
      first_pages limit n items ++ (paginate items (record { page = suc n; limit = limit })).0

  first_pages-take :
      (limit n : ℕ) (items : List A) → first_pages limit n items ≡ take (n * limit) items
  unfolding paginate
  first_pages-take limit zero items = ap (λ k. take k items) (sym (zero-mul limit))
  first_pages-take limit (suc n) items =
      ap (λ xs. xs ++ slice (offset n) (offset n + limit) items) (first_pages-take limit n items)
      ∙ (ap (λ o. take (n * limit) items ++ slice o (o + limit) items)
            (ap (λ k. k * limit) (less n))
          ∙ (ap (λ k. take (n * limit) items ++ take k (drop (n * limit) items))
                (gap (n * limit) limit)
              ∙ (sym (take-plus (n * limit) limit items)
                  ∙ ap (λ k. take k items) (sym (suc-mul n limit)))))
    where
      offset : ℕ → ℕ
      offset n = (suc n - 1) * limit

      less : (n : ℕ) → suc n - 1 ≡ n
      less n = omega arith

      gap : (a b : ℕ) → a + b - a ≡ b
      gap a b = omega arith

-- There is a next page exactly when the pages so far do not reach the end.
next_page :
    (total limit page : ℕ) → 1 ≤ limit → (page < ceil_div total limit) ↔ (page * limit < total)
next_page total limit page h =
    let (to, from) =
      le-div_iff_mul-le {k = limit} {x = suc page} {y = total + (limit - 1)} (omega (arith, h)) in
    (
      λ b. omega (arith, to (omega (arith, b)), suc-mul page limit, h),
      λ b. omega (arith, from (omega (arith, b, suc-mul page limit, h))),
    )

module _ {A : Type 0} where
  -- The pages from 1 to the last, one after another, are the whole list, and a page has a next one
  -- exactly when the pages up to it do not hold the whole list.
  pub paginate-pages :
      (items : List A) (p : PaginationParams)
      → 1 ≤ p.limit
      → (first_pages p.limit (paginate items p).1.total_pages items ≡ items)
        × (((paginate items p).1.has_next ≡ true)
            ↔ (length (first_pages p.limit p.page items) < length items))
  unfolding paginate
  paginate-pages items p h = (
    first_pages-take p.limit last items
        ∙ take-all (last * p.limit) items
            (omega (arith, (next_page (length items) p.limit last h).1)),
    (
      λ n.
          omega (arith, (next_page (length items) p.limit p.page h).0 (ltb→lt p.page last n), held),
      λ s.
          lt→ltb p.page last
            ((next_page (length items) p.limit p.page h).1 (omega (arith, s, held))),
    ),
  )
    where
      last : ℕ
      last = ceil_div (length items) p.limit

      held : length (first_pages p.limit p.page items) ≡ min (p.page * p.limit) (length items)
      held =
          ap length (first_pages-take p.limit p.page items) ∙ length-take (p.page * p.limit) items
