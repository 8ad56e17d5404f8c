-- ===== src/Table.antt =====
-- The statements on one table that drizzle sends for the services of backend/src: a table is the
-- list of its rows in the order of their insertion, `where` is a test of a row.
use jobs_scraper_global.Prelude.{
  ◌≡◌, refl, Bool, true, false, not, none, some, List, [], ◌∷◌, ◌++◌, map, arith, filter, find?,
  All, first, if◌then◌else◌, Bool-cases, inl, inr,
}

module _ {Row : Type 0} where
  -- `insert(...).values(row)`.
  abbrev pub insert : Row → List Row → List Row
  insert row rows = rows ++ row ∷ []

  -- `update(...).set(...).where(...)`.
  abbrev pub update_where : (Row → Bool) → (Row → Row) → List Row → List Row
  update_where p f [] = []
  update_where p f (r ∷ rows) = (if p r then f r else r) ∷ update_where p f rows

  -- The rows that `returning()` gives after such an update.
  abbrev pub returning : (Row → Bool) → (Row → Row) → List Row → List Row
  returning p f rows = map f (filter p rows)

  -- `delete(...).where(...)`.
  abbrev pub delete_where : (Row → Bool) → List Row → List Row
  delete_where p rows = filter (λ r. not (p r)) rows

-- What the statements leave of the rows that pass another test `q`.
module _ {Row : Type 0} where
  pub filter-insert :
      (q : Row → Bool) (row : Row) (rows : List Row)
      → filter q (insert row rows) ≡ (if q row then insert row (filter q rows) else filter q rows)
  filter-insert q row [] = refl
  filter-insert q row (r ∷ rows) = ground (arith, filter-insert q row rows)

  pub filter-update_where :
      (q p : Row → Bool) (f : Row → Row) (rows : List Row)
      → ((r : Row) → p r ≡ true → (q r ≡ false) × (q (f r) ≡ false))
      → filter q (update_where p f rows) ≡ filter q rows
  filter-update_where q p f [] h = refl
  filter-update_where q p f (r ∷ rows) h = ground (arith, filter-update_where q p f rows h, h r)

  pub filter-delete_where :
      (q p : Row → Bool) (rows : List Row)
      → All (λ r. q r ≡ true → p r ≡ false) rows
      → filter q (delete_where p rows) ≡ filter q rows
  filter-delete_where q p [] h = refl
  filter-delete_where q p (r ∷ rows) (h, hs) = ground (arith, filter-delete_where q p rows hs, h)

  pub filter-update_where_self :
      (p : Row → Bool) (f : Row → Row) (rows : List Row)
      → ((r : Row) → p r ≡ true → p (f r) ≡ false)
      → filter p (update_where p f rows) ≡ []
  filter-update_where_self p f [] h = refl
  filter-update_where_self p f (r ∷ rows) h =
      ground (arith, filter-update_where_self p f rows h, h r)

  pub filter-delete_where_self :
      (p : Row → Bool) (rows : List Row) → filter p (delete_where p rows) ≡ []
  filter-delete_where_self p [] = refl
  filter-delete_where_self p (r ∷ rows) = ground (arith, filter-delete_where_self p rows)

  pub update_where_none :
      (p : Row → Bool) (f : Row → Row) (rows : List Row)
      → filter p rows ≡ []
      → update_where p f rows ≡ rows
  update_where_none p f [] h = refl
  update_where_none p f (r ∷ rows) h = ground (arith, update_where_none p f rows)

  pub delete_where_none :
      (p : Row → Bool) (rows : List Row) → filter p rows ≡ [] → delete_where p rows ≡ rows
  delete_where_none p [] h = refl
  delete_where_none p (r ∷ rows) h = ground (arith, delete_where_none p rows)

  pub All-update_where :
      (P : Row → Type 0) (p : Row → Bool) (f : Row → Row) (rows : List Row)
      → ((r : Row) → P r → P (f r))
      → All P rows
      → All P (update_where p f rows)
  All-update_where P p f [] h hs = tt
  All-update_where P p f (r ∷ rows) h (k, ks) = elim (Bool-cases (p r)) [
    | inl e ↦ rw e (h r k, All-update_where P p f rows h ks)
    | inr e ↦ rw e (k, All-update_where P p f rows h ks)
  ]

  -- A matching row is the first of its matches, and the first of the rows that come back.
  pub first-returning :
      (p : Row → Bool) (f : Row → Row) (rows : List Row) (r : Row)
      → first (filter p rows) ≡ some r
      → first (returning p f rows) ≡ some (f r)
  first-returning p f [] r h = ground arith
  first-returning p f (s ∷ rows) r h = ground (arith, first-returning p f rows r)

  -- A row that is inserted where no row matches is the one that is found.
  pub find?-insert :
      (p : Row → Bool) (row : Row) (rows : List Row)
      → find? p rows ≡ none
      → p row ≡ true
      → find? p (insert row rows) ≡ some row
  find?-insert p row [] h is = rw is
  find?-insert p row (r ∷ rows) h is = ground (arith, find?-insert p row rows)

  pub filter-insert_first :
      (p : Row → Bool) (row : Row) (rows : List Row)
      → find? p rows ≡ none
      → p row ≡ true
      → filter p (insert row rows) ≡ row ∷ []
  filter-insert_first p row [] h is = rw is
  filter-insert_first p row (r ∷ rows) h is = ground (arith, filter-insert_first p row rows)
