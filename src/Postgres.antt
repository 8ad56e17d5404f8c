-- ===== src/Postgres.antt =====
-- What PostgreSQL decides for the services of backend/src and the program does not: the value of
-- `defaultRandom()`, and the order that `order by` gives. Both are parameters of the services.
use jobs_scraper_global.Prelude.{
  ℕ, zero, suc, String, ◌≡◌, refl, ap, Bool, List, length, filter, ◌==◌,
}

pub record Postgres : Type 1 where
  -- The n-th identifier that the database draws.
  pub uuid : ℕ → String
  pub id_lt : String → String → Bool
  -- The rows in an order in which none comes after one that it precedes by the given test.
  pub order_by : (Row : Type 0) → (Row → Row → Bool) → List Row → List Row
  -- Identifiers are unique.
  pub uuid_injective : (m n : ℕ) → uuid m ≡ uuid n → m ≡ n
  -- Ordering neither drops nor invents a row.
  pub order_by_same :
      (Row : Type 0) (before : Row → Row → Bool) (p : Row → Bool) (rows : List Row)
      → length (filter p (order_by Row before rows)) ≡ length (filter p rows)

-- A database that can be run: identifiers in unary, and rows in the order of insertion.
abbrev unary : ℕ → String
unary zero = ""
unary (suc n) = String.◌∷◌ "u" (unary n)

pub unary_injective : (m n : ℕ) → unary m ≡ unary n → m ≡ n
unary_injective zero zero e = refl
unary_injective zero (suc n) e = cc
unary_injective (suc m) zero e = cc
unary_injective (suc m) (suc n) e = ap suc (unary_injective m n (cc))

abbrev pub sample_postgres : Postgres
sample_postgres = record {
  uuid = unary;
  id_lt = λ a b. a == b;
  order_by = λ Row before rows. rows;
  uuid_injective = unary_injective;
  order_by_same = λ Row before p rows. refl;
}
