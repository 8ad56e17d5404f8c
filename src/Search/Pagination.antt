-- ===== src/Search/Pagination.antt =====
-- backend/src/lib/pagination.ts. Numbers are exact, as JavaScript's are below 2 ^ 53.
use Prim.Native.Char.{code}
use jobs_scraper_global.Prelude.{
  ℕ, ◌+◌, ◌-◌, ◌*◌, ◌/◌, min, max, String, Bool, false, ◌&&◌, Option, none, some, List, length,
  slice, leb, ltb, eqb, if◌then◌else◌, trim_start,
}

pub record PaginationParams : Type 0 where
  pub page : ℕ
  pub limit : ℕ

pub record Pagination : Type 0 where
  pub total : ℕ
  pub page : ℕ
  pub limit : ℕ
  pub total_pages : ℕ
  pub has_next : Bool
  pub has_prev : Bool

-- What `parseInt(text, 10)` reads: no number, or one with its sign.
pub data Parsed : Type 0 where
  nan : Parsed
  plus minus : ℕ → Parsed

-- The digits that a text starts with, after those that have been read.
unfoldable pub read_digits : ℕ → String → ℕ
read_digits n String.[] = n
read_digits n (String.◌∷◌ c s) =
    let rest = read_digits (10 * n + (code c - 48)) s in
    if leb 48 (code c) && leb (code c) 57 then rest else n

unfoldable pub starts_with_digit : String → Bool
starts_with_digit String.[] = false
starts_with_digit (String.◌∷◌ c s) = leb 48 (code c) && leb (code c) 57

abbrev pub signed : (ℕ → Parsed) → String → Parsed
signed sign s = if starts_with_digit s then sign (read_digits 0 s) else nan

unfoldable pub after_space : String → Parsed
unfolding read_digits starts_with_digit
after_space String.[] = nan
after_space (String.◌∷◌ c s) =
    if eqb (code c) 45
    then signed minus s
    else if eqb (code c) 43
    then signed plus s
    else signed plus (String.◌∷◌ c s)

unfoldable pub parse_int : String → Parsed
unfolding after_space trim_start
parse_int t = after_space (trim_start t)

-- `n || d`, and then `Math.max(1, ...)`.
abbrev pub at_least_one : Parsed → ℕ → ℕ
at_least_one nan d = max 1 d
at_least_one (plus n) d = if eqb n 0 then max 1 d else n
at_least_one (minus n) d = if eqb n 0 then max 1 d else 1

abbrev pub read_param : Option String → ℕ → ℕ
unfolding parse_int
read_param none d = at_least_one (plus d) d
read_param (some t) d = at_least_one (parse_int t) d

-- The arguments are `String(query.page)` and `String(query.limit)`, where they are given.
unfoldable pub parse_pagination : Option String → Option String → PaginationParams
unfolding parse_int
parse_pagination page limit = record {
  page = read_param page 1;
  limit = min 100 (read_param limit 100);
}

-- `Math.ceil(total / limit)` at a positive limit.
abbrev pub ceil_div : ℕ → ℕ → ℕ
ceil_div total limit = (total + (limit - 1)) / limit

abbrev pub pagination_of : ℕ → PaginationParams → Pagination
pagination_of total p = record {
  total = total;
  page = p.page;
  limit = p.limit;
  total_pages = ceil_div total p.limit;
  has_next = ltb p.page (ceil_div total p.limit);
  has_prev = ltb 1 p.page;
}

abbrev pub offset_of : PaginationParams → ℕ
offset_of p = (p.page - 1) * p.limit

unfoldable pub paginate {ℓ} : {A : Type ℓ} → List A → PaginationParams → List A × Pagination
paginate items p =
    (slice (offset_of p) (offset_of p + p.limit) items, pagination_of (length items) p)
