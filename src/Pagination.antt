-- ===== src/Pagination.antt =====
-- Offset and cursor pagination (rapina/src/pagination.rs). The query's deserialised fields, the
-- printed number of a message, the database's rows and the token coding are parameters.
pub mod Laws
pub mod Cursor
pub mod Bounds
use rapina.Prelude.{
  ℕ, Bool, true, false, ◌&&◌, List, [], ◌∷◌, ◌++◌, Option, none, some, if◌then◌else◌, Bytes, codes,
  ltb, ◌==◌, ◌+◌, ◌-◌, ◌/◌, ◌%◌, map, length, take, drop, is_some, unwrap_or,
}
use rapina.Error.{Result, ok, err, Error, validation}

abbrev pub default_per_page : ℕ
default_per_page = 20

abbrev pub default_max_per_page : ℕ
default_max_per_page = 100

pub record PaginationConfig : Type 0 where
  pub default_per_page : ℕ
  pub max_per_page : ℕ

unfoldable pub default_config : PaginationConfig
default_config = record { default_per_page = default_per_page; max_per_page = default_max_per_page }

pub record PaginateQuery : Type 0 where
  pub page : Option ℕ
  pub per_page : Option ℕ

pub record Paginate : Type 0 where
  pub page : ℕ
  pub per_page : ℕ

pub record Paginated (A : Type 0) : Type 0 where
  pub data_rows : List A
  pub page : ℕ
  pub per_page : ℕ
  pub total : ℕ
  pub total_pages : ℕ
  pub has_prev : Bool
  pub has_next : Bool

abbrev default_of : Option PaginationConfig → ℕ
default_of none = default_per_page
default_of (some c) = c.default_per_page

abbrev max_of : Option PaginationConfig → ℕ
max_of none = default_max_per_page
max_of (some c) = c.max_per_page

module _ {Json : Type 0} (display : ℕ → Bytes) where
  -- The checks of `Paginate::from_request_parts`, in their order.
  unfoldable pub from_query : Option PaginationConfig → PaginateQuery → Result Paginate (Error Json)
  from_query config raw =
      let page = unwrap_or raw.page 1 in
      let per_page = unwrap_or raw.per_page (default_of config) in
      if ltb page 1
      then err (validation (codes "page must be >= 1"))
      else if ltb per_page 1
      then err (validation (codes "per_page must be >= 1"))
      else if ltb (max_of config) per_page
      then err (validation (codes "per_page must be <= " ++ display (max_of config)))
      else ok (record { page = page; per_page = per_page })

-- `u64::div_ceil`.
unfoldable pub div_ceil : ℕ → ℕ → ℕ
div_ceil a b = if ltb 0 (a % b) then a / b + 1 else a / b

-- The subtraction of 1 on `u64` wraps around (with overflow checks, it panics) on a page 0, which
-- `from_query` refuses.
abbrev pub pred_u64 : ℕ → ℕ
pred_u64 page = if page == 0 then 18446744073709551615 else page - 1

module _ {A E : Type 0} where
  -- The database answers the rows of a page (counted from 0) and the number of all rows.
  unfoldable pub exec :
      (fetch_page : ℕ → Result (List A) E) (num_items : Result ℕ E)
      → Paginate
      → Result (Paginated A) E
  unfolding div_ceil
  exec fetch_page num_items p = elim (fetch_page (pred_u64 p.page)) [
    | err e ↦ err e
    | ok items ↦ elim num_items [
      | err e ↦ err e
      | ok total ↦
          let total_pages = if p.per_page == 0 then 0 else div_ceil total p.per_page in
          ok (record {
            data_rows = items;
            page = p.page;
            per_page = p.per_page;
            total = total;
            total_pages = total_pages;
            has_prev = ltb 1 p.page;
            has_next = ltb p.page total_pages;
          })
    ]
  ]

unfoldable pub map_rows : {A B : Type 0} → (A → B) → Paginated A → Paginated B
map_rows f p = record {
  data_rows = map f p.data_rows;
  page = p.page;
  per_page = p.per_page;
  total = p.total;
  total_pages = p.total_pages;
  has_prev = p.has_prev;
  has_next = p.has_next;
}
