-- ===== src/Pagination/Laws.antt =====
-- The pages that are accepted, and the counts of a page.
use native.Mathlib.Nat.{div-add-mod, mod-lt, mul-suc, mul-le-mul_left, mul_comm}
use rapina.Prelude.{
  ℕ, true, false, ◌≡◌, ◌≤◌, ◌<◌, ◌↔◌, refl, List, Option, Bytes, ltb, if◌then◌else◌, ◌+◌, ◌==◌, ◌*◌,
  ◌/◌, ◌%◌, arith, unwrap_or, Bool-cases, inl, inr,
}
use rapina.Error.{Result, ok}
use rapina.Pagination.{
  PaginationConfig, PaginateQuery, Paginate, Paginated, from_query, div_ceil, exec, pred_u64,
  default_of, max_of,
}

-- A page is accepted exactly when it and its size, or their defaults, are at least 1 and the size is
-- not above the maximum; it is taken as it is.
pub from_query_iff :
    {Json : Type 0} (display : ℕ → Bytes) (config : Option PaginationConfig) (raw : PaginateQuery)
    (p : Paginate)
    → (from_query {Json = Json} display config raw ≡ ok p) ↔ (
        (p.page ≡ unwrap_or raw.page 1)
        × (p.per_page ≡ unwrap_or raw.per_page (default_of config))
        × (1 ≤ p.page)
        × (1 ≤ p.per_page)
        × (p.per_page ≤ max_of config))
unfolding from_query
from_query_iff display config raw p = ground arith

product_step : (b m n : ℕ) → m < n → b * m + b ≤ b * n
product_step b m n h = rw (mul-suc b m) at (mul-le-mul_left b h)

below_ceil :
    (q r b page : ℕ)
    → r < b
    → (ltb page (if ltb 0 r then q + 1 else q) ≡ true) ↔ (page * b < b * q + r)
below_ceil q r b page h =
    let swap = mul_comm page b in
    elim (Bool-cases (ltb page q)) [
      | inl e ↦ let step = product_step b page q (ground arith) in rw swap (ground arith)
      | inr e ↦ elim (Bool-cases (ltb q page)) [
        | inl f ↦ let step = product_step b q page (ground arith) in rw swap (ground arith)
        | inr f ↦ let same : page ≡ q = ground arith in rw (swap, same) (ground arith)
      ]
    ]

exec_runs :
    {A E : Type 0} (fetch : ℕ → Result (List A) E) (rows : List A) (total : ℕ) (p : Paginate)
    → 1 ≤ p.per_page
    → fetch (pred_u64 p.page) ≡ ok rows
    → exec fetch (ok total) p
      ≡ ok (record {
        data_rows = rows;
        page = p.page;
        per_page = p.per_page;
        total = total;
        total_pages = div_ceil total p.per_page;
        has_prev = ltb 1 p.page;
        has_next = ltb p.page (div_ceil total p.per_page);
      })
unfolding exec
exec_runs fetch rows total p h f =
    let size : (p.per_page == 0) ≡ false = ground arith in rw (f, exec) (rw size refl)

-- A page of at least one row, whose rows and count the database answers: the page keeps both, it has
-- a next page exactly when there are rows behind it, and one before it when it is not the first.
pub exec-has_next :
    {A E : Type 0} (fetch : ℕ → Result (List A) E) (rows : List A) (total : ℕ) (p : Paginate)
    → 1 ≤ p.per_page
    → fetch (pred_u64 p.page) ≡ ok rows
    → (out : Paginated A) × (exec fetch (ok total) p ≡ ok out)
      × (out.data_rows ≡ rows)
      × (out.total ≡ total)
      × ((out.has_next ≡ true) ↔ (p.page * p.per_page < total))
      × ((out.has_prev ≡ true) ↔ (1 < p.page))
unfolding div_ceil
exec-has_next fetch rows total p h f = (
  record {
    data_rows = rows;
    page = p.page;
    per_page = p.per_page;
    total = total;
    total_pages = div_ceil total p.per_page;
    has_prev = ltb 1 p.page;
    has_next = ltb p.page (div_ceil total p.per_page);
  },
  exec_runs fetch rows total p h f,
  refl,
  refl,
  rw (div-add-mod total p.per_page) at (
      below_ceil (total / p.per_page) (total % p.per_page) p.per_page p.page
        (mod-lt total (omega arith))),
  ground arith,
)
