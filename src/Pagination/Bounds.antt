-- ===== src/Pagination/Bounds.antt =====
-- The bounds of cursor pages.
use rapina.Prelude.{
  ℕ, false, Bool-cases, sym, [], ◌++◌, ◌⊎◌, inl, inr, ltb, append-nil, take-append-drop, take, drop,
  ◌<◌, ◌^◌, ◌%◌, ◌&&◌, ◌≡◌, ◌≤◌, refl, List, Option, Bytes, ◌+◌, ◌-◌, length, length-take,
  length-drop, arith, is_some,
}
use rapina.Error.{Result, ok, err, Error}
use rapina.Pagination.{PaginationConfig, max_of}
use rapina.Pagination.Cursor.{
  CursorPaginateQuery, CursorDirection, forward, backward, CursorPaginate, CursorPaginated,
  ◌and_then◌, cursor_from_query, trim, exec_by,
}

-- A cursor page that is accepted has a limit of at least 1 and at most the maximum, and the query
-- does not name both ends.
pub cursor_from_query_lem :
    {Json V : Type 0} (display : ℕ → Bytes) (decode : Bytes → Result V (Error Json))
    (config : Option PaginationConfig) (raw : CursorPaginateQuery) (p : CursorPaginate V)
    → cursor_from_query display decode config raw ≡ ok p
    → (1 ≤ p.limit)
      × (p.limit ≤ max_of config)
      × ((is_some raw.after && is_some raw.before) ≡ false)
unfolding cursor_from_query
cursor_from_query_lem display decode config raw p h = ground arith

length-trim :
    {A : Type 0} (direction : CursorDirection) (limit : ℕ) (rows : List A)
    → length (trim direction limit rows) ≤ limit
length-trim forward limit rows = ground (arith, length-take limit rows)
length-trim backward limit rows = ground (arith, length-drop (length rows - limit) rows)

and_then-ok :
    {A B E : Type 0} (r : Result A E) (f : A → Result B E) (b : B)
    → (r and_then f) ≡ ok b
    → (a : A) × (r ≡ ok a) × (f a ≡ ok b)
and_then-ok (ok a) f b h = (a, refl, h)
and_then-ok (err e) f b h = cc

kept_rows :
    {A E : Type 0} (t u : Result (Option Bytes) E) (kept : List A) (out : CursorPaginated A)
    → (t and_then λ n.
        u and_then λ q. ok (record { data_rows = kept; next_cursor = n; prev_cursor = q }))
      ≡ ok out
    → out.data_rows ≡ kept
kept_rows (ok n) (ok q) kept out h = ground arith
kept_rows (ok n) (err e) kept out h = cc
kept_rows (err e) u kept out h = cc

-- The kept rows are the ones at the cursor: the first ones of a forward query and the last ones of a
-- backward query.
abbrev pub IsKept : {A : Type 0} → CursorDirection → List A → List A → List A → Type 0
IsKept forward kept rest rows = rows ≡ kept ++ rest
IsKept backward kept rest rows = rows ≡ rest ++ kept

trim-IsKept :
    {A : Type 0} (direction : CursorDirection) (limit : ℕ) (rows : List A)
    → (rest : List A) × IsKept direction (trim direction limit rows) rest rows
      × ((rest ≡ []) ⊎ (length (trim direction limit rows) ≡ limit))
trim-IsKept forward limit rows = elim (Bool-cases (ltb limit (length rows))) [
  | inl e ↦ rw e (
    drop limit rows,
    sym (take-append-drop limit rows),
    inr (ground (arith, length-take limit rows)),
  )
  | inr e ↦ rw e ([], sym (append-nil rows), inl refl)
]
trim-IsKept backward limit rows = elim (Bool-cases (ltb limit (length rows))) [
  | inl e ↦ rw e (
    take (length rows - limit) rows,
    sym (take-append-drop (length rows - limit) rows),
    inr (ground (arith, length-drop (length rows - limit) rows)),
  )
  | inr e ↦ rw e ([], refl, inl refl)
]

-- A cursor query that succeeds, with a limit below 2^64 - 1, asks the database for one row more than
-- the limit, and returns the answered rows, at most the limit, but for a rest: that is nothing or
-- what is left of a full page, at the end away from the cursor.
pub exec_by-bounded :
    {A V E : Type 0} (encode : V → Result Bytes E) (extract : A → V)
    (fetch : CursorDirection → Option V → Option V → ℕ → Result (List A) E) (p : CursorPaginate V)
    (out : CursorPaginated A)
    → p.limit + 1 < 2 ^ 64
    → exec_by encode extract fetch p ≡ ok out
    → (rows : List A) × (rest : List A) × (fetch p.direction p.after p.before (p.limit + 1)
        ≡ ok rows)
      × IsKept p.direction out.data_rows rest rows
      × ((rest ≡ []) ⊎ (length out.data_rows ≡ p.limit))
      × (length out.data_rows ≤ p.limit)
unfolding exec_by
exec_by-bounded encode extract fetch p out small h =
    let wraps : (p.limit + 1) % 2 ^ 64 ≡ p.limit + 1 = omega arith in
    let (rows, fetched, h') =
      and_then-ok (fetch p.direction p.after p.before ((p.limit + 1) % 2 ^ 64)) _ out h in
    let kept = kept_rows _ _ (trim p.direction p.limit rows) out h' in
    let (rest, split, full) = trim-IsKept p.direction p.limit rows in
    (
      rows,
      rest,
      rw wraps at fetched,
      rw kept split,
      rw kept full,
      rw kept (length-trim p.direction p.limit rows),
    )
