-- ===== src/Pagination/Cursor.antt =====
-- Cursor pagination (rapina/src/pagination.rs). The coding of tokens, the rows that the database
-- answers and the printed number are parameters.
use rapina.Prelude.{
  ℕ, Bool, true, false, ◌&&◌, List, [], ◌∷◌, ◌++◌, Option, none, some, if◌then◌else◌, Bytes, codes,
  ltb, ◌==◌, ◌+◌, ◌-◌, ◌%◌, ◌^◌, length, take, drop, is_some, unwrap_or,
}
use rapina.Error.{Result, ok, err, Error, validation}
use rapina.Pagination.{PaginationConfig, default_of, max_of}

pub record CursorPaginateQuery : Type 0 where
  pub after : Option Bytes
  pub before : Option Bytes
  pub limit : Option ℕ

pub data CursorDirection : Type 0 where
  forward : CursorDirection
  backward : CursorDirection

pub record CursorPaginate (V : Type 0) : Type 0 where
  pub after : Option V
  pub before : Option V
  pub limit : ℕ
  pub direction : CursorDirection

pub record CursorPaginated (A : Type 0) : Type 0 where
  pub data_rows : List A
  pub next_cursor : Option Bytes
  pub prev_cursor : Option Bytes

infixl 20 ◌and_then◌
-- `?`: an error ends the function.
abbrev pub ◌and_then◌ : {A B E : Type 0} → Result A E → (A → Result B E) → Result B E
ok a and_then f = f a
err e and_then f = err e

-- `map` of a fallible function, and `transpose`.
abbrev transposed : {A B E : Type 0} → (A → Result B E) → Option A → Result (Option B) E
transposed f none = ok none
transposed f (some a) = f a and_then λ b. ok (some b)

module _ {Json V : Type 0} (display : ℕ → Bytes)
    (decode_cursor : Bytes → Result V (Error Json)) where
  abbrev direction_of : Option V → CursorDirection
  direction_of before = if is_some before then backward else forward

  -- The checks of `CursorPaginate::from_request_parts`, in their order.
  unfoldable pub cursor_from_query :
      Option PaginationConfig → CursorPaginateQuery → Result (CursorPaginate V) (Error Json)
  cursor_from_query config raw =
      let limit = unwrap_or raw.limit (default_of config) in
      if is_some raw.after && is_some raw.before
      then err (validation (codes "after and before cannot be combined; use one or the other"))
      else if limit == 0
      then err (validation (codes "limit must be >= 1"))
      else if ltb (max_of config) limit
      then err (validation (codes "limit must be <= " ++ display (max_of config)))
      else (transposed decode_cursor raw.after and_then λ after.
          transposed decode_cursor raw.before and_then λ before. ok (record {
            after = after;
            before = before;
            limit = limit;
            direction = direction_of before;
          }))

abbrev first : {A : Type 0} → List A → Option A
first [] = none
first (a ∷ _) = some a

abbrev last : {A : Type 0} → List A → Option A
last [] = none
last (a ∷ []) = some a
last (_ ∷ b ∷ l) = last (b ∷ l)

-- The kept rows: the `limit` rows next to the cursor, when there are more.
abbrev pub trim : {A : Type 0} → CursorDirection → ℕ → List A → List A
trim forward limit rows = if ltb limit (length rows) then take limit rows else rows
trim backward limit rows = if ltb limit (length rows) then drop (length rows - limit) rows else rows

module _ {A V E : Type 0} (encode_cursor : V → Result Bytes E) (extract : A → V) where
  abbrev token : Bool → Option A → Result (Option Bytes) E
  token false row = ok none
  token true row = transposed (λ a. encode_cursor (extract a)) row

  abbrev has_next_token : CursorPaginate V → Bool → Bool
  has_next_token p has_more = elim p.direction [ forward ↦ has_more | backward ↦ is_some p.before ]

  abbrev has_prev_token : CursorPaginate V → Bool → Bool
  has_prev_token p has_more = elim p.direction [ forward ↦ is_some p.after | backward ↦ has_more ]

  -- `fetch` answers the first or the last rows behind and before the cursors, one more than the limit.
  -- The sum wraps around at 2^64, as in a release build.
  unfoldable pub exec_by :
      (fetch : CursorDirection → Option V → Option V → ℕ → Result (List A) E)
      → CursorPaginate V
      → Result (CursorPaginated A) E
  exec_by fetch p = fetch p.direction p.after p.before ((p.limit + 1) % 2 ^ 64) and_then λ rows.
      let has_more = ltb p.limit (length rows) in
      let kept = trim p.direction p.limit rows in
      token (has_next_token p has_more) (last kept) and_then λ next_cursor.
      token (has_prev_token p has_more) (first kept) and_then λ prev_cursor.
      ok (record { data_rows = kept; next_cursor = next_cursor; prev_cursor = prev_cursor })
