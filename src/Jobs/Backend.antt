-- ===== src/Jobs/Backend.antt =====
-- The statements of rapina/src/jobs/backend.rs, which differ between the databases in the notation
-- only, as functions on the table. `now` is CURRENT_TIMESTAMP, and `add` gives the database's sum
-- of a time and a duration, which each database rounds in its own way.
use rapina.Prelude.{
  ℕ, ℤ, below, Bool, false, not, ◌&&◌, ◌+◌, [], ◌∷◌, ◌++◌, Option, none, some, Bytes, codes,
  bytes_eq, if◌then◌else◌, leb, ◌==◌, any, take, suc, sort_by,
}
use rapina.Jobs.Model.{JobStatus, pending, running, completed, failed, display, JobRow, Table}

pub record JobRequest (Json : Type 0) : Type 0 where
  pub job_type : Bytes
  pub payload : Json
  pub queue : Bytes
  pub max_retries : ℤ

pub record ResolvedQueueConfig : Type 0 where
  pub queue : Bytes
  pub poll_interval : ℕ
  pub batch_size : ℕ  -- i32, here not negative
  pub job_timeout : ℕ

abbrev pub lease_expired_error : Bytes
lease_expired_error =
    codes "job lease expired before completion (worker crashed or job_timeout exceeded)"

module _ {Json : Type 0} where
  -- `UPDATE ... SET ... WHERE ...`, and the number of rows it affects.
  unfoldable pub update_where :
      (JobRow Json → Bool) → (JobRow Json → JobRow Json) → Table Json → Table Json
  update_where test change [] = []
  update_where test change (row ∷ table) =
      (if test row then change row else row) ∷ update_where test change table

  unfoldable pub count_where : (JobRow Json → Bool) → Table Json → ℕ
  count_where test [] = 0
  count_where test (row ∷ table) = let n = count_where test table in if test row then suc n else n

  unfoldable pub has_status : JobStatus → JobRow Json → Bool
  has_status status row = bytes_eq row.status (display status)

  -- The row that `build_insert_stmt` writes, with the table's defaults for the other columns.
  abbrev pub inserted : JobRequest Json → Option Bytes → ℕ → ℕ → JobRow Json
  inserted req trace_id id now = record {
    id = id;
    queue = req.queue;
    job_type = req.job_type;
    payload = req.payload;
    status = display pending;
    attempts = 0;
    max_retries = req.max_retries;
    run_at = now;
    started_at = none;
    locked_until = none;
    finished_at = none;
    last_error = none;
    trace_id = trace_id;
    created_at = now;
  }

  -- A second row with one id is an error, as the id is the primary key.
  unfoldable pub insert : JobRequest Json → Option Bytes → ℕ → ℕ → Table Json → Option (Table Json)
  insert req trace_id id now table =
      if any (λ row. row.id == id) table
      then none
      else some (table ++ inserted req trace_id id now ∷ [])

  -- The condition of the claim.
  abbrev pub claimable : Bytes → ℕ → JobRow Json → Bool
  claimable queue now row =
      has_status pending row && (bytes_eq row.queue queue && leb row.run_at now)

  -- `ORDER BY run_at ASC`; rows of one time stay in the order of the table.
  abbrev pub order_by_run_at : Table Json → Table Json
  order_by_run_at rows = sort_by (λ a b. leb a.run_at b.run_at) rows

  abbrev pub select : (JobRow Json → Bool) → Table Json → Table Json
  select test [] = []
  select test (row ∷ table) = let rest = select test table in if test row then row ∷ rest else rest

  -- The rows that the inner query of the claim picks.
  unfoldable pub claim_select : ResolvedQueueConfig → ℕ → Table Json → Table Json
  claim_select config now table =
      take config.batch_size (order_by_run_at (select (claimable config.queue now) table))

  abbrev pub is_among : Table Json → JobRow Json → Bool
  is_among rows row = any (λ picked. picked.id == row.id) rows

  abbrev pub expired : Bytes → ℕ → JobRow Json → Bool
  expired queue now row =
      has_status running row
      && (bytes_eq row.queue queue
          && elim row.locked_until [ none ↦ false | some until ↦ leb until now ])

  abbrev pub fails_expired : Bytes → ℕ → JobRow Json → Bool
  fails_expired queue now row =
      expired queue now row && not (below (row.attempts + 1) row.max_retries)

  abbrev pub reclaims : Bytes → ℕ → JobRow Json → Bool
  reclaims queue now row = expired queue now row && below (row.attempts + 1) row.max_retries

  abbrev pub fail_row : Bytes → ℕ → JobRow Json → JobRow Json
  fail_row error now row = record row {
    attempts = row.attempts + 1;
    last_error = some error;
    status = display failed;
    finished_at = some now;
  }

  abbrev pub reclaim_row : JobRow Json → JobRow Json
  reclaim_row row = record row {
    attempts = row.attempts + 1;
    last_error = some lease_expired_error;
    status = display pending;
    locked_until = none;
    started_at = none;
  }

  unfoldable pub fail_expired : Bytes → ℕ → Table Json → Table Json
  unfolding update_where
  fail_expired queue now table =
      update_where (fails_expired queue now) (fail_row lease_expired_error now) table

  unfoldable pub reclaim : Bytes → ℕ → Table Json → Table Json
  unfolding update_where
  reclaim queue now table = update_where (reclaims queue now) reclaim_row table

  -- The two statements read the time one after the other. The counts are of the rows that failed
  -- and of those that were reclaimed.
  unfoldable pub reap_expired : Bytes → ℕ → ℕ → Table Json → Table Json × ℕ × ℕ
  unfolding fail_expired reclaim count_where
  reap_expired queue now later table =
      let failing = fail_expired queue now table in
      (
        reclaim queue later failing,
        count_where (fails_expired queue now) table,
        count_where (reclaims queue later) failing,
      )

  abbrev pub runs_as : ℕ → JobRow Json → Bool
  runs_as id row = (row.id == id) && has_status running row

  unfoldable pub fail : ℕ → Bytes → ℕ → Table Json → Table Json
  unfolding update_where
  fail id error now table = update_where (runs_as id) (fail_row error now) table

  abbrev pub success_row : ℕ → JobRow Json → JobRow Json
  success_row now row = record row {
    status = display completed;
    finished_at = some now;
    locked_until = none;
  }

  unfoldable pub success : ℕ → ℕ → Table Json → Table Json
  unfolding update_where
  success id now table = update_where (runs_as id) (success_row now) table

  module _ (add : ℕ → ℕ → ℕ) where
    abbrev pub claim_row : ResolvedQueueConfig → ℕ → JobRow Json → JobRow Json
    claim_row config now row = record row {
      status = display running;
      started_at = some now;
      locked_until = some (add now config.job_timeout);
    }

    -- The claimed rows as they are then, and the table.
    unfoldable pub claim_batch : ResolvedQueueConfig → ℕ → Table Json → Table Json × Table Json
    unfolding claim_select update_where
    claim_batch config now table =
        let picked = claim_select config now table in
        let after = update_where (is_among picked) (claim_row config now) table in
        (select (is_among picked) after, after)

    abbrev pub retry_row : Bytes → ℕ → ℕ → JobRow Json → JobRow Json
    retry_row error delay now row = record row {
      attempts = row.attempts + 1;
      last_error = some error;
      status = display pending;
      run_at = add now delay;
      locked_until = none;
      started_at = none;
    }

    unfoldable pub retry : ℕ → Bytes → ℕ → ℕ → Table Json → Table Json
    unfolding update_where
    retry id error delay now table = update_where (runs_as id) (retry_row error delay now) table
