-- ===== src/Jobs/Model.antt =====
-- The rows of the jobs table and their status (rapina/src/jobs/model.rs). Times and durations are
-- counts of nanoseconds, and an id is the number of its UUID.
use rapina.Prelude.{ℕ, ℤ, List, Option, Bytes, codes, bytes_eq, if◌then◌else◌, ◌++◌}
use rapina.Error.{Result, ok, err}

pub data JobStatus : Type 0 where
  pending : JobStatus
  running : JobStatus
  completed : JobStatus
  failed : JobStatus

-- `Display`: what the status column holds.
unfoldable pub display : JobStatus → Bytes
display pending = codes "pending"
display running = codes "running"
display completed = codes "completed"
display failed = codes "failed"

-- `FromStr`.
unfoldable pub from_str : Bytes → Result JobStatus Bytes
unfolding bytes_eq
from_str s =
    if bytes_eq s (codes "pending")
    then ok pending
    else if bytes_eq s (codes "running")
    then ok running
    else if bytes_eq s (codes "completed")
    then ok completed
    else if bytes_eq s (codes "failed")
    then ok failed
    else err (codes "unknown job status: " ++ s)

pub record JobRow (Json : Type 0) : Type 0 where
  pub id : ℕ
  pub queue : Bytes
  pub job_type : Bytes
  pub payload : Json
  pub status : Bytes
  pub attempts : ℕ
  pub max_retries : ℤ
  pub run_at : ℕ
  pub started_at : Option ℕ
  pub locked_until : Option ℕ
  pub finished_at : Option ℕ
  pub last_error : Option Bytes
  pub trace_id : Option Bytes
  pub created_at : ℕ

-- The table, in the order in which its rows were inserted.
abbrev pub Table : Type 0 → Type 0
Table Json = List (JobRow Json)

unfoldable pub parse_status : {Json : Type 0} → JobRow Json → Result JobStatus Bytes
unfolding from_str
parse_status row = from_str row.status
