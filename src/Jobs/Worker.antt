-- ===== src/Jobs/Worker.antt =====
-- The worker (rapina/src/jobs/worker.rs). A handler is what its run comes to.
use rapina.Prelude.{
  ℕ, ℤ, pos, List, [], ◌∷◌, ◌++◌, Option, none, some, Bytes, codes, bytes_eq, if◌then◌else◌,
}
use rapina.Error
use rapina.Error.{Error}
use rapina.Jobs.Model.{JobRow, Table}
use rapina.Jobs.Backend.{ResolvedQueueConfig, reap_expired, claim_batch}
use rapina.Jobs.Retry.{RetryPolicy, exponential, fixed, apply_failure, apply_success}

-- `Ok`, an error with its text, or a panic with its message.
pub data Outcome : Type 0 where
  succeeded : Outcome
  errored : Bytes → Outcome
  panicked : Bytes → Outcome

pub record JobDescriptor (Json : Type 0) : Type 0 where
  pub job_type : Bytes
  pub handle : Json → Outcome
  pub retry_policy : Bytes
  pub retry_delay : ℕ

unfoldable pub build_policy : Bytes → ℤ → ℕ → RetryPolicy
build_policy retry_policy max_retries delay =
    if bytes_eq retry_policy (codes "fixed")
    then fixed max_retries delay
    else if bytes_eq retry_policy (codes "none")
    then RetryPolicy.none
    else exponential max_retries delay

-- The text of the error that stands for a panic.
unfoldable pub panic_error : Bytes → Bytes
unfolding Error.new Error.display
panic_error message =
    Error.display {Json = Unit} (Error.internal (codes "job handler panicked: " ++ message))

module _ {Json : Type 0} where
  abbrev pub find_descriptor : List (JobDescriptor Json) → Bytes → Option (JobDescriptor Json)
  find_descriptor [] job_type = none
  find_descriptor (d ∷ descriptors) job_type =
      if bytes_eq d.job_type job_type then some d else find_descriptor descriptors job_type

  module _ (scaled add : ℕ → ℕ → ℕ) (registry : List (JobDescriptor Json)) where
    abbrev pub record_outcome :
        JobDescriptor Json → Outcome → JobRow Json → ℕ → Table Json → Table Json
    record_outcome d succeeded job now table = apply_success job.id now table
    record_outcome d (errored error) job now table =
        apply_failure scaled add job.id error job.attempts job.max_retries
          (build_policy d.retry_policy job.max_retries d.retry_delay) now table
    record_outcome d (panicked message) job now table =
        apply_failure scaled add job.id (panic_error message) job.attempts job.max_retries
          (build_policy d.retry_policy job.max_retries d.retry_delay) now table

    -- A job of no known type fails for good: with a budget of 0 there is no retry.
    unfoldable pub dispatch : JobRow Json → ℕ → Table Json → Table Json
    unfolding build_policy apply_failure apply_success
    dispatch job now table = elim (find_descriptor registry job.job_type) [
      | none ↦
          apply_failure scaled add job.id
            (codes "no handler registered for job type: " ++ job.job_type) job.attempts (pos 0)
            RetryPolicy.none now table
      | some d ↦ record_outcome d (d.handle job.payload) job now table
    ]

    -- The jobs of a batch, one after the other, each at the time when it ends.
    unfoldable pub dispatch_all : List (JobRow Json) → (ℕ → ℕ) → Table Json → Table Json
    unfolding dispatch
    dispatch_all [] ends table = table
    dispatch_all (job ∷ jobs) ends table = dispatch_all jobs ends (dispatch job (ends job.id) table)

    -- One round of the poll loop: the two statements of the reaper, the claim and the batch, each
    -- at its time. A statement that the database refuses is logged and changes nothing; none is
    -- refused here.
    unfoldable pub poll : ResolvedQueueConfig → ℕ → ℕ → ℕ → (ℕ → ℕ) → Table Json → Table Json
    unfolding reap_expired claim_batch dispatch_all
    poll config failed_at reclaimed_at claimed_at ends table =
        let reaped = (reap_expired config.queue failed_at reclaimed_at table).0 in
        let claim = claim_batch add config claimed_at reaped in dispatch_all claim.0 ends claim.1
