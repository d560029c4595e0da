-- ===== src/Jobs/Rounds.antt =====
-- The worker's rounds are runs of statements.
use rapina.Prelude.{
  ℕ, ℤ, below, ◌+◌, inl, inr, List, [], ◌∷◌, Bytes, codes, ◌++◌, pos, Bool-cases, Option-cases,
}
use rapina.Jobs.Model.{JobRow, Table}
use rapina.Jobs.Backend.{ResolvedQueueConfig, reap_expired, claim_batch}
use rapina.Jobs.Retry.{RetryPolicy, apply_failure, apply_success, backoff_delay}
use rapina.Jobs.Worker.{
  JobDescriptor, Outcome, succeeded, errored, panicked, find_descriptor, record_outcome, dispatch,
  dispatch_all, poll, build_policy, panic_error,
}
use rapina.Jobs.Steps.{
  Step, Reaches, here, next, claims, fails_leases, reclaims_leases, retries, fails, succeeds,
}

module _ {Json : Type 0} (scaled add : ℕ → ℕ → ℕ) (registry : List (JobDescriptor Json)) where
  Step-apply_failure :
      (id : ℕ) (error : Bytes) (attempts : ℕ) (max_retries : ℤ) (policy : RetryPolicy) (now : ℕ)
      (t : Table Json)
      → Step add t (apply_failure scaled add id error attempts max_retries policy now t)
  unfolding apply_failure
  Step-apply_failure id error attempts max_retries policy now t =
      elim (Bool-cases (below (attempts + 1) max_retries)) [
        | inl e ↦ rw e (retries id error (backoff_delay scaled policy (attempts + 1) id) now)
        | inr e ↦ rw e (fails id error now)
      ]

  Step-record_outcome :
      (d : JobDescriptor Json) (outcome : Outcome) (job : JobRow Json) (now : ℕ) (t : Table Json)
      → Step add t (record_outcome scaled add registry d outcome job now t)
  unfolding apply_success
  Step-record_outcome d succeeded job now t = succeeds job.id now
  Step-record_outcome d (errored error) job now t =
      Step-apply_failure job.id error job.attempts job.max_retries
        (build_policy d.retry_policy job.max_retries d.retry_delay) now t
  Step-record_outcome d (panicked message) job now t =
      Step-apply_failure job.id (panic_error message) job.attempts job.max_retries
        (build_policy d.retry_policy job.max_retries d.retry_delay) now t

  Step-dispatch :
      (job : JobRow Json) (now : ℕ) (t : Table Json)
      → Step add t (dispatch scaled add registry job now t)
  unfolding dispatch
  Step-dispatch job now t = elim (Option-cases (find_descriptor registry job.job_type)) [
    | inl e ↦
        rw (e, dispatch)
          (Step-apply_failure job.id (codes "no handler registered for job type: " ++ job.job_type)
            job.attempts (pos 0) RetryPolicy.none now t)
    | inr (d, e) ↦ rw (e, dispatch) (Step-record_outcome d (d.handle job.payload) job now t)
  ]

  Reaches-dispatch_all :
      (jobs : List (JobRow Json)) (finish : ℕ → ℕ) (t : Table Json)
      → Reaches add t (dispatch_all scaled add registry jobs finish t)
  unfolding dispatch_all
  Reaches-dispatch_all [] finish t = here
  Reaches-dispatch_all (job ∷ jobs) finish t =
      next (Step-dispatch job (finish job.id) t)
        (Reaches-dispatch_all jobs finish (dispatch scaled add registry job (finish job.id) t))

  -- A round of a worker is a run of statements: those of the reaper, the claim, and one for each
  -- job of the batch, whatever its handler comes to.
  pub Reaches-poll :
      (config : ResolvedQueueConfig) (failed_at reclaimed_at claimed_at : ℕ) (finish : ℕ → ℕ)
      (t : Table Json)
      → Reaches add t (poll scaled add registry config failed_at reclaimed_at claimed_at finish t)
  unfolding poll reap_expired
  Reaches-poll config failed_at reclaimed_at claimed_at finish t =
      let reaped = (reap_expired config.queue failed_at reclaimed_at t).0 in
      let claim = claim_batch add config claimed_at reaped in
      next (fails_leases config.queue failed_at) (
        next (reclaims_leases config.queue reclaimed_at)
          (next (claims config claimed_at) (Reaches-dispatch_all claim.0 finish claim.1)))
