-- ===== src/Jobs/Budget.antt =====
-- The retry budget: a job whose runs never succeed, under a worker's polls.
use rapina.Prelude.{
  ℕ, zero, suc, pos, below, Bool, true, false, ◌≡◌, ◌≤◌, ◌<◌, ◌+◌, refl, ap, ◌∙◌, inl, inr, List,
  [], ◌∷◌, some, Bool-cases, if◌then◌else◌, arith, Bytes, bytes_eq, bytes_eq_refl, leb, ==_refl,
  take,
}
use rapina.Jobs.Model.{pending, running, failed, display, JobRow, Table}
use rapina.Jobs.Status.{Is, Is-has_status}
use rapina.Jobs.Backend.{
  update_where, has_status, runs_as, fails_expired, reclaims, fail_row, reclaim_row, retry_row,
  fail_expired, reclaim, fail, retry, reap_expired, lease_expired_error, claim_batch, claim_row,
  claim_select, ResolvedQueueConfig,
}
use rapina.Jobs.Retry.{RetryPolicy, backoff_delay, apply_failure}
use rapina.Jobs.Worker.{
  JobDescriptor, errored, panicked, find_descriptor, dispatch, dispatch_all, poll, build_policy,
  panic_error,
}
use rapina.Jobs.Reaper.{not_running}

module _ {Json : Type 0} where
  pending_rests : (r : JobRow Json) → Is pending r → has_status running r ≡ false
  unfolding display bytes_eq
  pending_rests r e = not_running r pending e

  -- The handler of a job's type ends in an error or a panic on its payload.
  pub data FailsAlways (registry : List (JobDescriptor Json)) (job_type : Bytes) (payload : Json)
      : Type 0 where
    errors :
        (d : JobDescriptor Json) (error : Bytes)
        → find_descriptor registry job_type ≡ some d
        → d.handle payload ≡ errored error
        → FailsAlways registry job_type payload
    panics :
        (d : JobDescriptor Json) (message : Bytes)
        → find_descriptor registry job_type ≡ some d
        → d.handle payload ≡ panicked message
        → FailsAlways registry job_type payload

  update_one :
      (test : JobRow Json → Bool) (change : JobRow Json → JobRow Json) (r : JobRow Json) (b : Bool)
      → test r ≡ b
      → update_where test change (r ∷ []) ≡ (if b then change r else r) ∷ []
  unfolding update_where
  update_one test change r b e = rw e refl

  reap-pending :
      (queue : Bytes) (failed_at reclaimed_at : ℕ) (r : JobRow Json)
      → Is pending r
      → (reap_expired queue failed_at reclaimed_at (r ∷ [])).0 ≡ r ∷ []
  unfolding reap_expired fail_expired reclaim
  reap-pending queue failed_at reclaimed_at r p =
      let rests = pending_rests r p in
      let spared : fails_expired queue failed_at r ≡ false = rw rests refl in
      let left : reclaims queue reclaimed_at r ≡ false = rw rests refl in
      let first =
        update_one (fails_expired queue failed_at) (fail_row lease_expired_error failed_at) r false
          spared in
      ap (reclaim queue reclaimed_at) first
      ∙ update_one (reclaims queue reclaimed_at) reclaim_row r false left

  take_one : (n : ℕ) (r : JobRow Json) → 0 < n → take n (r ∷ []) ≡ r ∷ []
  take_one zero r h = absurd (omega arith)
  take_one (suc zero) r h = refl
  take_one (suc (suc n)) r h = refl

  module _ (config : ResolvedQueueConfig) (now : ℕ) (r : JobRow Json) where
    picks_one :
        Is pending r
        → r.queue ≡ config.queue
        → r.run_at ≤ now
        → 0 < config.batch_size
        → claim_select config now (r ∷ []) ≡ r ∷ []
    unfolding claim_select
    picks_one p q due room =
        let free : has_status pending r ≡ true = Is-has_status pending r p in
        let own : bytes_eq r.queue config.queue ≡ true = rw q (bytes_eq_refl config.queue) in
        let in_time : leb r.run_at now ≡ true = ground arith in
        rw (free, own, in_time) (take_one config.batch_size r room)

    claim-pending :
        (add : ℕ → ℕ → ℕ)
        → Is pending r
        → r.queue ≡ config.queue
        → r.run_at ≤ now
        → 0 < config.batch_size
        → claim_batch add config now (r ∷ [])
          ≡ (claim_row add config now r ∷ [], claim_row add config now r ∷ [])
    unfolding claim_batch update_where
    claim-pending add p q due room =
        rw (picks_one p q due room) (rw (==_refl r.id) (rw (==_refl r.id) refl))

  module _ (scaled add : ℕ → ℕ → ℕ) (registry : List (JobDescriptor Json))
      (config : ResolvedQueueConfig) where
    -- The row after a run that failed.
    module _ (error : Bytes) (policy : RetryPolicy) where
      abbrev after_failure : ℕ → JobRow Json → JobRow Json
      after_failure now r =
          if below (r.attempts + 1) r.max_retries
          then retry_row add error (backoff_delay scaled policy (r.attempts + 1) r.id) now r
          else fail_row error now r

      pub apply_failure-running :
          (now : ℕ) (r : JobRow Json)
          → Is running r
          → apply_failure scaled add r.id error r.attempts r.max_retries policy now (r ∷ [])
            ≡ after_failure now r ∷ []
      unfolding apply_failure retry fail
      apply_failure-running now r p =
          let runs : runs_as r.id r ≡ true = rw (==_refl r.id, Is-has_status running r p) refl in
          let delay = backoff_delay scaled policy (r.attempts + 1) r.id in
          elim (Bool-cases (below (r.attempts + 1) r.max_retries)) [
            | inl e ↦ rw e (update_one (runs_as r.id) (retry_row add error delay now) r true runs)
            | inr e ↦ rw e (update_one (runs_as r.id) (fail_row error now) r true runs)
          ]

    -- A run that fails, whatever its error.
    record FailedRun (now : ℕ) (r r' : JobRow Json) : Type 0 where
      error : Bytes
      policy : RetryPolicy
      becomes : r' ≡ after_failure error policy now r

    dispatch-failing :
        (now : ℕ) (r : JobRow Json)
        → Is running r
        → FailsAlways registry r.job_type r.payload
        → (r' : JobRow Json) × (dispatch scaled add registry r now (r ∷ []) ≡ r' ∷ [])
          × FailedRun now r r'
    unfolding dispatch
    dispatch-failing now r p (errors d error found ends) =
        let policy = build_policy d.retry_policy r.max_retries d.retry_delay in
        (
          after_failure error policy now r,
          rw (found, ends, dispatch) (apply_failure-running error policy now r p),
          record { error = error; policy = policy; becomes = refl },
        )
    dispatch-failing now r p (panics d message found ends) =
        let policy = build_policy d.retry_policy r.max_retries d.retry_delay in
        let error = panic_error message in
        (
          after_failure error policy now r,
          rw (found, ends, dispatch) (apply_failure-running error policy now r p),
          record { error = error; policy = policy; becomes = refl },
        )

    -- A poll of the table with one such job.
    poll-failing :
        (failed_at reclaimed_at claimed_at : ℕ) (finish : ℕ → ℕ) (r : JobRow Json)
        → Is pending r
        → r.queue ≡ config.queue
        → r.run_at ≤ claimed_at
        → 0 < config.batch_size
        → FailsAlways registry r.job_type r.payload
        → (r' : JobRow Json) × (poll scaled add registry config failed_at reclaimed_at claimed_at
              finish
              (r ∷ [])
            ≡ r' ∷ [])
          × FailedRun (finish r.id) (claim_row add config claimed_at r) r'
    unfolding poll dispatch_all
    poll-failing failed_at reclaimed_at claimed_at finish r p q due room fails =
        let reaped = reap-pending config.queue failed_at reclaimed_at r p in
        let claim = claim-pending config claimed_at r add p q due room in
        let (r', runs, run) =
          dispatch-failing (finish r.id) (claim_row add config claimed_at r) refl fails in
        (
          r',
          ap
                (λ t.
                  dispatch_all scaled add registry (claim_batch add config claimed_at t).0 finish
                    (claim_batch add config claimed_at t).1)
                reaped
              ∙ (ap (λ c. dispatch_all scaled add registry c.0 finish c.1) claim ∙ runs),
          run,
        )

    -- A job that waits in the queue, with a budget of `m` runs, none of which succeeds.
    pub record IsDoomed (m : ℕ) (r : JobRow Json) : Type 0 where
      pub waiting : Is pending r
      pub subscribed : r.queue ≡ config.queue
      pub budget : r.max_retries ≡ pos m
      pub failing : FailsAlways registry r.job_type r.payload

    retried :
        (m now claimed_at : ℕ) (r r' : JobRow Json)
        → IsDoomed m r
        → r.attempts + 1 < m
        → FailedRun now (claim_row add config claimed_at r) r'
        → IsDoomed m r' × (r'.attempts ≡ r.attempts + 1)
    retried m now claimed_at r r' d left run =
        let c = claim_row add config claimed_at r in
        let again : below (c.attempts + 1) c.max_retries ≡ true = rw (d.budget) (ground arith) in
        let e : r'
            ≡ retry_row add run.error (backoff_delay scaled run.policy (c.attempts + 1) c.id) now
                c =
          rw again at run.becomes in
        rw e (
          record {
            waiting = refl;
            subscribed = d.subscribed;
            budget = d.budget;
            failing = d.failing;
          },
          refl,
        )

    given_up :
        (m now claimed_at : ℕ) (r r' : JobRow Json)
        → IsDoomed m r
        → m ≤ r.attempts + 1
        → FailedRun now (claim_row add config claimed_at r) r'
        → Is failed r' × (r'.attempts ≡ r.attempts + 1)
    given_up m now claimed_at r r' d left run =
        let c = claim_row add config claimed_at r in
        let no_more : below (c.attempts + 1) c.max_retries ≡ false = rw (d.budget) (ground arith) in
        let e : r' ≡ fail_row run.error now c = rw no_more at run.becomes in rw e (refl, refl)

    module _ (late finish : ℕ → ℕ) where
      -- Polls, each of them when the job is due or later.
      abbrev pub polls : ℕ → Table Json → Table Json
      polls zero table = table
      polls (suc n) [] = []
      polls (suc n) (r ∷ table) =
          let time = r.run_at + late n in
          polls n (poll scaled add registry config time time time finish (r ∷ table))

      one_poll :
          (m n : ℕ) (r : JobRow Json)
          → 0 < config.batch_size
          → IsDoomed m r
          → (r' : JobRow Json) × (polls (suc n) (r ∷ []) ≡ polls n (r' ∷ []))
            × FailedRun (finish r.id) (claim_row add config (r.run_at + late n) r) r'
      one_poll m n r room d =
          let time = r.run_at + late n in
          let (r', runs, run) =
            poll-failing time time time finish r d.waiting d.subscribed (omega arith) room
              d.failing in
          (r', ap (polls n) runs, run)

      polls-waiting :
          (k m : ℕ) (r : JobRow Json)
          → 0 < config.batch_size
          → IsDoomed m r
          → r.attempts + k < m
          → (r' : JobRow Json) × (polls k (r ∷ []) ≡ r' ∷ [])
            × (Is pending r')
            × (r'.attempts ≡ r.attempts + k)
      polls-waiting zero m r room d left = (r, refl, d.waiting, omega arith)
      polls-waiting (suc k) m r room d left =
          let (r', runs, run) = one_poll m k r room d in
          let (d', count) = retried m (finish r.id) (r.run_at + late k) r r' d (omega arith) run in
          let (r'', runs', p, count') = polls-waiting k m r' room d' (omega arith) in
          (r'', runs ∙ runs', p, omega arith)

      polls-failed :
          (n m : ℕ) (r : JobRow Json)
          → 0 < config.batch_size
          → IsDoomed m r
          → r.attempts + suc n ≡ m
          → (r' : JobRow Json) × (polls (suc n) (r ∷ []) ≡ r' ∷ [])
            × Is failed r'
            × (r'.attempts ≡ m)
      polls-failed zero m r room d left =
          let (r', runs, run) = one_poll m zero r room d in
          let (gone, count) =
            given_up m (finish r.id) (r.run_at + late zero) r r' d (omega arith) run in
          (r', runs, gone, omega arith)
      polls-failed (suc n) m r room d left =
          let (r', runs, run) = one_poll m (suc n) r room d in
          let (d', count) =
            retried m (finish r.id) (r.run_at + late (suc n)) r r' d (omega arith) run in
          let (r'', runs', gone, count') = polls-failed n m r' room d' (omega arith) in
          (r'', runs ∙ runs', gone, count')

      -- A job with a budget of `m` runs, at least one, alone in its queue, none of whose runs
      -- succeeds, under any retry policy and `none` included: polls of a batch of at least one job
      -- that come when it is due or later run it again and again, it is pending after fewer than `m`
      -- of them, and after the `m`-th it has failed for good, with `m` attempts.
      pub polls_budget :
          (m : ℕ) (r : JobRow Json)
          → 0 < config.batch_size
          → 0 < m
          → IsDoomed m r
          → r.attempts ≡ 0
          → ((k : ℕ)
              → k < m
              → (r' : JobRow Json) × (polls k (r ∷ []) ≡ r' ∷ [])
                × Is pending r'
                × (r'.attempts ≡ k))
            × ((r' : JobRow Json) × (polls m (r ∷ []) ≡ r' ∷ []) × Is failed r' × (r'.attempts ≡ m))
      polls_budget zero r room some_budget d new = absurd (omega arith)
      polls_budget (suc n) r room some_budget d new = (
        λ k few.
            let (r', runs, p, count) = polls-waiting k (suc n) r room d (omega arith) in
            (r', runs, p, omega arith),
        polls-failed n (suc n) r room d (omega arith),
      )
