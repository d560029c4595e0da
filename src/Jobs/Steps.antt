-- ===== src/Jobs/Steps.antt =====
-- The runs of the table: the statements of any number of workers and of callers that enqueue, in
-- any order and at any times.
use mathlib.Core.List.{Memᴰ}
use rapina.Prelude.{
  ℕ, true, ◌≡◌, refl, inl, inr, [], ◌∷◌, ◌++◌, Option, some, Bytes, Bool-cases, arith, any, ◌==◌,
}
use rapina.Jobs.Model.{pending, running, JobRow, Table}
use rapina.Jobs.Status.{Is, has_status-Is}
use rapina.Jobs.Backend.{
  has_status, runs_as, fails_expired, reclaims, fail_row, reclaim_row, success_row, claim_row,
  retry_row, inserted, insert, fail_expired, reclaim, fail, success, claim_batch, retry,
  claim_select, is_among, JobRequest, ResolvedQueueConfig, lease_expired_error,
}
use rapina.Jobs.Lifecycle.{
  starts, gives_back, gives_up, completes, Evolves, Evolves-update_where, Evolves-append,
  IsFinished, Evolves-IsFinished,
}
use rapina.Jobs.WellFormed.{
  IsConsistent, waits, succeeded, gave_up, IsWellFormed, running_unfinished, pending_unfinished,
  update_where-IsWellFormed, append-IsWellFormed, unique_row,
}
use rapina.Jobs.Claims.{Mem-claim_select, is_among-Mem, claimable-Is}

module _ {Json : Type 0} (add : ℕ → ℕ → ℕ) where
  -- One statement.
  pub data Step : Table Json → Table Json → Type 0 where
    enqueues :
        (req : JobRequest Json) (trace_id : Option Bytes) (id now : ℕ) {t t' : Table Json}
        → insert req trace_id id now t ≡ some t'
        → Step t t'
    claims :
        (config : ResolvedQueueConfig) (now : ℕ) {t : Table Json}
        → Step t (claim_batch add config now t).1
    fails_leases : (queue : Bytes) (now : ℕ) {t : Table Json} → Step t (fail_expired queue now t)
    reclaims_leases : (queue : Bytes) (now : ℕ) {t : Table Json} → Step t (reclaim queue now t)
    retries :
        (id : ℕ) (error : Bytes) (delay now : ℕ) {t : Table Json}
        → Step t (retry add id error delay now t)
    fails : (id : ℕ) (error : Bytes) (now : ℕ) {t : Table Json} → Step t (fail id error now t)
    succeeds : (id now : ℕ) {t : Table Json} → Step t (success id now t)

  pub data Reaches : Table Json → Table Json → Type 0 where
    here : {t : Table Json} → Reaches t t
    next : {t u v : Table Json} → Step t u → Reaches u v → Reaches t v

  runs_as-Is : (id : ℕ) (r : JobRow Json) → runs_as id r ≡ true → Is running r
  runs_as-Is id r h =
      let e : has_status running r ≡ true = ground arith in has_status-Is running r e

  fails_expired-Is :
      (queue : Bytes) (now : ℕ) (r : JobRow Json) → fails_expired queue now r ≡ true → Is running r
  fails_expired-Is queue now r h =
      let e : has_status running r ≡ true = ground arith in has_status-Is running r e

  reclaims-Is :
      (queue : Bytes) (now : ℕ) (r : JobRow Json) → reclaims queue now r ≡ true → Is running r
  reclaims-Is queue now r h =
      let e : has_status running r ≡ true = ground arith in has_status-Is running r e

  picked-Is :
      (config : ResolvedQueueConfig) (now : ℕ) (table : Table Json) (r : JobRow Json)
      → IsWellFormed table
      → Memᴰ r table
      → is_among (claim_select config now table) r ≡ true
      → Is pending r
  picked-Is config now table r w m h =
      let (p, picked, same) = is_among-Mem (claim_select config now table) r h in
      let (stored, test) = Mem-claim_select config now table p picked in
      let e = unique_row table p r w.unique stored m same in
      rw e at (claimable-Is config.queue now p test)

  -- On a table with the invariant every statement moves each row along the lifecycle, or not at all, and adds new jobs at the
  -- end: a job starts only from `pending`, ends only from `running`, comes back only from
  -- `running`, and each run that does not complete it is counted.
  pub Step-Evolves : {t t' : Table Json} → IsWellFormed t → Step t t' → Evolves t t'
  unfolding insert claim_batch fail_expired reclaim retry fail success
  Step-Evolves {t} {t'} w (enqueues req trace_id id now h) =
      elim (Bool-cases (any (λ row. row.id == id) t)) [
        | inl e ↦ cc (rw e at h)
        | inr e ↦
            let same : t ++ inserted req trace_id id now ∷ [] ≡ t' = cc (rw e at h) in
            rw (← same) (Evolves-append t (inserted req trace_id id now) refl refl)
      ]
  Step-Evolves {t} w (claims config now) =
      Evolves-update_where (is_among (claim_select config now t)) (claim_row add config now) t
        (λ r m h. starts (picked-Is config now t r w m h) refl refl refl)
  Step-Evolves {t} w (fails_leases queue now) =
      Evolves-update_where (fails_expired queue now) (fail_row lease_expired_error now) t
        (λ r m h. gives_up (fails_expired-Is queue now r h) refl refl refl)
  Step-Evolves {t} w (reclaims_leases queue now) =
      Evolves-update_where (reclaims queue now) reclaim_row t
        (λ r m h. gives_back (reclaims-Is queue now r h) refl refl refl)
  Step-Evolves {t} w (retries id error delay now) =
      Evolves-update_where (runs_as id) (retry_row add error delay now) t
        (λ r m h. gives_back (runs_as-Is id r h) refl refl refl)
  Step-Evolves {t} w (fails id error now) =
      Evolves-update_where (runs_as id) (fail_row error now) t
        (λ r m h. gives_up (runs_as-Is id r h) refl refl refl)
  Step-Evolves {t} w (succeeds id now) =
      Evolves-update_where (runs_as id) (success_row now) t
        (λ r m h. completes (runs_as-Is id r h) refl refl refl)

  -- Every statement keeps the invariant: ids stay unique; a pending job has no times, a running
  -- one has its start and its lease, and only a finished one has an end.
  pub Step-IsWellFormed : {t t' : Table Json} → IsWellFormed t → Step t t' → IsWellFormed t'
  unfolding insert claim_batch fail_expired reclaim retry fail success
  Step-IsWellFormed {t} {t'} w (enqueues req trace_id id now h) =
      elim (Bool-cases (any (λ row. row.id == id) t)) [
        | inl e ↦ cc (rw e at h)
        | inr e ↦
            let same : t ++ inserted req trace_id id now ∷ [] ≡ t' = cc (rw e at h) in
            rw (← same)
              (append-IsWellFormed t (inserted req trace_id id now) e (waits refl refl refl refl) w)
      ]
  Step-IsWellFormed {t} w (claims config now) =
      update_where-IsWellFormed (is_among (claim_select config now t)) (claim_row add config now) t
        (λ r. refl)
        (λ r m h c.
          IsConsistent.runs now (add now config.job_timeout) refl refl refl
            (pending_unfinished r c (picked-Is config now t r w m h)))
        w
  Step-IsWellFormed {t} w (fails_leases queue now) =
      update_where-IsWellFormed (fails_expired queue now) (fail_row lease_expired_error now) t
        (λ r. refl) (λ r m h c. gave_up now refl refl) w
  Step-IsWellFormed {t} w (reclaims_leases queue now) =
      update_where-IsWellFormed (reclaims queue now) reclaim_row t (λ r. refl)
        (λ r m h c. waits refl refl refl (running_unfinished r c (reclaims-Is queue now r h))) w
  Step-IsWellFormed {t} w (retries id error delay now) =
      update_where-IsWellFormed (runs_as id) (retry_row add error delay now) t (λ r. refl)
        (λ r m h c. waits refl refl refl (running_unfinished r c (runs_as-Is id r h))) w
  Step-IsWellFormed {t} w (fails id error now) =
      update_where-IsWellFormed (runs_as id) (fail_row error now) t (λ r. refl)
        (λ r m h c. gave_up now refl refl) w
  Step-IsWellFormed {t} w (succeeds id now) =
      update_where-IsWellFormed (runs_as id) (success_row now) t (λ r. refl)
        (λ r m h c. succeeded now refl refl refl) w

  -- Every table that statements make of a table with the invariant keeps it: ids are unique, a
  -- pending job has no times, a running one has its start and its lease, and only a finished one
  -- has an end.
  pub Reaches-IsWellFormed : {t t' : Table Json} → IsWellFormed t → Reaches t t' → IsWellFormed t'
  Reaches-IsWellFormed w here = w
  Reaches-IsWellFormed w (next s rest) = Reaches-IsWellFormed (Step-IsWellFormed w s) rest

  -- A job of a table with the invariant that is completed or failed stays in the table as it is,
  -- whatever statements follow.
  pub Reaches-IsFinished :
      {t t' : Table Json} (r : JobRow Json)
      → IsWellFormed t
      → Reaches t t'
      → Memᴰ r t
      → IsFinished r
      → Memᴰ r t'
  Reaches-IsFinished r w here m f = m
  Reaches-IsFinished r w (next s rest) m f =
      Reaches-IsFinished r (Step-IsWellFormed w s) rest
        (Evolves-IsFinished (Step-Evolves w s) r m f) f
