-- ===== src/Jobs/Reaper.antt =====
-- The reaper against the record of an errored run.
use mathlib.Core.List.{Memᴰ}
use rapina.Prelude.{
  ℕ, ℤ, below, Bool, true, false, ◌≡◌, ◌≤◌, ◌+◌, refl, inl, inr, [], ◌∷◌, Option, Bool-cases,
  Option-cases, if◌then◌else◌, arith, Bytes, bytes_eq, ==_refl,
}
use rapina.Jobs.Model.{JobStatus, running, failed, display, JobRow, Table}
use rapina.Jobs.Status.{Is}
use rapina.Jobs.Backend.{
  update_where, has_status, runs_as, expired, fails_expired, reclaims, fail_row, reclaim_row,
  retry_row, fail_expired, reclaim, fail, retry, reap_expired, lease_expired_error,
}
use rapina.Jobs.Retry.{RetryPolicy, backoff_delay, apply_failure}
use rapina.Jobs.Lifecycle.{job_of}

module _ {Json : Type 0} where
  Mem-change :
      (test : JobRow Json → Bool) (change : JobRow Json → JobRow Json) (table : Table Json)
      (r : JobRow Json) (b : Bool)
      → test r ≡ b
      → Memᴰ r table
      → Memᴰ (if b then change r else r) (update_where test change table)
  unfolding update_where
  Mem-change test change [] r b e m = elim m [ ]
  Mem-change test change (x ∷ table) r b e (Memᴰ.head same) = rw (← same, e) (Memᴰ.head refl)
  Mem-change test change (x ∷ table) r b e (Memᴰ.tail m) =
      Memᴰ.tail (Mem-change test change table r b e m)

  expired-later :
      (queue : Bytes) (now later : ℕ) (r : JobRow Json)
      → now ≤ later
      → expired queue now r ≡ true
      → expired queue later r ≡ true
  expired-later queue now later r le h = elim (Option-cases r.locked_until) [
    | inl e ↦ ground arith
    | inr (until, e) ↦ ground arith
  ]

  pub not_running :
      (r : JobRow Json) (s : JobStatus)
      → Is s r
      → has_status running r ≡ bytes_eq (display s) (display running)
  unfolding has_status
  not_running r s e = rw e refl

  failed_stops : (r : JobRow Json) → Is failed r → has_status running r ≡ false
  unfolding display bytes_eq
  failed_stops r e = not_running r failed e

  -- What both ways leave of a row: its status, its count of attempts and the job itself.
  abbrev pub kept_of : JobRow Json → Bytes × ℕ × (ℕ × Bytes × Bytes × Json × ℤ × Option Bytes × ℕ)
  kept_of r = (r.status, r.attempts, job_of r)

  module _ (scaled add : ℕ → ℕ → ℕ) where
    -- The reaper treats a running row whose lease has expired as `apply_failure`, under any retry
    -- policy and `none` included, treats the row of a run that ended in an error: the job is the same,
    -- and gets the same status and the same count of attempts, so that it has failed or is pending
    -- again on the same condition, which the budget decides.
    pub reap_expired-apply_failure :
        (queue : Bytes) (failed_at reclaimed_at : ℕ) (error : Bytes) (policy : RetryPolicy)
        (now : ℕ) (table : Table Json) (r : JobRow Json)
        → failed_at ≤ reclaimed_at
        → Memᴰ r table
        → expired queue failed_at r ≡ true
        → (a : JobRow Json) × (b : JobRow Json) × Memᴰ a
            (reap_expired queue failed_at reclaimed_at table).0
          × Memᴰ b (apply_failure scaled add r.id error r.attempts r.max_retries policy now table)
          × (kept_of a ≡ kept_of b)
          × (job_of a ≡ job_of r)
    unfolding reap_expired fail_expired reclaim apply_failure retry fail
    reap_expired-apply_failure queue failed_at reclaimed_at error policy now table r le m h =
        let is_running : has_status running r ≡ true = ground arith in
        let runs : runs_as r.id r ≡ true = rw (==_refl r.id, is_running) refl in
        elim (Bool-cases (below (r.attempts + 1) r.max_retries)) [
          | inl e ↦
              let spared : fails_expired queue failed_at r ≡ false = rw (h, e) refl in
              let taken : reclaims queue reclaimed_at r ≡ true =
                rw (expired-later queue failed_at reclaimed_at r le h, e) refl in
              let delay = backoff_delay scaled policy (r.attempts + 1) r.id in
              (
                reclaim_row r,
                retry_row add error delay now r,
                Mem-change (reclaims queue reclaimed_at) reclaim_row
                    (fail_expired queue failed_at table) r true taken
                    (Mem-change (fails_expired queue failed_at)
                      (fail_row lease_expired_error failed_at) table r false spared m),
                rw e
                    (Mem-change (runs_as r.id) (retry_row add error delay now) table r true runs m),
                refl,
                refl,
              )
          | inr e ↦
              let taken : fails_expired queue failed_at r ≡ true = rw (h, e) refl in
              let gone = fail_row lease_expired_error failed_at r in
              let spared : reclaims queue reclaimed_at gone ≡ false =
                rw (failed_stops gone refl) refl in
              (
                gone,
                fail_row error now r,
                Mem-change (reclaims queue reclaimed_at) reclaim_row
                    (fail_expired queue failed_at table) gone false spared
                    (Mem-change (fails_expired queue failed_at)
                      (fail_row lease_expired_error failed_at) table r true taken m),
                rw e (Mem-change (runs_as r.id) (fail_row error now) table r true runs m),
                refl,
                refl,
              )
        ]
