-- ===== src/Jobs/Retry.antt =====
-- The retry policy, and the record of an outcome (rapina/src/jobs/retry.rs). `scaled base e` is
-- what the floating-point arithmetic gives for `base * 4^e`, cut to a week.
use rapina.Prelude.{ℕ, ℤ, below, ◌+◌, ◌-◌, ◌%◌, ◌^◌, Bytes, if◌then◌else◌, leb, ltb, ◌==◌}
use rapina.Jobs.Model.{Table}
use rapina.Jobs.Backend.{fail, retry, success}

pub data RetryPolicy : Type 0 where
  exponential : ℤ → ℕ → RetryPolicy
  fixed : ℤ → ℕ → RetryPolicy
  none : RetryPolicy

abbrev pub min_u64 : ℕ → ℕ
min_u64 n = if ltb n (2 ^ 64) then n else 2 ^ 64 - 1

-- Below the base delay, which is cut to the range of `u64`.
unfoldable pub jitter : ℕ → ℕ → ℕ
jitter base id = if base == 0 then 0 else id % min_u64 base

module _ (scaled : ℕ → ℕ → ℕ) where
  unfoldable pub exponential_delay : ℕ → ℕ → ℕ → ℕ
  unfolding jitter
  exponential_delay base attempts id =
      if leb attempts 1 then 0 else scaled base (attempts - 2) + jitter base id

  unfoldable pub backoff_delay : RetryPolicy → ℕ → ℕ → ℕ
  unfolding exponential_delay
  backoff_delay (exponential max_retries base_delay) attempts id =
      exponential_delay base_delay attempts id
  backoff_delay (fixed max_retries delay) attempts id = if leb attempts 1 then 0 else delay
  backoff_delay none attempts id = 0

  module _ {Json : Type 0} (add : ℕ → ℕ → ℕ) where
    unfoldable pub apply_failure : ℕ → Bytes → ℕ → ℤ → RetryPolicy → ℕ → Table Json → Table Json
    unfolding backoff_delay retry fail
    apply_failure id error attempts max_retries policy now table =
        let new_attempts = attempts + 1 in
        if below new_attempts max_retries
        then retry add id error (backoff_delay policy new_attempts id) now table
        else fail id error now table

unfoldable pub apply_success : {Json : Type 0} → ℕ → ℕ → Table Json → Table Json
unfolding success
apply_success id now table = success id now table
