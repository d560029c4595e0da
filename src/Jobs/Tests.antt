-- ===== src/Jobs/Tests.antt =====
-- The theorems on the jobs table, for a few small tables.
use mathlib.Core.List.{Memᴰ}
use rapina.Prelude.{
  ℕ, true, ◌≡◌, ◌≢◌, ◌≤◌, ◌<◌, ◌+◌, refl, List, [], ◌∷◌, some, none, codes, pos, bytes_eq, arith,
  length, inl,
}
use rapina.Jobs.Model.{pending, failed, display, JobRow, Table}
use rapina.Jobs.Status.{Is}
use rapina.Jobs.Backend.{
  inserted, insert, JobRequest, ResolvedQueueConfig, claim_batch, claim_row, claim_select,
  update_where, has_status, expired, success_row, success, reap_expired,
}
use rapina.Jobs.Retry.{fixed, apply_failure}
use rapina.Jobs.Worker.{JobDescriptor, errored, find_descriptor}
use rapina.Jobs.Lifecycle.{Evolves, job_of}
use rapina.Jobs.WellFormed.{IsWellFormed, waits, IsConsistent}
use rapina.Jobs.Steps.{
  Reaches, here, next, enqueues, claims, succeeds, Step-Evolves, Reaches-IsWellFormed,
  Reaches-IsFinished,
}
use rapina.Jobs.Batch.{IsClaimed, claim_batch_lem, claim_batch-disjoint}
use rapina.Jobs.Reaper.{kept_of, reap_expired-apply_failure}
use rapina.Jobs.Budget.{IsDoomed, errors, polls, polls_budget}

abbrev sum : ℕ → ℕ → ℕ
sum a b = a + b

abbrev mail : JobRequest ℕ
mail = record { job_type = codes "mail"; payload = 7; queue = codes "default"; max_retries = pos 3 }

abbrev first_job : JobRow ℕ
first_job = inserted mail none 1 0

abbrev second_job : JobRow ℕ
second_job = inserted mail none 2 1

abbrev config : ResolvedQueueConfig
config = record { queue = codes "default"; poll_interval = 5; batch_size = 1; job_timeout = 30 }

abbrev two_jobs : Table ℕ
two_jobs = first_job ∷ second_job ∷ []

no_jobs_fine : IsWellFormed {Json = ℕ} []
no_jobs_fine = record { unique = tt; consistent = tt }

two_jobs_fine : IsWellFormed two_jobs
two_jobs_fine = record {
  unique = (((λ e. ground arith), tt), (tt, tt));
  consistent = (waits refl refl refl refl, (waits refl refl refl refl, tt));
}

Step-Evolves_example : Evolves two_jobs (claim_batch sum config 4 two_jobs).1
Step-Evolves_example = Step-Evolves sum two_jobs_fine (claims config 4)

enqueued : insert mail none 1 0 [] ≡ some (first_job ∷ [])
unfolding insert
enqueued = refl

abbrev claimed_table : Table ℕ
claimed_table = (claim_batch sum config 4 (first_job ∷ [])).1

a_run : Reaches sum [] claimed_table
a_run = next (enqueues mail none 1 0 enqueued) (next (claims config 4) here)

Reaches-IsWellFormed_example : IsWellFormed claimed_table
Reaches-IsWellFormed_example = Reaches-IsWellFormed sum no_jobs_fine a_run

abbrev done_job : JobRow ℕ
done_job = success_row 9 (claim_row sum config 4 first_job)

abbrev done_table : Table ℕ
done_table = done_job ∷ second_job ∷ []

done_table_fine : IsWellFormed done_table
done_table_fine = record {
  unique = (((λ e. ground arith), tt), (tt, tt));
  consistent = (IsConsistent.succeeded 9 refl refl refl, (waits refl refl refl refl, tt));
}

Reaches-IsFinished_example : Memᴰ done_job (success 1 20 (claim_batch sum config 12 done_table).1)
Reaches-IsFinished_example =
    Reaches-IsFinished sum done_job done_table_fine
      (next (claims config 12) (next (succeeds 1 20) here)) (Memᴰ.head refl) (inl refl)

claim_batch_lem_example :
    (length (claim_batch sum config 4 two_jobs).0 ≤ 1)
    × ((r' : JobRow ℕ)
        → Memᴰ r' (claim_batch sum config 4 two_jobs).0
        → IsClaimed sum config 4 two_jobs r' × Memᴰ r' (claim_batch sum config 4 two_jobs).1)
claim_batch_lem_example = claim_batch_lem sum config 4 two_jobs two_jobs_fine

abbrev other_job : JobRow ℕ
other_job = claim_row sum config 5 second_job

first_claimed : Memᴰ (claim_row sum config 4 first_job) (claim_batch sum config 4 two_jobs).0
unfolding claim_batch claim_select update_where has_status display bytes_eq
first_claimed = Memᴰ.head refl

second_claimed : Memᴰ other_job (claim_batch sum config 5 (claim_batch sum config 4 two_jobs).1).0
unfolding claim_batch claim_select update_where has_status display bytes_eq
second_claimed = Memᴰ.head refl

claim_batch-disjoint_example : first_job.id ≢ second_job.id
claim_batch-disjoint_example =
    claim_batch-disjoint sum config config 4 5 two_jobs (claim_row sum config 4 first_job) other_job
      two_jobs_fine first_claimed second_claimed

abbrev stranded : JobRow ℕ
stranded = claim_row sum config 4 first_job

lease_over : expired (codes "default") 40 stranded ≡ true
unfolding has_status display bytes_eq
lease_over = refl

reap_expired-apply_failure_example :
    (a : JobRow ℕ) × (b : JobRow ℕ) × Memᴰ a
      (reap_expired (codes "default") 40 41 (stranded ∷ [])).0
    × Memᴰ b
        (apply_failure sum sum 1 (codes "error") 0 (pos 3) (fixed (pos 3) 10) 8 (stranded ∷ []))
    × (kept_of a ≡ kept_of b)
    × (job_of a ≡ job_of stranded)
reap_expired-apply_failure_example =
    reap_expired-apply_failure sum sum (codes "default") 40 41 (codes "error") (fixed (pos 3) 10) 8
      (stranded ∷ []) stranded (omega arith) (Memᴰ.head refl) lease_over

abbrev broken : JobDescriptor ℕ
broken = record {
  job_type = codes "mail";
  handle = λ payload. errored (codes "no server");
  retry_policy = codes "fixed";
  retry_delay = 10;
}

abbrev registry : List (JobDescriptor ℕ)
registry = broken ∷ []

found_broken : find_descriptor registry (codes "mail") ≡ some broken
unfolding bytes_eq
found_broken = refl

doomed : IsDoomed sum sum registry config 3 first_job
doomed = record {
  waiting = refl;
  subscribed = refl;
  budget = refl;
  failing = errors broken (codes "no server") found_broken refl;
}

polls_budget_example :
    ((k : ℕ)
      → k < 3
      → (r' : JobRow ℕ) × (polls sum sum registry config (λ n. n) (λ id. 50) k (first_job ∷ [])
          ≡ r' ∷ [])
        × Is pending r'
        × (r'.attempts ≡ k))
    × ((r' : JobRow ℕ) × (polls sum sum registry config (λ n. n) (λ id. 50) 3 (first_job ∷ [])
          ≡ r' ∷ [])
        × Is failed r'
        × (r'.attempts ≡ 3))
polls_budget_example =
    polls_budget sum sum registry config (λ n. n) (λ id. 50) 3 first_job (omega arith) (omega arith)
      doomed refl
