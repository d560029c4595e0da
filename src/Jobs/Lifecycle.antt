-- ===== src/Jobs/Lifecycle.antt =====
-- The lifecycle of a job, to which every statement on the table keeps.
use mathlib.Core.List.{Memᴰ}
use rapina.Prelude.{
  ℕ, ℤ, Bool, true, ◌≡◌, ◌≢◌, ◌+◌, refl, ◌∙◌, ◌⊎◌, inl, inr, [], ◌∷◌, ◌++◌, Option, Bytes,
  Bool-cases,
}
use rapina.Jobs.Model.{JobStatus, pending, running, completed, failed, JobRow, Table}
use rapina.Jobs.Status.{Is, Is-unique}
use rapina.Jobs.Backend.{update_where}

module _ {Json : Type 0} where
  -- What no statement changes of a row.
  abbrev pub job_of : JobRow Json → ℕ × Bytes × Bytes × Json × ℤ × Option Bytes × ℕ
  job_of r = (r.id, r.queue, r.job_type, r.payload, r.max_retries, r.trace_id, r.created_at)

  -- A move of one row along its lifecycle. A run that comes to nothing is counted.
  pub data Moves (r r' : JobRow Json) : Type 0 where
    stays : r ≡ r' → Moves r r'
    starts :
        Is pending r → Is running r' → r'.attempts ≡ r.attempts → job_of r' ≡ job_of r → Moves r r'
    gives_back :
        Is running r
        → Is pending r'
        → r'.attempts ≡ r.attempts + 1
        → job_of r' ≡ job_of r
        → Moves r r'
    gives_up :
        Is running r
        → Is failed r'
        → r'.attempts ≡ r.attempts + 1
        → job_of r' ≡ job_of r
        → Moves r r'
    completes :
        Is running r
        → Is completed r'
        → r'.attempts ≡ r.attempts
        → job_of r' ≡ job_of r
        → Moves r r'

  -- Every row moves by itself, and new jobs come at the end, pending and never run.
  pub data Evolves : Table Json → Table Json → Type 0 where
    ends : Evolves [] []
    enters : {r : JobRow Json} → Is pending r → r.attempts ≡ 0 → Evolves [] (r ∷ [])
    moves :
        {r r' : JobRow Json} {t t' : Table Json}
        → Moves r r'
        → Evolves t t'
        → Evolves (r ∷ t) (r' ∷ t')

  pub Evolves-update_where :
      (test : JobRow Json → Bool) (change : JobRow Json → JobRow Json) (table : Table Json)
      → ((r : JobRow Json) → Memᴰ r table → test r ≡ true → Moves r (change r))
      → Evolves table (update_where test change table)
  unfolding update_where
  Evolves-update_where test change [] h = ends
  Evolves-update_where test change (r ∷ table) h =
      let rest = Evolves-update_where test change table (λ r' m. h r' (Memᴰ.tail m)) in
      elim (Bool-cases (test r)) [
        | inl e ↦ rw e (moves (h r (Memᴰ.head refl) e) rest)
        | inr e ↦ rw e (moves (stays refl) rest)
      ]

  pub Evolves-append :
      (table : Table Json) (r : JobRow Json)
      → Is pending r
      → r.attempts ≡ 0
      → Evolves table (table ++ r ∷ [])
  Evolves-append [] r h k = enters h k
  Evolves-append (x ∷ table) r h k = moves (stays refl) (Evolves-append table r h k)

  abbrev pub IsFinished : JobRow Json → Type 0
  IsFinished r = Is completed r ⊎ Is failed r

  not-IsFinished :
      (s : JobStatus) (r : JobRow Json) → Is s r → s ≢ completed → s ≢ failed → ¬ IsFinished r
  not-IsFinished s r h c f (inl k) = c (Is-unique s completed r h k)
  not-IsFinished s r h c f (inr k) = f (Is-unique s failed r h k)

  Moves-IsFinished : (r r' : JobRow Json) → Moves r r' → IsFinished r → r ≡ r'
  Moves-IsFinished r r' (stays e) f = e
  Moves-IsFinished r r' (starts p q a j) f =
      absurd (not-IsFinished pending r p (λ e. cc) (λ e. cc) f)
  Moves-IsFinished r r' (gives_back p q a j) f =
      absurd (not-IsFinished running r p (λ e. cc) (λ e. cc) f)
  Moves-IsFinished r r' (gives_up p q a j) f =
      absurd (not-IsFinished running r p (λ e. cc) (λ e. cc) f)
  Moves-IsFinished r r' (completes p q a j) f =
      absurd (not-IsFinished running r p (λ e. cc) (λ e. cc) f)

  pub Evolves-IsFinished :
      {t t' : Table Json} → Evolves t t' → (r : JobRow Json) → Memᴰ r t → IsFinished r → Memᴰ r t'
  Evolves-IsFinished ends r m f = elim m [ ]
  Evolves-IsFinished (enters p a) r m f = elim m [ ]
  Evolves-IsFinished (moves {r = x} {r' = x'} step rest) r (Memᴰ.head e) f =
      let same = Moves-IsFinished x x' step (rw e at f) in Memᴰ.head (e ∙ same)
  Evolves-IsFinished (moves step rest) r (Memᴰ.tail m) f = Memᴰ.tail (Evolves-IsFinished rest r m f)
