-- ===== src/Jobs/Claims.antt =====
-- What a claim picks.
use mathlib.Core.List.{Memᴰ}
use rapina.Prelude.{
  bytes_eq, bytes_eq_iff, arith, ◌≤◌, ℕ, zero, suc, Bool, true, ◌≡◌, refl, inl, inr, [], ◌∷◌,
  Bool-cases, arith, ◌==◌, ==_iff, take, leb, Mem-sort_by, Bytes,
}
use rapina.Jobs.Model.{pending, JobRow, Table}
use rapina.Jobs.Status.{Is, has_status-Is}
use rapina.Jobs.Backend.{
  has_status, claimable, order_by_run_at, select, claim_select, is_among, ResolvedQueueConfig,
}

module _ {Json : Type 0} where
  Mem-take : (n : ℕ) (rows : Table Json) (r : JobRow Json) → Memᴰ r (take n rows) → Memᴰ r rows
  Mem-take zero rows r m = elim m [ ]
  Mem-take (suc n) [] r m = elim m [ ]
  Mem-take (suc n) (x ∷ rows) r (Memᴰ.head e) = Memᴰ.head e
  Mem-take (suc n) (x ∷ rows) r (Memᴰ.tail m) = Memᴰ.tail (Mem-take n rows r m)

  pub Mem-select :
      (test : JobRow Json → Bool) (rows : Table Json) (r : JobRow Json)
      → Memᴰ r (select test rows)
      → Memᴰ r rows × (test r ≡ true)
  Mem-select test [] r m = elim m [ ]
  Mem-select test (x ∷ rows) r m =
      let below : Memᴰ r (select test rows) → Memᴰ r (x ∷ rows) × (test r ≡ true) =
        λ n. let (k, t) = Mem-select test rows r n in (Memᴰ.tail k, t) in
      elim (Bool-cases (test x)) [ inl e ↦ first e below (rw e at m) | inr e ↦ below (rw e at m) ]
    where
      first :
          test x ≡ true
          → (Memᴰ r (select test rows) → Memᴰ r (x ∷ rows) × (test r ≡ true))
          → Memᴰ r (x ∷ select test rows)
          → Memᴰ r (x ∷ rows) × (test r ≡ true)
      first e below (Memᴰ.head same) = (Memᴰ.head same, rw same e)
      first e below (Memᴰ.tail n) = below n

  -- Every row that is picked stands in the table and may be claimed.
  pub Mem-claim_select :
      (config : ResolvedQueueConfig) (now : ℕ) (table : Table Json) (r : JobRow Json)
      → Memᴰ r (claim_select config now table)
      → Memᴰ r table × (claimable config.queue now r ≡ true)
  unfolding claim_select
  Mem-claim_select config now table r m = Mem-select (claimable config.queue now) table r (
      Mem-sort_by (λ a b. leb a.run_at b.run_at) (select (claimable config.queue now) table) r
        (Mem-take config.batch_size (order_by_run_at (select (claimable config.queue now) table)) r
          m))

  pub is_among-Mem :
      (rows : Table Json) (r : JobRow Json)
      → is_among rows r ≡ true
      → (p : JobRow Json) × Memᴰ p rows × (p.id ≡ r.id)
  is_among-Mem [] r h = cc
  is_among-Mem (p ∷ rows) r h = elim (Bool-cases (p.id == r.id)) [
    | inl e ↦ (p, Memᴰ.head refl, (==_iff p.id r.id).0 e)
    | inr e ↦ let (q, m, same) = is_among-Mem rows r (rw e at h) in (q, Memᴰ.tail m, same)
  ]

  pub claimable-Is :
      (queue : Bytes) (now : ℕ) (r : JobRow Json) → claimable queue now r ≡ true → Is pending r
  claimable-Is queue now r h =
      let e : has_status pending r ≡ true = ground arith in has_status-Is pending r e

  pub claimable-due :
      (queue : Bytes) (now : ℕ) (r : JobRow Json)
      → claimable queue now r ≡ true
      → (r.queue ≡ queue) × (r.run_at ≤ now)
  claimable-due queue now r h =
      let own : bytes_eq r.queue queue ≡ true = ground arith in
      ((bytes_eq_iff r.queue queue).0 own, ground arith)
