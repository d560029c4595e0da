-- ===== src/Jobs/Batch.antt =====
-- The rows that a claim returns.
use mathlib.Core.List.{Memᴰ}
use rapina.Prelude.{
  some, ℕ, suc, Bool, true, false, ◌≡◌, ◌≢◌, ◌≤◌, refl, sym, ap, ◌∙◌, inl, inr, [], ◌∷◌, Bool-cases,
  if◌then◌else◌, arith, ◌==◌, ==_iff, length, length-take, All,
}
use rapina.Trie.Distinct.{Distinct}
use rapina.Jobs.Model.{pending, running, JobRow, Table}
use rapina.Jobs.Status.{Is, Is-unique}
use rapina.Jobs.Backend.{
  claimable, order_by_run_at, select, claim_select, is_among, ResolvedQueueConfig, update_where,
  claim_row, claim_batch,
}
use rapina.Jobs.WellFormed.{IsWellFormed, ids, unique_row}
use rapina.Jobs.Claims.{Mem-select, Mem-claim_select, is_among-Mem, claimable-Is, claimable-due}
use rapina.Jobs.Lifecycle.{job_of}
use rapina.Jobs.Steps.{claims, Step-IsWellFormed}

module _ {Json : Type 0} where
  Mem-update_where :
      (test : JobRow Json → Bool) (change : JobRow Json → JobRow Json) (table : Table Json)
      (r' : JobRow Json)
      → Memᴰ r' (update_where test change table)
      → (r : JobRow Json) × Memᴰ r table × (r' ≡ (if test r then change r else r))
  unfolding update_where
  Mem-update_where test change [] r' m = elim m [ ]
  Mem-update_where test change (x ∷ table) r' (Memᴰ.head e) = (x, Memᴰ.head refl, e)
  Mem-update_where test change (x ∷ table) r' (Memᴰ.tail m) =
      let (r, n, e) = Mem-update_where test change table r' m in (r, Memᴰ.tail n, e)

  is_among-id :
      (rows : Table Json) (r r' : JobRow Json) → r.id ≡ r'.id → is_among rows r ≡ is_among rows r'
  is_among-id rows r r' e = rw e refl

  none_else :
      (p : JobRow Json) (rows : Table Json) (table : Table Json)
      → All (λ c. c ≢ p.id) (ids table)
      → length (select (is_among (p ∷ rows)) table) ≡ length (select (is_among rows) table)
  none_else p rows [] h = refl
  none_else p rows (r ∷ table) (h, hs) =
      let other : p.id == r.id ≡ false = ground arith in
      let rest = none_else p rows table hs in
      elim (Bool-cases (is_among rows r)) [
        | inl e ↦ rw (other, e) (ap suc rest)
        | inr e ↦ rw (other, e) rest
      ]

  select_step :
      (p : JobRow Json) (rows : Table Json) (table : Table Json)
      → Distinct (ids table)
      → length (select (is_among (p ∷ rows)) table) ≤ suc (length (select (is_among rows) table))
  select_step p rows [] d = omega arith
  select_step p rows (r ∷ table) (d, ds) = elim (Bool-cases (p.id == r.id)) [
    | inl e ↦
        let same : p.id ≡ r.id = (==_iff p.id r.id).0 e in
        let rest = none_else p rows table (rw same d) in
        elim (Bool-cases (is_among rows r)) [
          | inl f ↦ rw (e, f) (omega arith)
          | inr f ↦ rw (e, f) (omega arith)
        ]
    | inr e ↦
        let rest = select_step p rows table ds in
        elim (Bool-cases (is_among rows r)) [
          | inl f ↦ rw (e, f) (omega arith)
          | inr f ↦ rw (e, f) rest
        ]
  ]

  -- No more rows have an id of a list than the list is long.
  select_bounded :
      (rows table : Table Json)
      → Distinct (ids table)
      → length (select (is_among rows) table) ≤ length rows
  select_bounded [] [] d = omega arith
  select_bounded [] (r ∷ table) (d, ds) = select_bounded [] table ds
  select_bounded (p ∷ rows) table d =
      omega (arith, select_step p rows table d, select_bounded rows table d)

  length-claim_select :
      (config : ResolvedQueueConfig) (now : ℕ) (table : Table Json)
      → length (claim_select config now table) ≤ config.batch_size
  unfolding claim_select
  length-claim_select config now table =
      let cut =
        length-take config.batch_size
          (order_by_run_at (select (claimable config.queue now) table)) in
      omega (arith, cut)

  -- A claimed row: a row of the table that was pending, of the queue and due, and now is running
  -- with its lease.
  pub record IsClaimed (add : ℕ → ℕ → ℕ) (config : ResolvedQueueConfig) (now : ℕ)
      (table : Table Json) (r' : JobRow Json) : Type 0 where
    pub row : JobRow Json
    pub stored : Memᴰ row table
    pub waited : Is pending row
    pub own : row.queue ≡ config.queue
    pub due : row.run_at ≤ now
    pub started : Is running r'
    pub lease : r'.locked_until ≡ some (add now config.job_timeout)
    pub same_attempts : r'.attempts ≡ row.attempts
    pub same_job : job_of r' ≡ job_of row

  module _ (add : ℕ → ℕ → ℕ) (config : ResolvedQueueConfig) (now : ℕ) (table : Table Json) where
    IsClaimed-row :
        (r' : JobRow Json)
        → IsWellFormed table
        → Memᴰ r' (claim_batch add config now table).0
        → IsClaimed add config now table r'
    unfolding claim_batch
    IsClaimed-row r' w m =
        let picked = claim_select config now table in
        let (m', among) =
          Mem-select (is_among picked)
            (update_where (is_among picked) (claim_row add config now) table) r' m in
        let (r, stored, e) =
          Mem-update_where (is_among picked) (claim_row add config now) table r' m' in
        let same_id : (if is_among picked r then claim_row add config now r else r).id ≡ r.id =
          if_id (is_among picked r) r in
        let was : is_among picked r ≡ true =
          is_among-id picked r r' (sym (ap (λ q. q.id) e ∙ same_id)) ∙ among in
        let (p, chosen, same) = is_among-Mem picked r was in
        let (in_table, due) = Mem-claim_select config now table p chosen in
        let one = unique_row table p r w.unique in_table stored same in
        let test : claimable config.queue now r ≡ true = rw one at due in
        let becomes : r' ≡ claim_row add config now r = rw was at e in
        let (queue, time) = claimable-due config.queue now r test in
        record {
          row = r;
          stored = stored;
          waited = claimable-Is config.queue now r test;
          own = queue;
          due = time;
          started = rw becomes refl;
          lease = rw becomes refl;
          same_attempts = rw becomes refl;
          same_job = rw becomes refl;
        }
      where
        if_id :
            (b : Bool) (r : JobRow Json) → (if b then claim_row add config now r else r).id ≡ r.id
        if_id true r = refl
        if_id false r = refl

    -- A claim on a table with the invariant returns at most as many rows as the batch is large, and each of them is a row of
    -- the table that was pending, of the queue and due, and now is running with its lease; it
    -- stands so in the table that the claim leaves.
    pub claim_batch_lem :
        IsWellFormed table
        → (length (claim_batch add config now table).0 ≤ config.batch_size)
          × ((r' : JobRow Json)
              → Memᴰ r' (claim_batch add config now table).0
              → IsClaimed add config now table r' × Memᴰ r' (claim_batch add config now table).1)
    unfolding claim_batch
    claim_batch_lem w = (bounded, λ r' m. (IsClaimed-row r' w m, (Mem-select _ _ r' m).0))
      where
        bounded : length (claim_batch add config now table).0 ≤ config.batch_size
        bounded =
            let picked = claim_select config now table in
            let after = Step-IsWellFormed add w (claims config now) in
            let few = select_bounded picked (claim_batch add config now table).1 after.unique in
            omega (arith, few, length-claim_select config now table)

  -- Of two claims on a table with the invariant, one right after the other, no row is in both batches, whatever their queues,
  -- times and sizes.
  pub claim_batch-disjoint :
      (add : ℕ → ℕ → ℕ) (first second : ResolvedQueueConfig) (now later : ℕ) (table : Table Json)
      (a b : JobRow Json)
      → IsWellFormed table
      → Memᴰ a (claim_batch add first now table).0
      → Memᴰ b (claim_batch add second later (claim_batch add first now table).1).0
      → a.id ≢ b.id
  claim_batch-disjoint add first second now later table a b w m n = λ same.
      let between = (claim_batch add first now table).1 in
      let w' : IsWellFormed between = Step-IsWellFormed add w (claims first now) in
      let (c, here) = (claim_batch_lem add first now table w).1 a m in
      let d = IsClaimed-row add second later between b w' n in
      let same' : a.id ≡ d.row.id = same ∙ ap (λ j. j.0) d.same_job in
      let one = unique_row between a d.row w'.unique here d.stored same' in
      let runs : Is running a = c.started in
      let waits : Is pending a = rw one d.waited in
      let clash = Is-unique running pending a runs waits in cc
