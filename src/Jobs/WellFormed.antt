-- ===== src/Jobs/WellFormed.antt =====
-- The invariant of the table: ids are unique, and the times of a row agree with its status.
use mathlib.Core.List.{Memᴰ}
use rapina.Prelude.{
  ℕ, Bool, true, false, ◌≡◌, ◌≢◌, refl, sym, ap, ◌∙◌, inl, inr, List, [], ◌∷◌, ◌++◌, none, some,
  Bool-cases, arith, any, ◌==◌, All, All-append,
}
use rapina.Trie.Distinct.{Distinct, Distinct-snoc}
use rapina.Jobs.Model.{pending, running, completed, failed, JobRow, Table}
use rapina.Jobs.Status.{Is, Is-unique}
use rapina.Jobs.Backend.{update_where}

module _ {Json : Type 0} where
  pub data IsConsistent (r : JobRow Json) : Type 0 where
    waits :
        Is pending r
        → r.started_at ≡ none
        → r.locked_until ≡ none
        → r.finished_at ≡ none
        → IsConsistent r
    runs :
        (started until : ℕ)
        → Is running r
        → r.started_at ≡ some started
        → r.locked_until ≡ some until
        → r.finished_at ≡ none
        → IsConsistent r
    succeeded :
        (finished : ℕ)
        → Is completed r
        → r.locked_until ≡ none
        → r.finished_at ≡ some finished
        → IsConsistent r
    gave_up : (finished : ℕ) → Is failed r → r.finished_at ≡ some finished → IsConsistent r

  abbrev pub ids : Table Json → List ℕ
  ids [] = []
  ids (r ∷ table) = r.id ∷ ids table

  pub record IsWellFormed (table : Table Json) : Type 0 where
    pub unique : Distinct (ids table)
    pub consistent : All IsConsistent table

  pub running_unfinished : (r : JobRow Json) → IsConsistent r → Is running r → r.finished_at ≡ none
  running_unfinished r (waits p s l f) h = f
  running_unfinished r (runs _ _ p s l f) h = f
  running_unfinished r (succeeded _ p l f) h = let e = Is-unique running completed r h p in cc
  running_unfinished r (gave_up _ p f) h = let e = Is-unique running failed r h p in cc

  pub pending_unfinished : (r : JobRow Json) → IsConsistent r → Is pending r → r.finished_at ≡ none
  pending_unfinished r (waits p s l f) h = f
  pending_unfinished r (runs _ _ p s l f) h = f
  pending_unfinished r (succeeded _ p l f) h = let e = Is-unique pending completed r h p in cc
  pending_unfinished r (gave_up _ p f) h = let e = Is-unique pending failed r h p in cc

  ids-update_where :
      (test : JobRow Json → Bool) (change : JobRow Json → JobRow Json) (table : Table Json)
      → ((r : JobRow Json) → (change r).id ≡ r.id)
      → ids (update_where test change table) ≡ ids table
  unfolding update_where
  ids-update_where test change [] same = refl
  ids-update_where test change (r ∷ table) same = elim (Bool-cases (test r)) [
    | inl e ↦ rw (e, same r, ids-update_where test change table same) refl
    | inr e ↦ rw (e, ids-update_where test change table same) refl
  ]

  All-update_where :
      (test : JobRow Json → Bool) (change : JobRow Json → JobRow Json) (table : Table Json)
      → ((r : JobRow Json)
          → Memᴰ r table
          → test r ≡ true
          → IsConsistent r
          → IsConsistent (change r))
      → All IsConsistent table
      → All IsConsistent (update_where test change table)
  unfolding update_where
  All-update_where test change [] h c = tt
  All-update_where test change (r ∷ table) h (c, cs) =
      let rest = All-update_where test change table (λ r' m. h r' (Memᴰ.tail m)) cs in
      elim (Bool-cases (test r)) [
        | inl e ↦ rw e (h r (Memᴰ.head refl) e c, rest)
        | inr e ↦ rw e (c, rest)
      ]

  pub update_where-IsWellFormed :
      (test : JobRow Json → Bool) (change : JobRow Json → JobRow Json) (table : Table Json)
      → ((r : JobRow Json) → (change r).id ≡ r.id)
      → ((r : JobRow Json)
          → Memᴰ r table
          → test r ≡ true
          → IsConsistent r
          → IsConsistent (change r))
      → IsWellFormed table
      → IsWellFormed (update_where test change table)
  update_where-IsWellFormed test change table same keeps w = record {
    unique = rw (ids-update_where test change table same) w.unique;
    consistent = All-update_where test change table keeps w.consistent;
  }

  ids-append :
      (table : Table Json) (r : JobRow Json) → ids (table ++ r ∷ []) ≡ ids table ++ r.id ∷ []
  ids-append [] r = refl
  ids-append (x ∷ table) r = ap (λ l. x.id ∷ l) (ids-append table r)

  lacks_id :
      (id : ℕ) (table : Table Json)
      → any (λ row. row.id == id) table ≡ false
      → All (λ c. c ≢ id) (ids table)
  lacks_id id [] h = tt
  lacks_id id (r ∷ table) h = elim (Bool-cases (r.id == id)) [
    | inl e ↦ cc (rw e at h)
    | inr e ↦ (ground arith, lacks_id id table (rw e at h))
  ]

  pub append-IsWellFormed :
      (table : Table Json) (r : JobRow Json)
      → any (λ row. row.id == r.id) table ≡ false
      → IsConsistent r
      → IsWellFormed table
      → IsWellFormed (table ++ r ∷ [])
  append-IsWellFormed table r fresh c w = record {
    unique =
        rw (ids-append table r)
          (Distinct-snoc (ids table) r.id w.unique (lacks_id r.id table fresh));
    consistent = All-append IsConsistent table (r ∷ []) w.consistent (c, tt);
  }

  Mem-lacks :
      (id : ℕ) (table : Table Json) (r : JobRow Json)
      → All (λ c. c ≢ id) (ids table)
      → Memᴰ r table
      → r.id ≢ id
  Mem-lacks id [] r h m = elim m [ ]
  Mem-lacks id (x ∷ table) r (h, hs) (Memᴰ.head e) = λ same. h (ap (λ q. q.id) (sym e) ∙ same)
  Mem-lacks id (x ∷ table) r (h, hs) (Memᴰ.tail m) = Mem-lacks id table r hs m

  -- Two rows of the table with one id are one row.
  pub unique_row :
      (table : Table Json) (p r : JobRow Json)
      → Distinct (ids table)
      → Memᴰ p table
      → Memᴰ r table
      → p.id ≡ r.id
      → p ≡ r
  unique_row [] p r d m n h = elim m [ ]
  unique_row (x ∷ table) p r (d, ds) (Memᴰ.head e) (Memᴰ.head f) h = e ∙ sym f
  unique_row (x ∷ table) p r (d, ds) (Memᴰ.head e) (Memᴰ.tail n) h =
      absurd (Mem-lacks x.id table r d n (sym h ∙ ap (λ q. q.id) e))
  unique_row (x ∷ table) p r (d, ds) (Memᴰ.tail m) (Memᴰ.head f) h =
      absurd (Mem-lacks x.id table p d m (h ∙ ap (λ q. q.id) f))
  unique_row (x ∷ table) p r (d, ds) (Memᴰ.tail m) (Memᴰ.tail n) h = unique_row table p r ds m n h
