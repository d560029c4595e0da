-- ===== src/Trie/Insert/Whole.antt =====
-- Inserting a whole pattern: the trie keeps what it had and gains a terminal node for the pattern.
use rapina.Prelude.{
  ℕ, ◌≡◌, ◌≢◌, refl, sym, ap, ◌∙◌, List, [], ◌∷◌, ◌++◌, Option, some, none, get_elem?, Bytes,
  append_assoc, append-nil, ◌>>=◌, >>=-eq-some, arith, set,
}
use rapina.PathParams.Laws.{Fresh}
use rapina.Trie.Node.{Node, Arena, static_child}
use rapina.Trie.Pattern.{Segment, static, param, split_pattern}
use rapina.Trie.Spelling.{Symbol, Spelling, of_bytes, spelling, names, names-append, names-of_bytes}
use rapina.Trie.Invariant.{IsTrie, Terminal}
use rapina.Trie.Insert.{insert, insert_segment, insert_segments, insert_param, set_value}
use rapina.Trie.Insert.Outcome.{Inserted, Inserted-trans, IsUnnamed, IsBare}
use rapina.Trie.Insert.Param.{insert_param_lem}
use rapina.Trie.Insert.Static.{insert_static_lem}
use rapina.Trie.Insert.Replace.{SameLinks, replaced-IsTrie, replaced-Terminal, replaced_at}

abbrev pub StartsParam : List Segment → Type 0
StartsParam [] = Unit
StartsParam (param _ ∷ _) = Unit
StartsParam (static _ ∷ _) = ⊥

abbrev pub StartsStatic : List Segment → Type 0
StartsStatic [] = Unit
StartsStatic (static _ ∷ _) = Unit
StartsStatic (param _ ∷ _) = ⊥

-- Static segments hold a byte, and no two of one kind stand side by side.
abbrev pub Alternates : List Segment → Type 0
Alternates [] = Unit
Alternates (static s ∷ segs) = (s ≢ []) × StartsParam segs × Alternates segs
Alternates (param _ ∷ segs) = StartsStatic segs × Alternates segs

-- Each parameter's name differs from those before it.
abbrev pub FreshNames : List Bytes → List Segment → Type 0
FreshNames seen [] = Unit
FreshNames seen (static _ ∷ segs) = FreshNames seen segs
FreshNames seen (param name ∷ segs) = Fresh name seen × FreshNames (seen ++ name ∷ []) segs

-- A node that the first segment may be inserted at.
abbrev Ready : List Segment → Node → Type 0
Ready [] n = Unit
Ready (static _ ∷ _) n = IsBare n
Ready (param _ ∷ _) n = IsUnnamed n

Ready-param : (segs : List Segment) (n : Node) → StartsParam segs → IsUnnamed n → Ready segs n
Ready-param [] n h u = tt
Ready-param (param _ ∷ _) n h u = u
Ready-param (static _ ∷ _) n h u = absurd h

Ready-static : (segs : List Segment) (n : Node) → StartsStatic segs → IsBare n → Ready segs n
Ready-static [] n h u = tt
Ready-static (static _ ∷ _) n h u = u
Ready-static (param _ ∷ _) n h u = absurd h

Ready-root : (segs : List Segment) (n : Node) → IsBare n → IsUnnamed n → Ready segs n
Ready-root [] n b u = tt
Ready-root (static _ ∷ _) n b u = b
Ready-root (param _ ∷ _) n b u = u

insert_runs :
    (arena after : Arena) (pattern : Bytes) (segs : List Segment) (idx : ℕ)
    → split_pattern pattern ≡ some segs
    → insert arena pattern idx ≡ some after
    → (insert_segments segs arena 0 >>= λ p. set_value p.0 p.1 idx) ≡ some after
unfolding insert
insert_runs arena after pattern segs idx parsed runs = rw parsed at runs

module _ (Route : ℕ → Spelling → Type 0) where
  abbrev Ended : (label : ℕ → Spelling) (arena : Arena) → Option (Arena × ℕ) → Spelling → Type 0
  Ended label arena call target = Inserted Route label arena call target (λ _. Unit)

  -- The segments after the first, from where the first ended.
  steps :
      (arena after : Arena) (current id : ℕ) (seg : Segment) (segs : List Segment)
      → insert_segment seg arena current ≡ some (after, id)
      → insert_segments (seg ∷ segs) arena current ≡ insert_segments segs after id
  unfolding insert_segments
  steps arena after current id seg segs e = ground arith

  names_kept : (label : Spelling) (bytes : Bytes) → names (label ++ of_bytes bytes) ≡ names label
  names_kept label bytes =
      rw (names-append label (of_bytes bytes), names-of_bytes bytes) (append-nil (names label))

  stuck :
      (arena : Arena) (current : ℕ) (name : Bytes) (segs : List Segment)
      → insert_param arena current name ≡ none
      → insert_segments (param name ∷ segs) arena current ≡ none
  unfolding insert_segments insert_segment
  stuck arena current name segs e = rw e

  insert_segments_lem :
      (segs : List Segment) {label : ℕ → Spelling} {arena : Arena} (trie : IsTrie Route label arena)
      (current : ℕ) (node : Node)
      → get_elem? arena current ≡ some node
      → Ready segs node
      → Alternates segs
      → FreshNames (names (label current)) segs
      → insert_segments segs arena current ≢ none
      → Ended label arena (insert_segments segs arena current) (label current ++ spelling segs)
  insert_segments_lem [] {label} {arena} trie current node stored ready alt fresh runs = record {
    after = arena;
    id = current;
    labels = label;
    node = node;
    runs = unfold insert_segments in refl;
    trie = trie;
    stored = stored;
    labelled = sym (append-nil (label current));
    kept = λ u t. t;
    ends = tt;
  }
  insert_segments_lem (static [] ∷ segs) trie current node stored ready alt fresh runs =
      absurd (alt.0 refl)
  insert_segments_lem (static (b ∷ key) ∷ segs) {label} {arena} trie current node stored ready alt
        fresh runs =
      let r = insert_static_lem Route trie current node stored ready b key in
      let target = of_bytes (b ∷ key) in
      let same =
        steps arena r.after current r.id (static (b ∷ key)) segs
          (unfold insert_segment in r.runs) in
      let kept : names (r.labels r.id) ≡ names (label current) =
        ap names r.labelled ∙ names_kept (label current) (b ∷ key) in
      Inserted-trans r.kept same
        (ap (λ l. l ++ spelling segs) r.labelled
          ∙ append_assoc (label current) target (spelling segs))
        (insert_segments_lem segs r.trie r.id r.node r.stored (Ready-param segs r.node alt.1 r.ends)
          alt.2 (rw kept fresh) (λ e. runs (same ∙ e)))
  insert_segments_lem (param name ∷ segs) {label} {arena} trie current node stored ready alt fresh
        runs =
      let r =
        insert_param_lem trie current node stored name fresh.0 ready
          (λ e. runs (stuck arena current name segs e)) in
      let target = Symbol.param name ∷ [] in
      let same =
        steps arena r.after current r.id (param name) segs (unfold insert_segment in r.runs) in
      let kept : names (r.labels r.id) ≡ names (label current) ++ name ∷ [] =
        ap names r.labelled ∙ names-append (label current) target in
      Inserted-trans r.kept same
        (ap (λ l. l ++ spelling segs) r.labelled
          ∙ append_assoc (label current) target (spelling segs))
        (insert_segments_lem segs r.trie r.id r.node r.stored
          (Ready-static segs r.node alt.0 r.ends) alt.1 (rw kept fresh.1) (λ e. runs (same ∙ e)))

  -- The trie after an insertion: all that it had is kept, and the pattern has a terminal node.
  pub record Grown (label : ℕ → Spelling) (arena after : Arena) (s : Spelling) : Type 0 where
    pub labels : ℕ → Spelling
    pub trie : IsTrie Route labels after
    pub kept : (u : Spelling) → Terminal label arena u → Terminal labels after u
    pub ends : Terminal labels after s

  set_value_lem :
      {label : ℕ → Spelling} {arena : Arena} (trie : IsTrie Route label arena) (current : ℕ)
      (node : Node) (idx : ℕ) (s : Spelling) {after : Arena}
      → get_elem? arena current ≡ some node
      → label current ≡ s
      → Route idx s
      → set_value arena current idx ≡ some after
      → Grown label arena after s
  unfolding set_value static_child
  set_value_lem {label} {arena} trie current node idx s {after} stored labelled route runs =
      let o = trie.sound current node stored in
      let y : Node = record node { value = some idx } in
      let same : SameLinks node y = record {
        same_prefix = refl;
        same_name = refl;
        same_param = refl;
        same_static = λ b. refl;
        parallel = o.parallel;
        still_valued = λ v h. (idx, refl);
      } in
      let valued : (v : ℕ) → y.value ≡ some v → Route v (label current) =
        λ v h. let e : v ≡ idx = cc in rw (e, labelled) route in
      let here : after ≡ set arena current y = ground arith in
      rw here (record {
        labels = label;
        trie = replaced-IsTrie trie current node y stored same valued;
        kept = replaced-Terminal trie current node y stored same valued;
        ends = record {
          id = current;
          node = y;
          index = idx;
          stored = replaced_at trie current node y stored same valued;
          labelled = labelled;
          valued = refl;
        };
      })

  -- An insertion that does not panic, into the trie of routes: the trie of those and the new one.
  pub insert_lem :
      {label : ℕ → Spelling} {arena after : Arena} (trie : IsTrie Route label arena)
      (pattern : Bytes) (segs : List Segment) (idx : ℕ)
      → split_pattern pattern ≡ some segs
      → Alternates segs
      → FreshNames [] segs
      → Route idx (spelling segs)
      → insert arena pattern idx ≡ some after
      → Grown label arena after (spelling segs)
  insert_lem {label} {arena} {after} trie pattern segs idx parsed alt fresh route runs =
      let inserts : (insert_segments segs arena 0 >>= λ p. set_value p.0 p.1 idx) ≡ some after =
        insert_runs arena after pattern segs idx parsed runs in
      let (p, walked, wrote) = >>=-eq-some (insert_segments segs arena 0) _ inserts in
      let r =
        insert_segments_lem segs trie 0 trie.root trie.root_stored
          (Ready-root segs trie.root trie.root_empty trie.root_unnamed) alt
          (rw trie.root_label fresh) (λ e. cc (sym walked ∙ e)) in
      let at : p ≡ (r.after, r.id) = cc (sym walked ∙ r.runs) in
      let g =
        set_value_lem r.trie r.id r.node idx (spelling segs) r.stored
          (r.labelled ∙ ap (λ l. l ++ spelling segs) trie.root_label) route (rw at at wrote) in
      record {
        labels = g.labels;
        trie = g.trie;
        kept = λ u t. g.kept u (r.kept u t);
        ends = g.ends;
      }
