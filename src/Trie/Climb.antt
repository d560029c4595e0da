-- ===== src/Trie/Climb.antt =====
-- A path that fits the label of a terminal node is walked from the root: the way is found from the
-- node upwards, by the parents.
use rapina.Prelude.{
  ℕ, zero, suc, ◌+◌, ◌<◌, ◌≡◌, refl, sym, ap, inl, inr, [], ◌∷◌, ◌++◌, some, Bytes, length,
  length-append, get_elem?, append_assoc, append-nil, arith,
}
use rapina.PathParams.{PathParams}
use rapina.Trie.Node.{Node, Arena}
use rapina.Trie.Lookup.{captured, left_over}
use rapina.Trie.Spelling.{byte, param, Spelling, of_bytes, Fits, captured_unique}
use rapina.Trie.Walk.{Walk, enter, After, here, down, across}
use rapina.Trie.Invariant.{StaticParent, ParamParent, IsTrie, Terminal}

-- A path whose front fits a spelling, and what is left of it.
data Leads : Spelling → Bytes → Bytes → PathParams → Type 0 where
  stay : {path rest : Bytes} → path ≡ rest → Leads [] path rest []
  literal :
      {b : ℕ} {s : Spelling} {path rest : Bytes} {caps : PathParams}
      → Leads s path rest caps
      → Leads (byte b ∷ s) (b ∷ path) rest caps
  capture :
      {name : Bytes} {s : Spelling} {c : ℕ} {path rest : Bytes} {caps : PathParams}
      → Leads s (left_over (c ∷ path)) rest caps
      → Leads (param name ∷ s) (c ∷ path) rest ((name, captured (c ∷ path)) ∷ caps)

Leads-Fits :
    {s : Spelling} {path : Bytes} {caps : PathParams} → Fits s path caps → Leads s path [] caps
Leads-Fits Fits.done = stay refl
Leads-Fits (Fits.literal f) = literal (Leads-Fits f)
Leads-Fits (Fits.capture {name} {s} {c} {path} {value} {rest} {caps} e v r f) =
    let (same, left) = captured_unique (c ∷ path) value rest e v r in
    captures same (rw left at (Leads-Fits f))
  where
    captures :
        value ≡ captured (c ∷ path)
        → Leads s (left_over (c ∷ path)) [] caps
        → Leads (param name ∷ s) (c ∷ path) [] ((name, value) ∷ caps)
    captures same l = rw (sym same) at (capture {name = name} l)

Leads-of_bytes :
    (p : Bytes) {path rest : Bytes} {caps : PathParams}
    → Leads (of_bytes p) path rest caps
    → Leads [] path (p ++ rest) caps
Leads-of_bytes [] l = l
Leads-of_bytes (b ∷ p) (literal l) = cons_front (Leads-of_bytes p l)
  where
    cons_front :
        {path rest : Bytes} {caps : PathParams}
        → Leads [] path rest caps
        → Leads [] (b ∷ path) (b ∷ rest) caps
    cons_front (stay e) = stay (ap (λ t. b ∷ t) e)

-- The bytes at the end of the spelling stand in front of what is left.
Leads-append_bytes :
    (s : Spelling) (p : Bytes) {path rest : Bytes} {caps : PathParams}
    → Leads (s ++ of_bytes p) path rest caps
    → Leads s path (p ++ rest) caps
Leads-append_bytes [] p l = Leads-of_bytes p l
Leads-append_bytes (byte b ∷ s) p (literal l) = literal (Leads-append_bytes s p l)
Leads-append_bytes (param name ∷ s) p (capture l) = capture (Leads-append_bytes s p l)

-- What a parameter at the end of the spelling captured.
record LastParam (s : Spelling) (name path rest : Bytes) (caps : PathParams) : Type 0 where
  first : ℕ
  behind : Bytes
  before : PathParams
  leads : Leads s path (first ∷ behind) before
  left : rest ≡ left_over (first ∷ behind)
  all : caps ≡ before ++ (name, captured (first ∷ behind)) ∷ []

Leads-append_param :
    (s : Spelling) (name : Bytes) {path rest : Bytes} {caps : PathParams}
    → Leads (s ++ param name ∷ []) path rest caps
    → LastParam s name path rest caps
Leads-append_param [] name (capture {c} {path} (stay e)) = record {
  first = c;
  behind = path;
  before = [];
  leads = stay refl;
  left = sym e;
  all = refl;
}
Leads-append_param (byte b ∷ s) name (literal l) =
    let r = Leads-append_param s name l in
    record {
      first = r.first;
      behind = r.behind;
      before = r.before;
      leads = literal r.leads;
      left = r.left;
      all = r.all;
    }
Leads-append_param (param k ∷ s) name (capture {c} {path} l) =
    let r = Leads-append_param s name l in
    record {
      first = r.first;
      behind = r.behind;
      before = (k, captured (c ∷ path)) ∷ r.before;
      leads = capture r.leads;
      left = r.left;
      all = ap (λ t. (k, captured (c ∷ path)) ∷ t) r.all;
    }

module _ {Route : ℕ → Spelling → Type 0} {label : ℕ → Spelling} {arena : Arena}
    (trie : IsTrie Route label arena) where
  -- From a node with a parent the climb goes on from the parent.
  abbrev Climbs : ℕ → Type 0
  Climbs id =
      (n : Node) (path rest : Bytes) (v : ℕ) (front caps : PathParams)
      → get_elem? arena id ≡ some n
      → Leads (label id) path rest front
      → After arena n rest v caps
      → Walk arena 0 path v (front ++ caps)

  climb_root :
      (s : Spelling)
      → s ≡ []
      → (n : Node) (path rest : Bytes) (v : ℕ) (front caps : PathParams)
      → get_elem? arena 0 ≡ some n
      → Leads s path rest front
      → After arena n rest v caps
      → Walk arena 0 path v (front ++ caps)
  climb_root [] _ n path rest v front caps stored (stay e) after =
      let empty : n.prefix ≡ [] = ground (arith, trie.root_stored, trie.root_empty) in
      enter stored (rw empty e) after
  climb_root (x ∷ s) e n path rest v front caps stored l after = cc

  climb_static : (id : ℕ) (p : StaticParent arena id) → Climbs p.parent → Climbs id
  climb_static id p up n path rest v front caps stored l after =
      let link = (trie.sound p.parent p.node p.stored).static_ok p.byte id p.link in
      let same : link.node ≡ n = ground (arith, link.stored) in
      let starts : n.prefix ≡ p.byte ∷ link.tail = rw same at link.starts in
      let labelled : label id ≡ label p.parent ++ of_bytes n.prefix = rw same at link.labelled in
      let higher : Leads (label p.parent) path (p.byte ∷ link.tail ++ rest) front =
        rw starts at (Leads-append_bytes (label p.parent) n.prefix (rw labelled at l)) in
      up p.node path (p.byte ∷ (link.tail ++ rest)) v front caps p.stored higher
        (down p.link (enter stored (rw starts) after))

  climb_param : (id : ℕ) (p : ParamParent arena id) → Climbs p.parent → Climbs id
  climb_param id p up n path rest v front caps stored l after =
      let link = (trie.sound p.parent p.node p.stored).param_ok id p.link in
      let same : link.node ≡ n = ground (arith, link.stored) in
      let empty : n.prefix ≡ [] = rw same at link.empty in
      let r = Leads-append_param (label p.parent) link.name (rw link.labelled at l) in
      let around =
        up p.node path (r.first ∷ r.behind) v r.before
          ((link.name, captured (r.first ∷ r.behind)) ∷ caps) p.stored r.leads
          (across p.link link.stored link.named (enter stored (rw empty (sym r.left)) after)) in
      rw (r.all, append_assoc) around

  static_shorter :
      (id : ℕ) (p : StaticParent arena id) → length (label p.parent) < length (label id)
  static_shorter id p =
      let link = (trie.sound p.parent p.node p.stored).static_ok p.byte id p.link in
      let more : length (label id) ≡ length (label p.parent) + length (of_bytes link.node.prefix) =
        rw link.labelled (length-append (label p.parent) (of_bytes link.node.prefix)) in
      let some_more : 0 < length (of_bytes link.node.prefix) = rw link.starts (omega arith) in
      omega arith

  param_shorter : (id : ℕ) (p : ParamParent arena id) → length (label p.parent) < length (label id)
  param_shorter id p =
      let link = (trie.sound p.parent p.node p.stored).param_ok id p.link in
      let more : length (label id) ≡ length (label p.parent) + 1 =
        rw link.labelled (length-append (label p.parent) (param link.name ∷ [])) in
      omega arith

  climb_fuel : (k id : ℕ) → length (label id) < k → Climbs id
  climb_fuel zero id h n path rest v front caps stored l after = absurd (omega arith)
  climb_fuel (suc k) id h n path rest v front caps stored l after =
      elim (trie.sound id n stored).parent [
        | inl e ↦
            climb_root (label id) (rw e trie.root_label) n path rest v front caps (rw e at stored) l
              after
        | inr (inl p) ↦
            climb_static id p (climb_fuel k p.parent (omega (arith, static_shorter id p))) n path
              rest v front caps stored l after
        | inr (inr p) ↦
            climb_param id p (climb_fuel k p.parent (omega (arith, param_shorter id p))) n path rest
              v front caps stored l after
      ]

  -- A path that fits the spelling of a terminal node is walked to its route, with its captures.
  pub Terminal-Walk :
      {s : Spelling} {path : Bytes} {caps : PathParams} (t : Terminal label arena s)
      → Fits s path caps
      → Walk arena 0 path t.index caps
  Terminal-Walk {path} {caps} t f = rw (append-nil) at (
      climb_fuel (suc (length (label t.id))) t.id (omega arith) t.node path [] t.index caps []
        t.stored (Leads-Fits (rw (← t.labelled) at f)) (here t.valued))
