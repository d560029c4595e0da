-- ===== src/Trie/Lookup/Branches.antt =====
-- The static child and the parameter child, each tried by a lookup that keeps its promise.
use rapina.Prelude.{
  ℕ, zero, suc, ◌+◌, ◌*◌, ◌≡◌, refl, sym, ◌∙◌, ◌≤◌, ◌<◌, ◌⊎◌, inl, inr, List, [], ◌∷◌, none, some,
  Bytes, IsAscii, IsAscii-drop, length, get_elem?, append_assoc, arith, Option-cases, length-drop,
}
use rapina.PathParams.{PathParams, keys, push, remove}
use rapina.PathParams.Laws.{remove-push, keys-push}
use rapina.Trie.Node.{Node, Arena, static_child, position, until}
use rapina.Trie.Lookup.{captured, left_over, Found, Visit, try_static, try_param, settle}
use rapina.Trie.Spelling.{Spelling, names}
use rapina.Trie.Lookup.Outcomes.{
  Outcome, Runs, IsLookup, Down, Across, Walk-from, Outcome-map, names-static, names-param,
}
use rapina.Trie.Invariant.{ParamLink, IsSound}
use rapina.Trie.Walk.{Walk}

pub position_bound : (b : ℕ) (bs : List ℕ) (i : ℕ) → position b bs ≡ some i → i < length bs
unfolding position
position_bound b [] i h = cc
position_bound b (c ∷ bs) zero h = omega arith
position_bound b (c ∷ bs) (suc i) h = ground (arith, position_bound b bs i)

pub get_elem_in {ℓ} :
    {A : Type ℓ} (xs : List A) (i : ℕ) → i < length xs → (a : A) × (get_elem? xs i ≡ some a)
get_elem_in [] i h = absurd (omega arith)
get_elem_in (x ∷ xs) zero h = (x, refl)
get_elem_in (x ∷ xs) (suc i) h = get_elem_in xs i (omega arith)

length-left_over : (path : Bytes) → length (left_over path) ≤ length path
unfolding left_over
length-left_over path = omega (arith, length-drop (until _ path) path)

IsAscii-left_over : (path : Bytes) → IsAscii path → IsAscii (left_over path)
unfolding left_over
IsAscii-left_over path a = IsAscii-drop (until _ path) path a

module _ {Route : ℕ → Spelling → Type 0} {label : ℕ → Spelling} {arena : Arena} where
  module _ (fuel : ℕ) (visit : Visit) (rec : IsLookup label arena fuel visit) (id : ℕ) (n : Node)
      (s : IsSound Route label arena id n) (b : ℕ) (path : Bytes) (params : PathParams)
      (kept : keys params ≡ names (label id)) where
    static_child_lem :
        (i : ℕ)
        → position b n.indices ≡ some i
        → (c : ℕ) × (get_elem? n.children i ≡ some c) × (static_child n b ≡ some c)
    unfolding static_child
    static_child_lem i e =
        let bound : i < length n.indices = position_bound b n.indices i e in
        let (c, found) = get_elem_in n.children i (omega (arith, bound, s.parallel)) in
        (c, found, rw e found)

    static_child-none : {c : ℕ} → position b n.indices ≡ none → static_child n b ≡ some c → ⊥
    unfolding static_child
    static_child-none e h = ground arith

    pub try_static_lem :
        2 * length path + 3 ≤ fuel
        → Runs (b ∷ path) (try_static visit n b (b ∷ path) params) (Down arena n b path) params
    unfolding try_static
    try_static_lem enough = elim (Option-cases (position b n.indices)) [
      | inl e ↦ inr (record {
        found = (none, params);
        runs = rw (e, try_static);
        outcome = (refl, λ v caps d. absurd (static_child-none e d.1));
      })
      | inr (i, e) ↦
          let (c, found, link) = static_child_lem i e in
          let l = s.static_ok b c link in
          let longer : 0 < length l.node.prefix = rw l.starts (omega arith) in
          let r =
            rec c l.node (b ∷ path) params l.stored (kept ∙ sym (names-static l))
              (omega arith, omega arith, inr (omega arith)) in
          elim r [
            | inl (panics, wide) ↦ inl (rw (e, try_static) (rw found panics), wide)
            | inr r ↦ inr (record {
              found = r.found;
              runs = rw (e, try_static) (rw found r.runs);
              outcome =
                  Outcome-map (Walk arena c (b ∷ path)) (Down arena n b path) params r.found
                    (λ v caps w. (c, link, w)) (λ v caps d. Walk-from d.1 link d.2) r.outcome;
            })
          ]
    ]

    module _ (p : ℕ) (link : n.param_child ≡ some p) (l : ParamLink label arena id p) where
      abbrev pushed : PathParams
      pushed = push l.name (captured (b ∷ path)) params

      removed : (remove l.name pushed).0 ≡ params
      removed = rw (remove-push l.name (captured (b ∷ path)) params (rw (← kept) at l.fresh))

      settle_lem :
          (found : Found)
          → Outcome (Walk arena p (left_over (b ∷ path))) pushed found
          → Outcome (Across arena n b path) params (settle (some l.name) found)
      unfolding push
      settle_lem (some v, params') (caps, w, e) = (
        (l.name, captured (b ∷ path)) ∷ caps,
        (p, l.node, l.name, caps, link, l.stored, l.named, w, refl),
        e ∙ append_assoc params ((l.name, captured (b ∷ path)) ∷ []) caps,
      )
      settle_lem (none, params') (e, no_walk) =
          (rw e removed, λ v caps d. no_walk v d.3 (Walk-from d.4 link d.7))

    pub try_param_lem :
        (n.param_child ≡ none) ⊎ (2 * length path + 4 ≤ fuel)
        → Runs (b ∷ path) (try_param visit arena n (b ∷ path) params) (Across arena n b path) params
    try_param_lem enough = elim (Option-cases n.param_child) [
      | inl e ↦ inr (record {
        found = (none, params);
        runs = unfold try_param in rw e;
        outcome = (refl, λ v caps d. cc (sym e ∙ d.4));
      })
      | inr (p, link) ↦
          let l = s.param_ok p link in
          let fuel_left : 2 * length path + 4 ≤ fuel = ground arith in
          let r =
            rec p l.node (left_over (b ∷ path)) (pushed p link l) l.stored
              (keys-push l.name (captured (b ∷ path)) params ∙ (rw kept (sym (names-param l))))
              (omega arith, omega (arith, length-left_over (b ∷ path)), inl l.no_param) in
          elim r [
            | inl (panics, wide) ↦ inl (
              unfold try_param in rw (link, l.stored, l.named) (rw panics),
              λ a. wide (IsAscii-left_over (b ∷ path) a),
            )
            | inr r ↦ inr (record {
              found = settle (some l.name) r.found;
              runs = unfold try_param in rw (link, l.stored, l.named) (rw r.runs);
              outcome = settle_lem p link l r.found r.outcome;
            })
          ]
    ]
