-- ===== src/Trie/Correct/Finished.antt =====
-- The trie of a list of routes after `compute_priorities` and `reorder_children`.
use rapina.Prelude.{
  ℕ, ◌≡◌, ◌<◌, refl, List, [], ◌∷◌, some, Bytes, length, ◌>>=◌, >>=-eq-some, arith, get_elem?,
}
use rapina.Trie.Node.{Arena, new_trie}
use rapina.Trie.Distinct.{IsDistinct, insert-IsDistinct, new_trie-IsDistinct}
use rapina.Trie.Insert.{insert}
use rapina.Trie.Reorder.{compute_priorities, reorder_children}
use rapina.Trie.Reorder.Kept.{Good}
use rapina.Trie.Reorder.Orders.{finished-Good}
use rapina.Trie.Correct.{AllDistinct, Built, IsRoute, inserts, built}

inserts-IsDistinct :
    (routes : List (Bytes × ℕ)) (arena after : Arena)
    → IsDistinct arena
    → inserts routes arena ≡ some after
    → IsDistinct after
unfolding inserts
inserts-IsDistinct [] arena after d h = let same : arena ≡ after = cc in rw (← same) d
inserts-IsDistinct ((pattern, idx) ∷ routes) arena after d h =
    let (arena', first, others) =
      >>=-eq-some (insert arena pattern idx) (λ a. inserts routes a) h in
    inserts-IsDistinct routes arena' after (insert-IsDistinct arena arena' pattern idx d first)
      others

stored-length : (arena : Arena) (n : _) → get_elem? arena 0 ≡ some n → 0 < length arena
stored-length [] n h = cc
stored-length (x ∷ xs) n h = omega arith

-- The steps after the insertions do not panic, and the trie that they leave has the same nodes.
pub finished-Built :
    (routes : List (Bytes × ℕ)) (arena : Arena)
    → AllDistinct routes
    → inserts routes new_trie ≡ some arena
    → (after : Arena) × ((compute_priorities arena >>= reorder_children) ≡ some after)
      × Built routes routes after
finished-Built routes arena fresh runs =
    let b = built routes arena fresh runs in
    let start : Good (IsRoute routes) b.labels arena arena = record {
      trie = b.trie;
      distinct = inserts-IsDistinct routes new_trie arena new_trie-IsDistinct runs;
      size = refl;
      kept = λ u t. t;
    } in
    let (after, steps, g) =
      finished-Good (IsRoute routes) b.labels arena arena start
        (stored-length arena b.trie.root b.trie.root_stored) in
    (
      after,
      steps,
      record {
        labels = b.labels;
        trie = g.trie;
        reached = λ p i segs m e. g.kept _ (b.reached p i segs m e);
      },
    )
