-- ===== src/PathParams/Laws.antt =====
-- Reads after writes, and the removal that undoes a push.
use rapina.Prelude.{
  ◌≡◌, refl, ◌≢◌, List, [], ◌∷◌, ◌++◌, some, if◌then◌else◌, Bytes, bytes_eq, bytes_eq_iff,
  bytes_eq_refl, All, arith, length,
}
use rapina.PathParams.{
  PathParams, keys, get, insert, push, position_of, swap_remove, value_at, remove,
}

-- A read after an insertion finds the new value under its key and the old value elsewhere.
pub get-insert :
    (key k value : Bytes) (ps : PathParams)
    → get k (insert key value ps).0 ≡ (if bytes_eq key k then some value else get k ps)
unfolding get insert
get-insert key k value [] = refl
get-insert key k value ((j, w) ∷ ps) =
    ground
      (arith, get-insert key k value ps, bytes_eq_iff j key, bytes_eq_iff key k, bytes_eq_iff j k)

-- What an insertion returns is the value that a read found before.
pub insert-old : (key value : Bytes) (ps : PathParams) → (insert key value ps).1 ≡ get key ps
unfolding get insert
insert-old key value [] = refl
insert-old key value ((j, w) ∷ ps) = ground (arith, insert-old key value ps)

abbrev pub Fresh : Bytes → List Bytes → Type 0
Fresh key names = All (λ k. k ≢ key) names

position_of-push :
    (key value : Bytes) (ps : PathParams)
    → Fresh key (keys ps)
    → position_of key (ps ++ (key, value) ∷ []) ≡ some (length ps)
unfolding position_of
position_of-push key value [] h = rw (bytes_eq_refl key)
position_of-push key value ((j, w) ∷ ps) (h, hs) =
    ground (arith, position_of-push key value ps hs, bytes_eq_iff j key)

swap_remove_last :
    (e : Bytes × Bytes) (ps : PathParams) → swap_remove (length ps) (ps ++ e ∷ []) ≡ ps
unfolding swap_remove
swap_remove_last e [] = refl
swap_remove_last e (f ∷ ps) = rw (swap_remove_last e ps)

value_at_last :
    (key value : Bytes) (ps : PathParams)
    → value_at (length ps) (ps ++ (key, value) ∷ []) ≡ some value
unfolding value_at
value_at_last key value [] = refl
value_at_last key value (f ∷ ps) = value_at_last key value ps

-- Removing a key that was fresh when it was pushed gives back the parameters and its value.
pub remove-push :
    (key value : Bytes) (ps : PathParams)
    → Fresh key (keys ps)
    → remove key (push key value ps) ≡ (ps, some value)
unfolding remove push
remove-push key value ps h =
    rw (position_of-push key value ps h, remove)
      (rw (swap_remove_last (key, value) ps, value_at_last key value ps))

pub keys-push :
    (key value : Bytes) (ps : PathParams) → keys (push key value ps) ≡ keys ps ++ key ∷ []
unfolding push
keys-push key value [] = refl
keys-push key value ((j, w) ∷ ps) = rw (keys-push key value ps)
