-- ===== src/BTreeMap/Order.antt =====
-- The lexicographic order of byte strings (`Ord for [u8]`).
use atlas_kv.Base.{Bool, List, [], arith, false, refl, true, ℕ, ◌∷◌, ◌≡◌}
use Prim.Native.Nat.{compare, Ordering}
use Prim.Native.Nat.Ordering.{lt, eq, gt}

unfoldable pub compare_bytes : List ℕ → List ℕ → Ordering
compare_bytes [] [] = eq
compare_bytes [] (b ∷ bs) = lt
compare_bytes (a ∷ as') [] = gt
compare_bytes (a ∷ as') (b ∷ bs) = elim (compare a b) [
  | lt ↦ lt
  | eq ↦ compare_bytes as' bs
  | gt ↦ gt
]

pub compare_bytes_refl : (k : List ℕ) → compare_bytes k k ≡ eq
unfolding compare_bytes
compare_bytes_refl [] = refl
compare_bytes_refl (a ∷ k) = ground (arith, compare_bytes_refl k)

pub eq_of_compare_bytes : (k j : List ℕ) → compare_bytes k j ≡ eq → k ≡ j
unfolding compare_bytes
eq_of_compare_bytes [] [] h = refl
eq_of_compare_bytes [] (b ∷ j) h = cc
eq_of_compare_bytes (a ∷ k) [] h = cc
eq_of_compare_bytes (a ∷ k) (b ∷ j) h = ground (arith, eq_of_compare_bytes k j)

pub compare_bytes_flip : (k j : List ℕ) → compare_bytes k j ≡ gt → compare_bytes j k ≡ lt
unfolding compare_bytes
compare_bytes_flip [] [] h = cc
compare_bytes_flip [] (b ∷ j) h = cc
compare_bytes_flip (a ∷ k) [] h = refl
compare_bytes_flip (a ∷ k) (b ∷ j) h = ground (arith, compare_bytes_flip k j)

pub compare_bytes_flip_lt : (k j : List ℕ) → compare_bytes k j ≡ lt → compare_bytes j k ≡ gt
unfolding compare_bytes
compare_bytes_flip_lt [] [] h = cc
compare_bytes_flip_lt [] (b ∷ j) h = refl
compare_bytes_flip_lt (a ∷ k) [] h = cc
compare_bytes_flip_lt (a ∷ k) (b ∷ j) h = ground (arith, compare_bytes_flip_lt k j)

pub compare_bytes_trans :
    (k j i : List ℕ) → compare_bytes k j ≡ lt → compare_bytes j i ≡ lt → compare_bytes k i ≡ lt
unfolding compare_bytes
compare_bytes_trans [] [] i h l = cc
compare_bytes_trans [] (b ∷ j) [] h l = cc
compare_bytes_trans [] (b ∷ j) (c ∷ i) h l = refl
compare_bytes_trans (a ∷ k) [] i h l = cc
compare_bytes_trans (a ∷ k) (b ∷ j) [] h l = cc
compare_bytes_trans (a ∷ k) (b ∷ j) (c ∷ i) h l = ground (arith, compare_bytes_trans k j i)

-- `k <= j` on slices.
unfoldable pub at_most : List ℕ → List ℕ → Bool
at_most k j = elim (compare_bytes k j) [ gt ↦ false | _ ↦ true ]
