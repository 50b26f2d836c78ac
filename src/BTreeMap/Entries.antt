-- ===== src/BTreeMap/Entries.antt =====
-- The operations on the sorted entries.
use atlas_kv.Base.{All, Bool, List, Option, [], false, if◌then◌else◌, none, some, true, ℕ, ◌∷◌, ◌≡◌}
use Prim.Native.Nat.Ordering.{lt, eq, gt}
use atlas_kv.BTreeMap.Order.{compare_bytes}

abbrev pub BTreeMap {ℓ} : Type ℓ → Type ℓ
BTreeMap V = List (List ℕ × V)

-- Are the two keys one key?
unfoldable pub same_key : List ℕ → List ℕ → Bool
same_key k j = elim (compare_bytes k j) [ eq ↦ true | _ ↦ false ]

module _ {ℓ} {V : Type ℓ} where
  unfoldable pub get : List ℕ → BTreeMap V → Option V
  get k [] = none
  get k ((j, v) ∷ m) = if same_key k j then some v else get k m

  unfoldable pub insert : List ℕ → V → BTreeMap V → BTreeMap V
  insert k v [] = (k, v) ∷ []
  insert k v ((j, w) ∷ m) = elim (compare_bytes k j) [
    | lt ↦ (k, v) ∷ (j, w) ∷ m
    | eq ↦ (k, v) ∷ m
    | gt ↦ (j, w) ∷ insert k v m
  ]

  -- `keys().next()`
  unfoldable pub first_key : BTreeMap V → Option (List ℕ)
  first_key [] = none
  first_key ((k, v) ∷ m) = some k

  -- `keys().next_back()`
  unfoldable pub last_key : BTreeMap V → Option (List ℕ)
  last_key [] = none
  last_key ((k, v) ∷ []) = some k
  last_key ((k, v) ∷ (j, w) ∷ m) = last_key ((j, w) ∷ m)

  -- Every key of `m` comes after `k`.
  abbrev pub After : List ℕ → BTreeMap V → Type 0
  After k m = All (λ entry. compare_bytes k entry.0 ≡ lt) m

  -- The entries stand in strictly ascending order of their keys.
  abbrev pub IsSorted : BTreeMap V → Type 0
  IsSorted [] = Unit
  IsSorted ((k, v) ∷ m) = After k m × IsSorted m
