-- ===== src/BTreeMap/Laws.antt =====
-- The laws of the map.
use atlas_kv.Base.{
  All, List, [], arith, false, if◌then◌else◌, none, refl, some, true, ℕ, ◌&&◌, ◌++◌, ◌∷◌, ◌≡◌,
}
use Prim.Native.Nat.Ordering.{lt}
use atlas_kv.BTreeMap.Order.{
  compare_bytes, compare_bytes_refl, eq_of_compare_bytes, compare_bytes_flip, compare_bytes_flip_lt,
  compare_bytes_trans, at_most,
}
use atlas_kv.BTreeMap.Entries.{
  BTreeMap, same_key, get, insert, first_key, last_key, After, IsSorted,
}

pub same_key_refl : (k : List ℕ) → same_key k k ≡ true
unfolding same_key
same_key_refl k = rw (compare_bytes_refl, same_key)

pub eq_of_same_key : (k j : List ℕ) → same_key k j ≡ true → k ≡ j
unfolding same_key
eq_of_same_key k j h = ground (arith, eq_of_compare_bytes k j)

module _ {ℓ} {V : Type ℓ} where
  pub get-insert :
      (k j : List ℕ) (v : V) (m : BTreeMap V)
      → get j (insert k v m) ≡ (if same_key k j then some v else get j m)
  unfolding get insert same_key
  get-insert k j v [] = ground (
    arith,
    compare_bytes_flip k j,
    eq_of_compare_bytes k j,
    eq_of_compare_bytes j k,
    compare_bytes_refl k,
  )
  get-insert k j v ((i, w) ∷ m) = ground (
    arith,
    get-insert k j v m,
    eq_of_compare_bytes k j,
    eq_of_compare_bytes j k,
    eq_of_compare_bytes k i,
    eq_of_compare_bytes j i,
    compare_bytes_refl k,
    compare_bytes_refl i,
  )

  After-insert :
      (k j : List ℕ) (v : V) (m : BTreeMap V)
      → compare_bytes j k ≡ lt
      → After j m
      → After j (insert k v m)
  unfolding insert
  After-insert k j v [] h a = (h, tt)
  After-insert k j v ((i, w) ∷ m) h a = ground (arith, After-insert k j v m)

  After-trans : (k j : List ℕ) (m : BTreeMap V) → compare_bytes k j ≡ lt → After j m → After k m
  After-trans k j [] h a = tt
  After-trans k j ((i, w) ∷ m) h a = (compare_bytes_trans k j i h a.0, After-trans k j m h a.1)

  -- Inserting keeps the entries sorted.
  pub insert-IsSorted : (k : List ℕ) (v : V) (m : BTreeMap V) → IsSorted m → IsSorted (insert k v m)
  unfolding insert
  insert-IsSorted k v [] s = (tt, tt)
  insert-IsSorted k v ((j, w) ∷ m) s = ground (
    arith,
    insert-IsSorted k v m,
    After-insert k j v m,
    After-trans k j m,
    compare_bytes_flip k j,
    eq_of_compare_bytes k j,
  )

  get-After : (k : List ℕ) (m : BTreeMap V) → After k m → get k m ≡ none
  unfolding get same_key
  get-After k [] a = refl
  get-After k ((j, w) ∷ m) a = ground (arith, get-After k m)

  -- A key before all others is not in the map.
  pub get-After-trans :
      (k j : List ℕ) (m : BTreeMap V) → compare_bytes k j ≡ lt → After j m → get k m ≡ none
  get-After-trans k j m h a = get-After k m (After-trans k j m h a)

  -- Every key of `m` comes before `k`.
  abbrev pub Before : List ℕ → BTreeMap V → Type 0
  Before k m = All (λ entry. compare_bytes entry.0 k ≡ lt) m

  Before-last :
      (k last : List ℕ) (m : BTreeMap V)
      → IsSorted m
      → last_key m ≡ some last
      → compare_bytes last k ≡ lt
      → Before k m
  unfolding last_key
  Before-last k last [] s l h = tt
  Before-last k last ((i, w) ∷ []) s l h = ground arith
  Before-last k last ((i, w) ∷ (j, u) ∷ m) s l h =
      let rest = Before-last k last ((j, u) ∷ m) s.1 l h in
      (compare_bytes_trans i j k s.0.0 rest.0, rest)

  get-Before : (k : List ℕ) (m : BTreeMap V) → Before k m → get k m ≡ none
  unfolding get same_key
  get-Before k [] b = refl
  get-Before k ((j, w) ∷ m) b = ground (arith, get-Before k m, compare_bytes_flip_lt j k)

  After-first :
      (k first : List ℕ) (m : BTreeMap V)
      → IsSorted m
      → first_key m ≡ some first
      → compare_bytes k first ≡ lt
      → After k m
  unfolding first_key
  After-first k first [] s f h = tt
  After-first k first ((j, w) ∷ m) s f h = ground (arith, After-trans k j m)

  -- A key outside the range from the first to the last key is not in the map.
  pub get_out_of_range :
      (k first last : List ℕ) (m : BTreeMap V)
      → IsSorted m
      → first_key m ≡ some first
      → last_key m ≡ some last
      → (at_most first k && at_most k last) ≡ false
      → get k m ≡ none
  unfolding at_most
  get_out_of_range k first last m s f l h = ground (
    arith,
    get-After k m,
    get-Before k m,
    After-first k first m s f,
    Before-last k last m s l,
    compare_bytes_flip first k,
    compare_bytes_flip k last,
  )

  -- Inserting a key behind all others appends it.
  pub insert_last :
      (k : List ℕ) (v : V) (m : BTreeMap V) → Before k m → insert k v m ≡ m ++ ((k, v) ∷ [])
  unfolding insert
  insert_last k v [] b = refl
  insert_last k v ((j, w) ∷ m) b = ground (arith, insert_last k v m, compare_bytes_flip_lt j k)
