-- ===== src/MemTable/Size.antt =====
-- The size counter of src/memtable/table.rs, against the sum that it stands for.
use atlas_kv.Base.{List, [], arith, length, refl, ℕ, ◌+◌, ◌<◌, ◌^◌, ◌∷◌, ◌≡◌, ◌≤◌}
use atlas_kv.BTreeMap
use atlas_kv.BTreeMap.{
  BTreeMap, IsSorted, get-After-trans, eq_of_compare_bytes, insert-IsSorted, same_key_refl,
  eq_of_same_key,
}
use atlas_kv.MemTable.{
  MemTable, MemTableEntry, value, tombstone, entry_size, old_size, put, delete, write, new,
}

-- The bytes that the entries count for.
abbrev pub total : BTreeMap MemTableEntry → ℕ
total [] = 0
total ((key, entry) ∷ m) = entry_size key entry + total m

-- The entries are sorted, and the counter is their total.
pub record IsValid (m : MemTable) : Type 0 where
  pub sorted : IsSorted m.table
  pub counted : m.size ≡ total m.table

total-insert :
    (key : List ℕ) (entry : MemTableEntry) (m : BTreeMap MemTableEntry)
    → IsSorted m
    → total (BTreeMap.insert key entry m) + old_size key (BTreeMap.get key m)
      ≡ total m + entry_size key entry
unfolding BTreeMap.insert BTreeMap.get BTreeMap.same_key old_size
total-insert key entry [] s = ground arith
total-insert key entry ((j, w) ∷ m) s =
    ground (arith, total-insert key entry m, get-After-trans key j m, eq_of_compare_bytes key j)

old_size-le :
    (key : List ℕ) (m : BTreeMap MemTableEntry) → old_size key (BTreeMap.get key m) ≤ total m
unfolding BTreeMap.get BTreeMap.same_key old_size
old_size-le key [] = omega arith
old_size-le key ((j, w) ∷ m) = ground (arith, old_size-le key m, eq_of_compare_bytes key j)

write-IsValid :
    {m : MemTable} (key : List ℕ) (entry : MemTableEntry)
    → IsValid m
    → total m.table + entry_size key entry < 2 ^ 64
    → IsValid (write key entry m)
unfolding write
write-IsValid {m} key entry valid fits = record {
  sorted = insert-IsSorted key entry m.table valid.sorted;
  counted = ground (arith, total-insert key entry m.table valid.sorted, old_size-le key m.table);
}

-- put keeps the entries sorted and the counter equal to the bytes that they count for, and returns
-- that total, where the new entry beside the old total fits a usize.
pub put-IsValid :
    {m : MemTable} (key v : List ℕ)
    → IsValid m
    → total m.table + length key + length v < 2 ^ 64
    → IsValid (put m key v).0 × ((put m key v).1 ≡ total (put m key v).0.table)
unfolding put
put-IsValid key v valid fits =
    let after = write-IsValid key (value v) valid (omega arith) in (after, after.counted)

-- delete keeps the entries sorted and the counter equal to the bytes that they count for, and
-- returns that total, where the key beside the old total fits a usize.
pub delete-IsValid :
    {m : MemTable} (key : List ℕ)
    → IsValid m
    → total m.table + length key < 2 ^ 64
    → IsValid (delete m key).0 × ((delete m key).1 ≡ total (delete m key).0.table)
unfolding delete
delete-IsValid key valid fits =
    let after = write-IsValid key tombstone valid (omega arith) in (after, after.counted)

pub new-IsValid : IsValid new
new-IsValid = record { sorted = tt; counted = refl }
