-- ===== src/Sstable/Room.antt =====
-- The bytes of the data block (src/storage/sstable/builder.rs) that the entries of a memtable need.
use atlas_kv.Base.{List, [], arith, length, ℕ, ◌+◌, ◌<◌, ◌^◌, ◌∷◌, ◌≤◌}
use atlas_kv.BTreeMap
use atlas_kv.BTreeMap.{BTreeMap, IsSorted, insert-IsSorted}
use atlas_kv.MemTable.{MemTableEntry}
use atlas_kv.Sstable.Format.{header_size}
use atlas_kv.Sstable.Written.{data_block, record_size, length-data_block}
use atlas_kv.Sstable.Lookup.{EntryFits, AllFit}
use atlas_kv.Sstable.Opened.{CanHold}

module _ (key : List ℕ) (entry : MemTableEntry) where
  insert-AllFit :
      (m : BTreeMap MemTableEntry)
      → EntryFits key entry
      → AllFit m
      → AllFit (BTreeMap.insert key entry m)
  unfolding BTreeMap.insert
  insert-AllFit [] h a = (h, tt)
  insert-AllFit ((j, w) ∷ m) h a = ground (arith, insert-AllFit m)

  length-data_block-insert :
      (m : BTreeMap MemTableEntry)
      → length (data_block (BTreeMap.insert key entry m))
        ≤ length (data_block m) + record_size key entry
  unfolding BTreeMap.insert
  length-data_block-insert [] = omega (arith, length-data_block key entry [])
  length-data_block-insert ((j, w) ∷ m) = ground (
    arith,
    length-data_block-insert m,
    length-data_block key entry ((j, w) ∷ m),
    length-data_block key entry m,
    length-data_block j w m,
    length-data_block j w (BTreeMap.insert key entry m),
  )

length-le_data_block : (m : BTreeMap MemTableEntry) → length m ≤ length (data_block m)
length-le_data_block [] = omega arith
length-le_data_block ((key, entry) ∷ m) =
    omega (arith, length-le_data_block m, length-data_block key entry m)

-- A memtable whose data block has at most so many bytes, and whose entries fit the format.
pub record TableWithin (n : ℕ) (m : BTreeMap MemTableEntry) : Type 0 where
  pub sorted : IsSorted m
  pub each : AllFit m
  pub block : length (data_block m) ≤ n

pub TableWithin-CanHold :
    (n : ℕ) (m : BTreeMap MemTableEntry) → header_size + n < 2 ^ 64 → TableWithin n m → CanHold m
TableWithin-CanHold n m room within = record {
  sorted = within.sorted;
  each = within.each;
  offsets = omega (arith, within.block);
  count = omega (arith, within.block, length-le_data_block m);
}

pub insert-TableWithin :
    (key : List ℕ) (entry : MemTableEntry) (n : ℕ) (m : BTreeMap MemTableEntry)
    → EntryFits key entry
    → TableWithin n m
    → TableWithin (n + record_size key entry) (BTreeMap.insert key entry m)
insert-TableWithin key entry n m h within = record {
  sorted = insert-IsSorted key entry m within.sorted;
  each = insert-AllFit key entry m h within.each;
  block = omega (arith, length-data_block-insert key entry m, within.block);
}

pub TableWithin-nil : (n : ℕ) → TableWithin n []
TableWithin-nil n = record { sorted = tt; each = tt; block = omega arith }
