-- ===== src/MemTable.antt =====
-- src/memtable/: the table of recent writes. The lock and the atomic counter are plain fields:
-- every method takes the lock for all it does with the map, and writers are serialised by the
-- engine. `size` is a `usize`, 64 bits wide; its `fetch_add` and `fetch_sub` wrap around. The
-- lengths of byte strings are below 2 ^ 63, so the casts to `isize` lose nothing.
pub mod Size
pub mod Contents
use atlas_kv.Base.{
  Bool, List, Option, [], if◌then◌else◌, leb, length, ltb, none, some, ℕ, ◌%◌, ◌+◌, ◌-◌, ◌==◌, ◌^◌,
}
use atlas_kv.BTreeMap
use atlas_kv.BTreeMap.{BTreeMap}

pub data MemTableEntry : Type 0 where
  value : List ℕ → MemTableEntry
  tombstone : MemTableEntry

pub record MemTable : Type 0 where
  pub table : BTreeMap MemTableEntry
  pub size : ℕ

abbrev pub new : MemTable
new = record { table = []; size = 0 }

unfoldable pub get : MemTable → List ℕ → Option MemTableEntry
get m key = BTreeMap.get key m.table

-- The bytes that an entry counts for: its key, and its value if it has one.
unfoldable pub entry_size : List ℕ → MemTableEntry → ℕ
entry_size key (value v) = length key + length v
entry_size key tombstone = length key

-- `.map(|entry| match entry …).unwrap_or(0)`
unfoldable pub old_size : List ℕ → Option MemTableEntry → ℕ
unfolding entry_size
old_size key none = 0
old_size key (some entry) = entry_size key entry

-- `size_delta > 0` adds, else the negated difference is subtracted.
unfoldable pub adjust : ℕ → ℕ → ℕ → ℕ
adjust size new_size old =
    if ltb old new_size
    then (size + (new_size - old)) % 2 ^ 64
    else (size + 2 ^ 64 - (old - new_size)) % 2 ^ 64

-- What `put` and `delete` share: the entry goes in, and the counter follows.
unfoldable pub write : List ℕ → MemTableEntry → MemTable → MemTable
unfolding entry_size old_size adjust
write key entry m = record {
  table = BTreeMap.insert key entry m.table;
  size = adjust m.size (entry_size key entry) (old_size key (BTreeMap.get key m.table));
}

-- The methods that return the new size return it beside the new table.
unfoldable pub put : MemTable → List ℕ → List ℕ → MemTable × ℕ
unfolding write
put m key v = let m' = write key (value v) m in (m', m'.size)

unfoldable pub delete : MemTable → List ℕ → MemTable × ℕ
unfolding write
delete m key = let m' = write key tombstone m in (m', m'.size)

unfoldable pub entry_count : MemTable → ℕ
entry_count m = length m.table

unfoldable pub is_empty : MemTable → Bool
unfolding entry_count
is_empty m = entry_count m == 0

unfoldable pub should_flush : MemTable → ℕ → Bool
should_flush m size_limit = leb size_limit m.size

-- The snapshot for a flush, in the order of the keys.
unfoldable pub iter : MemTable → List (List ℕ × MemTableEntry)
iter m = m.table

unfoldable pub clear : MemTable → MemTable
clear m = record m { table = []; size = 0 }
