-- ===== src/Storage/Reads.antt =====
-- What `StorageManager::get` answers, against the newest table that has the key.
use atlas_kv.Base.{
  All, Bool-cases, List, Option, Option-cases, [], ap, inl, inr, map, none, refl, some, ℕ, ◌∙◌, ◌∷◌,
  ◌≡◌,
}
use atlas_kv.BTreeMap
use atlas_kv.BTreeMap.{BTreeMap}
use atlas_kv.Error.{ok}
use atlas_kv.MemTable.{MemTableEntry}
use atlas_kv.Sstable.Reader
use atlas_kv.Sstable.Reader.{SsTableReader}
use atlas_kv.Sstable.Written.{payload}
use atlas_kv.Sstable.Opened.{CanHold, reader_of, get-reader_of, might_contain-reader_of}
use atlas_kv.Storage.{StorageManager, get_loop, get}

-- The entry of the first table that has the key.
abbrev pub or_older : Option MemTableEntry → Option MemTableEntry → Option MemTableEntry
or_older none older = older
or_older (some entry) older = some entry

abbrev pub newest_entry : List (BTreeMap MemTableEntry) → List ℕ → Option MemTableEntry
newest_entry [] key = none
newest_entry (t ∷ ts) key = or_older (BTreeMap.get key t) (newest_entry ts key)

-- What a client reads of an entry.
abbrev pub visible : Option MemTableEntry → Option (List ℕ)
visible none = none
visible (some entry) = payload entry

-- The manager's readers are those of these tables, newest first, and each table fits the format.
pub record Serves (crc32 : List ℕ → ℕ) (s : StorageManager) (tables : List (BTreeMap MemTableEntry))
    : Type 0 where
  pub readers : s.sstables ≡ map (reader_of crc32) tables
  pub hold : All CanHold tables

get_loop-tables :
    (crc32 : List ℕ → ℕ) (key : List ℕ) (tables : List (BTreeMap MemTableEntry))
    → All CanHold tables
    → get_loop (map (reader_of crc32) tables) key ≡ ok (visible (newest_entry tables key))
unfolding get_loop
get_loop-tables crc32 key [] h = refl
get_loop-tables crc32 key (t ∷ ts) (can, h) =
    elim (Bool-cases (Reader.might_contain (reader_of crc32 t) key)) [
      | inl inside ↦
          rw (inside, get-reader_of crc32 t can key)
            (elim (Option-cases (BTreeMap.get key t)) [
              | inl absent ↦ rw absent (get_loop-tables crc32 key ts h)
              | inr (entry, there) ↦ rw there
            ])
      | inr outside ↦
          rw (outside, might_contain-reader_of crc32 t can key outside)
            (get_loop-tables crc32 key ts h)
    ]

-- A manager that serves tables that fit the format answers a key from the newest of them that has
-- it: its value, or nothing for a tombstone, and nothing for a key that none of them has; it never
-- fails.
pub get-newest_entry :
    (crc32 : List ℕ → ℕ) (s : StorageManager) (tables : List (BTreeMap MemTableEntry))
    (key : List ℕ)
    → Serves crc32 s tables
    → get s key ≡ ok (visible (newest_entry tables key))
unfolding get
get-newest_entry crc32 s tables key serves =
    ap (λ rs. get_loop rs key) serves.readers ∙ get_loop-tables crc32 key tables serves.hold
