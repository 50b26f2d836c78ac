-- ===== src/Storage/Flush.antt =====
-- What `StorageManager::flush` (src/storage/manager.rs) leaves.
use atlas_kv.Base.{
  List, [], ap, arith, false, inl, inr, length, none, ℕ, ◌%◌, ◌+◌, ◌^◌, ◌∙◌, ◌∷◌, ◌≡◌, ◌≤◌, ◌⊎◌,
}
use mathlib.Core.Option
use atlas_kv.Error.{ok, err, AtlasError, Result-cases}
use atlas_kv.BTreeMap.{BTreeMap}
use atlas_kv.MemTable
use atlas_kv.MemTable.{MemTable, MemTableEntry}
use atlas_kv.Sstable.Format.{Metadata}
use atlas_kv.Sstable.Builder
use atlas_kv.Sstable.Builder.{fresh, finished_file}
use atlas_kv.Sstable.Reader.{open_table, SsTableReader}
use atlas_kv.Sstable.Written.{add_entries, finished_file-add_entries, file_of}
use atlas_kv.Sstable.Opened.{CanHold, reader_of, open_table-file_of}
use atlas_kv.Storage.{StorageManager, StorageEnv, flush, build, install}

-- The manager with one more table, from these entries.
abbrev pub with_table : (List ℕ → ℕ) → BTreeMap MemTableEntry → StorageManager → StorageManager
with_table crc32 es s = record {
  directory = (s.next_sstable_id, file_of crc32 es) ∷ s.directory;
  sstables = reader_of crc32 es ∷ s.sstables;
  next_sstable_id = (s.next_sstable_id + 1) % 2 ^ 64;
}

install_opened :
    (s : StorageManager) (id : ℕ) (left : List ℕ) (metadata : Metadata) (file : List ℕ)
    (reader : SsTableReader)
    → open_table file ≡ ok reader
    → install s (ok (file, metadata)) id left ≡ (
      ok metadata,
      record s { directory = (id, file) ∷ s.directory; sstables = reader ∷ s.sstables },
    )
unfolding install
install_opened s id left metadata file reader opened = rw (opened, install)

module _ (crc32 : List ℕ → ℕ) (m : MemTable) (can : CanHold m.table) where
  file_eq : finished_file crc32 (add_entries fresh m.table) ≡ file_of crc32 m.table
  file_eq = finished_file-add_entries crc32 m.table can.offsets can.count

  metadata_of : Metadata
  metadata_of = record {
    entry_count = (add_entries fresh m.table).entry_count;
    min_key = Option.get_or (add_entries fresh m.table).min_key [];
    max_key = Option.get_or (add_entries fresh m.table).max_key [];
    file_size = length (finished_file crc32 (add_entries fresh m.table));
  }

  install_ok :
      (s : StorageManager) (id : ℕ) (left : List ℕ) (metadata : Metadata)
      → install s (ok (finished_file crc32 (add_entries fresh m.table), metadata)) id left ≡ (
        ok metadata,
        record s {
          directory = (id, file_of crc32 m.table) ∷ s.directory;
          sstables = reader_of crc32 m.table ∷ s.sstables;
        },
      )
  install_ok s id left metadata =
      ap (λ file. install s (ok (file, metadata)) id left) file_eq
      ∙ install_opened s id left metadata (file_of crc32 m.table) (reader_of crc32 m.table)
          (open_table-file_of crc32 m.table can)

  -- A flush of a memtable that is not empty and that the format can hold, where the system calls
  -- succeed, succeeds: a new file with the next id and its reader come first, and the next id is
  -- counted up.
  pub flush_lem :
      (env : StorageEnv) (s : StorageManager)
      → MemTable.is_empty m ≡ false
      → env.create ≡ none
      → env.finish ≡ none
      → (metadata : Metadata) × (flush env crc32 m s ≡ (ok metadata, with_table crc32 m.table s))
  unfolding flush build Builder.new Builder.finish MemTable.iter metadata_of
  flush_lem env s full create finish = (
    metadata_of,
    simp (full, create, finish)
        (install_ok (record s { next_sstable_id = (s.next_sstable_id + 1) % 2 ^ 64 })
          s.next_sstable_id env.left metadata_of),
  )

-- A flush that fails leaves the readers as they were.
pub flush-err :
    (env : StorageEnv) (crc32 : List ℕ → ℕ) (m : MemTable) (s : StorageManager) (x : AtlasError)
    → (flush env crc32 m s).0 ≡ err x
    → (flush env crc32 m s).1.sstables ≡ s.sstables
unfolding flush build install
flush-err env crc32 m s x fails = ground arith

-- A flush uses up one id at most.
pub flush-next_sstable_id :
    (env : StorageEnv) (crc32 : List ℕ → ℕ) (m : MemTable) (s : StorageManager)
    → (flush env crc32 m s).1.next_sstable_id ≤ s.next_sstable_id + 1
unfolding flush build install
flush-next_sstable_id env crc32 m s = ground arith

pub flush-needs :
    (env : StorageEnv) (crc32 : List ℕ → ℕ) (m : MemTable) (s : StorageManager)
    (metadata : Metadata)
    → (flush env crc32 m s).0 ≡ ok metadata
    → (MemTable.is_empty m ≡ false) × (env.create ≡ none) × (env.finish ≡ none)
unfolding flush build Builder.new Builder.finish
flush-needs env crc32 m s metadata done = (ground arith, ground arith, ground arith)

-- A flush of a memtable that the format can hold fails, or succeeds with the new table.
pub flush-cases :
    (env : StorageEnv) (crc32 : List ℕ → ℕ) (m : MemTable) (s : StorageManager)
    → CanHold m.table
    → ((x : AtlasError) × ((flush env crc32 m s).0 ≡ err x))
      ⊎ ((metadata : Metadata) × (flush env crc32 m s ≡ (ok metadata, with_table crc32 m.table s)))
flush-cases env crc32 m s can = elim (Result-cases (flush env crc32 m s).0) [
  | inr (x, fails) ↦ inl (x, fails)
  | inl (metadata, done) ↦
      let (full, create, finish) = flush-needs env crc32 m s metadata done in
      inr (flush_lem crc32 m can env s full create finish)
]
