-- ===== src/Engine/View.antt =====
-- What a client of the engine (src/engine.rs) sees: a map from keys to values, kept by a flush and
-- changed at one key by `put` and `delete`.
use atlas_kv.Base.{
  Bool-cases, List, Option, ap, arith, false, if◌then◌else◌, inl, inr, leb, refl, some, ℕ, ◌∙◌, ◌∷◌,
  ◌≡◌,
}
use atlas_kv.BTreeMap
use atlas_kv.BTreeMap.{BTreeMap, same_key}
use atlas_kv.Error.{AtlasError, ok, err}
use atlas_kv.MemTable
use atlas_kv.MemTable.{MemTable, MemTableEntry, value, tombstone}
use atlas_kv.Storage
use atlas_kv.Storage.{StorageManager, StorageEnv}
use atlas_kv.Storage.Reads.{Serves, newest_entry, or_older, visible, get-newest_entry}
use atlas_kv.Storage.Flush.{flush-cases, flush-err, with_table}
use atlas_kv.Sstable.Opened.{CanHold, reader_of}
use atlas_kv.Sstable.Format.{Metadata}
use atlas_kv.Wal.Entry.{Libraries}
use atlas_kv.Engine.{Engine, Env, get, after_table, flush_internal, flush, flush_if_full}

-- The entry that a key has in memory, else in the newest table that has it.
abbrev pub entry_of : MemTable → List (BTreeMap MemTableEntry) → List ℕ → Option MemTableEntry
entry_of m tables key = or_older (MemTable.get m key) (newest_entry tables key)

-- The contents that a client sees.
abbrev pub Contents : Type 0
Contents = List ℕ → Option (List ℕ)

abbrev pub update : List ℕ → Option (List ℕ) → Contents → Contents
update key answer f j = if same_key key j then answer else f j

-- An engine whose readers are those of some tables that fit the format, and whose entries are these
-- contents.
pub record Shows (libs : Libraries) (e : Engine) (f : Contents) : Type 0 where
  pub tables : List (BTreeMap MemTableEntry)
  pub serves : Serves libs.crc32 e.storage tables
  pub entries : (key : List ℕ) → visible (entry_of e.memtable tables key) ≡ f key

module _ (libs : Libraries) where
  -- `get` answers what the contents say, and never fails.
  pub get-Shows :
      (e : Engine) (f : Contents) (key : List ℕ) → Shows libs e f → get libs e key ≡ ok (f key)
  unfolding get
  get-Shows e f key shows = ground (
    arith,
    get-newest_entry libs.crc32 e.storage shows.tables key shows.serves,
    shows.entries key,
  )

  -- The contents depend on the readers and on the memtable only.
  pub same_readers-Shows :
      (e e' : Engine) (f : Contents)
      → e'.storage.sstables ≡ e.storage.sstables
      → e'.memtable ≡ e.memtable
      → Shows libs e f
      → Shows libs e' f
  same_readers-Shows e e' f readers memory shows = record {
    tables = shows.tables;
    serves = record { readers = readers ∙ shows.serves.readers; hold = shows.serves.hold };
    entries = λ key. ap (λ m. visible (entry_of m shows.tables key)) memory ∙ shows.entries key;
  }

  pub write-Shows :
      (e : Engine) (f : Contents) (m : MemTable) (key : List ℕ) (entry : MemTableEntry)
      → ((j : List ℕ)
          → MemTable.get m j ≡ (if same_key key j then some entry else MemTable.get e.memtable j))
      → Shows libs e f
      → Shows libs (record e { memtable = m }) (update key (visible (some entry)) f)
  write-Shows e f m key entry written shows = record {
    tables = shows.tables;
    serves = shows.serves;
    entries = λ j. elim (Bool-cases (same_key key j)) [
      | inl same ↦ rw (written j, same)
      | inr other ↦ rw (written j, other) (shows.entries j)
    ];
  }

  -- The memtable became the newest table, and was cleared.
  pub moved-Shows :
      (e e' : Engine) (f : Contents)
      → CanHold e.memtable.table
      → e'.storage.sstables ≡ (with_table libs.crc32 e.memtable.table e.storage).sstables
      → e'.memtable ≡ MemTable.clear e.memtable
      → Shows libs e f
      → Shows libs e' f
  moved-Shows e e' f can readers memory shows = record {
    tables = e.memtable.table ∷ shows.tables;
    serves = record {
      readers =
          readers ∙ ap (λ rs. reader_of libs.crc32 e.memtable.table ∷ rs) shows.serves.readers;
      hold = (can, shows.serves.hold);
    };
    entries = λ key.
        ap (λ m. visible (entry_of m (e.memtable.table ∷ shows.tables) key)) memory
        ∙ (unfold MemTable.get MemTable.clear BTreeMap.get in shows.entries key);
  }

  failed_flush :
      (env : Env) (e : Engine) (x : AtlasError)
      → (Storage.flush env.flushing libs.crc32 e.memtable e.storage).0 ≡ err x
      → ((flush_internal libs env e).1.storage.sstables ≡ e.storage.sstables)
        × ((flush_internal libs env e).1.memtable ≡ e.memtable)
  unfolding flush_internal
  failed_flush env e x fails =
      let same = flush-err env.flushing libs.crc32 e.memtable e.storage x fails in
      (ground (arith, fails, same), ground (arith, fails, same))

  pub after_table_state :
      (env : Env) (e : Engine)
      → ((after_table libs env e).1.storage ≡ e.storage)
        × ((after_table libs env e).1.memtable ≡ MemTable.clear e.memtable)
  unfolding after_table
  after_table_state env e = elim (Bool-cases e.wal_poisoned) [
    | inl bad ↦ rw bad (refl, refl)
    | inr good ↦ rw good (refl, refl)
  ]

  done_flush :
      (env : Env) (e : Engine) (metadata : Metadata)
      → Storage.flush env.flushing libs.crc32 e.memtable e.storage
        ≡ (ok metadata, with_table libs.crc32 e.memtable.table e.storage)
      → MemTable.is_empty e.memtable ≡ false
      → ((flush_internal libs env e).1.storage.sstables
          ≡ (with_table libs.crc32 e.memtable.table e.storage).sstables)
        × ((flush_internal libs env e).1.memtable ≡ MemTable.clear e.memtable)
  unfolding flush_internal
  done_flush env e metadata done full =
      rw (full, done)
        (let (storage_eq, memory) = after_table_state env (record e {
          storage = (Storage.flush env.flushing libs.crc32 e.memtable e.storage).1;
        }) in
          (ap (λ s. s.sstables) storage_eq ∙ ap (λ r. r.1.sstables) done, memory))

  -- A flush of a memtable that the format can hold changes no key, whichever step of it fails.
  pub flush_internal-Shows :
      (env : Env) (e : Engine) (f : Contents)
      → CanHold e.memtable.table
      → Shows libs e f
      → Shows libs (flush_internal libs env e).1 f
  flush_internal-Shows env e f can shows = elim (Bool-cases (MemTable.is_empty e.memtable)) [
    | inl empty ↦ unfold flush_internal in rw empty shows
    | inr full ↦ elim (flush-cases env.flushing libs.crc32 e.memtable e.storage can) [
      | inl (x, fails) ↦
          let (readers, memory) = failed_flush env e x fails in
          same_readers-Shows e (flush_internal libs env e).1 f readers memory shows
      | inr (metadata, done) ↦
          let (readers, memory) = done_flush env e metadata done full in
          moved-Shows e (flush_internal libs env e).1 f can readers memory shows
    ]
  ]

  -- A flush of a memtable that the format can hold, on any outcome of its system calls and locks,
  -- changes no key.
  pub flush-Shows :
      (env : Env) (e : Engine) (f : Contents)
      → CanHold e.memtable.table
      → Shows libs e f
      → Shows libs (flush libs env e).1 f
  unfolding flush
  flush-Shows env e f can shows = elim (Bool-cases e.write_poisoned) [
    | inl bad ↦ simp bad shows
    | inr good ↦ simp good (flush_internal-Shows env e f can shows)
  ]

  pub flush_if_full-Shows :
      (env : Env) (size : ℕ) (e : Engine) (f : Contents)
      → CanHold e.memtable.table
      → Shows libs e f
      → Shows libs (flush_if_full libs env size e).1 f
  unfolding flush_if_full
  flush_if_full-Shows env size e f can shows =
      elim (Bool-cases (leb e.config.memtable_size_limit size)) [
        | inl full ↦ simp full (flush_internal-Shows env e f can shows)
        | inr room ↦ simp room shows
      ]
