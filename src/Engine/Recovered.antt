-- ===== src/Engine/Recovered.antt =====
-- What `Engine::open` (src/engine.rs) shows behind a crash, under `WalSyncStrategy::EveryWrite`.
use atlas_kv.Base.{
  Bool, Bool-cases, List, Option-cases, [], ap, arith, inl, inr, none, refl, some, subst, sym, ℕ,
  ◌∙◌, ◌≡◌,
}
use atlas_kv.Error.{ok}
use atlas_kv.MemTable
use atlas_kv.MemTable.{MemTable, MemTableEntry}
use atlas_kv.Sstable.Opened.{CanHold}
use atlas_kv.Storage.{StorageEnv}
use atlas_kv.Wal.Entry.{WalEntry, Libraries, IsLawful}
use atlas_kv.Wal.Writer.{on_disk, after_crash}
use atlas_kv.Wal.Replay.{entries_of, recover-log, count_entries}
use atlas_kv.Engine.{Engine, replay}
use atlas_kv.Engine.{get}
use atlas_kv.Wal.Recovery.{start}
use atlas_kv.Storage.Reopen.{Tables, Stored, contents_of, open_storage-Stored}
use atlas_kv.Storage.Reads.{visible}
use atlas_kv.Engine.View.{entry_of, Contents, Shows, get-Shows}
use atlas_kv.Engine.Recoverable.{Recoverable, Repeats, on_disk-Holds, memory-agrees}
use atlas_kv.Storage.{Directory}
use atlas_kv.Storage.Listing.{Lists}
use atlas_kv.BTreeMap.{BTreeMap}
use atlas_kv.BTreeMap
use atlas_kv.Engine.Restart.{open_engine-Shows, after_log, stored, replay-Shows, fresh-Shows}
use atlas_kv.Engine.Open.{open_engine, started}

module _ (libs : Libraries) where
  pub ok_injective : {A : Type 0} (a b : A) → ok a ≡ ok b → a ≡ b
  ok_injective a b h = ground arith

  pub Shows-ext :
      (e : Engine) (f g : Contents)
      → ((key : List ℕ) → f key ≡ g key)
      → Shows libs e f
      → Shows libs e g
  Shows-ext e f g same shows = record {
    tables = shows.tables;
    serves = shows.serves;
    entries = λ key. shows.entries key ∙ same key;
  }

  get-same_memory :
      (e e' : Engine) (key : List ℕ)
      → e.memtable ≡ e'.memtable
      → e.storage ≡ e'.storage
      → get libs e key ≡ get libs e' key
  unfolding get
  get-same_memory e e' key memory storage_eq = rw (memory, storage_eq)

  -- What an engine shows is what its tables have, and behind it what its log has.
  pub after_log-memory :
      (e : Engine) (f : Contents) (shows : Shows libs e f) (entries : List WalEntry)
      → e.memtable ≡ replay entries MemTable.new
      → (key : List ℕ) → after_log entries (stored shows.tables) key ≡ f key
  after_log-memory e f shows entries memory key =
      let fresh = started [] e.config MemTable.new e.storage in
      let e1 = record fresh { memtable = replay entries MemTable.new } in
      let shows1 =
        replay-Shows libs entries fresh (stored shows.tables)
          (fresh-Shows libs [] e.config e.storage shows.tables shows.serves) in
      ok_injective (after_log entries (stored shows.tables) key) (f key) (
        sym (get-Shows libs e1 (after_log entries (stored shows.tables)) key shows1)
        ∙ get-same_memory e1 e key (sym memory) refl
        ∙ get-Shows libs e f key shows)

  pub Stored-Shows :
      (e : Engine) (f : Contents) (ts : Tables)
      → Stored libs.crc32 e.storage ts
      → Shows libs e f
      → (shows : Shows libs e f) × (shows.tables ≡ contents_of ts)
  Stored-Shows e f ts stored shows =
      let g : Contents = λ key. visible (entry_of e.memtable (contents_of ts) key) in
      let shows' : Shows libs e g = record {
        tables = contents_of ts;
        serves = stored.serves;
        entries = λ key. refl;
      } in
      (
        record {
          tables = contents_of ts;
          serves = stored.serves;
          entries = λ key.
              ok_injective (g key) (f key)
                (sym (get-Shows libs e g key shows') ∙ get-Shows libs e f key shows);
        },
        refl,
      )

  empty-stored :
      (e : Engine) (f : Contents) (shows : Shows libs e f) (key : List ℕ)
      → e.memtable ≡ MemTable.new
      → stored shows.tables key ≡ f key
  unfolding MemTable.get BTreeMap.get
  empty-stored e f shows key empty = rw empty at (shows.entries key)

  -- A log that repeats the contents changes nothing.
  Repeats-stored :
      (e : Engine) (log : List ℕ) (f : Contents) (shows : Shows libs e f) (r : Repeats libs log f)
      → e.memtable ≡ MemTable.new
      → (key : List ℕ) → after_log (entries_of r.entries) (stored shows.tables) key ≡ f key
  Repeats-stored e log f shows r empty key =
      let m = replay (entries_of r.entries) MemTable.new in
      let g : Contents = λ j. visible (entry_of m shows.tables j) in
      let e1 = record e { memtable = m } in
      let shows1 : Shows libs e1 g = record {
        tables = shows.tables;
        serves = record { readers = shows.serves.readers; hold = shows.serves.hold };
        entries = λ j. refl;
      } in
      after_log-memory e1 g shows1 (entries_of r.entries) refl key
      ∙ elim (Option-cases (MemTable.get m key)) [
        | inl missing ↦ rw missing (empty-stored e f shows key empty)
        | inr (entry, there) ↦ rw there (r.agrees key entry there)
      ]

  -- A log that repeats the contents, and gives them when it is replayed over the tables.
  abbrev pub Gives : List (BTreeMap MemTableEntry) → Contents → List ℕ → Type 0
  Gives tables f log =
      (r : Repeats libs log f) × ((key : List ℕ)
        → after_log (entries_of r.entries) (stored tables) key ≡ f key)

  -- So does what the disk has of the log after a crash.
  pub Recoverable-Gives :
      (late : Bool) (e : Engine) (f : Contents) (shows : Shows libs e f)
      → CanHold e.memtable.table
      → Recoverable libs e f
      → Gives shows.tables f (after_crash late e.wal.file)
  unfolding after_crash
  Recoverable-Gives late e f shows can r =
      let here : Gives shows.tables f (on_disk e.wal.file) = (
        record {
          entries = r.entries;
          written = r.holds.written;
          bytes = on_disk-Holds libs e.wal r.entries r.holds;
          fits = subst (λ m. CanHold m.table) r.memory can;
          agrees = λ key entry there.
              memory-agrees libs e f key entry shows
                (ap (λ m. MemTable.get m key) r.memory ∙ there);
        },
        after_log-memory e f shows (entries_of r.entries) r.memory,
      ) in
      elim (Bool-cases late) [
        | inr done ↦ rw done here
        | inl lost ↦ elim (Option-cases e.wal.file.stale) [
          | inl settled ↦ rw (lost, settled) here
          | inr (old, there) ↦
              let (empty, repeats) = r.stale old there in
              rw (lost, there) (repeats, Repeats-stored e old f shows repeats empty)
        ]
      ]

  -- With libraries that keep their promises, an engine under WalSyncStrategy::EveryWrite whose log
  -- is true to it, with its tables on disk and a memtable that the format can hold, is lost in a
  -- crash and opened again on its directory, listed in any order, and on what the disk has of its
  -- log, whether or not the last truncation of it is lost, where the system calls succeed: the open
  -- succeeds, and each key reads as before the crash.
  pub open_engine-Recoverable :
      IsLawful libs
      → (late : Bool) (directory : Directory) (env : StorageEnv) (e : Engine) (f : Contents)
        (ts : Tables)
      → Shows libs e f
      → Recoverable libs e f
      → Stored libs.crc32 e.storage ts
      → Lists e.storage.directory directory
      → CanHold e.memtable.table
      → env.create ≡ none
      → env.finish ≡ none
      → (e' : Engine) × (open_engine libs env e.config directory
            (some (after_crash late e.wal.file))
          ≡ some (ok e'))
        × Shows libs e' f
  open_engine-Recoverable lawful late directory env e f ts shows recoverable stored_ts listed can
        create finish =
      let (shows', same) = Stored-Shows e f ts stored_ts shows in
      let (s, opened, serves) =
        open_storage-Stored libs.crc32 e.storage ts directory stored_ts listed in
      let (r, gives) = Recoverable-Gives late e f shows' can recoverable in
      let entries = entries_of r.entries in
      let (e', start_eq, empty, found) =
        open_engine-Shows libs env e.config directory s shows'.tables (after_crash late e.wal.file)
          entries (count_entries r.entries start) opened (rw same serves)
          (rw r.bytes (recover-log libs lawful r.entries r.written)) r.fits create finish in
      (e', start_eq, Shows-ext e' (after_log entries (stored shows'.tables)) f gives found)
