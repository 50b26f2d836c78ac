-- ===== src/Engine/Restart.antt =====
-- What `Engine::open` (src/engine.rs) shows after a crash: what the tables have, and behind it what
-- the log has.
use atlas_kv.Base.{
  All, Bool-cases, IsU32, List, [], ap, inl, inr, length, none, refl, some, take, true, ℕ, ◌++◌,
  ◌<◌, ◌∷◌, ◌≡◌,
}
use atlas_kv.Error.{Result, ok}
use atlas_kv.BTreeMap.{BTreeMap}
use atlas_kv.BTreeMap
use atlas_kv.MemTable
use atlas_kv.MemTable.{MemTable, MemTableEntry, value, tombstone}
use atlas_kv.MemTable.Contents.{get-put, get-delete}
use atlas_kv.Sstable.Format.{Metadata}
use atlas_kv.Sstable.Opened.{CanHold}
use atlas_kv.Storage.{StorageManager, StorageEnv, Directory, open_storage}
use atlas_kv.Storage.Reads.{Serves, newest_entry, visible}
use atlas_kv.Storage.Flush.{flush_lem, with_table}
use atlas_kv.Wal.Entry.{WalEntry, Operation, Libraries, IsLawful, layout}
use atlas_kv.Wal.Recovery.{RecoveryResult, recover}
use atlas_kv.Wal.Frames
use atlas_kv.Wal.Replay.{log_bytes, entries_of, recover-log_torn}
use atlas_kv.Config.{Config}
use atlas_kv.Engine.{Engine, replay, replay_entry}
use atlas_kv.Engine.View.{Contents, Shows, update, write-Shows, moved-Shows}
use atlas_kv.Engine.Open.{started, recovered, after_recovery, with_storage, open_engine}

-- The contents after the operations of a log.
abbrev pub logged_effect : Operation → Contents → Contents
logged_effect (Operation.put key v) f = update key (some v) f
logged_effect (Operation.delete key) f = update key none f

abbrev pub after_log : List WalEntry → Contents → Contents
after_log [] f = f
after_log (entry ∷ entries) f = after_log entries (logged_effect entry.operation f)

-- What the tables have.
abbrev pub stored : List (BTreeMap MemTableEntry) → Contents
stored tables key = visible (newest_entry tables key)

module _ (libs : Libraries) where
  pub replay_entry-Shows :
      (operation : Operation) (e : Engine) (f : Contents)
      → Shows libs e f
      → Shows libs
          (record e { memtable = replay_entry operation e.memtable })
          (logged_effect operation f)
  unfolding replay_entry
  replay_entry-Shows (Operation.put key v) e f shows =
      write-Shows libs e f (MemTable.put e.memtable key v).0 key (value v)
        (λ j. get-put e.memtable key v j) shows
  replay_entry-Shows (Operation.delete key) e f shows =
      write-Shows libs e f (MemTable.delete e.memtable key).0 key tombstone
        (λ j. get-delete e.memtable key j) shows

  pub replay-Shows :
      (entries : List WalEntry) (e : Engine) (f : Contents)
      → Shows libs e f
      → Shows libs (record e { memtable = replay entries e.memtable }) (after_log entries f)
  unfolding replay
  replay-Shows [] e f shows = shows
  replay-Shows (entry ∷ entries) e f shows =
      replay-Shows entries (record e { memtable = replay_entry entry.operation e.memtable })
        (logged_effect entry.operation f) (replay_entry-Shows entry.operation e f shows)

  pub fresh-Shows :
      (log : List ℕ) (config : Config) (s : StorageManager) (tables : List (BTreeMap MemTableEntry))
      → Serves libs.crc32 s tables
      → Shows libs (started log config MemTable.new s) (stored tables)
  fresh-Shows log config s tables serves = record {
    tables = tables;
    serves = serves;
    entries = λ key. unfold MemTable.get BTreeMap.get in refl;
  }

  -- The replayed entries were flushed, or there were none.
  recovered-Shows :
      (env : StorageEnv) (log : List ℕ) (config : Config) (s : StorageManager)
      (tables : List (BTreeMap MemTableEntry)) (entries : List WalEntry)
      → Serves libs.crc32 s tables
      → CanHold (replay entries MemTable.new).table
      → env.create ≡ none
      → env.finish ≡ none
      → (e : Engine) × (recovered libs env log config s entries ≡ ok e)
        × (MemTable.is_empty e.memtable ≡ true)
        × Shows libs e (after_log entries (stored tables))
  recovered-Shows env log config s tables entries serves can create finish =
      let m = replay entries MemTable.new in
      let shows =
        replay-Shows entries (started log config MemTable.new s) (stored tables)
          (fresh-Shows log config s tables serves) in
      elim (Bool-cases (MemTable.is_empty m)) [
        | inl empty ↦ (started log config m s, unfold recovered in rw empty, empty, shows)
        | inr full ↦
            let (metadata, flushed) = flush_lem libs.crc32 m can env s full create finish in
            (
              started log config (MemTable.clear m) (with_table libs.crc32 m.table s),
              unfold recovered in
                  rw (full, flushed)
                    (ap
                      (λ (r : Result Metadata × StorageManager).
                        ok (started log config (MemTable.clear m) r.1))
                      flushed),
              unfold MemTable.is_empty MemTable.clear in refl,
              moved-Shows libs (started log config m s)
                  (started log config (MemTable.clear m) (with_table libs.crc32 m.table s))
                  (after_log entries (stored tables)) can refl refl shows,
            )
      ]

  -- An open, on a directory whose tables fit the format and a log from which some entries are
  -- recovered, where the system calls succeed and the format can hold the recovered entries:
  -- succeeds with an empty memtable, and shows what the tables have and behind it, in order, what
  -- the entries did.
  pub open_engine-Shows :
      (env : StorageEnv) (config : Config) (directory : Directory) (s : StorageManager)
      (tables : List (BTreeMap MemTableEntry)) (log : List ℕ) (entries : List WalEntry)
      (r : RecoveryResult)
      → open_storage directory ≡ ok s
      → Serves libs.crc32 s tables
      → recover libs log ≡ some (ok (entries, r))
      → CanHold (replay entries MemTable.new).table
      → env.create ≡ none
      → env.finish ≡ none
      → (e : Engine) × (open_engine libs env config directory (some log) ≡ some (ok e))
        × (MemTable.is_empty e.memtable ≡ true)
        × Shows libs e (after_log entries (stored tables))
  open_engine-Shows env config directory s tables log entries r opened serves replayed can create
        finish =
      let (e, started_eq, empty, shows) =
        recovered-Shows env log config s tables entries serves can create finish in
      (
        e,
        unfold open_engine with_storage after_recovery in
            rw (opened, replayed) (ap some started_eq),
        empty,
        shows,
      )

  -- With libraries that keep their promises, after a crash in the middle of an append, on a
  -- directory that opens to tables that fit the format, with a log of whole entries and a part of
  -- one more, an open where the system calls succeed and the format can hold the replayed entries
  -- shows exactly what the tables and the whole entries have.
  pub open_engine_torn :
      (lawful : IsLawful libs) (env : StorageEnv) (config : Config) (directory : Directory)
      (s : StorageManager) (tables : List (BTreeMap MemTableEntry)) (es : List (WalEntry × List ℕ))
      (lsn n : ℕ) (bytes : List ℕ)
      → open_storage directory ≡ ok s
      → Serves libs.crc32 s tables
      → All (Frames.Written libs) es
      → IsU32 (length bytes)
      → 0 < n
      → n < length (layout libs lsn bytes)
      → CanHold (replay (entries_of es) MemTable.new).table
      → env.create ≡ none
      → env.finish ≡ none
      → (e : Engine) × (open_engine libs env config directory
            (some (log_bytes libs es ++ take n (layout libs lsn bytes)))
          ≡ some (ok e))
        × (MemTable.is_empty e.memtable ≡ true)
        × Shows libs e (after_log (entries_of es) (stored tables))
  open_engine_torn lawful env config directory s tables es lsn n bytes opened serves written u32 pos
        short can create finish =
      open_engine-Shows env config directory s tables _ (entries_of es) _ opened serves
        (recover-log_torn libs lawful es lsn n bytes written u32 pos short) can create finish
