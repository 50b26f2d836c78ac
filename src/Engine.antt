-- ===== src/Engine.antt =====
-- src/engine.rs: the write-ahead log, the memtable and the storage put together. A lock is the flag
-- that says whether a panic has poisoned it; writers hold `write_lock` from their first step to
-- their last, so a method is one step on the engine's state.
pub mod View
pub mod Writes
pub mod Commands
pub mod Open
pub mod Opening
pub mod Restart
pub mod Recoverable
pub mod Crash
pub mod Recovered
pub mod Kept
pub mod Unchanged
pub mod Replayed
pub mod Reopened
pub mod History
pub mod Errors
pub mod Calm
pub mod Sizes
pub mod Run
pub mod Narrow
pub mod Life
pub mod Behind
pub mod Loss
pub mod Found
pub mod Survivors
pub mod Closed
pub mod Blocked
use atlas_kv.Base.{Bool, List, Option, [], if◌then◌else◌, leb, none, some, ℕ, ◌∷◌}
use atlas_kv.Error.{Result, ok, err, lock_poisoned, write_lock, wal_lock}
use atlas_kv.Exec.{Exec, ◌>>=◌ as bind, ◌>>◌ as after}
use atlas_kv.MemTable
use atlas_kv.MemTable.{MemTable, MemTableEntry, value, tombstone}
use atlas_kv.Protocol.Command.{Command}
use atlas_kv.Storage
use atlas_kv.Storage.{StorageManager, StorageEnv, Directory, open_storage}
use atlas_kv.Wal.Entry.{Operation, WalEntry, Libraries}
use atlas_kv.Config.{Config}
use atlas_kv.Wal.Writer.{WalWriter, WalEnv, append, truncate, sync}

pub record Engine : Type 0 where
  pub config : Config
  pub wal : WalWriter
  pub memtable : MemTable
  pub storage : StorageManager
  pub write_poisoned : Bool
  pub wal_poisoned : Bool

-- The clock and the outcomes of the system calls of one method call.
pub record Env : Type 0 where
  pub appending : WalEnv
  pub truncating : WalEnv
  pub flushing : StorageEnv

-- b"PONG"
abbrev pub pong : List ℕ
pong = 80 ∷ 79 ∷ 78 ∷ 71 ∷ []

abbrev pub no_value : Result (Unit {0}) × Engine → Result (Option (List ℕ)) × Engine
no_value (ok u, e) = (ok none, e)
no_value (err x, e) = (err x, e)

-- The replay of `open`.
unfoldable pub replay_entry : Operation → MemTable → MemTable
replay_entry (Operation.put key v) m = (MemTable.put m key v).0
replay_entry (Operation.delete key) m = (MemTable.delete m key).0

unfoldable pub replay : List WalEntry → MemTable → MemTable
unfolding replay_entry
replay [] m = m
replay (entry ∷ entries) m = replay entries (replay_entry entry.operation m)

module _ (libs : Libraries) where
  unfoldable pub get : Engine → List ℕ → Result (Option (List ℕ))
  get e key = elim (MemTable.get e.memtable key) [
    | some (value v) ↦ ok (some v)
    | some tombstone ↦ ok none
    | none ↦ Storage.get e.storage key
  ]

  -- Steps 2 and 3 of `flush_internal`, behind the new table.
  unfoldable pub after_table : Env → Engine → Result (Unit {0}) × Engine
  after_table env e =
      let e' = record e { memtable = MemTable.clear e.memtable } in
      if e.wal_poisoned
      then (err (lock_poisoned wal_lock), e')
      else let (r, w) = truncate env.truncating e.wal in (r, record e' { wal = w })

  unfoldable pub flush_internal : Env → Exec Engine (Unit {0})
  unfolding after_table
  flush_internal env e =
      if MemTable.is_empty e.memtable
      then (ok tt, e)
      else let (r, s) = Storage.flush env.flushing libs.crc32 e.memtable e.storage in
        let e' = record e { storage = s } in
        elim r [ ok metadata ↦ after_table env e' | err x ↦ (err x, e') ]

  unfoldable pub flush : Env → Exec Engine (Unit {0})
  flush env e =
      if e.write_poisoned then (err (lock_poisoned write_lock), e) else flush_internal env e

  -- Step 3 of `put` and `delete`, with the size that the memtable returned.
  unfoldable pub flush_if_full : Env → ℕ → Exec Engine (Unit {0})
  flush_if_full env new_size e =
      if leb e.config.memtable_size_limit new_size then flush_internal env e else (ok tt, e)

  -- Step 1: the locks, and the entry in the log.
  unfoldable pub log_operation : Env → Operation → Exec Engine ℕ
  log_operation env operation e =
      if e.write_poisoned
      then (err (lock_poisoned write_lock), e)
      else if e.wal_poisoned
      then (err (lock_poisoned wal_lock), e)
      else let (r, w) = append libs env.appending operation e.wal in (r, record e { wal = w })

  unfoldable pub put : Env → List ℕ → List ℕ → Exec Engine (Unit {0})
  put env key v e =
      let (r, e') = log_operation env (Operation.put key v) e in
      elim r [
        | err x ↦ (err x, e')
        | ok lsn ↦
            let (m, new_size) = MemTable.put e'.memtable key v in
            flush_if_full env new_size (record e' { memtable = m })
      ]

  unfoldable pub delete : Env → List ℕ → Exec Engine (Unit {0})
  delete env key e =
      let (r, e') = log_operation env (Operation.delete key) e in
      elim r [
        | err x ↦ (err x, e')
        | ok lsn ↦
            let (m, new_size) = MemTable.delete e'.memtable key in
            flush_if_full env new_size (record e' { memtable = m })
      ]

  unfoldable pub execute : Env → Command → Exec Engine (Option (List ℕ))
  execute env (Command.get key) e = (get e key, e)
  execute env (Command.put key v) e = no_value (put env key v e)
  execute env (Command.delete key) e = no_value (delete env key e)
  execute env Command.ping e = (ok (some pong), e)

  -- The end of `close`: the log is synced, unless the flush failed.
  unfoldable pub sync_log : Env → Result (Unit {0}) × Engine → Result (Unit {0}) × Engine
  sync_log env (err x, e) = (err x, e)
  sync_log env (ok u, e) =
      if e.wal_poisoned
      then (err (lock_poisoned wal_lock), e)
      else let (r, w) = sync env.appending e.wal in (r, record e { wal = w })

  unfoldable pub close : Env → Exec Engine (Unit {0})
  unfolding sync_log
  close env e = sync_log env (if MemTable.is_empty e.memtable then (ok tt, e) else flush env e)
