-- ===== src/Engine/Calm.antt =====
-- `Engine::execute` (src/engine.rs) where nothing outside the engine fails: the system calls, the
-- locks and the serialisation of a log entry.
use atlas_kv.Base.{Bool-cases, List, Option, false, inl, inr, leb, none, refl, some, ℕ, ◌≡◌}
use atlas_kv.Error.{ok, Result}
use atlas_kv.MemTable
use atlas_kv.MemTable.{MemTable}
use atlas_kv.Protocol.Command.{Command}
use atlas_kv.Storage.Flush.{flush_lem}
use atlas_kv.Sstable.Opened.{CanHold}
use atlas_kv.Wal.Calm
use atlas_kv.Wal.Calm.{truncate-ok, append-ok}
use atlas_kv.Wal.Entry.{Operation, WalEntry, Libraries, new_entry}
use atlas_kv.Engine.{
  Engine, Env, after_table, flush_internal, flush_if_full, log_operation, put, delete, execute,
  no_value, err,
}
use atlas_kv.Engine.View.{Contents, Shows, get-Shows}
use atlas_kv.Engine.Writes.{put_logged, delete_logged, log_operation_state}
use atlas_kv.Engine.Commands.{Fits, answer}

-- No system call of the method fails.
pub record IsCalm (env : Env) : Type 0 where
  pub appending : Calm.IsCalm env.appending
  pub truncating : Calm.IsCalm env.truncating
  pub create : env.flushing.create ≡ none
  pub finish : env.flushing.finish ≡ none

-- No lock is poisoned.
pub record IsUnlocked (e : Engine) : Type 0 where
  pub writes : e.write_poisoned ≡ false
  pub log : e.wal_poisoned ≡ false

-- The serialisation of an entry succeeds, as it does without a size limit.
abbrev pub Serializes : Libraries → Type 0
Serializes libs =
    (entry : WalEntry) → (payload : List ℕ) × (libs.bincode_serialize entry ≡ some payload)

-- A step that succeeded, and poisoned no lock.
pub record Succeeds {A : Type 0} (a : A) (r : Result A × Engine) : Type 0 where
  pub done : r.0 ≡ ok a
  pub unlocked : IsUnlocked r.1

module _ (libs : Libraries) (serializes : Serializes libs) (env : Env) (is_calm : IsCalm env) where
  after_table-Succeeds : (e : Engine) → IsUnlocked e → Succeeds tt (after_table libs env e)
  unfolding after_table
  after_table-Succeeds e unlocked = rw (unlocked.log) (record {
    done = truncate-ok env.truncating is_calm.truncating e.wal;
    unlocked = record { writes = unlocked.writes; log = refl };
  })

  pub flush_internal-Succeeds :
      (e : Engine)
      → CanHold e.memtable.table
      → IsUnlocked e
      → Succeeds tt (flush_internal libs env e)
  unfolding flush_internal
  flush_internal-Succeeds e can unlocked = elim (Bool-cases (MemTable.is_empty e.memtable)) [
    | inl empty ↦ rw empty (record { done = refl; unlocked = unlocked })
    | inr full ↦
        let (metadata, stored) =
          flush_lem libs.crc32 e.memtable can env.flushing e.storage full is_calm.create
            is_calm.finish in
        rw (full, stored)
          (after_table-Succeeds _ (record { writes = unlocked.writes; log = unlocked.log }))
  ]

  flush_if_full-Succeeds :
      (size : ℕ) (e : Engine)
      → CanHold e.memtable.table
      → IsUnlocked e
      → Succeeds tt (flush_if_full libs env size e)
  unfolding flush_if_full
  flush_if_full-Succeeds size e can unlocked =
      elim (Bool-cases (leb e.config.memtable_size_limit size)) [
        | inl full ↦ rw full (flush_internal-Succeeds e can unlocked)
        | inr small ↦ rw small (record { done = refl; unlocked = unlocked })
      ]

  log_operation-Succeeds :
      (operation : Operation) (e : Engine)
      → IsUnlocked e
      → Succeeds e.wal.current_lsn (log_operation libs env operation e)
  unfolding log_operation
  log_operation-Succeeds operation e unlocked =
      let (payload, there) =
        serializes (new_entry e.wal.current_lsn operation env.appending.millis) in
      rw (unlocked.writes, unlocked.log)
        (record {
          done = append-ok env.appending is_calm.appending libs operation e.wal payload there;
          unlocked = record { writes = refl; log = refl };
        })

  put-Succeeds :
      (key v : List ℕ) (e : Engine)
      → CanHold (MemTable.put e.memtable key v).0.table
      → IsUnlocked e
      → Succeeds tt (put libs env key v e)
  put-Succeeds key v e can unlocked =
      let logged = log_operation-Succeeds (Operation.put key v) e unlocked in
      let (storage_eq, memory) = log_operation_state libs env (Operation.put key v) e in
      rw (put_logged libs env key v e e.wal.current_lsn logged.done) (
        flush_if_full-Succeeds _ _ (rw memory can)
          (record { writes = logged.unlocked.writes; log = logged.unlocked.log }))

  delete-Succeeds :
      (key : List ℕ) (e : Engine)
      → CanHold (MemTable.delete e.memtable key).0.table
      → IsUnlocked e
      → Succeeds tt (delete libs env key e)
  delete-Succeeds key e can unlocked =
      let logged = log_operation-Succeeds (Operation.delete key) e unlocked in
      let (storage_eq, memory) = log_operation_state libs env (Operation.delete key) e in
      rw (delete_logged libs env key e e.wal.current_lsn logged.done) (
        flush_if_full-Succeeds _ _ (rw memory can)
          (record { writes = logged.unlocked.writes; log = logged.unlocked.log }))

  no_value-Succeeds :
      (r : Result (Unit {0}) × Engine)
      → Succeeds tt r
      → Succeeds {A = Option (List ℕ)} none (no_value r)
  no_value-Succeeds (ok u, e) s = record { done = refl; unlocked = s.unlocked }
  no_value-Succeeds (err x, e) s = cc (s.done)

  -- Where no lock is poisoned, every log entry can be serialised, no system call fails and the
  -- format can hold the memtable with the write, each command succeeds, with the answer of a map
  -- that has the contents that the engine shows, and poisons no lock.
  pub execute-Succeeds :
      (c : Command) (e : Engine) (f : Contents)
      → Fits c e.memtable
      → Shows libs e f
      → IsUnlocked e
      → Succeeds (answer c f) (execute libs env c e)
  unfolding execute
  execute-Succeeds (Command.get key) e f fits shows unlocked = record {
    done = get-Shows libs e f key shows;
    unlocked = unlocked;
  }
  execute-Succeeds Command.ping e f fits shows unlocked = record {
    done = refl;
    unlocked = unlocked;
  }
  execute-Succeeds (Command.put key v) e f fits shows unlocked =
      no_value-Succeeds (put libs env key v e) (put-Succeeds key v e fits unlocked)
  execute-Succeeds (Command.delete key) e f fits shows unlocked =
      no_value-Succeeds (delete libs env key e) (delete-Succeeds key e fits unlocked)
