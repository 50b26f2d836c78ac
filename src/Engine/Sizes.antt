-- ===== src/Engine/Sizes.antt =====
-- How far commands fill the memtable and use up the table ids (src/engine.rs), in bytes of the data
-- block that a flush would write.
use atlas_kv.Base.{Bool-cases, List, arith, inl, inr, leb, ℕ, ◌+◌, ◌<◌, ◌^◌, ◌≤◌}
use atlas_kv.Error.{Result-cases}
use atlas_kv.MemTable
use atlas_kv.MemTable.{MemTable, MemTableEntry, value, tombstone}
use atlas_kv.Protocol.Command.{Command}
use atlas_kv.Sstable.Format.{header_size}
use atlas_kv.Sstable.Written.{record_size}
use atlas_kv.Sstable.Lookup.{EntryFits}
use atlas_kv.Sstable.Room.{TableWithin, TableWithin-CanHold, insert-TableWithin, TableWithin-nil}
use atlas_kv.Storage
use atlas_kv.Storage.Flush.{flush-next_sstable_id}
use atlas_kv.Storage.{StorageManager, StorageEnv}
use atlas_kv.Wal.Entry.{Libraries, Operation}
use atlas_kv.Engine.{
  Engine, Env, log_operation, flush_internal, flush_if_full, put, delete, execute,
}
use atlas_kv.Engine.Commands.{Fits}
use atlas_kv.Engine.Crash.{no_value-state}
use atlas_kv.Engine.Kept.{HasRoom}
use atlas_kv.Engine.View.{after_table_state}
use atlas_kv.Engine.Writes.{
  log_operation_state, put_refused, put_logged, delete_refused, delete_logged,
}

-- The bytes that a command adds to the data block at most; at least one for a write.
abbrev pub weight : Command → ℕ
weight (Command.put key v) = record_size key (value v)
weight (Command.delete key) = record_size key tombstone
weight (Command.get key) = 0
weight Command.ping = 0

-- The table format has room for the lengths of the command's key and value.
abbrev pub IsSmall : Command → Type 0
IsSmall (Command.put key v) = EntryFits key (value v)
IsSmall (Command.delete key) = EntryFits key tombstone
IsSmall (Command.get key) = Unit {0}
IsSmall Command.ping = Unit {0}

-- An engine whose memtable and ids are within the bytes that were written.
pub record Within (n : ℕ) (e : Engine) : Type 0 where
  pub table : TableWithin n e.memtable.table
  pub ids : e.storage.next_sstable_id ≤ n + 1

-- A command that is small leaves the format room for its write.
pub Within-Fits :
    (c : Command) (n : ℕ) (e : Engine)
    → IsSmall c
    → header_size + (n + weight c) < 2 ^ 64
    → Within n e
    → Fits c e.memtable
unfolding MemTable.put MemTable.delete MemTable.write
Within-Fits (Command.put key v) n e small room within =
    TableWithin-CanHold (n + record_size key (value v)) _ room
      (insert-TableWithin key (value v) n e.memtable.table small within.table)
Within-Fits (Command.delete key) n e small room within =
    TableWithin-CanHold (n + record_size key tombstone) _ room
      (insert-TableWithin key tombstone n e.memtable.table small within.table)
Within-Fits (Command.get key) n e small room within = tt
Within-Fits Command.ping n e small room within = tt

pub Within-HasRoom : (n : ℕ) (e : Engine) → header_size + n < 2 ^ 64 → Within n e → HasRoom e
Within-HasRoom n e room within = omega (arith, within.ids)

module _ (libs : Libraries) (env : Env) where
  flush_internal-Within :
      (n : ℕ) (e : Engine)
      → TableWithin n e.memtable.table
      → e.storage.next_sstable_id ≤ n
      → Within n (flush_internal libs env e).1
  unfolding flush_internal
  flush_internal-Within n e table ids =
      let counted = flush-next_sstable_id env.flushing libs.crc32 e.memtable e.storage in
      let e' = record e {
        storage = (Storage.flush env.flushing libs.crc32 e.memtable e.storage).1;
      } in
      elim (Bool-cases (MemTable.is_empty e.memtable)) [
        | inl empty ↦ rw empty (record { table = table; ids = omega arith })
        | inr full ↦
            elim (Result-cases (Storage.flush env.flushing libs.crc32 e.memtable e.storage).0) [
              | inr (x, f) ↦ rw (full, f) (record { table = table; ids = omega arith })
              | inl (metadata, f) ↦
                  let (storage_eq, memory) = after_table_state libs env e' in
                  rw (full, f)
                    (record {
                      table = rw memory (unfold MemTable.clear in TableWithin-nil n);
                      ids = rw storage_eq (omega arith);
                    })
            ]
      ]

  flush_if_full-Within :
      (n size : ℕ) (e : Engine)
      → TableWithin n e.memtable.table
      → e.storage.next_sstable_id ≤ n
      → Within n (flush_if_full libs env size e).1
  unfolding flush_if_full
  flush_if_full-Within n size e table ids =
      elim (Bool-cases (leb e.config.memtable_size_limit size)) [
        | inl full ↦ rw full (flush_internal-Within n e table ids)
        | inr small ↦ rw small (record { table = table; ids = omega arith })
      ]

  Within-weaken : (n m : ℕ) (e : Engine) → n ≤ m → Within n e → Within m e
  Within-weaken n m e le within = record {
    table = record {
      sorted = within.table.sorted;
      each = within.table.each;
      block = omega (arith, within.table.block);
    };
    ids = omega (arith, within.ids);
  }

  -- The log step keeps what is counted.
  log_operation-Within :
      (operation : Operation) (n : ℕ) (e : Engine)
      → Within n e
      → Within n (log_operation libs env operation e).1
  log_operation-Within operation n e within =
      let (storage_eq, memory) = log_operation_state libs env operation e in
      record { table = rw memory within.table; ids = rw storage_eq within.ids }

  put-Within :
      (key v : List ℕ) (n : ℕ) (e : Engine)
      → EntryFits key (value v)
      → Within n e
      → Within (n + record_size key (value v)) (put libs env key v e).1
  put-Within key v n e small within =
      let (storage_eq, memory) = log_operation_state libs env (Operation.put key v) e in
      let logged = log_operation-Within (Operation.put key v) n e within in
      elim (Result-cases (log_operation libs env (Operation.put key v) e).0) [
        | inr (x, f) ↦
            rw (put_refused libs env key v e x f) (Within-weaken n _ _ (omega arith) logged)
        | inl (lsn, f) ↦ rw (put_logged libs env key v e lsn f) (
            flush_if_full-Within (n + record_size key (value v)) _ _
              (unfold MemTable.put MemTable.write in
                insert-TableWithin key (value v) n _ small logged.table)
              (omega (arith, logged.ids)))
      ]

  delete-Within :
      (key : List ℕ) (n : ℕ) (e : Engine)
      → EntryFits key tombstone
      → Within n e
      → Within (n + record_size key tombstone) (delete libs env key e).1
  delete-Within key n e small within =
      let logged = log_operation-Within (Operation.delete key) n e within in
      elim (Result-cases (log_operation libs env (Operation.delete key) e).0) [
        | inr (x, f) ↦
            rw (delete_refused libs env key e x f) (Within-weaken n _ _ (omega arith) logged)
        | inl (lsn, f) ↦ rw (delete_logged libs env key e lsn f) (
            flush_if_full-Within (n + record_size key tombstone) _ _
              (unfold MemTable.delete MemTable.write in
                insert-TableWithin key tombstone n _ small logged.table)
              (omega (arith, logged.ids)))
      ]

  -- Whatever becomes of a command, it fills the memtable and uses ids up by its weight at most.
  pub execute-Within :
      (c : Command) (n : ℕ) (e : Engine)
      → IsSmall c
      → Within n e
      → Within (n + weight c) (execute libs env c e).1
  unfolding execute
  execute-Within (Command.get key) n e small within = Within-weaken n _ e (omega arith) within
  execute-Within Command.ping n e small within = Within-weaken n _ e (omega arith) within
  execute-Within (Command.put key v) n e small within =
      rw (no_value-state libs (put libs env key v e)) (put-Within key v n e small within)
  execute-Within (Command.delete key) n e small within =
      rw (no_value-state libs (delete libs env key e)) (delete-Within key n e small within)
