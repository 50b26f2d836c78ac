-- ===== src/Engine/Kept.antt =====
-- What the operations of the engine (src/engine.rs) do to its tables on disk, the size of its
-- memtable and its configuration.
use atlas_kv.Base.{
  Bool-cases, List, Option, [], arith, inl, inr, leb, subst, sym, ℕ, ◌+◌, ◌<◌, ◌^◌, ◌≡◌,
}
use atlas_kv.Error.{ok, Result-cases}
use atlas_kv.MemTable
use atlas_kv.MemTable.{MemTable}
use atlas_kv.Protocol.Command.{Command}
use atlas_kv.Sstable.Opened.{CanHold}
use atlas_kv.Storage
use atlas_kv.Storage.Flush.{flush-needs}
use atlas_kv.Storage.Reopen.{Tables, Stored, flush-Stored}
use atlas_kv.Wal.Entry.{Libraries, Operation}
use atlas_kv.Engine.{
  Engine, Env, flush_internal, flush_if_full, log_operation, after_table, put, delete, execute,
}
use atlas_kv.Engine.View.{after_table_state}
use atlas_kv.Engine.Writes.{
  log_operation_state, put_refused, put_logged, delete_refused, delete_logged,
}
use atlas_kv.Engine.Commands.{Fits}
use atlas_kv.Engine.Crash.{no_value-done, no_value-state}

pub record Kept (libs : Libraries) (e : Engine) : Type 0 where
  pub ts : Tables
  pub stored : Stored libs.crc32 e.storage ts
  pub fits : CanHold e.memtable.table

-- Another id is left.
abbrev pub HasRoom : Engine → Type 0
HasRoom e = e.storage.next_sstable_id + 1 < 2 ^ 64

pub CanHold-nil : CanHold []
CanHold-nil = record { sorted = tt; each = tt; offsets = omega arith; count = omega arith }

module _ (libs : Libraries) where
  pub same-Kept :
      (e e' : Engine)
      → e'.storage ≡ e.storage
      → CanHold e'.memtable.table
      → Kept libs e
      → Kept libs e'
  same-Kept e e' storage_eq can kept = record {
    ts = kept.ts;
    stored = subst (λ s. Stored libs.crc32 s kept.ts) (sym storage_eq) kept.stored;
    fits = can;
  }

  flushed-Kept :
      (env : Env) (e : Engine) (ts : Tables)
      → Stored libs.crc32 (Storage.flush env.flushing libs.crc32 e.memtable e.storage).1 ts
      → Kept libs
          (after_table libs env (record e {
            storage = (Storage.flush env.flushing libs.crc32 e.memtable e.storage).1;
          })).1
  flushed-Kept env e ts stored =
      let e' = record e {
        storage = (Storage.flush env.flushing libs.crc32 e.memtable e.storage).1;
      } in
      let (storage_eq, memory) = after_table_state libs env e' in
      record {
        ts = ts;
        stored = subst (λ s. Stored libs.crc32 s ts) (sym storage_eq) stored;
        fits = subst (λ m. CanHold m.table) (sym memory) (unfold MemTable.clear in CanHold-nil);
      }

  pub flush_internal-Kept :
      (env : Env) (e : Engine)
      → HasRoom e
      → Kept libs e
      → (flush_internal libs env e).0 ≡ ok tt
      → Kept libs (flush_internal libs env e).1
  unfolding flush_internal
  flush_internal-Kept env e room kept done = elim (Bool-cases (MemTable.is_empty e.memtable)) [
    | inl empty ↦ simp empty kept
    | inr full ↦
        elim (Result-cases (Storage.flush env.flushing libs.crc32 e.memtable e.storage).0) [
          | inr (x, f) ↦ cc (simp (full, f) at done)
          | inl (metadata, f) ↦
              let (full', create, finish) =
                flush-needs env.flushing libs.crc32 e.memtable e.storage metadata f in
              let (metadata', f', stored) =
                flush-Stored env.flushing libs.crc32 e.memtable e.storage kept.ts kept.stored
                  kept.fits full create finish room in
              simp (full, f) (flushed-Kept env e _ stored)
        ]
  ]

  flush_if_full-Kept :
      (env : Env) (size : ℕ) (e : Engine)
      → HasRoom e
      → Kept libs e
      → (flush_if_full libs env size e).0 ≡ ok tt
      → Kept libs (flush_if_full libs env size e).1
  unfolding flush_if_full
  flush_if_full-Kept env size e room kept done =
      elim (Bool-cases (leb e.config.memtable_size_limit size)) [
        | inl full ↦ simp full (flush_internal-Kept env e room kept (simp full at done))
        | inr small ↦ simp small kept
      ]

  -- The memtable with the write replaced the one behind the log step.
  logged-Kept :
      (env : Env) (operation : Operation) (e : Engine) (write : MemTable → MemTable × ℕ)
      → HasRoom e
      → Kept libs e
      → CanHold (write e.memtable).0.table
      → (let e' = (log_operation libs env operation e).1 in
          (flush_if_full libs env
            (write e'.memtable).1
            (record e' { memtable = (write e'.memtable).0 })).0
          ≡ ok tt)
      → (let e' = (log_operation libs env operation e).1 in
          Kept libs
            (flush_if_full libs env
              (write e'.memtable).1
              (record e' { memtable = (write e'.memtable).0 })).1)
  logged-Kept env operation e write room kept can done =
      let (storage_eq, memory) = log_operation_state libs env operation e in
      let e' = (log_operation libs env operation e).1 in
      flush_if_full-Kept env (write e'.memtable).1 (record e' { memtable = (write e'.memtable).0 })
        (subst (λ s. s.next_sstable_id + 1 < 2 ^ 64) (sym storage_eq) room)
        (same-Kept e (record e' { memtable = (write e'.memtable).0 }) storage_eq
          (subst (λ m. CanHold (write m).0.table) (sym memory) can) kept)
        done

  put-Kept :
      (env : Env) (key v : List ℕ) (e : Engine)
      → HasRoom e
      → Kept libs e
      → CanHold (MemTable.put e.memtable key v).0.table
      → (put libs env key v e).0 ≡ ok tt
      → Kept libs (put libs env key v e).1
  put-Kept env key v e room kept can h =
      elim (Result-cases (log_operation libs env (Operation.put key v) e).0) [
        | inr (x, f) ↦ cc (put_refused libs env key v e x f, h)
        | inl (lsn, f) ↦ rw (put_logged libs env key v e lsn f) (
            logged-Kept env (Operation.put key v) e (λ m. MemTable.put m key v) room kept can
              (rw (put_logged libs env key v e lsn f) at h))
      ]

  delete-Kept :
      (env : Env) (key : List ℕ) (e : Engine)
      → HasRoom e
      → Kept libs e
      → CanHold (MemTable.delete e.memtable key).0.table
      → (delete libs env key e).0 ≡ ok tt
      → Kept libs (delete libs env key e).1
  delete-Kept env key e room kept can h =
      elim (Result-cases (log_operation libs env (Operation.delete key) e).0) [
        | inr (x, f) ↦ cc (delete_refused libs env key e x f, h)
        | inl (lsn, f) ↦ rw (delete_logged libs env key e lsn f) (
            logged-Kept env (Operation.delete key) e (λ m. MemTable.delete m key) room kept can
              (rw (delete_logged libs env key e lsn f) at h))
      ]

  pub execute-Kept :
      (env : Env) (command : Command) (e : Engine) (a : Option (List ℕ))
      → HasRoom e
      → Fits command e.memtable
      → Kept libs e
      → (execute libs env command e).0 ≡ ok a
      → Kept libs (execute libs env command e).1
  unfolding execute
  execute-Kept env (Command.get key) e a room fits kept h = kept
  execute-Kept env Command.ping e a room fits kept h = kept
  execute-Kept env (Command.put key v) e a room fits kept h =
      rw (no_value-state libs (put libs env key v e))
        (put-Kept env key v e room kept fits (no_value-done libs (put libs env key v e) a h))
  execute-Kept env (Command.delete key) e a room fits kept h =
      rw (no_value-state libs (delete libs env key e))
        (delete-Kept env key e room kept fits (no_value-done libs (delete libs env key e) a h))
