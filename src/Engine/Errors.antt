-- ===== src/Engine/Errors.antt =====
-- `KeyNotFound` and the methods of the engine (src/engine.rs).
use atlas_kv.Base.{List, [], arith, inl, inr, ℕ, ◌%◌, ◌+◌, ◌^◌, ◌∙◌, ◌∷◌, ◌≡◌, ◌≢◌}
use atlas_kv.Error.{Result, Result-cases, ok, err, key_not_found, AtlasError}
use atlas_kv.Exec.{Exec}
use atlas_kv.MemTable
use atlas_kv.MemTable.{MemTable}
use atlas_kv.Protocol.Command.{Command}
use atlas_kv.Sstable.Builder
use atlas_kv.Sstable.Reader.{SsTableReader, open_table, check_header, load_index}
use atlas_kv.Storage
use atlas_kv.Sstable.Written.{add_entries}
use atlas_kv.Wal.Entry.{new_entry}
use atlas_kv.Storage.{StorageManager, StorageEnv}
use atlas_kv.Wal.Entry.{WalEntry, Operation, Libraries, serialize}
use atlas_kv.Wal.Writer.{
  WalSyncStrategy, WalEnv, write_through, flush_buffer, make_room, put_bytes, write_all, sync,
  sync_by_strategy, append, truncate, every_write, every_n_entries,
}
use atlas_kv.Engine.Writes.{put_refused, put_logged, delete_refused, delete_logged}
use atlas_kv.Engine.{
  Engine, Env, get, after_table, flush_internal, flush_if_full, log_operation, put, delete,
  no_value, execute,
}

-- The result is not `KeyNotFound`, in any state.
abbrev IsFound {ℓ} : {A : Type ℓ} → Result A → Type ℓ
IsFound r = r ≢ err key_not_found

abbrev Never {ℓ κ} : {S : Type ℓ} {A : Type κ} → Exec S A → Type (ℓ ⊔ κ)
Never {S = S} m = (s : S) → IsFound (m s).0

err_same :
    {A B : Type 0} (x : AtlasError)
    → ◌≡◌ {A = Result B} (err x) (err key_not_found)
    → ◌≡◌ {A = Result A} (err x) (err key_not_found)
err_same x h = ground arith

serialize-IsFound : (libs : Libraries) (entry : WalEntry) → IsFound (serialize libs entry)
unfolding serialize
serialize-IsFound libs entry h = ground arith

write_all-Never : (env : WalEnv) (bytes : List ℕ) → Never (write_all env bytes)
unfolding write_all make_room put_bytes write_through flush_buffer
write_all-Never env bytes f h = ground arith

sync-Never : (env : WalEnv) → Never (sync env)
unfolding sync flush_buffer
sync-Never env w h = ground arith

sync_by_strategy-Never :
    (env : WalEnv) (strategy : WalSyncStrategy) → Never (sync_by_strategy env strategy)
unfolding sync_by_strategy
sync_by_strategy-Never env every_write w h = sync-Never env w h
sync_by_strategy-Never env (every_n_entries count) w h = ground (arith, sync-Never env w)

append-Never :
    (libs : Libraries) (env : WalEnv) (operation : Operation) → Never (append libs env operation)
unfolding append
append-Never libs env operation w h =
    elim (Result-cases (serialize libs (new_entry w.current_lsn operation env.millis))) [
      | inr (x, e) ↦ serialize-IsFound libs _ (e ∙ err_same x (rw e at h))
      | inl (bytes, e) ↦ elim (Result-cases (write_all env bytes w.file).0) [
        | inr (x, f) ↦ write_all-Never env bytes w.file (f ∙ err_same x (rw (e, f) at h))
        | inl (u, f) ↦
            let w' = record w {
              file = (write_all env bytes w.file).1;
              current_lsn = (w.current_lsn + 1) % 2 ^ 64;
              uncommitted_count = w.uncommitted_count + 1;
            } in
            elim (Result-cases (sync_by_strategy env w.sync_strategy w').0) [
              | inr (x, g) ↦
                  sync_by_strategy-Never env w.sync_strategy w' (g ∙ err_same x (rw (e, f, g) at h))
              | inl (v, g) ↦ cc (rw (e, f, g) at h)
            ]
      ]
    ]

truncate-Never : (env : WalEnv) → Never (truncate env)
unfolding truncate flush_buffer
truncate-Never env w h = ground arith

open_table-IsFound : (file : List ℕ) → IsFound (open_table file)
unfolding open_table check_header load_index
open_table-IsFound file h = ground arith

flush-Never :
    (env : StorageEnv) (crc32 : List ℕ → ℕ) (m : MemTable) → Never (Storage.flush env crc32 m)
unfolding Storage.flush Storage.build Storage.install Builder.new Builder.finish
flush-Never env crc32 m s h = ground (
  arith,
  open_table-IsFound (Builder.finished_file crc32 (add_entries Builder.fresh (MemTable.iter m))),
)

get_loop-IsFound : (rs : List SsTableReader) (key : List ℕ) → IsFound (Storage.get_loop rs key)
unfolding Storage.get_loop
get_loop-IsFound [] key h = ground arith
get_loop-IsFound (r ∷ rs) key h = ground (arith, get_loop-IsFound rs key)

module _ (libs : Libraries) where
  get-IsFound : (e : Engine) (key : List ℕ) → IsFound (get libs e key)
  unfolding get Storage.get
  get-IsFound e key h = ground (arith, get_loop-IsFound e.storage.sstables key)

  log_operation-Never :
      (env : Env) (operation : Operation) → Never (log_operation libs env operation)
  unfolding log_operation
  log_operation-Never env operation e h =
      ground (arith, append-Never libs env.appending operation e.wal)

  flush_internal-Never : (env : Env) → Never (flush_internal libs env)
  unfolding flush_internal after_table
  flush_internal-Never env e h = ground (
    arith,
    flush-Never env.flushing libs.crc32 e.memtable e.storage,
    truncate-Never env.truncating e.wal,
  )

  flush_if_full-Never : (env : Env) (size : ℕ) → Never (flush_if_full libs env size)
  unfolding flush_if_full
  flush_if_full-Never env size e h = ground (arith, flush_internal-Never env e)

  put-Never : (env : Env) (key v : List ℕ) → Never (put libs env key v)
  put-Never env key v e h = elim (Result-cases (log_operation libs env (Operation.put key v) e).0) [
    | inr (x, f) ↦
        log_operation-Never env (Operation.put key v) e
          (f ∙ err_same x (rw (put_refused libs env key v e x f) at h))
    | inl (lsn, f) ↦ flush_if_full-Never env _ _ (rw (put_logged libs env key v e lsn f) at h)
  ]

  delete-Never : (env : Env) (key : List ℕ) → Never (delete libs env key)
  delete-Never env key e h =
      elim (Result-cases (log_operation libs env (Operation.delete key) e).0) [
        | inr (x, f) ↦
            log_operation-Never env (Operation.delete key) e
              (f ∙ err_same x (rw (delete_refused libs env key e x f) at h))
        | inl (lsn, f) ↦ flush_if_full-Never env _ _ (rw (delete_logged libs env key e lsn f) at h)
      ]

  no_value-IsFound : (r : Result (Unit {0}) × Engine) → IsFound r.0 → IsFound (no_value r).0
  no_value-IsFound (ok u, e) found h = cc
  no_value-IsFound (err x, e) found h = found (err_same x h)

  -- No command fails with KeyNotFound, whatever the engine's state and the outcomes of the system
  -- calls.
  pub execute-ne-key_not_found :
      (env : Env) (command : Command) (e : Engine)
      → (execute libs env command e).0 ≢ err key_not_found
  unfolding execute
  execute-ne-key_not_found env (Command.get key) e = get-IsFound e key
  execute-ne-key_not_found env (Command.put key v) e =
      no_value-IsFound (put libs env key v e) (put-Never env key v e)
  execute-ne-key_not_found env (Command.delete key) e =
      no_value-IsFound (delete libs env key e) (delete-Never env key e)
  execute-ne-key_not_found env Command.ping e = λ h. cc
