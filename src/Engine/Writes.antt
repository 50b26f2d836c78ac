-- ===== src/Engine/Writes.antt =====
-- What `put` and `delete` (src/engine.rs) leave of the contents that a client sees.
use atlas_kv.Base.{List, ap, arith, inl, inr, none, some, ℕ, ◌≡◌}
use atlas_kv.Error.{Result, Result-cases, AtlasError, ok, err}
use atlas_kv.MemTable
use atlas_kv.MemTable.{MemTable, MemTableEntry, value, tombstone}
use atlas_kv.MemTable.Contents.{get-put, get-delete}
use atlas_kv.Sstable.Opened.{CanHold}
use atlas_kv.Wal.Entry.{Libraries, Operation}
use atlas_kv.Engine.{Engine, Env, flush_if_full, log_operation, put, delete}
use atlas_kv.Engine.View.{
  Contents, Shows, update, same_readers-Shows, write-Shows, flush_if_full-Shows,
}

module _ (libs : Libraries) where
  pub log_operation_state :
      (env : Env) (operation : Operation) (e : Engine)
      → ((log_operation libs env operation e).1.storage ≡ e.storage)
        × ((log_operation libs env operation e).1.memtable ≡ e.memtable)
  unfolding log_operation
  log_operation_state env operation e = (ground arith, ground arith)

  pub log_operation-Shows :
      (env : Env) (operation : Operation) (e : Engine) (f : Contents)
      → Shows libs e f
      → Shows libs (log_operation libs env operation e).1 f
  log_operation-Shows env operation e f shows =
      let (storage_eq, memory) = log_operation_state env operation e in
      same_readers-Shows libs e (log_operation libs env operation e).1 f
        (ap (λ s. s.sstables) storage_eq) memory shows

  -- A write that is not logged fails and changes no key; one that is logged changes its key, even
  -- where the flush behind it fails.
  pub data Written (f g : Contents) (logged : Result ℕ) (r : Result (Unit {0}) × Engine)
      : Type 0 where
    refused :
        (x : AtlasError) → logged ≡ err x → r.0 ≡ err x → Shows libs r.1 f → Written f g logged r
    accepted : (lsn : ℕ) → logged ≡ ok lsn → Shows libs r.1 g → Written f g logged r

  pub put_refused :
      (env : Env) (key v : List ℕ) (e : Engine) (x : AtlasError)
      → (log_operation libs env (Operation.put key v) e).0 ≡ err x
      → put libs env key v e ≡ (err x, (log_operation libs env (Operation.put key v) e).1)
  unfolding put
  put_refused env key v e x fails = rw (fails, put)

  pub put_logged :
      (env : Env) (key v : List ℕ) (e : Engine) (lsn : ℕ)
      → (log_operation libs env (Operation.put key v) e).0 ≡ ok lsn
      → put libs env key v e ≡ (
          let e' = (log_operation libs env (Operation.put key v) e).1 in
          flush_if_full libs env
            (MemTable.put e'.memtable key v).1
            (record e' { memtable = (MemTable.put e'.memtable key v).0 }))
  unfolding put
  put_logged env key v e lsn done = rw (done, put)

  -- On contents that the engine shows, with a memtable that the format can hold once the entry is
  -- in it, put is refused and changes no key, or it is in the log and its key has the value.
  pub put-Written :
      (env : Env) (key v : List ℕ) (e : Engine) (f : Contents)
      → CanHold (MemTable.put e.memtable key v).0.table
      → Shows libs e f
      → Written f
          (update key (some v) f)
          (log_operation libs env (Operation.put key v) e).0
          (put libs env key v e)
  put-Written env key v e f can shows =
      let operation = Operation.put key v in
      let memory = (log_operation_state env operation e).1 in
      let shows' = log_operation-Shows env operation e f shows in
      let e' = (log_operation libs env operation e).1 in
      elim (Result-cases (log_operation libs env operation e).0) [
        | inr (x, fails) ↦
            refused x fails (ap (λ r. r.0) (put_refused env key v e x fails))
              (rw (put_refused env key v e x fails) shows')
        | inl (lsn, done) ↦ accepted lsn done (
            rw (put_logged env key v e lsn done) (
              flush_if_full-Shows libs env (MemTable.put e'.memtable key v).1
                (record e' { memtable = (MemTable.put e'.memtable key v).0 })
                (update key (some v) f) (rw memory can)
                (write-Shows libs e' f (MemTable.put e'.memtable key v).0 key (value v)
                  (λ j. get-put e'.memtable key v j) shows')))
      ]

  pub delete_refused :
      (env : Env) (key : List ℕ) (e : Engine) (x : AtlasError)
      → (log_operation libs env (Operation.delete key) e).0 ≡ err x
      → delete libs env key e ≡ (err x, (log_operation libs env (Operation.delete key) e).1)
  unfolding delete
  delete_refused env key e x fails = rw (fails, delete)

  pub delete_logged :
      (env : Env) (key : List ℕ) (e : Engine) (lsn : ℕ)
      → (log_operation libs env (Operation.delete key) e).0 ≡ ok lsn
      → delete libs env key e ≡ (
          let e' = (log_operation libs env (Operation.delete key) e).1 in
          flush_if_full libs env
            (MemTable.delete e'.memtable key).1
            (record e' { memtable = (MemTable.delete e'.memtable key).0 }))
  unfolding delete
  delete_logged env key e lsn done = rw (done, delete)

  -- On contents that the engine shows, with a memtable that the format can hold once the tombstone
  -- is in it, delete is refused and changes no key, or it is in the log and its key is gone.
  pub delete-Written :
      (env : Env) (key : List ℕ) (e : Engine) (f : Contents)
      → CanHold (MemTable.delete e.memtable key).0.table
      → Shows libs e f
      → Written f
          (update key none f)
          (log_operation libs env (Operation.delete key) e).0
          (delete libs env key e)
  delete-Written env key e f can shows =
      let operation = Operation.delete key in
      let memory = (log_operation_state env operation e).1 in
      let shows' = log_operation-Shows env operation e f shows in
      let e' = (log_operation libs env operation e).1 in
      elim (Result-cases (log_operation libs env operation e).0) [
        | inr (x, fails) ↦
            refused x fails (ap (λ r. r.0) (delete_refused env key e x fails))
              (rw (delete_refused env key e x fails) shows')
        | inl (lsn, done) ↦ accepted lsn done (
            rw (delete_logged env key e lsn done) (
              flush_if_full-Shows libs env (MemTable.delete e'.memtable key).1
                (record e' { memtable = (MemTable.delete e'.memtable key).0 }) (update key none f)
                (rw memory can)
                (write-Shows libs e' f (MemTable.delete e'.memtable key).0 key tombstone
                  (λ j. get-delete e'.memtable key j) shows')))
      ]
