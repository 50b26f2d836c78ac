-- ===== src/Engine/Behind.antt =====
-- What the disk has of an engine's contents (src/engine.rs), on any sync strategy: the writes that
-- are not durable yet are the last ones, where no truncation of the log is lost.
use atlas_kv.Base.{
  Bool-cases, List, [], ap, append-nil, append_assoc, arith, inl, inr, length, length-append, refl,
  subst, sym, ℕ, ◌++◌, ◌+◌, ◌∙◌, ◌≡◌, ◌≤◌, ◌⊎◌,
}
use atlas_kv.Error.{ok, Result-cases}
use atlas_kv.BTreeMap.{BTreeMap}
use atlas_kv.MemTable
use atlas_kv.MemTable.{MemTable, MemTableEntry}
use atlas_kv.Sstable.Opened.{CanHold}
use atlas_kv.Storage
use atlas_kv.Storage.Reads.{get-newest_entry}
use atlas_kv.Wal.Entry.{WalEntry, Operation, Libraries}
use atlas_kv.Wal.Writer.{WalSyncStrategy, append, truncate}
use atlas_kv.Wal.Appending.{MeetsStrategy, allowance, MeetsStrategy-allowance, append_lem}
use atlas_kv.Wal.Lag.{Lags, logged_as, append-Lags}
use atlas_kv.Wal.Replay.{entries_of}
use atlas_kv.Engine.{Engine, Env, replay, replay_entry, after_table, flush_internal, log_operation}
use atlas_kv.Engine.Crash.{applied, log_operation-append}
use atlas_kv.Engine.Recovered.{after_log-memory}
use atlas_kv.Engine.Recoverable.{DataFit, replay-append}
use atlas_kv.Engine.Restart.{after_log, stored}
use atlas_kv.Engine.View.{Contents, Shows}

-- The durable log, replayed on the tables, gives the contents `g`; the log lags by `n` writes or
-- more, and by no more than the strategy allows.
pub record Behind (libs : Libraries) (strategy : WalSyncStrategy) (g : Contents) (n : ℕ)
    (e : Engine) : Type 0 where
  pub synced : List (WalEntry × List ℕ)
  pub pending : List (WalEntry × List ℕ)
  pub lags : Lags libs e.wal synced pending
  pub memory : e.memtable ≡ replay (entries_of (synced ++ pending)) MemTable.new
  pub tables : List (BTreeMap MemTableEntry)
  pub serves : (key : List ℕ) → Storage.get e.storage key ≡ ok (stored tables key)
  pub durable : (key : List ℕ) → after_log (entries_of synced) (stored tables) key ≡ g key
  pub fits : CanHold (replay (entries_of synced) MemTable.new).table
  pub lost : n ≤ length pending
  pub strategy_eq : e.wal.sync_strategy ≡ strategy
  pub promise : e.wal.uncommitted_count ≤ allowance strategy

module _ (libs : Libraries) where
  -- Where nothing is pending, the disk has all that the engine shows.
  pub settled-Behind :
      (strategy : WalSyncStrategy) (f : Contents) (e : Engine) (entries : List (WalEntry × List ℕ))
      → Shows libs e f
      → Lags libs e.wal entries []
      → e.memtable ≡ replay (entries_of entries) MemTable.new
      → CanHold e.memtable.table
      → e.wal.sync_strategy ≡ strategy
      → e.wal.uncommitted_count ≤ allowance strategy
      → Behind libs strategy f 0 e
  settled-Behind strategy f e entries shows lags memory can same promise = record {
    synced = entries;
    pending = [];
    lags = lags;
    memory = memory ∙ ap (λ es. replay (entries_of es) MemTable.new) (sym (append-nil entries));
    tables = shows.tables;
    serves = λ key. get-newest_entry libs.crc32 e.storage shows.tables key shows.serves;
    durable = after_log-memory libs e f shows (entries_of entries) memory;
    fits = subst (λ m. CanHold m.table) memory can;
    lost = omega arith;
    strategy_eq = same;
    promise = promise;
  }

  -- A write that was logged is durable with all before it, or waits with those that wait.
  pub logged-Behind :
      (strategy : WalSyncStrategy) (f g : Contents) (n : ℕ) (env : Env) (operation : Operation)
      (e : Engine) (lsn : ℕ)
      → DataFit libs env operation e
      → (log_operation libs env operation e).0 ≡ ok lsn
      → (let e1 = applied operation (log_operation libs env operation e).1 in
          CanHold e1.memtable.table
          → Shows libs e1 f
          → Behind libs strategy g n e
          → Behind libs strategy f 0 e1 ⊎ Behind libs strategy g (n + 1) e1)
  logged-Behind strategy f g n env operation e lsn fits h can shows b =
      let (done, state) = log_operation-append libs env operation e lsn h in
      let (payload, cases) =
        append-Lags libs env.appending operation e.wal lsn b.synced b.pending fits b.lags done in
      let appended = append_lem libs env.appending operation e.wal lsn done in
      let added = logged_as e.wal operation env.appending payload in
      let w' = (append libs env.appending operation e.wal).1 in
      let same : w'.sync_strategy ≡ strategy = appended.strategy ∙ b.strategy_eq in
      let promise : w'.uncommitted_count ≤ allowance strategy =
        MeetsStrategy-allowance strategy w'
          (subst (λ s. MeetsStrategy s w') b.strategy_eq appended.promise) in
      let e1 = applied operation (record e { wal = w' }) in
      let state1 : applied operation (log_operation libs env operation e).1 ≡ e1 =
        ap (applied operation) state in
      let memory : e1.memtable
          ≡ replay (entries_of (b.synced ++ (b.pending ++ added))) MemTable.new =
        ap (replay_entry operation) b.memory
        ∙ sym (replay-append libs (b.synced ++ b.pending) _ MemTable.new)
        ∙ ap (λ es. replay (entries_of es) MemTable.new) (append_assoc b.synced b.pending added) in
      elim cases [
        | inl settled ↦ inl (
            subst (Behind libs strategy f 0) (sym state1) (
              settled-Behind strategy f e1 (b.synced ++ (b.pending ++ added))
                (subst (λ x. Shows libs x f) state1 shows) settled memory
                (subst (λ x. CanHold x.memtable.table) state1 can) same promise))
        | inr waiting ↦ inr (
            subst (Behind libs strategy g (n + 1)) (sym state1) (record {
              synced = b.synced;
              pending = b.pending ++ added;
              lags = waiting;
              memory = memory;
              tables = b.tables;
              serves = b.serves;
              durable = b.durable;
              fits = b.fits;
              lost = omega (arith, length-append b.pending added, b.lost);
              strategy_eq = same;
              promise = promise;
            }))
      ]

  -- What a flush that succeeds and does something has done.
  abbrev pub Flushed : Env → Engine → Engine → Type 0
  Flushed env e e' =
      (e'.memtable ≡ MemTable.new)
      × ((truncate env.truncating e.wal).0 ≡ ok tt)
      × (e'.wal ≡ (truncate env.truncating e.wal).1)

  pub flush_internal-cases :
      (env : Env) (e : Engine)
      → (flush_internal libs env e).0 ≡ ok tt
      → ((flush_internal libs env e).1 ≡ e) ⊎ Flushed env e (flush_internal libs env e).1
  unfolding flush_internal after_table MemTable.clear
  flush_internal-cases env e done = elim (Bool-cases (MemTable.is_empty e.memtable)) [
    | inl empty ↦ rw empty (inl refl)
    | inr full ↦
        elim (Result-cases (Storage.flush env.flushing libs.crc32 e.memtable e.storage).0) [
          | inr (x, f) ↦ cc (simp (full, f) at done)
          | inl (metadata, f) ↦ elim (Bool-cases e.wal_poisoned) [
            | inl bad ↦ cc (simp (full, f, bad) at done)
            | inr good ↦ simp (full, f, good) (inr (refl, simp (full, f, good) at done, refl))
          ]
        ]
  ]
