-- ===== src/Engine/Recoverable.antt =====
-- The tie of the memtable to the log (src/engine.rs): under `WalSyncStrategy::EveryWrite`, what is
-- in memory is what a replay of the durable log gives. Behind a flush, whose truncation of the log
-- is not synced, a crash may bring back the log from before: it replays over the tables what they
-- have.
use atlas_kv.Base.{
  All, Bool-cases, IsU32, IsU64, List, Option, [], ap, append-nil, arith, false, inl, inr, leb,
  length, none, refl, some, subst, sym, take_all, ℕ, ◌++◌, ◌∙◌, ◌∷◌, ◌≡◌,
}
use atlas_kv.Error.{ok, Result-cases}
use atlas_kv.MemTable
use atlas_kv.MemTable.{MemTable, MemTableEntry}
use atlas_kv.Storage
use atlas_kv.Wal.Entry.{WalEntry, Operation, Libraries, new_entry}
use atlas_kv.Wal.Frames
use atlas_kv.Sstable.Opened.{CanHold}
use atlas_kv.Storage.{StorageManager}
use atlas_kv.Storage.Reads.{visible}
use atlas_kv.Engine.View.{Contents, Shows}
use atlas_kv.Wal.Writer.{every_write, WalWriter, append, truncate, on_disk}
use atlas_kv.Wal.Durability.{logged}
use atlas_kv.Wal.Appending.{MeetsStrategy, append_lem, truncate_lem, truncate_stale}
use atlas_kv.Wal.Grown.{serialize-data, log_bytes-append, written-append}
use atlas_kv.Wal.Replay.{log_bytes, entries_of}
use atlas_kv.Engine.{Engine, Env, replay, replay_entry, after_table, flush_internal, flush_if_full}

-- The writer's log is all in the file, durable, and consists of these entries.
pub record Holds (libs : Libraries) (w : WalWriter) (entries : List (WalEntry × List ℕ))
    : Type 0 where
  pub strategy : w.sync_strategy ≡ every_write
  pub counter : IsU64 w.current_lsn
  pub written : All (Frames.Written libs) entries
  pub log : logged w.file ≡ log_bytes libs entries
  pub empty : w.file.buffer ≡ []
  pub durable : w.file.durable ≡ length w.file.content

-- A log of whole entries that the format can hold, and whose replay has for its keys what these
-- contents have.
pub record Repeats (libs : Libraries) (log : List ℕ) (f : Contents) : Type 0 where
  pub entries : List (WalEntry × List ℕ)
  pub written : All (Frames.Written libs) entries
  pub bytes : log ≡ log_bytes libs entries
  pub fits : CanHold (replay (entries_of entries) MemTable.new).table
  pub agrees :
      (key : List ℕ) (entry : MemTableEntry)
      → MemTable.get (replay (entries_of entries) MemTable.new) key ≡ some entry
      → visible (some entry) ≡ f key

pub record Recoverable (libs : Libraries) (e : Engine) (f : Contents) : Type 0 where
  pub entries : List (WalEntry × List ℕ)
  pub holds : Holds libs e.wal entries
  pub memory : e.memtable ≡ replay (entries_of entries) MemTable.new
  -- where the last truncation is not synced, the memtable is empty, and the old log repeats
  pub stale :
      (old : List ℕ)
      → e.wal.file.stale ≡ some old
      → (e.memtable ≡ MemTable.new) × Repeats libs old f

-- The data of the entry that an operation is logged with fit the width of their length.
abbrev pub DataFit : Libraries → Env → Operation → Engine → Type 0
DataFit libs env operation e =
    (bytes : List ℕ)
    → libs.bincode_serialize (new_entry e.wal.current_lsn operation env.appending.millis)
      ≡ some bytes
    → IsU32 (length bytes)

module _ (libs : Libraries) where
  pub replay-append :
      (es : List (WalEntry × List ℕ)) (e : WalEntry × List ℕ) (m : MemTable)
      → replay (entries_of (es ++ (e ∷ []))) m
        ≡ replay_entry e.0.operation (replay (entries_of es) m)
  unfolding replay
  replay-append [] e m = refl
  replay-append (d ∷ es) e m = replay-append es e (replay_entry d.0.operation m)

  -- An append that succeeds adds its entry to a log that holds some entries.
  pub append-Holds :
      (env : Env) (operation : Operation) (e : Engine) (entries : List (WalEntry × List ℕ))
      (lsn : ℕ)
      → DataFit libs env operation e
      → Holds libs e.wal entries
      → (append libs env.appending operation e.wal).0 ≡ ok lsn
      → (payload : List ℕ) × Holds libs
          (append libs env.appending operation e.wal).1
          (entries ++ ((new_entry e.wal.current_lsn operation env.appending.millis, payload) ∷ []))
        × ((append libs env.appending operation e.wal).1.file.stale ≡ none)
  append-Holds env operation e entries lsn fits holds done =
      let entry = new_entry e.wal.current_lsn operation env.appending.millis in
      let appended = append_lem libs env.appending operation e.wal lsn done in
      let (payload, there, layout_eq) =
        serialize-data libs entry appended.bytes appended.serialized in
      let w = (append libs env.appending operation e.wal).1 in
      let (empty, durable, settled, committed) : MeetsStrategy every_write w =
        subst (λ s. MeetsStrategy s w) holds.strategy appended.promise in
      (
        payload,
        record {
          strategy = appended.strategy ∙ holds.strategy;
          counter = omega (arith, appended.counted);
          written =
              written-append libs entries (entry, payload) holds.written
                (holds.counter, there, fits payload there);
          log =
              appended.log ∙ cc (holds.log, layout_eq, log_bytes-append libs entries entry payload);
          empty = empty;
          durable = durable;
        },
        settled,
      )

  truncate-Holds :
      (env : Env) (w : WalWriter)
      → w.sync_strategy ≡ every_write
      → (truncate env.truncating w).0 ≡ ok tt
      → Holds libs (truncate env.truncating w).1 []
  truncate-Holds env w strategy done =
      let (file, lsn, count, same) = truncate_lem env.truncating w done in
      record {
        strategy = same ∙ strategy;
        counter = omega (arith, lsn);
        written = tt;
        log = ap logged file;
        empty = ap (λ f. f.buffer) file;
        durable = ap (λ f. f.durable) file ∙ sym (ap (λ f. length f.content) file);
      }

  -- What is in memory, the contents have.
  pub memory-agrees :
      (e : Engine) (f : Contents) (key : List ℕ) (entry : MemTableEntry)
      → Shows libs e f
      → MemTable.get e.memtable key ≡ some entry
      → visible (some entry) ≡ f key
  memory-agrees e f key entry shows h = rw h at (shows.entries key)

  -- A memtable that is not empty says that the log was synced.
  full-settled :
      (e : Engine) (f : Contents)
      → MemTable.is_empty e.memtable ≡ false
      → Recoverable libs e f
      → e.wal.file.stale ≡ none
  unfolding MemTable.is_empty MemTable.entry_count
  full-settled e f full recoverable = go e.wal.file.stale refl
    where
      go : (o : Option (List ℕ)) → e.wal.file.stale ≡ o → o ≡ none
      go none h = refl
      go (some old) h = cc ((recoverable.stale old h).0, full)

  pub on_disk-Holds :
      (w : WalWriter) (entries : List (WalEntry × List ℕ))
      → Holds libs w entries
      → on_disk w.file ≡ log_bytes libs entries
  unfolding on_disk
  on_disk-Holds w entries holds = rw holds.durable (
      take_all (length w.file.content) w.file.content (omega arith)
      ∙ sym (append-nil w.file.content)
      ∙ ap (λ b. w.file.content ++ b) (sym holds.empty)
      ∙ holds.log)

  pub some_injective : {A : Type 0} (a b : A) → some a ≡ some b → a ≡ b
  some_injective a b h = ground arith

  -- The log from before the truncation behind a flush.
  truncate-Repeats :
      (env : Env) (e : Engine) (f : Contents) (old : List ℕ)
      → MemTable.is_empty e.memtable ≡ false
      → CanHold e.memtable.table
      → Shows libs e f
      → Recoverable libs e f
      → (truncate env.truncating e.wal).0 ≡ ok tt
      → (truncate env.truncating e.wal).1.file.stale ≡ some old
      → Repeats libs old f
  truncate-Repeats env e f old full can shows r done h = record {
    entries = r.entries;
    written = r.holds.written;
    bytes =
        some_injective old (on_disk e.wal.file)
          (sym h ∙ truncate_stale env.truncating e.wal done (full-settled e f full r) r.holds.empty)
        ∙ on_disk-Holds e.wal r.entries r.holds;
    fits = subst (λ m. CanHold m.table) r.memory can;
    agrees = λ key entry there.
        memory-agrees e f key entry shows (ap (λ m. MemTable.get m key) r.memory ∙ there);
  }

  after_table-Recoverable :
      (env : Env) (e : Engine) (f : Contents) (s : StorageManager)
      → MemTable.is_empty e.memtable ≡ false
      → CanHold e.memtable.table
      → Shows libs e f
      → Recoverable libs e f
      → (after_table libs env (record e { storage = s })).0 ≡ ok tt
      → Recoverable libs (after_table libs env (record e { storage = s })).1 f
  unfolding after_table MemTable.clear
  after_table-Recoverable env e f s full can shows r done = elim (Bool-cases e.wal_poisoned) [
    | inl bad ↦ cc (simp bad at done)
    | inr good ↦
        let truncated : (truncate env.truncating e.wal).0 ≡ ok tt = simp good at done in
        simp good (record {
          entries = [];
          holds = truncate-Holds env e.wal r.holds.strategy truncated;
          memory = unfold replay in refl;
          stale = λ old h. (refl, truncate-Repeats env e f old full can shows r truncated h);
        })
  ]

  flush_internal-Recoverable :
      (env : Env) (e : Engine) (f : Contents)
      → (flush_internal libs env e).0 ≡ ok tt
      → CanHold e.memtable.table
      → Shows libs e f
      → Recoverable libs e f
      → Recoverable libs (flush_internal libs env e).1 f
  unfolding flush_internal
  flush_internal-Recoverable env e f done can shows r =
      elim (Bool-cases (MemTable.is_empty e.memtable)) [
        | inl empty ↦ simp empty r
        | inr full ↦
            elim (Result-cases (Storage.flush env.flushing libs.crc32 e.memtable e.storage).0) [
              | inr (x, g) ↦ cc (simp (full, g) at done)
              | inl (metadata, g) ↦
                  simp (full, g)
                    (after_table-Recoverable env e f
                      (Storage.flush env.flushing libs.crc32 e.memtable e.storage).1 full can shows
                      r (simp (full, g) at done))
            ]
      ]

  pub flush_if_full-Recoverable :
      (env : Env) (size : ℕ) (e : Engine) (f : Contents)
      → (flush_if_full libs env size e).0 ≡ ok tt
      → CanHold e.memtable.table
      → Shows libs e f
      → Recoverable libs e f
      → Recoverable libs (flush_if_full libs env size e).1 f
  unfolding flush_if_full
  flush_if_full-Recoverable env size e f done can shows r =
      elim (Bool-cases (leb e.config.memtable_size_limit size)) [
        | inl full ↦ simp full (flush_internal-Recoverable env e f (simp full at done) can shows r)
        | inr room ↦ simp room r
      ]
