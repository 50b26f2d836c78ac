-- ===== src/Wal/Lag.antt =====
-- How far what is durable of the log lags behind what was appended (src/wal/writer.rs), on any sync
-- strategy.
use atlas_kv.Base.{
  All, IsU32, IsU64, List, [], ap, append-nil, append_assoc, arith, inl, inr, length, length-append,
  refl, some, subst, sym, ℕ, ◌++◌, ◌∙◌, ◌∷◌, ◌≡◌, ◌≤◌, ◌⊎◌,
}
use atlas_kv.Error.{ok}
use atlas_kv.Wal.Entry.{WalEntry, Operation, Libraries, new_entry}
use atlas_kv.Wal.Frames
use atlas_kv.Wal.Writer.{sync}
use atlas_kv.Wal.Writer.{WalWriter, WalSyncStrategy, WalEnv, append, truncate, open_writer}
use atlas_kv.Wal.Writer.{on_disk}
use atlas_kv.Wal.Durability.{
  logged, Synced, on_disk-Logs, on_disk-Synced, sync-Synced, write_all-Logs,
}
use atlas_kv.Wal.Appending.{written, append_steps, sync_by_strategy-cases, truncate_lem}
use atlas_kv.Wal.Grown.{serialize-data, log_bytes-append, written-append}
use atlas_kv.Wal.Replay.{log_bytes}

-- The log consists of the entries that are durable and, behind them, of entries that are not, and
-- these are counted as uncommitted.
pub record Lags (libs : Libraries) (w : WalWriter) (synced pending : List (WalEntry × List ℕ))
    : Type 0 where
  pub counter : IsU64 w.current_lsn
  pub written : All (Frames.Written libs) (synced ++ pending)
  pub log : logged w.file ≡ log_bytes libs (synced ++ pending)
  pub disk : on_disk w.file ≡ log_bytes libs synced
  pub within : w.file.durable ≤ length w.file.content
  pub count : length pending ≤ w.uncommitted_count

-- The entry that an append adds, with its data.
abbrev pub logged_as : WalWriter → Operation → WalEnv → List ℕ → List (WalEntry × List ℕ)
logged_as w operation env payload = (new_entry w.current_lsn operation env.millis, payload) ∷ []

module _ (libs : Libraries) where
  pub open_writer-Lags :
      (content : List ℕ) (strategy : WalSyncStrategy)
      → Lags libs (open_writer content strategy) [] []
  unfolding on_disk
  open_writer-Lags content strategy = record {
    counter = omega arith;
    written = tt;
    log = refl;
    disk = refl;
    within = omega arith;
    count = omega arith;
  }

  Synced-Lags :
      (w w' : WalWriter) (entries : List (WalEntry × List ℕ))
      → IsU64 w.current_lsn
      → All (Frames.Written libs) entries
      → logged w.file ≡ log_bytes libs entries
      → Synced w w'
      → Lags libs w' entries []
  Synced-Lags w w' entries counter wr log s = record {
    counter = omega (arith, s.lsn);
    written = subst (All (Frames.Written libs)) (sym (append-nil entries)) wr;
    log = s.log ∙ log ∙ ap (log_bytes libs) (sym (append-nil entries));
    disk = on_disk-Synced s ∙ log;
    within = omega (arith, s.durable);
    count = omega arith;
  }

  -- After a sync that succeeds nothing waits.
  pub sync-Lags :
      (env : WalEnv) (w : WalWriter) (synced pending : List (WalEntry × List ℕ))
      → (sync env w).0 ≡ ok tt
      → Lags libs w synced pending
      → Lags libs (sync env w).1 (synced ++ pending) []
  sync-Lags env w synced pending done lags =
      Synced-Lags w (sync env w).1 (synced ++ pending) lags.counter lags.written lags.log
        (sync-Synced env w done)

  -- An append that succeeds has synced, so that all entries are durable, or has one more that is
  -- not.
  pub append-Lags :
      (env : WalEnv) (operation : Operation) (w : WalWriter) (lsn : ℕ)
      (synced pending : List (WalEntry × List ℕ))
      → ((bytes : List ℕ)
          → libs.bincode_serialize (new_entry w.current_lsn operation env.millis) ≡ some bytes
          → IsU32 (length bytes))
      → Lags libs w synced pending
      → (append libs env operation w).0 ≡ ok lsn
      → (payload : List ℕ) × (Lags libs
            (append libs env operation w).1
            (synced ++ (pending ++ logged_as w operation env payload))
            []
          ⊎ Lags libs
              (append libs env operation w).1
              synced
              (pending ++ logged_as w operation env payload))
  append-Lags env operation w lsn synced pending fits lags done =
      let entry = new_entry w.current_lsn operation env.millis in
      let (bytes, serialized, wrote, strategy_done, result) =
        append_steps libs env operation w lsn done in
      let (payload, there, layout_eq) = serialize-data libs entry bytes serialized in
      let added = logged_as w operation env payload in
      let logs = write_all-Logs env bytes w.file wrote in
      let w1 = written libs env operation w bytes in
      let entries = synced ++ (pending ++ added) in
      let all_written : All (Frames.Written libs) entries =
        subst (All (Frames.Written libs)) (append_assoc synced pending added) (
          written-append libs (synced ++ pending) (entry, payload) lags.written
            (lags.counter, there, fits payload there)) in
      let log : logged w1.file ≡ log_bytes libs entries =
        logs.log
        ∙ cc (lags.log, layout_eq, log_bytes-append libs (synced ++ pending) entry payload)
        ∙ ap (log_bytes libs) (append_assoc synced pending added) in
      (
        payload,
        elim (sync_by_strategy-cases env w.sync_strategy w1 strategy_done) [
          | inl s ↦ inl (
              Synced-Lags w1 (append libs env operation w).1 entries (omega arith) all_written log
                (subst (Synced w1) (sym (ap (λ r. r.1) result)) s))
          | inr same ↦ inr (
              subst (λ w'. Lags libs w' synced (pending ++ added))
                (sym (ap (λ r. r.1) result ∙ same))
                (record {
                  counter = omega arith;
                  written = all_written;
                  log = log;
                  disk = on_disk-Logs w.file w1.file lags.within logs ∙ lags.disk;
                  within = omega (arith, logs.durable, logs.grows, lags.within);
                  count = omega (arith, length-append pending added, lags.count);
                }))
        ],
      )

  -- A truncation that succeeds leaves nothing to lose.
  pub truncate-Lags :
      (env : WalEnv) (w : WalWriter)
      → (truncate env w).0 ≡ ok tt
      → Lags libs (truncate env w).1 [] []
  truncate-Lags env w done =
      let (file, lsn, count, same) = truncate_lem env w done in
      record {
        counter = omega (arith, lsn);
        written = tt;
        log = ap logged file;
        disk = ap on_disk file ∙ (unfold on_disk in refl);
        within = rw file (omega arith);
        count = omega arith;
      }
