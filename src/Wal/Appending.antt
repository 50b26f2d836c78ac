-- ===== src/Wal/Appending.antt =====
-- `WalWriter::append` and `WalWriter::truncate` (src/wal/writer.rs).
use atlas_kv.Base.{
  Bool-cases, List, [], ap, append-nil, arith, inl, inr, leb, length, none, refl, some, subst, sym,
  true, ℕ, ◌%◌, ◌++◌, ◌+◌, ◌-◌, ◌^◌, ◌∙◌, ◌≡◌, ◌≤◌, ◌⊎◌,
}
use atlas_kv.Error.{Result-cases, ok}
use atlas_kv.Wal.Entry.{Operation, Libraries, new_entry, serialize}
use atlas_kv.Wal.Writer.{
  WalSyncStrategy, every_write, every_n_entries, WalEnv, WalWriter, write_all, sync_by_strategy,
  append, truncate, flush_buffer, after_crash, on_disk,
}
use atlas_kv.Wal.Durability.{logged, Synced, sync-Synced, write_all-Logs}

-- What the strategy promises of a writer after an append.
abbrev pub MeetsStrategy : WalSyncStrategy → WalWriter → Type 0
MeetsStrategy every_write w =
    (w.file.buffer ≡ [])
    × (w.file.durable ≡ length w.file.content)
    × (w.file.stale ≡ none)
    × (w.uncommitted_count ≡ 0)
MeetsStrategy (every_n_entries count) w = w.uncommitted_count ≤ count - 1

-- So many entries are uncommitted at most.
abbrev pub allowance : WalSyncStrategy → ℕ
allowance every_write = 0
allowance (every_n_entries count) = count - 1

pub MeetsStrategy-allowance :
    (strategy : WalSyncStrategy) (w : WalWriter)
    → MeetsStrategy strategy w
    → w.uncommitted_count ≤ allowance strategy
MeetsStrategy-allowance every_write w (empty, durable, settled, committed) =
    omega (arith, committed)
MeetsStrategy-allowance (every_n_entries count) w promise = promise

-- What the last step of an append does where it succeeds: it syncs, or nothing, and then the
-- strategy asks for nothing.
pub sync_by_strategy-cases :
    (env : WalEnv) (strategy : WalSyncStrategy) (w : WalWriter)
    → (sync_by_strategy env strategy w).0 ≡ ok tt
    → Synced w (sync_by_strategy env strategy w).1 ⊎ ((sync_by_strategy env strategy w).1 ≡ w)
unfolding sync_by_strategy
sync_by_strategy-cases env every_write w h = inl (sync-Synced env w h)
sync_by_strategy-cases env (every_n_entries count) w h =
    elim (Bool-cases (leb count w.uncommitted_count)) [
      | inl full ↦ rw full (inl (sync-Synced env w (rw full at h)))
      | inr more ↦ rw more (inr refl)
    ]

sync_by_strategy-Settled :
    (env : WalEnv) (strategy : WalSyncStrategy) (w : WalWriter)
    → w.sync_strategy ≡ strategy
    → (sync_by_strategy env strategy w).0 ≡ ok tt
    → (logged (sync_by_strategy env strategy w).1.file ≡ logged w.file)
      × ((sync_by_strategy env strategy w).1.current_lsn ≡ w.current_lsn)
      × ((sync_by_strategy env strategy w).1.sync_strategy ≡ w.sync_strategy)
      × MeetsStrategy strategy (sync_by_strategy env strategy w).1
unfolding sync_by_strategy
sync_by_strategy-Settled env every_write w e h =
    let s = sync-Synced env w h in
    (s.log, s.lsn, s.strategy, (s.empty, s.durable, s.settled, s.committed))
sync_by_strategy-Settled env (every_n_entries count) w e h =
    elim (Bool-cases (leb count w.uncommitted_count)) [
      | inl full ↦
          let s = sync-Synced env w (rw full at h) in
          rw full (s.log, s.lsn, s.strategy, omega (arith, s.committed))
      | inr more ↦ rw more (refl, refl, refl, ground arith)
    ]

-- An append that succeeded with this LSN: it was the next one and is counted up, the serialised
-- entry stands behind the log, and the promise of the strategy is met.
pub record Appended (libs : Libraries) (env : WalEnv) (operation : Operation) (w : WalWriter)
    (lsn : ℕ) (w' : WalWriter) : Type 0 where
  pub assigned : lsn ≡ w.current_lsn
  pub counted : w'.current_lsn ≡ (w.current_lsn + 1) % 2 ^ 64
  pub bytes : List ℕ
  pub serialized : serialize libs (new_entry w.current_lsn operation env.millis) ≡ ok bytes
  pub log : logged w'.file ≡ logged w.file ++ bytes
  pub strategy : w'.sync_strategy ≡ w.sync_strategy
  pub promise : MeetsStrategy w.sync_strategy w'

module _ (libs : Libraries) (env : WalEnv) (operation : Operation) (w : WalWriter) where
  -- The writer when the strategy is consulted.
  abbrev pub written : List ℕ → WalWriter
  written bytes = record w {
    file = (write_all env bytes w.file).1;
    current_lsn = (w.current_lsn + 1) % 2 ^ 64;
    uncommitted_count = w.uncommitted_count + 1;
  }

  -- The steps of an append that succeeds, each of which did.
  pub append_steps :
      (lsn : ℕ)
      → (append libs env operation w).0 ≡ ok lsn
      → (bytes : List ℕ) × (serialize libs (new_entry w.current_lsn operation env.millis)
          ≡ ok bytes)
        × ((write_all env bytes w.file).0 ≡ ok tt)
        × ((sync_by_strategy env w.sync_strategy (written bytes)).0 ≡ ok tt)
        × (append libs env operation w
            ≡ (ok w.current_lsn, (sync_by_strategy env w.sync_strategy (written bytes)).1))
  unfolding append
  append_steps lsn h =
      elim (Result-cases (serialize libs (new_entry w.current_lsn operation env.millis))) [
        | inr (x, e) ↦ cc (rw e at h)
        | inl (bytes, e) ↦ elim (Result-cases (write_all env bytes w.file).0) [
          | inr (x, f) ↦ cc (rw (e, f) at h)
          | inl (tt, f) ↦
              elim (Result-cases (sync_by_strategy env w.sync_strategy (written bytes)).0) [
                | inr (x, g) ↦ cc (rw (e, f, g) at h)
                | inl (tt, g) ↦ (bytes, e, f, g, rw (e, f, g) refl)
              ]
        ]
      ]

  -- An append that succeeds takes the next LSN and counts it up, puts the serialised entry behind
  -- the log, and meets the strategy: under EveryWrite the whole log is durable then, under
  -- EveryNEntries at most count - 1 entries are uncommitted, and none if count is zero.
  pub append_lem :
      (lsn : ℕ)
      → (append libs env operation w).0 ≡ ok lsn
      → Appended libs env operation w lsn (append libs env operation w).1
  append_lem lsn h =
      let (bytes, serialized, wrote, synced, result) = append_steps lsn h in
      let (log, counted, strategy, promise) =
        sync_by_strategy-Settled env w.sync_strategy (written bytes) refl synced in
      let logs = write_all-Logs env bytes w.file wrote in
      record {
        assigned = ground (arith, sym (ap (λ r. r.0) result) ∙ h);
        counted = ap (λ r. r.1.current_lsn) result ∙ counted;
        bytes = bytes;
        serialized = serialized;
        log = ap (λ r. logged r.1.file) result ∙ log ∙ logs.log;
        strategy = ap (λ r. r.1.sync_strategy) result ∙ strategy;
        promise = subst (MeetsStrategy w.sync_strategy) (sym (ap (λ r. r.1) result)) promise;
      }

-- Behind a truncation the disk may still have the old log.
pub truncate_stale :
    (env : WalEnv) (w : WalWriter)
    → (truncate env w).0 ≡ ok tt
    → w.file.stale ≡ none
    → w.file.buffer ≡ []
    → (truncate env w).1.file.stale ≡ some (on_disk w.file)
unfolding truncate flush_buffer after_crash on_disk
truncate_stale env w h settled empty = ground (arith, append-nil w.file.content)

-- A truncation that succeeds leaves an empty log that starts again at LSN 1, whatever was
-- buffered.
pub truncate_lem :
    (env : WalEnv) (w : WalWriter)
    → (truncate env w).0 ≡ ok tt
    → ((truncate env w).1.file ≡ record {
      content = [];
      durable = 0;
      buffer = [];
      stale = some (after_crash true (flush_buffer env.flush w.file).1);
    })
      × ((truncate env w).1.current_lsn ≡ 1)
      × ((truncate env w).1.uncommitted_count ≡ 0)
      × ((truncate env w).1.sync_strategy ≡ w.sync_strategy)
unfolding truncate flush_buffer
truncate_lem env w h = ground arith
