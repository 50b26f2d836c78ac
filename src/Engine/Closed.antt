-- ===== src/Engine/Closed.antt =====
-- `Engine::close` (src/engine.rs), on any sync strategy.
use atlas_kv.Base.{
  All, Bool, Bool-cases, List, [], ap, arith, false, inl, inr, none, refl, some, subst, total, true,
  ℕ, ◌++◌, ◌+◌, ◌<◌, ◌^◌, ◌∙◌, ◌≡◌,
}
use atlas_kv.Error.{Result, ok}
use atlas_kv.MemTable
use atlas_kv.Protocol.Command.{Command}
use atlas_kv.Sstable.Format.{header_size}
use atlas_kv.Storage.{StorageEnv}
use atlas_kv.Wal.Calm.{sync-ok}
use atlas_kv.Wal.Writer.{after_crash}
use atlas_kv.Storage.{Directory}
use atlas_kv.Wal.Durability.{after_crash-on_disk}
use atlas_kv.Storage.Listing.{Lists}
use atlas_kv.Wal.Durability.{sync-Synced}
use atlas_kv.Wal.Entry.{Libraries, IsLawful}
use atlas_kv.Wal.Lag.{sync-Lags}
use atlas_kv.Wal.Writer.{WalSyncStrategy, sync}
use atlas_kv.Config.{Config}
use atlas_kv.Engine.{Engine, Env, get, flush, flush_internal, sync_log, close}
use atlas_kv.Engine.Behind.{Behind, settled-Behind}
use atlas_kv.Engine.Calm.{IsCalm, IsUnlocked, Serializes, flush_internal-Succeeds}
use atlas_kv.Engine.Found.{reopen-Behind}
use atlas_kv.Engine.Kept.{Kept, HasRoom, same-Kept, flush_internal-Kept}
use atlas_kv.Engine.Loss.{Moves, flush_internal-Moves}
use atlas_kv.Engine.Narrow.{IsCompact}
use atlas_kv.Engine.Open.{open_engine}
use atlas_kv.Engine.Run.{run, after}
use atlas_kv.Engine.Sizes.{Within-HasRoom, weight}
use atlas_kv.Engine.Survivors.{Survives, IsOrderly, run-Survives, fresh-Survives}
use atlas_kv.Engine.Reopened.{fresh_engine}
use atlas_kv.Engine.View.{Contents, Shows, get-Shows, same_readers-Shows, flush_internal-Shows}

-- Nothing waits, and the engine is whole.
pub record Rests (libs : Libraries) (strategy : WalSyncStrategy) (f : Contents) (e : Engine)
    : Type 0 where
  pub settled : e.wal.file.stale ≡ none
  pub behind : Behind libs strategy f 0 e
  pub kept : Kept libs e

module _ (libs : Libraries) (strategy : WalSyncStrategy) (env : Env) where
  synced-Rests :
      (e : Engine) (f g : Contents) (n : ℕ)
      → (sync env.appending e.wal).0 ≡ ok tt
      → Shows libs e f
      → Kept libs e
      → Behind libs strategy g n e
      → Rests libs strategy f (record e { wal = (sync env.appending e.wal).1 })
  synced-Rests e f g n done shows kept b =
      let e' = record e { wal = (sync env.appending e.wal).1 } in
      let s = sync-Synced env.appending e.wal done in
      record {
        settled = s.settled;
        behind =
            settled-Behind libs strategy f e' (b.synced ++ b.pending)
              (same_readers-Shows libs e e' f refl refl shows)
              (sync-Lags libs env.appending e.wal b.synced b.pending done b.lags) b.memory kept.fits
              (s.strategy ∙ b.strategy_eq) (omega (arith, s.committed));
        kept = same-Kept libs e e' refl kept.fits kept;
      }

  sync-Rests :
      (e : Engine) (f g : Contents) (n : ℕ)
      → (sync env.appending e.wal).0 ≡ ok tt
      → Shows libs e f
      → Kept libs e
      → Moves libs strategy f g n e
      → Rests libs strategy f (record e { wal = (sync env.appending e.wal).1 })
  sync-Rests e f g n done shows kept (inl b) = synced-Rests e f f 0 done shows kept b
  sync-Rests e f g n done shows kept (inr b) = synced-Rests e f g n done shows kept b

  -- The log is synced behind a memtable that is empty or was flushed.
  synced : Engine → Result (Unit {0}) × Engine
  synced e = ((sync env.appending e.wal).0, record e { wal = (sync env.appending e.wal).1 })

  sync_log_good : (e : Engine) → e.wal_poisoned ≡ false → sync_log libs env (ok tt, e) ≡ synced e
  unfolding sync_log synced
  sync_log_good e good = simp good refl

  close_empty :
      (e : Engine)
      → MemTable.is_empty e.memtable ≡ true
      → e.wal_poisoned ≡ false
      → close libs env e ≡ synced e
  unfolding close
  close_empty e empty good = simp empty (sync_log_good e good)

  flush_free :
      (e : Engine)
      → e.write_poisoned ≡ false
      → (flush_internal libs env e).0 ≡ ok tt
      → flush libs env e ≡ (ok tt, (flush_internal libs env e).1)
  unfolding flush
  flush_free e free done =
      simp free (ap (λ (r : Result (Unit {0})). (r, (flush_internal libs env e).1)) done)

  close_full :
      (e : Engine)
      → MemTable.is_empty e.memtable ≡ false
      → e.write_poisoned ≡ false
      → (flush_internal libs env e).0 ≡ ok tt
      → (flush_internal libs env e).1.wal_poisoned ≡ false
      → close libs env e ≡ synced (flush_internal libs env e).1
  unfolding close
  close_full e full free done good = simp full (
      ap (sync_log libs env) (flush_free e free done)
      ∙ sync_log_good (flush_internal libs env e).1 good)

  -- Close on an engine that is whole.
  close-Rests :
      Serializes libs
      → (e : Engine) (f g : Contents) (n : ℕ) → IsCalm env
      → IsUnlocked e
      → HasRoom e
      → Shows libs e f
      → Kept libs e
      → Behind libs strategy g n e
      → ((close libs env e).0 ≡ ok tt) × Rests libs strategy f (close libs env e).1
  unfolding synced
  close-Rests serializes e f g n is_calm unlocked room shows kept b =
      let s = flush_internal-Succeeds libs serializes env is_calm e kept.fits unlocked in
      let flushed = flush_internal-Shows libs env e f kept.fits shows in
      let e' = (flush_internal libs env e).1 in
      elim (Bool-cases (MemTable.is_empty e.memtable)) [
        | inl empty ↦ rw (close_empty e empty unlocked.log) (
          sync-ok env.appending is_calm.appending e.wal,
          synced-Rests e f g n (sync-ok env.appending is_calm.appending e.wal) shows kept b,
        )
        | inr full ↦ rw (close_full e full unlocked.writes s.done s.unlocked.log) (
          sync-ok env.appending is_calm.appending e'.wal,
          sync-Rests e' f g n (sync-ok env.appending is_calm.appending e'.wal) flushed
              (flush_internal-Kept libs env e room kept s.done)
              (flush_internal-Moves libs strategy env e f g n s.done flushed (inr b)),
        )
      ]

module _ (libs : Libraries) (lawful : IsLawful libs) (serializes : Serializes libs)
    (compact : IsCompact libs) (strategy : WalSyncStrategy) where
  -- With libraries that keep their promises, and a serialisation that never fails and adds at most
  -- 64 bytes to key and value: a client sends any commands to a store that was opened on an empty
  -- directory without a log, under any sync strategy; the store is closed, crashes, whether or not
  -- a truncation of the log that was not synced is undone, and is opened again on its directory,
  -- listed in any order, where no system call fails, 64 bytes with a key and its value are fewer
  -- than 2 ^ 32 and all that is written is below 2 ^ 64 bytes. The close and the open succeed, and
  -- each key reads as after all of the commands.
  pub run-close :
      (opening reopening : StorageEnv) (closing : Env) (config : Config) (e : Engine)
      (cs : List (Env × Command)) (late : Bool) (directory : Directory)
      → config.wal_sync_strategy ≡ strategy
      → open_engine libs opening config [] none ≡ some (ok e)
      → All IsOrderly cs
      → IsCalm closing
      → header_size + total (λ c. weight c.1) cs < 2 ^ 64
      → Lists (close libs closing (run libs cs e).1).1.storage.directory directory
      → reopening.create ≡ none
      → reopening.finish ≡ none
      → (let (r, closed) = close libs closing (run libs cs e).1 in
          (r ≡ ok tt)
          × (e' : Engine) × (open_engine libs reopening closed.config directory
                (some (after_crash late closed.wal.file))
              ≡ some (ok e'))
          × ((key : List ℕ) → get libs e' key ≡ ok (after cs (λ key. none) key)))
  run-close opening reopening closing config e cs late directory strategy_eq opened orderly is_calm
        room listed create finish =
      let same = fresh_engine libs opening config e opened in
      let s = run-Survives libs lawful serializes compact strategy [] cs 0 e orderly (omega arith) (
        subst (Survives libs strategy 0 []) same
          (fresh-Survives libs lawful serializes compact strategy config strategy_eq)) in
      let (done, rests) =
        close-Rests libs strategy closing serializes (run libs cs e).1 _ _ _ is_calm s.unlocked
          (Within-HasRoom _ _ (omega arith) s.within) s.shows s.kept s.behind in
      let (e', reopened, found) =
        reopen-Behind libs lawful strategy reopening (close libs closing (run libs cs e).1).1
          directory _ _ rests.behind rests.kept listed create finish in
      (
        done,
        e',
        ap
              (λ log.
                open_engine libs reopening (close libs closing (run libs cs e).1).1.config directory
                  (some log))
              (after_crash-on_disk late _ (λ old there. cc (rests.settled, there)))
            ∙ reopened,
        λ key. get-Shows libs e' (after cs (λ key. none)) key found,
      )
