-- ===== src/Engine/Reopened.antt =====
-- An engine that would show its contents again after a crash (src/engine.rs), and what an open
-- behind the crash leaves of that.
use atlas_kv.Base.{
  Bool, Bool-cases, List, [], ap, arith, inl, inr, none, refl, some, subst, sym, ℕ, ◌+◌, ◌<◌, ◌^◌,
  ◌∙◌, ◌≡◌, ◌≤◌,
}
use atlas_kv.Error.{ok, Result-cases}
use atlas_kv.MemTable
use atlas_kv.MemTable.{MemTable}
use atlas_kv.Sstable.Opened.{CanHold}
use atlas_kv.Storage
use atlas_kv.Storage.{StorageManager, StorageEnv, open_storage}
use atlas_kv.Storage.Flush.{flush-needs, flush-next_sstable_id}
use atlas_kv.Storage.Reopen.{
  Tables, Stored, manager_of, open_storage-manager_of, manager_of-Stored, next_id_room,
  flush-Stored,
}
use atlas_kv.Wal.Entry.{WalEntry, Libraries, IsLawful}
use atlas_kv.Wal.Replay.{entries_of, recover-log}
use atlas_kv.Wal.Writer.{every_write}
use atlas_kv.Config.{Config}
use atlas_kv.Engine.{Engine, replay}
use atlas_kv.Engine.Replayed.{replay-empty}
use atlas_kv.Engine.Restart.{fresh-Shows}
use atlas_kv.Engine.View.{Contents, Shows}
use atlas_kv.Engine.Open.{started, recovered, after_recovery, with_storage, open_engine}
use atlas_kv.Engine.Recoverable.{Recoverable, Repeats, some_injective}
use atlas_kv.Wal.Recovery.{recover}
use atlas_kv.Storage.{Directory}
use atlas_kv.Storage.Listing.{Lists}
use mathlib.Core.List.{Permᴰ}
use atlas_kv.BTreeMap
use atlas_kv.Storage.Reopen.{relisted-Stored}
use atlas_kv.Wal.Writer.{after_crash}
use atlas_kv.Engine.Recovered.{Recoverable-Gives, ok_injective}
use atlas_kv.Engine.Kept.{Kept, HasRoom, CanHold-nil}

-- An engine that shows these contents and would show them again after a crash.
pub record Sound (libs : Libraries) (e : Engine) (f : Contents) : Type 0 where
  pub shows : Shows libs e f
  pub recoverable : Recoverable libs e f
  pub kept : Kept libs e
  pub strategy : e.config.wal_sync_strategy ≡ every_write

module _ (libs : Libraries) where
  -- An engine that was just opened, on tables that are stored.
  started-Recoverable :
      (log : List ℕ) (config : Config) (s : StorageManager) (f : Contents)
      → config.wal_sync_strategy ≡ every_write
      → Repeats libs log f
      → Recoverable libs (started log config MemTable.new s) f
  started-Recoverable log config s f strategy repeats = record {
    entries = [];
    holds = record {
      strategy = strategy;
      counter = omega arith;
      written = tt;
      log = refl;
      empty = refl;
      durable = refl;
    };
    memory = unfold replay in refl;
    stale = λ old h. (refl, subst (λ l. Repeats libs l f) (some_injective libs log old h) repeats);
  }

  -- A log file that was not there repeats anything.
  nothing-Repeats : (f : Contents) → Repeats libs [] f
  unfolding replay MemTable.get BTreeMap.get
  nothing-Repeats f = record {
    entries = [];
    written = tt;
    bytes = refl;
    fits = CanHold-nil;
    agrees = λ key entry h. cc h;
  }

  pub started-Kept :
      (log : List ℕ) (config : Config) (s : StorageManager) (ts : Tables)
      → Stored libs.crc32 s ts
      → Kept libs (started log config MemTable.new s)
  started-Kept log config s ts stored = record { ts = ts; stored = stored; fits = CanHold-nil }

  recovered-started :
      (env : StorageEnv) (log : List ℕ) (config : Config) (s : StorageManager) (ts : Tables)
      (entries : List WalEntry) (e : Engine)
      → Stored libs.crc32 s ts
      → CanHold (replay entries MemTable.new).table
      → s.next_sstable_id + 1 < 2 ^ 64
      → recovered libs env log config s entries ≡ ok e
      → (s' : StorageManager) × (ts' : Tables) × Stored libs.crc32 s' ts'
        × (e ≡ started log config MemTable.new s')
        × (s'.next_sstable_id ≤ s.next_sstable_id + 1)
  unfolding recovered
  recovered-started env log config s ts entries e stored can room h =
      let m = replay entries MemTable.new in
      elim (Bool-cases (MemTable.is_empty m)) [
        | inl empty ↦ (
          s,
          ts,
          stored,
          sym (ok_injective libs (started log config m s) e (simp empty at h))
              ∙ ap (λ m. started log config m s) (replay-empty entries empty),
          omega arith,
        )
        | inr full ↦ elim (Result-cases (Storage.flush env libs.crc32 m s).0) [
          | inr (x, f) ↦ cc (simp (full, f) at h)
          | inl (metadata, f) ↦
              let (full', create, finish) = flush-needs env libs.crc32 m s metadata f in
              let (metadata', f', stored') =
                flush-Stored env libs.crc32 m s ts stored can full create finish room in
              (
                (Storage.flush env libs.crc32 m s).1,
                _,
                stored',
                sym (
                    ok_injective libs
                      (started log config MemTable.new (Storage.flush env libs.crc32 m s).1) e
                      (unfold MemTable.clear in (simp (full, f) at h))),
                flush-next_sstable_id env libs.crc32 m s,
              )
        ]
      ]

  -- What the log and the tables give back.
  opened-recovered :
      IsLawful libs
      → (env : StorageEnv) (e : Engine) (f : Contents) (ts : Tables) (directory : Directory)
        (log : List ℕ) (r : Repeats libs log f)
      → Stored libs.crc32 (record e.storage { directory = directory }) ts
      → open_engine libs env e.config directory (some log)
        ≡ some (
            recovered libs env log e.config
              (manager_of libs.crc32 directory ts)
              (entries_of r.entries))
  unfolding open_engine with_storage after_recovery
  opened-recovered lawful env e f ts directory log r stored =
      rw
        (
          open_storage-manager_of libs.crc32 (record e.storage { directory = directory }) ts stored,
          ap (recover libs) r.bytes ∙ recover-log libs lawful r.entries r.written,
        )
        refl

  -- What was opened behind a crash is started on tables that are stored.
  pub opened-started :
      IsLawful libs
      → (late : Bool) (directory : Directory) (env : StorageEnv) (e e' : Engine) (f : Contents)
        (sound : Sound libs e f)
      → HasRoom e
      → Lists e.storage.directory directory
      → open_engine libs env e.config directory (some (after_crash late e.wal.file)) ≡ some (ok e')
      → (s' : StorageManager) × (ts' : Tables) × Stored libs.crc32 s' ts'
        × (e' ≡ started (after_crash late e.wal.file) e.config MemTable.new s')
        × (s'.next_sstable_id ≤ (manager_of libs.crc32 directory sound.kept.ts).next_sstable_id + 1)
  opened-started lawful late directory env e e' f sound room listed opened =
      let kept = sound.kept in
      let ts = kept.ts in
      let log = after_crash late e.wal.file in
      let small : e.storage.next_sstable_id < 2 ^ 64 = omega arith in
      let s = record e.storage { directory = directory } in
      let stored = relisted-Stored libs.crc32 e.storage ts directory kept.stored listed in
      let (r, gives) = Recoverable-Gives libs late e f sound.shows kept.fits sound.recoverable in
      recovered-started env log e.config (manager_of libs.crc32 directory ts) ts
        (entries_of r.entries) e' (manager_of-Stored libs.crc32 s ts stored small) r.fits
        (next_id_room e.storage.next_sstable_id ts room kept.stored.descends)
        (some_injective libs _ (ok e')
          (sym (opened-recovered lawful env e f ts directory log r stored) ∙ opened))

  -- An engine that was opened again behind a crash is as sound as the one that was lost.
  pub opened-Sound :
      IsLawful libs
      → (late : Bool) (directory : Directory) (env : StorageEnv) (e e' : Engine) (f : Contents)
      → Sound libs e f
      → HasRoom e
      → Lists e.storage.directory directory
      → open_engine libs env e.config directory (some (after_crash late e.wal.file)) ≡ some (ok e')
      → Shows libs e' f
      → Sound libs e' f
  opened-Sound lawful late directory env e e' f sound room listed opened shows =
      let log = after_crash late e.wal.file in
      let (s', ts', stored, e_eq, ids) =
        opened-started lawful late directory env e e' f sound room listed opened in
      let (r, gives) =
        Recoverable-Gives libs late e f sound.shows sound.kept.fits sound.recoverable in
      record {
        shows = shows;
        recoverable =
            subst (λ x. Recoverable libs x f) (sym e_eq)
              (started-Recoverable log e.config s' f sound.strategy r);
        kept = subst (Kept libs) (sym e_eq) (started-Kept log e.config s' ts' stored);
        strategy = ap (λ x. x.config.wal_sync_strategy) e_eq ∙ sound.strategy;
      }

  -- The engine that such an open returns.
  pub fresh_engine :
      (opening : StorageEnv) (config : Config) (e : Engine)
      → open_engine libs opening config [] none ≡ some (ok e)
      → started [] config MemTable.new (manager_of libs.crc32 [] []) ≡ e
  unfolding open_engine with_storage open_storage Storage.open_all Storage.newest_first
  fresh_engine opening config e h = ok_injective libs _ e (some_injective libs _ (ok e) h)

  -- A store in an empty directory, opened for the first time, has nothing in it.
  pub fresh-Sound :
      (env : StorageEnv) (config : Config)
      → config.wal_sync_strategy ≡ every_write
      → (e : Engine) × (open_engine libs env config [] none ≡ some (ok e))
        × Sound libs e (λ key. none)
  unfolding open_engine with_storage open_storage Storage.open_all Storage.newest_first
  fresh-Sound env config strategy =
      let s = manager_of libs.crc32 [] [] in
      let stored : Stored libs.crc32 s [] = record {
        files = Permᴰ.nil;
        serves = record { readers = refl; hold = tt };
        descends = tt;
      } in
      (
        started [] config MemTable.new s,
        refl,
        record {
          shows = fresh-Shows libs [] config s [] stored.serves;
          recoverable =
              started-Recoverable [] config s (λ key. none) strategy
                (nothing-Repeats (λ key. none));
          kept = started-Kept [] config s [] stored;
          strategy = strategy;
        },
      )
