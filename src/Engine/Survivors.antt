-- ===== src/Engine/Survivors.antt =====
-- A client's commands on a new store and then a crash with an open behind it (src/engine.rs), on any
-- sync strategy: which of the writes the open finds.
use atlas_kv.Base.{
  All, Bool, List, [], ap, append-nil, append_assoc, arith, inl, inr, none, refl, some, subst, sym,
  total, total-append, ℕ, ◌++◌, ◌+◌, ◌<◌, ◌^◌, ◌∙◌, ◌∷◌, ◌≡◌, ◌≤◌,
}
use atlas_kv.Error.{ok}
use atlas_kv.MemTable
use atlas_kv.Protocol.Command.{Command}
use atlas_kv.Sstable.Format.{header_size}
use atlas_kv.Storage.{StorageEnv}
use atlas_kv.Storage.Reopen.{manager_of}
use atlas_kv.Wal.Durability.{KeepsTruncation, after_crash-on_disk}
use atlas_kv.Wal.Writer.{after_crash}
use atlas_kv.Wal.Entry.{Libraries, IsLawful}
use atlas_kv.Wal.Lag.{open_writer-Lags}
use atlas_kv.Wal.Durability.{KeepsTruncation, after_crash-on_disk}
use atlas_kv.Wal.Writer.{after_crash, WalSyncStrategy}
use mathlib.Core.List.{Permᴰ}
use atlas_kv.Storage.{Directory}
use atlas_kv.Storage.Listing.{Lists}
use atlas_kv.Wal.Appending.{allowance}
use atlas_kv.Config.{Config}
use atlas_kv.Engine.{Engine, Env, execute, get, replay}
use atlas_kv.Engine.Behind.{Behind, settled-Behind}
use atlas_kv.Engine.Calm.{IsCalm, IsUnlocked, Serializes, execute-Succeeds}
use atlas_kv.Engine.Commands.{answer, effect}
use atlas_kv.Engine.Kept.{Kept, execute-Kept, CanHold-nil}
use atlas_kv.Engine.Found.{reopen-Behind}
use atlas_kv.Engine.Narrow.{IsCompact, IsNarrow, IsNarrow-IsSmall, IsNarrow-CommandFits}
use atlas_kv.Engine.Loss.{writes, execute-Moves}
use atlas_kv.Engine.Open.{open_engine, started}
use atlas_kv.Engine.Reopened.{fresh_engine, started-Kept}
use atlas_kv.Engine.Restart.{fresh-Shows}
use atlas_kv.Engine.Run.{run, after, after-append, execute-Shows}
use atlas_kv.Engine.Sizes.{Within, weight, Within-Fits, Within-HasRoom, execute-Within}
use atlas_kv.Sstable.Room.{TableWithin-nil}
use atlas_kv.Engine.View.{Shows, get-Shows}

abbrev pub total_writes : List (Env × Command) → ℕ
total_writes cs = total (λ c. writes c.1) cs

abbrev pub IsOrderly : Env × Command → Type 0
IsOrderly (env, c) = IsCalm env × IsNarrow c

-- An engine after the commands `cs`: the disk has the contents after the first of them, and the
-- writes among the others are no more than what waits in the log.
pub record Survives (libs : Libraries) (strategy : WalSyncStrategy) (n : ℕ)
    (cs : List (Env × Command)) (e : Engine) : Type 0 where
  pub saved : List (Env × Command)
  pub lost : List (Env × Command)
  pub split : cs ≡ saved ++ lost
  pub behind : Behind libs strategy (after saved (λ key. none)) (total_writes lost) e
  pub shows : Shows libs e (after cs (λ key. none))
  pub kept : Kept libs e
  pub within : Within n e
  pub unlocked : IsUnlocked e

module _ (libs : Libraries) (lawful : IsLawful libs) (serializes : Serializes libs)
    (compact : IsCompact libs) (strategy : WalSyncStrategy) where
  execute-Survives :
      (env : Env) (c : Command) (n : ℕ) (cs : List (Env × Command)) (e : Engine)
      → IsCalm env
      → IsNarrow c
      → header_size + (n + weight c) < 2 ^ 64
      → Survives libs strategy n cs e
      → Survives libs strategy (n + weight c) (cs ++ ((env, c) ∷ [])) (execute libs env c e).1
  execute-Survives env c n cs e is_calm narrow room s =
      let f = after cs (λ key. none) in
      let g = after s.saved (λ key. none) in
      let one : List (Env × Command) = (env, c) ∷ [] in
      let e' = (execute libs env c e).1 in
      let small = IsNarrow-IsSmall c narrow in
      let fits = Within-Fits c n e small room s.within in
      let x = execute-Succeeds libs serializes env is_calm c e f fits s.shows s.unlocked in
      let same : after (cs ++ one) (λ key. none) ≡ effect c f = after-append cs one (λ key. none) in
      let shows : Shows libs e' (after (cs ++ one) (λ key. none)) =
        subst (Shows libs e') (sym same)
          (execute-Shows libs serializes env c e f fits s.shows x.done) in
      let kept =
        execute-Kept libs env c e (answer c f) (Within-HasRoom n e (omega arith) s.within) fits
          s.kept x.done in
      let within = execute-Within libs env c n e small s.within in
      elim (execute-Moves libs strategy env c e (answer c f) f g (total_writes s.lost)
        (IsNarrow-CommandFits libs env c e compact narrow) fits s.shows s.behind x.done) [
          | inl b ↦ record {
            saved = cs ++ one;
            lost = [];
            split = sym (append-nil (cs ++ one));
            behind = subst (λ h. Behind libs strategy h 0 e') (sym same) b;
            shows = shows;
            kept = kept;
            within = within;
            unlocked = x.unlocked;
          }
          | inr b ↦ record {
            saved = s.saved;
            lost = s.lost ++ one;
            split = ap (λ l. l ++ one) s.split ∙ append_assoc s.saved s.lost one;
            behind =
                subst (λ k. Behind libs strategy g k e')
                  (omega (arith, total-append (λ c. writes c.1) s.lost one)) b;
            shows = shows;
            kept = kept;
            within = within;
            unlocked = x.unlocked;
          }
        ]

  pub run-Survives :
      (cs ds : List (Env × Command)) (n : ℕ) (e : Engine)
      → All IsOrderly ds
      → header_size + (n + total (λ c. weight c.1) ds) < 2 ^ 64
      → Survives libs strategy n cs e
      → Survives libs strategy (n + total (λ c. weight c.1) ds) (cs ++ ds) (run libs ds e).1
  unfolding run
  run-Survives cs [] n e orderly room s =
      rw (append-nil cs) (subst (λ k. Survives libs strategy k cs e) (omega arith) s)
  run-Survives cs ((env, c) ∷ ds) n e ((is_calm, narrow), orderly) room s =
      let rest =
        run-Survives (cs ++ ((env, c) ∷ [])) ds (n + weight c) (execute libs env c e).1 orderly
          (omega arith) (execute-Survives env c n cs e is_calm narrow (omega arith) s) in
      subst
        (λ k.
          Survives libs strategy k (cs ++ ((env, c) ∷ ds)) (run libs ds (execute libs env c e).1).1)
        (omega arith)
        (subst
          (λ l.
            Survives libs strategy (n + weight c + total (λ c. weight c.1) ds) l
              (run libs ds (execute libs env c e).1).1)
          (append_assoc cs ((env, c) ∷ []) ds) rest)

  pub fresh-Survives :
      (config : Config)
      → config.wal_sync_strategy ≡ strategy
      → Survives libs strategy 0 [] (started [] config MemTable.new (manager_of libs.crc32 [] []))
  fresh-Survives config strategy_eq =
      let s = manager_of libs.crc32 [] [] in
      let e0 = started [] config MemTable.new s in
      let shows = fresh-Shows libs [] config s [] (record { readers = refl; hold = tt }) in
      record {
        saved = [];
        lost = [];
        split = refl;
        behind =
            settled-Behind libs strategy (λ key. none) e0 [] shows
              (open_writer-Lags libs [] config.wal_sync_strategy) (unfold replay in refl)
              CanHold-nil strategy_eq (omega arith);
        shows = shows;
        kept = started-Kept libs [] config s [] (record {
          files = Permᴰ.nil;
          serves = record { readers = refl; hold = tt };
          descends = tt;
        });
        within = record { table = TableWithin-nil 0; ids = omega arith };
        unlocked = record { writes = refl; log = refl };
      }

  -- With libraries that keep their promises, and a serialisation that never fails and adds at most
  -- 64 bytes to key and value: a client sends any commands to a store that was opened on an empty
  -- directory without a log, where no system call fails, 64 bytes with a key and its value are
  -- fewer than 2 ^ 32 and all that is written is below 2 ^ 64 bytes. Then the store crashes and is
  -- opened again on its directory, listed in any order, where no system call fails and a
  -- truncation of the log that was not synced has reached the disk all the same. The open
  -- succeeds, and each key reads as after the first of the commands; of the others no more are
  -- writes than EveryNEntries counts, less one, and none under EveryWrite.
  pub run-crash :
      (opening env : StorageEnv) (config : Config) (e : Engine) (cs : List (Env × Command))
      (late : Bool) (directory : Directory)
      → config.wal_sync_strategy ≡ strategy
      → open_engine libs opening config [] none ≡ some (ok e)
      → All IsOrderly cs
      → header_size + total (λ c. weight c.1) cs < 2 ^ 64
      → KeepsTruncation late (run libs cs e).1.wal.file
      → Lists (run libs cs e).1.storage.directory directory
      → env.create ≡ none
      → env.finish ≡ none
      → (saved : List (Env × Command)) × (lost : List (Env × Command)) × (cs ≡ saved ++ lost)
        × (total_writes lost ≤ allowance strategy)
        × (e' : Engine) × (let crashed = (run libs cs e).1 in
            open_engine libs env crashed.config directory (some (after_crash late crashed.wal.file))
            ≡ some (ok e'))
        × ((key : List ℕ) → get libs e' key ≡ ok (after saved (λ key. none) key))
  run-crash opening env config e cs late directory strategy_eq opened orderly room keeps listed
        create finish =
      let same = fresh_engine libs opening config e opened in
      let survives =
        run-Survives [] cs 0 e orderly (omega arith)
          (subst (Survives libs strategy 0 []) same (fresh-Survives config strategy_eq)) in
      let b = survives.behind in
      let (e', reopened, found) =
        reopen-Behind libs lawful strategy env (run libs cs e).1 directory _ _ b survives.kept
          listed create finish in
      (
        survives.saved,
        survives.lost,
        survives.split,
        omega (arith, b.lost, b.lags.count, b.promise),
        e',
        ap (λ log. open_engine libs env (run libs cs e).1.config directory (some log))
              (after_crash-on_disk late _ keeps)
            ∙ reopened,
        λ key. get-Shows libs e' (after survives.saved (λ key. none)) key found,
      )
