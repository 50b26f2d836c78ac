-- ===== src/Engine/History.antt =====
-- Histories of the engine (src/engine.rs): commands that succeed and crashes, in any order.
use atlas_kv.Base.{Bool, List, Option, [], ap, none, some, subst, sym, ℕ, ◌∙◌, ◌≡◌}
use atlas_kv.Error.{ok}
use atlas_kv.Protocol.Command.{Command}
use atlas_kv.Storage.{StorageEnv, Directory}
use atlas_kv.Storage.Listing.{Lists}
use atlas_kv.Wal.Writer.{every_write}
use atlas_kv.Wal.Writer.{after_crash}
use atlas_kv.Wal.Entry.{Libraries, IsLawful}
use atlas_kv.Config.{Config}
use atlas_kv.Engine.{Engine, Env, execute}
use atlas_kv.Engine.{get}
use atlas_kv.Engine.View.{get-Shows, Contents, Shows}
use atlas_kv.Engine.Commands.{Fits, effect, done, failed, execute-Executed}
use atlas_kv.Engine.Open.{OpenEnv, open_engine, open_with}
use atlas_kv.Engine.Opening.{open_with-ok}
use atlas_kv.Engine.Crash.{CommandFits, execute-Recoverable}
use atlas_kv.Engine.Recovered.{open_engine-Recoverable, ok_injective}
use atlas_kv.Engine.Kept.{HasRoom, execute-Kept}
use atlas_kv.Engine.Unchanged.{execute-config}
use atlas_kv.Engine.Reopened.{Sound, opened-Sound, fresh-Sound}
use atlas_kv.Engine.Recoverable.{some_injective}

-- One event in the life of the store: a command that succeeds, or a crash with an open behind it.
-- The format can hold what the command writes, ids are left, and the system calls of an open
-- succeed. The directory is listed in any order, and the last truncation of the log may be lost. A state is the engine with the contents that a client expects of it.
pub data Step (libs : Libraries) : Engine × Contents → Engine × Contents → Type 0 where
  command :
      (env : Env) (c : Command) (e : Engine) (f : Contents) (a : Option (List ℕ))
      → Fits c e.memtable
      → CommandFits libs env c e
      → HasRoom e
      → (execute libs env c e).0 ≡ ok a
      → Step libs (e, f) ((execute libs env c e).1, effect c f)
  crash :
      (late : Bool) (directory : Directory) (env : OpenEnv) (e e' : Engine) (f : Contents)
      → HasRoom e
      → Lists e.storage.directory directory
      → env.flushing.create ≡ none
      → env.flushing.finish ≡ none
      → open_with libs env e.config directory (some (after_crash late e.wal.file)) ≡ some (ok e')
      → Step libs (e, f) (e', f)

pub data History (libs : Libraries) (from : Engine × Contents) : Engine × Contents → Type 0 where
  here : History libs from from
  next : {s t : Engine × Contents} → History libs from s → Step libs s t → History libs from t

module _ (libs : Libraries) (lawful : IsLawful libs) where
  pub command-Sound :
      (env : Env) (c : Command) (e : Engine) (f : Contents) (a : Option (List ℕ))
      → Fits c e.memtable
      → CommandFits libs env c e
      → HasRoom e
      → (execute libs env c e).0 ≡ ok a
      → Sound libs e f
      → Sound libs (execute libs env c e).1 (effect c f)
  command-Sound env c e f a fits width room h sound = record {
    shows = elim (execute-Executed libs env c e f fits sound.shows) [
      | done r shows ↦ shows
      | failed x r shows ↦ cc
    ];
    recoverable = execute-Recoverable libs env c e f a width fits sound.shows sound.recoverable h;
    kept = execute-Kept libs env c e a room fits sound.kept h;
    strategy = ap (λ k. k.wal_sync_strategy) (execute-config libs env c e) ∙ sound.strategy;
  }

  pub crash-Sound :
      (late : Bool) (directory : Directory) (env : StorageEnv) (e e' : Engine) (f : Contents)
      → HasRoom e
      → Lists e.storage.directory directory
      → env.create ≡ none
      → env.finish ≡ none
      → open_engine libs env e.config directory (some (after_crash late e.wal.file)) ≡ some (ok e')
      → Sound libs e f
      → Sound libs e' f
  crash-Sound late directory env e e' f room listed create finish opened sound =
      let (e2, opened2, shows) =
        open_engine-Recoverable libs lawful late directory env e f sound.kept.ts sound.shows
          sound.recoverable sound.kept.stored listed sound.kept.fits create finish in
      let same : e2 ≡ e' =
        ok_injective libs e2 e' (some_injective libs (ok e2) (ok e') (sym opened2 ∙ opened)) in
      opened-Sound libs lawful late directory env e e' f sound room listed opened
        (subst (λ x. Shows libs x f) same shows)

  Step-Sound : {s t : Engine × Contents} → Step libs s t → Sound libs s.0 s.1 → Sound libs t.0 t.1
  Step-Sound (command env c e f a fits width room h) sound =
      command-Sound env c e f a fits width room h sound
  Step-Sound (crash late directory env e e' f room listed create finish opened) sound =
      crash-Sound late directory env.flushing e e' f room listed create finish
        (open_with-ok libs env e.config directory (some (after_crash late e.wal.file)) e' opened).2
        sound

  -- Commands and crashes.
  pub History-Sound :
      {s t : Engine × Contents} → Sound libs s.0 s.1 → History libs s t → Sound libs t.0 t.1
  History-Sound sound here = sound
  History-Sound sound (next h st) = Step-Sound st (History-Sound sound h)

  -- After any history of a sound engine each key reads as on a map.
  pub History-get :
      {s t : Engine × Contents} (key : List ℕ)
      → Sound libs s.0 s.1
      → History libs s t
      → get libs t.0 key ≡ ok (t.1 key)
  History-get {t = t} key sound h = get-Shows libs t.0 t.1 key (History-Sound sound h).shows

  -- With libraries that keep their promises and under WalSyncStrategy::EveryWrite, a store that
  -- was opened on an empty directory without a log: after any history of commands that succeed and
  -- of crashes with an open behind them, where the format can hold the memtable, the data of an
  -- entry fit the width of their length, table ids are left and the system calls of the flush of
  -- an open succeed, whatever the order in which an open lists the directory, and whether or not a
  -- crash undoes the last truncation of the log that was not synced, each key reads as on a map
  -- that was empty at first.
  pub store-get :
      (env : OpenEnv) (config : Config) (e : Engine) {t : Engine × Contents} (key : List ℕ)
      → config.wal_sync_strategy ≡ every_write
      → open_with libs env config [] none ≡ some (ok e)
      → History libs (e, λ j. none) t
      → get libs t.0 key ≡ ok (t.1 key)
  store-get env config e key strategy opened h =
      let (dirs, writable, opened1) = open_with-ok libs env config [] none e opened in
      let (e2, opened2, sound) = fresh-Sound libs env.flushing config strategy in
      let same : e2 ≡ e =
        ok_injective libs e2 e (some_injective libs (ok e2) (ok e) (sym opened2 ∙ opened1)) in
      History-get key (subst (λ x. Sound libs x (λ j. none)) same sound) h
