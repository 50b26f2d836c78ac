-- ===== src/Tests/Histories.antt =====
-- Histories of the engine of `Samples`, and of a new store.
use atlas_kv.Base.{
  List, Option, [], ap, arith, length, none, refl, some, subst, sym, to_le, true, ℕ, ◌∙◌, ◌∷◌, ◌≡◌,
}
use mathlib.Core.Option
use atlas_kv.Error.{ok, err, io, other, unexpected_eof}
use atlas_kv.Sstable.Reader.{open_table}
use atlas_kv.Storage.{StorageEnv}
use atlas_kv.Engine.{Env, flush}
use atlas_kv.Engine.Blocked.{flush-blocks_open}
use atlas_kv.BTreeMap
use atlas_kv.BTreeMap.{compare_bytes}
use atlas_kv.MemTable
use atlas_kv.Protocol.Command.{Command}
use atlas_kv.Sstable.Format.{entry_bytes}
use atlas_kv.Sstable.Opened.{CanHold}
use atlas_kv.Wal.Writer.{every_write}
use atlas_kv.Wal.Entry.{Operation}
use atlas_kv.Config.{Config}
use atlas_kv.Config.Builder
use atlas_kv.Engine.{Engine, get, execute}
use atlas_kv.Engine.View.{Contents, Shows}
use atlas_kv.Engine.Commands.{effect}
use atlas_kv.Engine.Open.{open_engine}
use atlas_kv.Engine.Reopened.{Sound, fresh-Sound, fresh_engine}
use atlas_kv.Engine.History.{History, here, next, command, crash, command-Sound, store-get}
use atlas_kv.Engine.Recovered.{open_engine-Recoverable}
use atlas_kv.Engine.Open.{OpenEnv}
use atlas_kv.Engine.Opening.{open_with-calm}
use atlas_kv.Engine.Kept.{HasRoom}
use atlas_kv.Wal.Writer.{after_crash}
use atlas_kv.Storage
use atlas_kv.Storage.{open_storage}
use atlas_kv.Storage.Reopen.{manager_of}
use atlas_kv.Wal.Writer.{append, write_all, sync_by_strategy, sync, flush_buffer}
use atlas_kv.Wal.Entry.{serialize, crc_buffer, layout}
use atlas_kv.Engine.{put, log_operation, flush_if_full}
use atlas_kv.Engine.Recoverable.{DataFit}
use atlas_kv.Engine.Open.{started, with_storage}
use atlas_kv.Tests.Samples.{
  libs, libs-IsLawful, memory-CanHold, tables, manager-Stored, engine, engine-Shows,
  engine-Recoverable, contents, calm_env, calm_storage, memory-full, swapped, swapped-Lists,
}
use atlas_kv.Tests.Engines.{delete_fits, delete_done, delete_one}

engine-Sound : Sound libs engine contents
engine-Sound = record {
  shows = engine-Shows;
  recoverable = engine-Recoverable;
  kept = record { ts = tables; stored = manager-Stored; fits = memory-CanHold };
  strategy = refl;
}

abbrev after_delete : Engine × Contents
after_delete = (
  (execute libs calm_env (Command.delete (1 ∷ [])) engine).1,
  effect (Command.delete (1 ∷ [])) contents,
)

one_delete : History libs (engine, contents) after_delete
one_delete = next here (
    command calm_env (Command.delete (1 ∷ [])) engine contents none delete_one delete_fits
      (omega arith) delete_done)

-- A new store, and a put in it.
abbrev pub config : Config
config =
    Builder.build
      (Builder.memtable_size_limit 1000 (Builder.wal_sync_strategy every_write Builder.builder))

abbrev pub new_store : Engine
new_store = started [] config MemTable.new (manager_of libs.crc32 [] [])

put_one : CanHold (MemTable.put new_store.memtable (4 ∷ []) (5 ∷ [])).0.table
unfolding MemTable.put MemTable.write BTreeMap.insert compare_bytes entry_bytes to_le
put_one = record {
  sorted = (tt, tt);
  each = ((omega arith, omega arith), tt);
  offsets = omega arith;
  count = omega arith;
}

put_fits : DataFit libs calm_env (Operation.put (4 ∷ []) (5 ∷ [])) new_store
put_fits bytes h = omega (arith, ap (λ o. length (Option.get_or o [])) h)

put_done : (execute libs calm_env (Command.put (4 ∷ []) (5 ∷ [])) new_store).0 ≡ ok none
unfolding execute put log_operation append serialize layout crc_buffer to_le write_all
    sync_by_strategy sync flush_buffer flush_if_full MemTable.put MemTable.write BTreeMap.insert
    compare_bytes BTreeMap.get BTreeMap.same_key
put_done = refl

put_room : HasRoom (execute libs calm_env (Command.put (4 ∷ []) (5 ∷ [])) new_store).1
unfolding execute put log_operation append serialize layout crc_buffer to_le write_all
    sync_by_strategy sync flush_buffer flush_if_full MemTable.put MemTable.write BTreeMap.insert
    compare_bytes BTreeMap.get BTreeMap.same_key
put_room = omega arith

abbrev after_put : Engine × Contents
after_put = (
  (execute libs calm_env (Command.put (4 ∷ []) (5 ∷ [])) new_store).1,
  effect (Command.put (4 ∷ []) (5 ∷ [])) (λ j. none),
)

one_put : History libs (new_store, λ j. none) after_put
one_put = next here (
    command calm_env (Command.put (4 ∷ []) (5 ∷ [])) new_store (λ j. none) none put_one put_fits
      (omega arith) put_done)

pub opened_new : open_engine libs calm_storage config [] none ≡ some (ok new_store)
unfolding open_engine with_storage open_storage Storage.open_all Storage.newest_first
opened_new = refl

new_store-Sound : Sound libs new_store (λ j. none)
new_store-Sound =
    let (e, opened, sound) = fresh-Sound libs calm_storage config refl in
    subst (λ x. Sound libs x (λ j. none)) (sym (fresh_engine libs calm_storage config e opened))
      sound

after_put-Sound : Sound libs after_put.0 after_put.1
after_put-Sound =
    command-Sound libs libs-IsLawful calm_env (Command.put (4 ∷ []) (5 ∷ [])) new_store (λ j. none)
      none put_one put_fits (omega arith) put_done new_store-Sound

abbrev calm_open : OpenEnv
calm_open = record { create_dirs = none; read_log = none; open_log = none; flushing = calm_storage }

-- A crash behind the put, and the open behind the crash.
reopened :
    (e : Engine) × (open_engine libs calm_storage after_put.0.config
        (swapped after_put.0.storage.directory)
        (some (after_crash true after_put.0.wal.file))
      ≡ some (ok e))
    × Shows libs e after_put.1
reopened =
    open_engine-Recoverable libs libs-IsLawful true (swapped after_put.0.storage.directory)
      calm_storage after_put.0 after_put.1 after_put-Sound.kept.ts after_put-Sound.shows
      after_put-Sound.recoverable after_put-Sound.kept.stored
      (swapped-Lists after_put.0.storage.directory) after_put-Sound.kept.fits refl refl

put_and_crash : History libs (new_store, λ j. none) (reopened.0, after_put.1)
put_and_crash = next one_put (
    crash true (swapped after_put.0.storage.directory) calm_open after_put.0 reopened.0 after_put.1
      put_room (swapped-Lists after_put.0.storage.directory) refl refl
      (open_with-calm libs calm_open after_put.0.config (swapped after_put.0.storage.directory)
          (some (after_crash true after_put.0.wal.file)) refl refl refl
        ∙ reopened.1))

store-get_example : get libs reopened.0 (4 ∷ []) ≡ ok (after_put.1 (4 ∷ []))
store-get_example =
    store-get libs libs-IsLawful calm_open config new_store (4 ∷ []) refl
      (open_with-calm libs calm_open config [] none refl refl refl ∙ opened_new) put_and_crash

-- A flush that fails behind the creation of its file, which stays empty.
abbrev failing_env : Env
failing_env = record calm_env {
  flushing = record { create = none; finish = some other; left = [] };
}

empty_refused : open_table [] ≡ err (io unexpected_eof)
unfolding open_table
empty_refused = refl

flush-blocks_open_example :
    ((flush libs failing_env engine).0 ≡ err (io other))
    × ((key : List ℕ) → get libs (flush libs failing_env engine).1 key ≡ ok (contents key))
    × ((later : StorageEnv) (config : Config) (log : Option (List ℕ))
        → open_engine libs later config (flush libs failing_env engine).1.storage.directory log
          ≡ some (err (io unexpected_eof)))
flush-blocks_open_example =
    flush-blocks_open libs failing_env engine contents other (io unexpected_eof) engine-Sound.kept
      engine-Shows memory-full refl refl refl empty_refused
