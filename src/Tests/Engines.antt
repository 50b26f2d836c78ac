-- ===== src/Tests/Engines.antt =====
-- The engine of `Samples`: commands, a flush, a crash and a restart.
use atlas_kv.Base.{[], ap, arith, length, none, refl, some, take, to_le, true, ◌++◌, ◌∷◌, ◌≡◌, ◌≢◌}
use mathlib.Core.Option
use atlas_kv.Error.{ok, err, key_not_found}
use atlas_kv.Engine.Errors.{execute-ne-key_not_found}
use atlas_kv.BTreeMap
use atlas_kv.BTreeMap.{compare_bytes}
use atlas_kv.MemTable
use atlas_kv.MemTable.{MemTable}
use atlas_kv.Protocol.Command.{Command}
use atlas_kv.Sstable.Format.{entry_bytes}
use atlas_kv.Sstable.Opened.{CanHold}
use atlas_kv.Storage.{StorageManager, open_storage}
use atlas_kv.Storage.Reads.{Serves}
use atlas_kv.Storage.Reopen.{contents_of, open_storage-Stored}
use atlas_kv.Wal.Writer.{append, write_all, sync_by_strategy, sync, flush_buffer}
use atlas_kv.Engine.{flush_if_full}
use atlas_kv.Wal.Entry.{serialize, crc_buffer, Operation, layout}
use atlas_kv.Wal.Replay.{log_bytes, entries_of}
use atlas_kv.Engine.{Engine, get, flush, delete, execute, replay, replay_entry, log_operation}
use atlas_kv.Engine.View.{Shows, get-Shows, flush-Shows}
use atlas_kv.Engine.Commands.{Executed, effect, execute-Executed}
use atlas_kv.Engine.Open.{open_engine}
use atlas_kv.Engine.Restart.{after_log, stored, open_engine_torn}
use atlas_kv.Engine.Recoverable.{DataFit, Recoverable}
use atlas_kv.Engine.Crash.{execute-Recoverable}
use atlas_kv.Tests.Samples.{
  libs, libs-IsLawful, log, log-Written, put_bytes, memory, memory-CanHold, tables, manager,
  manager-Stored, engine, engine-Shows, engine-Recoverable, contents, calm_env, calm_storage,
  swapped, swapped-Lists,
}

get-Shows_example : get libs engine (2 ∷ []) ≡ ok (contents (2 ∷ []))
get-Shows_example = get-Shows libs engine contents (2 ∷ []) engine-Shows

flush-Shows_example : Shows libs (flush libs calm_env engine).1 contents
flush-Shows_example = flush-Shows libs calm_env engine contents memory-CanHold engine-Shows

pub put_one : CanHold (MemTable.put memory (4 ∷ []) (5 ∷ [])).0.table
unfolding replay replay_entry MemTable.put MemTable.delete MemTable.write BTreeMap.insert
    compare_bytes entry_bytes to_le
put_one = record {
  sorted = ((refl, tt), (tt, tt));
  each = (omega arith, ((omega arith, omega arith), tt));
  offsets = omega arith;
  count = omega arith;
}

pub delete_one : CanHold (MemTable.delete memory (1 ∷ [])).0.table
unfolding replay replay_entry MemTable.put MemTable.delete MemTable.write BTreeMap.insert
    compare_bytes entry_bytes to_le
delete_one = record {
  sorted = (tt, tt);
  each = (omega arith, tt);
  offsets = omega arith;
  count = omega arith;
}

execute-Executed_example :
    Executed libs
      (Command.put (4 ∷ []) (5 ∷ []))
      contents
      (execute libs calm_env (Command.put (4 ∷ []) (5 ∷ [])) engine)
execute-Executed_example =
    execute-Executed libs calm_env (Command.put (4 ∷ []) (5 ∷ [])) engine contents put_one
      engine-Shows

pub delete_fits : DataFit libs calm_env (Operation.delete (1 ∷ [])) engine
delete_fits bytes h = omega (arith, ap (λ o. length (Option.get_or o [])) h)

pub delete_done : (execute libs calm_env (Command.delete (1 ∷ [])) engine).0 ≡ ok none
unfolding execute delete log_operation append serialize layout crc_buffer to_le write_all
    sync_by_strategy sync flush_buffer flush_if_full MemTable.delete MemTable.write replay
    replay_entry MemTable.put BTreeMap.insert compare_bytes BTreeMap.get BTreeMap.same_key
delete_done = refl

execute-Recoverable_example :
    Recoverable libs
      (execute libs calm_env (Command.delete (1 ∷ [])) engine).1
      (effect (Command.delete (1 ∷ [])) contents)
execute-Recoverable_example =
    execute-Recoverable libs calm_env (Command.delete (1 ∷ [])) engine contents none delete_fits
      delete_one engine-Shows engine-Recoverable delete_done

opened_manager :
    (s : StorageManager) × (open_storage (swapped manager.directory) ≡ ok s)
    × Serves libs.crc32 s (contents_of tables)
opened_manager =
    open_storage-Stored libs.crc32 manager tables (swapped manager.directory) manager-Stored
      (swapped-Lists manager.directory)

open_engine_torn_example :
    (e : Engine) × (open_engine libs calm_storage engine.config
        (swapped manager.directory)
        (some (log_bytes libs log ++ take 20 (layout libs 3 put_bytes)))
      ≡ some (ok e))
    × (MemTable.is_empty e.memtable ≡ true)
    × Shows libs e (after_log (entries_of log) (stored (contents_of tables)))
open_engine_torn_example =
    open_engine_torn libs libs-IsLawful calm_storage engine.config (swapped manager.directory)
      opened_manager.0 (contents_of tables) log 3 20 put_bytes opened_manager.1 opened_manager.2
      log-Written (omega arith) (omega arith) (unfold layout to_le in omega arith) memory-CanHold
      refl refl

execute-ne-key_not_found_example :
    (execute libs calm_env (Command.get (9 ∷ [])) engine).0 ≢ err key_not_found
execute-ne-key_not_found_example =
    execute-ne-key_not_found libs calm_env (Command.get (9 ∷ [])) engine
