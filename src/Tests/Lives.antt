-- ===== src/Tests/Lives.antt =====
-- A new store with commands and crashes.
use atlas_kv.Base.{
  List, [], ap, arith, false, length, length-append, none, refl, some, true, ℕ, ◌++◌, ◌+◌, ◌∷◌, ◌≡◌,
  ◌≤◌,
}
use mathlib.Core.Option
use atlas_kv.Error.{ok}
use atlas_kv.Protocol.Command.{Command}
use atlas_kv.Storage
use atlas_kv.Storage.{open_storage}
use atlas_kv.Storage.Reopen.{manager_of}
use atlas_kv.Wal.Calm
use atlas_kv.Wal.Entry.{Operation}
use atlas_kv.Wal.Writer.{calm, every_n_entries}
use atlas_kv.Wal.Writer.{after_crash, every_write}
use atlas_kv.MemTable
use atlas_kv.Config.{Config}
use atlas_kv.Config.Builder
use atlas_kv.Engine.{Engine, Env, get}
use atlas_kv.Engine.Calm.{IsCalm, Serializes}
use atlas_kv.Engine.Narrow.{IsCompact, data_length}
use atlas_kv.Engine.Life.{Event, command, crash, live, replies, remains, live-open_engine}
use atlas_kv.Engine.{close}
use atlas_kv.Engine.Closed.{run-close}
use atlas_kv.Engine.Open.{open_engine, started, with_storage}
use atlas_kv.Engine.Run.{run, after, answers, run-open_engine}
use atlas_kv.Engine.Survivors.{total_writes, run-crash}
use atlas_kv.Tests.Samples.{
  libs, libs-IsLawful, write_entry, calm_env, calm_storage, swapped, swapped-Lists,
}
use atlas_kv.Tests.Histories.{config, new_store, opened_new}

pub libs-Serializes : Serializes libs
libs-Serializes entry = (_, refl)

write_entry-length :
    (lsn timestamp : ℕ) (operation : Operation) (bytes : List ℕ)
    → write_entry (record { lsn = lsn; operation = operation; timestamp = timestamp }) ≡ some bytes
    → length bytes ≤ 64 + data_length operation
write_entry-length lsn timestamp (Operation.put key v) bytes h =
    omega (arith, ap (λ o. length (Option.get_or o [])) h, length-append key v)
write_entry-length lsn timestamp (Operation.delete key) bytes h =
    omega (arith, ap (λ o. length (Option.get_or o [])) h)

pub libs-IsCompact : IsCompact libs
libs-IsCompact entry bytes h = write_entry-length entry.lsn entry.timestamp entry.operation bytes h

calm-IsCalm : (millis : ℕ) → Calm.IsCalm (calm millis)
calm-IsCalm millis = record {
  spill = refl;
  direct = refl;
  flush = refl;
  sync_all = refl;
  set_len = refl;
  seek = refl;
}

pub calm_env-IsCalm : IsCalm calm_env
calm_env-IsCalm = record {
  appending = calm-IsCalm 1002;
  truncating = calm-IsCalm 1002;
  create = refl;
  finish = refl;
}

-- A put, a delete and a read.
abbrev requests : List (Env × Command)
requests =
    (calm_env, Command.put (4 ∷ []) (5 ∷ []))
    ∷ (calm_env, Command.delete (6 ∷ []))
    ∷ (calm_env, Command.get (4 ∷ []))
    ∷ []

run-open_engine_example : (run libs requests new_store).0 ≡ answers requests (λ key. none)
run-open_engine_example =
    run-open_engine libs libs-Serializes calm_storage config new_store requests opened_new
      (
        (calm_env-IsCalm, (omega arith, omega arith)),
        ((calm_env-IsCalm, omega arith), ((calm_env-IsCalm, tt), tt)),
      )
      (omega arith)

-- A store that flushes behind each write, and crashes that lose the truncation of the log or not.
abbrev hasty_config : Config
hasty_config =
    Builder.build
      (Builder.memtable_size_limit 1 (Builder.wal_sync_strategy every_write Builder.builder))

abbrev hasty_store : Engine
hasty_store = started [] hasty_config MemTable.new (manager_of libs.crc32 [] [])

opened_hasty : open_engine libs calm_storage hasty_config [] none ≡ some (ok hasty_store)
unfolding open_engine with_storage open_storage Storage.open_all Storage.newest_first
opened_hasty = refl

abbrev events : List Event
events =
    command calm_env (Command.put (4 ∷ []) (5 ∷ []))
    ∷ crash true swapped calm_storage
    ∷ command calm_env (Command.get (4 ∷ []))
    ∷ crash false swapped calm_storage
    ∷ []

live-open_engine_example :
    (e : Engine) × (live libs events hasty_store ≡ some (replies events (λ key. none), e))
    × ((key : List ℕ) → get libs e key ≡ ok (remains events (λ key. none) key))
live-open_engine_example =
    live-open_engine libs libs-IsLawful libs-Serializes libs-IsCompact calm_storage hasty_config
      hasty_store events refl opened_hasty
      (
        (calm_env-IsCalm, omega arith),
        ((swapped-Lists, refl, refl), ((calm_env-IsCalm, tt), ((swapped-Lists, refl, refl), tt))),
      )
      (omega arith)

-- A store that syncs every two entries.
abbrev pub lazy_config : Config
lazy_config = Builder.build (Builder.wal_sync_strategy (every_n_entries 2) Builder.builder)

abbrev pub lazy_store : Engine
lazy_store = started [] lazy_config MemTable.new (manager_of libs.crc32 [] [])

pub opened_lazy : open_engine libs calm_storage lazy_config [] none ≡ some (ok lazy_store)
unfolding open_engine with_storage open_storage Storage.open_all Storage.newest_first
opened_lazy = refl

run-crash_example :
    (saved : List (Env × Command)) × (lost : List (Env × Command)) × (requests ≡ saved ++ lost)
    × (total_writes lost ≤ 1)
    × (e' : Engine) × (let crashed = (run libs requests lazy_store).1 in
        open_engine libs calm_storage crashed.config
          (swapped crashed.storage.directory)
          (some (after_crash false crashed.wal.file))
        ≡ some (ok e'))
    × ((key : List ℕ) → get libs e' key ≡ ok (after saved (λ key. none) key))
run-crash_example =
    run-crash libs libs-IsLawful libs-Serializes libs-IsCompact (every_n_entries 2) calm_storage
      calm_storage lazy_config lazy_store requests false
      (swapped (run libs requests lazy_store).1.storage.directory) refl opened_lazy
      (
        (calm_env-IsCalm, omega arith),
        ((calm_env-IsCalm, omega arith), ((calm_env-IsCalm, tt), tt)),
      )
      (omega arith) (λ old there. refl)
      (swapped-Lists (run libs requests lazy_store).1.storage.directory) refl refl

run-close_example :
    (let (r, closed) = close libs calm_env (run libs requests lazy_store).1 in
      (r ≡ ok tt)
      × (e' : Engine) × (open_engine libs calm_storage closed.config
            (swapped closed.storage.directory)
            (some (after_crash true closed.wal.file))
          ≡ some (ok e'))
      × ((key : List ℕ) → get libs e' key ≡ ok (after requests (λ key. none) key)))
run-close_example =
    run-close libs libs-IsLawful libs-Serializes libs-IsCompact (every_n_entries 2) calm_storage
      calm_storage calm_env lazy_config lazy_store requests true
      (swapped (close libs calm_env (run libs requests lazy_store).1).1.storage.directory) refl
      opened_lazy
      (
        (calm_env-IsCalm, omega arith),
        ((calm_env-IsCalm, omega arith), ((calm_env-IsCalm, tt), tt)),
      )
      calm_env-IsCalm (omega arith)
      (swapped-Lists (close libs calm_env (run libs requests lazy_store).1).1.storage.directory)
      refl refl
