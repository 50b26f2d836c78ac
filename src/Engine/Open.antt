-- ===== src/Engine/Open.antt =====
-- `Engine::open` (src/engine.rs): the tables are opened, the log is replayed, flushed to a table and
-- then truncated. The log is `none` where its file does not exist. `open_engine` is the open where
-- the calls that create the directories and open the log file succeed; `open_with` has these calls.
use atlas_kv.Base.{List, Option, [], false, if◌then◌else◌, none, some, ℕ}
use mathlib.Core.Option
use atlas_kv.Error.{Result, ok, err, io, IoKind}
use atlas_kv.MemTable
use atlas_kv.MemTable.{MemTable}
use atlas_kv.Storage
use atlas_kv.Storage.{StorageManager, StorageEnv, Directory, open_storage}
use atlas_kv.Wal.Entry.{WalEntry, Libraries}
use atlas_kv.Wal.Recovery.{RecoveryResult, recover}
use atlas_kv.Wal.Writer.{open_writer}
use atlas_kv.Config.{Config, default_config}
use atlas_kv.Engine.{Engine, replay}

-- The fields of the engine that is returned, whose log file had this content.
abbrev pub started : List ℕ → Config → MemTable → StorageManager → Engine
started log config memtable storage = record {
  config = config;
  wal = open_writer log config.wal_sync_strategy;
  memtable = memtable;
  storage = storage;
  write_poisoned = false;
  wal_poisoned = false;
}

-- Step 6 behind the recovery: the entries are replayed, and flushed unless there are none.
unfoldable pub recovered :
    Libraries → StorageEnv → List ℕ → Config → StorageManager → List WalEntry → Result Engine
recovered libs env log config storage entries =
    let memtable = replay entries MemTable.new in
    if MemTable.is_empty memtable
    then ok (started log config memtable storage)
    else let (r, s) = Storage.flush env libs.crc32 memtable storage in
      elim r [ ok metadata ↦ ok (started log config (MemTable.clear memtable) s) | err x ↦ err x ]

-- What `recover` returned, or an error that it returned.
unfoldable pub after_recovery :
    Libraries
    → StorageEnv
    → List ℕ
    → Config
    → StorageManager
    → Result (List WalEntry × RecoveryResult)
    → Result Engine
unfolding recovered
after_recovery libs env log config storage (ok (entries, r)) =
    recovered libs env log config storage entries
after_recovery libs env log config storage (err x) = err x

-- `none` where the recovery runs out of rounds, which it does not.
unfoldable pub with_storage :
    Libraries
    → StorageEnv
    → Config
    → Option (List ℕ)
    → Result StorageManager
    → Option (Result Engine)
unfolding after_recovery
with_storage libs env config log (err x) = some (err x)
with_storage libs env config none (ok storage) = some (ok (started [] config MemTable.new storage))
with_storage libs env config (some file) (ok storage) =
    Option.map (after_recovery libs env file config storage) (recover libs file)

unfoldable pub open_engine :
    Libraries → StorageEnv → Config → Directory → Option (List ℕ) → Option (Result Engine)
unfolding with_storage
open_engine libs env config directory log =
    with_storage libs env config log (open_storage directory)

-- The outcomes of the calls of an open: `create_dir_all`, for the data directory or the one of the
-- tables, the open of the log to read it, and the open of the log to write it.
pub record OpenEnv : Type 0 where
  pub create_dirs : Option IoKind
  pub read_log : Option IoKind
  pub open_log : Option IoKind
  pub flushing : StorageEnv

-- The open of the log is the last step, behind the flush of what was recovered.
unfoldable pub open_log_file : Option IoKind → Result Engine → Result Engine
open_log_file (some k) (ok e) = err (io k)
open_log_file fault r = r

-- The log is read behind the open of the tables, if it exists.
unfoldable pub read_log_file :
    Libraries → OpenEnv → Config → Option (List ℕ) → Result StorageManager → Option (Result Engine)
unfolding with_storage
read_log_file libs env config (some file) (ok storage) = elim env.read_log [
  | some k ↦ some (err (io k))
  | none ↦ with_storage libs env.flushing config (some file) (ok storage)
]
read_log_file libs env config log r = with_storage libs env.flushing config log r

unfoldable pub open_with :
    Libraries → OpenEnv → Config → Directory → Option (List ℕ) → Option (Result Engine)
unfolding read_log_file open_log_file
open_with libs env config directory log = elim env.create_dirs [
  | some k ↦ some (err (io k))
  | none ↦
      Option.map (open_log_file env.open_log)
        (read_log_file libs env config log (open_storage directory))
]

-- `Engine::open_path`
unfoldable pub open_path :
    Libraries → StorageEnv → List ℕ → Directory → Option (List ℕ) → Option (Result Engine)
unfolding open_engine
open_path libs env path directory log =
    open_engine libs env (record default_config { data_dir = path }) directory log
