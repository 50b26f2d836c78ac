-- ===== src/Daemon.antt =====
-- src/bin/server.rs: the process of the server. The parsing of the arguments by `clap` and the log
-- are left out. `run` borrows the server until it returns, and the handler that is given to
-- `ctrlc_handler` is dropped without being called, so that nothing calls `Server::shutdown`.
pub mod Exit
use atlas_kv.Base.{Bool, List, Option, if◌then◌else◌, leb, none, some, ℕ, ◌%◌, ◌&&◌, ◌*◌, ◌^◌, ◌≡◌}
use atlas_kv.Error.{AtlasError, Result, ok, err}
use atlas_kv.Config.{Config, default_config}
use atlas_kv.Config.Builder
use atlas_kv.Wal.Entry.{Libraries}
use atlas_kv.Storage.{StorageEnv, Directory}
use atlas_kv.Engine.{Engine}
use atlas_kv.Engine.Open.{open_engine}
use atlas_kv.Network.Channel.{Channel}
use atlas_kv.Network.Server.{WorkerMessage, Stage, returned}
use atlas_kv.Network.Server as S

pub record Args : Type 0 where
  pub data_dir : List ℕ
  pub listen : List ℕ
  pub max_connections : ℕ
  pub memtable_mb : ℕ

-- The default values of the arguments.
abbrev pub default_args : Args
default_args = record {
  data_dir = default_config.data_dir;
  listen = default_config.listen_addr;
  max_connections = 1024;
  memtable_mb = 64;
}

-- `args.memtable_mb * 1024 * 1024`: a build with overflow checks panics, one without wraps around.
unfoldable pub memtable_bytes : Bool → ℕ → Option ℕ
memtable_bytes overflow_checks mb =
    let bytes = mb * 1024 * 1024 in
    if overflow_checks && leb (2 ^ 64) bytes then none else some (bytes % 2 ^ 64)

unfoldable pub to_config : Args → ℕ → Config
to_config args bytes = Builder.build (
    Builder.memtable_size_limit bytes (
      Builder.max_connections args.max_connections
        (Builder.listen_addr args.listen (Builder.data_dir args.data_dir Builder.builder))))

-- What the process finds: its build, its arguments, its files and the machine.
pub record Start : Type 0 where
  pub overflow_checks : Bool
  pub args : Args
  pub env : StorageEnv
  pub directory : Directory
  pub log : Option (List ℕ)
  pub parallelism : Option ℕ

module _ (libs : Libraries) (ch : Channel WorkerMessage) where
  -- Where `main` is; the number is the exit status.
  pub data Phase : Type 0 where
    starting : Phase
    serving : S.Server ch → Phase
    exited : ℕ → Phase

  -- Behind `Engine::open`.
  unfoldable pub opened : Start → Config → Option (Result Engine) → Option Phase
  opened start config none = none
  opened start config (some (err x)) = some (exited 1)
  opened start config (some (ok e)) =
      some (serving (S.new ch config.max_connections start.parallelism))

  -- From the start to `server.run`; a panic of the main thread is the exit status 101.
  unfoldable pub start_main : Start → Option Phase
  unfolding opened
  start_main start = elim (memtable_bytes start.overflow_checks start.args.memtable_mb) [
    | none ↦ some (exited 101)
    | some bytes ↦
        let config = to_config start.args bytes in
        opened start config (open_engine libs start.env config start.directory start.log)
  ]

  -- The steps of the server that are not a call of `Server::shutdown`.
  abbrev pub IsUnsignalled : {s t : S.Server ch} → S.Step ch s t → Type 0
  IsUnsignalled (S.main answer t e) = Unit
  IsUnsignalled (S.worker event front back w w' t at e) = Unit
  IsUnsignalled S.signal = ⊥

  -- A step of the process: `main` up to the loop, a step of a thread of the server, or the end of
  -- `main` behind `run`.
  pub data Step : Phase → Phase → Type 0 where
    starts : (start : Start) (p : Phase) → start_main start ≡ some p → Step starting p
    serves :
        (s t : S.Server ch) (step : S.Step ch s t)
        → IsUnsignalled step
        → Step (serving s) (serving t)
    fails :
        (s : S.Server ch) (x : AtlasError)
        → s.stage ≡ returned (err x)
        → Step (serving s) (exited 1)
    ends : (s : S.Server ch) → s.stage ≡ returned (ok tt) → Step (serving s) (exited 0)

  pub data Process : Phase → Type 0 where
    here : Process starting
    next : {p q : Phase} → Process p → Step p q → Process q
