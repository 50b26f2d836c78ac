-- ===== src/Tests/Daemons.antt =====
-- The process of the server, on a machine where its address cannot be bound.
use atlas_kv.Base.{[], false, none, refl, some, true, ℕ, ◌≡◌, ◌⊎◌}
use atlas_kv.Error.{err, network}
use atlas_kv.Storage
use atlas_kv.Storage.{open_storage}
use atlas_kv.Engine.Open.{open_engine, with_storage}
use atlas_kv.Network.Server.{Answer, returned, main_step, at_stage}
use atlas_kv.Network.Server as S
use atlas_kv.Daemon.{
  default_args, Start, Phase, exited, serving, start_main, opened, memtable_bytes, to_config,
  Process, starts, serves, fails, here, next,
}
use atlas_kv.Daemon.Exit.{IsServing, Process-exits}
use atlas_kv.Tests.Samples.{libs, calm_storage}
use atlas_kv.Tests.Servers.{fifo}

abbrev start : Start
start = record {
  overflow_checks = false;
  args = default_args;
  env = calm_storage;
  directory = [];
  log = none;
  parallelism = some 2;
}

abbrev first : S.Server fifo
first = S.new fifo 1024 (some 2)

abbrev unbound : S.Server fifo
unbound = record first { stage = returned (err network) }

started : start_main libs fifo start ≡ some (serving first)
unfolding start_main opened memtable_bytes to_config open_engine with_storage open_storage
    Storage.open_all Storage.newest_first
started = refl

refused : main_step fifo (record { failure = true; incoming = none }) first ≡ some unbound
unfolding main_step at_stage S.new
refused = refl

abbrev gone : Phase libs fifo
gone = exited 1

process : Process libs fifo gone
unfolding S.new
process =
    next
      (next (next here (starts start (serving first) started)) (
        serves first unbound (S.main (record { failure = true; incoming = none }) unbound refused)
          tt))
      (fails unbound network refl)

Process-exits_example :
    ((status : ℕ) → gone ≡ exited status → (status ≡ 1) ⊎ (status ≡ 101))
    × ((s : S.Server fifo) → gone ≡ serving s → (s.shutdown_flag ≡ false) × IsServing s.stage)
Process-exits_example = Process-exits libs fifo process
