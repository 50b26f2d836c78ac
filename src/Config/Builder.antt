-- ===== src/Config/Builder.antt =====
-- `ConfigBuilder` of src/config.rs.
use atlas_kv.Base.{List, ℕ}
use atlas_kv.Wal.Writer.{WalSyncStrategy}
use atlas_kv.Config.{Config, default_config}

pub record ConfigBuilder : Type 0 where
  pub config : Config

-- `Config::builder`
abbrev pub builder : ConfigBuilder
builder = record { config = default_config }

abbrev pub data_dir : List ℕ → ConfigBuilder → ConfigBuilder
data_dir path b = record b { config = record b.config { data_dir = path } }

abbrev pub wal_sync_strategy : WalSyncStrategy → ConfigBuilder → ConfigBuilder
wal_sync_strategy strategy b = record b {
  config = record b.config { wal_sync_strategy = strategy };
}

abbrev pub memtable_size_limit : ℕ → ConfigBuilder → ConfigBuilder
memtable_size_limit size b = record b { config = record b.config { memtable_size_limit = size } }

abbrev pub listen_addr : List ℕ → ConfigBuilder → ConfigBuilder
listen_addr addr b = record b { config = record b.config { listen_addr = addr } }

abbrev pub max_connections : ℕ → ConfigBuilder → ConfigBuilder
max_connections count b = record b { config = record b.config { max_connections = count } }

abbrev pub read_timeout_ms : ℕ → ConfigBuilder → ConfigBuilder
read_timeout_ms ms b = record b { config = record b.config { read_timeout_ms = ms } }

abbrev pub write_timeout_ms : ℕ → ConfigBuilder → ConfigBuilder
write_timeout_ms ms b = record b { config = record b.config { write_timeout_ms = ms } }

abbrev pub build : ConfigBuilder → Config
build b = b.config
