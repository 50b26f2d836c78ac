-- ===== src/Config.antt =====
-- src/config.rs: the configuration. A path and an address are the bytes of their text.
pub mod Builder
use atlas_kv.Base.{List, [], ℕ, ◌*◌, ◌∷◌}
use atlas_kv.Wal.Writer.{WalSyncStrategy, every_n_entries}

pub record Config : Type 0 where
  pub data_dir : List ℕ
  pub wal_sync_strategy : WalSyncStrategy
  pub memtable_size_limit : ℕ
  pub listen_addr : List ℕ
  pub max_connections : ℕ
  pub read_timeout_ms : ℕ
  pub write_timeout_ms : ℕ

-- "./atlaskv_data"
abbrev default_dir : List ℕ
default_dir = 46 ∷ 47 ∷ 97 ∷ 116 ∷ 108 ∷ 97 ∷ 115 ∷ 107 ∷ 118 ∷ 95 ∷ 100 ∷ 97 ∷ 116 ∷ 97 ∷ []

-- "127.0.0.1:6379"
abbrev default_addr : List ℕ
default_addr = 49 ∷ 50 ∷ 55 ∷ 46 ∷ 48 ∷ 46 ∷ 48 ∷ 46 ∷ 49 ∷ 58 ∷ 54 ∷ 51 ∷ 55 ∷ 57 ∷ []

-- `Config::default`
abbrev pub default_config : Config
default_config = record {
  data_dir = default_dir;
  wal_sync_strategy = every_n_entries 100;
  memtable_size_limit = 64 * 1024 * 1024;
  listen_addr = default_addr;
  max_connections = 1024;
  read_timeout_ms = 30000;
  write_timeout_ms = 30000;
}
