-- ===== src/Protocol/Command.antt =====
-- src/protocol/command.rs
use atlas_kv.Base.{ℕ, List}

pub data CommandType : Type 0 where
  get put delete ping : CommandType

pub data Command : Type 0 where
  get : List ℕ → Command
  put : List ℕ → List ℕ → Command
  delete : List ℕ → Command
  ping : Command

unfoldable pub command_type : Command → CommandType
command_type (Command.get key) = CommandType.get
command_type (Command.put key value) = CommandType.put
command_type (Command.delete key) = CommandType.delete
command_type Command.ping = CommandType.ping

-- The `#[repr(u8)]` discriminants, `command_type as u8`.
abbrev pub type_byte : CommandType → ℕ
type_byte CommandType.get = 1
type_byte CommandType.put = 2
type_byte CommandType.delete = 3
type_byte CommandType.ping = 4
