-- ===== src/Engine/Narrow.antt =====
-- The widths of the log format (src/wal/entry.rs) against what a client writes.
use atlas_kv.Base.{List, arith, length, some, ℕ, ◌+◌, ◌<◌, ◌^◌, ◌≡◌, ◌≤◌}
use atlas_kv.Protocol.Command.{Command}
use atlas_kv.Wal.Entry.{Libraries, WalEntry, Operation, new_entry}
use atlas_kv.Engine.{Engine, Env}
use atlas_kv.Engine.Crash.{CommandFits}
use atlas_kv.Engine.Sizes.{IsSmall}

-- The bytes of key and value.
abbrev pub data_length : Operation → ℕ
data_length (Operation.put key v) = length key + length v
data_length (Operation.delete key) = length key

-- A serialised entry has at most 64 bytes beside its key and value.
abbrev pub IsCompact : Libraries → Type 0
IsCompact libs =
    (entry : WalEntry) (bytes : List ℕ)
    → libs.bincode_serialize entry ≡ some bytes
    → length bytes ≤ 64 + data_length entry.operation

-- The log and the tables have room for the lengths of what a command writes.
abbrev pub IsNarrow : Command → Type 0
IsNarrow (Command.put key v) = 64 + (length key + length v) < 2 ^ 32
IsNarrow (Command.delete key) = 64 + length key < 2 ^ 32
IsNarrow (Command.get key) = Unit {0}
IsNarrow Command.ping = Unit {0}

pub IsNarrow-IsSmall : (c : Command) → IsNarrow c → IsSmall c
IsNarrow-IsSmall (Command.put key v) h = (omega arith, omega arith)
IsNarrow-IsSmall (Command.delete key) h = omega arith
IsNarrow-IsSmall (Command.get key) h = tt
IsNarrow-IsSmall Command.ping h = tt

pub IsNarrow-CommandFits :
    (libs : Libraries) (env : Env) (c : Command) (e : Engine)
    → IsCompact libs
    → IsNarrow c
    → CommandFits libs env c e
IsNarrow-CommandFits libs env (Command.put key v) e compact h = λ bytes there. omega (
  arith,
  compact (new_entry e.wal.current_lsn (Operation.put key v) env.appending.millis) bytes there,
)
IsNarrow-CommandFits libs env (Command.delete key) e compact h = λ bytes there. omega (
  arith,
  compact (new_entry e.wal.current_lsn (Operation.delete key) env.appending.millis) bytes there,
)
IsNarrow-CommandFits libs env (Command.get key) e compact h = tt
IsNarrow-CommandFits libs env Command.ping e compact h = tt
