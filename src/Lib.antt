-- ===== src/Lib.antt =====
-- AtlasKV, a key-value store with a write-ahead log, a memtable and sorted table files.
--
-- The parts of the program, and the files that model them:
--
-- Engine (src/engine.rs): Engine.antt has the state and `get`, `put`, `delete`, `flush`, `execute`,
--   `close`; Engine/Open.antt has `Engine::open`. A write goes to the log, then to the memtable; a
--   full memtable is flushed to a table, and the log is truncated. Engine/Opening: the calls of an open
--   on its directories and log file. Engine/View, Writes, Commands:
--   the contents that a client sees, and what each operation does to them. Engine/Restart,
--   Recoverable, Crash, Recovered: what an open shows after a crash. Engine/Kept, Unchanged, Replayed,
--   Reopened, History: commands and crashes in any order. Engine/Errors: which errors a command has.
--   Engine/Calm, Sizes, Run: commands where the system calls succeed, and the space that they take.
--   Engine/Narrow, Life: the same with crashes, where every write is synced. Engine/Behind, Loss,
--   Found, Survivors, Closed: any sync strategy, with what waits to be synced, a crash or a close.
--   Engine/Blocked: a flush that fails.
-- Write-ahead log (src/wal/): Wal/Entry (entry.rs), Wal/Reader (reader.rs), Wal/Recovery
--   (recovery.rs), Wal/Writer (writer.rs). Wal/RoundTrip, Frames, Ends, Outcomes, Replay, Totality:
--   reading back what was written, cut or damaged. Wal/Iteration: the iterator. Wal/Durability,
--   Appending, Calm, Grown, Lag: the writer.
-- Tables (src/storage/sstable/): Sstable/Format (mod.rs), Sstable/Builder (builder.rs),
--   Sstable/Reader (reader.rs and iterator.rs). Sstable/Written, Index, Lookup, Opened: a file that
--   was built, opened again. Sstable/Iterator: read from end to end. Sstable/Room: its size.
-- Storage manager (src/storage/manager.rs): Storage.antt. Storage/Reads, Flush, Reopen: lookups,
--   the flush of a memtable, and a later open of the directory. Storage/Listing: the order in which
--   the files are listed. Storage/Names: the names of the files.
-- Memtable (src/memtable/): MemTable.antt. MemTable/Size, Contents: the size counter, and lookups.
-- Protocol (src/protocol/): Protocol/Command (command.rs), Protocol/Response (response.rs),
--   Protocol/Codec and Protocol/Stream (codec.rs). Protocol/RoundTrip, Pipeline, Refusals.
-- Network (src/network/): Network/Connection (connection.rs) has the loop of one client, Network/Server
--   (server.rs) the accepting thread, the workers and the shutdown. Network/Channel is the interface of
--   the channel between them. Network/Connection/Loop, Conversation, Answers: what a client is sent.
--   Network/Connection/Durable: what of it survives a crash. Network/Handling (connection.rs, server.rs)
--   sets up the socket of a connection and serves it as one worker does.
--   Network/Server/Counts, Invariant, Workers, Threads: what every step keeps. Network/Server/Order,
--   Reachable, Progress, Shutdown: the order of connections, and the return of `run`.
-- Configuration (src/config.rs): Config.antt, with the builder in Config/Builder.
-- Client (src/bin/cli.rs): Cli.antt; Cli/Served is the client against a connection of the server.
-- Server process (src/bin/server.rs): Daemon.antt; Daemon/Exit is about its end.
-- Errors (src/error.rs): Error.antt; Exec.antt is a method on `&mut self` that returns a result.
-- BTreeMap.antt is the standard library's map with byte strings as keys, a sorted list of pairs.
-- Base.antt has the names that all of these share. Tests.antt has runs on small inputs.
--
-- How it is modelled. Bytes are natural numbers, and so are machine integers; a cast or an addition
-- that can wrap around is written with `% 2 ^ w`, and an encoding keeps its low bytes. A `&mut self`
-- method takes the state and returns it beside its result, also where it fails. A lock is the flag
-- that says whether a panic has poisoned it; a memtable and a storage manager are taken by one writer
-- at a time, as the engine's write lock sees to. The outcomes of the system calls and the clock of one
-- call are an argument of the operation. The log file has three parts: its bytes, how many of them are
-- durable, and the 8 KiB buffer in front of it; a crash keeps the durable bytes. A truncation is not
-- synced: until the next sync the file remembers the log from before it, and a crash leaves that one
-- (`after_crash true`), or what is durable behind the truncation (`after_crash false`, `on_disk`). A
-- crash and an open may list the directory in any other order (`Lists`). `crc32fast` and
-- `bincode` are the parameter `Libraries`, with what they document in `IsLawful`.
--
-- A worker calls the loop of a connection, which calls `Engine::execute`, for one connection at a time.
-- The loop takes the bytes that arrive; what the other connections did to the engine since its last
-- command is an argument of each round, as are the outcomes of its system calls. The text of an error,
-- which `thiserror` derives, is the parameter `display`. The threads of the server are a relation of
-- steps, one for each access to the channel, the counter or the flag, in any order; `crossbeam`'s
-- bounded channel is the parameter `Channel`, with what it documents as laws, and a connection that a
-- worker handles ends, or ends by a panic, at any time.
--
-- Where a theorem speaks of a store in which no system call fails, the serialisation is taken to never
-- fail (`Serializes`) and to add at most 64 bytes to the key and the value (`IsCompact`): bincode 1.3
-- writes an entry with 36 bytes beside them, and has no size limit by default.
--
-- Rounds. The loops that read the log and the index of a table take a number of rounds: the bytes of
-- the file and one more for the log, the bytes of the block for the index. A round that goes on takes
-- 16 bytes, or 12, so they are enough, and the results below say so where they matter. The loop of a
-- connection takes a number of rounds too: one more than the bytes that arrive is enough.
--
-- File names. The engine's directory is keyed by the ids of the tables; Storage/Names has the names that
-- the files have instead, and an open that goes by them. A name is ASCII.
--
-- Not modelled: the unused compaction (src/storage/manager.rs), the parsing of the arguments of the
-- two binaries, the log messages, the accessors that only read a field, and a channel without a
-- buffer, for a limit of no connections. Where the seek behind a truncation fails, the position in the
-- log file is taken to follow it all the same. A crash keeps the name of a table file whose `finish`
-- has synced it, although the directory is not synced, and no part of the log that was not synced. A write to a buffered table file that fails is counted as a
-- failure of its last step, which leaves any bytes in the file.
pub mod Base
pub mod Error
pub mod Exec
pub mod BTreeMap
pub mod MemTable
pub mod Protocol
pub mod Wal
pub mod Sstable
pub mod Storage
pub mod Config
pub mod Engine
pub mod Network
pub mod Cli
pub mod Daemon
pub mod Tests
