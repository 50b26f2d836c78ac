-- ===== src/Tests/Samples.antt =====
-- Concrete data: libraries that keep their promises, log entries, tables, an engine.
use atlas_kv.Base.{
  All, List, Option, [], ap, append-nil, arith, drop, drop-append, false, length, map, none, refl,
  some, suc, sym, take, take-append, to_le, zero, ℕ, ◌%◌, ◌++◌, ◌+◌, ◌^◌, ◌∙◌, ◌∷◌, ◌≡◌,
}
use atlas_kv.BTreeMap
use atlas_kv.Config.Builder
use atlas_kv.Engine.{Engine, Env, replay, replay_entry}
use atlas_kv.Engine.View.{Contents, Shows, entry_of}
use atlas_kv.Engine.Recoverable.{Recoverable}
use atlas_kv.Storage.{StorageManager, StorageEnv}
use atlas_kv.Storage.Reads.{visible}
use mathlib.Core.List.{Permᴰ}
use atlas_kv.Storage.{Directory}
use atlas_kv.Storage.Listing.{Lists}
use atlas_kv.Sstable.Written.{file_of}
use atlas_kv.Storage.Reopen.{Tables, Stored, contents_of}
use atlas_kv.Sstable.Opened.{reader_of}
use atlas_kv.Wal.Writer.{WalWriter, every_write, calm}
use atlas_kv.Wal.Replay.{log_bytes, entries_of}
use atlas_kv.BTreeMap.{BTreeMap, compare_bytes}
use atlas_kv.MemTable
use atlas_kv.MemTable.{MemTable, MemTableEntry, value, tombstone}
use atlas_kv.Sstable.Format.{entry_bytes}
use atlas_kv.Sstable.Opened.{CanHold}
use atlas_kv.Wal.Entry.{Operation, WalEntry, Libraries, IsLawful, new_entry}
use atlas_kv.Wal.Frames

-- A serialisation of entries that can be read back, and a checksum.
abbrev pub write_operation : Operation → List ℕ
write_operation (Operation.put key v) = 0 ∷ length key ∷ (key ++ v)
write_operation (Operation.delete key) = 1 ∷ key

abbrev pub write_entry : WalEntry → Option (List ℕ)
write_entry e = some (e.lsn ∷ e.timestamp ∷ write_operation e.operation)

abbrev pub read_entry : List ℕ → Option WalEntry
read_entry (lsn ∷ timestamp ∷ zero ∷ n ∷ bytes) = some (record {
  lsn = lsn;
  operation = Operation.put (take n bytes) (drop n bytes);
  timestamp = timestamp;
})
read_entry (lsn ∷ timestamp ∷ suc zero ∷ key) =
    some (record { lsn = lsn; operation = Operation.delete key; timestamp = timestamp })
read_entry bytes = none

abbrev pub sum : List ℕ → ℕ
sum [] = 0
sum (b ∷ bs) = b + sum bs

abbrev pub libs : Libraries
libs = record {
  crc32 = λ bytes. sum bytes % 2 ^ 32;
  bincode_serialize = write_entry;
  bincode_deserialize = read_entry;
}

read_entry-write_entry :
    (lsn timestamp : ℕ) (operation : Operation)
    → read_entry (lsn ∷ timestamp ∷ write_operation operation)
      ≡ some (record { lsn = lsn; operation = operation; timestamp = timestamp })
read_entry-write_entry lsn timestamp (Operation.put key v) =
    rw (take-append (length key) key v refl, drop-append (length key) key v refl)
read_entry-write_entry lsn timestamp (Operation.delete key) = refl

pub libs-IsLawful : IsLawful libs
libs-IsLawful = record {
  crc32-IsU32 = λ bytes. omega arith;
  deserialize-serialize = λ entry bytes h.
      ap read_entry (some_injective bytes _ (sym h))
      ∙ read_entry-write_entry entry.lsn entry.timestamp entry.operation;
}
  where
    some_injective : (a b : List ℕ) → some a ≡ some b → a ≡ b
    some_injective a b h = ground arith

-- A put and a delete, as they are logged.
abbrev pub put_entry : WalEntry
put_entry = new_entry 1 (Operation.put (1 ∷ []) (10 ∷ 11 ∷ [])) 1000

abbrev pub delete_entry : WalEntry
delete_entry = new_entry 2 (Operation.delete (1 ∷ [])) 1001

abbrev pub put_bytes : List ℕ
put_bytes = 1 ∷ 1000 ∷ 0 ∷ 1 ∷ 1 ∷ 10 ∷ 11 ∷ []

abbrev pub delete_bytes : List ℕ
delete_bytes = 2 ∷ 1001 ∷ 1 ∷ 1 ∷ []

abbrev pub log : List (WalEntry × List ℕ)
log = (put_entry, put_bytes) ∷ (delete_entry, delete_bytes) ∷ []

pub log-Written : All (Frames.Written libs) log
log-Written = ((omega arith, refl, omega arith), ((omega arith, refl, omega arith), tt))

-- Tables with values, a tombstone and an empty value.
abbrev pub table : BTreeMap MemTableEntry
table = (1 ∷ [], value (10 ∷ 11 ∷ [])) ∷ (2 ∷ [], tombstone) ∷ (3 ∷ 5 ∷ [], value []) ∷ []

abbrev pub newer : BTreeMap MemTableEntry
newer = (1 ∷ [], tombstone) ∷ (2 ∷ [], value (7 ∷ [])) ∷ []

pub table-CanHold : CanHold table
unfolding compare_bytes entry_bytes to_le
table-CanHold = record {
  sorted = ((refl, (refl, tt)), ((refl, tt), (tt, tt)));
  each = ((omega arith, omega arith), (omega arith, ((omega arith, omega arith), tt)));
  offsets = omega arith;
  count = omega arith;
}

pub newer-CanHold : CanHold newer
unfolding compare_bytes entry_bytes to_le
newer-CanHold = record {
  sorted = ((refl, tt), (tt, tt));
  each = (omega arith, ((omega arith, omega arith), tt));
  offsets = omega arith;
  count = omega arith;
}

-- What a replay of the log leaves in memory, and the log behind its writer.
abbrev pub memory : MemTable
memory = replay (entries_of log) MemTable.new

pub memory-CanHold : CanHold memory.table
unfolding replay replay_entry MemTable.put MemTable.delete MemTable.write BTreeMap.insert
    compare_bytes entry_bytes to_le
memory-CanHold = record {
  sorted = (tt, tt);
  each = (omega arith, tt);
  offsets = omega arith;
  count = omega arith;
}

abbrev pub writer : WalWriter
writer = record {
  file = record {
    content = log_bytes libs log;
    durable = length (log_bytes libs log);
    buffer = [];
    stale = none;
  };
  current_lsn = 3;
  sync_strategy = every_write;
  uncommitted_count = 0;
}

-- Two tables, the newer first; the directory lists the older first.
abbrev pub tables : Tables
tables = (2, newer) ∷ (1, table) ∷ []

abbrev pub manager : StorageManager
manager = record {
  directory = (1, file_of libs.crc32 table) ∷ (2, file_of libs.crc32 newer) ∷ [];
  sstables = map (reader_of libs.crc32) (contents_of tables);
  next_sstable_id = 3;
}

pub manager-Stored : Stored libs.crc32 manager tables
manager-Stored = record {
  files = Permᴰ.swap refl refl;
  serves = record { readers = refl; hold = (newer-CanHold, (table-CanHold, tt)) };
  descends = (omega arith, (omega arith, tt));
}

-- The directory with its first two files listed the other way round.
unfoldable pub swapped : Directory → Directory
swapped (f ∷ g ∷ d) = g ∷ f ∷ d
swapped d = d

pub swapped-Lists : (d : Directory) → Lists d (swapped d)
unfolding swapped
swapped-Lists [] = Permᴰ.nil
swapped-Lists (f ∷ []) = Permᴰ.cons refl Permᴰ.nil
swapped-Lists (f ∷ g ∷ d) = Permᴰ.swap refl refl

abbrev pub engine : Engine
engine = record {
  config =
      Builder.build
        (Builder.memtable_size_limit 3 (Builder.wal_sync_strategy every_write Builder.builder));
  wal = writer;
  memtable = memory;
  storage = manager;
  write_poisoned = false;
  wal_poisoned = false;
}

-- What it shows.
abbrev pub contents : Contents
contents key = visible (entry_of memory (contents_of tables) key)

pub engine-Shows : Shows libs engine contents
engine-Shows = record {
  tables = contents_of tables;
  serves = manager-Stored.serves;
  entries = λ key. refl;
}

pub engine-Recoverable : Recoverable libs engine contents
engine-Recoverable = record {
  entries = log;
  holds = record {
    strategy = refl;
    counter = omega arith;
    written = log-Written;
    log = append-nil (log_bytes libs log);
    empty = refl;
    durable = refl;
  };
  memory = refl;
  stale = λ old h. cc h;
}

-- System calls that all succeed.
abbrev pub calm_storage : StorageEnv
calm_storage = record { create = none; finish = none; left = [] }

abbrev pub calm_env : Env
calm_env = record { appending = calm 1002; truncating = calm 1002; flushing = calm_storage }

pub memory-full : MemTable.is_empty memory ≡ false
unfolding MemTable.is_empty MemTable.entry_count replay MemTable.delete BTreeMap.insert MemTable.put
    compare_bytes
memory-full = refl
