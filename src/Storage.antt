-- ===== src/Storage.antt =====
-- src/storage/manager.rs: the open tables, newest first. The directory is a list of the ids of its
-- table files with their bytes: a file is named by its id, and is found by it. The lock and the
-- atomic counter are plain fields, as in `MemTable`.
pub mod Reads
pub mod Flush
pub mod Listing
pub mod Reopen
pub mod Names
use atlas_kv.Base.{
  List, Option, [], if◌then◌else◌, leb, map, none, not, ℕ, ◌%◌, ◌+◌, ◌==◌, ◌^◌, ◌∷◌,
}
use mathlib.Core.List.{foldr}
use atlas_kv.BTreeMap.{BTreeMap}
use atlas_kv.Error.{
  Result, ok, err, AtlasError, IoKind, io, not_found, storage, empty_memtable, key_not_found, ◌>>=◌,
}
use atlas_kv.Exec.{Exec}
use atlas_kv.MemTable
use atlas_kv.MemTable.{MemTable}
use atlas_kv.Sstable.Format.{Metadata}
use atlas_kv.Sstable.Builder
use atlas_kv.Sstable.Builder.{SsTableBuilder, finished_file}
use atlas_kv.Sstable.Reader
use atlas_kv.Sstable.Reader.{SsTableReader, open_table}
use atlas_kv.Sstable.Written.{add_entries}

abbrev pub Directory : Type 0
Directory = List (ℕ × List ℕ)

pub record StorageManager : Type 0 where
  pub directory : Directory
  pub sstables : List SsTableReader
  pub next_sstable_id : ℕ

-- The outcomes of the system calls of a flush, and the bytes that a failing one leaves in the file.
pub record StorageEnv : Type 0 where
  pub create : Option IoKind
  pub finish : Option IoKind
  pub left : List ℕ

unfoldable pub read_file : ℕ → Directory → Result (List ℕ)
read_file id [] = err (io not_found)
read_file id ((i, bytes) ∷ d) = if i == id then ok bytes else read_file id d

-- `sort` and then `reverse`.
unfoldable pub insert_id : ℕ → List ℕ → List ℕ
insert_id id [] = id ∷ []
insert_id id (i ∷ ids) = if leb i id then id ∷ i ∷ ids else i ∷ insert_id id ids

unfoldable pub newest_first : List ℕ → List ℕ
newest_first [] = []
newest_first (id ∷ ids) = insert_id id (newest_first ids)

unfoldable pub open_all : Directory → List ℕ → Result (List SsTableReader)
open_all d [] = ok []
open_all d (id ∷ ids) = do
  file ← read_file id d
  reader ← open_table file
  readers ← open_all d ids
  ok (reader ∷ readers)

-- `sstable_ids.first().map(|&id| id + 1).unwrap_or(1)`
abbrev pub next_id : List ℕ → ℕ
next_id [] = 1
next_id (id ∷ ids) = (id + 1) % 2 ^ 64

unfoldable pub open_storage : Directory → Result StorageManager
open_storage d = do
  let ids = newest_first (map (λ f. f.0) d)
  readers ← open_all d ids
  ok (record { directory = d; sstables = readers; next_sstable_id = next_id ids })

-- The arms of the `match` on a table's answer: only `KeyNotFound` goes on.
abbrev pub on_answer :
    Result (Option (List ℕ)) → Result (Option (List ℕ)) → Result (Option (List ℕ))
on_answer (ok answer) rest = ok answer
on_answer (err key_not_found) rest = rest
on_answer (err e) rest = err e

unfoldable pub get_loop : List SsTableReader → List ℕ → Result (Option (List ℕ))
get_loop [] key = ok none
get_loop (r ∷ rs) key =
    let rest = get_loop rs key in
    if not (Reader.might_contain r key) then rest else on_answer (Reader.get r key) rest

unfoldable pub get : StorageManager → List ℕ → Result (Option (List ℕ))
unfolding get_loop
get s key = get_loop s.sstables key

-- The file is there once it is created: empty, then with what a failing `finish` left, or whole.
abbrev set_file : ℕ → List ℕ → Directory → Directory
set_file id bytes d = (id, bytes) ∷ d

-- Behind `finish`: the new file is opened, and its reader goes to the front.
unfoldable pub install :
    StorageManager → Result (List ℕ × Metadata) → ℕ → List ℕ → Result Metadata × StorageManager
install s (err e) id left = (err e, record s { directory = set_file id left s.directory })
install s (ok (file, metadata)) id left =
    let s' = record s { directory = set_file id file s.directory } in
    elim (open_table file) [
      | ok reader ↦ (ok metadata, record s' { sstables = reader ∷ s.sstables })
      | err e ↦ (err e, s')
    ]

unfoldable pub build :
    StorageEnv → (List ℕ → ℕ) → MemTable → ℕ → Result SsTableBuilder → Exec StorageManager Metadata
unfolding install
build env crc32 memtable id (err e) s = (err e, s)
build env crc32 memtable id (ok builder) s =
    install s (Builder.finish env.finish crc32 (add_entries builder (MemTable.iter memtable))) id
      env.left

unfoldable pub flush : StorageEnv → (List ℕ → ℕ) → MemTable → Exec StorageManager Metadata
unfolding build
flush env crc32 memtable s =
    if MemTable.is_empty memtable
    then (err (storage empty_memtable), s)
    else build env crc32 memtable s.next_sstable_id (Builder.new env.create)
        (record s { next_sstable_id = (s.next_sstable_id + 1) % 2 ^ 64 })
