-- ===== src/Tests/Tables.antt =====
-- Tables, the manager and the memtable on the data of `Samples`.
use atlas_kv.Base.{[], arith, none, some, ◌∷◌, ◌≡◌}
use atlas_kv.Error.{ok}
use atlas_kv.BTreeMap
use atlas_kv.BTreeMap.{same_key, compare_bytes}
use atlas_kv.MemTable
use atlas_kv.MemTable.{MemTable, value, tombstone, new}
use atlas_kv.MemTable.Size.{IsValid, total, put-IsValid, new-IsValid}
use atlas_kv.Sstable.Reader
use atlas_kv.Sstable.Reader.{open_table, parse_index, iter}
use atlas_kv.Sstable.Written.{file_of}
use atlas_kv.Sstable.Lookup.{found}
use atlas_kv.Sstable.Opened.{reader_of, open_table-file_of, get-reader_of}
use atlas_kv.Storage
use atlas_kv.Storage.{StorageManager, StorageEnv, open_storage, flush}
use atlas_kv.Storage.Reads.{Serves, visible, newest_entry, get-newest_entry}
use atlas_kv.Storage.Names.{open_named}
use atlas_kv.Storage.Names.Directory.{named, readers_of, open_named-named}
use atlas_kv.Sstable.Iterator.{collect, collect-reader_of}
use atlas_kv.Tests.Samples.{swapped, swapped-Lists}
use atlas_kv.Storage.Reopen.{contents_of, open_storage-Stored}
use atlas_kv.Tests.Samples.{
  libs, table, table-CanHold, tables, manager, manager-Stored, swapped, swapped-Lists,
}

open_table-file_of_example : open_table (file_of libs.crc32 table) ≡ ok (reader_of libs.crc32 table)
open_table-file_of_example = open_table-file_of libs.crc32 table table-CanHold

get-reader_of_example :
    Reader.get (reader_of libs.crc32 table) (2 ∷ []) ≡ found (BTreeMap.get (2 ∷ []) table)
get-reader_of_example = get-reader_of libs.crc32 table table-CanHold (2 ∷ [])

get-newest_entry_example :
    Storage.get manager (1 ∷ []) ≡ ok (visible (newest_entry (contents_of tables) (1 ∷ [])))
get-newest_entry_example =
    get-newest_entry libs.crc32 manager (contents_of tables) (1 ∷ []) manager-Stored.serves

open_storage-Stored_example :
    (s' : StorageManager) × (open_storage (swapped manager.directory) ≡ ok s')
    × Serves libs.crc32 s' (contents_of tables)
open_storage-Stored_example =
    open_storage-Stored libs.crc32 manager tables (swapped manager.directory) manager-Stored
      (swapped-Lists manager.directory)

put-IsValid_example :
    IsValid (MemTable.put new (1 ∷ []) (2 ∷ 3 ∷ [])).0
    × ((MemTable.put new (1 ∷ []) (2 ∷ 3 ∷ [])).1
        ≡ total (MemTable.put new (1 ∷ []) (2 ∷ 3 ∷ [])).0.table)
put-IsValid_example = put-IsValid {m = new} (1 ∷ []) (2 ∷ 3 ∷ []) new-IsValid (omega arith)

open_named-named_example :
    open_named (named manager.directory) ≡ readers_of (open_storage manager.directory)
open_named-named_example = open_named-named manager.directory (omega arith, (omega arith, tt))

collect-reader_of_example :
    collect 4 (iter (reader_of libs.crc32 table))
    ≡ ok (1 ∷ [], some (10 ∷ 11 ∷ [])) ∷ ok (2 ∷ [], none) ∷ ok (3 ∷ 5 ∷ [], some []) ∷ []
collect-reader_of_example = collect-reader_of libs.crc32 table table-CanHold
