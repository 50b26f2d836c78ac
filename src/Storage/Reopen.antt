-- ===== src/Storage/Reopen.antt =====
-- The tables on disk (src/storage/manager.rs): what a manager serves is what a later open of its
-- directory serves.
use atlas_kv.Base.{
  All, All-map, List, [], ap, arith, false, le→leb, map, ne→==, none, refl, sym, ℕ, ◌+◌, ◌<◌, ◌^◌,
  ◌∙◌, ◌∷◌, ◌≡◌, ◌≤◌,
}
use atlas_kv.Error.{ok}
use atlas_kv.BTreeMap.{BTreeMap}
use atlas_kv.MemTable
use atlas_kv.MemTable.{MemTable, MemTableEntry}
use atlas_kv.Sstable.Format.{Metadata}
use atlas_kv.Sstable.Written.{file_of}
use atlas_kv.Sstable.Opened.{CanHold, reader_of, open_table-file_of}
use atlas_kv.Storage.{
  StorageManager, StorageEnv, Directory, read_file, insert_id, newest_first, open_all, next_id,
  open_storage, flush,
}
use mathlib.Core.List.{Permᴰ}
use atlas_kv.Storage.Listing.{Lists, Apart, IsDistinct, newest_first-Lists, read_file-Lists}
use atlas_kv.Storage.Reads.{Serves}
use atlas_kv.Storage.Flush.{flush_lem}

-- The ids with their tables, newest first.
abbrev pub Tables : Type 0
Tables = List (ℕ × BTreeMap MemTableEntry)

-- The ids go down, from below a bound.
abbrev pub Descends : ℕ → Tables → Type 0
Descends bound [] = Unit {0}
Descends bound ((id, t) ∷ ts) = (id < bound) × Descends id ts

abbrev pub contents_of : Tables → List (BTreeMap MemTableEntry)
contents_of ts = map (λ t. t.1) ts

abbrev pub files_of : (List ℕ → ℕ) → Tables → Directory
files_of crc32 ts = map (λ t. (t.0, file_of crc32 t.1)) ts

-- The manager serves the tables that its directory has, listed in any order, and its next id is
-- above theirs.
pub record Stored (crc32 : List ℕ → ℕ) (s : StorageManager) (ts : Tables) : Type 0 where
  pub files : Lists (files_of crc32 ts) s.directory
  pub serves : Serves crc32 s (contents_of ts)
  pub descends : Descends s.next_sstable_id ts

-- The order of the listing does not matter.
pub relisted-Stored :
    (crc32 : List ℕ → ℕ) (s : StorageManager) (ts : Tables) (directory : Directory)
    → Stored crc32 s ts
    → Lists s.directory directory
    → Stored crc32 (record s { directory = directory }) ts
relisted-Stored crc32 s ts directory stored listed = record {
  files = Permᴰ.trans stored.files listed;
  serves = record { readers = stored.serves.readers; hold = stored.serves.hold };
  descends = stored.descends;
}

-- Each of these tables is found by its id.
abbrev pub Found : (List ℕ → ℕ) → Directory → Tables → Type 0
Found crc32 d ts = All (λ t. read_file t.0 d ≡ ok (file_of crc32 t.1)) ts

read_file-skip :
    (crc32 : List ℕ → ℕ) (id : ℕ) (bytes : List ℕ) (d : Directory) (ts : Tables)
    → Descends id ts
    → Found crc32 d ts
    → Found crc32 ((id, bytes) ∷ d) ts
read_file-skip crc32 id bytes d [] down found = tt
read_file-skip crc32 id bytes d ((i, t) ∷ ts) (lt, down) (here, found) = (
  unfold read_file in rw (ne→== id i (omega arith), here),
  read_file-skip crc32 id bytes d ts (lower i id ts (omega arith) down) found,
)
  where
    lower : (i id : ℕ) (ts : Tables) → i < id → Descends i ts → Descends id ts
    lower i id [] lt down = tt
    lower i id ((j, t) ∷ ts) lt (l, down) = (omega arith, down)

files_of-Found :
    (crc32 : List ℕ → ℕ) (bound : ℕ) (ts : Tables)
    → Descends bound ts
    → Found crc32 (files_of crc32 ts) ts
files_of-Found crc32 bound [] down = tt
files_of-Found crc32 bound ((id, t) ∷ ts) (lt, down) = (
  unfold read_file in ground arith,
  read_file-skip crc32 id (file_of crc32 t) (files_of crc32 ts) ts down
      (files_of-Found crc32 id ts down),
)

pub newest_first-files_of :
    (crc32 : List ℕ → ℕ) (bound : ℕ) (ts : Tables)
    → Descends bound ts
    → newest_first (map (λ f. f.0) (files_of crc32 ts)) ≡ map (λ t. t.0) ts
unfolding newest_first insert_id
newest_first-files_of crc32 bound [] down = refl
newest_first-files_of crc32 bound ((id, t) ∷ []) (lt, down) = refl
newest_first-files_of crc32 bound ((id, t) ∷ (j, u) ∷ ts) (lt, down) =
    rw (newest_first-files_of crc32 id ((j, u) ∷ ts) down, le→leb j id (omega arith))

open_all-Found :
    (crc32 : List ℕ → ℕ) (d : Directory) (ts : Tables)
    → Found crc32 d ts
    → All CanHold (contents_of ts)
    → open_all d (map (λ t. t.0) ts) ≡ ok (map (reader_of crc32) (contents_of ts))
unfolding open_all
open_all-Found crc32 d [] found hold = refl
open_all-Found crc32 d ((id, t) ∷ ts) (here, found) (can, hold) =
    rw (here, open_table-file_of crc32 t can, open_all-Found crc32 d ts found hold)

-- The manager that an open of the directory of these tables returns.
abbrev pub manager_of : (List ℕ → ℕ) → Directory → Tables → StorageManager
manager_of crc32 d ts = record {
  directory = d;
  sstables = map (reader_of crc32) (contents_of ts);
  next_sstable_id = next_id (map (λ t. t.0) ts);
}

pub newest_first-Stored :
    (crc32 : List ℕ → ℕ) (bound : ℕ) (d : Directory) (ts : Tables)
    → Descends bound ts
    → Lists (files_of crc32 ts) d
    → newest_first (map (λ f. f.0) d) ≡ map (λ t. t.0) ts
newest_first-Stored crc32 bound d ts down files =
    sym (newest_first-Lists files) ∙ newest_first-files_of crc32 bound ts down

files_of-IsDistinct :
    (crc32 : List ℕ → ℕ) (bound : ℕ) (ts : Tables)
    → Descends bound ts
    → IsDistinct (files_of crc32 ts)
files_of-IsDistinct crc32 bound [] down = tt
files_of-IsDistinct crc32 bound ((id, t) ∷ ts) (lt, down) =
    (apart id id ts down (omega arith), files_of-IsDistinct crc32 id ts down)
  where
    apart :
        (i bound : ℕ) (ts : Tables) → Descends bound ts → bound ≤ i → Apart i (files_of crc32 ts)
    apart i bound [] down le = tt
    apart i bound ((j, t) ∷ ts) (lt, down) le =
        (ne→== j i (omega arith), apart i j ts down (omega arith))

Stored-Found :
    (crc32 : List ℕ → ℕ) (bound : ℕ) (d : Directory) (ts : Tables)
    → Descends bound ts
    → Lists (files_of crc32 ts) d
    → Found crc32 d ts
Stored-Found crc32 bound d ts down files =
    All-map (λ t. read_file t.0 (files_of crc32 ts) ≡ ok (file_of crc32 t.1))
      (λ t. read_file t.0 d ≡ ok (file_of crc32 t.1)) ts
      (λ t found. sym (read_file-Lists t.0 files (files_of-IsDistinct crc32 bound ts down)) ∙ found)
      (files_of-Found crc32 bound ts down)

pub open_storage-manager_of :
    (crc32 : List ℕ → ℕ) (s : StorageManager) (ts : Tables)
    → Stored crc32 s ts
    → open_storage s.directory ≡ ok (manager_of crc32 s.directory ts)
unfolding open_storage
open_storage-manager_of crc32 s ts stored = rw (
  newest_first-Stored crc32 s.next_sstable_id s.directory ts stored.descends stored.files,
  open_all-Found crc32 s.directory ts
      (Stored-Found crc32 s.next_sstable_id s.directory ts stored.descends stored.files)
      stored.serves.hold,
)

-- The directory of a manager that serves the tables whose files it has, listed in any order, is
-- opened to a manager that serves the same tables, in the order of their ids.
pub open_storage-Stored :
    (crc32 : List ℕ → ℕ) (s : StorageManager) (ts : Tables) (directory : Directory)
    → Stored crc32 s ts
    → Lists s.directory directory
    → (s' : StorageManager) × (open_storage directory ≡ ok s') × Serves crc32 s' (contents_of ts)
open_storage-Stored crc32 s ts directory stored listed = (
  manager_of crc32 directory ts,
  open_storage-manager_of crc32 (record s { directory = directory }) ts
      (relisted-Stored crc32 s ts directory stored listed),
  record { readers = refl; hold = stored.serves.hold },
)

Descends-next_id :
    (bound : ℕ) (ts : Tables)
    → bound < 2 ^ 64
    → Descends bound ts
    → Descends (next_id (map (λ t. t.0) ts)) ts
Descends-next_id bound [] small down = tt
Descends-next_id bound ((id, t) ∷ ts) small (lt, down) = (omega arith, down)

-- What was opened is stored in its turn, where the ids fit 64 bits.
pub manager_of-Stored :
    (crc32 : List ℕ → ℕ) (s : StorageManager) (ts : Tables)
    → Stored crc32 s ts
    → s.next_sstable_id < 2 ^ 64
    → Stored crc32 (manager_of crc32 s.directory ts) ts
manager_of-Stored crc32 s ts stored small = record {
  files = stored.files;
  serves = record { readers = refl; hold = stored.serves.hold };
  descends = Descends-next_id s.next_sstable_id ts small stored.descends;
}

-- An open leaves as much room for ids as there was.
pub next_id_room :
    (bound : ℕ) (ts : Tables)
    → bound + 1 < 2 ^ 64
    → Descends bound ts
    → next_id (map (λ t. t.0) ts) + 1 < 2 ^ 64
next_id_room bound [] room down = omega arith
next_id_room bound ((id, t) ∷ ts) room (lt, down) = omega arith

pub next_id_le :
    (bound n : ℕ) (ts : Tables)
    → bound ≤ n + 1
    → Descends bound ts
    → next_id (map (λ t. t.0) ts) ≤ n + 1
next_id_le bound n [] le down = omega arith
next_id_le bound n ((id, t) ∷ ts) le (lt, down) = omega arith

-- A flush of a memtable that is not empty and that the format can hold, where the system calls
-- succeed and ids are left, stores its entries as the newest table.
pub flush-Stored :
    (env : StorageEnv) (crc32 : List ℕ → ℕ) (m : MemTable) (s : StorageManager) (ts : Tables)
    → Stored crc32 s ts
    → CanHold m.table
    → MemTable.is_empty m ≡ false
    → env.create ≡ none
    → env.finish ≡ none
    → s.next_sstable_id + 1 < 2 ^ 64
    → (metadata : Metadata) × ((flush env crc32 m s).0 ≡ ok metadata)
      × Stored crc32 (flush env crc32 m s).1 ((s.next_sstable_id, m.table) ∷ ts)
flush-Stored env crc32 m s ts stored can full create finish room =
    let (metadata, e) = flush_lem crc32 m can env s full create finish in
    (
      metadata,
      ap (λ r. r.0) e,
      rw e (record {
        files = Permᴰ.cons refl stored.files;
        serves = record {
          readers = ap (λ rs. reader_of crc32 m.table ∷ rs) stored.serves.readers;
          hold = (can, stored.serves.hold);
        };
        descends = (omega arith, stored.descends);
      }),
    )
