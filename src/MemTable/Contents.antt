-- ===== src/MemTable/Contents.antt =====
-- What `get` of src/memtable/table.rs reads after a write, a put and a delete.
use atlas_kv.Base.{List, if◌then◌else◌, some, ℕ, ◌≡◌}
use atlas_kv.BTreeMap.{get-insert, same_key}
use atlas_kv.MemTable.{MemTable, MemTableEntry, value, tombstone, put, delete, write, get}

get-write :
    (m : MemTable) (key j : List ℕ) (entry : MemTableEntry)
    → get (write key entry m) j ≡ (if same_key key j then some entry else get m j)
unfolding get write
get-write m key j entry = get-insert key j entry m.table

-- After put, its key reads the value, and every other key reads as before.
pub get-put :
    (m : MemTable) (key v j : List ℕ)
    → get (put m key v).0 j ≡ (if same_key key j then some (value v) else get m j)
unfolding put
get-put m key v j = get-write m key j (value v)

-- After delete, its key reads a tombstone, and every other key reads as before.
pub get-delete :
    (m : MemTable) (key j : List ℕ)
    → get (delete m key).0 j ≡ (if same_key key j then some tombstone else get m j)
unfolding delete
get-delete m key j = get-write m key j tombstone
