-- ===== src/Sstable/Format.antt =====
-- The constants of src/storage/sstable/mod.rs, the metadata of a closed file, and the byte layout
-- that builder, reader and iterator share. `to_le 4` keeps the four low bytes, which is the cast
-- `as u32`.
use atlas_kv.Base.{Bool, List, Option, [], length, none, some, to_le, ℕ, ◌&&◌, ◌++◌, ◌∷◌}
use atlas_kv.BTreeMap.{at_most}

-- b"ATKV"
abbrev pub magic : List ℕ
magic = 65 ∷ 84 ∷ 75 ∷ 86 ∷ []

abbrev pub version : ℕ
version = 1

abbrev pub header_size : ℕ
header_size = 14

abbrev pub footer_size : ℕ
footer_size = 16

abbrev pub tombstone_marker : ℕ
tombstone_marker = 4294967295

-- `SSTable`, without the path.
pub record Metadata : Type 0 where
  pub entry_count : ℕ
  pub min_key : List ℕ
  pub max_key : List ℕ
  pub file_size : ℕ

-- `SSTable::might_contain`
unfoldable pub might_contain : Metadata → List ℕ → Bool
might_contain t key = at_most t.min_key key && at_most key t.max_key

-- `match value { Some(v) => v.len(), None => TOMBSTONE_MARKER }`
abbrev pub val_len : Option (List ℕ) → ℕ
val_len none = tombstone_marker
val_len (some v) = length v

abbrev pub value_bytes : Option (List ℕ) → List ℕ
value_bytes none = []
value_bytes (some v) = v

-- One entry of the data block.
unfoldable pub entry_bytes : List ℕ → Option (List ℕ) → List ℕ
entry_bytes key value =
    to_le 4 (length key) ++ (to_le 4 (val_len value) ++ (key ++ value_bytes value))

-- One entry of the index block.
unfoldable pub index_entry : List ℕ → ℕ → List ℕ
index_entry key offset = to_le 4 (length key) ++ (to_le 8 offset ++ key)
