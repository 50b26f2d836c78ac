-- ===== src/Sstable/Reader.antt =====
-- src/storage/sstable/reader.rs and iterator.rs. Every `get` seeks from the start of the file, so the
-- open file is its bytes.
use atlas_kv.Base.{
  Bool, List, Option, [], drop, false, from_le, if◌then◌else◌, leb, length, ltb, none, not, slice,
  some, suc, take, true, zero, ℕ, ◌&&◌, ◌+◌, ◌-◌, ◌==◌, ◌∷◌,
}
use atlas_kv.BTreeMap
use atlas_kv.BTreeMap.{BTreeMap, at_most, first_key, last_key}
use atlas_kv.Error.{
  Result, ok, err, io, unexpected_eof, invalid_input, storage, invalid_magic, unsupported_version,
  key_not_found, panicked, ◌>>◌,
}
use atlas_kv.Sstable.Format.{magic, version, header_size, footer_size, tombstone_marker}

pub record SsTableReader : Type 0 where
  pub file : List ℕ
  pub index : BTreeMap ℕ
  pub entry_count : ℕ
  pub index_offset : ℕ

-- Are two byte strings equal?
unfoldable pub same_bytes : List ℕ → List ℕ → Bool
same_bytes [] [] = true
same_bytes [] (b ∷ bs) = false
same_bytes (a ∷ as') [] = false
same_bytes (a ∷ as') (b ∷ bs) = a == b && same_bytes as' bs

-- The loop over the index block, on what is left of it. A round that goes on takes 12 bytes or
-- more, so as many rounds as there are bytes are enough.
unfoldable pub parse_index : ℕ → List ℕ → BTreeMap ℕ → BTreeMap ℕ
parse_index zero bytes index = index
parse_index (suc rounds) bytes index =
    let key_len = from_le (take 4 bytes) in
    let offset = from_le (slice 4 12 bytes) in
    let key = slice 12 (12 + key_len) bytes in
    let rest = parse_index rounds (drop (12 + key_len) bytes) (BTreeMap.insert key offset index) in
    if ltb (length bytes) 4
    then index
    else if ltb (length bytes) 12
    then index
    else if ltb (length bytes) (12 + key_len)
    then index
    else rest

-- Header: magic, version, count.
unfoldable pub check_header : List ℕ → Result (Unit {0})
check_header header =
    if not (same_bytes (take 4 header) magic)
    then err (storage invalid_magic)
    else let found = from_le (slice 4 6 header) in
      if not (found == version) then err (storage (unsupported_version found)) else ok tt

-- From the footer on. The subtraction that gives the size of the index block is unsigned: where it
-- would be negative the source panics, at the subtraction or at the allocation.
unfoldable pub load_index : List ℕ → Result SsTableReader
load_index file =
    let footer = drop (length file - footer_size) file in
    let index_offset = from_le (take 8 footer) in
    if ltb (length file - footer_size) index_offset
    then err panicked
    else let index_block_size = length file - footer_size - index_offset in
      let index_data = take index_block_size (drop index_offset file) in
      ok (record {
        file = file;
        index = parse_index (length index_data) index_data [];
        entry_count = from_le (slice 6 14 file);
        index_offset = index_offset;
      })

unfoldable pub open_table : List ℕ → Result SsTableReader
unfolding check_header
open_table file = if ltb (length file) header_size then err (io unexpected_eof) else do
  check_header (take header_size file)
  if ltb (length file) footer_size then err (io invalid_input) else load_index file

-- An entry read at an offset; its key is skipped, not compared.
unfoldable pub read_value : List ℕ → ℕ → Result (Option (List ℕ))
read_value file offset =
    let header = take 8 (drop offset file) in
    if ltb (length header) 8
    then err (io unexpected_eof)
    else let key_len = from_le (slice 0 4 header) in
      let value_len = from_le (slice 4 8 header) in
      if value_len == tombstone_marker
      then ok none
      else let value = take value_len (drop (offset + 8 + key_len) file) in
        if ltb (length value) value_len then err (io unexpected_eof) else ok (some value)

abbrev pub at_offset : List ℕ → Option ℕ → Result (Option (List ℕ))
at_offset file none = err key_not_found
at_offset file (some offset) = read_value file offset

unfoldable pub get : SsTableReader → List ℕ → Result (Option (List ℕ))
get r key = at_offset r.file (BTreeMap.get key r.index)

abbrev pub in_range : Option (List ℕ) → Option (List ℕ) → List ℕ → Bool
in_range none last key = false
in_range (some first) none key = false
in_range (some first) (some last) key = at_most first key && at_most key last

unfoldable pub might_contain : SsTableReader → List ℕ → Bool
might_contain r key = in_range (first_key r.index) (last_key r.index) key

-- The iterator: what is left of the file, and the two offsets.
pub record SsTableIterator : Type 0 where
  pub rest : List ℕ
  pub end_offset : ℕ
  pub current_offset : ℕ

unfoldable pub iter : SsTableReader → SsTableIterator
iter r = record {
  rest = drop header_size r.file;
  end_offset = r.index_offset;
  current_offset = header_size;
}

-- `next` behind the test of the offset. An iterator that met an error has read on to some place
-- in the file; it is left where the entry began.
unfoldable pub next_item : SsTableIterator → Result (List ℕ × Option (List ℕ)) × SsTableIterator
next_item it =
    let key_len = from_le (take 4 it.rest) in
    let value_len = from_le (slice 4 8 it.rest) in
    let key = slice 8 (8 + key_len) it.rest in
    let behind = drop (8 + key_len) it.rest in
    if ltb (length it.rest) (8 + key_len)
    then (err (io unexpected_eof), it)
    else if value_len == tombstone_marker
    then (
      ok (key, none),
      record it { rest = behind; current_offset = it.current_offset + (8 + key_len) },
    )
    else if ltb (length behind) value_len
    then (err (io unexpected_eof), it)
    else (
      ok (key, some (take value_len behind)),
      record it {
        rest = drop value_len behind;
        current_offset = it.current_offset + (8 + key_len + value_len);
      },
    )

unfoldable pub next : SsTableIterator → Option (Result (List ℕ × Option (List ℕ))) × SsTableIterator
next it =
    if leb it.end_offset it.current_offset
    then (none, it)
    else let (item, it') = next_item it in (some item, it')
