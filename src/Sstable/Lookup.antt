-- ===== src/Sstable/Lookup.antt =====
-- `SSTableReader::get` on the file that the builder leaves.
use atlas_kv.Base.{
  Bool-cases, IsU32, List, Option, [], ap, append_assoc, arith, drop, drop-append, drop-append_add,
  from_le, from_le-to_le, if◌then◌else◌, inl, inr, length, length-append, ltb, none, refl, slice,
  some, sym, take, take-append, to_le, ℕ, ◌++◌, ◌+◌, ◌<◌, ◌==◌, ◌∙◌, ◌∷◌, ◌≡◌,
}
use atlas_kv.BTreeMap
use atlas_kv.BTreeMap.{BTreeMap, same_key}
use atlas_kv.Error.{Result, ok, err, io, unexpected_eof, key_not_found}
use atlas_kv.MemTable.{MemTableEntry, value, tombstone}
use atlas_kv.Sstable.Format.{entry_bytes, value_bytes, val_len, tombstone_marker}
use atlas_kv.Sstable.Reader.{read_value, at_offset}
use atlas_kv.Sstable.Written.{payload, data_block, index_from, record_size, length-entry_bytes}

-- What the format can hold of an entry: a key shorter than 2 ^ 32, and a value shorter than the
-- marker of a tombstone.
abbrev pub EntryFits : List ℕ → MemTableEntry → Type 0
EntryFits key (value v) = IsU32 (length key) × (length v < tombstone_marker)
EntryFits key tombstone = IsU32 (length key)

abbrev pub AllFit : BTreeMap MemTableEntry → Type 0
AllFit [] = Unit
AllFit ((key, entry) ∷ es) = EntryFits key entry × AllFit es

-- The answer for a key, from the entry that it has.
abbrev pub found : Option MemTableEntry → Result (Option (List ℕ))
found none = err key_not_found
found (some entry) = ok (payload entry)

module _ (key : List ℕ) (entry : MemTableEntry) (rest : List ℕ) where
  head_len :
      IsU32 (length key)
      → from_le (slice 0 4 (take 8 (entry_bytes key (payload entry) ++ rest))) ≡ length key
  unfolding entry_bytes to_le
  head_len h = from_le-to_le 4 (length key) h

  head_value_len :
      IsU32 (val_len (payload entry))
      → from_le (slice 4 8 (take 8 (entry_bytes key (payload entry) ++ rest)))
        ≡ val_len (payload entry)
  unfolding entry_bytes to_le
  head_value_len h = from_le-to_le 4 (val_len (payload entry)) h

  head_length : length (take 8 (entry_bytes key (payload entry) ++ rest)) ≡ 8
  unfolding entry_bytes to_le
  head_length = refl

  pub behind_key :
      drop (8 + length key) (entry_bytes key (payload entry) ++ rest)
      ≡ value_bytes (payload entry) ++ rest
  unfolding entry_bytes to_le
  behind_key =
      let front = to_le 4 (length key) ++ (to_le 4 (val_len (payload entry)) ++ key) in
      ap
        (λ t.
          drop (8 + length key) (to_le 4 (length key) ++ (to_le 4 (val_len (payload entry)) ++ t)))
        (append_assoc key (value_bytes (payload entry)) rest)
      ∙ drop-append (8 + length key) front (value_bytes (payload entry) ++ rest) (omega arith)

pub val_len_tombstone :
    (key : List ℕ) (entry : MemTableEntry) → EntryFits key entry → IsU32 (val_len (payload entry))
val_len_tombstone key (value v) f = omega arith
val_len_tombstone key tombstone f = omega arith

pub key_fits : (key : List ℕ) (entry : MemTableEntry) → EntryFits key entry → IsU32 (length key)
key_fits key (value v) f = f.0
key_fits key tombstone f = f

-- What `read_value` makes of the length and of what stands behind the key.
value_or_tombstone : ℕ → List ℕ → Result (Option (List ℕ))
value_or_tombstone n behind =
    if n == tombstone_marker
    then ok none
    else if ltb (length (take n behind)) n
    then err (io unexpected_eof)
    else ok (some (take n behind))

value_or_tombstone-payload :
    (key : List ℕ) (entry : MemTableEntry) (rest : List ℕ)
    → EntryFits key entry
    → value_or_tombstone (val_len (payload entry)) (value_bytes (payload entry) ++ rest)
      ≡ ok (payload entry)
unfolding value_or_tombstone
value_or_tombstone-payload key (value v) rest f = ground (arith, take-append (length v) v rest)
value_or_tombstone-payload key tombstone rest f = refl

-- Reading at the offset of an entry returns its value, or nothing for a tombstone.
read_value-entry :
    (front : List ℕ) (key : List ℕ) (entry : MemTableEntry) (rest : List ℕ) (offset : ℕ)
    → offset ≡ length front
    → EntryFits key entry
    → read_value (front ++ (entry_bytes key (payload entry) ++ rest)) offset ≡ ok (payload entry)
unfolding read_value
read_value-entry front key entry rest offset at f =
    let here = entry_bytes key (payload entry) ++ rest in
    let value_at : drop (offset + 8 + length key) (front ++ here)
        ≡ value_bytes (payload entry) ++ rest =
      drop-append_add offset (8 + length key) (offset + 8 + length key) front here at (omega arith)
      ∙ behind_key key entry rest in
    rw
      (
        drop-append offset front here at,
        head_length key entry rest,
        head_len key entry rest (key_fits key entry f),
        head_value_len key entry rest (val_len_tombstone key entry f),
        value_at,
      )
      (unfold value_or_tombstone in value_or_tombstone-payload key entry rest f)

-- A key looked up in the index of the entries, and read in a file that holds their data block.
pub at_offset-index_from :
    (key : List ℕ) (es : BTreeMap MemTableEntry) (front tail : List ℕ) (offset : ℕ)
    → offset ≡ length front
    → AllFit es
    → at_offset (front ++ (data_block es ++ tail)) (BTreeMap.get key (index_from offset es))
      ≡ found (BTreeMap.get key es)
unfolding BTreeMap.get
at_offset-index_from key [] front tail offset at f = refl
at_offset-index_from key ((k, entry) ∷ es) front tail offset at (f, fs) =
    let here = entry_bytes k (payload entry) in
    let regroup : front ++ (here ++ data_block es ++ tail)
        ≡ front ++ here ++ (data_block es ++ tail) =
      ap (λ t. front ++ t) (append_assoc here (data_block es) tail)
      ∙ sym (append_assoc front here (data_block es ++ tail)) in
    elim (Bool-cases (same_key key k)) [
      | inl same ↦
          rw (same, append_assoc here (data_block es) tail)
            (read_value-entry front k entry (data_block es ++ tail) offset at f)
      | inr other ↦
          rw (other, regroup)
            (at_offset-index_from key es (front ++ here) tail (offset + record_size k entry)
              (omega (arith, length-append front here, length-entry_bytes k entry)) fs)
    ]
