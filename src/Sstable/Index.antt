-- ===== src/Sstable/Index.antt =====
-- The index block read back (the loop of `SSTableReader::open`, src/storage/sstable/reader.rs).
use atlas_kv.Base.{
  All, IsU32, IsU64, List, [], ap, append-nil, append_assoc, arith, drop, drop-append, from_le,
  from_le-to_le, length, length-append, refl, slice, suc, sym, take, take-append, to_le, zero, ℕ,
  ◌++◌, ◌+◌, ◌-◌, ◌<◌, ◌∙◌, ◌∷◌, ◌≡◌, ◌≤◌,
}
use atlas_kv.BTreeMap
use atlas_kv.BTreeMap.{BTreeMap, Before, IsSorted, insert_last, compare_bytes}
use Prim.Native.Nat.Ordering.{lt}
use atlas_kv.Sstable.Format.{index_entry}
use atlas_kv.Sstable.Builder.{index_block}
use atlas_kv.Sstable.Reader.{parse_index}

-- The lengths of the keys and the offsets fit their widths.
abbrev pub IndexFits : BTreeMap ℕ → Type 0
IndexFits index = All (λ e. IsU32 (length e.0) × IsU64 e.1) index

module _ (key : List ℕ) (offset : ℕ) (rest : List ℕ) where
  entry_len : IsU32 (length key) → from_le (take 4 (index_entry key offset ++ rest)) ≡ length key
  unfolding index_entry to_le
  entry_len h = from_le-to_le 4 (length key) h

  entry_offset : IsU64 offset → from_le (slice 4 12 (index_entry key offset ++ rest)) ≡ offset
  unfolding index_entry to_le
  entry_offset h = from_le-to_le 8 offset h

  entry_key : slice 12 (12 + length key) (index_entry key offset ++ rest) ≡ key
  unfolding index_entry to_le
  entry_key = take-append (12 + length key - 12) key rest (omega arith)

  length-index_entry : length (index_entry key offset) ≡ 12 + length key
  unfolding index_entry to_le
  length-index_entry = omega arith

  entry_rest : drop (12 + length key) (index_entry key offset ++ rest) ≡ rest
  entry_rest =
      drop-append (12 + length key) (index_entry key offset) rest
        (omega (arith, length-index_entry))

  entry_length : length (index_entry key offset ++ rest) ≡ 12 + length key + length rest
  entry_length = omega (arith, length-append (index_entry key offset) rest, length-index_entry)

  parse_step :
      (rounds : ℕ) (index : BTreeMap ℕ)
      → IsU32 (length key)
      → IsU64 offset
      → parse_index (suc rounds) (index_entry key offset ++ rest) index
        ≡ parse_index rounds rest (BTreeMap.insert key offset index)
  unfolding parse_index
  parse_step rounds index hk ho =
      rw (entry_len hk, entry_offset ho, entry_key, entry_rest, entry_length) (ground arith)

Before-append :
    (acc : BTreeMap ℕ) (key : List ℕ) (offset : ℕ) (rest : BTreeMap ℕ)
    → IsSorted (acc ++ ((key, offset) ∷ rest))
    → Before key acc
Before-append [] key offset rest s = tt
Before-append ((k, o) ∷ acc) key offset rest (after, s) =
    (at_end acc after, Before-append acc key offset rest s)
  where
    at_end :
        (xs : BTreeMap ℕ)
        → All (λ e. compare_bytes k e.0 ≡ lt) (xs ++ ((key, offset) ∷ rest))
        → compare_bytes k key ≡ lt
    at_end [] h = h.0
    at_end (x ∷ xs) h = at_end xs h.1

parse_index-block :
    (index : BTreeMap ℕ) (rounds : ℕ) (acc : BTreeMap ℕ)
    → length index < rounds
    → IndexFits index
    → IsSorted (acc ++ index)
    → parse_index rounds (index_block index) acc ≡ acc ++ index
unfolding index_block
parse_index-block index zero acc enough f s = absurd (omega arith)
parse_index-block [] (suc rounds) acc enough f s = unfold parse_index in sym (append-nil acc)
parse_index-block ((key, offset) ∷ index) (suc rounds) acc enough f s =
    parse_step key offset (index_block index) rounds acc f.0.0 f.0.1
    ∙ ap (parse_index rounds (index_block index))
        (insert_last key offset acc (Before-append acc key offset index s))
    ∙ parse_index-block index rounds (acc ++ ((key, offset) ∷ [])) (omega arith) f.1
        (rw (append_assoc acc ((key, offset) ∷ []) index) s)
    ∙ append_assoc acc ((key, offset) ∷ []) index

length-index_block : (index : BTreeMap ℕ) → length index ≤ length (index_block index)
unfolding index_block
length-index_block [] = omega arith
length-index_block ((key, offset) ∷ index) = omega (
  arith,
  length-append (index_entry key offset) (index_block index),
  length-index_entry key offset [],
  length-index_block index,
)

-- The loop reads a sorted index whose lengths and offsets fit their widths back from its block, in
-- as many rounds as the block has bytes.
pub parse_index-index_block :
    (index : BTreeMap ℕ)
    → IndexFits index
    → IsSorted index
    → parse_index (length (index_block index)) (index_block index) [] ≡ index
parse_index-index_block [] f s = unfold index_block parse_index in refl
parse_index-index_block ((key, offset) ∷ index) f s =
    parse_index-block ((key, offset) ∷ index) (length (index_block ((key, offset) ∷ index))) []
      (unfold index_block in
        omega (
          arith,
          length-append (index_entry key offset) (index_block index),
          length-index_entry key offset [],
          length-index_block index,
        ))
      f s
