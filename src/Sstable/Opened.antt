-- ===== src/Sstable/Opened.antt =====
-- `SSTableReader::open` on the file that the builder leaves, and what the reader then answers.
use atlas_kv.Base.{
  IsU64, List, [], ap, append_assoc, arith, drop, drop-append, drop-append_add, false, from_le,
  from_le-to_le, length, length-append, le→ltb, none, refl, slice, some, sym, take, take-append,
  to_le, ℕ, ◌++◌, ◌+◌, ◌-◌, ◌<◌, ◌^◌, ◌∙◌, ◌∷◌, ◌≡◌, ◌≤◌,
}
use atlas_kv.BTreeMap
use atlas_kv.BTreeMap.{BTreeMap, IsSorted, first_key, last_key, get_out_of_range}
use atlas_kv.Error.{ok, ◌>>◌}
use atlas_kv.Sstable.Format.{header_size, footer_size}
use atlas_kv.Sstable.Builder.{header_bytes, index_block, footer_bytes}
use atlas_kv.Sstable.Reader.{
  SsTableReader, open_table, check_header, load_index, parse_index, same_bytes, get, might_contain,
  in_range,
}
use atlas_kv.Sstable.Written.{data_block, index_from, file_of, record_size, length-data_block}
use atlas_kv.Sstable.Index.{IndexFits, parse_index-index_block}
use atlas_kv.Sstable.Lookup.{AllFit, found, at_offset-index_from, key_fits}
use atlas_kv.MemTable.{MemTableEntry}

-- Entries that a file can hold: sorted, each within its widths, and all within 64 bits of offset.
pub record CanHold (es : BTreeMap MemTableEntry) : Type 0 where
  pub sorted : IsSorted es
  pub each : AllFit es
  pub offsets : header_size + length (data_block es) < 2 ^ 64
  pub count : length es < 2 ^ 64

-- The reader that `open` returns.
abbrev pub reader_of : (List ℕ → ℕ) → BTreeMap MemTableEntry → SsTableReader
reader_of crc32 es = record {
  file = file_of crc32 es;
  index = index_from header_size es;
  entry_count = length es;
  index_offset = header_size + length (data_block es);
}

index_from-After :
    (key : List ℕ) (offset : ℕ) (es : BTreeMap MemTableEntry)
    → BTreeMap.After key es
    → BTreeMap.After key (index_from offset es)
index_from-After key offset [] h = tt
index_from-After key offset ((k, entry) ∷ es) h =
    (h.0, index_from-After key (offset + record_size k entry) es h.1)

index_from-IsSorted :
    (offset : ℕ) (es : BTreeMap MemTableEntry) → IsSorted es → IsSorted (index_from offset es)
index_from-IsSorted offset [] s = tt
index_from-IsSorted offset ((k, entry) ∷ es) (a, s) = (
  index_from-After k (offset + record_size k entry) es a,
  index_from-IsSorted (offset + record_size k entry) es s,
)

header_of-file :
    (count : ℕ) (rest : List ℕ)
    → count < 2 ^ 64
    → (check_header (take header_size (header_bytes count ++ rest)) ≡ ok tt)
      × (from_le (slice 6 14 (header_bytes count ++ rest)) ≡ count)
unfolding check_header same_bytes to_le from_le
header_of-file count rest h = (refl, from_le-to_le 8 count h)

length-footer : (offset crc : ℕ) → length (footer_bytes offset crc) ≡ footer_size
unfolding to_le
length-footer offset crc = refl

footer_offset :
    (offset crc : ℕ) → IsU64 offset → from_le (take 8 (footer_bytes offset crc)) ≡ offset
unfolding to_le
footer_offset offset crc h = from_le-to_le 8 offset h

-- A file that ends in a footer: the index block is what lies between the offset that the footer
-- names and the footer.
load_index-blocks :
    (front block : List ℕ) (crc : ℕ)
    → IsU64 (length front)
    → load_index (front ++ (block ++ footer_bytes (length front) crc))
      ≡ ok (record {
        file = front ++ (block ++ footer_bytes (length front) crc);
        index = parse_index (length block) block [];
        entry_count = from_le (slice 6 14 (front ++ (block ++ footer_bytes (length front) crc)));
        index_offset = length front;
      })
unfolding load_index
load_index-blocks front block crc h =
    let foot = footer_bytes (length front) crc in
    let file = front ++ (block ++ foot) in
    let n : length file ≡ length front + length block + 16 = omega (
      arith,
      length-append front (block ++ foot),
      length-append block foot,
      length-footer (length front) crc,
    ) in
    let at_foot : drop (length file - footer_size) file ≡ foot =
      drop-append_add (length front) (length block) (length file - footer_size) front
        (block ++ foot) refl (omega arith)
      ∙ drop-append (length block) block foot refl in
    let at_index : take (length file - footer_size - length front) (drop (length front) file)
        ≡ block =
      ap (take (length file - footer_size - length front))
        (drop-append (length front) front (block ++ foot) refl)
      ∙ take-append (length file - footer_size - length front) block foot (omega arith) in
    rw (
      at_foot,
      footer_offset (length front) crc h,
      at_index,
      le→ltb (length file - footer_size) (length front) (omega arith),
    )

index_from-fits :
    (offset : ℕ) (es : BTreeMap MemTableEntry)
    → AllFit es
    → offset + length (data_block es) < 2 ^ 64
    → IndexFits (index_from offset es)
index_from-fits offset [] f h = tt
index_from-fits offset ((k, entry) ∷ es) (f, fs) h = (
  (key_fits k entry f, omega arith),
  index_from-fits (offset + record_size k entry) es fs
      (omega (arith, length-data_block k entry es)),
)

get-index_from :
    (key : List ℕ) (offset : ℕ) (es : BTreeMap MemTableEntry)
    → BTreeMap.get key (index_from offset es) ≡ none
    → BTreeMap.get key es ≡ none
unfolding BTreeMap.get
get-index_from key offset [] h = refl
get-index_from key offset ((k, entry) ∷ es) h =
    ground (arith, get-index_from key (offset + record_size k entry) es)

last_of_cons :
    (k : List ℕ) (offset : ℕ) (index : BTreeMap ℕ)
    → (last : List ℕ) × (last_key ((k, offset) ∷ index) ≡ some last)
unfolding last_key
last_of_cons k offset [] = (k, refl)
last_of_cons k offset ((j, o) ∷ index) = last_of_cons j o index

out_of_range :
    (key : List ℕ) (index : BTreeMap ℕ)
    → IsSorted index
    → in_range (first_key index) (last_key index) key ≡ false
    → BTreeMap.get key index ≡ none
out_of_range key [] s h = unfold BTreeMap.get in refl
out_of_range key ((k, offset) ∷ index) s h =
    let (last, l) = last_of_cons k offset index in
    get_out_of_range key k last ((k, offset) ∷ index) s (unfold first_key in refl) l
      (unfold first_key in rw (l, first_key) at h)

module _ (crc32 : List ℕ → ℕ) (es : BTreeMap MemTableEntry) (can : CanHold es) where
  open can use {sorted, each, offsets, count}

  before_index : List ℕ
  before_index = header_bytes (length es) ++ data_block es

  length-before_index : length before_index ≡ header_size + length (data_block es)
  unfolding before_index to_le
  length-before_index = omega arith

  block : List ℕ
  block = index_block (index_from header_size es)

  file_blocks :
      file_of crc32 es
      ≡ before_index ++ (block ++ footer_bytes (length before_index) (crc32 (data_block es)))
  unfolding before_index block
  file_blocks =
      sym (append_assoc (header_bytes (length es)) (data_block es) _)
      ∙ ap (λ (n : ℕ). before_index ++ (block ++ footer_bytes n (crc32 (data_block es))))
          (sym length-before_index)

  load_index-file_of : load_index (file_of crc32 es) ≡ ok (reader_of crc32 es)
  unfolding block
  load_index-file_of =
      let head =
        header_of-file (length es)
          (data_block es
            ++ (block
                ++ footer_bytes (header_size + length (data_block es)) (crc32 (data_block es))))
          count in
      ap load_index file_blocks
      ∙ load_index-blocks before_index block (crc32 (data_block es))
          (omega (arith, length-before_index))
      ∙ rw (← file_blocks) (
          cc (
            head.1,
            length-before_index,
            parse_index-index_block (index_from header_size es)
                (index_from-fits header_size es each offsets)
                (index_from-IsSorted header_size es sorted),
          ))

  long_file : 30 ≤ length (file_of crc32 es)
  long_file =
      let foot = footer_bytes (length before_index) (crc32 (data_block es)) in
      omega (
        arith,
        ap length file_blocks,
        length-before_index,
        length-append before_index (block ++ foot),
        length-append block foot,
        length-footer (length before_index) (crc32 (data_block es)),
      )

  -- The file of entries that the format can hold is opened, with the index of those entries.
  pub open_table-file_of : open_table (file_of crc32 es) ≡ ok (reader_of crc32 es)
  unfolding open_table block
  open_table-file_of =
      let head =
        header_of-file (length es)
          (data_block es
            ++ (block
                ++ footer_bytes (header_size + length (data_block es)) (crc32 (data_block es))))
          count in
      rw
        (
          le→ltb (length (file_of crc32 es)) header_size (omega (arith, long_file)),
          le→ltb (length (file_of crc32 es)) footer_size (omega (arith, long_file)),
        )
        (ap (λ r. r >> load_index (file_of crc32 es)) head.0 ∙ load_index-file_of)

  -- The reader of a built file, of entries that the format can hold, answers every key as the
  -- entries do: their value, nothing for a tombstone, and KeyNotFound for a key that they do not
  -- have.
  pub get-reader_of : (key : List ℕ) → get (reader_of crc32 es) key ≡ found (BTreeMap.get key es)
  unfolding get
  get-reader_of key =
      at_offset-index_from key es (header_bytes (length es)) _ header_size (unfold to_le in refl)
        each

  -- A key that might_contain rules out is in none of the entries, for the reader of entries that
  -- the format can hold.
  pub might_contain-reader_of :
      (key : List ℕ) → might_contain (reader_of crc32 es) key ≡ false → BTreeMap.get key es ≡ none
  might_contain-reader_of key h = get-index_from key header_size es (
      out_of_range key (index_from header_size es) (index_from-IsSorted header_size es sorted)
        (unfold might_contain in h))
