-- ===== src/Sstable/Written.antt =====
-- The file that the builder leaves (src/storage/sstable/builder.rs), in closed form.
use atlas_kv.Base.{
  List, Option, [], ap, append-nil, append_assoc, arith, drop, length, length-append, none, refl,
  some, sym, take, to_le, ℕ, ◌%◌, ◌++◌, ◌+◌, ◌<◌, ◌^◌, ◌∙◌, ◌∷◌, ◌≡◌,
}
use atlas_kv.BTreeMap.{BTreeMap}
use atlas_kv.MemTable.{MemTableEntry, value, tombstone}
use atlas_kv.Sstable.Format.{header_size, entry_bytes, value_bytes}
use atlas_kv.Sstable.Builder.{
  SsTableBuilder, header_bytes, write_entry, add, add_tombstone, index_block, finished_file,
  footer_bytes, fresh,
}

abbrev pub payload : MemTableEntry → Option (List ℕ)
payload (value v) = some v
payload tombstone = none

-- The bytes of an entry in the data block.
abbrev pub record_size : List ℕ → MemTableEntry → ℕ
record_size key entry = 8 + length key + length (value_bytes (payload entry))

abbrev pub data_block : BTreeMap MemTableEntry → List ℕ
data_block [] = []
data_block ((key, entry) ∷ es) = entry_bytes key (payload entry) ++ data_block es

-- The index of entries whose first stands at this offset.
abbrev pub index_from : ℕ → BTreeMap MemTableEntry → BTreeMap ℕ
index_from offset [] = []
index_from offset ((key, entry) ∷ es) =
    (key, offset) ∷ index_from (offset + record_size key entry) es

-- The builder after each entry was added, in order (`match entry` of `StorageManager::flush`).
unfoldable pub add_entry : SsTableBuilder → List ℕ → MemTableEntry → SsTableBuilder
unfolding add add_tombstone
add_entry b key (value v) = add b key v
add_entry b key tombstone = add_tombstone b key

unfoldable pub add_entries : SsTableBuilder → List (List ℕ × MemTableEntry) → SsTableBuilder
add_entries b [] = b
add_entries b ((key, entry) ∷ es) = add_entries (add_entry b key entry) es

pub length-entry_bytes :
    (key : List ℕ) (entry : MemTableEntry)
    → length (entry_bytes key (payload entry)) ≡ record_size key entry
unfolding entry_bytes to_le
length-entry_bytes key entry = omega (arith, length-append key (value_bytes (payload entry)))

add_entry_lem :
    (b : SsTableBuilder) (key : List ℕ) (entry : MemTableEntry)
    → add_entry b key entry ≡ write_entry b key (payload entry)
unfolding add_entry
add_entry_lem b key (value v) = refl
add_entry_lem b key tombstone = refl

-- What matters of a builder for the file.
pub record Holds (b : SsTableBuilder) (count : ℕ) (block : List ℕ) (index : BTreeMap ℕ)
    : Type 0 where
  pub bytes : b.writer ≡ header_bytes 0 ++ block
  pub counted : b.entry_count ≡ count
  pub offset : b.current_offset ≡ header_size + length block
  pub indexed : b.index ≡ index
  pub hashed : b.hashed ≡ block

write_entry-Holds :
    {b : SsTableBuilder} {count : ℕ} {block : List ℕ} {index : BTreeMap ℕ} (key : List ℕ)
    (entry : MemTableEntry)
    → Holds b count block index
    → header_size + length block + record_size key entry < 2 ^ 64
    → count + 1 < 2 ^ 64
    → Holds
        (write_entry b key (payload entry))
        (count + 1)
        (block ++ entry_bytes key (payload entry))
        (index ++ ((key, header_size + length block) ∷ []))
unfolding write_entry
write_entry-Holds {b} {count} {block} {index} key entry h fits small = record {
  bytes =
      ap (λ t. t ++ entry_bytes key (payload entry)) h.bytes
      ∙ append_assoc (header_bytes 0) block _;
  counted = ap (λ (n : ℕ). (n + 1) % 2 ^ 64) h.counted ∙ omega arith;
  offset =
      ap (λ (n : ℕ). (n + (8 + length key + length (value_bytes (payload entry)))) % 2 ^ 64)
        h.offset
      ∙ omega (
        arith,
        length-append block (entry_bytes key (payload entry)),
        length-entry_bytes key entry,
      );
  indexed = cc (h.indexed, h.offset);
  hashed = ap (λ t. t ++ entry_bytes key (payload entry)) h.hashed;
}

pub length-data_block :
    (key : List ℕ) (entry : MemTableEntry) (es : BTreeMap MemTableEntry)
    → length (data_block ((key, entry) ∷ es)) ≡ record_size key entry + length (data_block es)
length-data_block key entry es = omega (
  arith,
  length-append (entry_bytes key (payload entry)) (data_block es),
  length-entry_bytes key entry,
)

add_entries-Holds :
    (es : BTreeMap MemTableEntry) {b : SsTableBuilder} {count : ℕ} {block : List ℕ}
    {index : BTreeMap ℕ}
    → Holds b count block index
    → header_size + length block + length (data_block es) < 2 ^ 64
    → count + length es < 2 ^ 64
    → Holds
        (add_entries b es)
        (count + length es)
        (block ++ data_block es)
        (index ++ index_from (header_size + length block) es)
unfolding add_entries
add_entries-Holds [] {b} {count} {block} {index} h fits small = record {
  bytes = h.bytes ∙ ap (λ t. header_bytes 0 ++ t) (sym (append-nil block));
  counted = h.counted ∙ omega arith;
  offset = h.offset ∙ ap (λ t. header_size + length t) (sym (append-nil block));
  indexed = h.indexed ∙ sym (append-nil index);
  hashed = h.hashed ∙ sym (append-nil block);
}
add_entries-Holds ((key, entry) ∷ es) {b} {count} {block} {index} h fits small =
    let first =
      write_entry-Holds key entry h (omega (arith, length-data_block key entry es)) (omega arith) in
    let here = entry_bytes key (payload entry) in
    let rest =
      add_entries-Holds es first
        (omega (
          arith,
          length-data_block key entry es,
          length-append block here,
          length-entry_bytes key entry,
        ))
        (omega arith) in
    rw (add_entry_lem b key entry) (record {
      bytes = rest.bytes ∙ ap (λ t. header_bytes 0 ++ t) (append_assoc block here (data_block es));
      counted = rest.counted ∙ omega arith;
      offset =
          rest.offset ∙ ap (λ t. header_size + length t) (append_assoc block here (data_block es));
      indexed =
          rest.indexed
          ∙ append_assoc index ((key, header_size + length block) ∷ []) _
          ∙ ap (λ (o : ℕ). index ++ ((key, header_size + length block) ∷ index_from o es))
              (omega (arith, length-append block here, length-entry_bytes key entry));
      hashed = rest.hashed ∙ append_assoc block here (data_block es);
    })

-- The file that `finish` leaves for these entries.
abbrev pub file_of : (List ℕ → ℕ) → BTreeMap MemTableEntry → List ℕ
file_of crc32 es =
    header_bytes (length es)
    ++ (data_block es
        ++ (index_block (index_from header_size es)
            ++ footer_bytes (header_size + length (data_block es)) (crc32 (data_block es))))

patch_header :
    (count : ℕ) (rest : List ℕ)
    → take 6 (header_bytes 0 ++ rest) ++ (to_le 8 count ++ drop 14 (header_bytes 0 ++ rest))
      ≡ header_bytes count ++ rest
unfolding to_le
patch_header count rest = refl

finished_file-Holds :
    (crc32 : List ℕ → ℕ) (b : SsTableBuilder) (count : ℕ) (block : List ℕ) (index : BTreeMap ℕ)
    → Holds b count block index
    → finished_file crc32 b
      ≡ header_bytes count
        ++ (block ++ (index_block index ++ footer_bytes (header_size + length block) (crc32 block)))
unfolding finished_file
finished_file-Holds crc32 b count block index h =
    let tail = index_block index ++ footer_bytes (header_size + length block) (crc32 block) in
    let written : b.writer
          ++ (index_block b.index ++ footer_bytes b.current_offset (crc32 b.hashed))
        ≡ header_bytes 0 ++ (block ++ tail) =
      cc (h.bytes, h.indexed, h.offset, h.hashed, append_assoc (header_bytes 0) block tail) in
    ap (λ w. take 6 w ++ (to_le 8 b.entry_count ++ drop 14 w)) written
    ∙ ap
        (λ (n : ℕ).
          take 6 (header_bytes 0 ++ (block ++ tail))
          ++ (to_le 8 n ++ drop 14 (header_bytes 0 ++ (block ++ tail))))
        h.counted
    ∙ patch_header count (block ++ tail)

-- The builder, given the entries in order, leaves the header with their number, the data block,
-- the index block with the offset of each entry, and the footer with the offset of the index block
-- and the checksum of the data block, where the offsets and the number of entries fit 64 bits.
pub finished_file-add_entries :
    (crc32 : List ℕ → ℕ) (es : BTreeMap MemTableEntry)
    → header_size + length (data_block es) < 2 ^ 64
    → length es < 2 ^ 64
    → finished_file crc32 (add_entries fresh es) ≡ file_of crc32 es
finished_file-add_entries crc32 es fits small =
    let start : Holds fresh 0 [] [] = record {
      bytes = sym (append-nil (header_bytes 0));
      counted = refl;
      offset = refl;
      indexed = refl;
      hashed = refl;
    } in
    finished_file-Holds crc32 (add_entries fresh es) (0 + length es) (data_block es)
      (index_from header_size es) (add_entries-Holds es start fits (omega arith))
    ∙ ap
        (λ (n : ℕ).
          header_bytes n
          ++ (data_block es
              ++ (index_block (index_from header_size es)
                  ++ footer_bytes (header_size + length (data_block es)) (crc32 (data_block es)))))
        (omega arith)
