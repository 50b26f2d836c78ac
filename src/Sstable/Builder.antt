-- ===== src/Sstable/Builder.antt =====
-- src/storage/sstable/builder.rs. The `BufWriter` is the list of the bytes written so far, and the
-- running hasher the list of the bytes fed to it. The outcomes of creating the file and of
-- flushing it at the end are arguments; the buffered writes between them succeed.
use atlas_kv.Base.{
  List, Option, [], drop, length, none, some, take, to_le, ℕ, ◌%◌, ◌++◌, ◌+◌, ◌^◌, ◌∷◌,
}
use mathlib.Core.Option
use atlas_kv.Error.{Result, ok, err, IoKind, io}
use atlas_kv.Sstable.Format.{
  magic, version, header_size, Metadata, entry_bytes, index_entry, value_bytes,
}

pub record SsTableBuilder : Type 0 where
  pub writer : List ℕ
  pub entry_count : ℕ
  pub current_offset : ℕ
  pub index : List (List ℕ × ℕ)
  pub min_key : Option (List ℕ)
  pub max_key : Option (List ℕ)
  pub hashed : List ℕ

-- The outcome of a system call.
abbrev pub outcome {ℓ} : {A : Type ℓ} → Option IoKind → A → Result A
outcome none a = ok a
outcome (some e) a = err (io e)

abbrev pub header_bytes : ℕ → List ℕ
header_bytes count = magic ++ (to_le 2 version ++ to_le 8 count)

abbrev pub fresh : SsTableBuilder
fresh = record {
  writer = header_bytes 0;
  entry_count = 0;
  current_offset = header_size;
  index = [];
  min_key = none;
  max_key = none;
  hashed = [];
}

unfoldable pub new : Option IoKind → Result SsTableBuilder
new fault = outcome fault fresh

abbrev or_else : Option (List ℕ) → List ℕ → Option (List ℕ)
or_else none key = some key
or_else (some k) key = some k

unfoldable pub write_entry : SsTableBuilder → List ℕ → Option (List ℕ) → SsTableBuilder
write_entry b key value = record {
  writer = b.writer ++ entry_bytes key value;
  entry_count = (b.entry_count + 1) % 2 ^ 64;
  current_offset = (b.current_offset + (8 + length key + length (value_bytes value))) % 2 ^ 64;
  index = b.index ++ ((key, b.current_offset) ∷ []);
  min_key = or_else b.min_key key;
  max_key = some key;
  hashed = b.hashed ++ entry_bytes key value;
}

unfoldable pub add : SsTableBuilder → List ℕ → List ℕ → SsTableBuilder
unfolding write_entry
add b key value = write_entry b key (some value)

unfoldable pub add_tombstone : SsTableBuilder → List ℕ → SsTableBuilder
unfolding write_entry
add_tombstone b key = write_entry b key none

unfoldable pub index_block : List (List ℕ × ℕ) → List ℕ
index_block [] = []
index_block ((key, offset) ∷ index) = index_entry key offset ++ index_block index

abbrev pub footer_bytes : ℕ → ℕ → List ℕ
footer_bytes index_offset crc = to_le 8 index_offset ++ (to_le 4 crc ++ (0 ∷ 0 ∷ 0 ∷ 0 ∷ []))

-- The bytes of the file, once the entry count is written over the placeholder in the header.
unfoldable pub finished_file : (List ℕ → ℕ) → SsTableBuilder → List ℕ
finished_file crc32 b =
    let written =
      b.writer ++ (index_block b.index ++ footer_bytes b.current_offset (crc32 b.hashed)) in
    take 6 written ++ (to_le 8 b.entry_count ++ drop 14 written)

-- The file's bytes stand beside the metadata that the source returns.
unfoldable pub finish : Option IoKind → (List ℕ → ℕ) → SsTableBuilder → Result (List ℕ × Metadata)
unfolding finished_file
finish fault crc32 b =
    let file = finished_file crc32 b in
    outcome fault (
      file,
      record {
        entry_count = b.entry_count;
        min_key = Option.get_or b.min_key [];
        max_key = Option.get_or b.max_key [];
        file_size = length file;
      },
    )
