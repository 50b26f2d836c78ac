-- ===== src/Wal/Frames.antt =====
-- What one call of `next_entry` (src/wal/reader.rs) does at a whole entry, at an entry that is cut
-- short, and at an entry that `deserialize` refuses.
use atlas_kv.Base.{
  IsU32, IsU64, List, [], ap, append-nil, arith, drop-append, from_le, from_le-to_le, length,
  length-append, le→ltb, lt→leb, refl, slice, some, sym, take-append, to_le, ℕ, ◌%◌, ◌++◌, ◌+◌, ◌^◌,
  ◌∙◌, ◌≡◌, ◌≤◌,
}
use atlas_kv.Error.{ok}
use atlas_kv.Wal.Entry.{WalEntry, Libraries, IsLawful, header_size, crc_buffer, layout, deserialize}
use atlas_kv.Wal.Reader.{WalReader, read_exact, next_entry, read_body, read_entry}
use atlas_kv.Wal.RoundTrip.{length-layout, deserialize-serialize}

-- A reader at position `p` with these bytes before it.
abbrev pub reader_at : ℕ → List ℕ → WalReader
reader_at p file = record { file = file; position = p; file_size = p + length file }

-- The first 16 bytes of an entry.
abbrev pub header_of : Libraries → ℕ → List ℕ → List ℕ
header_of libs lsn bytes =
    to_le 8 lsn
    ++ (to_le 4 (libs.crc32 (crc_buffer libs lsn (length bytes % 2 ^ 32) bytes))
        ++ to_le 4 (length bytes % 2 ^ 32))

-- The entry was serialised to these bytes, and its numbers fit their widths.
abbrev pub Written : Libraries → WalEntry × List ℕ → Type 0
Written libs (entry, bytes) =
    IsU64 entry.lsn × (libs.bincode_serialize entry ≡ some bytes) × IsU32 (length bytes)

pub read_exact-append :
    (front rest : List ℕ) (p size n : ℕ)
    → n ≡ length front
    → read_exact n (record { file = front ++ rest; position = p; file_size = size })
      ≡ (ok front, record { file = rest; position = p; file_size = size })
unfolding read_exact
read_exact-append front rest p size n l =
    ground (arith, length-append front rest, take-append n front rest, drop-append n front rest)

module _ (libs : Libraries) where
  pub header-append :
      (lsn : ℕ) (bytes rest : List ℕ)
      → layout libs lsn bytes ++ rest ≡ header_of libs lsn bytes ++ (bytes ++ rest)
  unfolding layout to_le
  header-append lsn bytes rest = refl

  pub layout-header :
      (lsn : ℕ) (bytes : List ℕ) → layout libs lsn bytes ≡ header_of libs lsn bytes ++ bytes
  unfolding layout to_le
  layout-header lsn bytes = refl

  pub length-header : (lsn : ℕ) (bytes : List ℕ) → length (header_of libs lsn bytes) ≡ 16
  unfolding to_le
  length-header lsn bytes = refl

  pub header_len :
      (lsn : ℕ) (bytes : List ℕ)
      → IsU32 (length bytes)
      → from_le (slice 12 16 (header_of libs lsn bytes)) ≡ length bytes
  unfolding to_le
  header_len lsn bytes h = from_le-to_le 4 (length bytes % 2 ^ 32) (omega arith) ∙ omega arith

  -- Reading the data behind a header with which they deserialise.
  pub read_body-append :
      (header bytes rest : List ℕ) (entry : WalEntry) (p size : ℕ)
      → deserialize libs (header ++ bytes) ≡ ok entry
      → read_body libs header
          (length bytes)
          (record { file = bytes ++ rest; position = p; file_size = size })
        ≡ (
          ok (some entry),
          record { file = rest; position = p + (header_size + length bytes); file_size = size },
        )
  unfolding read_body
  read_body-append header bytes rest entry p size d =
      rw (read_exact-append bytes rest p size (length bytes) refl, d)

  pub read_entry-append :
      (header bytes rest : List ℕ) (entry : WalEntry) (p size : ℕ)
      → from_le (slice 12 16 header) ≡ length bytes
      → p + header_size + length bytes ≤ size
      → deserialize libs (header ++ bytes) ≡ ok entry
      → read_entry libs header (record { file = bytes ++ rest; position = p; file_size = size }) ≡ (
        ok (some entry),
        record { file = rest; position = p + (header_size + length bytes); file_size = size },
      )
  unfolding read_entry
  read_entry-append header bytes rest entry p size l fits d =
      rw (l, le→ltb size (p + header_size + length bytes) fits)
        (read_body-append header bytes rest entry p size d)

  pub next_entry-header :
      (header rest : List ℕ) (p size : ℕ)
      → length header ≡ header_size
      → p + header_size ≤ size
      → next_entry libs (record { file = header ++ rest; position = p; file_size = size })
        ≡ read_entry libs header (record { file = rest; position = p; file_size = size })
  unfolding next_entry
  next_entry-header header rest p size l fits = rw (
    lt→leb size p (omega arith),
    le→ltb size (p + header_size) fits,
    read_exact-append header rest p size header_size (sym l),
  )

  pub whole_entry :
      (p size : ℕ) (entry : WalEntry) (bytes rest : List ℕ)
      → IsLawful libs
      → Written libs (entry, bytes)
      → p + 16 + length bytes ≤ size
      → next_entry libs
          (record { file = layout libs entry.lsn bytes ++ rest; position = p; file_size = size })
        ≡ (
          ok (some entry),
          record { file = rest; position = p + (16 + length bytes); file_size = size },
        )
  whole_entry p size entry bytes rest lawful (hl, e, hb) fits =
      let h = header_of libs entry.lsn bytes in
      let whole = (deserialize-serialize libs entry bytes [] lawful hl e hb).1 in
      rw
        (
          header-append entry.lsn bytes rest,
          next_entry-header h (bytes ++ rest) p size (length-header entry.lsn bytes) (omega arith),
        )
        (read_entry-append h bytes rest entry p size (header_len entry.lsn bytes hb) fits
          (rw (header-append entry.lsn bytes [], append-nil bytes) at whole))

  -- At a whole entry the reader returns it and steps behind it.
  pub next_entry-frame :
      (p : ℕ) (entry : WalEntry) (bytes rest : List ℕ)
      → IsLawful libs
      → Written libs (entry, bytes)
      → next_entry libs (reader_at p (layout libs entry.lsn bytes ++ rest))
        ≡ (ok (some entry), reader_at (p + (16 + length bytes)) rest)
  next_entry-frame p entry bytes rest lawful written =
      rw (length-layout libs entry.lsn bytes rest) (
        whole_entry p (p + (16 + length bytes + length rest)) entry bytes rest lawful written
          (omega arith)
        ∙ ap
            (λ size. (
              ok (some entry),
              record { file = rest; position = p + (16 + length bytes); file_size = size },
            ))
            (omega arith))
