-- ===== src/Wal/Ends.antt =====
-- The calls of `next_entry` (src/wal/reader.rs) that return no entry, and all its outcomes on any
-- bytes.
use atlas_kv.Base.{
  Bool, Bool-cases, IsU32, List, ap, arith, false, from_le, inl, inr, length, length-take, ltb,
  ltb→le, ltb→lt, lt→leb, lt→ltb, none, slice, take, take-append_ge, true, ℕ, ◌++◌, ◌+◌, ◌-◌, ◌<◌,
  ◌∙◌, ◌≡◌, ◌≤◌,
}
use atlas_kv.Error.{ok, err, AtlasError, wal_corruption}
use atlas_kv.Wal.Entry.{Libraries, header_size, layout, deserialize, decode_data}
use atlas_kv.Wal.Reader.{WalReader, read_entry, next_entry, is_at_eof}
use atlas_kv.Wal.RoundTrip.{length-layout_self}
use atlas_kv.Wal.Frames.{
  reader_at, header_of, length-header, header_len, next_entry-header, layout-header,
}

-- The errors that `recover` takes for a damaged log.
abbrev pub is_corruption : AtlasError → Bool
is_corruption (wal_corruption fault) = true
is_corruption e = false

module _ (libs : Libraries) where
  torn_header :
      (p n lsn : ℕ) (bytes : List ℕ)
      → 0 < n
      → n < 16
      → next_entry libs (reader_at p (take n (layout libs lsn bytes)))
        ≡ (ok none, reader_at p (take n (layout libs lsn bytes)))
  unfolding next_entry
  torn_header p n lsn bytes pos short =
      ground (arith, length-take n (layout libs lsn bytes), length-layout_self libs lsn bytes)

  torn_data :
      (p size n lsn : ℕ) (bytes rest : List ℕ)
      → IsU32 (length bytes)
      → p + 16 ≤ size
      → size < p + 16 + length bytes
      → next_entry libs
          (record { file = header_of libs lsn bytes ++ rest; position = p; file_size = size })
        ≡ (ok none, record { file = rest; position = p; file_size = size })
  torn_data p size n lsn bytes rest hb low high =
      next_entry-header libs (header_of libs lsn bytes) rest p size (length-header libs lsn bytes)
        low
      ∙ unfold read_entry in
        rw (header_len libs lsn bytes hb, lt→ltb size (p + header_size + length bytes) high)

  -- At an entry that is cut short, behind its first byte, the reader returns no entry, and is not
  -- at the end of the file.
  pub next_entry-torn :
      (p n lsn : ℕ) (bytes : List ℕ)
      → IsU32 (length bytes)
      → 0 < n
      → n < 16 + length bytes
      → (r : WalReader) × (next_entry libs (reader_at p (take n (layout libs lsn bytes)))
          ≡ (ok none, r))
        × (is_at_eof r ≡ false)
  next_entry-torn p n lsn bytes hb pos short =
      let cut = take n (layout libs lsn bytes) in
      let size : length cut ≡ n =
        omega (arith, length-take n (layout libs lsn bytes), length-layout_self libs lsn bytes) in
      elim (Bool-cases (ltb n 16)) [
        | inl few ↦ (
          reader_at p cut,
          torn_header p n lsn bytes pos (ltb→lt n 16 few),
          unfold is_at_eof in lt→leb (p + length cut) p (omega arith),
        )
        | inr many ↦ (
          record {
            file = take (n - length (header_of libs lsn bytes)) bytes;
            position = p;
            file_size = p + length cut;
          },
          ap
                (λ file.
                  next_entry libs
                    (record { file = file; position = p; file_size = p + length cut }))
                (cut_many (ltb→le n 16 many))
              ∙ torn_data p (p + length cut) n lsn bytes
                  (take (n - length (header_of libs lsn bytes)) bytes) hb
                  (omega (arith, ltb→le n 16 many)) (omega arith),
          unfold is_at_eof in lt→leb (p + length cut) p (omega arith),
        )
      ]
    where
      cut_many :
          16 ≤ n
          → take n (layout libs lsn bytes)
            ≡ header_of libs lsn bytes ++ take (n - length (header_of libs lsn bytes)) bytes
      cut_many ge =
          ap (take n) (layout-header libs lsn bytes)
          ∙ take-append_ge n (header_of libs lsn bytes) bytes
              (omega (arith, length-header libs lsn bytes))

  decode_data-err :
      (lsn crc n : ℕ) (bytes : List ℕ) (e : AtlasError)
      → decode_data libs lsn crc n bytes ≡ err e
      → is_corruption e ≡ true
  unfolding decode_data
  decode_data-err lsn crc n bytes e h = ground arith

  -- `deserialize` fails only by reporting corruption.
  pub deserialize-err :
      (bytes : List ℕ) (e : AtlasError) → deserialize libs bytes ≡ err e → is_corruption e ≡ true
  unfolding deserialize
  deserialize-err bytes e h = ground (
    arith,
    decode_data-err (from_le (slice 0 8 bytes)) (from_le (slice 8 12 bytes))
        (from_le (slice 12 16 bytes))
        (slice header_size (header_size + from_le (slice 12 16 bytes)) bytes) e,
  )
