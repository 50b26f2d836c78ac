-- ===== src/Wal/RoundTrip.antt =====
-- An entry of the log written and read back (src/wal/entry.rs).
use atlas_kv.Base.{
  IsU32, IsU64, List, arith, from_le, from_le-to_le, length, length-append, refl, slice, some,
  take-append, to_le, ℕ, ◌%◌, ◌++◌, ◌+◌, ◌-◌, ◌^◌, ◌∙◌, ◌≡◌,
}
use native.Mathlib.Nat.{mod-eq_of_lt}
use atlas_kv.Error.{ok}
use atlas_kv.Wal.Entry.{
  WalEntry, Libraries, IsLawful, header_size, crc_buffer, layout, serialize, decode_data,
  deserialize,
}

module _ (libs : Libraries) where
  layout_lsn :
      (lsn : ℕ) (bytes rest : List ℕ)
      → IsU64 lsn
      → from_le (slice 0 8 (layout libs lsn bytes ++ rest)) ≡ lsn
  unfolding layout to_le
  layout_lsn lsn bytes rest h = from_le-to_le 8 lsn h

  layout_crc :
      (lsn : ℕ) (bytes rest : List ℕ)
      → IsU32 (libs.crc32 (crc_buffer libs lsn (length bytes) bytes))
      → IsU32 (length bytes)
      → from_le (slice 8 12 (layout libs lsn bytes ++ rest))
        ≡ libs.crc32 (crc_buffer libs lsn (length bytes) bytes)
  unfolding layout to_le
  layout_crc lsn bytes rest c h = rw (mod-eq_of_lt h) (from_le-to_le 4 _ c)

  pub layout_len :
      (lsn : ℕ) (bytes rest : List ℕ)
      → IsU32 (length bytes)
      → from_le (slice 12 16 (layout libs lsn bytes ++ rest)) ≡ length bytes
  unfolding layout to_le
  layout_len lsn bytes rest h = from_le-to_le 4 (length bytes % 2 ^ 32) (omega arith) ∙ omega arith

  layout_data :
      (lsn : ℕ) (bytes rest : List ℕ)
      → slice header_size (header_size + length bytes) (layout libs lsn bytes ++ rest) ≡ bytes
  unfolding layout to_le
  layout_data lsn bytes rest = take-append (16 + length bytes - 16) bytes rest (omega arith)

  pub length-layout :
      (lsn : ℕ) (bytes rest : List ℕ)
      → length (layout libs lsn bytes ++ rest) ≡ 16 + length bytes + length rest
  unfolding layout to_le
  length-layout lsn bytes rest = omega (arith, length-append bytes rest)

  pub length-layout_self :
      (lsn : ℕ) (bytes : List ℕ) → length (layout libs lsn bytes) ≡ 16 + length bytes
  unfolding layout to_le
  length-layout_self lsn bytes = omega arith

  -- A laid-out entry goes to the last steps with the fields that it was laid out from.
  pub deserialize-layout :
      (lsn : ℕ) (bytes rest : List ℕ)
      → IsLawful libs
      → IsU64 lsn
      → IsU32 (length bytes)
      → deserialize libs (layout libs lsn bytes ++ rest)
        ≡ decode_data libs lsn
            (libs.crc32 (crc_buffer libs lsn (length bytes) bytes))
            (length bytes)
            bytes
  unfolding deserialize
  deserialize-layout lsn bytes rest lawful hl hb =
      rw
        (
          layout_len lsn bytes rest hb,
          layout_lsn lsn bytes rest hl,
          layout_crc lsn bytes rest (lawful.crc32-IsU32 _) hb,
          layout_data lsn bytes rest,
          length-layout lsn bytes rest,
        )
        (ground arith)

  -- With libraries that keep their promises, an entry whose data are shorter than 2 ^ 32 bytes and
  -- whose LSN fits 64 bits, serialised and followed by any bytes, is deserialised to itself.
  pub deserialize-serialize :
      (entry : WalEntry) (bytes rest : List ℕ)
      → IsLawful libs
      → IsU64 entry.lsn
      → libs.bincode_serialize entry ≡ some bytes
      → IsU32 (length bytes)
      → (serialize libs entry ≡ ok (layout libs entry.lsn bytes))
        × (deserialize libs (layout libs entry.lsn bytes ++ rest) ≡ ok entry)
  unfolding serialize
  deserialize-serialize entry bytes rest lawful hl e hb = (
    rw e refl,
    rw (deserialize-layout entry.lsn bytes rest lawful hl hb)
        (unfold decode_data in ground (arith, lawful.deserialize-serialize entry bytes e)),
  )
