-- ===== src/Wal/Outcomes.antt =====
-- All that one call of `next_entry` (src/wal/reader.rs) can do, whatever the bytes.
use atlas_kv.Base.{
  Bool-cases, List, ap, append_assoc, arith, drop, from_le, inl, inr, length, length-append,
  length-drop, length-take, le→ltb, ltb, ltb→le, ltb→lt, lt→ltb, none, refl, slice, some, sym, take,
  take-append-drop, true, ℕ, ◌++◌, ◌+◌, ◌<◌, ◌∙◌, ◌≡◌, ◌≤◌,
}
use mathlib.Core.Path.{subst}
use atlas_kv.Error.{Result-cases, ok, err, AtlasError, wal_corruption, WalFault}
use atlas_kv.Wal.Entry.{WalEntry, Libraries, header_size, deserialize}
use atlas_kv.Wal.Reader.{WalReader, read_body, read_entry, next_entry}
use atlas_kv.Wal.Frames.{reader_at, read_exact-append, next_entry-header, read_entry-append}
use atlas_kv.Wal.Ends.{is_corruption, deserialize-err}

-- At position `p` with these bytes before it, the reader returns no entry, or takes an entry of 16
-- bytes or more, or reports corruption.
pub data Outcome (libs : Libraries) (p : ℕ) (file : List ℕ) : Type 0 where
  ended : (r : WalReader) → next_entry libs (reader_at p file) ≡ (ok none, r) → Outcome libs p file
  took :
      (entry : WalEntry) (front rest : List ℕ)
      → 16 ≤ length front
      → file ≡ front ++ rest
      → next_entry libs (reader_at p file) ≡ (ok (some entry), reader_at (p + length front) rest)
      → Outcome libs p file
  refused :
      (fault : WalFault) (r : WalReader)
      → next_entry libs (reader_at p file) ≡ (err (wal_corruption fault), r)
      → Outcome libs p file

-- An error that is corruption.
corruption_fault :
    (e : AtlasError) → is_corruption e ≡ true → (fault : WalFault) × (e ≡ wal_corruption fault)
corruption_fault (wal_corruption fault) h = (fault, refl)
corruption_fault _ h = cc

module _ (libs : Libraries) (p : ℕ) where
  few_bytes :
      (file : List ℕ)
      → length file < 16
      → next_entry libs (reader_at p file) ≡ (ok none, reader_at p file)
  unfolding next_entry
  few_bytes file h = ground arith

  module _ (header bytes rest : List ℕ) (l : length header ≡ 16)
      (n : from_le (slice 12 16 header) ≡ length bytes) where
    size : ℕ
    size = p + length (header ++ (bytes ++ rest))

    long_enough : size ≡ p + (16 + length bytes + length rest)
    unfolding size
    long_enough = omega (arith, length-append header (bytes ++ rest), length-append bytes rest)

    at_entry :
        next_entry libs (reader_at p (header ++ (bytes ++ rest)))
        ≡ read_entry libs header (record { file = bytes ++ rest; position = p; file_size = size })
    unfolding size
    at_entry = next_entry-header libs header (bytes ++ rest) p size l (omega (arith, long_enough))

    refuses :
        (e : AtlasError)
        → deserialize libs (header ++ bytes) ≡ err e
        → read_entry libs header (record { file = bytes ++ rest; position = p; file_size = size })
          ≡ (err e, record { file = rest; position = p; file_size = size })
    unfolding read_entry read_body
    refuses e d = rw (
      n,
      le→ltb size (p + header_size + length bytes) (omega (arith, long_enough)),
      read_exact-append bytes rest p size (length bytes) refl,
      d,
    )

    pub next_entry-corrupt :
        (fault : WalFault)
        → deserialize libs (header ++ bytes) ≡ err (wal_corruption fault)
        → next_entry libs (reader_at p (header ++ (bytes ++ rest))) ≡ (
          err (wal_corruption fault),
          record { file = rest; position = p; file_size = p + length (header ++ (bytes ++ rest)) },
        )
    unfolding size
    next_entry-corrupt fault d = at_entry ∙ refuses (wal_corruption fault) d

    step : Outcome libs p (header ++ (bytes ++ rest))
    step = elim (Result-cases (deserialize libs (header ++ bytes))) [
      | inl (entry, d) ↦
          took entry (header ++ bytes) rest (omega (arith, length-append header bytes))
            (sym (append_assoc header bytes rest))
            (at_entry
              ∙ read_entry-append libs header bytes rest entry p size n (omega (arith, long_enough))
                  d
              ∙ ground (arith, long_enough, length-append header bytes))
      | inr (e, d) ↦
          let (fault, is) = corruption_fault e (deserialize-err libs (header ++ bytes) e d) in
          refused fault (record { file = rest; position = p; file_size = size })
            (at_entry
              ∙ refuses e d
              ∙ ap (λ x. (err x, record { file = rest; position = p; file_size = size })) is)
    ]

  cut_data :
      (header rest : List ℕ)
      → length header ≡ 16
      → length (header ++ rest) < 16 + from_le (slice 12 16 header)
      → next_entry libs (reader_at p (header ++ rest))
        ≡ (ok none, record { file = rest; position = p; file_size = p + length (header ++ rest) })
  cut_data header rest l short =
      next_entry-header libs header rest p (p + length (header ++ rest)) l
        (omega (arith, length-append header rest))
      ∙ unfold read_entry in
        rw (
          lt→ltb (p + length (header ++ rest)) (p + header_size + from_le (slice 12 16 header))
            (omega arith))

  long_file : (file : List ℕ) → 16 ≤ length file → Outcome libs p file
  long_file file long =
      let header = take 16 file in
      let behind = drop 16 file in
      let n = from_le (slice 12 16 header) in
      let l : length header ≡ 16 = omega (arith, length-take 16 file) in
      let whole : header ++ behind ≡ file = take-append-drop 16 file in
      elim (Bool-cases (ltb (length file) (16 + n))) [
        | inl short ↦
            subst (Outcome libs p) whole
              (ended _ (cut_data header behind l (rw whole (ltb→lt (length file) (16 + n) short))))
        | inr complete ↦
            subst (Outcome libs p) (ap (λ t. header ++ t) (take-append-drop n behind) ∙ whole) (
              step header (take n behind) (drop n behind) l (
                omega (
                  arith,
                  length-take n behind,
                  length-drop 16 file,
                  ltb→le (length file) (16 + n) complete,
                )))
      ]

  pub next_entry-cases : (file : List ℕ) → Outcome libs p file
  next_entry-cases file = elim (Bool-cases (ltb (length file) 16)) [
    | inl few ↦ ended (reader_at p file) (few_bytes file (ltb→lt (length file) 16 few))
    | inr many ↦ long_file file (ltb→le (length file) 16 many)
  ]
