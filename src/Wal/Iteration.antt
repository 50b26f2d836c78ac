-- ===== src/Wal/Iteration.antt =====
-- The iterator over a log with a damaged entry (`WalIterator` of src/wal/reader.rs).
use atlas_kv.Base.{
  All, List, Option, [], ap, append-nil, append_assoc, arith, from_le, length, length-append,
  le→ltb, map, refl, slice, some, suc, sym, zero, ℕ, ◌++◌, ◌+◌, ◌∙◌, ◌∷◌, ◌≡◌, ◌≤◌,
}
use atlas_kv.Error.{Result, ok, err, io, unexpected_eof, AtlasError}
use atlas_kv.Wal.Entry.{WalEntry, Libraries, IsLawful, header_size, layout, deserialize}
use atlas_kv.Wal.Reader.{
  WalReader, WalIterator, open_reader, read_exact, read_entry, read_body, next_entry, entries, next,
}
use atlas_kv.Wal.Frames.{Written, whole_entry, next_entry-header, read_exact-append}
use atlas_kv.Wal.RoundTrip.{length-layout_self}
use atlas_kv.Wal.Replay.{log_bytes}

-- What the first calls of `next` return.
abbrev pub items : Libraries → ℕ → WalIterator → List (Option (Result WalEntry))
items libs zero it = []
items libs (suc n) it = let (item, it') = next libs it in item ∷ items libs n it'

-- As many errors for the end of the file.
abbrev pub ends : ℕ → List (Option (Result WalEntry))
ends zero = []
ends (suc n) = some (err (io unexpected_eof)) ∷ ends n

abbrev pub returned : List (WalEntry × List ℕ) → List (Option (Result WalEntry))
returned es = map (λ e. some (ok e.0)) es

-- An iterator with these bytes before it, that counts this position.
abbrev pub iterator : List ℕ → ℕ → ℕ → WalIterator
iterator file position size = record {
  reader = record { file = file; position = position; file_size = size };
}

module _ (libs : Libraries) where
  next_item :
      (n : ℕ) (it it' : WalIterator) (item : Option (Result WalEntry))
      → next libs it ≡ (item, it')
      → items libs (suc n) it ≡ item ∷ items libs n it'
  next_item n it it' item h = ap (λ r. r.0 ∷ items libs n r.1) h

  next_of :
      (it : WalIterator) (r : WalReader) (entry : WalEntry)
      → next_entry libs it.reader ≡ (ok (some entry), r)
      → next libs it ≡ (some (ok entry), record { reader = r })
  unfolding next
  next_of it r entry h = rw h refl

  next_err :
      (it : WalIterator) (r : WalReader) (x : AtlasError)
      → next_entry libs it.reader ≡ (err x, r)
      → next libs it ≡ (some (err x), record { reader = r })
  unfolding next
  next_err it r x h = rw h refl

  -- Behind the last byte, with a position that lags behind: an error at every call.
  items-ends : (n p size : ℕ) → p + 16 ≤ size → items libs n (iterator [] p size) ≡ ends n
  items-ends zero p size lag = refl
  items-ends (suc n) p size lag =
      next_item n (iterator [] p size) (iterator [] p size) (some (err (io unexpected_eof)))
        (next_err (iterator [] p size) _ (io unexpected_eof) at_end)
      ∙ ap (λ l. some (err (io unexpected_eof)) ∷ l) (items-ends n p size lag)
    where
      at_end :
          next_entry libs (iterator [] p size).reader
          ≡ (err (io unexpected_eof), (iterator [] p size).reader)
      at_end = unfold next_entry read_exact in ground arith

  items-log :
      IsLawful libs
      → (es : List (WalEntry × List ℕ)) (n p size : ℕ) (rest : List ℕ) → All (Written libs) es
      → p + length (log_bytes libs es) ≤ size
      → items libs (length es + n) (iterator (log_bytes libs es ++ rest) p size)
        ≡ returned es ++ items libs n (iterator rest (p + length (log_bytes libs es)) size)
  items-log lawful [] n p size rest w room =
      let zero_add : 0 + n ≡ n = omega arith in
      let add_zero : p ≡ p + 0 = omega arith in
      ap (λ k. items libs k (iterator rest p size)) zero_add
      ∙ ap (λ k. items libs n (iterator rest k size)) add_zero
  items-log lawful ((entry, bytes) ∷ es) n p size rest (w, ws) room =
      let frame = layout libs entry.lsn bytes in
      let len = length-append frame (log_bytes libs es) in
      let frame_len = length-layout_self libs entry.lsn bytes in
      let suc_add : length ((entry, bytes) ∷ es) + n ≡ suc (length es + n) = omega arith in
      let behind = log_bytes libs es ++ rest in
      ap (λ k. items libs k (iterator ((frame ++ log_bytes libs es) ++ rest) p size)) suc_add
      ∙ ap (λ file. items libs (suc (length es + n)) (iterator file p size))
          (append_assoc frame (log_bytes libs es) rest)
      ∙ next_item (length es + n) (iterator (frame ++ behind) p size) _ (some (ok entry)) (
          next_of (iterator (frame ++ behind) p size) _ entry
            (whole_entry libs p size entry bytes behind lawful w (omega (arith, len, frame_len))))
      ∙ ap (λ l. some (ok entry) ∷ l)
          (items-log lawful es n (p + (16 + length bytes)) size rest ws
              (omega (arith, len, frame_len))
            ∙ ap (λ k. returned es ++ items libs n (iterator rest k size))
                (omega (arith, len, frame_len)))

  refused_entry :
      (p size : ℕ) (header bytes rest : List ℕ) (x : AtlasError)
      → length header ≡ 16
      → from_le (slice 12 16 header) ≡ length bytes
      → deserialize libs (header ++ bytes) ≡ err x
      → p + 16 + length bytes ≤ size
      → next_entry libs (iterator (header ++ (bytes ++ rest)) p size).reader
        ≡ (err x, (iterator rest p size).reader)
  unfolding read_entry read_body
  refused_entry p size header bytes rest x l n d room =
      next_entry-header libs header (bytes ++ rest) p size l (omega arith)
      ∙ rw
          (
            n,
            le→ltb size (p + header_size + length bytes) room,
            read_exact-append bytes rest p size (length bytes) refl,
            d,
          )
          refl

  -- With libraries that keep their promises, a log of entries that were serialised within their
  -- widths, with a complete entry among them that is refused with an error: the iterator returns
  -- the entries before it, the error, the entries behind it, and then, as often as it is asked, an
  -- error for the end of the file; it never ends.
  pub items-damaged :
      IsLawful libs
      → (es ds : List (WalEntry × List ℕ)) (header bytes : List ℕ) (x : AtlasError) (n : ℕ)
      → All (Written libs) es
      → All (Written libs) ds
      → length header ≡ 16
      → from_le (slice 12 16 header) ≡ length bytes
      → deserialize libs (header ++ bytes) ≡ err x
      → items libs
          (length es + suc (length ds + n))
          (entries (open_reader (log_bytes libs es ++ (header ++ (bytes ++ log_bytes libs ds)))))
        ≡ returned es ++ (some (err x) ∷ (returned ds ++ ends n))
  items-damaged lawful es ds header bytes x n ws vs l len d =
      let tail = header ++ (bytes ++ log_bytes libs ds) in
      let size = length (log_bytes libs es ++ tail) in
      let p = 0 + length (log_bytes libs es) in
      let whole = length-append (log_bytes libs es) tail in
      let tail_len = length-append header (bytes ++ log_bytes libs ds) in
      let data_len = length-append bytes (log_bytes libs ds) in
      let last =
        ap (λ file. items libs (length ds + n) (iterator file p size))
          (sym (append-nil (log_bytes libs ds)))
        ∙ items-log lawful ds n p size [] vs (omega (arith, whole, tail_len, data_len))
        ∙ ap (λ l. returned ds ++ l)
            (items-ends n (p + length (log_bytes libs ds)) size
              (omega (arith, whole, tail_len, data_len))) in
      items-log lawful es (suc (length ds + n)) 0 size tail ws (omega (arith, whole))
      ∙ ap (λ l. returned es ++ l)
          (next_item (length ds + n) (iterator tail p size) (iterator (log_bytes libs ds) p size)
              (some (err x))
              (next_err (iterator tail p size) _ x (
                refused_entry p size header bytes (log_bytes libs ds) x l len d
                  (omega (arith, whole, tail_len, data_len))))
            ∙ ap (λ l. some (err x) ∷ l) last)
