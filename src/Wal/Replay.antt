-- ===== src/Wal/Replay.antt =====
-- Recovery over whole logs (src/wal/recovery.rs).
use atlas_kv.Base.{
  All, IsU32, List, [], ap, append-nil, append_assoc, arith, from_le, length, map, none, slice,
  some, suc, take, true, zero, ℕ, ◌++◌, ◌+◌, ◌<◌, ◌∙◌, ◌∷◌, ◌≡◌, ◌≤◌,
}
use atlas_kv.Wal.Ends.{next_entry-torn}
use atlas_kv.Wal.Outcomes.{next_entry-corrupt}
use atlas_kv.Error.{ok, WalFault, err, wal_corruption}
use atlas_kv.Wal.Entry.{WalEntry, Libraries, IsLawful, layout, deserialize}
use atlas_kv.Wal.Reader.{open_reader, next_entry, is_at_eof, WalReader}
use atlas_kv.Wal.Recovery.{
  RecoveryResult, start, count_entry, recover_loop, recover, count_end, count_corrupt,
}
use atlas_kv.Wal.Frames.{reader_at, Written, next_entry-frame}
use atlas_kv.Wal.RoundTrip.{length-layout, length-layout_self}

-- The bytes of a log, from its entries and their serialised data.
abbrev pub log_bytes : Libraries → List (WalEntry × List ℕ) → List ℕ
log_bytes libs [] = []
log_bytes libs ((entry, bytes) ∷ es) = layout libs entry.lsn bytes ++ log_bytes libs es

abbrev pub entries_of : List (WalEntry × List ℕ) → List WalEntry
entries_of es = map (λ e. e.0) es

-- The counters after the entries.
abbrev pub count_entries : List (WalEntry × List ℕ) → RecoveryResult → RecoveryResult
count_entries [] r = r
count_entries (e ∷ es) r = count_entries es (count_entry e.0 r)

module _ (libs : Libraries) where
  open_at : (file : List ℕ) → open_reader file ≡ reader_at 0 file
  open_at file = ap (λ n. record { file = file; position = 0; file_size = n }) (omega arith)

  pub recover_at :
      (file : List ℕ)
      → recover libs file ≡ recover_loop libs (suc (length file)) (reader_at 0 file) [] start
  unfolding recover
  recover_at file = ap (λ r. recover_loop libs (suc (length file)) r [] start) (open_at file)

  -- One round, by what `next_entry` returns.
  pub round_entry :
      (rounds : ℕ) (reader reader' : WalReader) (acc : List WalEntry) (r : RecoveryResult)
      (entry : WalEntry)
      → next_entry libs reader ≡ (ok (some entry), reader')
      → recover_loop libs (suc rounds) reader acc r
        ≡ recover_loop libs rounds reader' (acc ++ (entry ∷ [])) (count_entry entry r)
  unfolding recover_loop
  round_entry rounds reader reader' acc r entry h = ground arith

  pub round_end :
      (rounds : ℕ) (reader reader' : WalReader) (acc : List WalEntry) (r : RecoveryResult)
      → next_entry libs reader ≡ (ok none, reader')
      → recover_loop libs (suc rounds) reader acc r ≡ some (ok (acc, count_end reader' r))
  unfolding recover_loop
  round_end rounds reader reader' acc r h = ground arith

  pub round_corrupt :
      (rounds : ℕ) (reader reader' : WalReader) (acc : List WalEntry) (r : RecoveryResult)
      (fault : WalFault)
      → next_entry libs reader ≡ (err (wal_corruption fault), reader')
      → recover_loop libs (suc rounds) reader acc r ≡ some (ok (acc, count_corrupt r))
  unfolding recover_loop
  round_corrupt rounds reader reader' acc r fault h = ground arith

  length-log_bytes :
      (es : List (WalEntry × List ℕ)) (tail : List ℕ)
      → length es ≤ length (log_bytes libs es ++ tail)
  length-log_bytes [] tail = omega arith
  length-log_bytes ((entry, bytes) ∷ es) tail =
      rw (append_assoc (layout libs entry.lsn bytes) (log_bytes libs es) tail) (
        omega (
          arith,
          length-layout libs entry.lsn bytes (log_bytes libs es ++ tail),
          length-log_bytes es tail,
        ))

-- What the loop does with the bytes behind the last whole entry.
abbrev Finishes : Libraries → List ℕ → (RecoveryResult → RecoveryResult) → Type 0
Finishes libs tail finish =
    (p rounds : ℕ) (acc : List WalEntry) (r : RecoveryResult)
    → recover_loop libs (suc rounds) (reader_at p tail) acc r ≡ some (ok (acc, finish r))

module _ (libs : Libraries) (lawful : IsLawful libs) where
  module _ (tail : List ℕ) (finish : RecoveryResult → RecoveryResult)
      (done : Finishes libs tail finish) where
    recover_loop-log :
        (es : List (WalEntry × List ℕ)) (rounds p : ℕ) (acc : List WalEntry) (r : RecoveryResult)
        → All (Written libs) es
        → length es < rounds
        → recover_loop libs rounds (reader_at p (log_bytes libs es ++ tail)) acc r
          ≡ some (ok (acc ++ entries_of es, finish (count_entries es r)))
    recover_loop-log [] zero p acc r w lt = absurd (omega arith)
    recover_loop-log [] (suc rounds) p acc r w lt = rw (append-nil acc) (done p rounds acc r)
    recover_loop-log (e ∷ es) zero p acc r w lt = absurd (omega arith)
    recover_loop-log ((entry, bytes) ∷ es) (suc rounds) p acc r (w, ws) lt =
        let rest = log_bytes libs es ++ tail in
        rw (append_assoc (layout libs entry.lsn bytes) (log_bytes libs es) tail) (
          round_entry libs rounds (reader_at p (layout libs entry.lsn bytes ++ rest))
            (reader_at (p + (16 + length bytes)) rest) acc r entry
            (next_entry-frame libs p entry bytes rest lawful w)
          ∙ recover_loop-log es rounds (p + (16 + length bytes)) (acc ++ (entry ∷ []))
              (count_entry entry r) ws (omega arith)
          ∙ ap (λ l. some (ok (l, finish (count_entries es (count_entry entry r)))))
              (append_assoc acc (entry ∷ []) (entries_of es)))

    recover-log-tail :
        (es : List (WalEntry × List ℕ))
        → All (Written libs) es
        → recover libs (log_bytes libs es ++ tail)
          ≡ some (ok (entries_of es, finish (count_entries es start)))
    recover-log-tail es w =
        recover_at libs (log_bytes libs es ++ tail)
        ∙ recover_loop-log es (suc (length (log_bytes libs es ++ tail))) 0 [] start w
            (omega (arith, length-log_bytes libs es tail))

  at_end : Finishes libs [] (λ r. r)
  unfolding recover_loop next_entry is_at_eof
  at_end p rounds acc r = ground arith

  -- With libraries that keep their promises, a log of entries that were serialised within their
  -- widths is recovered whole and in order, with nothing corrupt and nothing cut.
  pub recover-log :
      (es : List (WalEntry × List ℕ))
      → All (Written libs) es
      → recover libs (log_bytes libs es) ≡ some (ok (entries_of es, count_entries es start))
  recover-log es w = rw append-nil at (recover-log-tail [] (λ r. r) at_end es w)

  -- With libraries that keep their promises, a log of entries that were serialised within their
  -- widths, whose last entry was cut short anywhere behind its first byte, is recovered up to the
  -- entry before it, with nothing corrupt, and is reported as cut.
  pub recover-log_torn :
      (es : List (WalEntry × List ℕ)) (lsn n : ℕ) (bytes : List ℕ)
      → All (Written libs) es
      → IsU32 (length bytes)
      → 0 < n
      → n < length (layout libs lsn bytes)
      → recover libs (log_bytes libs es ++ take n (layout libs lsn bytes))
        ≡ some (ok (entries_of es, record (count_entries es start) { was_truncated = true }))
  recover-log_torn es lsn n bytes w hb pos short =
      recover-log-tail (take n (layout libs lsn bytes)) (λ r. record r { was_truncated = true })
        torn es w
    where
      torn : Finishes libs (take n (layout libs lsn bytes)) (λ r. record r { was_truncated = true })
      torn p rounds acc r =
          let (reader, e, open') =
            next_entry-torn libs p n lsn bytes hb pos
              (omega (arith, length-layout_self libs lsn bytes)) in
          round_end libs rounds _ reader acc r e ∙ rw open'

  -- With libraries that keep their promises, a log of entries that were serialised within their
  -- widths, and behind them a complete entry that is refused for corruption, is recovered up to
  -- the entry before it; one corrupt entry is counted, and what stands behind it is not looked at.
  pub recover-log_corrupt :
      (es : List (WalEntry × List ℕ)) (header bytes rest : List ℕ) (fault : WalFault)
      → All (Written libs) es
      → length header ≡ 16
      → from_le (slice 12 16 header) ≡ length bytes
      → deserialize libs (header ++ bytes) ≡ err (wal_corruption fault)
      → recover libs (log_bytes libs es ++ (header ++ (bytes ++ rest)))
        ≡ some (ok (entries_of es, count_corrupt (count_entries es start)))
  recover-log_corrupt es header bytes rest fault w l n d =
      recover-log-tail (header ++ (bytes ++ rest)) count_corrupt
        (λ p rounds acc r.
          round_corrupt libs rounds _ _ acc r fault
            (next_entry-corrupt libs p header bytes rest l n fault d))
        es w
