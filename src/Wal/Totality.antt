-- ===== src/Wal/Totality.antt =====
-- Recovery over any bytes (src/wal/recovery.rs): it ends, it never fails, and `verify` counts what
-- `recover` counts.
use atlas_kv.Base.{
  List, [], ap, arith, inl, inr, length, length-append, none, refl, some, suc, zero, ℕ, ◌++◌, ◌+◌,
  ◌<◌, ◌∙◌, ◌∷◌, ◌≡◌, ◌≤◌,
}
use mathlib.Core.Option
use atlas_kv.Error.{Result-cases, Result, ok, err, AtlasError}
use atlas_kv.Wal.Entry.{WalEntry, Libraries}
use atlas_kv.Wal.Reader.{WalReader, next_entry}
use atlas_kv.Wal.Recovery.{
  RecoveryResult, start, count_entry, count_end, count_corrupt, recover_loop, recover, verify_loop,
  verify, on_error,
}
use atlas_kv.Wal.Frames.{reader_at}
use atlas_kv.Wal.Outcomes.{ended, took, refused, next_entry-cases}
use atlas_kv.Wal.Replay.{recover_at, round_entry, round_end, round_corrupt}

-- The loop returned these entries and counters: as many more entries as were counted, and one more
-- corrupt entry at most.
abbrev Returned : List WalEntry → RecoveryResult → List WalEntry → RecoveryResult → Type 0
Returned acc r entries r' =
    (r'.entries_recovered + length acc ≡ r.entries_recovered + length entries)
    × (r'.entries_corrupted ≤ r.entries_corrupted + 1)

module _ (libs : Libraries) where
  recover_loop_total :
      (rounds p : ℕ) (file : List ℕ) (acc : List WalEntry) (r : RecoveryResult)
      → length file < rounds
      → (entries : List WalEntry) × (r' : RecoveryResult) × (recover_loop libs rounds
            (reader_at p file)
            acc
            r
          ≡ some (ok (entries, r')))
        × Returned acc r entries r'
  recover_loop_total zero p file acc r lt = absurd (omega arith)
  recover_loop_total (suc rounds) p file acc r lt = elim (next_entry-cases libs p file) [
    | ended reader e ↦ (
      acc,
      count_end reader r,
      round_end libs rounds (reader_at p file) reader acc r e,
      ground arith,
    )
    | refused fault reader e ↦ (
      acc,
      count_corrupt r,
      round_corrupt libs rounds (reader_at p file) reader acc r fault e,
      omega arith,
    )
    | took entry front rest long split e ↦
        let (entries, r', eq, counts) =
          recover_loop_total rounds (p + length front) rest (acc ++ (entry ∷ []))
            (count_entry entry r) (omega (arith, ap length split, length-append front rest)) in
        (
          entries,
          r',
          round_entry libs rounds (reader_at p file) (reader_at (p + length front) rest) acc r entry
                e
              ∙ eq,
          omega (arith, length-append acc (entry ∷ [])),
        )
  ]

  -- Whatever the bytes of the file, recover ends and returns entries, and never an error; it
  -- counts the entries that it returns, and one corrupt entry at most.
  pub recover_total :
      (file : List ℕ)
      → (entries : List WalEntry) × (r : RecoveryResult) × (recover libs file
          ≡ some (ok (entries, r)))
        × (r.entries_recovered ≡ length entries)
        × (r.entries_corrupted ≤ 1)
  recover_total file =
      let (entries, r, e, counts) =
        recover_loop_total (suc (length file)) 0 file [] start (omega arith) in
      (entries, r, recover_at libs file ∙ e, omega arith, omega arith)

  -- The counters of a result of `recover`.
  abbrev pub stats : Result (List WalEntry × RecoveryResult) → Result RecoveryResult
  stats (ok (entries, r)) = ok r
  stats (err e) = err e

  stats-on_error :
      (e : AtlasError) (acc : List WalEntry) (r : RecoveryResult)
      → on_error r e ≡ stats (on_error (acc, r) e)
  stats-on_error e acc r = ground arith

  verify_loop-eq-recover_loop :
      (rounds : ℕ) (reader : WalReader) (acc : List WalEntry) (r : RecoveryResult)
      → verify_loop libs rounds reader r ≡ Option.map stats (recover_loop libs rounds reader acc r)
  unfolding verify_loop recover_loop
  verify_loop-eq-recover_loop zero reader acc r = refl
  verify_loop-eq-recover_loop (suc rounds) reader acc r =
      elim (Result-cases (next_entry libs reader).0) [
        | inl (none, e) ↦ rw (e, verify_loop, recover_loop)
        | inl (some entry, e) ↦
            rw (e, verify_loop, recover_loop)
              (verify_loop-eq-recover_loop rounds (next_entry libs reader).1 (acc ++ (entry ∷ []))
                (count_entry entry r))
        | inr (x, e) ↦
            rw (e, verify_loop, recover_loop) (ap some (stats-on_error x acc (count_corrupt r)))
      ]

  -- verify returns, on any file, the counters that recover returns.
  pub verify-eq-recover : (file : List ℕ) → verify libs file ≡ Option.map stats (recover libs file)
  unfolding verify recover
  verify-eq-recover file = verify_loop-eq-recover_loop (suc (length file)) _ [] start
