-- ===== src/Tests/Logs.antt =====
-- The log on the entries of `Samples`.
use atlas_kv.Base.{
  List, [], arith, from_le, length, refl, some, take, to_le, true, ℕ, ◌++◌, ◌∷◌, ◌≡◌, ◌≤◌,
}
use mathlib.Core.Option
use atlas_kv.Error.{ok, crc_mismatch, err, wal_corruption}
use atlas_kv.Wal.Entry.{
  Operation, WalEntry, layout, serialize, deserialize, decode_data, crc_buffer,
}
use atlas_kv.Wal.Recovery.{RecoveryResult, recover, verify, start, count_corrupt}
use atlas_kv.Wal.Iteration.{items, returned, ends, items-damaged}
use atlas_kv.Wal.Reader.{open_reader, entries}
use atlas_kv.Wal.Replay.{
  log_bytes, entries_of, count_entries, recover-log_torn, recover-log_corrupt,
}
use atlas_kv.Wal.Totality.{recover_total, verify-eq-recover, stats}
use atlas_kv.Wal.Writer.{calm, append, sync, write_all, flush_buffer, sync_by_strategy}
use atlas_kv.Wal.Appending.{Appended, append_lem}
use atlas_kv.Tests.Samples.{libs, libs-IsLawful, log, log-Written, put_bytes as put_data, writer}

-- 20 bytes of the 23 that an entry takes.
recover-log_torn_example :
    recover libs (log_bytes libs log ++ take 20 (layout libs 3 put_data))
    ≡ some (ok (entries_of log, record (count_entries log start) { was_truncated = true }))
recover-log_torn_example =
    recover-log_torn libs libs-IsLawful log 3 20 put_data log-Written (omega arith) (omega arith)
      (unfold layout to_le in omega arith)

-- A header of zeros says that no data follow, and has a wrong checksum if its LSN is not zero.
abbrev bad_header : List ℕ
bad_header = 9 ∷ 0 ∷ 0 ∷ 0 ∷ 0 ∷ 0 ∷ 0 ∷ 0 ∷ 0 ∷ 0 ∷ 0 ∷ 0 ∷ 0 ∷ 0 ∷ 0 ∷ 0 ∷ []

recover-log_corrupt_example :
    recover libs (log_bytes libs log ++ (bad_header ++ ([] ++ (5 ∷ 6 ∷ []))))
    ≡ some (ok (entries_of log, count_corrupt (count_entries log start)))
recover-log_corrupt_example =
    recover-log_corrupt libs libs-IsLawful log bad_header [] (5 ∷ 6 ∷ []) crc_mismatch log-Written
      refl (unfold from_le in refl)
      (unfold deserialize decode_data crc_buffer from_le to_le in refl)

recover_total_example :
    (entries : List WalEntry) × (r : RecoveryResult) × (recover libs (1 ∷ 2 ∷ 3 ∷ [])
      ≡ some (ok (entries, r)))
    × (r.entries_recovered ≡ length entries)
    × (r.entries_corrupted ≤ 1)
recover_total_example = recover_total libs (1 ∷ 2 ∷ 3 ∷ [])

verify-eq-recover_example :
    verify libs (log_bytes libs log) ≡ Option.map (stats libs) (recover libs (log_bytes libs log))
verify-eq-recover_example = verify-eq-recover libs (log_bytes libs log)

append_lem_example :
    Appended libs
      (calm 5)
      (Operation.delete (1 ∷ []))
      writer
      3
      (append libs (calm 5) (Operation.delete (1 ∷ [])) writer).1
append_lem_example =
    append_lem libs (calm 5) (Operation.delete (1 ∷ [])) writer 3
      (unfold append serialize layout to_le write_all sync_by_strategy sync flush_buffer in refl)

-- A log with a damaged entry in its middle.
items-damaged_example :
    items libs 7
      (entries (open_reader (log_bytes libs log ++ (bad_header ++ ([] ++ log_bytes libs log)))))
    ≡ returned log ++ (some (err (wal_corruption crc_mismatch)) ∷ (returned log ++ ends 2))
items-damaged_example =
    items-damaged libs libs-IsLawful log log bad_header [] (wal_corruption crc_mismatch) 2
      log-Written log-Written refl (unfold from_le in refl)
      (unfold deserialize decode_data crc_buffer from_le to_le in refl)
