-- ===== src/Wal/Recovery.antt =====
-- src/wal/recovery.rs: replaying the log. Every round of the loop that goes on takes an entry of 16
-- bytes or more, so as many rounds as the file has bytes, and one more, are enough; `none` is the
-- value of a loop that ran out of rounds, which is shown not to occur.
use atlas_kv.Base.{
  Bool, List, Option, [], false, if◌then◌else◌, length, none, some, suc, true, zero, ℕ, ◌++◌, ◌+◌,
  ◌∷◌,
}
use atlas_kv.Error.{Result, ok, err, AtlasError, wal_corruption}
use atlas_kv.Wal.Entry.{WalEntry, Libraries}
use atlas_kv.Wal.Reader.{WalReader, open_reader, next_entry, is_at_eof}

pub record RecoveryResult : Type 0 where
  pub entries_recovered : ℕ
  pub entries_corrupted : ℕ
  pub last_lsn : ℕ
  pub was_truncated : Bool

abbrev pub start : RecoveryResult
start = record { entries_recovered = 0; entries_corrupted = 0; last_lsn = 0; was_truncated = false }

-- The loop's counters after an entry, after the end of the log, and after a corrupt entry.
abbrev pub count_entry : WalEntry → RecoveryResult → RecoveryResult
count_entry entry r = record r { entries_recovered = r.entries_recovered + 1; last_lsn = entry.lsn }

abbrev pub count_end : WalReader → RecoveryResult → RecoveryResult
count_end reader r = if is_at_eof reader then r else record r { was_truncated = true }

abbrev pub count_corrupt : RecoveryResult → RecoveryResult
count_corrupt r = record r { entries_corrupted = r.entries_corrupted + 1; was_truncated = true }

-- The arms of the `match` on an error: corruption ends the loop, anything else propagates.
abbrev pub on_error {ℓ} : {A : Type ℓ} → A → AtlasError → Result A
on_error done (wal_corruption fault) = ok done
on_error done e = err e

module _ (libs : Libraries) where
  unfoldable pub recover_loop :
      ℕ
      → WalReader
      → List WalEntry
      → RecoveryResult
      → Option (Result (List WalEntry × RecoveryResult))
  recover_loop zero reader entries r = none
  recover_loop (suc rounds) reader entries r =
      let (outcome, reader') = next_entry libs reader in
      elim outcome [
        | ok none ↦ some (ok (entries, count_end reader' r))
        | ok (some entry) ↦
            recover_loop rounds reader' (entries ++ (entry ∷ [])) (count_entry entry r)
        | err e ↦ some (on_error (entries, count_corrupt r) e)
      ]

  unfoldable pub recover : List ℕ → Option (Result (List WalEntry × RecoveryResult))
  recover file = recover_loop (suc (length file)) (open_reader file) [] start

  unfoldable pub verify_loop : ℕ → WalReader → RecoveryResult → Option (Result RecoveryResult)
  verify_loop zero reader r = none
  verify_loop (suc rounds) reader r =
      let (outcome, reader') = next_entry libs reader in
      elim outcome [
        | ok none ↦ some (ok (count_end reader' r))
        | ok (some entry) ↦ verify_loop rounds reader' (count_entry entry r)
        | err e ↦ some (on_error (count_corrupt r) e)
      ]

  unfoldable pub verify : List ℕ → Option (Result RecoveryResult)
  verify file = verify_loop (suc (length file)) (open_reader file) start
