-- ===== src/Wal/Entry.antt =====
-- src/wal/entry.rs: one entry of the log and its bytes. The clock, `bincode` and `crc32fast` are
-- not code of the repository: the time is an argument of `WalEntry::new`, and the two libraries
-- are the parameter `Libraries`.
use atlas_kv.Base.{
  IsU32, List, Option, from_le, if◌then◌else◌, length, ltb, none, not, slice, some, to_le, ℕ, ◌%◌,
  ◌++◌, ◌+◌, ◌==◌, ◌^◌, ◌≡◌,
}
use atlas_kv.Error.{
  Result, ok, err, ◌>>=◌, serialization, wal_corruption, entry_too_small, entry_truncated,
  crc_mismatch, undecodable, lsn_mismatch,
}

abbrev pub header_size : ℕ
header_size = 16

pub data Operation : Type 0 where
  put : List ℕ → List ℕ → Operation
  delete : List ℕ → Operation

pub record WalEntry : Type 0 where
  pub lsn : ℕ
  pub operation : Operation
  pub timestamp : ℕ

-- `crc32fast::hash`, `bincode::serialize` and `bincode::deserialize`.
pub record Libraries : Type 0 where
  pub crc32 : List ℕ → ℕ
  pub bincode_serialize : WalEntry → Option (List ℕ)
  pub bincode_deserialize : List ℕ → Option WalEntry

-- What the libraries document: a checksum is 32 bits wide, and `bincode` reads back what it wrote.
pub record IsLawful (libs : Libraries) : Type 0 where
  pub crc32-IsU32 : (bytes : List ℕ) → IsU32 (libs.crc32 bytes)
  pub deserialize-serialize :
      (entry : WalEntry) (bytes : List ℕ)
      → libs.bincode_serialize entry ≡ some bytes
      → libs.bincode_deserialize bytes ≡ some entry

-- `as_millis() as u64`
abbrev pub new_entry : ℕ → Operation → ℕ → WalEntry
new_entry lsn operation millis = record {
  lsn = lsn;
  operation = operation;
  timestamp = millis % 2 ^ 64;
}

-- `map_err` on the library's result.
abbrev pub ok_or {ℓ} : {A : Type ℓ} → Option A → Result A → Result A
ok_or none e = e
ok_or (some a) e = ok a

module _ (libs : Libraries) where
  -- The bytes that the checksum covers: LSN, length, data.
  unfoldable pub crc_buffer : ℕ → ℕ → List ℕ → List ℕ
  crc_buffer lsn data_len bytes = to_le 8 lsn ++ (to_le 4 data_len ++ bytes)

  -- LSN, checksum, length, data.
  unfoldable pub layout : ℕ → List ℕ → List ℕ
  layout lsn bytes =
      to_le 8 lsn
      ++ (to_le 4 (libs.crc32 (crc_buffer lsn (length bytes % 2 ^ 32) bytes))
          ++ (to_le 4 (length bytes % 2 ^ 32) ++ bytes))

  unfoldable pub serialize : WalEntry → Result (List ℕ)
  serialize entry = do
    bytes ← ok_or (libs.bincode_serialize entry) (err serialization)
    ok (layout entry.lsn bytes)

  unfoldable pub compute_crc : WalEntry → Result ℕ
  compute_crc entry = do
    bytes ← ok_or (libs.bincode_serialize entry) (err serialization)
    ok (libs.crc32 (crc_buffer entry.lsn (length bytes % 2 ^ 32) bytes))

  -- Steps 5 to 7: the checksum, the data, the sanity check on the LSN.
  unfoldable pub decode_data : ℕ → ℕ → ℕ → List ℕ → Result WalEntry
  decode_data lsn stored_crc data_len bytes =
      if not (libs.crc32 (crc_buffer lsn data_len bytes) == stored_crc)
      then err (wal_corruption crc_mismatch)
      else do
        entry ← ok_or (libs.bincode_deserialize bytes) (err (wal_corruption undecodable))
        if not (entry.lsn == lsn) then err (wal_corruption lsn_mismatch) else ok entry

  unfoldable pub deserialize : List ℕ → Result WalEntry
  deserialize bytes =
      if ltb (length bytes) header_size
      then err (wal_corruption entry_too_small)
      else let lsn = from_le (slice 0 8 bytes) in
        let stored_crc = from_le (slice 8 12 bytes) in
        let data_len = from_le (slice 12 16 bytes) in
        let expected_size = header_size + data_len in
        if ltb (length bytes) expected_size
        then err (wal_corruption entry_truncated)
        else decode_data lsn stored_crc data_len (slice header_size expected_size bytes)
