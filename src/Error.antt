-- ===== src/Error.antt =====
-- src/error.rs: `AtlasError` and `Result`. A message that the source formats is kept as the data
-- that stand in it; its rendering is the `Display` that `thiserror` derives, a parameter where it
-- is needed.
use atlas_kv.Base.{inl, inr, refl, ℕ, ◌≡◌, ◌⊎◌}

-- The kinds of `std::io::Error` that the program tells apart, and all others.
pub data IoKind : Type 0 where
  unexpected_eof connection_reset connection_aborted would_block timed_out : IoKind
  broken_pipe not_found invalid_input other : IoKind

pub data WalFault : Type 0 where
  entry_too_small entry_truncated crc_mismatch undecodable lsn_mismatch : WalFault

pub data StorageFault : Type 0 where
  invalid_magic : StorageFault
  unsupported_version : ℕ → StorageFault
  empty_memtable : StorageFault

pub data ProtocolFault : Type 0 where
  incomplete_header incomplete_payload payload_too_large : ProtocolFault
  unknown_command unknown_status : ℕ → ProtocolFault
  missing_key_length incomplete_key : ProtocolFault
  unexpected_payload : ℕ → ProtocolFault

pub data LockName : Type 0 where
  write_lock wal_lock : LockName

pub data AtlasError : Type 0 where
  io : IoKind → AtlasError
  wal_corruption : WalFault → AtlasError
  storage : StorageFault → AtlasError
  key_not_found : AtlasError
  serialization : AtlasError
  network : AtlasError
  protocol : ProtocolFault → AtlasError
  lock_poisoned : LockName → AtlasError
  -- no value of the source: the mark of a panic, such as an allocation of an impossible size
  panicked : AtlasError

pub data Result {ℓ} (A : Type ℓ) : Type ℓ where
  ok : A → Result A
  err : AtlasError → Result A

-- The `?` operator, with and without a value to go on with.
module _ {ℓ κ} {A : Type ℓ} {B : Type κ} where
  infixl 5 ◌>>=◌
  abbrev pub ◌>>=◌ : Result A → (A → Result B) → Result B
  err fault >>= next = err fault
  ok value >>= next = next value

module _ {κ} {B : Type κ} where
  infixl 5 ◌>>◌
  abbrev pub ◌>>◌ : Result (Unit {0}) → Result B → Result B
  ok tt >> next = next
  err fault >> next = err fault

pub Result-cases {ℓ} :
    {A : Type ℓ} (r : Result A) → ((a : A) × (r ≡ ok a)) ⊎ ((e : AtlasError) × (r ≡ err e))
Result-cases (ok a) = inl (a, refl)
Result-cases (err e) = inr (e, refl)
