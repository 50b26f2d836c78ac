-- ===== src/Protocol/Response.antt =====
-- src/protocol/response.rs
use atlas_kv.Base.{ℕ, List, Option, none, some}

pub data Status : Type 0 where
  ok not_found error : Status

-- The `#[repr(u8)]` discriminants, `status as u8`.
abbrev pub status_byte : Status → ℕ
status_byte Status.ok = 0
status_byte Status.not_found = 1
status_byte Status.error = 2

pub record Response : Type 0 where
  pub status : Status
  pub payload : Option (List ℕ)

abbrev pub ok_response : Option (List ℕ) → Response
ok_response payload = record { status = Status.ok; payload = payload }

abbrev pub not_found_response : Response
not_found_response = record { status = Status.not_found; payload = none }

abbrev pub error_response : List ℕ → Response
error_response message = record { status = Status.error; payload = some message }
