-- ===== src/Protocol/RoundTrip.antt =====
-- Decoding what was encoded (src/protocol/codec.rs).
use atlas_kv.Base.{
  IsU32, List, Option, [], append-nil, append_assoc, arith, drop, drop-append, from_be32-take,
  if◌then◌else◌, length, length-append, length-to_be32-append, ltb, none, refl, some, take,
  take-append, to_be32, ℕ, ◌++◌, ◌+◌, ◌-◌, ◌∙◌, ◌∷◌, ◌≡◌, ◌≤◌,
}
use mathlib.Core.Option
use atlas_kv.Error.{ok}
use atlas_kv.Protocol.Command.{Command, command_type, type_byte}
use atlas_kv.Protocol.Response.{Status, Response, status_byte}
use atlas_kv.Protocol.Codec.{
  max_payload_size, command_payload, encode_command, decode_command, decode_payload,
  decode_get_command, decode_put_command, decode_delete_command, decode_ping_command,
  encode_response, decode_response, decode_status,
}
use atlas_kv.Protocol.Response.{Status, Response, status_byte}
use atlas_kv.Protocol.Command.{Command, command_type, type_byte}

-- A message: a byte, the length of the payload, the payload.
abbrev pub frame : ℕ → List ℕ → List ℕ
frame t payload = t ∷ (to_be32 (length payload) ++ payload)

-- What `bytes[5..total_len]` cuts out of a framed message.
slice_payload :
    (payload rest : List ℕ)
    → take (length payload - 0) (drop 4 (to_be32 (length payload) ++ (payload ++ rest))) ≡ payload
unfolding to_be32
slice_payload payload rest = take-append (length payload - 0) payload rest (omega arith)

pub decode_command-frame :
    (t : ℕ) (payload rest : List ℕ)
    → length payload ≤ max_payload_size
    → decode_command (frame t payload ++ rest) ≡ decode_payload t payload
unfolding decode_command
decode_command-frame t payload rest h =
    let n = length payload in
    rw (append_assoc (to_be32 n) payload rest) (
      ground (
        arith,
        from_be32-take n (payload ++ rest),
        slice_payload payload rest,
        length-to_be32-append n (payload ++ rest),
        length-append payload rest,
      ))

-- A key behind its length, and what follows it.
slice_key :
    (key rest : List ℕ)
    → take (4 + length key - 4) (drop 4 (to_be32 (length key) ++ (key ++ rest))) ≡ key
unfolding to_be32
slice_key key rest = take-append (4 + length key - 4) key rest (omega arith)

drop_key :
    (key rest : List ℕ) → drop (4 + length key) (to_be32 (length key) ++ (key ++ rest)) ≡ rest
drop_key key rest = rw (← append_assoc (to_be32 (length key)) key rest) (
    drop-append (4 + length key) (to_be32 (length key) ++ key) rest
      (omega (arith, length-to_be32-append (length key) key)))

decode_get-payload :
    (key rest : List ℕ)
    → IsU32 (length key)
    → decode_get_command (to_be32 (length key) ++ (key ++ rest)) ≡ ok (Command.get key)
unfolding decode_get_command
decode_get-payload key rest h = ground (
  arith,
  from_be32-take (length key) (key ++ rest),
  length-to_be32-append (length key) (key ++ rest),
  length-append key rest,
  slice_key key rest,
)

decode_delete-payload :
    (key rest : List ℕ)
    → IsU32 (length key)
    → decode_delete_command (to_be32 (length key) ++ (key ++ rest)) ≡ ok (Command.delete key)
unfolding decode_delete_command
decode_delete-payload key rest h = ground (
  arith,
  from_be32-take (length key) (key ++ rest),
  length-to_be32-append (length key) (key ++ rest),
  length-append key rest,
  slice_key key rest,
)

decode_put-payload :
    (key value : List ℕ)
    → IsU32 (length key)
    → decode_put_command (to_be32 (length key) ++ (key ++ value)) ≡ ok (Command.put key value)
unfolding decode_put_command
decode_put-payload key value h = ground (
  arith,
  from_be32-take (length key) (key ++ value),
  length-to_be32-append (length key) (key ++ value),
  length-append key value,
  slice_key key value,
  drop_key key value,
)

-- The payload of a command fits the limit of the protocol.
abbrev pub Fits : Command → Type 0
Fits command = length (command_payload command) ≤ max_payload_size

decode_payload-command :
    (command : Command)
    → Fits command
    → decode_payload (type_byte (command_type command)) (command_payload command) ≡ ok command
unfolding decode_payload command_type command_payload decode_ping_command
decode_payload-command (Command.get key) h =
    rw append-nil at
      (decode_get-payload key [] (omega (arith, length-to_be32-append (length key) key)))
decode_payload-command (Command.put key value) h =
    decode_put-payload key value
      (omega (arith, length-to_be32-append (length key) (key ++ value), length-append key value))
decode_payload-command (Command.delete key) h =
    rw append-nil at
      (decode_delete-payload key [] (omega (arith, length-to_be32-append (length key) key)))
decode_payload-command Command.ping h = refl

-- A command whose payload is within the limit, encoded and followed by any bytes, decodes to
-- itself.
pub decode-encode_command :
    (command : Command) (rest : List ℕ)
    → Fits command
    → decode_command (encode_command command ++ rest) ≡ ok command
unfolding encode_command
decode-encode_command command rest h =
    decode_command-frame (type_byte (command_type command)) (command_payload command) rest h
    ∙ decode_payload-command command h

-- What a client reads back of a response: an empty payload comes back as no payload.
abbrev pub normal_payload : Option (List ℕ) → Option (List ℕ)
normal_payload none = none
normal_payload (some []) = none
normal_payload (some (b ∷ bs)) = some (b ∷ bs)

decode_status-byte : (status : Status) → decode_status (status_byte status) ≡ ok status
unfolding decode_status
decode_status-byte Status.ok = refl
decode_status-byte Status.not_found = refl
decode_status-byte Status.error = refl

abbrev pub FitsResponse : Response → Type 0
FitsResponse response = length (Option.get_or response.payload []) ≤ max_payload_size

normal_payload-get_or :
    (payload : Option (List ℕ))
    → (if ltb 0 (length (Option.get_or payload [])) then some (Option.get_or payload []) else none)
      ≡ normal_payload payload
normal_payload-get_or none = refl
normal_payload-get_or (some []) = refl
normal_payload-get_or (some (b ∷ bs)) = ground arith

-- A response whose payload is within the limit, encoded and followed by any bytes, decodes to the
-- same status and the same payload, except that an empty payload comes back as no payload.
pub decode-encode_response :
    (response : Response) (rest : List ℕ)
    → FitsResponse response
    → decode_response (encode_response response ++ rest)
      ≡ ok (record response { payload = normal_payload response.payload })
unfolding decode_response encode_response
decode-encode_response response rest h =
    let payload = Option.get_or response.payload [] in
    let n = length payload in
    rw (append_assoc (to_be32 n) payload rest) (
      ground (
        arith,
        from_be32-take n (payload ++ rest),
        slice_payload payload rest,
        length-to_be32-append n (payload ++ rest),
        length-append payload rest,
        decode_status-byte response.status,
        normal_payload-get_or response.payload,
      ))
