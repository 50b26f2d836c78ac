-- ===== src/Protocol/Codec.antt =====
-- src/protocol/codec.rs: encoding and decoding of whole messages. A `usize` cast to `u32` is
-- `% 2 ^ 32`, which `to_be32` does by keeping four bytes. An index or a slice stands behind the
-- source's test of the length, so it is in range.
use mathlib.Core.Option
use atlas_kv.Base.{
  ℕ, ◌+◌, ◌*◌, ◌==◌, ltb, if◌then◌else◌, List, [], ◌∷◌, ◌++◌, none, some, length, take, drop,
  get_or, slice, to_be32, from_be32,
}
use atlas_kv.Error.{
  Result, ok, err, ◌>>=◌, protocol, incomplete_header, incomplete_payload, payload_too_large,
  unknown_command, unknown_status, missing_key_length, incomplete_key, unexpected_payload,
}
use atlas_kv.Protocol.Command.{Command, command_type, type_byte}
use atlas_kv.Protocol.Response.{Status, Response, status_byte}

abbrev pub header_size : ℕ
header_size = 5

abbrev pub max_payload_size : ℕ
max_payload_size = 16 * 1024 * 1024

unfoldable pub command_payload : Command → List ℕ
command_payload (Command.get key) = to_be32 (length key) ++ key
command_payload (Command.put key value) = to_be32 (length key) ++ (key ++ value)
command_payload (Command.delete key) = to_be32 (length key) ++ key
command_payload Command.ping = []

unfoldable pub encode_command : Command → List ℕ
unfolding command_type
encode_command command =
    let payload = command_payload command in
    type_byte (command_type command) ∷ (to_be32 (length payload) ++ payload)

unfoldable pub decode_get_command : List ℕ → Result Command
decode_get_command payload =
    if ltb (length payload) 4
    then err (protocol missing_key_length)
    else let key_len = from_be32 (take 4 payload) in
      if ltb (length payload) (4 + key_len)
      then err (protocol incomplete_key)
      else ok (Command.get (slice 4 (4 + key_len) payload))

unfoldable pub decode_put_command : List ℕ → Result Command
decode_put_command payload =
    if ltb (length payload) 4
    then err (protocol missing_key_length)
    else let key_len = from_be32 (take 4 payload) in
      if ltb (length payload) (4 + key_len)
      then err (protocol incomplete_key)
      else ok (Command.put (slice 4 (4 + key_len) payload) (drop (4 + key_len) payload))

unfoldable pub decode_delete_command : List ℕ → Result Command
decode_delete_command payload =
    if ltb (length payload) 4
    then err (protocol missing_key_length)
    else let key_len = from_be32 (take 4 payload) in
      if ltb (length payload) (4 + key_len)
      then err (protocol incomplete_key)
      else ok (Command.delete (slice 4 (4 + key_len) payload))

unfoldable pub decode_ping_command : List ℕ → Result Command
decode_ping_command [] = ok Command.ping
decode_ping_command (b ∷ bs) = err (protocol (unexpected_payload (length (b ∷ bs))))

-- The `match` on the command's byte.
unfoldable pub decode_payload : ℕ → List ℕ → Result Command
decode_payload cmd_type payload =
    if cmd_type == 1
    then decode_get_command payload
    else if cmd_type == 2
    then decode_put_command payload
    else if cmd_type == 3
    then decode_delete_command payload
    else if cmd_type == 4
    then decode_ping_command payload
    else err (protocol (unknown_command cmd_type))

unfoldable pub decode_command : List ℕ → Result Command
decode_command bytes =
    if ltb (length bytes) header_size
    then err (protocol incomplete_header)
    else let cmd_type = get_or bytes 0 0 in
      let payload_len = from_be32 (slice 1 5 bytes) in
      if ltb max_payload_size payload_len
      then err (protocol payload_too_large)
      else let total_len = header_size + payload_len in
        if ltb (length bytes) total_len
        then err (protocol incomplete_payload)
        else decode_payload cmd_type (slice header_size total_len bytes)

unfoldable pub encode_response : Response → List ℕ
encode_response response =
    let payload = Option.get_or response.payload [] in
    status_byte response.status ∷ (to_be32 (length payload) ++ payload)

unfoldable pub decode_status : ℕ → Result Status
decode_status b =
    if b == 0
    then ok Status.ok
    else if b == 1
    then ok Status.not_found
    else if b == 2
    then ok Status.error
    else err (protocol (unknown_status b))

unfoldable pub decode_response : List ℕ → Result Response
decode_response bytes =
    if ltb (length bytes) header_size
    then err (protocol incomplete_header)
    else let payload_len = from_be32 (slice 1 5 bytes) in
      if ltb max_payload_size payload_len
      then err (protocol payload_too_large)
      else let total_len = header_size + payload_len in
        if ltb (length bytes) total_len then err (protocol incomplete_payload) else do
          status ← decode_status (get_or bytes 0 0)
          ok (record {
            status = status;
            payload = if ltb 0 payload_len then some (slice header_size total_len bytes) else none;
          })
