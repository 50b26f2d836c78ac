-- ===== src/Protocol/Refusals.antt =====
-- What `decode_command` of src/protocol/codec.rs refuses.
use atlas_kv.Base.{
  List, [], arith, from_be32, from_be32-take, if◌then◌else◌, length, length-take, ltb, refl, suc,
  take, to_be32, zero, ℕ, ◌+◌, ◌<◌, ◌≡◌, ◌≤◌,
}
use atlas_kv.Error.{err, protocol, incomplete_header, incomplete_payload}
use atlas_kv.Protocol.Command.{Command}
use atlas_kv.Protocol.Codec.{
  decode_get_command, decode_put_command, decode_delete_command, decode_ping_command,
  decode_payload, header_size, command_payload, encode_command, decode_command, decode_payload,
  decode_get_command, decode_put_command, decode_delete_command, decode_ping_command,
}
use atlas_kv.Protocol.RoundTrip.{Fits}

-- A message cut short is refused for being incomplete: every proper prefix of an encoded command,
-- of a payload within the limit, is refused as an incomplete header if it is shorter than a
-- header, and else as an incomplete payload.
pub decode_command-prefix :
    (command : Command) (n : ℕ)
    → Fits command
    → n < length (encode_command command)
    → decode_command (take n (encode_command command))
      ≡ err (protocol (if ltb n header_size then incomplete_header else incomplete_payload))
unfolding decode_command encode_command to_be32
decode_command-prefix command zero h lt = refl
decode_command-prefix command (suc zero) h lt = refl
decode_command-prefix command (suc (suc zero)) h lt = refl
decode_command-prefix command (suc (suc (suc zero))) h lt = refl
decode_command-prefix command (suc (suc (suc (suc zero)))) h lt = refl
decode_command-prefix command (suc (suc (suc (suc (suc n))))) h lt = ground (
  arith,
  length-take n (command_payload command),
  from_be32-take (length (command_payload command)) [],
)

-- The slices that the decoding of a payload takes are in range: the length of the key stands in the
-- payload, and the key behind it; the payload of PING is empty.
abbrev pub InRange : List ℕ → Command → Type 0
InRange p (Command.get key) =
    (4 + from_be32 (take 4 p) ≤ length p) × (length key ≡ from_be32 (take 4 p))
InRange p (Command.put key v) =
    (4 + from_be32 (take 4 p) ≤ length p) × (length key ≡ from_be32 (take 4 p))
InRange p (Command.delete key) =
    (4 + from_be32 (take 4 p) ≤ length p) × (length key ≡ from_be32 (take 4 p))
InRange p Command.ping = length p ≡ 0
