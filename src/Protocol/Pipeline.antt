-- ===== src/Protocol/Pipeline.antt =====
-- Whole messages on a stream, one behind the other (`read_command` and `read_response` of
-- src/protocol/codec.rs).
use atlas_kv.Base.{
  All, IsU32, List, [], append-nil, append_assoc, arith, drop-append, from_be32, from_be32-take,
  length, length-append, refl, slice, suc, take-append, to_be32, zero, ℕ, ◌++◌, ◌∷◌, ◌≡◌,
}
use atlas_kv.Error.{IoKind, ok}
use mathlib.Core.Option
use atlas_kv.Exec.{Exec, pure, ◌>>=◌}
use atlas_kv.Protocol.Command.{Command, command_type, type_byte}
use atlas_kv.Protocol.Response.{Response, status_byte}
use atlas_kv.Protocol.Codec.{header_size, command_payload, encode_command, encode_response}
use atlas_kv.Protocol.Stream.{Reader, read_exact, read_payload, read_command, read_response}
use atlas_kv.Protocol.RoundTrip.{
  Fits, FitsResponse, normal_payload, decode-encode_command, decode-encode_response,
}

read_exact-append :
    (n : ℕ) (front rest : List ℕ) (ending : IoKind)
    → n ≡ length front
    → read_exact n (record { bytes = front ++ rest; ending = ending })
      ≡ (ok front, record { bytes = rest; ending = ending })
unfolding read_exact
read_exact-append n front rest ending h =
    ground (arith, length-append front rest, take-append n front rest, drop-append n front rest)

read_payload-append :
    (front rest : List ℕ) (ending : IoKind)
    → read_payload (length front) (record { bytes = front ++ rest; ending = ending })
      ≡ (ok front, record { bytes = rest; ending = ending })
unfolding read_payload
read_payload-append [] rest ending = ground arith
read_payload-append (b ∷ bs) rest ending =
    ground (arith, read_exact-append (length (b ∷ bs)) (b ∷ bs) rest ending)

frame_header :
    (t n : ℕ) (front rest : List ℕ) (ending : IoKind)
    → read_exact header_size
        (record { bytes = t ∷ (to_be32 n ++ (front ++ rest)); ending = ending })
      ≡ (ok (t ∷ to_be32 n), record { bytes = front ++ rest; ending = ending })
unfolding to_be32
frame_header t n front rest ending =
    read_exact-append header_size (t ∷ to_be32 n) (front ++ rest) ending refl

header_length : (t n : ℕ) → IsU32 n → from_be32 (slice 1 5 (t ∷ to_be32 n)) ≡ n
header_length t n h = rw append-nil at (from_be32-take n [] h)

-- A command whose payload is within the limit, encoded at the front of what arrives, is read, and
-- exactly its bytes are taken from the stream.
pub read-encode_command :
    (command : Command) (rest : List ℕ) (ending : IoKind)
    → Fits command
    → read_command (record { bytes = encode_command command ++ rest; ending = ending })
      ≡ (ok command, record { bytes = rest; ending = ending })
unfolding read_command encode_command
read-encode_command command rest ending h =
    let p = command_payload command in
    let n = length p in
    let t = type_byte (command_type command) in
    rw (append_assoc (to_be32 n) p rest, frame_header t n p rest ending)
      (ground (
        arith,
        header_length t n,
        read_payload-append p rest ending,
        rw append-nil at (decode-encode_command command [] h),
      ))

-- A response whose payload is within the limit, encoded at the front of what arrives, is read with
-- an empty payload as no payload, and exactly its bytes are taken from the stream.
pub read-encode_response :
    (response : Response) (rest : List ℕ) (ending : IoKind)
    → FitsResponse response
    → read_response (record { bytes = encode_response response ++ rest; ending = ending }) ≡ (
      ok (record response { payload = normal_payload response.payload }),
      record { bytes = rest; ending = ending },
    )
unfolding read_response encode_response
read-encode_response response rest ending h =
    let p = Option.get_or response.payload [] in
    let n = length p in
    let t = status_byte response.status in
    rw (append_assoc (to_be32 n) p rest, frame_header t n p rest ending)
      (ground (
        arith,
        header_length t n,
        read_payload-append p rest ending,
        rw append-nil at (decode-encode_response response [] h),
      ))

-- The requests of a client that writes one after the other.
abbrev pub requests : List Command → List ℕ
requests [] = []
requests (c ∷ cs) = encode_command c ++ requests cs

-- The server's reads, as many as there are commands.
unfoldable pub read_commands : ℕ → Exec Reader (List Command)
read_commands zero = pure []
read_commands (suc n) = do c ← read_command; cs ← read_commands n; pure (c ∷ cs)

-- Commands whose payloads are within the limit, written one behind the other, are read back in
-- order, and what follows them is left on the stream.
pub read_commands-requests :
    (commands : List Command) (rest : List ℕ) (ending : IoKind)
    → All Fits commands
    → read_commands
        (length commands)
        (record { bytes = requests commands ++ rest; ending = ending })
      ≡ (ok commands, record { bytes = rest; ending = ending })
unfolding read_commands
read_commands-requests [] rest ending h = refl
read_commands-requests (c ∷ cs) rest ending h = rw (
  append_assoc (encode_command c) (requests cs) rest,
  read-encode_command c (requests cs ++ rest) ending h.0,
  read_commands-requests cs rest ending h.1,
)
