-- ===== src/Protocol/Stream.antt =====
-- src/protocol/codec.rs: the helpers that read and write a stream. The peer and the socket are an
-- environment: a reader holds the bytes that arrive, in order, and the kind of error that a read
-- meets behind them (`unexpected_eof` where the peer closed, `would_block` or `timed_out` at a
-- timeout). A writer holds the bytes that went out, and the outcomes of the next sends.
use atlas_kv.Base.{
  List, Option, [], drop, from_be32, if◌then◌else◌, leb, length, ltb, none, slice, some, take, ℕ,
  ◌++◌, ◌∷◌,
}
use atlas_kv.Error.{IoKind, Result, ok, err, io, protocol, payload_too_large}
use atlas_kv.Exec.{Exec, fail, lift, pure, ◌>>=◌}
use atlas_kv.Protocol.Command.{Command}
use atlas_kv.Protocol.Response.{Response}
use atlas_kv.Protocol.Codec.{
  header_size, max_payload_size, encode_command, decode_command, encode_response, decode_response,
}

pub record Reader : Type 0 where
  pub bytes : List ℕ
  pub ending : IoKind

-- `Read::read_exact`. How much a failing call takes is unspecified; here it is all.
unfoldable pub read_exact : ℕ → Exec Reader (List ℕ)
read_exact n r =
    if leb n (length r.bytes)
    then (ok (take n r.bytes), record r { bytes = drop n r.bytes })
    else (err (io r.ending), record r { bytes = [] })

-- `if payload_len > 0 { reader.read_exact(&mut payload)? }`
unfoldable pub read_payload : ℕ → Exec Reader (List ℕ)
unfolding read_exact
read_payload n = if ltb 0 n then read_exact n else pure []

unfoldable pub read_command : Exec Reader Command
unfolding read_exact read_payload
read_command = do
  header ← read_exact header_size
  let payload_len = from_be32 (slice 1 5 header)
  if ltb max_payload_size payload_len
      then fail (protocol payload_too_large)
      else do payload ← read_payload payload_len; lift (decode_command (header ++ payload))

unfoldable pub read_response : Exec Reader Response
unfolding read_exact read_payload
read_response = do
  header ← read_exact header_size
  let payload_len = from_be32 (slice 1 5 header)
  if ltb max_payload_size payload_len
      then fail (protocol payload_too_large)
      else do payload ← read_payload payload_len; lift (decode_response (header ++ payload))

-- `faults` are the outcomes of the next sends, `none` for success; behind its end all succeed.
pub record Writer : Type 0 where
  pub sent : List ℕ
  pub faults : List (Option IoKind)

-- `write_all` and then `flush`. What a failing send lets out is not followed up: the connection is
-- given up behind it.
abbrev send_with : List (Option IoKind) → List ℕ → List ℕ → Result (Unit {0}) × Writer
send_with [] bytes sent = (ok tt, record { sent = sent ++ bytes; faults = [] })
send_with (none ∷ faults) bytes sent = (ok tt, record { sent = sent ++ bytes; faults = faults })
send_with (some e ∷ faults) bytes sent = (err (io e), record { sent = sent; faults = faults })

unfoldable pub send : List ℕ → Exec Writer (Unit {0})
send bytes w = send_with w.faults bytes w.sent

unfoldable pub write_command : Command → Exec Writer (Unit {0})
unfolding send
write_command command = send (encode_command command)

unfoldable pub write_response : Response → Exec Writer (Unit {0})
unfolding send
write_response response = send (encode_response response)
