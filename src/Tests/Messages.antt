-- ===== src/Tests/Messages.antt =====
-- Messages of the protocol, written and read back.
use atlas_kv.Base.{
  List, [], arith, if◌then◌else◌, ltb, none, some, take, to_be32, ℕ, ◌++◌, ◌∷◌, ◌≡◌,
}
use atlas_kv.Error.{ok, err, protocol, incomplete_payload, incomplete_header, unexpected_eof}
use atlas_kv.Protocol.Command.{Command}
use atlas_kv.Protocol.Response.{ok_response}
use atlas_kv.Protocol.Codec.{
  command_payload, header_size, encode_command, decode_command, encode_response, decode_response,
}
use atlas_kv.Protocol.Stream.{read_command}
use atlas_kv.Protocol.RoundTrip.{decode-encode_response}
use atlas_kv.Protocol.Pipeline.{
  requests, read_commands, read_commands-requests, read-encode_command,
}
use atlas_kv.Protocol.Refusals.{decode_command-prefix}

abbrev put_one : Command
put_one = Command.put (1 ∷ []) (2 ∷ 3 ∷ [])

decode-encode_response_example :
    decode_response (encode_response (ok_response (some [])) ++ (9 ∷ [])) ≡ ok (ok_response none)
decode-encode_response_example =
    decode-encode_response (ok_response (some [])) (9 ∷ []) (omega arith)

read-encode_command_example :
    read_command (record { bytes = encode_command put_one ++ (9 ∷ []); ending = unexpected_eof })
    ≡ (ok put_one, record { bytes = 9 ∷ []; ending = unexpected_eof })
read-encode_command_example =
    read-encode_command put_one (9 ∷ []) unexpected_eof
      (unfold to_be32 command_payload in omega arith)

read_commands-requests_example :
    read_commands 2 (record {
      bytes = requests (put_one ∷ Command.ping ∷ []) ++ (9 ∷ []);
      ending = unexpected_eof;
    })
    ≡ (ok (put_one ∷ Command.ping ∷ []), record { bytes = 9 ∷ []; ending = unexpected_eof })
read_commands-requests_example =
    read_commands-requests (put_one ∷ Command.ping ∷ []) (9 ∷ []) unexpected_eof
      (unfold to_be32 command_payload in (omega arith, (omega arith, tt)))

decode_command-prefix_example :
    decode_command (take 7 (encode_command put_one))
    ≡ err (protocol (if ltb 7 header_size then incomplete_header else incomplete_payload))
decode_command-prefix_example =
    decode_command-prefix put_one 7 (unfold to_be32 command_payload in omega arith)
      (unfold encode_command to_be32 command_payload in omega arith)

-- A GET whose payload has one byte behind the key, and one byte behind it.
abbrev get_and_more : List ℕ
get_and_more = 1 ∷ 0 ∷ 0 ∷ 0 ∷ 6 ∷ 0 ∷ 0 ∷ 0 ∷ 1 ∷ 7 ∷ 8 ∷ 9 ∷ []
