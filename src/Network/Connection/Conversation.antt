-- ===== src/Network/Connection/Conversation.antt =====
-- A whole conversation on a connection (`Connection::handle` of src/network/connection.rs).
use atlas_kv.Base.{
  All, List, [], ap, append-nil, append_assoc, arith, length, none, refl, some, suc, sym, ℕ, ◌++◌,
  ◌+◌, ◌∙◌, ◌∷◌, ◌≡◌,
}
use atlas_kv.Error.{AtlasError, Result, ok, unexpected_eof}
use atlas_kv.Protocol.Command.{Command}
use atlas_kv.Protocol.Response.{Response}
use atlas_kv.Protocol.Codec.{encode_response, encode_command}
use atlas_kv.Protocol.Stream.{Reader, send, read_command, write_response}
use atlas_kv.Protocol.RoundTrip as RoundTrip
use atlas_kv.Protocol.Pipeline.{requests, read-encode_command}
use atlas_kv.Wal.Entry.{Libraries}
use atlas_kv.Engine.{Engine}
use atlas_kv.Network.Connection.{
  Connection, Turn, ends_reading, execute_command, on_read_error, on_sent, respond, round, handle,
}

-- A client that sends these bytes, closes its end of the stream and takes all that it is sent.
abbrev pub client : List ℕ → List ℕ → Engine → Connection
client bytes sent e = record {
  reader = record { bytes = bytes; ending = unexpected_eof };
  writer = record { sent = sent; faults = [] };
  engine = e;
}

abbrev pub responses : List Response → List ℕ
responses [] = []
responses (r ∷ rs) = encode_response r ++ responses rs

-- The turns behind the first.
abbrev pub later : (ℕ → Turn) → ℕ → Turn
later turns i = turns (suc i)

-- The turns behind those of these commands.
abbrev pub behind : List Command → (ℕ → Turn) → ℕ → Turn
behind [] turns = turns
behind (c ∷ cs) turns = behind cs (later turns)

module _ (libs : Libraries) (display : AtlasError → List ℕ) where
  -- The commands executed in order: the responses, and the engine behind them.
  abbrev pub serve : (ℕ → Turn) → List Command → Engine → List Response × Engine
  serve turns [] e = ([], e)
  serve turns (c ∷ cs) e =
      let (r, e') = execute_command libs display (turns 0).env c ((turns 0).others e) in
      let (rs, e'') = serve (later turns) cs e' in (r ∷ rs, e'')

  round_read :
      (turn : Turn) (c : Connection) (command : Command) (r : Reader)
      → read_command c.reader ≡ (ok command, r)
      → round libs display turn c ≡ respond libs display turn command (record c { reader = r })
  unfolding round
  round_read turn c command r h = ground (arith, h)

  respond-client :
      (turn : Turn) (c : Command) (rest sent : List ℕ) (e : Engine)
      → respond libs display turn c (client rest sent e) ≡ (
        none,
        client rest
            (sent ++ encode_response (execute_command libs display turn.env c (turn.others e)).0)
            (execute_command libs display turn.env c (turn.others e)).1,
      )
  unfolding respond write_response send on_sent
  respond-client turn c rest sent e = refl

  round-command :
      (turn : Turn) (c : Command) (rest sent : List ℕ) (e : Engine)
      → RoundTrip.Fits c
      → round libs display turn (client (encode_command c ++ rest) sent e) ≡ (
        none,
        client rest
            (sent ++ encode_response (execute_command libs display turn.env c (turn.others e)).0)
            (execute_command libs display turn.env c (turn.others e)).1,
      )
  round-command turn c rest sent e fits =
      round_read turn (client (encode_command c ++ rest) sent e) c _
        (read-encode_command c rest unexpected_eof fits)
      ∙ respond-client turn c rest sent e

  round-end :
      (turn : Turn) (sent : List ℕ) (e : Engine)
      → round libs display turn (client [] sent e) ≡ (some (ok tt), client [] sent e)
  unfolding round read_command on_read_error ends_reading
  round-end turn sent e = refl

  handle_next :
      (rounds : ℕ) (turns : ℕ → Turn) (c c' : Connection)
      → round libs display (turns 0) c ≡ (none, c')
      → handle libs display (suc rounds) turns c ≡ handle libs display rounds (later turns) c'
  unfolding handle
  handle_next rounds turns c c' h = ground (arith, h)

  handle_end :
      (rounds : ℕ) (turns : ℕ → Turn) (c c' : Connection) (result : Result (Unit {0}))
      → round libs display (turns 0) c ≡ (some result, c')
      → handle libs display (suc rounds) turns c ≡ (some result, c')
  unfolding handle
  handle_end rounds turns c c' result h = ground (arith, h)

  -- The commands at the front of what arrives are executed first.
  handle-append :
      (commands : List Command) (rounds : ℕ) (turns : ℕ → Turn) (rest sent : List ℕ) (e : Engine)
      → All RoundTrip.Fits commands
      → handle libs display
          (length commands + rounds)
          turns
          (client (requests commands ++ rest) sent e)
        ≡ handle libs display rounds
            (behind commands turns)
            (client rest (sent ++ responses (serve turns commands e).0) (serve turns commands e).1)
  handle-append [] rounds turns rest sent e fits =
      let zero_add : 0 + rounds ≡ rounds = omega arith in
      ap (λ n. handle libs display n turns (client rest sent e)) zero_add
      ∙ ap (λ bytes. handle libs display rounds turns (client rest bytes e)) (sym (append-nil sent))
  handle-append (c ∷ cs) rounds turns rest sent e (fit, fits) =
      let (r, e') = execute_command libs display (turns 0).env c ((turns 0).others e) in
      let suc_add : length (c ∷ cs) + rounds ≡ suc (length cs + rounds) = omega arith in
      ap (λ n. handle libs display n turns (client (requests (c ∷ cs) ++ rest) sent e)) suc_add
      ∙ ap (λ bytes. handle libs display (suc (length cs + rounds)) turns (client bytes sent e))
          (append_assoc (encode_command c) (requests cs) rest)
      ∙ handle_next (length cs + rounds) turns
          (client (encode_command c ++ (requests cs ++ rest)) sent e)
          (client (requests cs ++ rest) (sent ++ encode_response r) e')
          (round-command (turns 0) c (requests cs ++ rest) sent e fit)
      ∙ handle-append cs rounds (later turns) rest (sent ++ encode_response r) e' fits
      ∙ ap
          (λ bytes.
            handle libs display rounds (behind cs (later turns))
              (client rest bytes (serve (later turns) cs e').1))
          (append_assoc sent (encode_response r) (responses (serve (later turns) cs e').0))

  -- Commands whose payloads are within the limit, sent one behind the other by a client that then
  -- closes: the loop returns without an error, has executed the commands in order, and has sent one
  -- response to each.
  pub handle-requests :
      (commands : List Command) (rounds : ℕ) (turns : ℕ → Turn) (sent : List ℕ) (e : Engine)
      → All RoundTrip.Fits commands
      → handle libs display (length commands + suc rounds) turns (client (requests commands) sent e)
        ≡ (
          some (ok tt),
          client [] (sent ++ responses (serve turns commands e).0) (serve turns commands e).1,
        )
  handle-requests commands rounds turns sent e fits =
      let (rs, e') = serve turns commands e in
      ap (λ bytes. handle libs display (length commands + suc rounds) turns (client bytes sent e))
        (sym (append-nil (requests commands)))
      ∙ handle-append commands (suc rounds) turns [] sent e fits
      ∙ handle_end rounds (behind commands turns) (client [] (sent ++ responses rs) e')
          (client [] (sent ++ responses rs) e') (ok tt)
          (round-end (behind commands turns 0) (sent ++ responses rs) e')
