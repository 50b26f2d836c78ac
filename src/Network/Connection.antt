-- ===== src/Network/Connection.antt =====
-- src/network/connection.rs: one client's connection. The engine is shared: what other connections
-- did to it since the last command is an argument of the next, beside the outcomes of the system
-- calls. The text of an error, which `thiserror` derives, is the parameter `display`. The socket's
-- options and the log messages are left out.
pub mod Loop
pub mod Conversation
pub mod Answers
pub mod Durable
use atlas_kv.Base.{Bool, List, Option, false, if◌then◌else◌, none, some, suc, true, zero, ℕ}
use atlas_kv.Error.{
  AtlasError, Result, ok, err, key_not_found, IoKind, io, unexpected_eof, connection_reset,
  connection_aborted, would_block, timed_out, broken_pipe,
}
use atlas_kv.Protocol.Command.{Command}
use atlas_kv.Protocol.Response.{Response, ok_response, not_found_response, error_response}
use atlas_kv.Protocol.Stream.{Reader, Writer, read_command, write_response}
use atlas_kv.Wal.Entry.{Libraries}
use atlas_kv.Engine.{Engine, Env, execute}

pub record Connection : Type 0 where
  pub reader : Reader
  pub writer : Writer
  pub engine : Engine

-- What the environment does around one command: the other connections, and the system calls.
pub record Turn : Type 0 where
  pub others : Engine → Engine
  pub env : Env

-- The read errors that end a connection without an error, and the write errors that do.
unfoldable pub ends_reading : AtlasError → Bool
ends_reading (io unexpected_eof) = true
ends_reading (io connection_reset) = true
ends_reading (io connection_aborted) = true
ends_reading (io would_block) = true
ends_reading (io timed_out) = true
ends_reading x = false

unfoldable pub ends_writing : AtlasError → Bool
ends_writing (io connection_aborted) = true
ends_writing (io connection_reset) = true
ends_writing (io broken_pipe) = true
ends_writing x = false

module _ (libs : Libraries) (display : AtlasError → List ℕ) where
  unfoldable pub to_response : Result (Option (List ℕ)) → Response
  to_response (ok (some v)) = ok_response (some v)
  to_response (ok none) = ok_response none
  to_response (err key_not_found) = not_found_response
  to_response (err x) = error_response (display x)

  unfoldable pub execute_command : Env → Command → Engine → Response × Engine
  unfolding to_response
  execute_command env command e = let (r, e') = execute libs env command e in (to_response r, e')

  -- `none` goes on with the next command, else the value that `handle` returns.
  unfoldable pub on_read_error : AtlasError → Connection → Option (Result (Unit {0})) × Connection
  unfolding ends_reading
  on_read_error x c =
      if ends_reading x
      then (some (ok tt), c)
      else let (sent, w) = write_response (error_response (display x)) c.writer in
        (some (err x), record c { writer = w })

  unfoldable pub on_sent : Result (Unit {0}) → Option (Result (Unit {0}))
  unfolding ends_writing
  on_sent (ok u) = none
  on_sent (err x) = if ends_writing x then some (ok tt) else some (err x)

  unfoldable pub respond : Turn → Command → Connection → Option (Result (Unit {0})) × Connection
  unfolding execute_command on_sent
  respond turn command c =
      let (response, e) = execute_command turn.env command (turn.others c.engine) in
      let (sent, w) = write_response response c.writer in
      (on_sent sent, record c { writer = w; engine = e })

  -- One round of the loop.
  unfoldable pub round : Turn → Connection → Option (Result (Unit {0})) × Connection
  round turn c =
      let (r, reader) = read_command c.reader in
      let c' = record c { reader = reader } in
      elim r [ ok command ↦ respond turn command c' | err x ↦ on_read_error x c' ]

  -- The rounds are counted; `none` is the value of a loop that ran out of them.
  unfoldable pub handle : ℕ → (ℕ → Turn) → Connection → Option (Result (Unit {0})) × Connection
  handle zero turns c = (none, c)
  handle (suc rounds) turns c =
      let (outcome, c') = round (turns 0) c in
      elim outcome [
        | none ↦ handle rounds (λ i. turns (suc i)) c'
        | some result ↦ (some result, c')
      ]
