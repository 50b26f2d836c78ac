-- ===== src/Cli.antt =====
-- src/bin/cli.rs: one command, sent to the server, and the response printed. The parsing of the
-- arguments by `clap` and the options of the socket are left out; the stream is a writer and a reader
-- of Protocol/Stream. What is printed is a value, beside the exit status of the process.
pub mod Served
use atlas_kv.Base.{
  Bool, List, Option, [], false, if◌then◌else◌, leb, ltb, none, some, suc, true, zero, ℕ, ◌&&◌,
  ◌==◌, ◌∷◌,
}
use atlas_kv.Error.{AtlasError, Result, ok, err}
use atlas_kv.Protocol.Command.{Command}
use atlas_kv.Protocol.Response.{Response, Status}
use atlas_kv.Protocol.Stream.{Reader, Writer, write_command, read_response}

-- The subcommands, with the bytes of their strings.
pub data Commands : Type 0 where
  get : List ℕ → Commands
  set : List ℕ → List ℕ → Commands
  del : List ℕ → Commands
  ping : Commands

-- `debug` is a list of bytes as `{:?}` shows it. A failing send is one line for the two calls that
-- may fail.
pub data Line : Type 0 where
  text debug error_text : List ℕ → Line
  nil fine pong unknown_error : Line
  not_sent not_read : AtlasError → Line

pub record Printed : Type 0 where
  pub line : Line
  pub status : ℕ

unfoldable pub to_command : Commands → Command
to_command (get key) = Command.get key
to_command (set key v) = Command.put key v
to_command (del key) = Command.delete key
to_command ping = Command.ping

abbrev between : ℕ → ℕ → ℕ → Bool
between low high b = leb low b && leb b high

-- `String::from_utf8` accepts the bytes. A first byte says how many bytes are to follow it, and the
-- bounds of the next.
unfoldable pub first_byte : ℕ → Option (ℕ × ℕ × ℕ)
first_byte b =
    if ltb b 128
    then some (0, 128, 191)
    else if between 194 223 b
    then some (1, 128, 191)
    else if b == 224
    then some (2, 160, 191)
    else if b == 237
    then some (2, 128, 159)
    else if between 225 239 b
    then some (2, 128, 191)
    else if b == 240
    then some (3, 144, 191)
    else if between 241 243 b
    then some (3, 128, 191)
    else if b == 244
    then some (3, 128, 143)
    else none

unfoldable pub continues : ℕ × ℕ × ℕ → List ℕ → Bool
unfolding first_byte
continues (zero, low, high) [] = true
continues (suc k, low, high) [] = false
continues (suc k, low, high) (b ∷ bs) = between low high b && continues (k, 128, 191) bs
continues (zero, low, high) (b ∷ bs) = elim (first_byte b) [
  | none ↦ false
  | some expected ↦ continues expected bs
]

unfoldable pub is_utf8 : List ℕ → Bool
unfolding continues
is_utf8 bytes = continues (0, 128, 191) bytes

unfoldable pub on_ok : Commands → Option (List ℕ) → Line
unfolding is_utf8
on_ok (get key) none = nil
on_ok (get key) (some v) = if is_utf8 v then text v else debug v
on_ok (set key v) payload = fine
on_ok (del key) payload = fine
on_ok ping none = pong
on_ok ping (some v) = if is_utf8 v then text v else pong

unfoldable pub on_error : Option (List ℕ) → Line
unfolding is_utf8
on_error none = unknown_error
on_error (some message) = if is_utf8 message then error_text message else unknown_error

unfoldable pub handle_response : Commands → Response → Printed
unfolding on_ok on_error
handle_response cmd response = elim response.status [
  | Status.ok ↦ record { line = on_ok cmd response.payload; status = 0 }
  | Status.not_found ↦ record { line = nil; status = 0 }
  | Status.error ↦ record { line = on_error response.payload; status = 1 }
]

unfoldable pub on_response : Commands → Result Response → Printed
unfolding handle_response
on_response cmd (ok response) = handle_response cmd response
on_response cmd (err x) = record { line = not_read x; status = 1 }

unfoldable pub main : Commands → Writer → Reader → Printed × Writer
unfolding to_command on_response
main cmd w r =
    let (sent, w') = write_command (to_command cmd) w in
    elim sent [
      | ok u ↦ (on_response cmd (read_response r).0, w')
      | err x ↦ (record { line = not_sent x; status = 1 }, w')
    ]
