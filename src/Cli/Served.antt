-- ===== src/Cli/Served.antt =====
-- The client (src/bin/cli.rs) and the server's connection (src/network/connection.rs) together.
use atlas_kv.Base.{List, Option, [], false, none, some, true, ℕ, ◌∷◌, ◌≡◌}
use mathlib.Core.Option
use atlas_kv.Error.{AtlasError, unexpected_eof}
use atlas_kv.Protocol.Command.{Command}
use atlas_kv.Protocol.Codec.{encode_command}
use atlas_kv.Protocol.Stream.{Reader, Writer}
use atlas_kv.Protocol.RoundTrip as RoundTrip
use atlas_kv.Wal.Entry.{Libraries}
use atlas_kv.Engine.{Engine}
use atlas_kv.Network.Connection.{Turn, handle}
use atlas_kv.Network.Connection.Conversation.{client}
use atlas_kv.Cli.{Line, nil, text, debug, is_utf8}

-- The streams of a new connection, on which these bytes come back.
abbrev pub unsent : Writer
unsent = record { sent = []; faults = [] }

abbrev pub replied : List ℕ → Reader
replied bytes = record { bytes = bytes; ending = unexpected_eof }

-- What a client is to print of the value of a key.
pub data IsShown : Option (List ℕ) → Line → Type 0 where
  missing : IsShown none nil
  empty : IsShown (some []) nil
  characters :
      (b : ℕ) (bs : List ℕ) → is_utf8 (b ∷ bs) ≡ true → IsShown (some (b ∷ bs)) (text (b ∷ bs))
  other_bytes :
      (b : ℕ) (bs : List ℕ) → is_utf8 (b ∷ bs) ≡ false → IsShown (some (b ∷ bs)) (debug (b ∷ bs))

module _ (libs : Libraries) (display : AtlasError → List ℕ) where
  -- What the server sends to a client that sends this command.
  abbrev pub reply : (ℕ → Turn) → Command → Engine → List ℕ
  reply turns command e =
      (handle libs display 2 turns (client (encode_command command) [] e)).1.writer.sent
