-- ===== src/Tests/Connections.antt =====
-- Connections of a client to the engine of `Samples`.
use atlas_kv.Base.{All, List, [], arith, some, to_be32, ℕ, ◌∷◌, ◌≡◌}
use atlas_kv.Error.{ok, Result, AtlasError}
use atlas_kv.Protocol.Command.{Command}
use atlas_kv.Protocol.Response.{Response}
use atlas_kv.Protocol.Codec.{command_payload}
use atlas_kv.Protocol.RoundTrip as RoundTrip
use atlas_kv.Protocol.Pipeline.{requests}
use atlas_kv.Engine.{Engine}
use atlas_kv.Engine.View.{Contents, Shows}
use atlas_kv.Network.Connection.{Turn, handle}
use atlas_kv.Network.Connection.Loop.{handle_total}
use atlas_kv.Network.Connection.Conversation.{client, responses, serve, handle-requests}
use atlas_kv.Network.Connection.Answers.{Conversed, handle-Conversed}
use atlas_kv.MemTable
use atlas_kv.BTreeMap
use atlas_kv.Protocol.RoundTrip.{normal_payload}
use atlas_kv.Cli.{get}
use atlas_kv.Tests.Samples.{libs, engine, engine-Shows, contents, calm_env}
use atlas_kv.Tests.Engines.{put_one}

-- The text of an error.
abbrev display : AtlasError → List ℕ
display x = 69 ∷ []

abbrev alone : ℕ → Turn
alone i = record { others = λ e. e; env = calm_env }

abbrev commands : List Command
commands = Command.put (4 ∷ []) (5 ∷ []) ∷ Command.get (4 ∷ []) ∷ []

commands-Fits : All RoundTrip.Fits commands
commands-Fits = (
  unfold command_payload to_be32 in omega arith,
  (unfold command_payload to_be32 in omega arith, tt),
)

handle-requests_example : handle libs display 3 alone (client (requests commands) [] engine) ≡ (
  some (ok tt),
  client []
      (responses (serve libs display alone commands engine).0)
      (serve libs display alone commands engine).1,
)
handle-requests_example = handle-requests libs display commands 0 alone [] engine commands-Fits

-- A type that no command has, with an empty payload.
abbrev malformed : List ℕ
malformed = 255 ∷ 0 ∷ 0 ∷ 0 ∷ 0 ∷ []

handle_total_example :
    (result : Result (Unit {0})) × ((handle libs display 6 alone (client malformed [] engine)).0
      ≡ some result)
handle_total_example = handle_total libs display 6 alone (client malformed [] engine) (omega arith)

handle-Conversed_example :
    (rs : List Response) × (h : Contents) × (e' : Engine) × Conversed libs display
      (λ i f. f)
      commands
      contents
      rs
      h
    × Shows libs e' h
    × (handle libs display 3 alone (client (requests commands) [] engine)
        ≡ (some (ok tt), client [] (responses rs) e'))
handle-Conversed_example =
    handle-Conversed libs display alone (λ i f. f) commands 0 [] engine contents commands-Fits
      ((λ f shows. shows), put_one, ((λ f shows. shows), tt, tt)) engine-Shows
