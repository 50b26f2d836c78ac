-- ===== src/Tests/Wires.antt =====
-- Two clients of a store that syncs every two entries, and a crash.
use atlas_kv.Base.{All, List, [], arith, false, none, refl, some, to_be32, ℕ, ◌++◌, ◌∷◌, ◌≡◌, ◌≤◌}
use atlas_kv.Error.{AtlasError, ok}
use atlas_kv.Protocol.Command.{Command}
use atlas_kv.Protocol.Codec.{command_payload}
use atlas_kv.Protocol.RoundTrip as RoundTrip
use atlas_kv.Protocol.Pipeline.{requests}
use atlas_kv.Wal.Writer.{after_crash}
use atlas_kv.Wal.Writer.{every_n_entries}
use atlas_kv.Engine.{Engine, Env, get}
use atlas_kv.Engine.Open.{open_engine}
use atlas_kv.Engine.Run.{run, after}
use atlas_kv.Storage.{Directory}
use atlas_kv.Engine.Survivors.{total_writes}
use atlas_kv.Network.Connection.{handle}
use atlas_kv.Network.Connection.Conversation.{client, responses}
use atlas_kv.Network.Connection.Durable.{
  Exchange, commands_of, executed, replies, turns_of, handle-crash,
}
use atlas_kv.Tests.Samples.{libs, libs-IsLawful, calm_env, calm_storage, swapped, swapped-Lists}
use atlas_kv.Tests.Lives.{
  libs-Serializes, libs-IsCompact, calm_env-IsCalm, lazy_config, lazy_store, opened_lazy,
}

abbrev display : AtlasError → List ℕ
display x = 69 ∷ []

-- A put, and a read of a key that another client has written in between.
abbrev exchanges : List Exchange
exchanges =
    record { others = []; env = calm_env; command = Command.put (4 ∷ []) (5 ∷ []) }
    ∷ record {
      others = (calm_env, Command.put (6 ∷ []) (7 ∷ [])) ∷ [];
      env = calm_env;
      command = Command.get (6 ∷ []);
    }
    ∷ []

exchanges-Fits : All RoundTrip.Fits (commands_of exchanges)
exchanges-Fits = (
  unfold command_payload to_be32 in omega arith,
  (unfold command_payload to_be32 in omega arith, tt),
)

-- The directory behind the commands of both clients.
abbrev end_directory : Directory
end_directory = (run libs (executed exchanges) lazy_store).1.storage.directory

handle-crash_example :
    (let (result, c) =
        handle libs display 3
          (turns_of libs calm_env exchanges)
          (client (requests (commands_of exchanges)) [] lazy_store) in
      (result ≡ some (ok tt))
      × (c.writer.sent ≡ responses (replies exchanges (λ key. none)))
      × (saved : List (Env × Command)) × (lost : List (Env × Command)) × (executed exchanges
          ≡ saved ++ lost)
      × (total_writes lost ≤ 1)
      × (e' : Engine) × (open_engine libs calm_storage c.engine.config
            (swapped end_directory)
            (some (after_crash false c.engine.wal.file))
          ≡ some (ok e'))
      × ((key : List ℕ) → get libs e' key ≡ ok (after saved (λ key. none) key)))
handle-crash_example =
    handle-crash libs libs-IsLawful libs-Serializes libs-IsCompact (every_n_entries 2) display
      calm_env calm_storage calm_storage lazy_config lazy_store exchanges 0 false
      (swapped end_directory) refl opened_lazy exchanges-Fits
      (
        (calm_env-IsCalm, omega arith),
        ((calm_env-IsCalm, omega arith), ((calm_env-IsCalm, tt), tt)),
      )
      (omega arith) (λ old there. refl) (swapped-Lists end_directory) refl refl
