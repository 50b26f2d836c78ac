-- ===== src/Network/Connection/Answers.antt =====
-- What a client is answered over a connection (src/network/connection.rs), against a map.
use atlas_kv.Base.{
  All, List, Option, [], ap, inl, inr, length, none, refl, some, suc, ℕ, ◌++◌, ◌+◌, ◌∙◌, ◌∷◌, ◌≡◌,
  ◌≢◌,
}
use atlas_kv.Error.{
  AtlasError, ok, err, io, wal_corruption, storage, key_not_found, serialization, network, protocol,
  lock_poisoned, panicked,
}
use atlas_kv.Protocol.Command.{Command}
use atlas_kv.Protocol.Response.{Response, ok_response, error_response}
use atlas_kv.Protocol.RoundTrip as RoundTrip
use atlas_kv.Protocol.Pipeline.{requests}
use atlas_kv.Wal.Entry.{Libraries}
use atlas_kv.Engine.{Engine, Env, execute}
use atlas_kv.Engine.View.{Contents, Shows, get-Shows}
use atlas_kv.Engine.Commands.{Fits, effect, answer, done, failed, execute-Executed}
use atlas_kv.Engine.Errors.{execute-ne-key_not_found}
use atlas_kv.Network.Connection.{Turn, to_response, execute_command, handle}
use atlas_kv.Network.Connection.Conversation.{client, responses, later, serve, handle-requests}

-- The commands that write; the others cannot fail.
abbrev pub Writes : Command → Type 0
Writes (Command.put key v) = Unit {0}
Writes (Command.delete key) = Unit {0}
Writes (Command.get key) = ⊥
Writes Command.ping = ⊥

module _ (libs : Libraries) (display : AtlasError → List ℕ) where
  -- The response to a command, and the contents behind it: its answer and its effect, or for one that
  -- writes an error's text, with its effect or without.
  pub data Answered (c : Command) (f : Contents) : Response → Contents → Type 0 where
    answered : Answered c f (ok_response (answer c f)) (effect c f)
    refused : (x : AtlasError) → Writes c → Answered c f (error_response (display x)) f
    half_done : (x : AtlasError) → Writes c → Answered c f (error_response (display x)) (effect c f)

  -- The responses to commands in order, where the other connections change the contents by `views`
  -- before each.
  pub data Conversed
      : (ℕ → Contents → Contents)
        → List Command
        → Contents
        → List Response
        → Contents
        → Type 0 where
    closed : (views : ℕ → Contents → Contents) (f : Contents) → Conversed views [] f [] f
    replied :
        (views : ℕ → Contents → Contents) (c : Command) (cs : List Command) (f g h : Contents)
        (r : Response) (rs : List Response)
        → Answered c (views 0 f) r g
        → Conversed (λ i. views (suc i)) cs g rs h
        → Conversed views (c ∷ cs) f (r ∷ rs) h

  -- At each turn the others change what the engine shows by `views`, and the format can hold what
  -- the command writes.
  abbrev pub Along : (ℕ → Turn) → (ℕ → Contents → Contents) → List Command → Engine → Type 0
  Along turns views [] e = Unit {0}
  Along turns views (c ∷ cs) e =
      ((f : Contents) → Shows libs e f → Shows libs ((turns 0).others e) (views 0 f))
      × Fits c ((turns 0).others e).memtable
      × Along (later turns) (λ i. views (suc i)) cs
          (execute_command libs display (turns 0).env c ((turns 0).others e)).1

  to_response-err :
      (x : AtlasError)
      → x ≢ key_not_found
      → to_response libs display (err x) ≡ error_response (display x)
  unfolding to_response
  to_response-err (io k) other = refl
  to_response-err (wal_corruption k) other = refl
  to_response-err (storage k) other = refl
  to_response-err key_not_found other = absurd (other refl)
  to_response-err serialization other = refl
  to_response-err network other = refl
  to_response-err (protocol k) other = refl
  to_response-err (lock_poisoned k) other = refl
  to_response-err panicked other = refl

  pub to_response-ok : (a : Option (List ℕ)) → to_response libs display (ok a) ≡ ok_response a
  unfolding to_response
  to_response-ok none = refl
  to_response-ok (some v) = refl

  to_response-failed :
      (env : Env) (c : Command) (e : Engine) (x : AtlasError)
      → (execute libs env c e).0 ≡ err x
      → to_response libs display (execute libs env c e).0 ≡ error_response (display x)
  to_response-failed env c e x r =
      ap (to_response libs display) r
      ∙ to_response-err x (λ same. execute-ne-key_not_found libs env c e (rw same at r))

  write-Answered :
      (env : Env) (c : Command) (e : Engine) (f : Contents)
      → Writes c
      → Fits c e.memtable
      → Shows libs e f
      → (g : Contents) × Answered c f (execute_command libs display env c e).0 g
        × Shows libs (execute_command libs display env c e).1 g
  unfolding execute_command
  write-Answered env c e f writes fits shows = elim (execute-Executed libs env c e f fits shows) [
    | done r after ↦ (effect c f, rw (r, to_response-ok) answered, after)
    | failed x r (inl after) ↦ (f, rw (to_response-failed env c e x r) (refused x writes), after)
    | failed x r (inr after) ↦
        (effect c f, rw (to_response-failed env c e x r) (half_done x writes), after)
  ]

  execute_command-Answered :
      (env : Env) (c : Command) (e : Engine) (f : Contents)
      → Fits c e.memtable
      → Shows libs e f
      → (g : Contents) × Answered c f (execute_command libs display env c e).0 g
        × Shows libs (execute_command libs display env c e).1 g
  unfolding execute_command execute
  execute_command-Answered env (Command.put key v) e f fits shows =
      write-Answered env (Command.put key v) e f tt fits shows
  execute_command-Answered env (Command.delete key) e f fits shows =
      write-Answered env (Command.delete key) e f tt fits shows
  execute_command-Answered env (Command.get key) e f fits shows =
      (f, rw (get-Shows libs e f key shows, to_response-ok) answered, shows)
  execute_command-Answered env Command.ping e f fits shows =
      (f, rw (to_response-ok) answered, shows)

  serve-Conversed :
      (turns : ℕ → Turn) (views : ℕ → Contents → Contents) (cs : List Command) (e : Engine)
      (f : Contents)
      → Along turns views cs e
      → Shows libs e f
      → (h : Contents) × Conversed views cs f (serve libs display turns cs e).0 h
        × Shows libs (serve libs display turns cs e).1 h
  serve-Conversed turns views [] e f along shows = (f, closed views f, shows)
  serve-Conversed turns views (c ∷ cs) e f (others, fits, along) shows =
      let (g, reply, after) =
        execute_command-Answered (turns 0).env c ((turns 0).others e) (views 0 f) fits
          (others f shows) in
      let (h, rest, end) = serve-Conversed (later turns) (λ i. views (suc i)) cs _ g along after in
      (h, replied views c cs f g h _ _ reply rest, end)

  -- Commands whose payloads are within the limit, sent by a client that then closes its end and
  -- takes all that it is sent, to an engine that shows some contents, where the other connections
  -- change these in a known way before each command and the format can hold what each command
  -- writes: the connection ends without an error, what was sent are the responses to the commands
  -- in order, each with its command's answer on a map and its effect on it, or, for one that
  -- writes, with the text of an error and that effect or none, and the engine shows that map at
  -- the end.
  pub handle-Conversed :
      (turns : ℕ → Turn) (views : ℕ → Contents → Contents) (cs : List Command) (rounds : ℕ)
      (sent : List ℕ) (e : Engine) (f : Contents)
      → All RoundTrip.Fits cs
      → Along turns views cs e
      → Shows libs e f
      → (rs : List Response) × (h : Contents) × (e' : Engine) × Conversed views cs f rs h
        × Shows libs e' h
        × (handle libs display (length cs + suc rounds) turns (client (requests cs) sent e)
            ≡ (some (ok tt), client [] (sent ++ responses rs) e'))
  handle-Conversed turns views cs rounds sent e f fit along shows =
      let (rs, e') = serve libs display turns cs e in
      let (h, replies, after) = serve-Conversed turns views cs e f along shows in
      (rs, h, e', replies, after, handle-requests libs display cs rounds turns sent e fit)
