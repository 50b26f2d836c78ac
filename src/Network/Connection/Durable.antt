-- ===== src/Network/Connection/Durable.antt =====
-- A client's conversation with a store (src/network/connection.rs over src/engine.rs) that crashes
-- behind it: what the client was told against what an open finds.
use atlas_kv.Base.{
  All, All-append_left, All-append_right, All-map, Bool, List, [], ap, arith, length, map, none,
  refl, some, suc, sym, total-append, zero, ℕ, ◌++◌, ◌+◌, ◌<◌, ◌^◌, ◌∙◌, ◌∷◌, ◌≡◌, ◌≤◌,
}
use atlas_kv.Error.{AtlasError, ok}
use atlas_kv.Protocol.Command.{Command}
use atlas_kv.Protocol.Response.{Response, ok_response}
use atlas_kv.Protocol.RoundTrip as RoundTrip
use atlas_kv.Protocol.Pipeline.{requests}
use atlas_kv.Sstable.Format.{header_size}
use atlas_kv.Storage.{StorageEnv, Directory}
use atlas_kv.Storage.Listing.{Lists}
use atlas_kv.Wal.Writer.{after_crash}
use atlas_kv.Wal.Durability.{KeepsTruncation}
use atlas_kv.Wal.Entry.{Libraries, IsLawful}
use atlas_kv.Wal.Writer.{WalSyncStrategy}
use atlas_kv.Config.{Config}
use atlas_kv.Engine.{Engine, Env, execute, get}
use atlas_kv.Engine.Calm.{Serializes}
use atlas_kv.Engine.Commands.{answer, effect}
use atlas_kv.Engine.Narrow.{IsCompact, IsNarrow-IsSmall}
use atlas_kv.Engine.Open.{open_engine}
use atlas_kv.Engine.Run.{run, after, total_weight, Ready, execute-Ready, run-Ready, opened-Ready}
use atlas_kv.Engine.Run as Run
use atlas_kv.Engine.Sizes.{weight}
use atlas_kv.Engine.Survivors.{IsOrderly, total_writes, run-crash}
use atlas_kv.Wal.Appending.{allowance}
use atlas_kv.Engine.View.{Contents}
use atlas_kv.Network.Connection.{Turn, execute_command, handle}
use atlas_kv.Network.Connection.Conversation.{client, responses, serve, handle-requests}
use atlas_kv.Network.Connection.Answers.{to_response-ok}

-- A command of the client, behind commands that other connections have executed since its last.
pub record Exchange : Type 0 where
  pub others : List (Env × Command)
  pub env : Env
  pub command : Command

abbrev pub commands_of : List Exchange → List Command
commands_of xs = map (λ x. x.command) xs

-- All commands, in the order in which the engine executes them.
abbrev pub executed : List Exchange → List (Env × Command)
executed [] = []
executed (x ∷ xs) = x.others ++ ((x.env, x.command) ∷ executed xs)

-- What a map answers to the client.
abbrev pub replies : List Exchange → Contents → List Response
replies [] f = []
replies (x ∷ xs) f =
    ok_response (answer x.command (after x.others f))
    ∷ replies xs (effect x.command (after x.others f))

module _ (libs : Libraries) where
  abbrev pub turn_of : Exchange → Turn
  turn_of x = record { others = λ e. (run libs x.others e).1; env = x.env }

  -- The turns of the connection; behind them nothing happens.
  abbrev pub turns_of : Env → List Exchange → ℕ → Turn
  turns_of idle [] i = record { others = λ e. e; env = idle }
  turns_of idle (x ∷ xs) zero = turn_of x
  turns_of idle (x ∷ xs) (suc i) = turns_of idle xs i

  run-append :
      (cs ds : List (Env × Command)) (e : Engine)
      → (run libs (cs ++ ds) e).1 ≡ (run libs ds (run libs cs e).1).1
  unfolding run
  run-append [] ds e = refl
  run-append ((env, c) ∷ cs) ds e = run-append cs ds (execute libs env c e).1

  module _ (display : AtlasError → List ℕ) (idle : Env) where
    -- The connection executes the commands as the engine does.
    serve-run :
        (xs : List Exchange) (e : Engine)
        → (serve libs display (turns_of idle xs) (commands_of xs) e).1
          ≡ (run libs (executed xs) e).1
    unfolding execute_command run
    serve-run [] e = refl
    serve-run (x ∷ xs) e =
        serve-run xs (execute libs x.env x.command (run libs x.others e).1).1
        ∙ sym (run-append x.others ((x.env, x.command) ∷ executed xs) e)

    serve-replies :
        Serializes libs
        → (xs : List Exchange) (n : ℕ) (e : Engine) (f : Contents) → All Run.IsOrderly (executed xs)
        → header_size + (n + total_weight (executed xs)) < 2 ^ 64
        → Ready libs n e f
        → (serve libs display (turns_of idle xs) (commands_of xs) e).0 ≡ replies xs f
    unfolding execute_command
    serve-replies serializes [] n e f orderly room r = refl
    serve-replies serializes (x ∷ xs) n e f orderly room r =
        let rest = (x.env, x.command) ∷ executed xs in
        let weight_eq = total-append (λ c. weight c.1) x.others rest in
        let before = All-append_left Run.IsOrderly x.others rest orderly in
        let (here, behind) = All-append_right Run.IsOrderly x.others rest orderly in
        let (others_ok, r1) =
          run-Ready libs serializes x.others n e f before (omega (arith, weight_eq)) r in
        let (told, r2) =
          execute-Ready libs serializes x.env x.command (n + total_weight x.others) _ _ here
            (omega (arith, weight_eq)) r1 in
        rw (told, to_response-ok)
          (ap (λ rs. ok_response (answer x.command (after x.others f)) ∷ rs)
            (serve-replies serializes xs _ _ _ behind (omega (arith, weight_eq)) r2))

module _ (libs : Libraries) (lawful : IsLawful libs) (serializes : Serializes libs)
    (compact : IsCompact libs) (strategy : WalSyncStrategy) (display : AtlasError → List ℕ)
    (idle : Env) where
  -- With libraries that keep their promises, and a serialisation that never fails and adds at most
  -- 64 bytes to key and value: a client sends commands whose payloads are within the limit to a
  -- store that was opened on an empty directory without a log, closes its end and takes all that
  -- it is sent, while other connections send commands between its own; no system call fails, 64
  -- bytes with a key and its value are fewer than 2 ^ 32 and all that is written is below 2 ^ 64
  -- bytes. The connection ends without an error, and the client was sent a response without an
  -- error to each command, with the answer of a map that had all commands before it. Then the
  -- store crashes and is opened again on its directory, listed in any order, where a truncation of
  -- the log that was not synced has reached the disk all the same: the open succeeds, and each key
  -- reads as after the first of all the commands; of the others no more are writes than
  -- EveryNEntries counts, less one, and none under EveryWrite.
  pub handle-crash :
      (opening reopening : StorageEnv) (config : Config) (e : Engine) (xs : List Exchange)
      (rounds : ℕ) (late : Bool) (directory : Directory)
      → config.wal_sync_strategy ≡ strategy
      → open_engine libs opening config [] none ≡ some (ok e)
      → All RoundTrip.Fits (commands_of xs)
      → All IsOrderly (executed xs)
      → header_size + total_weight (executed xs) < 2 ^ 64
      → KeepsTruncation late (run libs (executed xs) e).1.wal.file
      → Lists (run libs (executed xs) e).1.storage.directory directory
      → reopening.create ≡ none
      → reopening.finish ≡ none
      → (let (result, c) =
            handle libs display
              (length (commands_of xs) + suc rounds)
              (turns_of libs idle xs)
              (client (requests (commands_of xs)) [] e) in
          (result ≡ some (ok tt))
          × (c.writer.sent ≡ responses (replies xs (λ key. none)))
          × (saved : List (Env × Command)) × (lost : List (Env × Command)) × (executed xs
              ≡ saved ++ lost)
          × (total_writes lost ≤ allowance strategy)
          × (e' : Engine) × (open_engine libs reopening c.engine.config directory
                (some (after_crash late c.engine.wal.file))
              ≡ some (ok e'))
          × ((key : List ℕ) → get libs e' key ≡ ok (after saved (λ key. none) key)))
  handle-crash opening reopening config e xs rounds late directory strategy_eq opened fits orderly
        room keeps listed create finish =
      let turns = turns_of libs idle xs in
      let small : All Run.IsOrderly (executed xs) =
        All-map IsOrderly Run.IsOrderly (executed xs) (λ x h. (h.0, IsNarrow-IsSmall x.1 h.1))
          orderly in
      let told =
        serve-replies libs display idle serializes xs 0 e (λ key. none) small (omega arith)
          (opened-Ready libs serializes opening config e opened) in
      let (saved, lost, split, few, e', reopened, found) =
        run-crash libs lawful serializes compact strategy opening reopening config e (executed xs)
          late directory strategy_eq opened orderly room keeps listed create finish in
      let handled = handle-requests libs display (commands_of xs) rounds turns [] e fits in
      rw (handled, told, serve-run libs display idle xs e)
        (refl, refl, saved, lost, split, few, e', reopened, found)
