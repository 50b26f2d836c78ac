-- ===== src/Engine/Commands.antt =====
-- What a client's command does to the contents that it sees: `Engine::execute` (src/engine.rs)
-- against a map.
use atlas_kv.Base.{List, Option, arith, inl, inr, none, refl, some, ℕ, ◌≡◌, ◌⊎◌}
use atlas_kv.Error.{Result, ok, err, AtlasError, Result-cases}
use atlas_kv.MemTable
use atlas_kv.MemTable.{MemTable}
use atlas_kv.Protocol.Command.{Command}
use atlas_kv.Sstable.Opened.{CanHold}
use atlas_kv.Wal.Entry.{Libraries}
use atlas_kv.Engine.{Engine, Env, put, delete, execute, pong, no_value}
use atlas_kv.Engine.View.{Contents, Shows, update, get-Shows}
use atlas_kv.Engine.Writes.{Written, refused, accepted, put-Written, delete-Written}

-- The contents after a command, and its answer.
abbrev pub effect : Command → Contents → Contents
effect (Command.put key v) f = update key (some v) f
effect (Command.delete key) f = update key none f
effect (Command.get key) f = f
effect Command.ping f = f

abbrev pub answer : Command → Contents → Option (List ℕ)
answer (Command.get key) f = f key
answer (Command.put key v) f = none
answer (Command.delete key) f = none
answer Command.ping f = some pong

-- The format can hold the memtable with what the command writes.
abbrev pub Fits : Command → MemTable → Type 0
Fits (Command.put key v) m = CanHold (MemTable.put m key v).0.table
Fits (Command.delete key) m = CanHold (MemTable.delete m key).0.table
Fits (Command.get key) m = Unit {0}
Fits Command.ping m = Unit {0}

-- A command succeeds with its answer and its effect, or fails, with or without its effect.
pub data Executed (libs : Libraries) (command : Command) (f : Contents)
    (r : Result (Option (List ℕ)) × Engine) : Type 0 where
  done : r.0 ≡ ok (answer command f) → Shows libs r.1 (effect command f) → Executed libs command f r
  failed :
      (x : AtlasError)
      → r.0 ≡ err x
      → Shows libs r.1 f ⊎ Shows libs r.1 (effect command f)
      → Executed libs command f r

module _ (libs : Libraries) where
  no_value-ok : (r : Result (Unit {0}) × Engine) → r.0 ≡ ok tt → no_value r ≡ (ok none, r.1)
  no_value-ok (ok u, e) h = refl
  no_value-ok (err x, e) h = cc

  no_value-err :
      (r : Result (Unit {0}) × Engine) (x : AtlasError) → r.0 ≡ err x → no_value r ≡ (err x, r.1)
  no_value-err (ok u, e) x h = cc
  no_value-err (err y, e) x h = ground arith

  write-Executed :
      (command : Command) (f : Contents) (logged : Result ℕ) (r : Result (Unit {0}) × Engine)
      → answer command f ≡ none
      → Written libs f (effect command f) logged r
      → Executed libs command f (no_value r)
  write-Executed command f logged r a (refused x fails e shows) =
      rw (no_value-err r x e) (failed x refl (inl shows))
  write-Executed command f logged r a (accepted lsn l shows) = elim (Result-cases r.0) [
    | inl (u, e) ↦ rw (no_value-ok r e) (done (rw a) shows)
    | inr (x, e) ↦ rw (no_value-err r x e) (failed x refl (inr shows))
  ]

  -- On contents that the engine shows, and where the format can hold the memtable with the write,
  -- a command that succeeds has the answer and the effect that it has on a map, and one that fails
  -- has that effect or none.
  pub execute-Executed :
      (env : Env) (command : Command) (e : Engine) (f : Contents)
      → Fits command e.memtable
      → Shows libs e f
      → Executed libs command f (execute libs env command e)
  unfolding execute
  execute-Executed env (Command.get key) e f fits shows = done (get-Shows libs e f key shows) shows
  execute-Executed env (Command.put key v) e f fits shows =
      write-Executed (Command.put key v) f _ (put libs env key v e) refl
        (put-Written libs env key v e f fits shows)
  execute-Executed env (Command.delete key) e f fits shows =
      write-Executed (Command.delete key) f _ (delete libs env key e) refl
        (delete-Written libs env key e f fits shows)
  execute-Executed env Command.ping e f fits shows = done refl shows
