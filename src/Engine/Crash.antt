-- ===== src/Engine/Crash.antt =====
-- What a command (src/engine.rs) keeps of the tie between log and engine, under
-- `WalSyncStrategy::EveryWrite`.
use atlas_kv.Base.{
  Bool-cases, List, Option, [], ap, inl, inr, refl, subst, sym, ℕ, ◌++◌, ◌∙◌, ◌∷◌, ◌≡◌,
}
use atlas_kv.Error.{Result, ok, err, Result-cases}
use atlas_kv.MemTable
use atlas_kv.MemTable.{MemTable, MemTableEntry}
use atlas_kv.Protocol.Command.{Command}
use atlas_kv.Wal.Entry.{Operation, Libraries, new_entry}
use atlas_kv.Wal.Writer.{append}
use atlas_kv.Sstable.Opened.{CanHold}
use atlas_kv.Engine.Commands.{Fits, effect}
use atlas_kv.Engine.View.{Contents, Shows}
use atlas_kv.Engine.Restart.{logged_effect, replay_entry-Shows}
use atlas_kv.Engine.{flush_if_full}
use atlas_kv.Engine.{Engine, Env, replay_entry, log_operation, put, delete, no_value, execute}
use atlas_kv.Engine.Writes.{
  log_operation_state, log_operation-Shows, put_refused, put_logged, delete_refused, delete_logged,
}
use atlas_kv.Engine.Recoverable.{
  Recoverable, DataFit, append-Holds, replay-append, flush_if_full-Recoverable,
}

-- The engine with an operation in its memtable.
abbrev pub applied : Operation → Engine → Engine
applied operation e = record e { memtable = replay_entry operation e.memtable }

module _ (libs : Libraries) where
  pub log_operation-append :
      (env : Env) (operation : Operation) (e : Engine) (lsn : ℕ)
      → (log_operation libs env operation e).0 ≡ ok lsn
      → ((append libs env.appending operation e.wal).0 ≡ ok lsn)
        × ((log_operation libs env operation e).1
            ≡ record e { wal = (append libs env.appending operation e.wal).1 })
  unfolding log_operation
  log_operation-append env operation e lsn h = elim (Bool-cases e.write_poisoned) [
    | inl bad ↦ cc (simp bad at h)
    | inr good ↦ elim (Bool-cases e.wal_poisoned) [
      | inl bad ↦ cc (simp (good, bad) at h)
      | inr fine ↦ simp (good, fine) (simp (good, fine) at h, refl)
    ]
  ]

  -- The entry is in the log and its operation is replayed on the memtable.
  logged-Recoverable :
      (env : Env) (operation : Operation) (e : Engine) (f g : Contents) (lsn : ℕ)
      → DataFit libs env operation e
      → Recoverable libs e f
      → (log_operation libs env operation e).0 ≡ ok lsn
      → Recoverable libs (applied operation (log_operation libs env operation e).1) g
  logged-Recoverable env operation e f g lsn fits recoverable h =
      let (done, state) = log_operation-append env operation e lsn h in
      let entry = new_entry e.wal.current_lsn operation env.appending.millis in
      let (payload, holds, settled) =
        append-Holds libs env operation e recoverable.entries lsn fits recoverable.holds done in
      rw state (record {
        entries = recoverable.entries ++ ((entry, payload) ∷ []);
        holds = holds;
        memory =
            ap (replay_entry operation) recoverable.memory
            ∙ sym (replay-append libs recoverable.entries (entry, payload) MemTable.new);
        stale = λ old there. cc (settled, there);
      })

  write-Recoverable :
      (env : Env) (operation : Operation) (e : Engine) (f : Contents) (size lsn : ℕ)
      → DataFit libs env operation e
      → CanHold (replay_entry operation e.memtable).table
      → Shows libs e f
      → Recoverable libs e f
      → (log_operation libs env operation e).0 ≡ ok lsn
      → (let e1 = applied operation (log_operation libs env operation e).1 in
          (flush_if_full libs env size e1).0 ≡ ok tt
          → Recoverable libs (flush_if_full libs env size e1).1 (logged_effect operation f))
  write-Recoverable env operation e f size lsn fits can shows recoverable logged done =
      let e' = (log_operation libs env operation e).1 in
      let (storage_eq, memory) = log_operation_state libs env operation e in
      flush_if_full-Recoverable libs env size (applied operation e') (logged_effect operation f)
        done (subst (λ m. CanHold (replay_entry operation m).table) (sym memory) can)
        (replay_entry-Shows libs operation e' f (log_operation-Shows libs env operation e f shows))
        (logged-Recoverable env operation e f (logged_effect operation f) lsn fits recoverable
          logged)

  put-Recoverable :
      (env : Env) (key v : List ℕ) (e : Engine) (f : Contents)
      → DataFit libs env (Operation.put key v) e
      → CanHold (MemTable.put e.memtable key v).0.table
      → Shows libs e f
      → Recoverable libs e f
      → (put libs env key v e).0 ≡ ok tt
      → Recoverable libs (put libs env key v e).1 (effect (Command.put key v) f)
  put-Recoverable env key v e f fits can shows recoverable h =
      elim (Result-cases (log_operation libs env (Operation.put key v) e).0) [
        | inr (x, g) ↦ cc (put_refused libs env key v e x g, h)
        | inl (lsn, g) ↦ rw (put_logged libs env key v e lsn g) (
            unfold replay_entry in
            write-Recoverable env (Operation.put key v) e f _ lsn fits can shows recoverable g
              (rw (put_logged libs env key v e lsn g) at h))
      ]

  delete-Recoverable :
      (env : Env) (key : List ℕ) (e : Engine) (f : Contents)
      → DataFit libs env (Operation.delete key) e
      → CanHold (MemTable.delete e.memtable key).0.table
      → Shows libs e f
      → Recoverable libs e f
      → (delete libs env key e).0 ≡ ok tt
      → Recoverable libs (delete libs env key e).1 (effect (Command.delete key) f)
  delete-Recoverable env key e f fits can shows recoverable h =
      elim (Result-cases (log_operation libs env (Operation.delete key) e).0) [
        | inr (x, g) ↦ cc (delete_refused libs env key e x g, h)
        | inl (lsn, g) ↦ rw (delete_logged libs env key e lsn g) (
            unfold replay_entry in
            write-Recoverable env (Operation.delete key) e f _ lsn fits can shows recoverable g
              (rw (delete_logged libs env key e lsn g) at h))
      ]

  -- The width that a command needs in the log, if it writes.
  abbrev pub CommandFits : Env → Command → Engine → Type 0
  CommandFits env (Command.put key v) e = DataFit libs env (Operation.put key v) e
  CommandFits env (Command.delete key) e = DataFit libs env (Operation.delete key) e
  CommandFits env (Command.get key) e = Unit {0}
  CommandFits env Command.ping e = Unit {0}

  pub no_value-done :
      (r : Result (Unit {0}) × Engine) (a : Option (List ℕ)) → (no_value r).0 ≡ ok a → r.0 ≡ ok tt
  no_value-done (ok tt, e) a h = refl
  no_value-done (err x, e) a h = cc

  pub no_value-state : (r : Result (Unit {0}) × Engine) → (no_value r).1 ≡ r.1
  no_value-state (ok u, e) = refl
  no_value-state (err x, e) = refl

  -- Under WalSyncStrategy::EveryWrite, where the format can hold the memtable behind the command
  -- and the data of its log entry, if it has one, fit the width of their length, a command that
  -- succeeds on an engine that shows some contents keeps the log true to them: the memtable is the
  -- replay of the durable log; and as long as the last truncation is not synced, the memtable is
  -- empty, and the log from before it replays to nothing but what the contents have.
  pub execute-Recoverable :
      (env : Env) (command : Command) (e : Engine) (f : Contents) (a : Option (List ℕ))
      → CommandFits env command e
      → Fits command e.memtable
      → Shows libs e f
      → Recoverable libs e f
      → (execute libs env command e).0 ≡ ok a
      → Recoverable libs (execute libs env command e).1 (effect command f)
  unfolding execute
  execute-Recoverable env (Command.get key) e f a fits can shows recoverable h = recoverable
  execute-Recoverable env Command.ping e f a fits can shows recoverable h = recoverable
  execute-Recoverable env (Command.put key v) e f a fits can shows recoverable h =
      rw (no_value-state (put libs env key v e)) (
        put-Recoverable env key v e f fits can shows recoverable
          (no_value-done (put libs env key v e) a h))
  execute-Recoverable env (Command.delete key) e f a fits can shows recoverable h =
      rw (no_value-state (delete libs env key e)) (
        delete-Recoverable env key e f fits can shows recoverable
          (no_value-done (delete libs env key e) a h))
