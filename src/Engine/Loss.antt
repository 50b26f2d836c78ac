-- ===== src/Engine/Loss.antt =====
-- What a crash may cost (src/engine.rs), on any sync strategy: the last writes, as many as the
-- strategy leaves uncommitted, where it undoes no truncation of the log.
use atlas_kv.Base.{
  Bool-cases, List, Option, [], ap, arith, inl, inr, leb, refl, subst, sym, ℕ, ◌+◌, ◌∙◌, ◌≡◌, ◌⊎◌,
}
use atlas_kv.Error.{ok, Result-cases}
use atlas_kv.MemTable
use atlas_kv.MemTable.{MemTable}
use atlas_kv.Protocol.Command.{Command}
use atlas_kv.Sstable.Opened.{CanHold}
use atlas_kv.Wal.Entry.{Operation, Libraries}
use atlas_kv.Wal.Writer.{WalSyncStrategy}
use atlas_kv.Wal.Appending.{truncate_lem}
use atlas_kv.Wal.Lag.{truncate-Lags}
use atlas_kv.Engine.{
  Engine, Env, replay, replay_entry, flush_internal, flush_if_full, log_operation, put, delete,
  execute,
}
use atlas_kv.Engine.Behind.{Behind, settled-Behind, logged-Behind, flush_internal-cases}
use atlas_kv.Engine.Commands.{Fits, effect}
use atlas_kv.Engine.Crash.{applied, CommandFits, no_value-done, no_value-state}
use atlas_kv.Engine.Kept.{CanHold-nil}
use atlas_kv.Engine.Recoverable.{DataFit}
use atlas_kv.Engine.Restart.{logged_effect, replay_entry-Shows}
use atlas_kv.Engine.View.{Contents, Shows, flush_if_full-Shows}
use atlas_kv.Engine.Writes.{
  log_operation-Shows, log_operation_state, put_refused, put_logged, delete_refused, delete_logged,
}

-- One for a command that writes.
abbrev pub writes : Command → ℕ
writes (Command.put key v) = 1
writes (Command.delete key) = 1
writes (Command.get key) = 0
writes Command.ping = 0

module _ (libs : Libraries) (strategy : WalSyncStrategy) where
  -- Either all is durable, or the last write joined those that wait.
  abbrev pub Moves : Contents → Contents → ℕ → Engine → Type 0
  Moves f g n e = Behind libs strategy f 0 e ⊎ Behind libs strategy g n e

  Moves-strategy :
      (f g : Contents) (n : ℕ) (e : Engine) → Moves f g n e → e.wal.sync_strategy ≡ strategy
  Moves-strategy f g n e (inl b) = b.strategy_eq
  Moves-strategy f g n e (inr b) = b.strategy_eq

  pub flush_internal-Moves :
      (env : Env) (e : Engine) (f g : Contents) (n : ℕ)
      → (flush_internal libs env e).0 ≡ ok tt
      → Shows libs (flush_internal libs env e).1 f
      → Moves f g n e
      → Moves f g n (flush_internal libs env e).1
  flush_internal-Moves env e f g n done shows moves = elim (flush_internal-cases libs env e done) [
    | inl same ↦ subst (Moves f g n) (sym same) moves
    | inr (memory, truncated, wal_eq) ↦
        let (file, lsn, count, strategy_eq) = truncate_lem env.truncating e.wal truncated in
        inl (
          settled-Behind libs strategy f (flush_internal libs env e).1 [] shows
            (rw wal_eq (truncate-Lags libs env.truncating e.wal truncated))
            (memory ∙ (unfold replay in refl)) (rw memory CanHold-nil)
            (ap (λ w. w.sync_strategy) wal_eq ∙ strategy_eq ∙ Moves-strategy f g n e moves)
            (omega (arith, ap (λ w. w.uncommitted_count) wal_eq, count)))
  ]

  flush_if_full-Moves :
      (env : Env) (size : ℕ) (e : Engine) (f g : Contents) (n : ℕ)
      → (flush_if_full libs env size e).0 ≡ ok tt
      → Shows libs (flush_if_full libs env size e).1 f
      → Moves f g n e
      → Moves f g n (flush_if_full libs env size e).1
  unfolding flush_if_full
  flush_if_full-Moves env size e f g n done shows moves =
      elim (Bool-cases (leb e.config.memtable_size_limit size)) [
        | inl full ↦
            simp full
              (flush_internal-Moves env e f g n (simp full at done) (simp full at shows) moves)
        | inr small ↦ simp small moves
      ]

  write-Moves :
      (env : Env) (operation : Operation) (e : Engine) (size lsn : ℕ) (f g : Contents) (n : ℕ)
      → DataFit libs env operation e
      → (log_operation libs env operation e).0 ≡ ok lsn
      → CanHold (replay_entry operation e.memtable).table
      → Shows libs e f
      → Behind libs strategy g n e
      → (let e1 = applied operation (log_operation libs env operation e).1 in
          (flush_if_full libs env size e1).0 ≡ ok tt
          → Moves (logged_effect operation f) g (n + 1) (flush_if_full libs env size e1).1)
  write-Moves env operation e size lsn f g n fits logged can shows b done =
      let e' = (log_operation libs env operation e).1 in
      let (storage_eq, memory) = log_operation_state libs env operation e in
      let can' : CanHold (replay_entry operation e'.memtable).table =
        subst (λ m. CanHold (replay_entry operation m).table) (sym memory) can in
      let shows' =
        replay_entry-Shows libs operation e' f (log_operation-Shows libs env operation e f shows) in
      flush_if_full-Moves env size (applied operation e') (logged_effect operation f) g (n + 1) done
        (flush_if_full-Shows libs env size (applied operation e') (logged_effect operation f) can'
          shows')
        (logged-Behind libs strategy (logged_effect operation f) g n env operation e lsn fits logged
          can' shows' b)

  put-Moves :
      (env : Env) (key v : List ℕ) (e : Engine) (f g : Contents) (n : ℕ)
      → DataFit libs env (Operation.put key v) e
      → CanHold (MemTable.put e.memtable key v).0.table
      → Shows libs e f
      → Behind libs strategy g n e
      → (put libs env key v e).0 ≡ ok tt
      → Moves (effect (Command.put key v) f) g (n + 1) (put libs env key v e).1
  put-Moves env key v e f g n fits can shows b h =
      elim (Result-cases (log_operation libs env (Operation.put key v) e).0) [
        | inr (x, refused) ↦ cc (put_refused libs env key v e x refused, h)
        | inl (lsn, logged) ↦ rw (put_logged libs env key v e lsn logged) (
            unfold replay_entry in
            write-Moves env (Operation.put key v) e _ lsn f g n fits logged can shows b
              (rw (put_logged libs env key v e lsn logged) at h))
      ]

  delete-Moves :
      (env : Env) (key : List ℕ) (e : Engine) (f g : Contents) (n : ℕ)
      → DataFit libs env (Operation.delete key) e
      → CanHold (MemTable.delete e.memtable key).0.table
      → Shows libs e f
      → Behind libs strategy g n e
      → (delete libs env key e).0 ≡ ok tt
      → Moves (effect (Command.delete key) f) g (n + 1) (delete libs env key e).1
  delete-Moves env key e f g n fits can shows b h =
      elim (Result-cases (log_operation libs env (Operation.delete key) e).0) [
        | inr (x, refused) ↦ cc (delete_refused libs env key e x refused, h)
        | inl (lsn, logged) ↦ rw (delete_logged libs env key e lsn logged) (
            unfold replay_entry in
            write-Moves env (Operation.delete key) e _ lsn f g n fits logged can shows b
              (rw (delete_logged libs env key e lsn logged) at h))
      ]

  -- After a command that succeeds, the disk has all that the engine shows, or what it had before
  -- and the command waits behind those that did.
  pub execute-Moves :
      (env : Env) (c : Command) (e : Engine) (a : Option (List ℕ)) (f g : Contents) (n : ℕ)
      → CommandFits libs env c e
      → Fits c e.memtable
      → Shows libs e f
      → Behind libs strategy g n e
      → (execute libs env c e).0 ≡ ok a
      → Moves (effect c f) g (n + writes c) (execute libs env c e).1
  unfolding execute
  execute-Moves env (Command.get key) e a f g n width fits shows b h =
      inr (subst (λ k. Behind libs strategy g k e) (omega arith) b)
  execute-Moves env Command.ping e a f g n width fits shows b h =
      inr (subst (λ k. Behind libs strategy g k e) (omega arith) b)
  execute-Moves env (Command.put key v) e a f g n width fits shows b h =
      subst (Moves (effect (Command.put key v) f) g (n + 1))
        (sym (no_value-state libs (put libs env key v e)))
        (put-Moves env key v e f g n width fits shows b
          (no_value-done libs (put libs env key v e) a h))
  execute-Moves env (Command.delete key) e a f g n width fits shows b h =
      subst (Moves (effect (Command.delete key) f) g (n + 1))
        (sym (no_value-state libs (delete libs env key e)))
        (delete-Moves env key e f g n width fits shows b
          (no_value-done libs (delete libs env key e) a h))
