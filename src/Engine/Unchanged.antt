-- ===== src/Engine/Unchanged.antt =====
-- What no operation of the engine (src/engine.rs) changes: its configuration.
use atlas_kv.Base.{List, ap, arith, inl, inr, refl, ℕ, ◌∙◌, ◌≡◌}
use atlas_kv.Error.{Result-cases}
use atlas_kv.Protocol.Command.{Command}
use atlas_kv.Wal.Entry.{Libraries, Operation}
use atlas_kv.Engine.{
  Engine, Env, flush_internal, flush_if_full, log_operation, after_table, put, delete, execute,
}
use atlas_kv.Engine.Writes.{put_refused, put_logged, delete_refused, delete_logged}
use atlas_kv.Engine.Crash.{no_value-state}

module _ (libs : Libraries) where
  -- No operation changes the configuration.
  pub flush_internal-config :
      (env : Env) (e : Engine) → (flush_internal libs env e).1.config ≡ e.config
  unfolding flush_internal after_table
  flush_internal-config env e = ground arith

  flush_if_full-config :
      (env : Env) (size : ℕ) (e : Engine) → (flush_if_full libs env size e).1.config ≡ e.config
  unfolding flush_if_full
  flush_if_full-config env size e = ground (arith, flush_internal-config env e)

  log_operation-config :
      (env : Env) (operation : Operation) (e : Engine)
      → (log_operation libs env operation e).1.config ≡ e.config
  unfolding log_operation
  log_operation-config env operation e = ground arith

  put-config :
      (env : Env) (key v : List ℕ) (e : Engine) → (put libs env key v e).1.config ≡ e.config
  put-config env key v e =
      let logged = log_operation-config env (Operation.put key v) e in
      elim (Result-cases (log_operation libs env (Operation.put key v) e).0) [
        | inr (x, f) ↦ ap (λ r. r.1.config) (put_refused libs env key v e x f) ∙ logged
        | inl (lsn, f) ↦
            ap (λ r. r.1.config) (put_logged libs env key v e lsn f)
            ∙ flush_if_full-config env _ _
            ∙ logged
      ]

  delete-config :
      (env : Env) (key : List ℕ) (e : Engine) → (delete libs env key e).1.config ≡ e.config
  delete-config env key e =
      let logged = log_operation-config env (Operation.delete key) e in
      elim (Result-cases (log_operation libs env (Operation.delete key) e).0) [
        | inr (x, f) ↦ ap (λ r. r.1.config) (delete_refused libs env key e x f) ∙ logged
        | inl (lsn, f) ↦
            ap (λ r. r.1.config) (delete_logged libs env key e lsn f)
            ∙ flush_if_full-config env _ _
            ∙ logged
      ]

  pub execute-config :
      (env : Env) (command : Command) (e : Engine)
      → (execute libs env command e).1.config ≡ e.config
  unfolding execute
  execute-config env (Command.get key) e = refl
  execute-config env Command.ping e = refl
  execute-config env (Command.put key v) e =
      ap (λ e'. e'.config) (no_value-state libs (put libs env key v e)) ∙ put-config env key v e
  execute-config env (Command.delete key) e =
      ap (λ e'. e'.config) (no_value-state libs (delete libs env key e)) ∙ delete-config env key e
