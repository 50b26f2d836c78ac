-- ===== src/Network/Server/Shutdown.antt =====
-- The way of a server (src/network/server.rs) from the shutdown signal to the return of `run`.
use atlas_kv.Base.{
  Bool-cases, List, Option, [], ap, arith, false, get_elem?, inl, inr, leb, length, none, refl,
  some, suc, total, total-append, true, zero, ℕ, ◌++◌, ◌+◌, ◌<◌, ◌^◌, ◌∙◌, ◌∷◌, ◌≡◌, ◌≤◌, ◌⊎◌,
}
use atlas_kv.Error.{ok, Result}
use atlas_kv.Network.Channel.{Channel}
use atlas_kv.Network.Server.{
  WorkerMessage, WorkerState, WorkerEvent, Answer, Stage, new_connection, shutdown, sending,
  checking, returned, binding, spawning, accepting, limiting, stopping, joining, num_cpus, waiting,
  received, handling, stopped, panicked, Step, Run, main, worker, signal, here, next,
}
use atlas_kv.Network.Server.Counts.{lives, is_panicked}
use atlas_kv.Network.Server.Invariant.{Valid}
use atlas_kv.Network.Server.Reachable.{messages_lem, states_lem, Step-Valid, Run-Valid, new-Valid}
use atlas_kv.Network.Server.Progress.{
  rank, Stopping, Progress, stage-Progress, live-Progress, weight, load, measure,
}
use atlas_kv.Network.Server as S

-- Nothing fails, and no connection arrives.
abbrev quiet : Answer
quiet = record { failure = false; incoming = none }

get_elem?-lt :
    (i : ℕ) (ws : List WorkerState) (w : WorkerState)
    → get_elem? ws i ≡ some w
    → (i < length ws) × (lives w ≤ total lives ws)
get_elem?-lt zero [] w h = cc
get_elem?-lt (suc i) [] w h = cc
get_elem?-lt zero (v ∷ ws) w h = (omega arith, ground (arith, h))
get_elem?-lt (suc i) (v ∷ ws) w h =
    let (lt, le) = get_elem?-lt i ws w h in (omega arith, omega arith)

module _ (ch : Channel WorkerMessage) where
  main_step_at :
      (s : S.Server ch) (stage : Stage)
      → s.stage ≡ stage
      → S.main_step ch quiet s ≡ S.at_stage ch quiet stage s
  unfolding S.main_step
  main_step_at s stage at = ap (λ st. S.at_stage ch quiet st s) at

  module _ (s : S.Server ch) (v : Valid ch s) (st : Stopping ch s) where
    -- A full channel is emptied by a live worker.
    full-Progress :
        (m : WorkerMessage) → ch.send s.queue m ≡ none → 0 < total lives s.workers → Progress ch s
    full-Progress m full live =
        live-Progress ch s (omega (arith, ch.send-none s.queue m full, v.capacity, v.pos)) live st

    spawn-Progress : (k : ℕ) → s.stage ≡ spawning (suc k) → Progress ch s
    unfolding S.at_stage S.spawn
    spawn-Progress k at = (
      record s { workers = s.workers ++ (waiting ∷ []); stage = spawning k },
      main quiet _ (main_step_at s (spawning (suc k)) at ∙ refl),
      record {
        flag = st.flag;
        calm = omega (arith, st.calm, total-append is_panicked s.workers (waiting ∷ []));
      },
      rw at (omega (arith, total-append weight s.workers (waiting ∷ []))),
    )

    send-Progress :
        (m : WorkerMessage) (after before : Stage)
        → s.stage ≡ before
        → S.at_stage ch quiet before s ≡ S.send_message ch s m after
        → total load (m ∷ []) + rank s.num_workers after < rank s.num_workers before
        → 0 < total lives s.workers
        → Progress ch s
    unfolding S.send_message
    send-Progress m after before at now less live = go (ch.send s.queue m) refl
      where
        go : (r : Option ch.Queue) → ch.send s.queue m ≡ r → Progress ch s
        go none e = full-Progress m e live
        go (some q) e = (
          record s { queue = q; stage = after },
          main quiet _ (main_step_at s before at ∙ now ∙ rw (e, S.send_message)),
          record { flag = st.flag; calm = st.calm },
          rw at (
              omega (
                arith,
                less,
                ap (total load) (ch.send-some s.queue q m e).0,
                total-append load (ch.contents s.queue) (m ∷ []),
              )),
        )

    move :
        (before after : Stage)
        → s.stage ≡ before
        → S.at_stage ch quiet before s ≡ some (record s { stage = after })
        → rank s.num_workers after < rank s.num_workers before
        → Progress ch s
    move before after at e less =
        stage-Progress ch s quiet after (main_step_at s before at ∙ e) (rw at less) st

    limit-Progress : (c : ℕ) → s.stage ≡ limiting c → Progress ch s
    unfolding S.at_stage S.check_limit
    limit-Progress c at = elim (Bool-cases (leb s.max_connections s.active_connections)) [
      | inl over ↦ move (limiting c) checking at (rw over) (omega arith)
      | inr under ↦ move (limiting c) (sending c) at (rw under) (omega arith)
    ]

    -- A worker that is waited for has its message in the channel.
    join-live : (i : ℕ) → s.stage ≡ joining i → 0 < total lives s.workers → Progress ch s
    join-live i at live =
        live-Progress ch s
          (omega (
            arith,
            live,
            messages_lem (ch.contents s.queue),
            states_lem s.workers,
            st.calm,
            rw at at v.told,
          ))
          live st

    join-Progress :
        (i : ℕ) (r : Option WorkerState)
        → s.stage ≡ joining i
        → get_elem? s.workers i ≡ r
        → Progress ch s
    unfolding S.at_stage S.join_worker S.has_ended
    join-Progress i none at e =
        move (joining i) (returned (ok tt)) at (rw (e, S.join_worker)) (omega arith)
    join-Progress i (some stopped) at e =
        let (lt, live) = get_elem?-lt i s.workers stopped e in
        move (joining i) (joining (suc i)) at (rw (e, S.join_worker))
          (omega (arith, lt, rw at at v.planned))
    join-Progress i (some panicked) at e =
        let (lt, live) = get_elem?-lt i s.workers panicked e in
        move (joining i) (joining (suc i)) at (rw (e, S.join_worker))
          (omega (arith, lt, rw at at v.planned))
    join-Progress i (some waiting) at e =
        join-live i at (omega (arith, (get_elem?-lt i s.workers waiting e).1))
    join-Progress i (some (received c)) at e =
        join-live i at (omega (arith, (get_elem?-lt i s.workers (received c) e).1))
    join-Progress i (some (handling c)) at e =
        join-live i at (omega (arith, (get_elem?-lt i s.workers (handling c) e).1))

    -- The shutdown that has been signalled goes on, or `run` has returned.
    shutdown-Progress :
        (stage : Stage)
        → s.stage ≡ stage
        → ((r : Result (Unit {0})) × (s.stage ≡ returned r)) ⊎ Progress ch s
    unfolding S.at_stage S.spawn S.accepted S.stop_workers
    shutdown-Progress binding at = inr (move binding (spawning s.num_workers) at refl (omega arith))
    shutdown-Progress (spawning zero) at = inr (move (spawning 0) checking at refl (omega arith))
    shutdown-Progress (spawning (suc k)) at = inr (spawn-Progress k at)
    shutdown-Progress checking at = inr (
        move checking (stopping (length s.workers)) at (rw st.flag)
          (omega (arith, rw at at v.planned)))
    shutdown-Progress accepting at = inr (move accepting checking at refl (omega arith))
    shutdown-Progress (limiting c) at = inr (limit-Progress c at)
    shutdown-Progress (sending c) at = inr (
        send-Progress (new_connection c) checking (sending c) at refl (omega arith) (
          omega (
            arith,
            v.some_workers,
            states_lem s.workers,
            st.calm,
            rw at at v.told,
            rw at at v.planned,
          )))
    shutdown-Progress (stopping zero) at = inr (move (stopping 0) (joining 0) at refl (omega arith))
    shutdown-Progress (stopping (suc k)) at = inr (
        send-Progress shutdown (stopping k) (stopping (suc k)) at refl (omega arith)
          (omega (arith, states_lem s.workers, st.calm, rw at at v.told)))
    shutdown-Progress (joining i) at = inr (join-Progress i (get_elem? s.workers i) at refl)
    shutdown-Progress (returned r) at = inl (r, at)

  -- The steps that are left, as many as the measure allows.
  finish :
      (fuel : ℕ) (from s : S.Server ch)
      → Run ch from s
      → Valid ch s
      → Stopping ch s
      → measure ch s < fuel
      → (t : S.Server ch) × Run ch from t × (r : Result (Unit {0})) × (t.stage ≡ returned r)
  finish zero from s run v st less = absurd (omega arith)
  finish (suc fuel) from s run v st less = elim (shutdown-Progress s v st s.stage refl) [
    | inl (r, at) ↦ (s, run, r, at)
    | inr (t, step, st', smaller) ↦
        finish fuel from t (next run step) (Step-Valid ch v step) st' (omega arith)
  ]

  -- From every state that a server with workers and with room for connections can reach, in which
  -- the shutdown has been signalled and no worker has panicked, some steps of its threads lead to
  -- the return of run: it is never stuck on a full channel or on a worker that waits.
  pub Run-returns :
      (max_connections : ℕ) (parallelism : Option ℕ) (s : S.Server ch)
      → 0 < max_connections
      → 0 < num_cpus parallelism
      → num_cpus parallelism < 2 ^ 64
      → Run ch (S.new ch max_connections parallelism) s
      → s.shutdown_flag ≡ true
      → total is_panicked s.workers ≡ 0
      → (t : S.Server ch) × Run ch s t × (r : Result (Unit {0})) × (t.stage ≡ returned r)
  Run-returns max p s pos some_workers small run flag calm =
      finish (suc (measure ch s)) s s here
        (Run-Valid ch (new-Valid ch max p pos some_workers small) run)
        (record { flag = flag; calm = calm }) (omega arith)
