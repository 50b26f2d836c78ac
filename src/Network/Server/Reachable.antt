-- ===== src/Network/Server/Reachable.antt =====
-- The states that the server (src/network/server.rs) can reach, and what holds of them.
use atlas_kv.Base.{
  List, Option, [], ap, append-nil, arith, length, lt→leb, refl, total, total-le_length, ℕ, ◌++◌,
  ◌+◌, ◌<◌, ◌^◌, ◌∙◌, ◌∷◌, ◌≡◌, ◌≤◌,
}
use atlas_kv.Error.{ok}
use atlas_kv.Network.Channel.{Channel}
use atlas_kv.Network.Server.{
  WorkerMessage, WorkerState, WorkerEvent, Answer, Stage, new_connection, shutdown, sending,
  checking, returned, num_cpus, waiting, received, handling, stopped, panicked, Step, Run, main,
  worker, signal, here, next,
}
use atlas_kv.Network.Server.Counts.{
  counted, stops, lives, serves, is_shutdown, is_connection, is_panicked, Planned-le, counted-le,
  serves-le,
}
use atlas_kv.Network.Server.Invariant.{on_some, Valid}
use atlas_kv.Network.Server.Threads.{main_step-Valid}
use atlas_kv.Network.Server.Workers.{worker_step-Valid, placed}
use atlas_kv.Network.Server.Order.{dispatched, taken, connections, dispatched-taken}
use atlas_kv.Network.Server as S

pub messages_lem :
    (ms : List WorkerMessage) → length ms ≡ total is_connection ms + total is_shutdown ms
messages_lem [] = omega arith
messages_lem (new_connection c ∷ ms) = omega (arith, messages_lem ms)
messages_lem (shutdown ∷ ms) = omega (arith, messages_lem ms)

pub states_lem :
    (ws : List WorkerState) → length ws ≡ total lives ws + total stops ws + total is_panicked ws
states_lem [] = omega arith
states_lem (waiting ∷ ws) = omega (arith, states_lem ws)
states_lem (received c ∷ ws) = omega (arith, states_lem ws)
states_lem (handling c ∷ ws) = omega (arith, states_lem ws)
states_lem (stopped ∷ ws) = omega (arith, states_lem ws)
states_lem (panicked ∷ ws) = omega (arith, states_lem ws)

no_messages : (ms : List WorkerMessage) → length ms ≡ 0 → ms ≡ []
no_messages [] h = refl
no_messages (m ∷ ms) h = absurd (omega arith)

module _ (ch : Channel WorkerMessage) where
  -- A new server satisfies the invariant.
  pub new-Valid :
      (max_connections : ℕ) (parallelism : Option ℕ)
      → 0 < max_connections
      → 0 < num_cpus parallelism
      → num_cpus parallelism < 2 ^ 64
      → Valid ch (S.new ch max_connections parallelism)
  unfolding S.new
  new-Valid max p pos some_workers small = record {
    active = refl;
    planned = omega arith;
    small = small;
    some_workers = some_workers;
    pos = pos;
    told = rw (ch.contents-bounded max) refl;
    ordered = rw (ch.contents-bounded max) tt;
    drained = λ h. absurd (omega arith);
    capacity = ch.capacity-bounded max pos;
    bounded = rw (ch.contents-bounded max) (omega arith);
    joined = tt;
  }

  pub Step-Valid : {s t : S.Server ch} → Valid ch s → Step ch s t → Valid ch t
  Step-Valid {s} v (main answer t e) =
      on_some (Valid ch) (S.main_step ch answer s) t (main_step-Valid ch answer s v) e
  Step-Valid {s} v (worker event front back w w' t at e) =
      on_some (λ p. Valid ch (placed ch front back p)) (S.worker_step ch event w s) (w', t)
        (worker_step-Valid ch event w s front back at v) e
  Step-Valid {s} v signal = record {
    active = v.active;
    planned = v.planned;
    small = v.small;
    some_workers = v.some_workers;
    pos = v.pos;
    told = v.told;
    ordered = v.ordered;
    drained = v.drained;
    capacity = v.capacity;
    bounded = v.bounded;
    joined = v.joined;
  }

  -- What any interleaving of the threads' steps keeps.
  pub Run-Valid : {s t : S.Server ch} → Valid ch s → Run ch s t → Valid ch t
  Run-Valid v here = v
  Run-Valid v (next run step) = Step-Valid (Run-Valid v run) step

  module _ (max_connections : ℕ) (parallelism : Option ℕ) (pos : 0 < max_connections)
      (some_workers : 0 < num_cpus parallelism) (small : num_cpus parallelism < 2 ^ 64)
      {t : S.Server ch} (run : Run ch (S.new ch max_connections parallelism) t) where
    reached : Valid ch t
    reached = Run-Valid (new-Valid max_connections parallelism pos some_workers small) run

    -- For a server with workers, fewer than 2 ^ 64, and with room for connections, in every
    -- interleaving of its threads: the counter of active connections is the number of workers
    -- inside a connection together with those that a panic took there, and is at most the number
    -- of workers.
    pub run-active :
        (t.active_connections ≡ total counted t.workers) × (t.active_connections ≤ t.num_workers)
    run-active = (
      reached.active,
      omega (
        arith,
        reached.active,
        total-le_length counted t.workers counted-le,
        Planned-le t.num_workers t.stage t.workers reached.planned,
      ),
    )

    -- For a server with workers, fewer than 2 ^ 64, and with room for connections, in every
    -- interleaving of its threads: the connections in the channel and at the workers are at most
    -- the allowed number and the number of workers together.
    pub run-open :
        total is_connection (ch.contents t.queue) + total serves t.workers
        ≤ t.max_connections + t.num_workers
    run-open = omega (
      arith,
      reached.bounded,
      messages_lem (ch.contents t.queue),
      total-le_length serves t.workers serves-le,
      Planned-le t.num_workers t.stage t.workers reached.planned,
    )

    -- In every interleaving of the threads of a server with workers, fewer than the connections
    -- allowed and than 2 ^ 64: the limit on connections refuses none.
    pub check_limit-sending :
        (c : ℕ) → t.num_workers < t.max_connections → S.check_limit ch c t ≡ sending c
    unfolding S.check_limit
    check_limit-sending c few =
        rw (lt→leb t.max_connections t.active_connections (omega (arith, run-active.1)))

    no_message_left :
        t.stage ≡ returned (ok tt) → total is_panicked t.workers ≡ 0 → ch.contents t.queue ≡ []
    no_message_left at calm =
        let ended = rw at at reached.joined in
        let planned = rw at at reached.planned in
        let states = states_lem t.workers in
        no_messages (ch.contents t.queue) (
          omega (
            arith,
            messages_lem (ch.contents t.queue),
            rw at at reached.told,
            reached.drained (omega (arith, reached.some_workers)),
          ))

    -- For a server with workers and with room for connections, in every interleaving of its
    -- threads: when run has returned without an error, every worker has ended, and where none of
    -- them ended by a panic the workers have taken every connection that was dispatched, in that
    -- order.
    pub run-returned :
        t.stage ≡ returned (ok tt)
        → (total lives t.workers ≡ 0)
          × (total is_panicked t.workers ≡ 0 → dispatched ch run ≡ taken ch run)
    run-returned at = (
      rw at at reached.joined,
      λ calm.
          dispatched-taken ch max_connections parallelism run
          ∙ ap (λ ms. taken ch run ++ connections ms) (no_message_left at calm)
          ∙ append-nil (taken ch run),
    )
