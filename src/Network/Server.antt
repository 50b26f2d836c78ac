-- ===== src/Network/Server.antt =====
-- src/network/server.rs: the thread that accepts connections, the workers, and the channel between
-- them. A connection is a number. Each access to what the threads share is a step of its own, and
-- the steps of the threads interleave in any order. The log messages, the sleep between two polls,
-- the timeouts of a connection and the socket's address are left out.
pub mod Counts
pub mod Invariant
pub mod Workers
pub mod Threads
pub mod Shutdown
pub mod Progress
pub mod Order
pub mod Reachable
use atlas_kv.Base.{
  Bool, List, Option, [], false, get_elem?, if◌then◌else◌, leb, length, none, some, suc, true, zero,
  ℕ, ◌%◌, ◌++◌, ◌+◌, ◌-◌, ◌^◌, ◌∷◌, ◌≡◌,
}
use atlas_kv.Error.{Result, ok, err, network}
use atlas_kv.Network.Channel.{Channel}

pub data WorkerMessage : Type 0 where
  new_connection : ℕ → WorkerMessage
  shutdown : WorkerMessage

-- Where a worker is: at `recv`, behind it with a connection, inside `handle_connection` with the
-- connection counted, or at an end of its thread.
pub data WorkerState : Type 0 where
  waiting : WorkerState
  received : ℕ → WorkerState
  handling : ℕ → WorkerState
  stopped : WorkerState
  panicked : WorkerState

-- Where the thread of `run` is. The number is that of the workers to spawn, the connection, the
-- shutdown messages to send, or the worker to join.
pub data Stage : Type 0 where
  binding : Stage
  spawning : ℕ → Stage
  checking : Stage
  accepting : Stage
  limiting : ℕ → Stage
  sending : ℕ → Stage
  stopping : ℕ → Stage
  joining : ℕ → Stage
  returned : Result (Unit {0}) → Stage

-- What the operating system answers to the thread of `run`: whether the call fails, and the
-- connection that `accept` finds, if there is one.
pub record Answer : Type 0 where
  pub failure : Bool
  pub incoming : Option ℕ

-- `finishes`: `Connection::new` has failed, or `handle` has returned.
pub data WorkerEvent : Type 0 where
  takes : WorkerEvent
  counts : WorkerEvent
  finishes : WorkerEvent
  panics : WorkerEvent

-- `available_parallelism` or 4.
abbrev pub num_cpus : Option ℕ → ℕ
num_cpus (some n) = n
num_cpus none = 4

unfoldable pub has_ended : WorkerState → Bool
has_ended stopped = true
has_ended panicked = true
has_ended w = false

-- `accept`: an error, of whatever kind, is polled again.
unfoldable pub accepted : Answer → Stage
accepted answer = elim answer.incoming [
  | none ↦ checking
  | some c ↦ if answer.failure then checking else limiting c
]

module _ (ch : Channel WorkerMessage) where
  pub record Server : Type 0 where
    pub max_connections : ℕ
    pub num_workers : ℕ
    pub queue : ch.Queue
    pub active_connections : ℕ
    pub shutdown_flag : Bool
    pub workers : List WorkerState
    pub stage : Stage

  unfoldable pub new : ℕ → Option ℕ → Server
  new max_connections parallelism = record {
    max_connections = max_connections;
    num_workers = num_cpus parallelism;
    queue = ch.bounded max_connections;
    active_connections = 0;
    shutdown_flag = false;
    workers = [];
    stage = binding;
  }

  -- `sender.send`: `none` while it blocks.
  unfoldable pub send_message : Server → WorkerMessage → Stage → Option Server
  send_message s m next = elim (ch.send s.queue m) [
    | none ↦ none
    | some q ↦ some (record s { queue = q; stage = next })
  ]

  abbrev go_to : Server → Stage → Option Server
  go_to s next = some (record s { stage = next })

  -- The creation of the workers.
  unfoldable pub spawn : Answer → ℕ → Server → Option Server
  spawn answer zero s = go_to s checking
  spawn answer (suc k) s = some (
      if answer.failure
      then record s { stage = returned (err network) }
      else record s { workers = s.workers ++ (waiting ∷ []); stage = spawning k })

  unfoldable pub check_limit : ℕ → Server → Stage
  check_limit c s = if leb s.max_connections s.active_connections then checking else sending c

  -- A shutdown message for each worker, and then a join of each.
  unfoldable pub stop_workers : ℕ → Server → Option Server
  unfolding send_message
  stop_workers zero s = go_to s (joining 0)
  stop_workers (suc k) s = send_message s shutdown (stopping k)

  unfoldable pub join_worker : ℕ → Server → Option WorkerState → Option Server
  unfolding has_ended
  join_worker i s none = go_to s (returned (ok tt))
  join_worker i s (some w) = if has_ended w then go_to s (joining (suc i)) else none

  unfoldable pub at_stage : Answer → Stage → Server → Option Server
  unfolding spawn accepted check_limit send_message stop_workers join_worker
  at_stage answer binding s =
      go_to s (if answer.failure then returned (err network) else spawning s.num_workers)
  at_stage answer (spawning k) s = spawn answer k s
  at_stage answer checking s =
      go_to s (if s.shutdown_flag then stopping (length s.workers) else accepting)
  at_stage answer accepting s = go_to s (accepted answer)
  at_stage answer (limiting c) s = go_to s (check_limit c s)
  at_stage answer (sending c) s = send_message s (new_connection c) checking
  at_stage answer (stopping k) s = stop_workers k s
  at_stage answer (joining i) s = join_worker i s (get_elem? s.workers i)
  at_stage answer (returned r) s = none

  -- A step of the thread of `run`.
  unfoldable pub main_step : Answer → Server → Option Server
  unfolding at_stage
  main_step answer s = at_stage answer s.stage s

  -- `receiver.recv`: `none` while it blocks. The sender is kept by the server, so that no worker
  -- finds the channel closed while `run` runs.
  unfoldable pub on_message :
      Server → Option (WorkerMessage × ch.Queue) → Option (WorkerState × Server)
  on_message s none = none
  on_message s (some (new_connection c, q)) = some (received c, record s { queue = q })
  on_message s (some (shutdown, q)) = some (stopped, record s { queue = q })

  -- A step of a worker: `run` and `handle_connection`.
  unfoldable pub worker_step : WorkerEvent → WorkerState → Server → Option (WorkerState × Server)
  unfolding on_message
  worker_step takes waiting s = on_message s (ch.recv s.queue)
  worker_step counts (received c) s =
      some (handling c, record s { active_connections = (s.active_connections + 1) % 2 ^ 64 })
  worker_step finishes (handling c) s =
      some
        (waiting, record s { active_connections = (s.active_connections + (2 ^ 64 - 1)) % 2 ^ 64 })
  worker_step panics (handling c) s = some (panicked, s)
  worker_step event w s = none

  -- One step of one thread. `Server::shutdown` may be called at any time.
  pub data Step (s : Server) : Server → Type 0 where
    main : (answer : Answer) (t : Server) → main_step answer s ≡ some t → Step s t
    worker :
        (event : WorkerEvent) (front back : List WorkerState) (w w' : WorkerState) (t : Server)
        → s.workers ≡ front ++ (w ∷ back)
        → worker_step event w s ≡ some (w', t)
        → Step s (record t { workers = front ++ (w' ∷ back) })
    signal : Step s (record s { shutdown_flag = true })

  pub data Run (from : Server) : Server → Type 0 where
    here : Run from from
    next : {s t : Server} → Run from s → Step s t → Run from t
