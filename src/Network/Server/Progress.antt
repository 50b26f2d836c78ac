-- ===== src/Network/Server/Progress.antt =====
-- Threads of the server (src/network/server.rs) on the way to a shutdown: a measure of what is left
-- to do, and a step that lessens it.
use atlas_kv.Base.{
  List, Option, [], ap, arith, length, none, refl, some, total, total-append, true, ℕ, ◌*◌, ◌++◌,
  ◌+◌, ◌-◌, ◌<◌, ◌∙◌, ◌∷◌, ◌≡◌,
}
use atlas_kv.Network.Channel.{Channel}
use atlas_kv.Network.Server.{
  WorkerMessage, WorkerState, WorkerEvent, takes, counts, finishes, panics, Answer, Stage,
  new_connection, shutdown, sending, checking, returned, binding, spawning, accepting, limiting,
  stopping, joining, waiting, received, handling, stopped, panicked, Step, Run, main, worker,
  signal, here, next,
}
use atlas_kv.Network.Server.Counts.{lives, is_panicked}
use atlas_kv.Network.Server as S

-- Steps that each part still has before it, at most.
abbrev pub weight : WorkerState → ℕ
weight waiting = 1
weight (received c) = 3
weight (handling c) = 2
weight stopped = 0
weight panicked = 0

abbrev pub load : WorkerMessage → ℕ
load (new_connection c) = 3
load shutdown = 0

abbrev pub rank : ℕ → Stage → ℕ
rank n binding = 4 * n + 5
rank n (spawning k) = 2 * n + 4 + 2 * k
rank n (limiting c) = 2 * n + 8
rank n (sending c) = 2 * n + 7
rank n accepting = 2 * n + 4
rank n checking = 2 * n + 3
rank n (stopping k) = n + 2 + k
rank n (joining i) = n - i + 1
rank n (returned r) = 0

-- A list with a live worker has it in some place.
live_worker :
    (ws : List WorkerState)
    → 0 < total lives ws
    → (front : List WorkerState) × (w : WorkerState) × (back : List WorkerState) × (ws
        ≡ front ++ (w ∷ back))
      × (lives w ≡ 1)
live_worker [] h = absurd (omega arith)
live_worker (waiting ∷ ws) h = ([], waiting, ws, refl, refl)
live_worker (received c ∷ ws) h = ([], received c, ws, refl, refl)
live_worker (handling c ∷ ws) h = ([], handling c, ws, refl, refl)
live_worker (stopped ∷ ws) h =
    let (front, w, back, e, live) = live_worker ws (omega arith) in
    (stopped ∷ front, w, back, ap (λ vs. stopped ∷ vs) e, live)
live_worker (panicked ∷ ws) h =
    let (front, w, back, e, live) = live_worker ws (omega arith) in
    (panicked ∷ front, w, back, ap (λ vs. panicked ∷ vs) e, live)

module _ (ch : Channel WorkerMessage) where
  abbrev pub measure : S.Server ch → ℕ
  measure s = rank s.num_workers s.stage + total load (ch.contents s.queue) + total weight s.workers

  -- The shutdown has been signalled, and no worker has panicked.
  pub record Stopping (s : S.Server ch) : Type 0 where
    pub flag : s.shutdown_flag ≡ true
    pub calm : total is_panicked s.workers ≡ 0

  abbrev pub Progress : S.Server ch → Type 0
  Progress s = (t : S.Server ch) × Step ch s t × Stopping t × (measure t < measure s)

  -- A step of the thread of `run` that changes its stage only.
  pub stage-Progress :
      (s : S.Server ch) (answer : Answer) (stage : Stage)
      → S.main_step ch answer s ≡ some (record s { stage = stage })
      → rank s.num_workers stage < rank s.num_workers s.stage
      → Stopping s
      → Progress s
  stage-Progress s answer stage e less st = (
    record s { stage = stage },
    main answer (record s { stage = stage }) e,
    record { flag = st.flag; calm = st.calm },
    omega arith,
  )

  worker-Progress :
      (s t : S.Server ch) (event : WorkerEvent) (front back : List WorkerState) (w w' : WorkerState)
      → s.workers ≡ front ++ (w ∷ back)
      → S.worker_step ch event w s ≡ some (w', t)
      → t.num_workers ≡ s.num_workers
      → t.stage ≡ s.stage
      → t.shutdown_flag ≡ s.shutdown_flag
      → is_panicked w' ≡ 0
      → total load (ch.contents t.queue) + weight w' < total load (ch.contents s.queue) + weight w
      → Stopping s
      → Progress s
  worker-Progress s t event front back w w' at e n stage flag calm less st = (
    record t { workers = front ++ (w' ∷ back) },
    worker event front back w w' t at e,
    record {
      flag = flag ∙ st.flag;
      calm = omega (
        arith,
        st.calm,
        calm,
        ap (total is_panicked) at,
        total-append is_panicked front (w ∷ back),
        total-append is_panicked front (w' ∷ back),
      );
    },
    omega (
      arith,
      less,
      ap (rank s.num_workers) stage,
      ap (λ k. rank k t.stage) n,
      ap (total weight) at,
      total-append weight front (w ∷ back),
      total-append weight front (w' ∷ back),
    ),
  )

  -- A live worker can step, if a message waits for it.
  pub live-Progress :
      (s : S.Server ch)
      → 0 < length (ch.contents s.queue)
      → 0 < total lives s.workers
      → Stopping s
      → Progress s
  unfolding S.worker_step S.on_message
  live-Progress s messages live st =
      let (front, w, back, at, alive) = live_worker s.workers live in go front back w at alive
    where
      receive :
          (front back : List WorkerState)
          → s.workers ≡ front ++ (waiting ∷ back)
          → (r : Option (WorkerMessage × ch.Queue)) → ch.recv s.queue ≡ r
          → Progress s
      receive front back at none e =
          let empty = ch.recv-none s.queue e in absurd (omega (arith, messages, ap length empty))
      receive front back at (some (new_connection c, q)) e =
          worker-Progress s (record s { queue = q }) takes front back waiting (received c) at
            (ap (S.on_message ch s) e) refl refl refl refl
            (omega (arith, ap (total load) (ch.recv-some s.queue q (new_connection c) e).0)) st
      receive front back at (some (shutdown, q)) e =
          worker-Progress s (record s { queue = q }) takes front back waiting stopped at
            (ap (S.on_message ch s) e) refl refl refl refl
            (omega (arith, ap (total load) (ch.recv-some s.queue q shutdown e).0)) st

      go :
          (front back : List WorkerState) (w : WorkerState)
          → s.workers ≡ front ++ (w ∷ back)
          → lives w ≡ 1
          → Progress s
      go front back waiting at alive = receive front back at (ch.recv s.queue) refl
      go front back (received c) at alive =
          worker-Progress s _ counts front back (received c) (handling c) at refl refl refl refl
            refl (omega arith) st
      go front back (handling c) at alive =
          worker-Progress s _ finishes front back (handling c) waiting at refl refl refl refl refl
            (omega arith) st
      go front back stopped at alive = absurd (omega arith)
      go front back panicked at alive = absurd (omega arith)
