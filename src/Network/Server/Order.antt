-- ===== src/Network/Server/Order.antt =====
-- The order of connections (src/network/server.rs): those dispatched, taken, and in the channel.
use atlas_kv.Base.{
  Bool-cases, List, Option, [], ap, append-nil, append_assoc, get_elem?, inl, inr, none, refl, some,
  suc, sym, zero, ℕ, ◌++◌, ◌∙◌, ◌∷◌, ◌≡◌,
}
use atlas_kv.Network.Channel.{Channel}
use atlas_kv.Network.Server.{
  WorkerMessage, WorkerState, WorkerEvent, takes, counts, finishes, panics, Answer, Stage,
  new_connection, shutdown, sending, checking, returned, binding, spawning, accepting, limiting,
  stopping, joining, waiting, received, handling, stopped, panicked, Step, Run, main, worker,
  signal, here, next,
}
use atlas_kv.Network.Server.Invariant.{OnSome, on_some}
use atlas_kv.Network.Server as S

abbrev pub connections : List WorkerMessage → List ℕ
connections [] = []
connections (new_connection c ∷ ms) = c ∷ connections ms
connections (shutdown ∷ ms) = connections ms

-- The connection that a step at this stage dispatches, and that a worker's step takes.
abbrev dispatched_at : Stage → List ℕ
dispatched_at (sending c) = c ∷ []
dispatched_at stage = []

abbrev taken_by : WorkerEvent → WorkerState → List ℕ
taken_by takes (received c) = c ∷ []
taken_by event w = []

connections-append :
    (xs ys : List WorkerMessage) → connections (xs ++ ys) ≡ connections xs ++ connections ys
connections-append [] ys = refl
connections-append (new_connection c ∷ xs) ys = ap (λ cs. c ∷ cs) (connections-append xs ys)
connections-append (shutdown ∷ xs) ys = connections-append xs ys

module _ (ch : Channel WorkerMessage) where
  -- The connections dispatched in a run, and those that workers took.
  abbrev pub dispatched : {s t : S.Server ch} → Run ch s t → List ℕ
  dispatched here = []
  dispatched (next {s = s} run (main answer t e)) = dispatched run ++ dispatched_at s.stage
  dispatched (next run step) = dispatched run

  abbrev pub taken : {s t : S.Server ch} → Run ch s t → List ℕ
  taken here = []
  taken (next run (worker event front back w w' t at e)) = taken run ++ taken_by event w'
  taken (next run step) = taken run

  abbrev waiting_in : S.Server ch → List ℕ
  waiting_in s = connections (ch.contents s.queue)

  -- What a step of the thread of `run` adds to the channel.
  Adds : S.Server ch → List ℕ → S.Server ch → Type 0
  Adds s cs t = waiting_in t ≡ waiting_in s ++ cs

  send_message-Adds :
      (s : S.Server ch) (m : WorkerMessage) (stage : Stage)
      → OnSome (Adds s (connections (m ∷ []))) (S.send_message ch s m stage)
  unfolding S.send_message Adds
  send_message-Adds s m stage = go (ch.send s.queue m) refl
    where
      go :
          (r : Option ch.Queue)
          → ch.send s.queue m ≡ r
          → OnSome
              (Adds s (connections (m ∷ [])))
              (elim r [ none ↦ none | some q ↦ some (record s { queue = q; stage = stage }) ])
      go none e = tt
      go (some q) e =
          ap connections (ch.send-some s.queue q m e).0
          ∙ connections-append (ch.contents s.queue) (m ∷ [])

  join_worker-Adds :
      (s : S.Server ch) (i : ℕ) (r : Option WorkerState)
      → OnSome (Adds s []) (S.join_worker ch i s r)
  unfolding S.join_worker S.has_ended Adds
  join_worker-Adds s i none = sym (append-nil _)
  join_worker-Adds s i (some stopped) = sym (append-nil _)
  join_worker-Adds s i (some panicked) = sym (append-nil _)
  join_worker-Adds s i (some waiting) = tt
  join_worker-Adds s i (some (received c)) = tt
  join_worker-Adds s i (some (handling c)) = tt

  at_stage-Adds :
      (answer : Answer) (stage : Stage) (s : S.Server ch)
      → OnSome (Adds s (dispatched_at stage)) (S.at_stage ch answer stage s)
  unfolding S.at_stage S.spawn S.stop_workers Adds
  at_stage-Adds answer binding s = sym (append-nil _)
  at_stage-Adds answer (spawning zero) s = sym (append-nil _)
  at_stage-Adds answer (spawning (suc k)) s = elim (Bool-cases answer.failure) [
    | inl fails ↦ rw fails (sym (append-nil _))
    | inr fine ↦ rw fine (sym (append-nil _))
  ]
  at_stage-Adds answer checking s = sym (append-nil _)
  at_stage-Adds answer accepting s = sym (append-nil _)
  at_stage-Adds answer (limiting c) s = sym (append-nil _)
  at_stage-Adds answer (sending c) s = send_message-Adds s (new_connection c) checking
  at_stage-Adds answer (stopping zero) s = sym (append-nil _)
  at_stage-Adds answer (stopping (suc k)) s = send_message-Adds s shutdown (stopping k)
  at_stage-Adds answer (joining i) s = join_worker-Adds s i (get_elem? s.workers i)
  at_stage-Adds answer (returned r) s = tt

  main_step-waiting :
      (answer : Answer) (s t : S.Server ch)
      → S.main_step ch answer s ≡ some t
      → waiting_in t ≡ waiting_in s ++ dispatched_at s.stage
  unfolding S.main_step Adds
  main_step-waiting answer s t e =
      on_some (Adds s (dispatched_at s.stage)) (S.main_step ch answer s) t
        (at_stage-Adds answer s.stage s) e

  -- What a step of a worker takes off the channel.
  Takes : WorkerEvent → S.Server ch → WorkerState × S.Server ch → Type 0
  Takes event s (w, t) = taken_by event w ++ waiting_in t ≡ waiting_in s

  on_message-Takes :
      (s : S.Server ch) (r : Option (WorkerMessage × ch.Queue))
      → ch.recv s.queue ≡ r
      → OnSome (Takes takes s) (S.on_message ch s r)
  unfolding S.on_message Takes
  on_message-Takes s none e = tt
  on_message-Takes s (some (new_connection c, q)) e =
      sym (ap connections (ch.recv-some s.queue q (new_connection c) e).0)
  on_message-Takes s (some (shutdown, q)) e =
      sym (ap connections (ch.recv-some s.queue q shutdown e).0)

  worker_step-Takes :
      (event : WorkerEvent) (w : WorkerState) (s : S.Server ch)
      → OnSome (Takes event s) (S.worker_step ch event w s)
  unfolding S.worker_step Takes
  worker_step-Takes takes waiting s = on_message-Takes s (ch.recv s.queue) refl
  worker_step-Takes counts (received c) s = refl
  worker_step-Takes finishes (handling c) s = refl
  worker_step-Takes panics (handling c) s = refl
  worker_step-Takes takes (received c) s = tt
  worker_step-Takes takes (handling c) s = tt
  worker_step-Takes takes stopped s = tt
  worker_step-Takes takes panicked s = tt
  worker_step-Takes counts waiting s = tt
  worker_step-Takes counts (handling c) s = tt
  worker_step-Takes counts stopped s = tt
  worker_step-Takes counts panicked s = tt
  worker_step-Takes finishes waiting s = tt
  worker_step-Takes finishes (received c) s = tt
  worker_step-Takes finishes stopped s = tt
  worker_step-Takes finishes panicked s = tt
  worker_step-Takes panics waiting s = tt
  worker_step-Takes panics (received c) s = tt
  worker_step-Takes panics stopped s = tt
  worker_step-Takes panics panicked s = tt

  worker_step-waiting :
      (event : WorkerEvent) (w w' : WorkerState) (s t : S.Server ch)
      → S.worker_step ch event w s ≡ some (w', t)
      → taken_by event w' ++ waiting_in t ≡ waiting_in s
  unfolding Takes
  worker_step-waiting event w w' s t e =
      on_some (Takes event s) (S.worker_step ch event w s) (w', t) (worker_step-Takes event w s) e

  -- In every interleaving of the threads of a new server, the connections dispatched are those
  -- that workers took, in that order, followed by those in the channel.
  pub dispatched-taken :
      (max_connections : ℕ) (parallelism : Option ℕ) {t : S.Server ch}
      (run : Run ch (S.new ch max_connections parallelism) t)
      → dispatched run ≡ taken run ++ connections (ch.contents t.queue)
  unfolding S.new
  dispatched-taken max p here = rw (ch.contents-bounded max)
  dispatched-taken max p (next {s} run (main answer t e)) =
      rw (dispatched-taken max p run, main_step-waiting answer s t e, append_assoc)
  dispatched-taken max p (next {s} run (worker event front back w w' t at e)) =
      rw (dispatched-taken max p run, append_assoc, worker_step-waiting event w w' s t e)
  dispatched-taken max p (next run signal) = dispatched-taken max p run
