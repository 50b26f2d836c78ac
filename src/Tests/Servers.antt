-- ===== src/Tests/Servers.antt =====
-- A channel of its own, and a server of one worker on it from its start to its return.
use atlas_kv.Base.{
  List, Option, [], arith, false, if◌then◌else◌, length, ltb, none, refl, some, total, ℕ, ◌++◌, ◌+◌,
  ◌<◌, ◌∷◌, ◌≡◌, ◌≤◌,
}
use atlas_kv.Network.Server.Counts.{counted, serves, lives, is_connection, is_panicked}
use atlas_kv.Network.Server.Order.{dispatched, taken, connections, dispatched-taken}
use atlas_kv.Network.Server.Reachable.{run-active, run-open, check_limit-sending, run-returned}
use atlas_kv.Network.Server.Shutdown.{Run-returns}
use atlas_kv.Error.{Result}
use atlas_kv.Network.Channel.{Channel}
use atlas_kv.Network.Server.{
  Server, WorkerMessage, takes, counts, finishes, Answer, Run, main, worker, signal, here, next,
  new, waiting, received, handling, stopped, returned, sending, main_step, worker_step, at_stage,
  spawn, accepted, check_limit, send_message, stop_workers, join_worker, on_message, has_ended,
}

-- The messages with the bound in front of them.
abbrev pub send_list : {M : Type 0} → ℕ × List M → M → Option (ℕ × List M)
send_list (n, ms) m = if ltb (length ms) n then some (n, ms ++ (m ∷ [])) else none

abbrev pub recv_list : {M : Type 0} → ℕ × List M → Option (M × (ℕ × List M))
recv_list (n, []) = none
recv_list (n, m ∷ ms) = some (m, (n, ms))

pub send_list-some :
    {M : Type 0} (q q' : ℕ × List M) (m : M)
    → send_list q m ≡ some q'
    → (q'.1 ≡ q.1 ++ (m ∷ [])) × (q'.0 ≡ q.0) × (length q.1 < q.0)
send_list-some (n, ms) q' m h = ground arith

pub send_list-none : {M : Type 0} (q : ℕ × List M) (m : M) → send_list q m ≡ none → q.0 ≤ length q.1
send_list-none (n, ms) m h = ground arith

pub recv_list-some :
    {M : Type 0} (q q' : ℕ × List M) (m : M)
    → recv_list q ≡ some (m, q')
    → (q.1 ≡ m ∷ q'.1) × (q'.0 ≡ q.0)
recv_list-some (n, []) q' m h = cc
recv_list-some (n, k ∷ ms) q' m h = ground arith

pub recv_list-none : {M : Type 0} (q : ℕ × List M) → recv_list q ≡ none → q.1 ≡ []
recv_list-none (n, []) h = refl
recv_list-none (n, m ∷ ms) h = cc

abbrev pub fifo : Channel WorkerMessage
fifo = record {
  Queue = ℕ × List WorkerMessage;
  bounded = λ n. (n, []);
  send = send_list;
  recv = recv_list;
  contents = λ q. q.1;
  capacity = λ q. q.0;
  contents-bounded = λ n. refl;
  capacity-bounded = λ n pos. refl;
  send-some = send_list-some;
  send-none = send_list-none;
  recv-some = recv_list-some;
  recv-none = recv_list-none;
}

abbrev calm : Answer
calm = record { failure = false; incoming = none }

abbrev arrives : Answer
arrives = record { failure = false; incoming = some 7 }

-- The worker is created, and a connection is accepted and dispatched.
abbrev State : Type 0
State = (s : Server fifo) × Run fifo (new fifo 2 (some 1)) s

abbrev goes :
    (r : State) (answer : Answer) (t : Server fifo) → main_step fifo answer r.0 ≡ some t → State
goes (s, run) answer t e = (t, next run (main answer t e))

unfoldable sent_one : State
unfolding new main_step at_stage spawn accepted check_limit send_message
sent_one =
    let bound = goes (new fifo 2 (some 1), here) calm _ refl in
    let spawned = goes (goes bound calm _ refl) calm _ refl in
    let accepting_one = goes (goes spawned calm _ refl) arrives _ refl in
    goes (goes accepting_one calm _ refl) calm _ refl

-- The worker is inside the connection.
unfoldable handling_one : State
unfolding sent_one new main_step at_stage spawn accepted check_limit send_message worker_step
    on_message
handling_one = (
  _,
  next (next sent_one.1 (worker takes [] [] waiting (received 7) _ refl refl))
      (worker counts [] [] (received 7) (handling 7) _ refl refl),
)

-- A shutdown is signalled meanwhile.
unfoldable signalled : State
signalled = (_, next handling_one.1 signal)

-- The worker finishes, is told to stop, and is joined.
unfoldable finished : State
unfolding signalled handling_one sent_one new main_step at_stage spawn accepted check_limit
    send_message worker_step on_message stop_workers join_worker has_ended
finished =
    let done : State =
      (_, next signalled.1 (worker finishes [] [] (handling 7) waiting _ refl refl)) in
    let told = goes (goes (goes done calm _ refl) calm _ refl) calm _ refl in
    let ended : State = (_, next told.1 (worker takes [] [] waiting stopped _ refl refl)) in
    goes (goes ended calm _ refl) calm _ refl

run-active_example :
    (handling_one.0.active_connections ≡ total counted handling_one.0.workers)
    × (handling_one.0.active_connections ≤ handling_one.0.num_workers)
run-active_example =
    run-active fifo 2 (some 1) (omega arith) (omega arith) (omega arith) handling_one.1

run-open_example :
    total is_connection (fifo.contents handling_one.0.queue) + total serves handling_one.0.workers
    ≤ handling_one.0.max_connections + handling_one.0.num_workers
run-open_example = run-open fifo 2 (some 1) (omega arith) (omega arith) (omega arith) handling_one.1

check_limit-sending_example : check_limit fifo 8 handling_one.0 ≡ sending 8
unfolding handling_one sent_one
check_limit-sending_example =
    check_limit-sending fifo 2 (some 1) (omega arith) (omega arith) (omega arith) handling_one.1 8
      (omega arith)

run-returned_example :
    (total lives finished.0.workers ≡ 0)
    × (total is_panicked finished.0.workers ≡ 0
        → dispatched fifo finished.1 ≡ taken fifo finished.1)
unfolding finished signalled handling_one sent_one new main_step at_stage spawn accepted check_limit
    send_message worker_step on_message stop_workers join_worker has_ended
run-returned_example =
    run-returned fifo 2 (some 1) (omega arith) (omega arith) (omega arith) finished.1 refl

dispatched-taken_example :
    dispatched fifo sent_one.1
    ≡ taken fifo sent_one.1 ++ connections (fifo.contents sent_one.0.queue)
dispatched-taken_example = dispatched-taken fifo 2 (some 1) sent_one.1

Run-returns_example :
    (t : Server fifo) × Run fifo signalled.0 t × (r : Result (Unit {0})) × (t.stage ≡ returned r)
unfolding signalled handling_one sent_one
Run-returns_example =
    Run-returns fifo 2 (some 1) signalled.0 (omega arith) (omega arith) (omega arith) signalled.1
      refl refl
