-- ===== src/Network/Server/Counts.antt =====
-- What the state of the server (src/network/server.rs) counts: its workers and its messages.
use atlas_kv.Base.{
  List, [], arith, get_elem?, length, none, refl, some, suc, take, total, total-append, zero, ℕ,
  ◌++◌, ◌+◌, ◌∷◌, ◌≡◌, ◌≤◌,
}
use atlas_kv.Error.{ok, err}
use atlas_kv.Network.Server.{
  waiting, Stage, WorkerMessage, WorkerState, new_connection, shutdown, received, handling, stopped,
  panicked, binding, spawning, checking, accepting, limiting, sending, stopping, joining, returned,
}

-- Workers that the counter counts: those inside `handle_connection`, and those that left it by a
-- panic.
abbrev pub counted : WorkerState → ℕ
counted (handling c) = 1
counted panicked = 1
counted w = 0

abbrev pub stops : WorkerState → ℕ
stops stopped = 1
stops w = 0

abbrev pub is_panicked : WorkerState → ℕ
is_panicked panicked = 1
is_panicked w = 0

abbrev pub lives : WorkerState → ℕ
lives stopped = 0
lives panicked = 0
lives w = 1

-- Workers that hold a connection.
abbrev pub serves : WorkerState → ℕ
serves (received c) = 1
serves (handling c) = 1
serves w = 0

abbrev pub is_shutdown : WorkerMessage → ℕ
is_shutdown shutdown = 1
is_shutdown (new_connection c) = 0

abbrev pub is_connection : WorkerMessage → ℕ
is_connection shutdown = 0
is_connection (new_connection c) = 1

pub counted-le : (w : WorkerState) → counted w ≤ 1
counted-le waiting = omega arith
counted-le (received c) = omega arith
counted-le (handling c) = omega arith
counted-le stopped = omega arith
counted-le panicked = omega arith

pub serves-le : (w : WorkerState) → serves w ≤ 1
serves-le waiting = omega arith
serves-le (received c) = omega arith
serves-le (handling c) = omega arith
serves-le stopped = omega arith
serves-le panicked = omega arith

-- The workers still to be spawned, and those of `n` still to be told to stop.
abbrev pub to_spawn : ℕ → Stage → ℕ
to_spawn n binding = n
to_spawn n (spawning k) = k
to_spawn n stage = 0

abbrev pub untold : ℕ → Stage → ℕ
untold n (stopping k) = k
untold n (joining i) = 0
untold n (returned (ok u)) = 0
untold n stage = n

-- The workers joined have ended: the first ones while `run` joins, all once it has returned.
abbrev pub Joined : Stage → List WorkerState → Type 0
Joined (joining i) ws = total lives (take i ws) ≡ 0
Joined (returned (ok u)) ws = total lives ws ≡ 0
Joined stage ws = Unit {0}

-- Every worker is there or still to be spawned, unless a spawn has failed.
abbrev pub Planned : ℕ → Stage → List WorkerState → Type 0
Planned n (returned (err x)) ws = length ws ≤ n
Planned n stage ws = length ws + to_spawn n stage ≡ n

pub Planned-le :
    (n : ℕ) (stage : Stage) (ws : List WorkerState) → Planned n stage ws → length ws ≤ n
Planned-le n (returned (err x)) ws h = h
Planned-le n (returned (ok u)) ws h = omega arith
Planned-le n binding ws h = omega arith
Planned-le n (spawning k) ws h = omega arith
Planned-le n checking ws h = omega arith
Planned-le n accepting ws h = omega arith
Planned-le n (limiting c) ws h = omega arith
Planned-le n (sending c) ws h = omega arith
Planned-le n (stopping k) ws h = omega arith
Planned-le n (joining i) ws h = omega arith

-- It depends on the number of workers only.
pub Planned-length :
    (n : ℕ) (stage : Stage) (ws ws' : List WorkerState)
    → length ws' ≡ length ws
    → Planned n stage ws
    → Planned n stage ws'
Planned-length n (returned (err x)) ws ws' same h = omega arith
Planned-length n (returned (ok u)) ws ws' same h = omega arith
Planned-length n binding ws ws' same h = omega arith
Planned-length n (spawning k) ws ws' same h = omega arith
Planned-length n checking ws ws' same h = omega arith
Planned-length n accepting ws ws' same h = omega arith
Planned-length n (limiting c) ws ws' same h = omega arith
Planned-length n (sending c) ws ws' same h = omega arith
Planned-length n (stopping k) ws ws' same h = omega arith
Planned-length n (joining i) ws ws' same h = omega arith

-- No connection is behind a shutdown message.
abbrev pub Ordered : List WorkerMessage → Type 0
Ordered [] = Unit {0}
Ordered (new_connection c ∷ ms) = Ordered ms
Ordered (shutdown ∷ ms) = (total is_connection ms ≡ 0) × Ordered ms

pub Ordered-connection :
    (c : ℕ) (ms : List WorkerMessage)
    → total is_shutdown ms ≡ 0
    → Ordered ms
    → Ordered (ms ++ (new_connection c ∷ []))
Ordered-connection c [] quiet o = tt
Ordered-connection c (new_connection d ∷ ms) quiet o = Ordered-connection c ms (omega arith) o
Ordered-connection c (shutdown ∷ ms) quiet o = absurd (omega arith)

pub Ordered-shutdown : (ms : List WorkerMessage) → Ordered ms → Ordered (ms ++ (shutdown ∷ []))
Ordered-shutdown [] o = (refl, tt)
Ordered-shutdown (new_connection d ∷ ms) o = Ordered-shutdown ms o
Ordered-shutdown (shutdown ∷ ms) (nothing, o) =
    (omega (arith, total-append is_connection ms (shutdown ∷ [])), Ordered-shutdown ms o)

-- A worker that lives is not among those joined, so that its step keeps them.
pub take-lives :
    (i : ℕ) (front back : List WorkerState) (w w' : WorkerState)
    → lives w ≡ 1
    → total lives (take i (front ++ (w ∷ back))) ≡ 0
    → total lives (take i (front ++ (w' ∷ back))) ≡ 0
take-lives zero front back w w' live h = refl
take-lives (suc i) [] back w w' live h = absurd (omega arith)
take-lives (suc i) (v ∷ front) back w w' live h =
    omega (arith, take-lives i front back w w' live (omega arith))

pub Joined-lives :
    (stage : Stage) (front back : List WorkerState) (w w' : WorkerState)
    → lives w ≡ 1
    → Joined stage (front ++ (w ∷ back))
    → Joined stage (front ++ (w' ∷ back))
Joined-lives (joining i) front back w w' live h = take-lives i front back w w' live h
Joined-lives (returned (ok u)) front back w w' live h =
    absurd (omega (arith, total-append lives front (w ∷ back)))
Joined-lives (returned (err x)) front back w w' live h = tt
Joined-lives binding front back w w' live h = tt
Joined-lives (spawning k) front back w w' live h = tt
Joined-lives checking front back w w' live h = tt
Joined-lives accepting front back w w' live h = tt
Joined-lives (limiting c) front back w w' live h = tt
Joined-lives (sending c) front back w w' live h = tt
Joined-lives (stopping k) front back w w' live h = tt

-- One more worker joined.
pub take-next :
    (i : ℕ) (ws : List WorkerState) (w : WorkerState)
    → get_elem? ws i ≡ some w
    → total lives (take (suc i) ws) ≡ total lives (take i ws) + lives w
take-next i [] w h = cc
take-next zero (v ∷ ws) w h = ground (arith, h)
take-next (suc i) (v ∷ ws) w h = omega (arith, take-next i ws w h)

pub take-all :
    (i : ℕ) (ws : List WorkerState)
    → get_elem? ws i ≡ none
    → total lives (take i ws) ≡ total lives ws
take-all zero [] h = refl
take-all (suc i) [] h = refl
take-all zero (v ∷ ws) h = cc
take-all (suc i) (v ∷ ws) h = omega (arith, take-all i ws h)
