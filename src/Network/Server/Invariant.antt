-- ===== src/Network/Server/Invariant.antt =====
-- The invariant of the server (src/network/server.rs), and the changes that keep it.
use atlas_kv.Base.{
  Option, [], arith, length, length-append, none, some, subst, suc, total, total-append, ℕ, ◌++◌,
  ◌+◌, ◌<◌, ◌^◌, ◌∙◌, ◌∷◌, ◌≡◌, ◌≤◌,
}
use atlas_kv.Network.Channel.{Channel}
use atlas_kv.Network.Server.{
  Stage, Answer, WorkerMessage, WorkerState, new_connection, shutdown, waiting, received, handling,
  stopped, panicked, binding, spawning, checking, accepting, limiting, sending, stopping, joining,
  returned,
}
use atlas_kv.Network.Server.Counts.{
  counted, stops, is_shutdown, is_connection, untold, Planned, Joined, Ordered, Ordered-connection,
  Ordered-shutdown,
}
use atlas_kv.Network.Server as S

-- The predicate holds of what an operation returns, if it returns.
abbrev pub OnSome {ℓ κ} : {A : Type ℓ} → (A → Type κ) → Option A → Type κ
OnSome P none = Unit
OnSome P (some x) = P x

pub on_some : {A : Type 0} (P : A → Type 0) (r : Option A) (x : A) → OnSome P r → r ≡ some x → P x
on_some P r x p e = subst (OnSome P) e p

module _ (ch : Channel WorkerMessage) where
  -- The counter counts the workers inside a connection, and those that a panic took there. Every
  -- worker is there or still to be spawned. The shutdown messages sent are in the channel or have stopped
  -- a worker. No connection is behind a shutdown message, and none is left once a worker has
  -- stopped. There are workers, and the
  -- channel has room for a message and keeps its bound. The workers joined have ended.
  pub record Valid (s : S.Server ch) : Type 0 where
    pub active : s.active_connections ≡ total counted s.workers
    pub planned : Planned s.num_workers s.stage s.workers
    pub small : s.num_workers < 2 ^ 64
    pub some_workers : 0 < s.num_workers
    pub pos : 0 < s.max_connections
    pub told :
        total is_shutdown (ch.contents s.queue)
          + total stops s.workers
          + untold (length s.workers) s.stage
        ≡ length s.workers
    pub ordered : Ordered (ch.contents s.queue)
    pub drained : 0 < total stops s.workers → total is_connection (ch.contents s.queue) ≡ 0
    pub capacity : ch.capacity s.queue ≡ s.max_connections
    pub bounded : length (ch.contents s.queue) ≤ s.max_connections
    pub joined : Joined s.stage s.workers

  -- The stages follow each other so that the counts agree.
  pub go_to-Valid :
      (s : S.Server ch) (next : Stage)
      → Valid s
      → Planned s.num_workers next s.workers
      → untold (length s.workers) next ≡ untold (length s.workers) s.stage
      → Joined next s.workers
      → Valid (record s { stage = next })
  go_to-Valid s next v spawned messages join = record {
    active = v.active;
    planned = spawned;
    small = v.small;
    some_workers = v.some_workers;
    pos = v.pos;
    told = omega (arith, v.told);
    ordered = v.ordered;
    drained = v.drained;
    capacity = v.capacity;
    bounded = v.bounded;
    joined = join;
  }

  -- A new worker waits.
  pub spawn-Valid :
      (s : S.Server ch) (k : ℕ)
      → s.stage ≡ spawning (suc k)
      → Valid s
      → Valid (record s { workers = s.workers ++ (waiting ∷ []); stage = spawning k })
  spawn-Valid s k at v =
      let n = length-append s.workers (waiting ∷ []) in
      let none_stopped = total-append stops s.workers (waiting ∷ []) in
      record {
        active = omega (arith, v.active, total-append counted s.workers (waiting ∷ []));
        planned = omega (arith, n, rw at at v.planned);
        small = v.small;
        some_workers = v.some_workers;
        pos = v.pos;
        told = omega (arith, n, none_stopped, rw at at v.told);
        ordered = v.ordered;
        drained = λ h. v.drained (omega (arith, none_stopped));
        capacity = v.capacity;
        bounded = v.bounded;
        joined = tt;
      }

  -- A connection that is sent is the last in the channel, where no shutdown message is.
  pub dispatch-Valid :
      (s : S.Server ch) (c : ℕ) (q : ch.Queue)
      → s.stage ≡ sending c
      → ch.send s.queue (new_connection c) ≡ some q
      → Valid s
      → Valid (record s { queue = q; stage = checking })
  dispatch-Valid s c q at e v =
      let (now, same, room) = ch.send-some s.queue q (new_connection c) e in
      let told = rw at at v.told in
      let ms = ch.contents s.queue in
      let more = total-append is_shutdown ms (new_connection c ∷ []) in
      record {
        active = v.active;
        planned = rw at at v.planned;
        small = v.small;
        some_workers = v.some_workers;
        pos = v.pos;
        told = rw now (omega (arith, told, more));
        ordered = rw now (Ordered-connection c ms (omega (arith, told)) v.ordered);
        drained = λ h. absurd (omega (arith, told));
        capacity = same ∙ v.capacity;
        bounded =
            rw now (omega (arith, room, v.capacity, length-append ms (new_connection c ∷ [])));
        joined = tt;
      }

  pub tell-Valid :
      (s : S.Server ch) (k : ℕ) (q : ch.Queue)
      → s.stage ≡ stopping (suc k)
      → ch.send s.queue shutdown ≡ some q
      → Valid s
      → Valid (record s { queue = q; stage = stopping k })
  tell-Valid s k q at e v =
      let (now, same, room) = ch.send-some s.queue q shutdown e in
      let ms = ch.contents s.queue in
      record {
        active = v.active;
        planned = rw at at v.planned;
        small = v.small;
        some_workers = v.some_workers;
        pos = v.pos;
        told = rw now (omega (arith, rw at at v.told, total-append is_shutdown ms (shutdown ∷ [])));
        ordered = rw now (Ordered-shutdown ms v.ordered);
        drained =
            λ h. rw now (omega (arith, v.drained h, total-append is_connection ms (shutdown ∷ [])));
        capacity = same ∙ v.capacity;
        bounded = rw now (omega (arith, room, v.capacity, length-append ms (shutdown ∷ [])));
        joined = tt;
      }
