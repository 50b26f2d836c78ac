-- ===== src/Network/Server/Workers.antt =====
-- The steps of a worker (`Worker::run` and `handle_connection` of src/network/server.rs), and the
-- invariant.
use atlas_kv.Base.{
  List, Option, ap, arith, length, length-append, none, refl, some, total, total-append,
  total-le_length, ℕ, ◌++◌, ◌+◌, ◌<◌, ◌^◌, ◌∙◌, ◌∷◌, ◌≡◌, ◌≤◌,
}
use atlas_kv.Network.Channel.{Channel}
use atlas_kv.Network.Server.{
  WorkerMessage, WorkerState, WorkerEvent, takes, counts, finishes, panics, new_connection,
  shutdown, waiting, received, handling, stopped, panicked,
}
use atlas_kv.Network.Server.Counts.{
  counted, stops, lives, is_shutdown, is_connection, Ordered, Joined-lives, Planned-le,
  Planned-length, counted-le,
}
use atlas_kv.Network.Server.Invariant.{Valid, OnSome}
use atlas_kv.Network.Server as S

lives-stops : (w : WorkerState) → lives w ≡ 1 → stops w ≡ 0
lives-stops waiting h = refl
lives-stops (received c) h = refl
lives-stops (handling c) h = refl
lives-stops stopped h = absurd (omega arith)
lives-stops panicked h = absurd (omega arith)

module _ (ch : Channel WorkerMessage) where
  -- The worker in this place has changed, and with it the channel and the counter.
  abbrev pub placed : List WorkerState → List WorkerState → WorkerState × S.Server ch → S.Server ch
  placed front back (w, s) = record s { workers = front ++ (w ∷ back) }

  module _ (s : S.Server ch) (front back : List WorkerState) (w : WorkerState)
      (here : s.workers ≡ front ++ (w ∷ back)) (v : Valid ch s) where
    -- A worker that lives changes its state, and the counter and the messages change as it does.
    placed-Valid :
        (w' : WorkerState) (q : ch.Queue) (active : ℕ)
        → lives w ≡ 1
        → active + counted w ≡ s.active_connections + counted w'
        → total is_shutdown (ch.contents q) + stops w' ≡ total is_shutdown (ch.contents s.queue)
        → Ordered (ch.contents q)
        → (0 < total stops front + stops w' + total stops back
            → total is_connection (ch.contents q) ≡ 0)
        → ch.capacity q ≡ s.max_connections
        → length (ch.contents q) ≤ s.max_connections
        → Valid ch (placed front back (w', record s { queue = q; active_connections = active }))
    placed-Valid w' q active live counter messages ordered drained capacity bounded =
        let same : length (front ++ (w' ∷ back)) ≡ length s.workers =
          rw here
            (omega (arith, length-append front (w ∷ back), length-append front (w' ∷ back))) in
        let stops_before = total-append stops front (w ∷ back) in
        let stops_after = total-append stops front (w' ∷ back) in
        record {
          active = omega (
            arith,
            counter,
            rw here at v.active,
            total-append counted front (w ∷ back),
            total-append counted front (w' ∷ back),
          );
          planned =
              Planned-length s.num_workers s.stage s.workers (front ++ (w' ∷ back)) same v.planned;
          small = v.small;
          some_workers = v.some_workers;
          pos = v.pos;
          told = rw same (
              omega (
                arith,
                v.told,
                messages,
                ap (total stops) here,
                lives-stops w live,
                stops_before,
                stops_after,
              ));
          ordered = ordered;
          drained = λ h. drained (omega (arith, stops_after));
          capacity = capacity;
          bounded = bounded;
          joined = Joined-lives s.stage front back w w' live (rw here at v.joined);
        }

    -- The messages are as they were.
    still-Valid :
        (w' : WorkerState) (active : ℕ)
        → lives w ≡ 1
        → stops w' ≡ 0
        → active + counted w ≡ s.active_connections + counted w'
        → Valid ch (placed front back (w', record s { active_connections = active }))
    still-Valid w' active live goes_on counter =
        placed-Valid w' s.queue active live counter (omega (arith, goes_on)) v.ordered
          (λ h. v.drained (rw here (omega (arith, goes_on, total-append stops front (w ∷ back)))))
          v.capacity v.bounded

    counter_lem : s.active_connections ≡ total counted front + counted w + total counted back
    counter_lem =
        omega (arith, v.active, rw here at v.active, total-append counted front (w ∷ back))

    -- The counter of the other workers does not wrap.
    counter_room : total counted front + total counted back + 1 < 2 ^ 64
    counter_room = omega (
      arith,
      Planned-le s.num_workers s.stage s.workers v.planned,
      v.small,
      ap length here,
      length-append front (w ∷ back),
      total-le_length counted front counted-le,
      total-le_length counted back counted-le,
    )

  takes-Valid :
      (s : S.Server ch) (front back : List WorkerState)
      → s.workers ≡ front ++ (waiting ∷ back)
      → Valid ch s
      → OnSome (λ p. Valid ch (placed front back p)) (S.on_message ch s (ch.recv s.queue))
  unfolding S.on_message
  takes-Valid s front back here v = go (ch.recv s.queue) refl
    where
      go :
          (r : Option (WorkerMessage × ch.Queue))
          → ch.recv s.queue ≡ r
          → OnSome (λ p. Valid ch (placed front back p)) (S.on_message ch s r)
      go none e = tt
      go (some (new_connection c, q)) e =
          let (was, same) = ch.recv-some s.queue q (new_connection c) e in
          placed-Valid s front back waiting here v (received c) q s.active_connections refl refl
            (rw was (omega arith)) (rw was at v.ordered)
            (λ h. omega (
              arith,
              rw was at
                  (v.drained (rw here (omega (arith, total-append stops front (waiting ∷ back))))),
            ))
            (same ∙ v.capacity) (omega (arith, rw was at v.bounded))
      go (some (shutdown, q)) e =
          let (was, same) = ch.recv-some s.queue q shutdown e in
          placed-Valid s front back waiting here v stopped q s.active_connections refl refl
            (rw was (omega arith)) (rw was at v.ordered).1 (λ h. (rw was at v.ordered).0)
            (same ∙ v.capacity) (omega (arith, rw was at v.bounded))

  -- A step of any worker.
  pub worker_step-Valid :
      (event : WorkerEvent) (w : WorkerState) (s : S.Server ch) (front back : List WorkerState)
      → s.workers ≡ front ++ (w ∷ back)
      → Valid ch s
      → OnSome (λ p. Valid ch (placed front back p)) (S.worker_step ch event w s)
  unfolding S.worker_step
  worker_step-Valid takes waiting s front back here v = takes-Valid s front back here v
  worker_step-Valid counts (received c) s front back here v =
      still-Valid s front back (received c) here v (handling c) _ refl refl (
        omega (
          arith,
          counter_lem s front back (received c) here v,
          counter_room s front back (received c) here v,
        ))
  worker_step-Valid finishes (handling c) s front back here v =
      still-Valid s front back (handling c) here v waiting _ refl refl (
        omega (
          arith,
          counter_lem s front back (handling c) here v,
          counter_room s front back (handling c) here v,
        ))
  worker_step-Valid panics (handling c) s front back here v =
      still-Valid s front back (handling c) here v panicked _ refl refl refl
  worker_step-Valid takes (received c) s front back here v = tt
  worker_step-Valid takes (handling c) s front back here v = tt
  worker_step-Valid takes stopped s front back here v = tt
  worker_step-Valid takes panicked s front back here v = tt
  worker_step-Valid counts waiting s front back here v = tt
  worker_step-Valid counts (handling c) s front back here v = tt
  worker_step-Valid counts stopped s front back here v = tt
  worker_step-Valid counts panicked s front back here v = tt
  worker_step-Valid finishes waiting s front back here v = tt
  worker_step-Valid finishes (received c) s front back here v = tt
  worker_step-Valid finishes stopped s front back here v = tt
  worker_step-Valid finishes panicked s front back here v = tt
  worker_step-Valid panics waiting s front back here v = tt
  worker_step-Valid panics (received c) s front back here v = tt
  worker_step-Valid panics stopped s front back here v = tt
  worker_step-Valid panics panicked s front back here v = tt
