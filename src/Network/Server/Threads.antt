-- ===== src/Network/Server/Threads.antt =====
-- The steps of the accepting thread (src/network/server.rs), and the invariant.
use atlas_kv.Base.{
  Bool, Bool-cases, Option, arith, false, get_elem?, if◌then◌else◌, inl, inr, leb, length, none,
  refl, some, suc, true, zero, ℕ, ◌≡◌,
}
use atlas_kv.Error.{ok, err, network}
use atlas_kv.Network.Channel.{Channel}
use atlas_kv.Network.Server.{
  Stage, Answer, WorkerMessage, WorkerState, WorkerEvent, takes, counts, finishes, panics,
  new_connection, shutdown, waiting, received, handling, stopped, panicked, binding, spawning,
  checking, accepting, limiting, sending, stopping, joining, returned, num_cpus,
}
use atlas_kv.Network.Server.Counts.{take-next, take-all}
use atlas_kv.Network.Server.Invariant.{
  OnSome, Valid, go_to-Valid, spawn-Valid, dispatch-Valid, tell-Valid,
}
use atlas_kv.Network.Server as S

module _ (ch : Channel WorkerMessage) where
  -- A stage that a test chooses.
  either-Valid :
      (s : S.Server ch) (test : Bool) (x y : Stage)
      → Valid ch (record s { stage = x })
      → Valid ch (record s { stage = y })
      → Valid ch (record s { stage = if test then x else y })
  either-Valid s true x y v w = v
  either-Valid s false x y v w = w

  send_message-Valid :
      (s : S.Server ch) (c : ℕ)
      → s.stage ≡ sending c
      → Valid ch s
      → OnSome (Valid ch) (S.send_message ch s (new_connection c) checking)
  unfolding S.send_message
  send_message-Valid s c at v = go (ch.send s.queue (new_connection c)) refl
    where
      go :
          (r : Option ch.Queue)
          → ch.send s.queue (new_connection c) ≡ r
          → OnSome
              (Valid ch)
              (elim r [ none ↦ none | some q ↦ some (record s { queue = q; stage = checking }) ])
      go none e = tt
      go (some q) e = dispatch-Valid ch s c q at e v

  stop_workers-Valid :
      (s : S.Server ch) (k : ℕ)
      → s.stage ≡ stopping k
      → Valid ch s
      → OnSome (Valid ch) (S.stop_workers ch k s)
  unfolding S.stop_workers S.send_message
  stop_workers-Valid s zero at v =
      go_to-Valid ch s (joining 0) v (omega (arith, rw at at v.planned)) (rw at refl) refl
  stop_workers-Valid s (suc k) at v = go (ch.send s.queue shutdown) refl
    where
      go :
          (r : Option ch.Queue)
          → ch.send s.queue shutdown ≡ r
          → OnSome
              (Valid ch)
              (elim r [ none ↦ none | some q ↦ some (record s { queue = q; stage = stopping k }) ])
      go none e = tt
      go (some q) e = tell-Valid ch s k q at e v

  join_worker-Valid :
      (s : S.Server ch) (i : ℕ) (r : Option WorkerState)
      → s.stage ≡ joining i
      → get_elem? s.workers i ≡ r
      → Valid ch s
      → OnSome (Valid ch) (S.join_worker ch i s r)
  unfolding S.join_worker S.has_ended
  join_worker-Valid s i none at e v =
      go_to-Valid ch s (returned (ok tt)) v (omega (arith, rw at at v.planned)) (rw at refl)
        (omega (arith, take-all i s.workers e, rw at at v.joined))
  join_worker-Valid s i (some stopped) at e v =
      go_to-Valid ch s (joining (suc i)) v (omega (arith, rw at at v.planned)) (rw at refl)
        (omega (arith, take-next i s.workers stopped e, rw at at v.joined))
  join_worker-Valid s i (some panicked) at e v =
      go_to-Valid ch s (joining (suc i)) v (omega (arith, rw at at v.planned)) (rw at refl)
        (omega (arith, take-next i s.workers panicked e, rw at at v.joined))
  join_worker-Valid s i (some waiting) at e v = tt
  join_worker-Valid s i (some (received c)) at e v = tt
  join_worker-Valid s i (some (handling c)) at e v = tt

  at_stage-Valid :
      (answer : Answer) (stage : Stage) (s : S.Server ch)
      → s.stage ≡ stage
      → Valid ch s
      → OnSome (Valid ch) (S.at_stage ch answer stage s)
  unfolding S.at_stage S.spawn S.accepted S.check_limit
  at_stage-Valid answer binding s at v =
      either-Valid s answer.failure (returned (err network)) (spawning s.num_workers)
        (go_to-Valid ch s (returned (err network)) v (omega (arith, rw at at v.planned))
          (rw at refl) tt)
        (go_to-Valid ch s (spawning s.num_workers) v (omega (arith, rw at at v.planned))
          (rw at refl) tt)
  at_stage-Valid answer (spawning zero) s at v =
      go_to-Valid ch s checking v (omega (arith, rw at at v.planned)) (rw at refl) tt
  at_stage-Valid answer (spawning (suc k)) s at v = elim (Bool-cases answer.failure) [
    | inl fails ↦ rw fails (
        go_to-Valid ch s (returned (err network)) v (omega (arith, rw at at v.planned)) (rw at refl)
          tt)
    | inr fine ↦ rw fine (spawn-Valid ch s k at v)
  ]
  at_stage-Valid answer checking s at v =
      either-Valid s s.shutdown_flag (stopping (length s.workers)) accepting
        (go_to-Valid ch s (stopping (length s.workers)) v (omega (arith, rw at at v.planned))
          (rw at refl) tt)
        (go_to-Valid ch s accepting v (omega (arith, rw at at v.planned)) (rw at refl) tt)
  at_stage-Valid answer accepting s at v = accepted-Valid answer.incoming
    where
      again : Valid ch (record s { stage = checking })
      again = go_to-Valid ch s checking v (omega (arith, rw at at v.planned)) (rw at refl) tt

      accepted-Valid :
          (incoming : Option ℕ)
          → Valid ch (record s { stage = S.accepted (record answer { incoming = incoming }) })
      accepted-Valid none = again
      accepted-Valid (some c) =
          either-Valid s answer.failure checking (limiting c) again
            (go_to-Valid ch s (limiting c) v (omega (arith, rw at at v.planned)) (rw at refl) tt)
  at_stage-Valid answer (limiting c) s at v =
      either-Valid s (leb s.max_connections s.active_connections) checking (sending c)
        (go_to-Valid ch s checking v (omega (arith, rw at at v.planned)) (rw at refl) tt)
        (go_to-Valid ch s (sending c) v (omega (arith, rw at at v.planned)) (rw at refl) tt)
  at_stage-Valid answer (sending c) s at v = send_message-Valid s c at v
  at_stage-Valid answer (stopping k) s at v = stop_workers-Valid s k at v
  at_stage-Valid answer (joining i) s at v = join_worker-Valid s i (get_elem? s.workers i) at refl v
  at_stage-Valid answer (returned r) s at v = tt

  pub main_step-Valid :
      (answer : Answer) (s : S.Server ch) → Valid ch s → OnSome (Valid ch) (S.main_step ch answer s)
  unfolding S.main_step
  main_step-Valid answer s v = at_stage-Valid answer s.stage s refl v
