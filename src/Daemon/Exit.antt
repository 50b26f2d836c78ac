-- ===== src/Daemon/Exit.antt =====
-- How the process of the server (src/bin/server.rs) can end.
use atlas_kv.Base.{
  Bool-cases, Option, Option-cases, arith, false, inl, inr, leb, none, refl, some, subst, suc, sym,
  zero, ℕ, ◌∙◌, ◌≡◌, ◌⊎◌,
}
use atlas_kv.Error.{Result, ok, err}
use atlas_kv.Network.Channel.{Channel}
use atlas_kv.Network.Server.{
  WorkerMessage, WorkerState, WorkerEvent, Answer, Stage, binding, spawning, checking, accepting,
  limiting, sending, stopping, joining, returned, main_step, at_stage, worker_step, spawn, accepted,
  check_limit, send_message, on_message,
}
use atlas_kv.Network.Server as S
use atlas_kv.Network.Server.Invariant.{OnSome, on_some}
use atlas_kv.Config.{Config}
use atlas_kv.Engine.{Engine}
use atlas_kv.Wal.Entry.{Libraries}
use atlas_kv.Daemon.{
  memtable_bytes, to_config, Start, Phase, starting, serving, exited, start_main, opened, starts,
  serves, fails, ends, Process, here, next, IsUnsignalled,
}

-- The stages before a shutdown, and the end behind an error.
abbrev pub IsServing : Stage → Type 0
IsServing (stopping k) = ⊥
IsServing (joining i) = ⊥
IsServing (returned (ok u)) = ⊥
IsServing stage = Unit

module _ (libs : Libraries) (ch : Channel WorkerMessage) where
  pub record Unstopped (s : S.Server ch) : Type 0 where
    pub flag : s.shutdown_flag ≡ false
    pub stage : IsServing s.stage

  send_message-Unstopped :
      (s : S.Server ch) (m : WorkerMessage) (stage : Stage)
      → s.shutdown_flag ≡ false
      → IsServing stage
      → OnSome Unstopped (send_message ch s m stage)
  unfolding send_message
  send_message-Unstopped s m stage flag serving_stage = elim (Option-cases (ch.send s.queue m)) [
    | inl full ↦ rw (full, OnSome) tt
    | inr (q, sent) ↦ rw (sent, OnSome) (record { flag = flag; stage = serving_stage })
  ]

  at_stage-Unstopped :
      (answer : Answer) (stage : Stage) (s : S.Server ch)
      → s.shutdown_flag ≡ false
      → IsServing stage
      → OnSome Unstopped (at_stage ch answer stage s)
  unfolding at_stage spawn accepted check_limit
  at_stage-Unstopped answer binding s flag ok_stage = elim (Bool-cases answer.failure) [
    | inl bad ↦ rw bad (record { flag = flag; stage = tt })
    | inr good ↦ rw good (record { flag = flag; stage = tt })
  ]
  at_stage-Unstopped answer (spawning zero) s flag ok_stage = record { flag = flag; stage = tt }
  at_stage-Unstopped answer (spawning (suc k)) s flag ok_stage = elim (Bool-cases answer.failure) [
    | inl bad ↦ rw bad (record { flag = flag; stage = tt })
    | inr good ↦ rw good (record { flag = flag; stage = tt })
  ]
  at_stage-Unstopped answer checking s flag ok_stage =
      simp flag (record { flag = refl; stage = tt })
  at_stage-Unstopped answer accepting s flag ok_stage = elim (Option-cases answer.incoming) [
    | inl nobody ↦ rw nobody (record { flag = flag; stage = tt })
    | inr (c, someone) ↦ elim (Bool-cases answer.failure) [
      | inl bad ↦ rw (someone, bad) (record { flag = flag; stage = tt })
      | inr good ↦ rw (someone, good) (record { flag = flag; stage = tt })
    ]
  ]
  at_stage-Unstopped answer (limiting c) s flag ok_stage =
      elim (Bool-cases (leb s.max_connections s.active_connections)) [
        | inl full ↦ rw full (record { flag = flag; stage = tt })
        | inr room ↦ rw room (record { flag = flag; stage = tt })
      ]
  at_stage-Unstopped answer (sending c) s flag ok_stage =
      send_message-Unstopped s (S.new_connection c) checking flag tt
  at_stage-Unstopped answer (stopping k) s flag ok_stage = absurd ok_stage
  at_stage-Unstopped answer (joining i) s flag ok_stage = absurd ok_stage
  at_stage-Unstopped answer (returned r) s flag ok_stage = tt

  worker_step-kept :
      (event : WorkerEvent) (w : WorkerState) (s : S.Server ch)
      → OnSome
          (λ r. (r.1.shutdown_flag ≡ s.shutdown_flag) × (r.1.stage ≡ s.stage))
          (worker_step ch event w s)
  unfolding worker_step on_message
  worker_step-kept event w s = ground arith

  step-Unstopped :
      (s t : S.Server ch) (step : S.Step ch s t)
      → IsUnsignalled libs ch step
      → Unstopped s
      → Unstopped t
  unfolding main_step
  step-Unstopped s t (S.main answer t' e) quiet u =
      on_some Unstopped (at_stage ch answer s.stage s) t'
        (at_stage-Unstopped answer s.stage s u.flag u.stage) e
  step-Unstopped s t (S.worker event front back w w' t' at e) quiet u =
      let (flag, stage) =
        on_some (λ r. (r.1.shutdown_flag ≡ s.shutdown_flag) × (r.1.stage ≡ s.stage))
          (worker_step ch event w s) (w', t') (worker_step-kept event w s) e in
      record { flag = flag ∙ u.flag; stage = subst IsServing (sym stage) u.stage }
  step-Unstopped s t S.signal quiet u = absurd quiet

  -- What is known of the process in each phase.
  abbrev Known : Phase libs ch → Type 0
  Known starting = Unit
  Known (serving s) = Unstopped s
  Known (exited status) = (status ≡ 1) ⊎ (status ≡ 101)

  opened-Known :
      (start : Start) (config : Config) (r : Option (Result Engine))
      → OnSome Known (opened libs ch start config r)
  unfolding opened S.new
  opened-Known start config none = tt
  opened-Known start config (some (err x)) = inl refl
  opened-Known start config (some (ok e)) = record { flag = refl; stage = tt }

  start_main-Known : (start : Start) → OnSome Known (start_main libs ch start)
  unfolding start_main
  start_main-Known start =
      elim (Option-cases (memtable_bytes start.overflow_checks start.args.memtable_mb)) [
        | inl overflow ↦ rw (overflow, OnSome) (inr refl)
        | inr (bytes, fits) ↦ rw (fits, OnSome) (opened-Known start (to_config start.args bytes) _)
      ]

  Process-Known : {p : Phase libs ch} → Process libs ch p → Known p
  Process-Known here = tt
  Process-Known (next process (starts start p e)) =
      on_some Known (start_main libs ch start) p (start_main-Known start) e
  Process-Known (next process (serves s t step quiet)) =
      step-Unstopped s t step quiet (Process-Known process)
  Process-Known (next process (fails s x at)) = inl refl
  Process-Known (next process (ends s at)) =
      absurd (subst IsServing at (Process-Known process).stage)

  -- Whatever the process of the server finds, in every interleaving of its threads: it does not
  -- end by itself but with the exit status 1 or 101; and while it serves, its shutdown flag is not
  -- set and no worker is told to stop.
  pub Process-exits :
      {p : Phase libs ch}
      → Process libs ch p
      → ((status : ℕ) → p ≡ exited status → (status ≡ 1) ⊎ (status ≡ 101))
        × ((s : S.Server ch) → p ≡ serving s → (s.shutdown_flag ≡ false) × IsServing s.stage)
  Process-exits process = (
    λ status e. subst Known e (Process-Known process),
    λ s e. let u : Unstopped s = subst Known e (Process-Known process) in (u.flag, u.stage),
  )
