-- ===== src/Session/Steps.antt =====
-- src/RSession.cpp: the events of a session, in any order, and where R's output goes after each.
use rc2compute.Prelude.{◌≡◌, refl, Bool, false, List, ◌∷◌, ◌++◌, Bytes}
use rc2compute.Effects.{Exec}
use rc2compute.Effects.Hoare.{Triple, IsDefined, state_of_post, by_bind, by_if, by_pure, by_gets}
use rc2compute.Numbers.{ℤ, pos, lt_ℤ}
use rc2compute.Command.{JsonCommand, CommandType}
use rc2compute.World.{AnswersHelp}
use rc2compute.FileManager.{Manager}
use rc2compute.FileManager.Steps
use rc2compute.Session.{Platform, Session, Task, exec_complete, delayed_command}
use rc2compute.Session.Printing.{in_manager-keeps, lift-keeps}
use rc2compute.Session.Flags.{sending, Quiet, Quiet-IsKept, same_flags}
use rc2compute.Session.Dispatch.Received.{by_read}
use rc2compute.Session.Dispatch.{handle_read, acknowledge, run_task}
use rc2compute.Session.Dispatch.Flags.{handle_json_command-Quiet}

module _ (pf : Platform) where
  open pf use {world, js, ev}

  -- What changes a session while it runs: a read from its socket, an event that it has scheduled and that is
  -- due, and the events of its file manager.
  pub data Happens : Session pf → Session pf → Type 0 where
    bytes_read :
        (memory : CommandType) (chunk : Bytes) (s : Session pf)
        → IsDefined (handle_read pf memory chunk s).0
        → Happens s (handle_read pf memory chunk s).1
    task_due :
        (memory : CommandType) (s : Session pf) (before after : List (Task pf)) (task : Task pf)
        → s.tasks ≡ before ++ task ∷ after
        → IsDefined (run_task pf memory task (record s { tasks = before ++ after })).0
        → Happens s (run_task pf memory task (record s { tasks = before ++ after })).1
    managed :
        (s : Session pf) (m : Manager world)
        → Steps.Happens world s.manager m
        → Happens s (record s { manager = m })

  pub data Reaches : Session pf → Session pf → Type 0 where
    start : (s : Session pf) → Reaches s s
    step : (s t u : Session pf) → Reaches s t → Happens t u → Reaches s u

  -- What every event keeps holds in every state that is reached.
  pub by_events :
      {P : Session pf → Type 0}
      → ((s t : Session pf) → Happens s t → P s → P t)
      → (s t : Session pf) → P s
      → Reaches s t
      → P t
  by_events k _ _ h (start s) = h
  by_events k _ _ h (step s t u r e) = k t u e (by_events k s t h r)

module _ (pf : Platform) (helps : AnswersHelp pf.world) where
  open pf use {world, js}

  handle_read-Quiet :
      (memory : CommandType) (chunk : Bytes)
      → Triple (Quiet pf) (handle_read pf memory chunk) (λ _. Quiet pf) (Quiet pf)
  handle_read-Quiet memory chunk =
      by_read pf (λ s n h. same_flags pf s _ refl h) (handle_json_command-Quiet pf helps) memory
        chunk

  acknowledge-Quiet :
      (command : JsonCommand js) (query : ℤ) (expect : Bool)
      → Triple (Quiet pf) (acknowledge pf command query expect) (λ _. Quiet pf) (Quiet pf)
  unfolding acknowledge
  acknowledge-Quiet command query expect =
      by_bind _ _ (in_manager-keeps pf (Quiet-IsKept pf) _) λ _.
        by_bind _ _ (lift-keeps pf _)
          λ start. by_bind _ _ (by_gets _) λ images. by_pure _ (λ s h. h)

  run_task-Quiet :
      (memory : CommandType) (task : Task pf)
      → Triple (Quiet pf) (run_task pf memory task) (λ _. Quiet pf) (Quiet pf)
  unfolding run_task
  run_task-Quiet memory (delayed_command json) = handle_json_command-Quiet pf helps memory json
  run_task-Quiet memory (exec_complete command query info) =
      by_bind _ _ (acknowledge-Quiet command query _) λ json. by_bind _ _ (sending pf json) λ _.
        by_if (lt_ℤ (pos 0) info.id) _ _
          (λ _. by_bind _ _ (in_manager-keeps pf (Quiet-IsKept pf) _) λ found. sending pf _)
          (λ _. by_pure tt (λ s h. h))

  ended :
      {A : Type 0} (m : Exec (Session pf) A) (s : Session pf)
      → Triple (Quiet pf) m (λ _. Quiet pf) (Quiet pf)
      → IsDefined (m s).0
      → Quiet pf s
      → Quiet pf (m s).1
  ended m s k d h = state_of_post (Quiet pf) (m s).0 (m s).1 d (k.at s h)

  Happens-Quiet : (s t : Session pf) → Happens pf s t → Quiet pf s → Quiet pf t
  Happens-Quiet _ _ (bytes_read memory chunk s d) h = ended _ s (handle_read-Quiet memory chunk) d h
  Happens-Quiet _ _ (task_due memory s before after task e d) h =
      ended _ (record s { tasks = before ++ after }) (run_task-Quiet memory task) d
        (same_flags pf s _ refl h)
  Happens-Quiet _ _ (managed s m e) h = same_flags pf s _ refl h

  -- If the answer to help has its form: a session whose output goes to the client, neither ignored nor captured, and not that of a sourced file.
  -- After any reads, scheduled events and events of its file manager this is so again, however the
  -- commands end, also by a throw.
  pub Reaches-quiet :
      (s t : Session pf)
      → (s.ignore_output ≡ false) × (s.capture_std_out ≡ false) × (s.source_in_progress ≡ false)
      → Reaches pf s t
      → (t.ignore_output ≡ false) × (t.capture_std_out ≡ false) × (t.source_in_progress ≡ false)
  Reaches-quiet s t h r =
      let q =
        by_events pf Happens-Quiet s t
          (record { ignored_is = h.0; captured_is = h.1; sourcing_is = h.2 }) r in
      (q.ignored_is, q.captured_is, q.sourcing_is)
