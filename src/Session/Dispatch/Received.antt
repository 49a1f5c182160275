-- ===== src/Session/Dispatch/Received.antt =====
-- src/RSession.cpp: what every message keeps, a read from the socket keeps.
use rc2compute.Prelude.{Bool, true, false, Option, none, some, Bytes, if◌then◌else◌}
use rc2compute.Effects.{Exec, Result, ok, undefined, any_exception, pure}
use rc2compute.Effects.Hoare.{Post, Triple, by_pure, by_try}
use rc2compute.InputBuffer.{InputBuffer, append_data, has_complete_message, pop_current_message}
use rc2compute.Command.{CommandType}
use rc2compute.Session.{Platform, Session}
use rc2compute.Session.Dispatch.{handle_json_command, handle_read}

module _ (pf : Platform) {P : Session pf → Type 0}
    (reads : (s : Session pf) (n : InputBuffer (pf.ev)) → P s → P (record s { input = n }))
    (obeys : (memory : CommandType) (json : Bytes)
      → Triple P (handle_json_command pf memory json) (λ _. P) P) where
  open pf use {ev}

  abbrev run_message : CommandType → InputBuffer ev → Bool → Exec (Session pf) (Unit {0})
  run_message memory m complete s =
      if complete
      then (let (json, n) = pop_current_message ev m in
          handle_json_command pf memory json (record s { input = n }))
      else (ok tt, record s { input = m })

  run_message-Post :
      (memory : CommandType) (m : InputBuffer ev) (complete : Bool) (s : Session pf)
      → P s
      → Post (λ _. P) P (run_message memory m complete s)
  run_message-Post memory m true s h =
      let (json, n) = pop_current_message ev m in
      (obeys memory json).at (record s { input = n }) (reads s n h)
  run_message-Post memory m false s h = reads s m h

  appended :
      (memory : CommandType) (o : Option (InputBuffer ev)) (s : Session pf)
      → P s
      → Post
          (λ _. P)
          P
          (elim o as (λ _. Result (Unit {0}) × Session pf) [
            | none ↦ (undefined, s)
            | some m ↦ run_message memory m (has_complete_message ev m) s
          ])
  appended memory none s h = tt
  appended memory (some m) s h = run_message-Post memory m (has_complete_message ev m) s h

  pub by_read :
      (memory : CommandType) (chunk : Bytes) → Triple P (handle_read pf memory chunk) (λ _. P) P
  unfolding handle_read
  by_read memory chunk =
      by_try _ any_exception (λ e. pure tt)
        (record { at = λ s h. appended memory (append_data ev s.input chunk) s h }) (λ s h. h)
        (λ e. by_pure tt (λ s h. h))
