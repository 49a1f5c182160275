-- ===== src/Session/Execute/Flags.antt =====
-- src/RSession.cpp: the flags after a script, and after the steps that it shares with a file.
use rc2compute.Prelude.{refl, Bool, true, Option, none, some, Bytes, lit}
use rc2compute.Effects.{Result, runtime_error, ok, raised}
use rc2compute.Effects.Hoare.{Post, Triple, by_bind, by_if, by_pure, by_gets, by_modify}
use rc2compute.World.{World, EvalResult, pe_success, pe_incomplete, pe_error}
use rc2compute.Numbers.{ℤ}
use rc2compute.Command.{JsonCommand}
use rc2compute.FileManager.Interface.{FileInfo}
use rc2compute.Session.{
  Platform, Session, ErrorCode, with_world, schedule_exec_complete, schedule_delayed_command,
  send_text, format_error_as_json,
}
use rc2compute.Session.Printing.{IsKept, send_json-keeps, eval-keeps, lift-keeps}
use rc2compute.Session.Flags.{assigning, Flags, Quiet, Plain, Quiet-IsKept, flush-Flags}
use rc2compute.Session.Execute.{delta_request, send_error, copy, script_done, handle_execute_script}

module _ (pf : Platform) where
  open pf use {world, js}

  copied :
      {P : Session pf → Type 0} (k : IsKept pf P) (o : Option (World.W world)) (s : Session pf)
      → P s
      → Post
          (λ _. P)
          P
          (elim o as (λ _. Result (Unit {0}) × Session pf) [
            | none ↦ (raised (runtime_error (lit "boost::filesystem::copy_file")), s)
            | some next ↦ (ok tt, with_world pf next s)
          ])
  copied k none s h = h
  copied k (some next) s h = k.by_manager s _ h

  pub copy-keeps :
      {P : Session pf → Type 0} (k : IsKept pf P) (from to : Bytes)
      → Triple P (copy pf from to) (λ _. P) P
  unfolding copy
  copy-keeps k from to = record { at = λ s h. copied k _ s h }

  pub schedule-Flags :
      {i c p : Bool} {E : Session pf → Type 0} (command : JsonCommand js) (query : ℤ)
      (info : FileInfo)
      → Triple
          (Flags pf i c p)
          (schedule_exec_complete pf command query info)
          (λ _. Flags pf i c p)
          E
  unfolding schedule_exec_complete
  schedule-Flags command query info = assigning pf _ (λ s. refl)

  pub delay-Flags :
      {i c p : Bool} {E : Session pf → Type 0} (json : Bytes)
      → Triple (Flags pf i c p) (schedule_delayed_command pf json) (λ _. Flags pf i c p) E
  unfolding schedule_delayed_command
  delay-Flags json = assigning pf _ (λ s. refl)

  pub send_error-Quiet :
      (code : ErrorCode) (details : Bytes)
      → Triple (Quiet pf) (send_error pf code details) (λ _. Quiet pf) (Quiet pf)
  unfolding send_error
  send_error-Quiet code details = by_modify _ (λ s h.
      send_json-keeps pf (Quiet-IsKept pf) (format_error_as_json pf code details s.current_query_id)
        s h)

  pub schedule-Plain :
      (command : JsonCommand js) (query : ℤ) (info : FileInfo)
      → Triple (Plain pf) (schedule_exec_complete pf command query info) (λ _. Plain pf) (Plain pf)
  unfolding schedule_exec_complete
  schedule-Plain command query info =
      by_modify _ (λ s h. record { captured_is = h.captured_is; sourcing_is = h.sourcing_is })

  script_done-Quiet :
      (command : JsonCommand js) (delta : Bool) (result : EvalResult)
      → Triple (Quiet pf) (script_done pf command delta result) (λ _. Quiet pf) (Quiet pf)
  unfolding script_done send_text
  script_done-Quiet command delta pe_success = by_bind _ _ (by_gets _) λ query.
      by_bind _ _ (schedule-Flags command query _)
        λ _. by_if delta _ _ (λ _. delay-Flags (delta_request pf)) (λ _. by_pure tt (λ s h. h))
  script_done-Quiet command delta pe_incomplete =
      by_modify _ (λ s h. send_json-keeps pf (Quiet-IsKept pf) _ s h)
  script_done-Quiet command delta pe_error = by_pure tt (λ s h. h)

  pub handle_execute_script-Quiet :
      (command : JsonCommand js)
      → Triple (Quiet pf) (handle_execute_script pf command) (λ _. Quiet pf) (Quiet pf)
  unfolding handle_execute_script
  handle_execute_script-Quiet command = by_bind _ _ (lift-keeps pf _) λ code.
      by_bind _ _ (by_gets _) λ watching.
        by_bind _ _ (by_if watching _ _ (λ _. by_pure true (λ s h. h)) (λ _. lift-keeps pf _))
          λ delta.
            by_bind _ _
              (by_if delta _ _ (λ _. assigning pf _ (λ s. refl)) (λ _. by_pure tt (λ s h. h)))
              λ _. by_bind _ _ (assigning pf _ (λ s. refl)) λ _.
                by_bind _ _ (eval-keeps pf (Quiet-IsKept pf) code)
                  λ result. by_bind _ _ (flush-Flags pf) λ _. script_done-Quiet command delta result
