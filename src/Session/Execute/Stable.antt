-- ===== src/Session/Execute/Stable.antt =====
-- src/RSession.cpp: scripts and files keep what every command keeps.
use rc2compute.Prelude.{refl, Bool, Option, none, some, Bytes, lit}
use rc2compute.Utils.{temporary_directory}
use rc2compute.Effects.{Result, runtime_error, ok, raised}
use rc2compute.Effects.Hoare.{Post}
use rc2compute.Effects.Keeps.{Keeps, Keeps-bind, Keeps-option}
use rc2compute.World.{World, EvalResult, pe_success, pe_incomplete, pe_error}
use rc2compute.Command.{JsonCommand}
use rc2compute.FileManager.Interface.{FileInfo}
use rc2compute.Session.{Platform, Session, ErrorCode, with_world}
use rc2compute.Session.Stable.{
  IsStable, Keeps-send, Keeps-lift, Keeps-in_manager, Keeps-in_world, session_rules,
}
use rc2compute.Session.Execute.{
  copy, send_error, script_done, handle_execute_script, render, execute_rmarkdown, take_pdf,
  run_texi, sweave_done, execute_sweave, execute_r, run_file, execute_file,
}

module _ (pf : Platform) {P : Session pf → Type 0} (k : IsStable pf P) where
  open pf use {world, js}

  copied :
      (o : Option (World.W world)) (s : Session pf)
      → P s
      → Post
          (λ _. P)
          P
          (elim o as (λ _. Result (Unit {0}) × Session pf) [
            | none ↦ (raised (runtime_error (lit "boost::filesystem::copy_file")), s)
            | some next ↦ (ok tt, with_world pf next s)
          ])
  copied none s h = h
  copied (some next) s h = k.unchanged s _ refl h

  Keeps-copy : (from to : Bytes) → Keeps P (copy pf from to)
  unfolding copy
  Keeps-copy from to = record { both = record { at = λ s h. copied _ s h } }

  Keeps-send_error : (code : ErrorCode) (details : Bytes) → Keeps P (send_error pf code details)
  unfolding send_error
  Keeps-send_error code details = Keeps-send pf k _

  Keeps-script_done :
      (command : JsonCommand js) (delta : Bool) (result : EvalResult)
      → Keeps P (script_done pf command delta result)
  unfolding script_done
  Keeps-script_done command delta pe_success = search (session_rules)
  Keeps-script_done command delta pe_incomplete = search (session_rules)
  Keeps-script_done command delta pe_error = search (session_rules)

  pub Keeps-handle_execute_script :
      (command : JsonCommand js) → Keeps P (handle_execute_script pf command)
  unfolding handle_execute_script
  Keeps-handle_execute_script command = search (session_rules, Keeps-script_done) depth 25 fits 3000

  Keeps-render : (code tmp_html html : Bytes) → Keeps P (render pf code tmp_html html)
  unfolding render
  Keeps-render code tmp_html html = search (session_rules, Keeps-copy) depth 25 fits 3000

  Keeps-take_pdf :
      (scratch src base_name pdf_name : Bytes)
      → Keeps P (take_pdf pf scratch src base_name pdf_name)
  unfolding take_pdf
  Keeps-take_pdf scratch src base_name pdf_name =
      search (session_rules, Keeps-copy) depth 25 fits 3000

  Keeps-run_texi :
      (tex scratch src base_name pdf_name : Bytes)
      → Keeps P (run_texi pf tex scratch src base_name pdf_name)
  unfolding run_texi
  Keeps-run_texi tex scratch src base_name pdf_name =
      search (session_rules, Keeps-take_pdf) depth 25 fits 3000

  Keeps-sweave_done :
      (scratch : Bytes) (command : JsonCommand js) (info : FileInfo)
      → Keeps P (sweave_done pf scratch command info)
  unfolding sweave_done
  Keeps-sweave_done scratch command info = search session_rules depth 25 fits 3000

  Keeps-execute_rmarkdown :
      (file_name : Bytes) (command : JsonCommand js)
      → Keeps P (execute_rmarkdown pf file_name command)
  unfolding execute_rmarkdown
  Keeps-execute_rmarkdown file_name command =
      Keeps-bind _ _ (Keeps-in_world pf k (λ _. temporary_directory world))
        λ tmp. search (session_rules, Keeps-copy, Keeps-render, Keeps-send_error) depth 25 fits 3000

  Keeps-execute_sweave :
      (path : Bytes) (command : JsonCommand js) → Keeps P (execute_sweave pf path command)
  unfolding execute_sweave
  Keeps-execute_sweave path command =
      search (session_rules, Keeps-run_texi, Keeps-sweave_done) depth 25 fits 3000

  Keeps-execute_r : (path : Bytes) (command : JsonCommand js) → Keeps P (execute_r pf path command)
  unfolding execute_r
  Keeps-execute_r path command = search session_rules depth 25 fits 3000

  Keeps-run_file : (path : Bytes) (command : JsonCommand js) → Keeps P (run_file pf path command)
  unfolding run_file
  Keeps-run_file path command =
      search
        (
          session_rules, Keeps-send_error, Keeps-execute_rmarkdown, Keeps-execute_sweave,
          Keeps-execute_r,
        )
        depth 25 fits 3000

  pub Keeps-execute_file : (command : JsonCommand js) → Keeps P (execute_file pf command)
  unfolding execute_file
  Keeps-execute_file command = Keeps-bind _ _ (Keeps-lift pf k _) λ text.
      Keeps-bind _ _ (Keeps-in_manager pf k _)
        λ found. Keeps-option found _ _ (Keeps-send_error _ _) (λ path. Keeps-run_file path command)
