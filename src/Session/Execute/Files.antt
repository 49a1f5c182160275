-- ===== src/Session/Execute/Files.antt =====
-- src/RSession.cpp: the flags after a file was run.
use rc2compute.Prelude.{refl, true, false, Bytes, lit, same, ◌++◌, ◌&&◌}
use rc2compute.Effects.{Exec, runtime_error, pure, raise}
use rc2compute.Effects.Hoare.{
  Triple, by_bind, by_if, by_pure, by_raise, by_gets, by_modify, by_option, by_weaken, by_before,
  by_try,
}
use rc2compute.World.{EvalResult, pe_success, pe_incomplete, pe_error}
use rc2compute.Utils.{temporary_directory}
use rc2compute.Command.{JsonCommand}
use rc2compute.FileManager.Interface.{FileInfo}
use rc2compute.Session.{Platform, Session, execfile_invalid_input, eval, eval_or_throw}
use rc2compute.Session.Printing.{
  eval-keeps, send_output-keeps, in_manager-keeps, in_world-keeps, lift-keeps,
}
use rc2compute.Session.Flags.{
  assigning, Quiet, Plain, Quiet-IsKept, Plain-IsKept, Flags-IsKept, Flags-Plain, ignoring,
  capturing, sourcing, flush-Flags, suspended-Quiet,
}
use rc2compute.Session.Execute.Flags.{
  copy-keeps, schedule-Flags, delay-Flags, schedule-Plain, send_error-Quiet,
}
use rc2compute.Session.Execute.{
  delta_request, render, execute_rmarkdown, take_pdf, run_texi, sweave_done, execute_sweave,
  execute_r, run_file, execute_file,
}

module _ (pf : Platform) where
  open pf use {world, js}
  open world use {extension}

  -- Capturing begins and ends without a throw; copying the page may throw.
  render-Quiet :
      (code tmp_html html : Bytes)
      → Triple (Quiet pf) (render pf code tmp_html html) (λ _. Quiet pf) (Quiet pf)
  unfolding render
  render-Quiet code tmp_html html = suspended-Quiet pf _ (
      by_bind _ _ (capturing pf true) λ _. by_bind _ _ (capturing pf true) λ _.
        by_bind _ _ (eval-keeps pf (Flags-IsKept pf true true false) code) λ _.
          by_bind _ _ (capturing pf false) λ _.
            by_bind _ _
              (by_weaken _ (λ _ s h. Flags-Plain pf s h) (λ s h. h) (flush-Flags pf {E = Plain pf}))
              λ _. by_bind _ _ (by_gets _) λ there.
                by_bind _ _
                  (by_if there _ _ (λ _. copy-keeps pf (Plain-IsKept pf) tmp_html html)
                    (λ _. by_pure tt (λ s h. h)))
                  λ _. by_pure there (λ s h. h))

  executed : (code : Bytes) → Triple (Quiet pf) (eval pf code) (λ _. Quiet pf) (Quiet pf)
  executed code = eval-keeps pf (Quiet-IsKept pf) code

  execute_rmarkdown-Quiet :
      (file_name : Bytes) (command : JsonCommand js)
      → Triple (Quiet pf) (execute_rmarkdown pf file_name command) (λ _. Quiet pf) (Quiet pf)
  unfolding execute_rmarkdown
  execute_rmarkdown-Quiet file_name command =
      by_bind _ _ (in_world-keeps pf (Quiet-IsKept pf) (temporary_directory world)) λ tmp.
        by_bind _ _ (by_gets _) λ html. by_bind _ _ (by_gets _) λ src.
          by_bind _ _ (copy-keeps pf (Quiet-IsKept pf) src _) λ _.
            by_bind _ _ (render-Quiet _ _ html) λ generated. by_bind _ _ (by_gets _) λ dir.
              by_bind _ _ (executed _) λ _. by_bind _ _ (by_gets _) λ filled.
                by_if (generated && filled) _ _
                  (λ _. suspended-Quiet pf _ (
                    by_bind _ _
                      (by_before _ (λ s h. Flags-Plain pf s h)
                        (in_manager-keeps pf (Plain-IsKept pf) _))
                      λ info.
                        by_bind _ _ (by_gets _) λ query. schedule-Plain pf command query info))
                  (λ _. by_bind _ _ (by_gets _) λ captured. send_error-Quiet pf _ _)

  take_pdf-Quiet :
      (scratch src base_name pdf_name : Bytes)
      → Triple (Quiet pf) (take_pdf pf scratch src base_name pdf_name) (λ _. Quiet pf) (Quiet pf)
  unfolding take_pdf
  take_pdf-Quiet scratch src base_name pdf_name = by_bind _ _ (by_gets _) λ dest.
      by_bind _ _ (by_gets _) λ filled.
        by_if filled _ _
          (λ _.
            by_bind _ _ (copy-keeps pf (Quiet-IsKept pf) _ dest)
              λ _. in_manager-keeps pf (Quiet-IsKept pf) _)
          (λ _. by_bind _ _ (by_gets _) λ there.
            by_bind _ _
              (by_if there _ _ (λ _. copy-keeps pf (Quiet-IsKept pf) _ _)
                (λ _. by_pure tt (λ s h. h)))
              λ _. by_pure _ (λ s h. h))

  run_texi-Quiet :
      (tex scratch src base_name pdf_name : Bytes)
      → Triple
          (Quiet pf)
          (run_texi pf tex scratch src base_name pdf_name)
          (λ _. Quiet pf)
          (Quiet pf)
  unfolding run_texi
  run_texi-Quiet tex scratch src base_name pdf_name = by_bind _ _ (ignoring pf true) λ _.
      by_bind _ _ (assigning pf _ (λ s. refl))
        λ _. by_bind _ _ (ignoring pf false) λ _. take_pdf-Quiet scratch src base_name pdf_name

  sweave_done-Quiet :
      (scratch : Bytes) (command : JsonCommand js) (info : FileInfo)
      → Triple (Quiet pf) (sweave_done pf scratch command info) (λ _. Quiet pf) (Quiet pf)
  unfolding sweave_done
  sweave_done-Quiet scratch command info = by_bind _ _ (executed _) λ _.
      by_bind _ _ (ignoring pf false) λ _.
        by_bind _ _ (flush-Flags pf)
          λ _. by_bind _ _ (by_gets _) λ query. schedule-Flags pf command query info

  evaluated :
      (r : EvalResult)
      → Triple
          (Quiet pf)
          (elim r as (λ _. Exec (Session pf) (Unit {0})) [
            | pe_success ↦ pure tt
            | _ ↦ raise (runtime_error (lit "R error"))
          ])
          (λ _. Quiet pf)
          (Quiet pf)
  evaluated pe_success = by_pure tt (λ s h. h)
  evaluated pe_incomplete = by_raise _ (λ s h. h)
  evaluated pe_error = by_raise _ (λ s h. h)

  eval_or_throw-Quiet :
      (code : Bytes) → Triple (Quiet pf) (eval_or_throw pf code) (λ _. Quiet pf) (Quiet pf)
  unfolding eval_or_throw
  eval_or_throw-Quiet code = by_bind _ _ (executed code) evaluated

  execute_sweave-Quiet :
      (path : Bytes) (command : JsonCommand js)
      → Triple (Quiet pf) (execute_sweave pf path command) (λ _. Quiet pf) (Quiet pf)
  unfolding execute_sweave
  execute_sweave-Quiet path command = by_bind _ _ (by_gets _) λ src.
      by_bind _ _ (by_gets _) λ scratch. by_bind _ _ (assigning pf _ (λ s. refl)) λ _.
        by_bind _ _ (executed _) λ _.
          by_bind _ _
            (by_try _ _ _ (by_bind _ _ (eval_or_throw-Quiet _) λ _. by_pure false (λ s h. h))
              (λ s h. h) (λ e. by_pure true (λ s h. h)))
            λ failed.
              by_if failed _ _
                (λ _.
                  by_bind _ _
                    (by_modify {Q = λ _. Quiet pf} _ (send_output-keeps pf (Quiet-IsKept pf) true))
                    λ _. by_bind _ _ (by_gets _) λ query. schedule-Flags pf command query _)
                (λ _. by_bind _ _ (by_gets _) λ there.
                  by_bind _ _
                    (by_if there _ _ (λ _. run_texi-Quiet _ scratch src _ _)
                      (λ _. by_pure _ (λ s h. h)))
                    λ info. sweave_done-Quiet scratch command info)

  execute_r-Quiet :
      (path : Bytes) (command : JsonCommand js)
      → Triple (Quiet pf) (execute_r pf path command) (λ _. Quiet pf) (Quiet pf)
  unfolding execute_r
  execute_r-Quiet path command = by_bind _ _ (sourcing pf true) λ _.
      by_bind _ _ (eval-keeps pf (Flags-IsKept pf false false true) _) λ _.
        by_bind _ _ (flush-Flags pf) λ _. by_bind _ _ (sourcing pf false) λ _.
          by_bind _ _ (by_gets _) λ query. by_bind _ _ (schedule-Flags pf command query _) λ _.
            by_bind _ _ (by_gets _) λ watching.
              by_if watching _ _ (λ _. delay-Flags pf (delta_request pf))
                (λ _. by_pure tt (λ s h. h))

  run_file-Quiet :
      (path : Bytes) (command : JsonCommand js)
      → Triple (Quiet pf) (run_file pf path command) (λ _. Quiet pf) (Quiet pf)
  unfolding run_file
  run_file-Quiet path command = by_bind _ _ (assigning pf _ (λ s. refl)) λ _.
      by_bind _ _ (by_gets _) λ watching.
        by_bind _ _
          (by_if watching _ _ (λ _. assigning pf _ (λ s. refl)) (λ _. by_pure tt (λ s h. h)))
          λ _.
            by_if (same (extension path) (lit ".Rmd")) _ _
              (λ _. execute_rmarkdown-Quiet path command)
              (λ _.
                by_if (same (extension path) (lit ".Rnw")) _ _
                  (λ _. execute_sweave-Quiet path command)
                  (λ _.
                    by_if (same (extension path) (lit ".R")) _ _ (λ _. execute_r-Quiet path command)
                      (λ _.
                        send_error-Quiet pf execfile_invalid_input
                          (lit "unsupported file type:" ++ path))))

  pub execute_file-Quiet :
      (command : JsonCommand js)
      → Triple (Quiet pf) (execute_file pf command) (λ _. Quiet pf) (Quiet pf)
  unfolding execute_file
  execute_file-Quiet command = by_bind _ _ (lift-keeps pf _) λ text.
      by_bind _ _ (in_manager-keeps pf (Quiet-IsKept pf) _)
        λ found. by_option found _ _ (send_error-Quiet pf _ _) (λ path. run_file-Quiet path command)
