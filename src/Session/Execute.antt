-- ===== src/Session/Execute.antt =====
-- src/RSession.cpp: the commands that run a script or a file.
pub mod Flags
pub mod Files
pub mod Stable
use rc2compute.Prelude.{
  Bool, true, false, ◌&&◌, none, some, ◌++◌, Bytes, lit, same, ltb, if◌then◌else◌,
}
use rc2compute.Effects.{
  runtime_error, is_runtime_error, ok, raised, Exec, pure, gets, modify, try_catch, ◌>>=◌, ◌>>◌,
}
use rc2compute.Numbers.{atol, show}
use rc2compute.Utils.{escape_quotes, temporary_directory}
use rc2compute.World.{EvalResult, pe_success, pe_incomplete, pe_error}
use rc2compute.Command
use rc2compute.Command.{JsonLib, JsonCommand, argument}
use rc2compute.FileManager.Interface.{
  FileInfo, no_file, reset_watch, find_or_add_file, file_path_for_id,
}
use rc2compute.Session.{
  Platform, Session, Watcher, ErrorCode, in_manager, in_world, world_of, with_world, lift,
  send_json, format_error_as_json, unknown_file, execfile_invalid_input, exec_file_markdown_failed,
  send_text, eval, eval_or_throw, send_output, flush_output_buffer, schedule_exec_complete,
  schedule_delayed_command, suspended,
}

module _ (pf : Platform) where
  open pf use {world, js, watcher}
  open world use {
    append_path, stem, extension, parent_path, exists, file_size, copy_file, create_directories,
    texi2pdf,
  }

  -- `fs::copy_file` with overwriting; it throws a filesystem_error.
  pub copy : Bytes → Bytes → Exec (Session pf) (Unit {0})
  copy from to s = elim (copy_file (world_of pf s) from to) [
    | none ↦ (raised (runtime_error (lit "boost::filesystem::copy_file")), s)
    | some next ↦ (ok tt, with_world pf next s)
  ]

  abbrev pub capture : Exec (Session pf) (Unit {0})
  capture =
      modify (λ s. record s { env = Watcher.capture_environment watcher (world_of pf s) s.env })

  abbrev pub reset_manager_watch : Exec (Session pf) (Unit {0})
  reset_manager_watch = modify (λ s. record s { manager = reset_watch world s.manager })

  abbrev pub delta_request : Bytes
  delta_request = lit "{\"msg\":\"listVariables\", \"delta\":true}"

  pub send_error : ErrorCode → Bytes → Exec (Session pf) (Unit {0})
  send_error code details =
      modify (λ s. send_json pf (format_error_as_json pf code details s.current_query_id) s)

  -- The tail of `handleExecuteScript`, after the evaluation.
  unfoldable pub script_done : JsonCommand js → Bool → EvalResult → Exec (Session pf) (Unit {0})
  script_done command send_delta pe_success = do
    query_id ← gets (λ s. s.current_query_id)
    schedule_exec_complete pf command query_id no_file
    if send_delta then schedule_delayed_command pf delta_request else pure tt
  script_done command send_delta pe_incomplete =
      modify (send_text pf (lit "Incomplete R statement\n") true)
  script_done command send_delta pe_error = pure tt

  unfoldable pub handle_execute_script : JsonCommand js → Exec (Session pf) (Unit {0})
  unfolding script_done
  handle_execute_script command = do
    code ← lift pf (argument js command)
    watching ← gets (λ s. s.watch_variables)
    send_delta ← (if watching then pure true else lift pf (Command.watch_variables js command))
    if send_delta then capture else pure tt
    reset_manager_watch
    result ← eval pf code
    flush_output_buffer pf
    script_done command send_delta result

  abbrev in_tmp : Bytes → Session pf → Bytes
  in_tmp name s = append_path s.tmp_dir name

  -- The scope of the first `NotifySuspender`: whether R produced the page. The second assignment
  -- to `captureStdOut` converts a string literal to `true`; `stdOutCapture` is not emptied.
  render : Bytes → Bytes → Bytes → Exec (Session pf) Bool
  render code tmp_html html = suspended pf (do
    modify (λ s. record s { capture_std_out = true })
    modify (λ s. record s { capture_std_out = true })
    eval pf code
    modify (λ s. record s { capture_std_out = false })
    flush_output_buffer pf
    there ← gets (λ s. exists (world_of pf s) tmp_html)
    if there then copy tmp_html html else pure tt
    pure there)

  has_content : Bytes → Session pf → Bool
  has_content path s =
      exists (world_of pf s) path
      && elim (file_size (world_of pf s) path) [ none ↦ true | some n ↦ ltb 0 n ]

  unfoldable pub execute_rmarkdown : Bytes → JsonCommand js → Exec (Session pf) (Unit {0})
  unfolding copy render has_content send_error
  execute_rmarkdown file_name command = do
    tmp ← in_world pf (temporary_directory world)
    let html_name = stem file_name ++ lit ".html"
    html ← gets (in_tmp html_name)
    src ← gets (in_tmp file_name)
    copy src (append_path tmp file_name)
    generated ←
        render
          (lit "setwd('"
            ++ (tmp
                ++ (lit "');render(\""
                    ++ (escape_quotes file_name ++ lit "\", output_format=html_document());"))))
          (append_path tmp html_name) html
    dir ← gets (λ s. s.tmp_dir)
    eval pf (lit "setwd(\"" ++ (dir ++ lit "\");options(dev=\"rc2.pngdev\", bitmapType=\"cairo\")"))
    filled ← gets (has_content html)
    if generated && filled
        then suspended pf (do
          info ← in_manager pf (find_or_add_file world html_name)
          query_id ← gets (λ s. s.current_query_id)
          schedule_exec_complete pf command query_id info)
        else (do
          captured ← gets (λ s. s.std_out_capture)
          send_error exec_file_markdown_failed (lit "failed to generate html:" ++ captured))

  -- After the PDF was made or not. `baseName = ".log"` is an assignment, so the log is copied to a
  -- file of that name.
  take_pdf : Bytes → Bytes → Bytes → Bytes → Exec (Session pf) FileInfo
  unfolding copy has_content
  take_pdf scratch src base_name pdf_name = do
    let generated = append_path scratch pdf_name
    dest ← gets (in_tmp pdf_name)
    filled ← gets (has_content generated)
    if filled
        then (do copy generated dest; in_manager pf (find_or_add_file world pdf_name))
        else (do
          let log = append_path scratch (base_name ++ lit ".log")
          there ← gets (λ s. exists (world_of pf s) log)
          if there then copy log (append_path (parent_path src) (lit ".log")) else pure tt
          pure no_file)

  run_texi : Bytes → Bytes → Bytes → Bytes → Bytes → Exec (Session pf) FileInfo
  unfolding take_pdf
  run_texi tex scratch src base_name pdf_name = do
    modify (λ s. record s { ignore_output = true })
    modify (λ s. with_world pf (texi2pdf (world_of pf s) tex) s)
    modify (λ s. record s { ignore_output = false })
    take_pdf scratch src base_name pdf_name

  sweave_done : Bytes → JsonCommand js → FileInfo → Exec (Session pf) (Unit {0})
  sweave_done scratch command info = do
    eval pf (lit "setwd('" ++ (escape_quotes (parent_path scratch) ++ lit "')"))
    modify (λ s. record s { ignore_output = false })
    flush_output_buffer pf
    query_id ← gets (λ s. s.current_query_id)
    schedule_exec_complete pf command query_id info

  unfoldable pub execute_sweave : Bytes → JsonCommand js → Exec (Session pf) (Unit {0})
  unfolding run_texi sweave_done
  execute_sweave file_path command = do
    src ← gets (in_tmp file_path)
    let base_name = stem src
    scratch ← gets (in_tmp (lit ".rc2sw"))
    modify (λ s. with_world pf (create_directories (world_of pf s) scratch) s)
    eval pf (lit "setwd('" ++ (escape_quotes scratch ++ lit "')"))
    failed ←
        try_catch
          (do
            eval_or_throw pf
                (lit "Sweave('../" ++ (escape_quotes file_path ++ lit "', encoding='UTF-8')"))
            pure false)
          is_runtime_error (λ e. pure true)
    if failed
        then (do
          modify (send_output pf true)
          query_id ← gets (λ s. s.current_query_id)
          schedule_exec_complete pf command query_id no_file)
        else (do
          let tex = append_path scratch (base_name ++ lit ".tex")
          there ← gets (λ s. exists (world_of pf s) tex)
          info ←
              (if there
                then run_texi tex scratch src base_name (base_name ++ lit ".pdf")
                else pure no_file)
          sweave_done scratch command info)

  unfoldable pub execute_r : Bytes → JsonCommand js → Exec (Session pf) (Unit {0})
  execute_r path command = do
    modify (λ s. record s { source_in_progress = true })
    eval pf (lit "source(file=\"" ++ (escape_quotes path ++ lit "\", echo=TRUE)"))
    flush_output_buffer pf
    modify (λ s. record s { source_in_progress = false })
    query_id ← gets (λ s. s.current_query_id)
    schedule_exec_complete pf command query_id no_file
    watching ← gets (λ s. s.watch_variables)
    if watching then schedule_delayed_command pf delta_request else pure tt

  -- `clearFileChanges` fills a document that is thrown away, and changes nothing.
  run_file : Bytes → JsonCommand js → Exec (Session pf) (Unit {0})
  unfolding execute_rmarkdown execute_sweave execute_r send_error
  run_file path command = do
    reset_manager_watch
    watching ← gets (λ s. s.watch_variables)
    if watching then capture else pure tt
    if same (extension path) (lit ".Rmd")
        then execute_rmarkdown path command
        else if same (extension path) (lit ".Rnw")
        then execute_sweave path command
        else if same (extension path) (lit ".R")
        then execute_r path command
        else send_error execfile_invalid_input (lit "unsupported file type:" ++ path)

  unfoldable pub execute_file : JsonCommand js → Exec (Session pf) (Unit {0})
  unfolding run_file send_error
  execute_file command = do
    text ← lift pf (argument js command)
    found ← in_manager pf (file_path_for_id world (atol text))
    elim found [
      | none ↦ send_error unknown_file (lit "unknown file:" ++ show (atol text))
      | some path ↦ run_file path command
    ]
