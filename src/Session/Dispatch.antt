-- ===== src/Session/Dispatch.antt =====
-- src/RSession.cpp: the other commands, and the events that lead to them.
pub mod Flags
pub mod Received
pub mod Stable
use rc2compute.Prelude.{
  Bool, true, false, not, Option, none, some, List, [], ◌∷◌, ◌++◌, map, Bytes, length, lit, ltb,
  if◌then◌else◌,
}
use rc2compute.Effects.{
  is_runtime_error, what, any_exception, ok, undefined, Exec, pure, gets, modify, try_catch, ◌>>=◌,
  ◌>>◌,
}
use rc2compute.Numbers.{ℤ, pos, lt_ℤ}
use rc2compute.Utils.{escape_quotes}
use rc2compute.InputBuffer.{append_data, has_complete_message, pop_current_message}
use rc2compute.World.{World}
use rc2compute.Command.{
  JsonCommand, CommandType, open_session, close, clear_file_changes, exec_script, exec_file, help,
  list_variables, get_variable, toggle_watch, save_data, Parsed, parsed, invalid_argument,
  other_exception, make_command, argument, start_time_str, client_data,
}
use rc2compute.FileManager.Images.{cleanup_image_watch}
use rc2compute.FileManager.Interface.{FileInfo, file_info_for_id}
use rc2compute.Session.{
  Platform, Session, Watcher, Task, exec_complete, delayed_command, in_manager, in_world, world_of,
  with_world, lift, send_json, send, format_error_as_json, exec_file_markdown_failed, eval_or_throw,
  with_query_id, image_members,
}
use rc2compute.Session.Execute.{handle_execute_script, execute_file, reset_manager_watch}
use rc2compute.Session.Opening.{handle_save_env, handle_close, handle_open}

module _ (pf : Platform) where
  open pf use {world, js, ev, watcher}
  open js use {
    J, null, parse, dump, is_null, int_at, value_bool, value_int, string, number, boolean, array,
    object,
  }

  -- The member `clientData`, unless it is null.
  unfoldable pub client_members : JsonCommand js → List (Bytes × J)
  client_members command =
      if is_null (client_data js command)
      then []
      else (lit "clientData", client_data js command) ∷ []

  unfoldable pub handle_list_variables : Bool → JsonCommand js → Exec (Session pf) (Unit {0})
  unfolding client_members
  handle_list_variables delta command = do
    vars ←
        (if delta
          then (λ s.
              let ((r, e), d) = Watcher.json_delta watcher (world_of pf s) s.env in
              (r, with_world pf d (record s { env = e })))
          else (λ s. in_world pf (λ d. Watcher.to_json watcher d s.env) s))
    send pf (
        object (
          ((lit "variables", vars)
            ∷ (lit "msg", string (lit "variableupdate"))
            ∷ (lit "delta", boolean delta)
            ∷ [])
          ++ client_members command))

  unfoldable pub handle_get_variable : JsonCommand js → Exec (Session pf) (Unit {0})
  handle_get_variable command = do
    name ← lift pf (argument js command)
    value ← (λ s. in_world pf (λ d. Watcher.to_json_named watcher d s.env name) s)
    start ← lift pf (start_time_str js command)
    send pf (
        object (
          (lit "msg", string (lit "variablevalue"))
          ∷ (lit "name", string name)
          ∷ (lit "value", value)
          ∷ (lit "startTime", string start)
          ∷ []))

  unfoldable pub handle_help : JsonCommand js → Exec (Session pf) (Unit {0})
  handle_help command = do
    topic ← lift pf (argument js command)
    modify (λ s. record s { ignore_output = true })
    try_catch
        (do
          eval_or_throw pf (lit "help(\"" ++ (escape_quotes topic ++ lit "\")"))
          d ← gets (world_of pf)
          paths ← lift pf (World.help_paths world d)
          send pf (
              object (
                (lit "msg", string (lit "help"))
                ∷ (lit "topic", string topic)
                ∷ (lit "paths", array (map string paths))
                ∷ [])))
        is_runtime_error (λ e. pure tt)
    modify (λ s. record s { ignore_output = false })

  unfoldable pub dispatch : CommandType → JsonCommand js → Exec (Session pf) (Unit {0})
  dispatch close command = handle_close pf
  dispatch clear_file_changes command = reset_manager_watch pf
  dispatch exec_script command = handle_execute_script pf command
  dispatch exec_file command = execute_file pf command
  dispatch help command = handle_help command
  dispatch list_variables command = do
    delta ← lift pf (value_bool command.cmd (lit "delta") false)
    handle_list_variables delta command
  dispatch get_variable command = handle_get_variable command
  dispatch toggle_watch command = do
    watch ← lift pf (value_bool command.cmd (lit "watch") false)
    modify (λ s. record s { watch_variables = watch })
    if watch then handle_list_variables false command else pure tt
  dispatch save_data command = handle_save_env pf
  dispatch _ command = pure tt

  unfoldable pub handle_command : JsonCommand js → Exec (Session pf) (Unit {0})
  handle_command command = do
    is_open ← gets (λ s. s.opened)
    if not is_open then pure tt else do
      query_id ← lift pf (value_int command.cmd (lit "queryId") (pos 0))
      modify (λ s. record s { current_query_id = query_id })
      dispatch command.type command

  -- An exception of the parser that is not `invalid_argument` leaves `doc` null, and goes on.
  abbrev pub document : Parsed J → Option J
  document (parsed doc) = some doc
  document invalid_argument = none
  document other_exception = some null

  -- Whether the command ran to its end; a duplicate `open` returns before `currentQueryId` is reset.
  unfoldable pub run_document : CommandType → J → Exec (Session pf) Bool
  run_document memory doc = do
    command ← lift pf (make_command js memory doc)
    is_open ← gets (λ s. s.opened)
    elim command.type [
      | open_session ↦ if is_open then pure false else (do handle_open pf command; pure true)
      | _ ↦ (do handle_command command; pure true)
    ]

  -- `memory` is what the memory of the command's type holds before its constructor runs. The third
  -- argument of the error's format is `true`, so its query id is 1.
  unfoldable pub handle_json_command : CommandType → Bytes → Exec (Session pf) (Unit {0})
  unfolding run_document
  handle_json_command memory json =
      if ltb (length json) 1 then pure tt else elim (document (parse json)) [
        | none ↦ pure tt
        | some doc ↦ (do
          done ← try_catch (run_document memory doc) is_runtime_error (λ e. do
            modify
                (send_json pf (format_error_as_json pf exec_file_markdown_failed (what e) (pos 1)))
            pure true)
          if done then modify (λ s. record s { current_query_id = pos 0 }) else pure tt)
      ]

  -- `handleJsonStatic`: one read from the socket. The buffer's undefined read is the session's.
  unfoldable pub handle_read : CommandType → Bytes → Exec (Session pf) (Unit {0})
  handle_read memory chunk =
      try_catch
        (λ s. elim (append_data ev s.input chunk) [
          | none ↦ (undefined, s)
          | some m ↦
              if has_complete_message ev m
              then (let (json, n) = pop_current_message ev m in
                  handle_json_command memory json (record s { input = n }))
              else (ok tt, record s { input = m })
        ])
        any_exception (λ e. pure tt)

  unfoldable pub acknowledge : JsonCommand js → ℤ → Bool → Exec (Session pf) Bytes
  unfolding client_members
  acknowledge command query_id expect_show_output = do
    in_manager pf (cleanup_image_watch world)
    start ← lift pf (start_time_str js command)
    images ← gets (image_members pf)
    pure (
        dump (
          object (
            with_query_id pf query_id
              ((lit "msg", string (lit "execComplete")) ∷ (lit "startTime", string start) ∷ [])
            ++ (client_members command
                ++ ((lit "expectShowOutput", boolean expect_show_output) ∷ images)))))

  show_output : FileInfo → J
  show_output info = object (
      (lit "msg", string (lit "showoutput"))
      ∷ (lit "fileId", number info.id)
      ∷ (lit "fileName", string info.name)
      ∷ (lit "fileVersion", number info.version)
      ∷ [])

  -- `handleExecComplete` and `handleDelayedCommand`, when a scheduled event fires.
  unfoldable pub run_task : CommandType → Task pf → Exec (Session pf) (Unit {0})
  unfolding show_output
  run_task memory (delayed_command json) = handle_json_command memory json
  run_task memory (exec_complete command query_id info) = do
    let has_file = lt_ℤ (pos 0) info.id
    json ← acknowledge command query_id has_file
    modify (send_json pf json)
    if has_file
        then (do
          found ← in_manager pf (file_info_for_id world info.id)
          send pf (show_output (elim found [ none ↦ info | some i ↦ i ])))
        else pure tt
