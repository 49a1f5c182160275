-- ===== src/Session/Dispatch/Stable.antt =====
-- src/RSession.cpp: a dispatched command keeps what every command keeps.
use rc2compute.Prelude.{
  ◌≡◌, ◌∙◌, not, arith, lit, true, refl, Bool, true, false, Bytes, length, ltb, if◌then◌else◌,
}
use rc2compute.Effects.{modify, Exec, pure, ◌>>=◌, ◌>>◌}
use rc2compute.Effects.Hoare.{by_state, by_bind, by_reads, by_if, by_pure, by_before, by_weaken}
use rc2compute.Effects.Keeps.{
  Keeps, Keeps-pure, Keeps-gets, Keeps-if, Keeps-try, Keeps-option, Keeps-bind,
}
use rc2compute.Numbers.{ℤ, pos}
use rc2compute.InputBuffer.{InputBuffer}
use rc2compute.Command.{
  JsonLib, JsonCommand, CommandType, open_session, close, clear_file_changes, exec_script,
  exec_file, help, list_variables, get_variable, toggle_watch, save_data, unknown,
}
use rc2compute.Session.{
  lift, Platform, Session, Watcher, world_of, with_world, Task, exec_complete, delayed_command,
}
use rc2compute.Session.Stable.{
  IsStable, IsLasting, with_fact, opened-IsStable, Keeps-assign, Keeps-lift, Keeps-send_json,
  Keeps-in_world, session_rules,
}
use rc2compute.Session.Execute.Stable.{Keeps-handle_execute_script, Keeps-execute_file}
use rc2compute.Session.Opening.Stable.{Keeps-handle_save_env, Keeps-handle_close, Keeps-handle_open}
use rc2compute.Session.Opening.{handle_open}
use rc2compute.Session.Dispatch.Received.{by_read}
use rc2compute.Session.Dispatch.{
  handle_list_variables, handle_get_variable, handle_help, dispatch, handle_command, document,
  run_document, handle_json_command, handle_read, acknowledge, run_task,
}

module _ (pf : Platform) {P : Session pf → Type 0} (k : IsStable pf P)
    (closes : (s : Session pf) → P s → P (record s { properly_closed = true }))
    (breaks : (s : Session pf)
      → s.properly_closed ≡ true
      → P s
      → P (record s { loop_broken = true })) where
  open pf use {world, js, ev, watcher}
  open js use {J}

  Keeps-handle_list_variables :
      (delta : Bool) (command : JsonCommand js) → Keeps P (handle_list_variables pf delta command)
  unfolding handle_list_variables
  Keeps-handle_list_variables delta command =
      Keeps-bind _ _
        (Keeps-if delta _ _
          (record {
            both = record {
              at = λ s h.
                  let ((r, e), d) = Watcher.json_delta watcher (world_of pf s) s.env in
                  by_state P r (with_world pf d (record s { env = e })) (k.unchanged s _ refl h);
            };
          })
          (Keeps-in_world pf k λ s d. Watcher.to_json watcher d s.env))
        λ vars. Keeps-send_json pf k _

  Keeps-handle_get_variable : (command : JsonCommand js) → Keeps P (handle_get_variable pf command)
  unfolding handle_get_variable
  Keeps-handle_get_variable command = Keeps-bind _ _ (Keeps-lift pf k _) λ name.
      Keeps-bind _ _ (Keeps-in_world pf k λ s d. Watcher.to_json_named watcher d s.env name)
        λ value. search session_rules

  Keeps-handle_help : (command : JsonCommand js) → Keeps P (handle_help pf command)
  unfolding handle_help
  Keeps-handle_help command = search session_rules depth 25 fits 3000

  Keeps-dispatch :
      (type : CommandType) (command : JsonCommand js) → Keeps P (dispatch pf type command)
  unfolding dispatch
  Keeps-dispatch close command = Keeps-handle_close pf k closes breaks
  Keeps-dispatch clear_file_changes command = search session_rules
  Keeps-dispatch exec_script command = Keeps-handle_execute_script pf k command
  Keeps-dispatch exec_file command = Keeps-execute_file pf k command
  Keeps-dispatch help command = Keeps-handle_help command
  Keeps-dispatch list_variables command = search (session_rules, Keeps-handle_list_variables)
  Keeps-dispatch get_variable command = Keeps-handle_get_variable command
  Keeps-dispatch toggle_watch command = search (session_rules, Keeps-handle_list_variables) depth 25
  Keeps-dispatch save_data command = Keeps-handle_save_env pf k
  Keeps-dispatch unknown command = search session_rules
  Keeps-dispatch open_session command = search session_rules

module _ (pf : Platform) {P : Session pf → Type 0} (k : IsStable pf P) (l : IsLasting pf P) where
  open pf use {world, js, ev}
  open js use {J}

  -- Only a session that is open runs a command.
  Keeps-handle_command : (command : JsonCommand js) → Keeps P (handle_command pf command)
  unfolding handle_command
  Keeps-handle_command command = record {
    both = by_bind _ _ (by_reads (λ s. s.opened)) λ is_open.
        by_if (not is_open) _ _ (λ _. by_pure tt (λ s h. h.0))
          λ off.
            by_before _ (λ s h. (h.0, h.1 ∙ ground (arith, off)))
              (by_weaken _ (λ a s h. h.0) (λ s h. h.0) (obeys command).both);
  }
    where
      Running : Session pf → Type 0
      Running s = P s × (s.opened ≡ true)

      running : IsStable pf Running
      running = with_fact pf k (opened-IsStable pf true)

      obeys :
          (command : JsonCommand js)
          → Keeps Running (do
            query_id ← lift pf (JsonLib.value_int js command.cmd (lit "queryId") (pos 0))
            modify (λ s. record s { current_query_id = query_id })
            dispatch pf command.type command)
      obeys command = Keeps-bind _ _ (Keeps-lift pf running _) λ query.
          Keeps-bind _ _ (Keeps-assign pf running _ (λ s. refl)) λ _.
            Keeps-dispatch pf running (λ s h. (l.closes s h.1 h.0, h.1))
              (λ s closed h. (l.breaks s closed h.0, h.1)) command.type command

  obeyed :
      (type : CommandType) (is_open : Bool) (command : JsonCommand js)
      → Keeps P (elim type as (λ _. Exec (Session pf) Bool) [
        | open_session ↦ if is_open then pure false else (do handle_open pf command; pure true)
        | _ ↦ (do handle_command pf command; pure true)
      ])
  obeyed open_session is_open command = search (session_rules, Keeps-handle_open pf k l.opens)
  obeyed _ is_open command = search (session_rules, Keeps-handle_command)

  Keeps-run_document : (memory : CommandType) (doc : J) → Keeps P (run_document pf memory doc)
  unfolding run_document
  Keeps-run_document memory doc =
      Keeps-bind _ _ (Keeps-lift pf k _)
        λ command. Keeps-bind _ _ (Keeps-gets _) λ is_open. obeyed command.type is_open command

  pub Keeps-handle_json_command :
      (memory : CommandType) (json : Bytes) → Keeps P (handle_json_command pf memory json)
  unfolding handle_json_command
  Keeps-handle_json_command memory json = Keeps-if (ltb (length json) 1) _ _ (Keeps-pure tt) (
      Keeps-option (document pf (JsonLib.parse js json)) _ _ (Keeps-pure tt) λ doc.
        Keeps-bind _ _ (Keeps-try _ _ _ (Keeps-run_document memory doc) λ e. search session_rules)
          λ done. search session_rules)

  Keeps-acknowledge_json :
      (command : JsonCommand js) (query : ℤ) (expect : Bool)
      → Keeps P (acknowledge pf command query expect)
  unfolding acknowledge
  Keeps-acknowledge_json command query expect = search session_rules depth 25 fits 3000

  pub Keeps-run_task : (memory : CommandType) (task : Task pf) → Keeps P (run_task pf memory task)
  unfolding run_task
  Keeps-run_task memory (delayed_command json) = Keeps-handle_json_command memory json
  Keeps-run_task memory (exec_complete command query info) =
      search (session_rules, Keeps-acknowledge_json) depth 25 fits 3000

  -- A read also changes what is waiting to be read.
  pub Keeps-handle_read :
      ((s : Session pf) (n : InputBuffer ev) → P s → P (record s { input = n }))
      → (memory : CommandType) (chunk : Bytes) → Keeps P (handle_read pf memory chunk)
  Keeps-handle_read reads memory chunk = record {
    both = by_read pf reads (λ m json. (Keeps-handle_json_command m json).both) memory chunk;
  }
