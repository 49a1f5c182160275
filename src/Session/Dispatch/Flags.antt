-- ===== src/Session/Dispatch/Flags.antt =====
-- src/RSession.cpp: the flags after a command, and after every event of the session.
use rc2compute.Prelude.{
  ◌≡◌, List, refl, Bool, true, false, not, Bytes, lit, length, ltb, if◌then◌else◌,
}
use rc2compute.Effects.{
  Exn, Exec, Result, ok, raised, undefined, gets, runtime_error, is_runtime_error, pure, raise,
  try_catch, ◌>>=◌, ◌>>◌,
}
use rc2compute.Effects.Hoare.{
  Post, Triple, by_bind, by_if, by_pure, by_gets, by_modify, by_try, by_state, by_option,
}
use rc2compute.World.{World, AnswersHelp, EvalResult, pe_success, pe_incomplete, pe_error}
use rc2compute.Command.{
  JsonLib, JsonCommand, CommandType, unknown, open_session, close, clear_file_changes, exec_script,
  exec_file, help, list_variables, get_variable, toggle_watch, save_data,
}
use rc2compute.Session.{
  Platform, Session, Watcher, lift, world_of, with_world, eval, console_callbacks, eval_or_throw,
}
use rc2compute.Session.Execute.Flags.{handle_execute_script-Quiet}
use rc2compute.Session.Execute.Files.{execute_file-Quiet}
use rc2compute.Session.Opening.{handle_open}
use rc2compute.Session.Opening.Flags.{handle_save_env-Quiet, handle_close-Quiet, handle_open-Quiet}
use rc2compute.Session.Printing.{
  console_callbacks-keeps, send_json-keeps, in_world-keeps, lift-keeps,
}
use rc2compute.Session.Flags.{
  assigning, sending, Flags, Quiet, Quiet-IsKept, Flags-IsKept, same_flags, ignoring,
}
use rc2compute.Session.Dispatch.{
  handle_list_variables, handle_get_variable, handle_help, dispatch, handle_command, document,
  run_document, handle_json_command,
}

module _ (pf : Platform) (helps : AnswersHelp pf.world) where
  open pf use {world, js, watcher}
  open js use {J, dump, object, string, array}

  listed : (r : Result J) (t : Session pf) → Quiet pf t → Post (λ _. Quiet pf) (Quiet pf) (r, t)
  listed r t h = by_state (Quiet pf) r t h

  changes-Quiet :
      Triple
        (Quiet pf)
        (λ s.
          let ((r, e), d) = Watcher.json_delta watcher (world_of pf s) s.env in
          (r, with_world pf d (record s { env = e })))
        (λ _. Quiet pf)
        (Quiet pf)
  changes-Quiet = record {
    at = λ s h.
        let ((r, e), d) = Watcher.json_delta watcher (world_of pf s) s.env in
        listed r (with_world pf d (record s { env = e })) (same_flags pf s _ refl h);
  }

  handle_list_variables-Quiet :
      (delta : Bool) (command : JsonCommand js)
      → Triple (Quiet pf) (handle_list_variables pf delta command) (λ _. Quiet pf) (Quiet pf)
  unfolding handle_list_variables
  handle_list_variables-Quiet delta command =
      by_bind _ _
        (by_if delta _ _ (λ _. changes-Quiet)
          (λ _. record {
            at = λ s h.
                (in_world-keeps pf (Quiet-IsKept pf) (λ d. Watcher.to_json watcher d s.env)).at s h;
          }))
        λ vars. sending pf _

  handle_get_variable-Quiet :
      (command : JsonCommand js)
      → Triple (Quiet pf) (handle_get_variable pf command) (λ _. Quiet pf) (Quiet pf)
  unfolding handle_get_variable
  handle_get_variable-Quiet command = by_bind _ _ (lift-keeps pf _) λ name.
      by_bind _ _
        (record {
          at = λ s h.
              (in_world-keeps pf (Quiet-IsKept pf)
                  (λ d. Watcher.to_json_named watcher d s.env name)).at
                s h;
        })
        λ value. by_bind _ _ (lift-keeps pf _) λ start. sending pf _

  Unheard : Session pf → Type 0
  Unheard = Flags pf true false false

  -- What is thrown where the paths are taken out of the answer is caught.
  answered :
      {E : Session pf → Type 0} (r : Result (List Bytes))
      (f : List Bytes → Exec (Session pf) (Unit {0}))
      → ((e : Exn) → r ≡ raised e → is_runtime_error e ≡ true)
      → ((paths : List Bytes) → Triple Unheard (f paths) (λ _. Unheard) (λ _. ⊥))
      → Triple Unheard
          (try_catch (lift pf r >>= f) is_runtime_error (λ e. pure tt))
          (λ _. Unheard)
          E
  unfolding try_catch ◌>>=◌ pure
  answered (ok paths) f takes k =
      by_try (f paths) is_runtime_error (λ e. pure tt) (k paths) (λ t x. absurd x)
        (λ e. record { at = λ t x. absurd x })
  answered (raised e) f takes k = record { at = λ s h. rw (takes e refl) h }
  answered undefined f takes k = record { at = λ s h. tt }

  -- What a failure of R throws is caught.
  tried :
      (E : Session pf → Type 0) (rest : Exec (Session pf) (Unit {0})) (result : EvalResult)
      (s : Session pf)
      → Triple Unheard (try_catch rest is_runtime_error (λ e. pure tt)) (λ _. Unheard) E
      → Unheard s
      → Post
          (λ _. Unheard)
          E
          (try_catch
            ((elim result as (λ _. Exec (Session pf) (Unit {0})) [
              | pe_success ↦ pure tt
              | _ ↦ raise (runtime_error (lit "R error"))
            ])
              >> rest)
            is_runtime_error
            (λ e. pure tt)
            s)
  unfolding try_catch ◌>>=◌ pure raise is_runtime_error
  tried E rest pe_success s k h = k.at s h
  tried E rest pe_incomplete s k h = h
  tried E rest pe_error s k h = h

  eval_or_throw-tried :
      {E : Session pf → Type 0} (code : Bytes) (rest : Exec (Session pf) (Unit {0}))
      → Triple Unheard (try_catch rest is_runtime_error (λ e. pure tt)) (λ _. Unheard) E
      → Triple Unheard
          (try_catch (eval_or_throw pf code >> rest) is_runtime_error (λ e. pure tt))
          (λ _. Unheard)
          E
  unfolding try_catch ◌>>=◌ eval_or_throw eval Unheard
  eval_or_throw-tried {E} code rest k = record {
    at = λ s h.
        let ((result, console), next) = World.eval world (world_of pf s) code in
        tried E rest result (console_callbacks pf (with_world pf next s) console) k (
          console_callbacks-keeps pf (Flags-IsKept pf true false false) _ console
            ((Flags-IsKept pf true false false).by_manager s _ h));
  }

  handle_help-Quiet :
      (command : JsonCommand js)
      → Triple (Quiet pf) (handle_help pf command) (λ _. Quiet pf) (Quiet pf)
  unfolding handle_help Unheard try_catch ◌>>=◌ gets
  handle_help-Quiet command = by_bind _ _ (lift-keeps pf _) λ topic.
      by_bind _ _ (ignoring pf true) λ _.
        by_bind _ _
          (eval_or_throw-tried _ _ (record {
            at = λ s h.
                (answered (World.help_paths world (world_of pf s)) _
                    (helps.converts (world_of pf s))
                    (λ paths.
                      by_modify _ (send_json-keeps pf (Flags-IsKept pf true false false) _))).at
                  s h;
          }))
          λ _. ignoring pf {i = true} false

  dispatch-Quiet :
      (type : CommandType) (command : JsonCommand js)
      → Triple (Quiet pf) (dispatch pf type command) (λ _. Quiet pf) (Quiet pf)
  unfolding dispatch
  dispatch-Quiet close command = handle_close-Quiet pf
  dispatch-Quiet clear_file_changes command = assigning pf _ (λ s. refl)
  dispatch-Quiet exec_script command = handle_execute_script-Quiet pf command
  dispatch-Quiet exec_file command = execute_file-Quiet pf command
  dispatch-Quiet help command = handle_help-Quiet command
  dispatch-Quiet list_variables command =
      by_bind _ _ (lift-keeps pf _) λ delta. handle_list_variables-Quiet delta command
  dispatch-Quiet get_variable command = handle_get_variable-Quiet command
  dispatch-Quiet toggle_watch command = by_bind _ _ (lift-keeps pf _) λ watch.
      by_bind _ _ (assigning pf _ (λ s. refl)) λ _.
        by_if watch _ _ (λ _. handle_list_variables-Quiet false command)
          (λ _. by_pure tt (λ s h. h))
  dispatch-Quiet save_data command = handle_save_env-Quiet pf
  dispatch-Quiet unknown command = by_pure tt (λ s h. h)
  dispatch-Quiet open_session command = by_pure tt (λ s h. h)

  handle_command-Quiet :
      (command : JsonCommand js)
      → Triple (Quiet pf) (handle_command pf command) (λ _. Quiet pf) (Quiet pf)
  unfolding handle_command
  handle_command-Quiet command = by_bind _ _ (by_gets _) λ is_open.
      by_if (not is_open) _ _ (λ _. by_pure tt (λ s h. h))
        λ _.
          by_bind _ _ (lift-keeps pf _) λ query.
            by_bind _ _ (assigning pf _ (λ s. refl)) λ _. dispatch-Quiet command.type command

  obeyed :
      (type : CommandType) (is_open : Bool) (command : JsonCommand js)
      → Triple
          (Quiet pf)
          (elim type as (λ _. Exec (Session pf) Bool) [
            | open_session ↦ if is_open then pure false else (do handle_open pf command; pure true)
            | _ ↦ (do handle_command pf command; pure true)
          ])
          (λ _. Quiet pf)
          (Quiet pf)
  obeyed open_session is_open command =
      by_if is_open _ _ (λ _. by_pure false (λ s h. h))
        (λ _. by_bind _ _ (handle_open-Quiet pf command) λ _. by_pure true (λ s h. h))
  obeyed _ is_open command = by_bind _ _ (handle_command-Quiet command) λ _. by_pure true (λ s h. h)

  run_document-Quiet :
      (memory : CommandType) (doc : J)
      → Triple (Quiet pf) (run_document pf memory doc) (λ _. Quiet pf) (Quiet pf)
  unfolding run_document
  run_document-Quiet memory doc =
      by_bind _ _ (lift-keeps pf _)
        λ command. by_bind _ _ (by_gets _) λ is_open. obeyed command.type is_open command

  pub handle_json_command-Quiet :
      (memory : CommandType) (json : Bytes)
      → Triple (Quiet pf) (handle_json_command pf memory json) (λ _. Quiet pf) (Quiet pf)
  unfolding handle_json_command
  handle_json_command-Quiet memory json =
      by_if (ltb (length json) 1) _ _ (λ _. by_pure tt (λ s h. h))
        λ _. by_option (document pf (JsonLib.parse js json)) _ _ (by_pure tt (λ s h. h)) λ doc.
          by_bind _ _
            (by_try _ _ _ (run_document-Quiet memory doc) (λ s h. h)
              λ e.
                by_bind _ _
                  (by_modify {Q = λ _. Quiet pf} _ (send_json-keeps pf (Quiet-IsKept pf) _))
                  λ _. by_pure true (λ s h. h))
            λ done. by_if done _ _ (λ _. assigning pf _ (λ s. refl)) (λ _. by_pure tt (λ s h. h))
