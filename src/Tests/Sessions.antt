-- ===== src/Tests/Sessions.antt =====
-- A session with a socket, text that is pending, and one file.
use rc2compute.Prelude.{◌≡◌, refl, subst, sym, true, false, some, [], ◌∷◌, ◌++◌, arith, lit, same}
use rc2compute.Effects.{ok}
use rc2compute.Effects.Hoare.{Post}
use rc2compute.Numbers.{pos}
use rc2compute.Command.{unknown, help, open_session, make_command, command_type}
use rc2compute.Session.{
  Platform, Session, flush_output_buffer, format_error_as_json, exec_file_markdown_failed,
}
use rc2compute.Session.Opening.{handle_close}
use rc2compute.Session.Dispatch.{run_document, handle_json_command, handle_read}
use rc2compute.Session.Closing.{handle_close-once}
use rc2compute.Session.Output.{sent, message, flush_output_buffer-sends}
use rc2compute.Session.Commands.{handle_json_command-refused}
use rc2compute.Tests.{platform, session, platform_over, session_over, test_world, own_text}
use rc2compute.Effects.{runtime_error, is_runtime_error, what, raised, try_catch, ◌>>=◌}
use rc2compute.Frame.{frame}
use rc2compute.Command.{JsonLib}
use rc2compute.Session.{Watcher}
use rc2compute.Session.Reading.{handle_read-command, handle_json_command-answers}
use rc2compute.World.{AnswersHelp}
use rc2compute.Command
use rc2compute.Command.{JsonCommand, exec_script, argument}
use rc2compute.FileManager.Interface.{no_file}
use rc2compute.Session.{exec_complete, delayed_command}
use rc2compute.Session.Execute.{handle_execute_script, delta_request}
use rc2compute.Session.Steps.{start, step, bytes_read}
use rc2compute.InputBuffer.{init}
use rc2compute.Numbers.{lt_ℤ}
use rc2compute.Effects.Hoare.{IsDefined}
use rc2compute.Session.Starting.{new_session, start_session, start_session-quiet}
use rc2compute.Session.Scheduling.{scheduled, handle_execute_script-schedules}

handle_close-once_example :
    Post
      (λ _ t. (t.loop_broken ≡ true) × (handle_close platform t ≡ (ok tt, t)))
      (λ t. (t.loop_broken ≡ false) × (handle_close platform t ≡ (ok tt, t)))
      (handle_close platform session)
handle_close-once_example = handle_close-once platform session refl

flush_output_buffer-sends_example :
    let (r, t) = flush_output_buffer platform session in
    (r ≡ ok tt)
    × (t.console_out ≡ [])
    × (t.ignore_output ≡ false)
    × (t.written ≡ session.written ++ message platform false session)
flush_output_buffer-sends_example = flush_output_buffer-sends platform session refl

abbrev opened_session : Session platform
opened_session = record session { opened = true }

handle_json_command-refused_example :
    handle_json_command platform unknown (lit "open") opened_session ≡ (ok tt, opened_session)
unfolding lit make_command command_type same
handle_json_command-refused_example =
    handle_json_command-refused platform unknown (lit "open") (lit "open")
      (record { cmd = lit "open"; type = open_session }) opened_session (omega arith) refl refl refl

-- Documents of which no member can be read.
abbrev no_text : JsonLib
no_text = record own_text { string_at = λ t key. raised (runtime_error key) }

abbrev no_text_watcher : Watcher test_world no_text
no_text_watcher = record {
  Env = Unit {0};
  capture_environment = λ d e. e;
  to_json = λ d e. (ok [], d);
  to_json_named = λ d e t. (ok [], d);
  json_delta = λ d e. ((ok [], e), d);
}

abbrev no_text_platform : Platform
no_text_platform = platform_over no_text_watcher

abbrev no_text_session : Session no_text_platform
no_text_session = session_over no_text_watcher tt tt

handle_json_command-answers_example :
    let answer =
      format_error_as_json no_text_platform exec_file_markdown_failed (lit "msg") (pos 1) in
    let (r, u) = handle_json_command no_text_platform unknown (lit "help") no_text_session in
    (r ≡ ok tt)
    × (u.written ≡ [] ++ sent no_text_platform answer no_text_session)
    × (u.current_query_id ≡ pos 0)
unfolding run_document make_command ◌>>=◌ is_runtime_error what lit
handle_json_command-answers_example =
    handle_json_command-answers no_text_platform unknown (lit "help") (lit "help")
      (runtime_error (lit "msg")) no_text_session no_text_session (omega arith) refl refl

-- A session that watches the variables, with an event scheduled, answering the query 9.
abbrev watching_session : Session platform
watching_session = record session {
  watch_variables = true;
  current_query_id = pos 9;
  tasks = delayed_command (lit "{}") ∷ [];
}

abbrev script : JsonCommand own_text
script = record { cmd = lit "x"; type = exec_script }

handle_execute_script-schedules_example :
    Post
      (λ _ t.
        t.tasks
        ≡ delayed_command (lit "{}")
          ∷ exec_complete script (pos 9) no_file
          ∷ delayed_command (delta_request platform)
          ∷ [])
      (λ _. ⊥)
      (handle_execute_script platform script watching_session)
unfolding argument Command.watch_variables scheduled
handle_execute_script-schedules_example =
    handle_execute_script-schedules platform script (lit "x") false watching_session refl refl

-- The session of `main` with the socket 6, which reads a `help`.
abbrev pub first_session : Session platform
first_session = record (new_session platform tt tt) { socket = pos 6; base_ready = true }

abbrev pub help_read : Session platform
help_read = (handle_read platform unknown (frame (lit "help")) first_session).1

pub handle_read-IsDefined :
    IsDefined (handle_read platform unknown (frame (lit "help")) first_session).0
unfolding try_catch lit make_command command_type same new_session init
handle_read-IsDefined =
    let (n, empty, nothing_pending, runs) =
      handle_read-command platform unknown (lit "help") first_session refl refl (omega arith)
        (omega arith) in
    let ignored =
      handle_json_command-refused platform unknown (lit "help") (lit "help")
        (record { cmd = lit "help"; type = help }) (record first_session { input = n })
        (omega arith) refl refl refl in
    subst (λ x. IsDefined x.0) (sym runs) (rw ignored tt)

test_world-AnswersHelp : AnswersHelp test_world
test_world-AnswersHelp = record { converts = λ d e h. absurd (cc h) }

start_session-quiet_example :
    (help_read.ignore_output ≡ false)
    × (help_read.capture_std_out ≡ false)
    × (help_read.source_in_progress ≡ false)
unfolding start_session new_session lt_ℤ
start_session-quiet_example =
    start_session-quiet platform test_world-AnswersHelp tt tt (some (pos 6)) true first_session
      help_read refl
      (step first_session first_session help_read (start first_session)
        (bytes_read unknown (frame (lit "help")) first_session handle_read-IsDefined))
