-- ===== src/Session.antt =====
-- src/RSession.cpp: the state of a session, its output and the evaluation of R code. The commands
-- are in the modules below.
pub mod Execute
pub mod Opening
pub mod Dispatch
pub mod Reading
pub mod Callback
pub mod Lifecycle
pub mod Reads
pub mod Order
pub mod Pending
pub mod Scheduling
pub mod Channel
pub mod Output
pub mod Closing
pub mod Commands
pub mod Printing
pub mod Flags
pub mod Steps
pub mod Stream
pub mod Starting
pub mod Stable
pub mod Captured
pub mod Listing
use rc2compute.Prelude.{
  ℕ, ◌+◌, Bool, true, false, not, ◌&&◌, ◌||◌, Option, none, some, List, [], ◌∷◌, ◌++◌, Bytes,
  length, lit, ltb, if◌then◌else◌,
}
use mathlib.Core.List
use rc2compute.Effects.{
  Exn, runtime_error, Result, ok, raised, undefined, Exec, pure, raise, crash, gets, modify,
  finally, ◌>>=◌, ◌>>◌,
}
use rc2compute.Numbers.{ℤ, pos, lt_ℤ}
use rc2compute.Frame.{frame}
use rc2compute.InputBuffer.{Evbuffer, InputBuffer}
use rc2compute.World.{World, EvalResult, pe_success, pe_incomplete, pe_error, Console}
use rc2compute.Command.{JsonLib, JsonCommand}
use rc2compute.FileManager
use rc2compute.FileManager.{Manager}
use rc2compute.FileManager.Interface.{FileInfo, no_file, check_watch}
use rc2compute.FileManager.Images.{cleanup_image_watch}

-- What the session uses of the environment watcher (src/EnvironmentWatcher.hpp).
pub record Watcher (w : World) (js : JsonLib) : Type 1 where
  pub Env : Type 0
  pub capture_environment : World.W w → Env → Env
  pub to_json : World.W w → Env → Result (JsonLib.J js) × World.W w
  pub to_json_named : World.W w → Env → Bytes → Result (JsonLib.J js) × World.W w
  pub json_delta : World.W w → Env → (Result (JsonLib.J js) × Env) × World.W w

-- What a session stands on: libevent, the world, the JSON library and the environment watcher.
pub record Platform : Type 1 where
  pub ev : Evbuffer
  pub world : World
  pub js : JsonLib
  pub watcher : Watcher world js

pub data ErrorCode : Type 0 where
  open_invalid_dir open_create_dir_failed execfile_invalid_input : ErrorCode
  exec_file_markdown_failed unknown_file : ErrorCode

unfoldable pub code_of : ErrorCode → ℤ
code_of open_invalid_dir = pos 101
code_of open_create_dir_failed = pos 102
code_of execfile_invalid_input = pos 103
code_of exec_file_markdown_failed = pos 104
code_of unknown_file = pos 105

module _ (pf : Platform) where
  open pf use {world, js, ev, watcher}
  open js use {J, dump, string, number, boolean, object}

  -- A scheduled event of the session: an acknowledgement, or a command that it sends to itself.
  pub data Task : Type 0 where
    exec_complete : JsonCommand js → ℤ → FileInfo → Task
    delayed_command : Bytes → Task

  -- `written` is what was written to the socket. `loop_broken` says that `event_base_loopbreak` was
  -- called. `base_ready` says that `eventBase` is not null.
  pub record Session : Type 0 where
    pub manager : Manager world
    pub input : InputBuffer ev
    pub env : Watcher.Env watcher
    pub written : Bytes
    pub tasks : List Task
    pub tmp_dir : Bytes
    pub console_out : Bytes
    pub std_out_capture : Bytes
    pub wspace_id : ℤ
    pub session_rec_id : ℤ
    pub socket : ℤ
    pub current_query_id : ℤ
    pub base_ready : Bool
    pub loop_broken : Bool
    pub opened : Bool
    pub ignore_output : Bool
    pub capture_std_out : Bool
    pub source_in_progress : Bool
    pub watch_variables : Bool
    pub properly_closed : Bool

  abbrev pub in_manager : {A : Type 0} → Exec (Manager world) A → Exec Session A
  in_manager m s = let (r, t) = m s.manager in (r, record s { manager = t })

  abbrev pub world_of : Session → World.W world
  world_of s = FileManager.world_of world s.manager

  abbrev pub with_world : World.W world → Session → Session
  with_world d s = record s { manager = FileManager.with_world world d s.manager }

  abbrev pub in_world : {A : Type 0} → (World.W world → Result A × World.W world) → Exec Session A
  in_world f s = let (r, d) = f (world_of s) in (r, with_world d s)

  -- A value whose computation may throw.
  abbrev pub lift : {A : Type 0} → Result A → Exec Session A
  lift r s = (r, s)

  -- `sendJsonToClientSource`: nothing is sent for an empty text or without a socket.
  unfoldable pub send_json : Bytes → Session → Session
  send_json json s =
      if ltb (length json) 1
      then s
      else if lt_ℤ (pos 0) s.socket
      then record s { written = s.written ++ frame json }
      else s

  abbrev pub send : J → Exec Session (Unit {0})
  send j = modify (send_json (dump j))

  -- `response["queryId"] = queryId` for a positive id.
  abbrev pub with_query_id : ℤ → List (Bytes × J) → List (Bytes × J)
  with_query_id id members =
      if lt_ℤ (pos 0) id then members ++ (lit "queryId", number id) ∷ [] else members

  unfoldable pub format_error_as_json : ErrorCode → Bytes → ℤ → Bytes
  format_error_as_json code details query_id = dump (
      object (
        with_query_id query_id (
          (lit "msg", string (lit "error"))
          ∷ (lit "errorCode", number (code_of code))
          ∷ (lit "errorDetails", string details)
          ∷ [])))

  unfoldable pub format_string_as_json : Session → Bytes → Bool → Bytes
  format_string_as_json s input is_error =
      if ltb (length input) 1
      then []
      else let output = if s.source_in_progress then World.cut_value world input else input in
        dump (
          object (
            with_query_id s.current_query_id (
              (lit "msg", string (lit "results"))
              ∷ (lit "string", string output)
              ∷ (if is_error then lit "stderr" else lit "stdout", boolean true)
              ∷ [])))

  unfoldable pub send_text : Bytes → Bool → Session → Session
  unfolding send_json
  send_text text is_error s = send_json (format_string_as_json s text is_error) s

  -- `consoleCallback`
  unfoldable pub console_callback : Session → Console → Session
  console_callback s c =
      if s.capture_std_out
      then record s { std_out_capture = s.std_out_capture ++ c.text }
      else if s.ignore_output
      then s
      else if c.is_error
      then send_json (format_string_as_json s c.text true) s
      else if c.visible || s.source_in_progress
      then record s { console_out = s.console_out ++ c.text }
      else s

  unfoldable pub console_callbacks : Session → List Console → Session
  console_callbacks s [] = s
  console_callbacks s (c ∷ cs) = console_callbacks (console_callback s c) cs

  -- A call of `parseEvalQNT` and its kin that throw nothing; R calls the console back meanwhile.
  unfoldable pub eval : Bytes → Exec Session EvalResult
  eval code s =
      let ((result, console), next) = World.eval world (world_of s) code in
      (ok result, console_callbacks (with_world next s) console)

  -- `parseEval`, which throws when the code fails.
  unfoldable pub eval_or_throw : Bytes → Exec Session (Unit {0})
  unfolding eval
  eval_or_throw code = do
    result ← eval code
    elim result [ pe_success ↦ pure tt | _ ↦ raise (runtime_error (lit "R error")) ]

  -- `sendOutputBufferToClient`
  unfoldable pub send_output : Bool → Session → Session
  send_output is_error s =
      if ltb 0 (length s.console_out)
      then record (send_text s.console_out is_error s) { console_out = [] }
      else s

  unfoldable pub flush_output_buffer : Exec Session (Unit {0})
  flush_output_buffer = do
    modify (λ s. record s { ignore_output = true })
    eval (lit "rc2.pngoff()")
    modify (λ s. record s { ignore_output = false })
    modify (send_output false)

  unfoldable pub schedule_exec_complete : JsonCommand js → ℤ → FileInfo → Exec Session (Unit {0})
  schedule_exec_complete command query_id info =
      modify (λ s. record s { tasks = s.tasks ++ exec_complete command query_id info ∷ [] })

  unfoldable pub schedule_delayed_command : Bytes → Exec Session (Unit {0})
  schedule_delayed_command json =
      modify (λ s. record s { tasks = s.tasks ++ delayed_command json ∷ [] })

  -- The scope of a `NotifySuspender`.
  abbrev pub suspended : {A : Type 0} → Exec Session A → Exec Session A
  suspended m =
      modify (λ s. record s { ignore_output = true })
      >> finally m (λ s. record s { ignore_output = false })

  -- The members that `addImagesToJson` adds.
  unfoldable pub image_members : Session → List (Bytes × J)
  image_members s =
      let (ids, batch) = check_watch world s.manager in
      (if ltb 0 (length ids)
        then (lit "images", JsonLib.array js (List.map number ids)) ∷ []
        else [])
      ++ (if lt_ℤ (pos 0) batch then (lit "imgBatch", number batch) ∷ [] else [])
