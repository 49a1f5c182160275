-- ===== src/Session/Starting.antt =====
-- src/RSession.cpp and src/RSession-main.cpp: how a session begins and ends.
--
-- The Impl structs are allocated in zeroed memory (common/ZeroInitializedStruct.hpp), but for that of the
-- file source. What libevent and TCLAP answer is an argument.
use rc2compute.Prelude.{
  ◌≡◌, refl, subst, Bool, true, false, not, ◌&&◌, Option, none, some, [], if◌then◌else◌, Bool-cases,
  inl, inr,
}
use rc2compute.Effects.{Exec, pure, gets, ◌>>=◌}
use rc2compute.Numbers.{ℤ, pos, lt_ℤ}
use rc2compute.InputBuffer.{init}
use rc2compute.World.{World, AnswersHelp}
use rc2compute.FileManager.{Manager}
use rc2compute.FileManager.Interface.{new_manager, load_r_data}
use rc2compute.Session.{Platform, Session, Watcher, in_manager}
use rc2compute.Session.Opening.{handle_close}
use rc2compute.Session.Steps.{Reaches, Reaches-quiet}

module _ (pf : Platform) where
  open pf use {world, ev, watcher}

  -- `RSession::RSession`. There is no temporary directory and no environment watcher yet; `e` is the
  -- environment that the watcher is made of later.
  unfoldable pub new_session : World.W world → Watcher.Env watcher → Session pf
  unfolding new_manager
  new_session d e = record {
    manager = new_manager world d;
    input = init ev 0;
    env = e;
    written = [];
    tasks = [];
    tmp_dir = [];
    console_out = [];
    std_out_capture = [];
    wspace_id = pos 0;
    session_rec_id = pos 0;
    socket = pos 0;
    current_query_id = pos 0;
    base_ready = false;
    loop_broken = false;
    opened = false;
    ignore_output = false;
    capture_std_out = false;
    source_in_progress = false;
    watch_variables = false;
    properly_closed = false;
  }

  -- `parseArguments`: the socket, or an error, whose fatal log entry ends the process.
  unfoldable pub parse_arguments : Option ℤ → Session pf → Option (Session pf)
  parse_arguments none s = none
  parse_arguments (some fd) s = some (record s { socket = fd })

  -- `prepareForRunLoop`: whether libevent made an event of the socket. If not, there is nothing that the
  -- loop waits for, and it ends at once.
  unfoldable pub prepare_for_run_loop : Bool → Session pf → Option (Session pf)
  prepare_for_run_loop made s =
      if lt_ℤ (pos 0) s.socket && not made then none else some (record s { base_ready = true })

  -- `main`, up to the event loop.
  unfoldable pub start_session :
      World.W world → Watcher.Env watcher → Option ℤ → Bool → Option (Session pf)
  unfolding new_session parse_arguments prepare_for_run_loop
  start_session d e argument made = elim (parse_arguments argument (new_session d e)) [
    | none ↦ none
    | some s ↦ prepare_for_run_loop made s
  ]

  -- `stopEventLoop`
  unfoldable pub stop_event_loop : Session pf → Session pf
  stop_event_loop s = record s { loop_broken = true }

  -- `setFileManager`, for tests.
  unfoldable pub set_file_manager : Manager world → Session pf → Session pf
  set_file_manager given s = record s { manager = given }

  unfoldable pub load_environment : Exec (Session pf) Bool
  load_environment = in_manager pf (load_r_data world)

  -- `RSession::~RSession`
  unfoldable pub destroy : Exec (Session pf) (Unit {0})
  destroy = do
    closed ← gets (λ s. s.properly_closed)
    if not closed then handle_close pf else pure tt

  abbrev Sends : Option (Session pf) → Type 0
  Sends none = Unit {0}
  Sends (some s) =
      (s.ignore_output ≡ false) × (s.capture_std_out ≡ false) × (s.source_in_progress ≡ false)

  start_session-Sends :
      (d : World.W world) (e : Watcher.Env watcher) (argument : Option ℤ) (made : Bool)
      → Sends (start_session d e argument made)
  unfolding start_session new_session parse_arguments prepare_for_run_loop
  start_session-Sends d e none made = tt
  start_session-Sends d e (some fd) made = elim (Bool-cases (lt_ℤ (pos 0) fd && not made)) [
    | inl h ↦ rw h tt
    | inr h ↦ rw h (refl, refl, refl)
  ]

  -- If the answer to help has the form that the rc2 package gives it: in every state that a session reaches from
  -- its start, by reads from the socket, scheduled events and events
  -- of its file manager, however the commands end, output is neither ignored nor captured, and no file
  -- is being sourced.
  pub start_session-quiet :
      AnswersHelp world
      → (d : World.W world) (e : Watcher.Env watcher) (argument : Option ℤ) (made : Bool)
        (s t : Session pf)
      → start_session d e argument made ≡ some s
      → Reaches pf s t
      → (t.ignore_output ≡ false) × (t.capture_std_out ≡ false) × (t.source_in_progress ≡ false)
  start_session-quiet helps d e argument made s t starts r =
      Reaches-quiet pf helps s t (subst Sends starts (start_session-Sends d e argument made)) r
