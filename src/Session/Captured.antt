-- ===== src/Session/Captured.antt =====
-- src/RSession.cpp: the environment that a script leaves to be compared with.
use rc2compute.Prelude.{◌≡◌, refl, true, false, if◌then◌else◌, Bytes, Bool}
use rc2compute.Effects.{ok, pure, gets, modify, ◌>>=◌, ◌>>◌}
use rc2compute.Effects.Hoare.{Post, Triple, by_bind, by_modify, by_pure}
use rc2compute.World.{EvalResult, pe_success, pe_incomplete, pe_error}
use rc2compute.Command
use rc2compute.Command.{JsonCommand, argument}
use rc2compute.Session.{
  Platform, Session, Watcher, send_text, eval, flush_output_buffer, world_of,
  schedule_exec_complete, schedule_delayed_command, lift,
}
use rc2compute.Session.Execute.{capture, reset_manager_watch, script_done, handle_execute_script}
use rc2compute.Session.Printing.{IsKept, send_json-keeps, eval-keeps, flush_output_buffer-keeps}

module _ (pf : Platform) (e : Watcher.Env pf.watcher) where
  open pf use {js, watcher}

  Has : Session pf → Type 0
  Has s = s.env ≡ e

  Has-IsKept : IsKept pf Has
  unfolding Has
  Has-IsKept = record {
    by_written = λ s x h. h;
    by_console = λ s x h. h;
    by_capture = λ s x h. h;
    by_manager = λ s m h. h;
  }

  script_done-Has :
      (command : JsonCommand js) (delta : Bool) (result : EvalResult)
      → Triple Has (script_done pf command delta result) (λ _. Has) (λ _. ⊥)
  unfolding script_done schedule_exec_complete schedule_delayed_command send_text ◌>>=◌ gets modify
      pure Has
  script_done-Has command true pe_success = record { at = λ s h. h }
  script_done-Has command false pe_success = record { at = λ s h. h }
  script_done-Has command delta pe_incomplete = record {
    at = λ s h. send_json-keeps pf Has-IsKept _ s h;
  }
  script_done-Has command delta pe_error = record { at = λ s h. h }

  run-Has :
      (command : JsonCommand js) (code : Bytes) (delta : Bool)
      → Triple Has
          (do
            reset_manager_watch pf
            result ← eval pf code
            flush_output_buffer pf
            script_done pf command delta result)
          (λ _. Has)
          (λ _. ⊥)
  unfolding Has
  run-Has command code delta = by_bind _ _ (by_modify {Q = λ _. Has} _ (λ s h. h)) λ _.
      by_bind _ _ (eval-keeps pf Has-IsKept code) λ result.
        by_bind _ _ (flush_output_buffer-keeps pf Has-IsKept Has-IsKept (λ s h. h) (λ s h. h))
          λ _. script_done-Has command delta result

  -- The environment that is captured now is `e`.
  Captures : Session pf → Type 0
  Captures s = Watcher.capture_environment watcher (world_of pf s) s.env ≡ e

  watched-Has :
      (command : JsonCommand js) (code : Bytes) (watching : Bool)
      → watching ≡ true
      → Triple Captures
          (do
            send_delta ←
                (if watching then pure true else lift pf (Command.watch_variables js command))
            if send_delta then capture pf else pure tt
            reset_manager_watch pf
            result ← eval pf code
            flush_output_buffer pf
            script_done pf command send_delta result)
          (λ _. Has)
          (λ _. ⊥)
  unfolding Has Captures
  watched-Has command code false h = absurd (cc h)
  watched-Has command code true h =
      by_bind _ _ (by_pure {Q = λ send s. Captures s × (send ≡ true)} true (λ s k. (k, refl)))
        λ send. record {
          at = λ s k. rw (k.1) (
              (by_bind _ _ (by_modify {Q = λ _. Has} _ (λ t j. j))
                  (λ _. run-Has command code true)).at
                s (k.0));
        }

  script-Has :
      (command : JsonCommand js) (code : Bytes) (s : Session pf)
      → argument js command ≡ ok code
      → s.watch_variables ≡ true
      → Captures s
      → Post (λ _. Has) (λ _. ⊥) (handle_execute_script pf command s)
  unfolding handle_execute_script ◌>>=◌ gets
  script-Has command code s takes watching h =
      rw takes ((watched-Has command code s.watch_variables watching).at s h)

-- A script that runs while the variables are watched leaves the environment as it was captured when R
-- began to run, whatever R did and printed.
pub handle_execute_script-captures :
    (pf : Platform) (command : JsonCommand pf.js) (code : Bytes) (s : Session pf)
    → argument pf.js command ≡ ok code
    → s.watch_variables ≡ true
    → Post
        (λ _ t. t.env ≡ Watcher.capture_environment pf.watcher (world_of pf s) s.env)
        (λ _. ⊥)
        (handle_execute_script pf command s)
unfolding Has Captures
handle_execute_script-captures pf command code s takes watching =
    script-Has pf (Watcher.capture_environment pf.watcher (world_of pf s) s.env) command code s
      takes watching refl
