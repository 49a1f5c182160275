-- ===== src/Session/Scheduling.antt =====
-- src/RSession.cpp: what a script leaves to be done when it ends.
use rc2compute.Prelude.{
  ◌≡◌, ◌∙◌, refl, ap, sym, Bool, true, false, List, [], ◌∷◌, ◌++◌, append-nil, append_assoc, Bytes,
  if◌then◌else◌,
}
use rc2compute.Effects.{ok, pure, gets, modify, ◌>>=◌, ◌>>◌}
use rc2compute.Effects.Hoare.{Post, Triple, by_bind, by_if, by_pure, by_modify}
use rc2compute.Numbers.{ℤ}
use rc2compute.World.{World, EvalResult, pe_success, pe_incomplete, pe_error}
use rc2compute.Command
use rc2compute.Command.{JsonCommand, argument}
use rc2compute.FileManager.Interface.{no_file, reset_watch}
use rc2compute.Session.{
  Platform, Session, Task, exec_complete, delayed_command, lift, send_text, eval,
  flush_output_buffer, world_of, schedule_exec_complete, schedule_delayed_command,
}
use rc2compute.Session.Execute.{
  capture, reset_manager_watch, delta_request, script_done, handle_execute_script,
}
use rc2compute.Session.Pending.{Pending, Pending-IsKept, flush_output_buffer-Pending}
use rc2compute.Session.Printing.{send_json-keeps, console_callbacks-keeps}

module _ (pf : Platform) where
  open pf use {world, js}

  -- What is scheduled after a script that ended so.
  unfoldable pub scheduled : ℤ → EvalResult → Bool → JsonCommand js → List (Task pf)
  scheduled query pe_success delta command =
      exec_complete command query no_file
      ∷ (if delta then delayed_command (delta_request pf) ∷ [] else [])
  scheduled query _ delta command = []

  module _ (todo : List (Task pf)) (query : ℤ) where
    script_done-scheduled :
        (command : JsonCommand js) (delta : Bool) (result : EvalResult)
        → Triple
            (Pending pf todo query)
            (script_done pf command delta result)
            (λ _ t. t.tasks ≡ todo ++ scheduled query result delta command)
            (λ _. ⊥)
    unfolding script_done scheduled schedule_exec_complete schedule_delayed_command send_text ◌>>=◌
        gets modify pure
    script_done-scheduled command true pe_success = record {
      at = λ s h. rw (h.tasks_are, h.query_is) (append_assoc todo _ _);
    }
    script_done-scheduled command false pe_success = record {
      at = λ s h. rw (h.tasks_are, h.query_is) refl;
    }
    script_done-scheduled command delta pe_incomplete = record {
      at = λ s h.
          (send_json-keeps pf (Pending-IsKept pf todo query) _ s h).tasks_are
          ∙ sym (append-nil todo);
    }
    script_done-scheduled command delta pe_error = record {
      at = λ s h. h.tasks_are ∙ sym (append-nil todo);
    }

    -- R is in the state `d` when it runs the code.
    eval-outcome :
        (code : Bytes) (d : World.W world)
        → Triple
            (λ s. (Pending pf todo query) s × (world_of pf s ≡ d))
            (eval pf code)
            (λ r s. (Pending pf todo query) s × (r ≡ (World.eval world d code).0.0))
            (λ _. ⊥)
    unfolding eval
    eval-outcome code d = record {
      at = λ s h. (
        console_callbacks-keeps pf (Pending-IsKept pf todo query) _ _
            (record { tasks_are = h.0.tasks_are; query_is = h.0.query_is }),
        ap (λ x. (World.eval world x code).0.0) h.1,
      );
    }

    Ready : World.W world → Session pf → Type 0
    Ready d s = (Pending pf todo query) s × (world_of pf s ≡ d)

    capture-Ready : (d : World.W world) → Triple (Ready d) (capture pf) (λ _. Ready d) (λ _. ⊥)
    unfolding Ready
    capture-Ready d =
        by_modify _ (λ s h. (record { tasks_are = h.0.tasks_are; query_is = h.0.query_is }, h.1))

    reset_manager_watch-Ready :
        (d : World.W world) → Triple (Ready d) (reset_manager_watch pf) (λ _. Ready d) (λ _. ⊥)
    unfolding Ready reset_watch
    reset_manager_watch-Ready d =
        by_modify _ (λ s h. (record { tasks_are = h.0.tasks_are; query_is = h.0.query_is }, h.1))

    flush_then_done :
        (command : JsonCommand js) (delta : Bool) (outcome result : EvalResult)
        → Triple
            (λ s. (Pending pf todo query) s × (result ≡ outcome))
            (flush_output_buffer pf >> script_done pf command delta result)
            (λ _ t. t.tasks ≡ todo ++ scheduled query outcome delta command)
            (λ _. ⊥)
    flush_then_done command delta outcome result = record {
      at = λ s h. rw (sym h.1) (
          (by_bind _ _ (flush_output_buffer-Pending pf todo query)
              (λ _. script_done-scheduled command delta result)).at
            s h.0);
    }

    run_script :
        (command : JsonCommand js) (code : Bytes) (delta : Bool) (d : World.W world)
        → Triple
            (Ready d)
            (do
              if delta then capture pf else pure tt
              reset_manager_watch pf
              result ← eval pf code
              flush_output_buffer pf
              script_done pf command delta result)
            (λ _ t. t.tasks ≡ todo ++ scheduled query (World.eval world d code).0.0 delta command)
            (λ _. ⊥)
    unfolding Ready
    run_script command code delta d =
        by_bind _ _ (by_if delta _ _ (λ _. capture-Ready d) (λ _. by_pure tt (λ s h. h))) λ _.
          by_bind _ _ (reset_manager_watch-Ready d)
            λ _. by_bind _ _ (eval-outcome code d) (flush_then_done command delta _)

    with_delta :
        (command : JsonCommand js) (code : Bytes) (asked watching : Bool) (d : World.W world)
        → Command.watch_variables js command ≡ ok asked
        → Triple
            (Ready d)
            (do
              send_delta ←
                  (if watching then pure true else lift pf (Command.watch_variables js command))
              if send_delta then capture pf else pure tt
              reset_manager_watch pf
              result ← eval pf code
              flush_output_buffer pf
              script_done pf command send_delta result)
            (λ _ t.
              t.tasks
              ≡ todo
                ++ scheduled query
                    (World.eval world d code).0.0
                    (if watching then true else asked)
                    command)
            (λ _. ⊥)
    unfolding pure
    with_delta command code asked true d watches =
        by_bind _ _ (by_pure {Q = λ send s. Ready d s × (send ≡ true)} true (λ s h. (h, refl)))
          λ send. record { at = λ s h. rw h.1 ((run_script command code true d).at s h.0) }
    with_delta command code asked false d watches = rw watches (
        by_bind _ _ (by_pure {Q = λ send s. Ready d s × (send ≡ asked)} asked (λ s h. (h, refl)))
          λ send. record { at = λ s h. rw h.1 ((run_script command code asked d).at s h.0) })

    script-schedules :
        (command : JsonCommand js) (code : Bytes) (asked : Bool) (s : Session pf)
        → argument js command ≡ ok code
        → Command.watch_variables js command ≡ ok asked
        → (Pending pf todo query) s
        → Post
            (λ _ t.
              t.tasks
              ≡ todo
                ++ scheduled query
                    (World.eval world (world_of pf s) code).0.0
                    (if s.watch_variables then true else asked)
                    command)
            (λ _. ⊥)
            (handle_execute_script pf command s)
    unfolding handle_execute_script ◌>>=◌ gets Ready
    script-schedules command code asked s takes watches h =
        rw takes
          ((with_delta command code asked s.watch_variables (world_of pf s) watches).at s (h, refl))

-- A script schedules, after what is scheduled already, its completion under the query that asked for it and, when
-- the session watches the variables or the command asks for it, a request of the changed variables; both only if
-- R ran it with success. It throws nothing, where its members are of their types.
pub handle_execute_script-schedules :
    (pf : Platform) (command : JsonCommand pf.js) (code : Bytes) (asked : Bool) (s : Session pf)
    → argument pf.js command ≡ ok code
    → Command.watch_variables pf.js command ≡ ok asked
    → Post
        (λ _ t.
          t.tasks
          ≡ s.tasks
            ++ scheduled pf s.current_query_id
                (World.eval pf.world (world_of pf s) code).0.0
                (if s.watch_variables then true else asked)
                command)
        (λ _. ⊥)
        (handle_execute_script pf command s)
handle_execute_script-schedules pf command code asked s takes watches =
    script-schedules pf s.tasks s.current_query_id command code asked s takes watches
      (record { tasks_are = refl; query_is = refl })
