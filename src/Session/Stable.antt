-- ===== src/Session/Stable.antt =====
-- src/RSession.cpp: what every command keeps of what the session has written and scheduled.
use rc2compute.Prelude.{
  arith, ◌<◌, ◌≡◌, ap, ◌∙◌, refl, Bool, true, false, List, [], ◌∷◌, ◌++◌, Bytes, lit, length, ltb,
  ◌||◌, if◌then◌else◌,
}
use rc2compute.Numbers.{ℤ, pos, lt_ℤ}
use rc2compute.Frame.{frame}
use rc2compute.Effects.{runtime_error, Result, Exec, pure, raise, modify}
use rc2compute.Effects.Hoare.{by_modify, by_state}
use rc2compute.Effects.Keeps.{Keeps, Keeps-bind, Keeps-finally, keeps_rules}
use rc2compute.InputBuffer.{InputBuffer}
use rc2compute.World.{World, Console, EvalResult, pe_success, pe_incomplete, pe_error}
use rc2compute.Command.{JsonCommand}
use rc2compute.FileManager.{Manager}
use rc2compute.FileManager.Interface.{FileInfo}
use rc2compute.Session.{
  Platform, Session, Task, exec_complete, delayed_command, format_string_as_json, with_world,
  in_world, lift, world_of, send_json, send_text, send_output, console_callback, console_callbacks,
  eval, eval_or_throw, flush_output_buffer, in_manager, schedule_exec_complete,
  schedule_delayed_command, suspended,
}
use rc2compute.Session.Execute.{delta_request}

module _ (pf : Platform) where
  open pf use {world, js, ev}

  -- What was written and is scheduled, what is waiting to be read, and how far the session's life has got.
  abbrev pub ends : Session pf → Bytes × List (Task pf) × InputBuffer ev × Bool × Bool × Bool
  ends s = (s.written, s.tasks, s.input, s.opened, s.properly_closed, s.loop_broken)

  -- A predicate of these that holds on after a message, and after an acknowledgement or a request of
  -- the changed variables is scheduled.
  pub record IsStable (P : Session pf → Type 0) : Type 0 where
    pub unchanged : (s t : Session pf) → ends t ≡ ends s → P s → P t
    pub sends : (json : Bytes) (s : Session pf) → P s → P (send_json pf json s)
    pub schedules :
        (command : JsonCommand js) (query : ℤ) (info : FileInfo) (s : Session pf)
        → P s
        → P (record s { tasks = s.tasks ++ exec_complete command query info ∷ [] })
    pub requests :
        (s : Session pf)
        → P s
        → P (record s { tasks = s.tasks ++ delayed_command (delta_request pf) ∷ [] })

  module _ (P : Session pf → Type 0) (json : Bytes) (s : Session pf) where
    sent_or_not :
        (empty connected : Bool)
        → ltb (length json) 1 ≡ empty
        → P s
        → (0 < length json → P (record s { written = s.written ++ frame json }))
        → P (
            if empty
            then s
            else if connected
            then record s { written = s.written ++ frame json }
            else s)
    sent_or_not true connected e h k = h
    sent_or_not false true e h k = k (ground arith)
    sent_or_not false false e h k = h

    -- A message is written, when it is not empty and there is a socket, or nothing changes.
    pub send_json-or_not :
        P s
        → (0 < length json → P (record s { written = s.written ++ frame json }))
        → P (send_json pf json s)
    unfolding send_json
    send_json-or_not h k = sent_or_not (ltb (length json) 1) (lt_ℤ (pos 0) s.socket) refl h k

  -- A fact of the session's life besides.
  pub with_fact : {P Q : Session pf → Type 0} → IsStable P → IsStable Q → IsStable (λ s. P s × Q s)
  with_fact k q = record {
    unchanged = λ s t e h. (k.unchanged s t e h.0, q.unchanged s t e h.1);
    sends = λ json s h. (k.sends json s h.0, q.sends json s h.1);
    schedules = λ command query info s h.
        (k.schedules command query info s h.0, q.schedules command query info s h.1);
    requests = λ s h. (k.requests s h.0, q.requests s h.1);
  }

  pub opened-IsStable : (b : Bool) → IsStable (λ s. s.opened ≡ b)
  opened-IsStable b = record {
    unchanged = λ s t e h. ap (λ x. x.3) e ∙ h;
    sends = λ json s h. send_json-or_not (λ t. t.opened ≡ b) json s h (λ _. h);
    schedules = λ command query info s h. h;
    requests = λ s h. h;
  }

  pub closed-IsStable : (b : Bool) → IsStable (λ s. s.properly_closed ≡ b)
  closed-IsStable b = record {
    unchanged = λ s t e h. ap (λ x. x.4) e ∙ h;
    sends = λ json s h. send_json-or_not (λ t. t.properly_closed ≡ b) json s h (λ _. h);
    schedules = λ command query info s h. h;
    requests = λ s h. h;
  }

  -- It also holds on when the session is opened, when an open session counts as closed, and when the loop of
  -- a closed one is broken.
  pub record IsLasting (P : Session pf → Type 0) : Type 0 where
    pub opens : (s : Session pf) → P s → P (record s { opened = true })
    pub closes : (s : Session pf) → s.opened ≡ true → P s → P (record s { properly_closed = true })
    pub breaks :
        (s : Session pf) → s.properly_closed ≡ true → P s → P (record s { loop_broken = true })

  module _ {P : Session pf → Type 0} (k : IsStable P) where
    pub Keeps-assign :
        (f : Session pf → Session pf)
        → ((s : Session pf) → ends (f s) ≡ ends s)
        → Keeps P (modify f)
    Keeps-assign f e = record { both = by_modify f (λ s h. k.unchanged s (f s) (e s) h) }

    pub Keeps-send : (json : Session pf → Bytes) → Keeps P (modify (λ s. send_json pf (json s) s))
    Keeps-send json = record { both = by_modify _ (λ s h. k.sends (json s) s h) }

    pub Keeps-send_json : (json : Bytes) → Keeps P (modify (send_json pf json))
    Keeps-send_json json = Keeps-send (λ _. json)

    pub Keeps-send_text :
        (text : Bytes) (is_error : Bool) → Keeps P (modify (send_text pf text is_error))
    unfolding send_text
    Keeps-send_text text is_error = Keeps-send _

    pub Keeps-lift : {A : Type 0} (r : Result A) → Keeps P (lift pf r)
    Keeps-lift r = record { both = record { at = λ s h. by_state P r s h } }

    pub Keeps-in_manager : {A : Type 0} (m : Exec (Manager world) A) → Keeps P (in_manager pf m)
    Keeps-in_manager m = record {
      both = record {
        at = λ s h.
            let (r, t) = m s.manager in
            by_state P r (record s { manager = t }) (k.unchanged s _ refl h);
      };
    }

    pub Keeps-in_world :
        {A : Type 0} (f : Session pf → World.W world → Result A × World.W world)
        → Keeps P (λ s. in_world pf (f s) s)
    Keeps-in_world f = record {
      both = record {
        at = λ s h.
            let (r, d) = f s (world_of pf s) in
            by_state P r (with_world pf d s) (k.unchanged s _ refl h);
      };
    }

    pub Keeps-in_this_world :
        {A : Type 0} (f : World.W world → Result A × World.W world) → Keeps P (in_world pf f)
    Keeps-in_this_world f = Keeps-in_world (λ _. f)

    under_if : (b : Bool) (s t : Session pf) → P s → P t → P (if b then s else t)
    under_if true s t h j = h
    under_if false s t h j = j

    console_callback-stable : (s : Session pf) (c : Console) → P s → P (console_callback pf s c)
    unfolding console_callback
    console_callback-stable s c h = under_if s.capture_std_out _ _ (k.unchanged s _ refl h) (
        under_if s.ignore_output _ _ h (
          under_if c.is_error _ _ (k.sends (format_string_as_json pf s c.text true) s h)
            (under_if (c.visible || s.source_in_progress) _ _ (k.unchanged s _ refl h) h)))

    pub console_callbacks-stable :
        (s : Session pf) (console : List Console) → P s → P (console_callbacks pf s console)
    unfolding console_callbacks
    console_callbacks-stable s [] h = h
    console_callbacks-stable s (c ∷ cs) h =
        console_callbacks-stable (console_callback pf s c) cs (console_callback-stable s c h)

    pub Keeps-eval : (code : Bytes) → Keeps P (eval pf code)
    unfolding eval
    Keeps-eval code = record {
      both = record { at = λ s h. console_callbacks-stable _ _ (k.unchanged s _ refl h) };
    }

    pub Keeps-send_output : (is_error : Bool) → Keeps P (modify (send_output pf is_error))
    unfolding send_output send_text
    Keeps-send_output is_error = record {
      both = by_modify _ (λ s h.
          let text = format_string_as_json pf s s.console_out is_error in
          under_if (ltb 0 (length s.console_out)) _ _
            (k.unchanged (send_json pf text s) _ refl (k.sends text s h)) h);
    }

    pub Keeps-flush : Keeps P (flush_output_buffer pf)
    unfolding flush_output_buffer
    Keeps-flush = search (keeps_rules, Keeps-assign, Keeps-eval, Keeps-send_output)

    pub Keeps-suspended :
        {A : Type 0} (m : Exec (Session pf) A) → Keeps P m → Keeps P (suspended pf m)
    Keeps-suspended m km =
        Keeps-bind _ _ (Keeps-assign _ (λ s. refl))
          λ _. Keeps-finally m _ (λ s h. k.unchanged s _ refl h) km

    pub Keeps-acknowledge :
        (command : JsonCommand js) (query : ℤ) (info : FileInfo)
        → Keeps P (schedule_exec_complete pf command query info)
    unfolding schedule_exec_complete
    Keeps-acknowledge command query info = record {
      both = by_modify _ (λ s h. k.schedules command query info s h);
    }

    pub Keeps-request : Keeps P (schedule_delayed_command pf (delta_request pf))
    unfolding schedule_delayed_command
    Keeps-request = record { both = by_modify _ (λ s h. k.requests s h) }

    evaluated :
        (r : EvalResult)
        → Keeps P (elim r as (λ _. Exec (Session pf) (Unit {0})) [
          | pe_success ↦ pure tt
          | _ ↦ raise (runtime_error (lit "R error"))
        ])
    evaluated pe_success = search keeps_rules
    evaluated pe_incomplete = search keeps_rules
    evaluated pe_error = search keeps_rules

    pub Keeps-eval_or_throw : (code : Bytes) → Keeps P (eval_or_throw pf code)
    unfolding eval_or_throw
    Keeps-eval_or_throw code = search (keeps_rules, Keeps-eval, evaluated)

  pub ruleset session_rules = (
    keeps_rules, Keeps-assign, Keeps-send, Keeps-send_json, Keeps-send_text, Keeps-lift,
    Keeps-in_manager, Keeps-in_world, Keeps-in_this_world, Keeps-eval, Keeps-eval_or_throw,
    Keeps-send_output, Keeps-flush, Keeps-suspended, Keeps-acknowledge, Keeps-request,
  )
