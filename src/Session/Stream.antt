-- ===== src/Session/Stream.antt =====
-- src/RSession.cpp: what the events of a session write to its client, and what they schedule.
use rc2compute.Prelude.{
  ◌<◌, ◌≡◌, ◌∙◌, refl, ap, sym, subst, List, [], ◌∷◌, ◌++◌, append-nil, append_assoc, Bytes, length,
  All, All-append, All-append_left, All-append_right,
}
use rc2compute.Effects.Hoare.{IsDefined}
use rc2compute.Effects.Keeps.{kept}
use rc2compute.Frame.{frame}
use rc2compute.Command.{CommandType}
use rc2compute.Session.{Platform, Session, Task, exec_complete, delayed_command}
use rc2compute.Session.Stable.{IsStable, IsLasting, send_json-or_not}
use rc2compute.Session.Execute.{delta_request}
use rc2compute.Session.Dispatch.{handle_read, run_task}
use rc2compute.Session.Dispatch.Stable.{Keeps-handle_read, Keeps-run_task}
use rc2compute.Session.Steps.{Happens, bytes_read, task_due, managed, Reaches, by_events}

abbrev pub frames : List Bytes → Bytes
frames [] = []
frames (m ∷ ms) = frame m ++ frames ms

frames-append : (ms ns : List Bytes) → frames (ms ++ ns) ≡ frames ms ++ frames ns
frames-append [] ns = refl
frames-append (m ∷ ms) ns =
    ap (λ r. frame m ++ r) (frames-append ms ns)
    ∙ sym (append_assoc (frame m) (frames ms) (frames ns))

abbrev pub IsFull : Bytes → Type 0
IsFull message = 0 < length message

module _ (pf : Platform) where
  -- An acknowledgement, or the one command that a session gives itself.
  abbrev pub IsOwnTask : Task pf → Type 0
  IsOwnTask (exec_complete command query info) = Unit {0}
  IsOwnTask (delayed_command json) = json ≡ delta_request pf

  -- Whole frames were written behind what was, and own tasks scheduled behind those that were.
  pub record Extends (written : Bytes) (tasks : List (Task pf)) (t : Session pf) : Type 0 where
    pub messages : List Bytes
    pub more : List (Task pf)
    pub writes : t.written ≡ written ++ frames messages
    pub full : All IsFull messages
    pub schedules : t.tasks ≡ tasks ++ more
    pub own : All IsOwnTask more

  Extends-refl : (s : Session pf) → Extends s.written s.tasks s
  Extends-refl s = record {
    messages = [];
    more = [];
    writes = sym (append-nil s.written);
    full = tt;
    schedules = sym (append-nil s.tasks);
    own = tt;
  }

  module _ (written : Bytes) (tasks : List (Task pf)) where
    sent :
        (json : Bytes) (s : Session pf)
        → 0 < length json
        → Extends written tasks s
        → Extends written tasks (record s { written = s.written ++ frame json })
    sent json s full h = record {
      messages = h.messages ++ json ∷ [];
      more = h.more;
      writes =
          ap (λ w. w ++ frame json) h.writes
          ∙ append_assoc written (frames h.messages) (frame json)
          ∙ ap (λ r. written ++ (frames h.messages ++ r)) (sym (append-nil (frame json)))
          ∙ ap (λ r. written ++ r) (sym (frames-append h.messages (json ∷ [])));
      full = All-append _ h.messages (json ∷ []) h.full (full, tt);
      schedules = h.schedules;
      own = h.own;
    }

    scheduled :
        (task : Task pf) (s : Session pf)
        → IsOwnTask task
        → Extends written tasks s
        → Extends written tasks (record s { tasks = s.tasks ++ task ∷ [] })
    scheduled task s o h = record {
      messages = h.messages;
      more = h.more ++ task ∷ [];
      writes = h.writes;
      full = h.full;
      schedules = ap (λ l. l ++ task ∷ []) h.schedules ∙ append_assoc tasks h.more (task ∷ []);
      own = All-append _ h.more (task ∷ []) h.own (o, tt);
    }

    same :
        (s t : Session pf)
        → t.written ≡ s.written
        → t.tasks ≡ s.tasks
        → Extends written tasks s
        → Extends written tasks t
    same s t e f h = record {
      messages = h.messages;
      more = h.more;
      writes = e ∙ h.writes;
      full = h.full;
      schedules = f ∙ h.schedules;
      own = h.own;
    }

    Extends-IsStable : IsStable pf (Extends written tasks)
    Extends-IsStable = record {
      unchanged = λ s t e h. same s t (ap (λ x. x.0) e) (ap (λ x. x.1) e) h;
      sends = λ json s h.
          send_json-or_not pf (Extends written tasks) json s h (λ full. sent json s full h);
      schedules = λ command query info s h. scheduled (exec_complete command query info) s tt h;
      requests = λ s h. scheduled (delayed_command (delta_request pf)) s refl h;
    }

    Extends-IsLasting : IsLasting pf (Extends written tasks)
    Extends-IsLasting = record {
      opens = λ s h. same s _ refl refl h;
      closes = λ s open_now h. same s _ refl refl h;
      breaks = λ s closed h. same s _ refl refl h;
    }

  -- A read, whatever bytes arrive in whatever state: behind what the session had written there are whole frames
  -- of messages that are not empty, and behind what it had scheduled there are acknowledgements and requests of
  -- the changed variables. Nothing that was written or scheduled is lost, also when a command throws.
  pub handle_read-Extends :
      (memory : CommandType) (chunk : Bytes) (s : Session pf)
      → IsDefined (handle_read pf memory chunk s).0
      → Extends s.written s.tasks (handle_read pf memory chunk s).1
  handle_read-Extends memory chunk s d =
      kept _ s
        (Keeps-handle_read pf (Extends-IsStable s.written s.tasks)
          (Extends-IsLasting s.written s.tasks) (λ t n h. same s.written s.tasks t _ refl refl h)
          memory chunk)
        d (Extends-refl s)

  run_task-Extends :
      (memory : CommandType) (task : Task pf) (s : Session pf)
      → IsDefined (run_task pf memory task s).0
      → Extends s.written s.tasks (run_task pf memory task s).1
  run_task-Extends memory task s d =
      kept _ s
        (Keeps-run_task pf (Extends-IsStable s.written s.tasks)
          (Extends-IsLasting s.written s.tasks) memory task)
        d (Extends-refl s)

  -- What is written since, and that the tasks are still the session's own.
  pub record Continues (written : Bytes) (t : Session pf) : Type 0 where
    pub messages : List Bytes
    pub writes : t.written ≡ written ++ frames messages
    pub full : All IsFull messages
    pub own : All IsOwnTask t.tasks

  extended :
      (written now : Bytes) (tasks : List (Task pf)) (messages : List Bytes) (u : Session pf)
      → now ≡ written ++ frames messages
      → All IsFull messages
      → All IsOwnTask tasks
      → Extends now tasks u
      → Continues written u
  extended written now tasks messages u e full own x = record {
    messages = messages ++ x.messages;
    writes =
        x.writes
        ∙ ap (λ w. w ++ frames x.messages) e
        ∙ append_assoc written (frames messages) (frames x.messages)
        ∙ ap (λ r. written ++ r) (sym (frames-append messages x.messages));
    full = All-append _ messages x.messages full x.full;
    own = rw x.schedules (All-append _ tasks x.more own x.own);
  }

  left_over :
      (all before after : List (Task pf)) (task : Task pf)
      → all ≡ before ++ task ∷ after
      → All IsOwnTask all
      → All IsOwnTask (before ++ after)
  left_over all before after task e own =
      let parts = subst (All IsOwnTask) e own in
      All-append _ before after (All-append_left _ before (task ∷ after) parts)
        (All-append_right _ before (task ∷ after) parts).1

  Happens-Continues :
      (written : Bytes) (t u : Session pf)
      → Happens pf t u
      → Continues written t
      → Continues written u
  Happens-Continues written _ _ (bytes_read memory chunk t d) h =
      extended written t.written t.tasks h.messages _ h.writes h.full h.own
        (handle_read-Extends memory chunk t d)
  Happens-Continues written _ _ (task_due memory t before after task e d) h =
      extended written t.written (before ++ after) h.messages _ h.writes h.full
        (left_over t.tasks before after task e h.own)
        (run_task-Extends memory task (record t { tasks = before ++ after }) d)
  Happens-Continues written _ _ (managed t m e) h = record {
    messages = h.messages;
    writes = h.writes;
    full = h.full;
    own = h.own;
  }

  -- A session whose tasks are its own, as one without tasks: after any reads, due tasks and events of its file
  -- manager, in any order, the client has been sent, behind what it had, whole frames of messages that are not
  -- empty, and each task is an acknowledgement or the request of the changed variables.
  pub Reaches-Continues :
      (s t : Session pf) → All IsOwnTask s.tasks → Reaches pf s t → Continues s.written t
  Reaches-Continues s t own r =
      by_events pf (Happens-Continues s.written) s t
        (record { messages = []; writes = sym (append-nil s.written); full = tt; own = own }) r
