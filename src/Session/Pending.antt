-- ===== src/Session/Pending.antt =====
-- src/RSession.cpp: the scheduled events and the query while R runs and its output is sent.
use rc2compute.Prelude.{◌≡◌, List}
use rc2compute.Effects.Hoare.{Triple}
use rc2compute.Numbers.{ℤ}
use rc2compute.Session.{Platform, Session, Task, flush_output_buffer}
use rc2compute.Session.Printing.{IsKept, flush_output_buffer-keeps}

module _ (pf : Platform) where
  module _ (todo : List (Task pf)) (query : ℤ) where
    -- The events that are scheduled, and the query that is being answered.
    pub record Pending (s : Session pf) : Type 0 where
      pub tasks_are : s.tasks ≡ todo
      pub query_is : s.current_query_id ≡ query

    pub Pending-IsKept : IsKept pf Pending
    Pending-IsKept = record {
      by_written = λ s x h. record { tasks_are = h.tasks_are; query_is = h.query_is };
      by_console = λ s x h. record { tasks_are = h.tasks_are; query_is = h.query_is };
      by_capture = λ s x h. record { tasks_are = h.tasks_are; query_is = h.query_is };
      by_manager = λ s m h. record { tasks_are = h.tasks_are; query_is = h.query_is };
    }

    pub flush_output_buffer-Pending :
        Triple Pending (flush_output_buffer pf) (λ _. Pending) (λ _. ⊥)
    flush_output_buffer-Pending =
        flush_output_buffer-keeps pf Pending-IsKept Pending-IsKept
          (λ s h. record { tasks_are = h.tasks_are; query_is = h.query_is })
          (λ s h. record { tasks_are = h.tasks_are; query_is = h.query_is })
