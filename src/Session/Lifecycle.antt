-- ===== src/Session/Lifecycle.antt =====
-- src/RSession.cpp: how a session is opened and closed, in the course of any events.
use rc2compute.Prelude.{◌≡◌, refl, ap, sym, subst, ◌++◌, Bool, true}
use rc2compute.Effects.Keeps.{kept}
use rc2compute.Session.{Platform, Session}
use rc2compute.Session.Stable.{IsStable, IsLasting, ends, send_json-or_not}
use rc2compute.Session.Dispatch.Stable.{Keeps-handle_read, Keeps-run_task}
use rc2compute.Session.Steps.{Happens, bytes_read, task_due, managed, Reaches, by_events}

-- Whether a session is open, counts as closed, and has its loop broken.
pub record Stage : Type 0 where
  pub opened : Bool
  pub closed : Bool
  pub broken : Bool

-- Only what was opened is closed, and only what is closed has its loop broken.
pub record IsOrderly (s : Stage) : Type 0 where
  pub closed_opened : s.closed ≡ true → s.opened ≡ true
  pub broken_closed : s.broken ≡ true → s.closed ≡ true

-- From the stage `s` to the stage `t` nothing is taken back.
pub record Passes (s t : Stage) : Type 0 where
  pub opened_stays : s.opened ≡ true → t.opened ≡ true
  pub closed_stays : s.closed ≡ true → t.closed ≡ true
  pub broken_stays : s.broken ≡ true → t.broken ≡ true
  pub orderly : IsOrderly t

abbrev pub stage_of : {pf : Platform} → Session pf → Stage
stage_of s = record { opened = s.opened; closed = s.properly_closed; broken = s.loop_broken }

module _ (pf : Platform) (first : Stage) where
  From : Session pf → Type 0
  From t = Passes first (stage_of t)

  From-IsStable : IsStable pf From
  unfolding From
  From-IsStable = record {
    unchanged = λ s t e h. subst (Passes first) (stages s t (sym e)) h;
    sends = λ json s h. send_json-or_not pf (λ t. Passes first (stage_of t)) json s h (λ full. h);
    schedules = λ command query info s h. h;
    requests = λ s h. h;
  }
    where
      stages : (s t : Session pf) → ends pf s ≡ ends pf t → stage_of s ≡ stage_of t
      stages s t e = ap (λ x. record { opened = x.3; closed = x.4; broken = x.5 }) e

  From-IsLasting : IsLasting pf From
  unfolding From
  From-IsLasting = record {
    opens = λ s h. record {
      opened_stays = λ _. refl;
      closed_stays = h.closed_stays;
      broken_stays = h.broken_stays;
      orderly = record { closed_opened = λ _. refl; broken_closed = h.orderly.broken_closed };
    };
    closes = λ s open_now h. record {
      opened_stays = h.opened_stays;
      closed_stays = λ _. refl;
      broken_stays = h.broken_stays;
      orderly = record { closed_opened = λ _. open_now; broken_closed = λ _. refl };
    };
    breaks = λ s closed h. record {
      opened_stays = h.opened_stays;
      closed_stays = h.closed_stays;
      broken_stays = λ _. refl;
      orderly = record { closed_opened = h.orderly.closed_opened; broken_closed = λ _. closed };
    };
  }

  Happens-From : (s t : Session pf) → Happens pf s t → From s → From t
  unfolding From
  Happens-From _ _ (bytes_read memory chunk s d) h =
      kept _ s (Keeps-handle_read pf From-IsStable From-IsLasting (λ u n g. g) memory chunk) d h
  Happens-From _ _ (task_due memory s before after task e d) h =
      kept _ (record s { tasks = before ++ after })
        (Keeps-run_task pf From-IsStable From-IsLasting memory task) d h
  Happens-From _ _ (managed s m e) h = h

module _ (pf : Platform) where
  -- A session that counts as closed only if it is open, and whose loop is broken only if it counts as closed, as
  -- a new one. After any reads, due tasks and events of its file manager, in any order, this is so
  -- again, and what was open, counted as closed or had its loop broken still is or does.
  pub Reaches-Passes :
      (s t : Session pf)
      → IsOrderly (stage_of s)
      → Reaches pf s t
      → Passes (stage_of s) (stage_of t)
  unfolding From
  Reaches-Passes s t orderly r =
      by_events pf (Happens-From pf (stage_of s)) s t
        (record {
          opened_stays = λ h. h;
          closed_stays = λ h. h;
          broken_stays = λ h. h;
          orderly = orderly;
        })
        r
