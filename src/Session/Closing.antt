-- ===== src/Session/Closing.antt =====
-- src/RSession.cpp: closing a session.
use rc2compute.Prelude.{◌≡◌, refl, Bool, true, false, arith, lit}
use rc2compute.Effects.{ok, pure, gets, ◌>>=◌}
use rc2compute.Effects.Hoare.{Post, Triple, by_bind, by_weaken, by_reads, by_if, by_pure, by_modify}
use rc2compute.FileManager.Interface.{save_r_data}
use rc2compute.Session.{Platform, Session}
use rc2compute.Session.Opening.{handle_save_env, handle_close}
use rc2compute.Session.Printing.{IsKept, eval-keeps, in_manager-keeps}

module _ (pf : Platform) (b : Bool) where
  -- The session counts as closed, and its loop is broken or not.
  record Closed (s : Session pf) : Type 0 where
    closed : s.properly_closed ≡ true
    broken : s.loop_broken ≡ b

  Closed-IsKept : IsKept pf Closed
  Closed-IsKept = record {
    by_written = λ s x h. record { closed = h.closed; broken = h.broken };
    by_console = λ s x h. record { closed = h.closed; broken = h.broken };
    by_capture = λ s x h. record { closed = h.closed; broken = h.broken };
    by_manager = λ s m h. record { closed = h.closed; broken = h.broken };
  }

  save_keeps : Triple Closed (handle_save_env pf) (λ _. Closed) Closed
  unfolding handle_save_env
  save_keeps =
      by_bind _ _ (eval-keeps pf Closed-IsKept (lit "save.image()"))
        λ _. in_manager-keeps pf Closed-IsKept (save_r_data pf.world)

module _ (pf : Platform) where
  close_again : (s : Session pf) → s.properly_closed ≡ true → handle_close pf s ≡ (ok tt, s)
  unfolding handle_close ◌>>=◌ gets pure
  close_again s closed = rw closed refl

  Open : Bool → Session pf → Type 0
  Open b s = (s.properly_closed ≡ false) × (s.loop_broken ≡ b)

  closes : (b : Bool) → Triple (Open b) (handle_close pf) (λ _. Closed pf true) (Closed pf b)
  unfolding handle_close Open
  closes b = by_bind _ _ (by_reads (λ s. s.properly_closed)) λ closed.
      by_if closed _ _ (λ was. by_pure tt (λ s h. absurd (ground (arith, h.1, h.0))))
        λ _.
          by_bind _ _
            (by_modify {Q = λ _. Closed pf b} (λ s. record s { properly_closed = true })
              (λ s h. record { closed = refl; broken = h.0.1 }))
            λ _. by_bind _ _ (save_keeps pf b) λ _.
              by_modify (λ s. record s { loop_broken = true })
                (λ s h. record { closed = h.closed; broken = refl })

  -- A session that has not been closed. If saving its environment succeeds, `handleCloseCommand` breaks the event
  -- loop. If saving throws, the loop is as it was; but in both cases the session counts as closed, and a second
  -- `close` changes nothing. So after a failed save no `close` ends the session.
  pub handle_close-once :
      (s : Session pf)
      → s.properly_closed ≡ false
      → Post
          (λ _ t. (t.loop_broken ≡ true) × (handle_close pf t ≡ (ok tt, t)))
          (λ t. (t.loop_broken ≡ s.loop_broken) × (handle_close pf t ≡ (ok tt, t)))
          (handle_close pf s)
  unfolding Open
  handle_close-once s not_closed =
      (by_weaken (handle_close pf) (λ a t h. (h.broken, close_again t h.closed))
          (λ t h. (h.broken, close_again t h.closed)) (closes s.loop_broken)).at
        s (not_closed, refl)
