-- ===== src/Session/Opening/Answers.antt =====
-- src/RSession.cpp: what the client hears of an attempt to open a session.
use rc2compute.Prelude.{◌≡◌, ◌⊎◌, inl, inr, refl, ap, arith, true, false, [], ◌∷◌, Bytes, lit, not}
use rc2compute.Effects.{Exn}
use rc2compute.Effects.Hoare.{
  Post, Triple, by_bind, by_if, by_pure, by_gets, by_modify, by_try, by_weaken, by_crash, by_reads,
  by_before,
}
use rc2compute.Command.{JsonCommand}
use rc2compute.Session.{Platform, Session, send_json}
use rc2compute.Session.Stable.{
  IsStable, Keeps-assign, Keeps-lift, Keeps-in_manager, opened-IsStable,
}
use rc2compute.Session.Opening.{open_body, open_failed, handle_open}
use rc2compute.Session.Opening.Stable.{Keeps-work_dir, Keeps-prepare_r}

module _ (pf : Platform) where
  open pf use {world, js}
  open js use {J, dump, string, boolean, object}

  abbrev pub opened_message : Bytes
  opened_message =
      dump (object ((lit "msg", string (lit "openresponse")) ∷ (lit "success", boolean true) ∷ []))

  -- The session is open, and the last it sent is that it is.
  abbrev pub IsAccepted : Session pf → Type 0
  IsAccepted t = (u : Session pf) × (t ≡ record (send_json pf opened_message u) { opened = true })

  -- The session is not open, and the last it sent is the text of an exception.
  abbrev pub IsRefused : Session pf → Type 0
  IsRefused t =
      (t.opened ≡ false)
      × ((u : Session pf) × (e : Exn) × (t ≡ send_json pf (dump (open_failed pf e)) u))

  NotOpen : Session pf → Type 0
  NotOpen s = s.opened ≡ false

  NotOpen-IsStable : IsStable pf NotOpen
  unfolding NotOpen
  NotOpen-IsStable = opened-IsStable pf false

  -- The message that the session is open is sent only after all that may throw.
  open_body-accepts :
      (command : JsonCommand js) → Triple NotOpen (open_body pf command) (λ _. IsAccepted) NotOpen
  unfolding open_body
  open_body-accepts command =
      let k = NotOpen-IsStable in
      by_bind _ _ (Keeps-lift pf k _).both λ rec_id.
        by_bind _ _ (Keeps-assign pf k _ (λ s. refl)).both λ _.
          by_bind _ _ (Keeps-lift pf k _).both λ host. by_bind _ _ (Keeps-lift pf k _).both λ user.
            by_bind _ _ (Keeps-lift pf k _).both λ name.
              by_bind _ _ (Keeps-lift pf k _).both λ password. by_bind _ _ (by_gets _) λ ready.
                by_bind _ _ (by_if (not ready) _ _ (λ _. by_crash) (λ _. by_pure tt (λ s h. h)))
                  λ _. by_bind _ _ (Keeps-work_dir pf k).both λ dir.
                    by_bind _ _ (Keeps-in_manager pf k _).both λ _.
                      by_bind _ _ (by_gets _) λ wspace.
                        by_bind _ _ (Keeps-in_manager pf k _).both λ _.
                          by_bind _ _ (Keeps-in_manager pf k _).both λ have_rdata.
                            by_bind _ _ (Keeps-prepare_r pf k dir have_rdata).both λ _.
                              by_bind _ _
                                (by_modify
                                  {Q = λ _ t.
                                    (u : Session pf) × (t ≡ send_json pf opened_message u)}
                                  _ (λ s h. (s, refl)))
                                λ _. by_modify _ (λ s h.
                                  (h.0, ap {A = Session pf} (λ t. record t { opened = true }) h.1))

  opening :
      (command : JsonCommand js)
      → Triple NotOpen (handle_open pf command) (λ _ t. IsAccepted t ⊎ IsRefused t) NotOpen
  unfolding handle_open NotOpen
  opening command = by_bind _ _ (by_reads (λ s. s.opened)) λ already.
      by_if already _ _ (λ was. by_pure tt (λ s h. absurd (ground (arith, h.1, was))))
        λ _.
          by_bind _ _ (by_before _ (λ s h. h.0) (Keeps-lift pf NotOpen-IsStable _).both) λ wspace.
            by_bind _ _ (Keeps-assign pf NotOpen-IsStable _ (λ s. refl)).both λ _.
              by_try _ _ _ (by_weaken _ (λ a t h. inl h) (λ t h. h) (open_body-accepts command))
                (λ s h. h)
                λ e. by_modify _ (λ s h. inr (NotOpen-IsStable.sends _ s h, (s, e, refl)))

  -- An `open` command of a session that is not open. When the handler returns, either the session is open and the
  -- last it did was to send `success: true`, or it is not open and the last it did was to send
  -- `success: false` with the text of an exception. When it throws, the session is not open.
  pub handle_open-answers :
      (command : JsonCommand js) (s : Session pf)
      → s.opened ≡ false
      → Post (λ _ t. IsAccepted t ⊎ IsRefused t) (λ t. t.opened ≡ false) (handle_open pf command s)
  unfolding NotOpen
  handle_open-answers command s h = (opening command).at s h
