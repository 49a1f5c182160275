-- ===== src/Session/Opening/Stable.antt =====
-- src/RSession.cpp: opening and closing keep what every command keeps.
use rc2compute.Prelude.{◌≡◌, refl, Bool, true, Bytes}
use rc2compute.Effects.Hoare.{Triple, by_modify, by_bind, by_gets, by_if, by_pure, by_weaken}
use rc2compute.Effects.{modify}
use rc2compute.Effects.Keeps.{Keeps}
use rc2compute.Command.{JsonCommand}
use rc2compute.Session.{Platform, Session}
use rc2compute.Session.Stable.{IsStable, with_fact, closed-IsStable, session_rules}
use rc2compute.Session.Opening.{
  handle_save_env, handle_close, work_dir, prepare_r, open_body, handle_open,
}

module _ (pf : Platform) {P : Session pf → Type 0} (k : IsStable pf P) where
  pub Keeps-handle_save_env : Keeps P (handle_save_env pf)
  unfolding handle_save_env
  Keeps-handle_save_env = search session_rules depth 25 fits 3000

module _ (pf : Platform) {P : Session pf → Type 0} (k : IsStable pf P) where
  open pf use {world, js}

  pub Keeps-work_dir : Keeps P (work_dir pf)
  unfolding work_dir
  Keeps-work_dir = search session_rules depth 25 fits 3000

  pub Keeps-prepare_r : (dir : Bytes) (have : Bool) → Keeps P (prepare_r pf dir have)
  unfolding prepare_r
  Keeps-prepare_r dir have = search session_rules depth 25 fits 3000

  -- Opening also changes whether the session is open.
  module _ (opens : (s : Session pf) → P s → P (record s { opened = true })) where
    Keeps-opened : Keeps P (modify (λ s. record s { opened = true }))
    Keeps-opened = record { both = by_modify _ opens }

    Keeps-open_body : (command : JsonCommand js) → Keeps P (open_body pf command)
    unfolding open_body
    Keeps-open_body command =
        search (session_rules, Keeps-work_dir, Keeps-prepare_r, Keeps-opened) depth 40 fits 5000

    pub Keeps-handle_open : (command : JsonCommand js) → Keeps P (handle_open pf command)
    unfolding handle_open
    Keeps-handle_open command = search (session_rules, Keeps-open_body) depth 25 fits 3000

  -- So does closing.
  module _ (closes : (s : Session pf) → P s → P (record s { properly_closed = true }))
      (breaks : (s : Session pf)
        → s.properly_closed ≡ true
        → P s
        → P (record s { loop_broken = true })) where
    pub Keeps-handle_close : Keeps P (handle_close pf)
    unfolding handle_close
    Keeps-handle_close = record {
      both = by_bind _ _ (by_gets (λ s. s.properly_closed)) λ closed.
          by_if closed _ _ (λ _. by_pure tt (λ s h. h))
            λ _.
              by_bind _ _
                (by_modify {Q = λ _ s. P s × (s.properly_closed ≡ true)} _
                  (λ s h. (closes s h, refl)))
                λ _.
                  by_bind _ _ (by_weaken _ (λ a s h. h) (λ s h. h.0) saves)
                    λ _. by_modify _ (λ s h. breaks s h.1 h.0);
    }
      where
        saves :
            Triple
              (λ s. P s × (s.properly_closed ≡ true))
              (handle_save_env pf)
              (λ _ s. P s × (s.properly_closed ≡ true))
              (λ s. P s × (s.properly_closed ≡ true))
        saves = (Keeps-handle_save_env pf (with_fact pf k (closed-IsStable pf true))).both
