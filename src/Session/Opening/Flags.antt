-- ===== src/Session/Opening/Flags.antt =====
-- src/RSession.cpp: the flags after a session is opened or closed.
use rc2compute.Prelude.{◌++◌, refl, Bool, true, false, Bytes, not, lit}
use rc2compute.Effects.{runtime_error, ok}
use rc2compute.Effects.Hoare.{Triple, by_bind, by_if, by_pure, by_raise, by_crash, by_gets, by_try}
use rc2compute.Numbers.{pos, eq_ℤ}
use rc2compute.Utils.{make_directory_path, directory_at}
use rc2compute.World.{World}
use rc2compute.Command.{JsonCommand}
use rc2compute.Session.{Platform, eval}
use rc2compute.Session.Printing.{eval-keeps, in_manager-keeps, in_world-keeps, lift-keeps}
use rc2compute.Session.Flags.{
  assigning, sending, Flags, Quiet, Quiet-IsKept, Flags-IsKept, ignoring,
}
use rc2compute.Session.Opening.{
  handle_save_env, handle_close, work_dir, prepare_r, open_body, handle_open,
}

module _ (pf : Platform) where
  open pf use {world, js}
  open js use {J, dump}

  pub handle_save_env-Quiet : Triple (Quiet pf) (handle_save_env pf) (λ _. Quiet pf) (Quiet pf)
  unfolding handle_save_env
  handle_save_env-Quiet =
      by_bind _ _ (eval-keeps pf (Quiet-IsKept pf) _) λ _. in_manager-keeps pf (Quiet-IsKept pf) _

  pub handle_close-Quiet : Triple (Quiet pf) (handle_close pf) (λ _. Quiet pf) (Quiet pf)
  unfolding handle_close
  handle_close-Quiet = by_bind _ _ (by_gets _) λ closed.
      by_if closed _ _ (λ _. by_pure tt (λ s h. h))
        λ _.
          by_bind _ _ (assigning pf _ (λ s. refl))
            λ _. by_bind _ _ handle_save_env-Quiet λ _. assigning pf _ (λ s. refl)

  work_dir-Quiet : Triple (Quiet pf) (work_dir pf) (λ _. Quiet pf) (Quiet pf)
  unfolding work_dir
  work_dir-Quiet =
      by_bind _ _
        (in_world-keeps pf (Quiet-IsKept pf) (λ d. let (n, e) = World.uuid world d in (ok n, e)))
        λ name.
          by_bind _ _
            (in_world-keeps pf (Quiet-IsKept pf) (λ d.
              let (c, e) = make_directory_path world (lit "/tmp/" ++ name) 0x1ed d in (ok c, e)))
            λ code.
              by_bind _ _
                (by_if (not (eq_ℤ code (pos 0))) _ _
                  (λ _.
                    by_raise (runtime_error (lit "failed to create working directory")) (λ s h. h))
                  (λ _. by_pure tt (λ s h. h)))
                λ _.
                  by_bind _ _
                    (in_world-keeps pf (Quiet-IsKept pf) (directory_at world (lit "/tmp/" ++ name)))
                    λ made. by_bind _ _ (assigning pf _ (λ s. refl)) λ _. by_pure _ (λ s h. h)

  unheard :
      (code : Bytes)
      → Triple
          (Flags pf true false false)
          (eval pf code)
          (λ _. Flags pf true false false)
          (Quiet pf)
  unheard code = eval-keeps pf (Flags-IsKept pf true false false) code

  prepare_r-Quiet :
      (dir : Bytes) (have_rdata : Bool)
      → Triple (Quiet pf) (prepare_r pf dir have_rdata) (λ _. Quiet pf) (Quiet pf)
  unfolding prepare_r
  prepare_r-Quiet dir have_rdata = by_bind _ _ (eval-keeps pf (Quiet-IsKept pf) _) λ _.
      by_bind _ _ (ignoring pf true) λ _. by_bind _ _ (unheard _) λ _. by_bind _ _ (unheard _) λ _.
        by_bind _ _ (unheard _) λ _. by_bind _ _ (unheard _) λ _. by_bind _ _ (unheard _) λ _.
          by_bind _ _
            (by_if have_rdata _ _ (λ _. by_bind _ _ (unheard _) λ _. by_pure tt (λ s h. h))
              (λ _. by_pure tt (λ s h. h)))
            λ _. ignoring pf {i = true} false

  open_body-Quiet :
      (command : JsonCommand js)
      → Triple (Quiet pf) (open_body pf command) (λ _. Quiet pf) (Quiet pf)
  unfolding open_body
  open_body-Quiet command = by_bind _ _ (lift-keeps pf _) λ rec_id.
      by_bind _ _ (assigning pf _ (λ s. refl)) λ _. by_bind _ _ (lift-keeps pf _) λ host.
        by_bind _ _ (lift-keeps pf _) λ user. by_bind _ _ (lift-keeps pf _) λ name.
          by_bind _ _ (lift-keeps pf _) λ password. by_bind _ _ (by_gets _) λ ready.
            by_bind _ _ (by_if (not ready) _ _ (λ _. by_crash) (λ _. by_pure tt (λ s h. h))) λ _.
              by_bind _ _ work_dir-Quiet λ dir.
                by_bind _ _ (in_manager-keeps pf (Quiet-IsKept pf) _) λ _.
                  by_bind _ _ (by_gets _) λ wspace.
                    by_bind _ _ (in_manager-keeps pf (Quiet-IsKept pf) _) λ _.
                      by_bind _ _ (in_manager-keeps pf (Quiet-IsKept pf) _) λ have_rdata.
                        by_bind _ _ (prepare_r-Quiet dir have_rdata)
                          λ _. by_bind _ _ (sending pf _) λ _. assigning pf _ (λ s. refl)

  pub handle_open-Quiet :
      (command : JsonCommand js)
      → Triple (Quiet pf) (handle_open pf command) (λ _. Quiet pf) (Quiet pf)
  unfolding handle_open
  handle_open-Quiet command = by_bind _ _ (by_gets _) λ already.
      by_if already _ _ (λ _. by_pure tt (λ s h. h))
        λ _. by_bind _ _ (lift-keeps pf _) λ wspace.
          by_bind _ _ (assigning pf _ (λ s. refl))
            λ _. by_try _ _ _ (open_body-Quiet command) (λ s h. h) (λ e. sending pf _)
