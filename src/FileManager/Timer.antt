-- ===== src/FileManager/Timer.antt =====
-- src/FileManager.cpp: the timer of `ignoreFSNotifications`.
use rc2compute.Prelude.{
  Bytes, refl, ℕ, ◌-◌, ◌<◌, ◌≡◌, ap, suc, Bool, true, false, arith, if◌then◌else◌,
}
use rc2compute.World.{World}
use rc2compute.FileManager.{Manager}
use rc2compute.Effects.Hoare.{IsDefined, state_of_post, any_outcome}
use rc2compute.Numbers.{ℤ}
use rc2compute.FileManager.Beginning.{IsInitial, init_file_manager-Keeps}
use rc2compute.FileManager.Interface.{new_manager, init_file_manager}
use rc2compute.FileManager.Window.{IsKept, Holds, flags_only}
use rc2compute.FileManager.Steps.{Reaches, Reaches-Holds}

-- One timer is pending while the flag is set, and none otherwise.
IsTimed : Bool → ℕ → Type 0
IsTimed flag timers = timers ≡ (if flag then 1 else 0)

IsTimed-kept : IsKept IsTimed
unfolding IsTimed
IsTimed-kept = record { starts = λ n h. ap suc h }

IsTimed-fires : (flag : Bool) (n : ℕ) → 0 < n → IsTimed flag n → IsTimed false (n - 1)
unfolding IsTimed
IsTimed-fires true n p h = ground arith
IsTimed-fires false n p h = ground arith

module _ (w : World) where
  IsTimed-IsInitial : IsInitial w (flags_only w IsTimed)
  IsTimed-IsInitial = record {
    makes = λ dir s h. tt;
    initializes = λ wsid. any_outcome _;
    first_batch = λ batch ids h. tt;
  }

  -- From a new manager on, once `initFileManager` has ended, also with a throw, and after any file events,
  -- notifications, commands and timers, one timer is pending if the flag is set, and none if not. So a set
  -- flag has a timer that clears it, and there are never two.
  pub Reaches-timed :
      (d : World.W w) (dir : Bytes) (wspace_id rec : ℤ) (t : Manager w)
      → IsDefined (init_file_manager w dir wspace_id rec (new_manager w d)).0
      → Reaches w (init_file_manager w dir wspace_id rec (new_manager w d)).1 t
      → t.timers ≡ (if t.ignore_fs then 1 else 0)
  unfolding IsTimed new_manager
  Reaches-timed d dir wspace_id rec t defined r =
      let i = flags_only w IsTimed in
      let (x, s) = init_file_manager w dir wspace_id rec (new_manager w d) in
      let begun : Holds w i s = state_of_post (Holds w i) x s defined (
        (init_file_manager-Keeps w i IsTimed-IsInitial dir wspace_id rec).at (new_manager w d)
          (record { at = refl; files = tt; images = tt })) in
      (Reaches-Holds w i IsTimed-kept (λ batch ids k. tt) IsTimed-fires s t begun r).at
