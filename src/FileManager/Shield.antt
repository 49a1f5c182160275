-- ===== src/FileManager/Shield.antt =====
-- src/FileManager.cpp: while files of a notification are written, events of the file system are ignored,
-- until the one timer that the window has fires.
use rc2compute.Prelude.{ℕ, ◌≡◌, refl, ◌∙◌, Bool, Bool-cases, true, inl, inr, List, Bytes}
use rc2compute.Effects.{ok, pure, gets, ◌>>=◌}
use rc2compute.Effects.Hoare.{
  Post, Triple, IsDefined, state_of_post, by_bind, by_before, by_weaken, by_if, by_reads, by_pure,
}
use rc2compute.World.{World}
use rc2compute.Database.{consume}
use rc2compute.FileManager.{Manager, ignore_fs_notifications}
use rc2compute.FileManager.Watches.{InotifyEvent, handle_inotify_event}
use rc2compute.FileManager.Notifications.{handle_db_notifications}
use rc2compute.FileManager.Window.{flags_only, IsKept, Holds, db-Keeps}
use rc2compute.FileManager.Notifications.Keeps.{process_all-Keeps}
use rc2compute.FileManager.Steps.{Waits, Waits-Holds}
use rc2compute.FileManager.Handlers.{on_events-Keeps}

-- The flag is set.
pub IsOn : Bool → ℕ → Type 0
IsOn flag timers = flag ≡ true

IsOn-kept : IsKept IsOn
unfolding IsOn
IsOn-kept = record { starts = λ n h. refl }

module _ (w : World) where
  Anything : Manager w → Type 0
  Anything s = Unit

  switches-IsOn :
      Triple Anything
        (ignore_fs_notifications w)
        (λ _. Holds w (flags_only w IsOn))
        (Holds w (flags_only w IsOn))
  unfolding ignore_fs_notifications IsOn
  switches-IsOn = record {
    at = λ s h. elim (Bool-cases s.ignore_fs) [
      | inl on ↦ rw (on, ignore_fs_notifications) (record { at = refl; files = tt; images = tt })
      | inr off ↦ rw (off, ignore_fs_notifications) (record { at = refl; files = tt; images = tt })
    ];
  }

  on-ignored :
      (events : List InotifyEvent) (t : Manager w)
      → Holds w (flags_only w IsOn) t
      → handle_inotify_event w events t ≡ (ok tt, t)
  unfolding IsOn handle_inotify_event ◌>>=◌ gets pure
  on-ignored events t h = rw (h.at) refl

  handle_db_notifications-IsOn :
      (payloads : List Bytes)
      → Triple Anything
          (handle_db_notifications w payloads)
          (λ _. Holds w (flags_only w IsOn))
          (Holds w (flags_only w IsOn))
  unfolding handle_db_notifications
  handle_db_notifications-IsOn payloads = by_bind _ _ switches-IsOn λ _.
      by_bind _ _ (db-Keeps w (flags_only w IsOn) (consume w))
        λ _. process_all-Keeps w (flags_only w IsOn) IsOn-kept payloads

  -- From `handleDBNotifications` on, with any notifications and from any state, until the timer fires: whatever
  -- file events, notifications, commands and collections of images come in between, in any order and also if
  -- they throw, any file events are ignored, that is, `handleInotifyEvent` changes nothing. None of what comes
  -- in between runs into undefined behaviour.
  pub handle_db_notifications-shields :
      (payloads : List Bytes) (events : List InotifyEvent) (s u : Manager w)
      → IsDefined (handle_db_notifications w payloads s).0
      → Waits w (handle_db_notifications w payloads s).1 u
      → handle_inotify_event w events u ≡ (ok tt, u)
  unfolding Anything
  handle_db_notifications-shields payloads events s u defined r =
      let (x, t) = handle_db_notifications w payloads s in
      on-ignored events u (
        Waits-Holds w (flags_only w IsOn) IsOn-kept (λ batch ids k. tt) t u
          (state_of_post (Holds w (flags_only w IsOn)) x t defined
            ((handle_db_notifications-IsOn payloads).at s tt))
          r)

  -- A batch of file events opens the window too: a batch that is read right after it is dropped.
  -- This holds for any two batches and in every state, except after undefined behaviour in the first one.
  pub handle_inotify_event-drops_next :
      (events next : List InotifyEvent) (s : Manager w)
      → Post
          (λ _ t. handle_inotify_event w next t ≡ (ok tt, t))
          (λ t. handle_inotify_event w next t ≡ (ok tt, t))
          (handle_inotify_event w events s)
  unfolding handle_inotify_event Anything IsOn
  handle_inotify_event-drops_next events next s =
      (by_weaken (handle_inotify_event w events) (λ _. on-ignored next) (on-ignored next) opened).at
        s tt
    where
      opened :
          Triple Anything
            (handle_inotify_event w events)
            (λ _. Holds w (flags_only w IsOn))
            (Holds w (flags_only w IsOn))
      opened = by_bind _ _ (by_reads (λ s. s.ignore_fs)) λ ignoring.
          by_if ignoring _ _
            (λ on. by_pure tt (λ s h. record { at = h.1 ∙ on; files = tt; images = tt }))
            λ _.
              by_bind _ _ (by_before _ (λ s h. tt) switches-IsOn)
                λ _. on_events-Keeps w (flags_only w IsOn) IsOn-kept events
