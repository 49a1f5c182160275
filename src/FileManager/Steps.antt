-- ===== src/FileManager/Steps.antt =====
-- src/FileManager.cpp: the events of a running session, in any order, and what they keep.
use rc2compute.Prelude.{
  ℕ, ◌-◌, ◌<◌, refl, Bool, false, Option, none, some, List, [], ◌∷◌, Bytes, length, ltb,
  if◌then◌else◌,
}
use rc2compute.Numbers.{ℤ, succ}
use rc2compute.Effects.{Exec, pure, modify, ◌>>=◌, ◌>>◌}
use rc2compute.Effects.Hoare.{IsDefined, state_of_post, by_bind, by_if, by_option, by_gets}
use rc2compute.Map.{Map}
use rc2compute.World.{World}
use rc2compute.Database.{consume}
use rc2compute.FileSource.{Ptr, file_at}
use rc2compute.FileSource.Store.{insert_db_file}
use rc2compute.FileManager.Images.{cleanup_image, cleanup_images, cleanup_image_watch}
use rc2compute.FileManager.Interface.{info_of, find_or_add_file, reset_watch}
use rc2compute.FileManager.{PendingImage, Manager, in_source, object, deref, ignore_fs_notes_off}
use rc2compute.FileManager.Watches.{InotifyEvent, handle_inotify_event}
use rc2compute.FileManager.Notifications.{handle_db_notifications}
use rc2compute.FileManager.Window.{
  Invariant, IsKept, Holds, Keeps, source-Keeps, db-Keeps, deref-Keeps, pure-Keeps, raise-Keeps,
  rm_watch-Keeps, object-Keeps, change-Keeps, lookup_name-Keeps,
}
use rc2compute.FileManager.Handlers.{ignore-Keeps, on_events-Keeps, insert_image-Keeps}
use rc2compute.FileManager.Notifications.Keeps.{process_all-Keeps}

module _ (w : World) where
  -- What changes a manager while the session runs, but for the timer: file events, notifications, the end of
  -- the command whose images are collected, the start of the next one, and a file that R made.
  pub data Acts : Manager w → Manager w → Type 0 where
    file_events :
        (s : Manager w) (events : List InotifyEvent)
        → IsDefined (handle_inotify_event w events s).0
        → Acts s (handle_inotify_event w events s).1
    notifications :
        (s : Manager w) (payloads : List Bytes)
        → IsDefined (handle_db_notifications w payloads s).0
        → Acts s (handle_db_notifications w payloads s).1
    images_collected :
        (s : Manager w) → IsDefined (cleanup_image_watch w s).0 → Acts s (cleanup_image_watch w s).1
    command_started : (s : Manager w) → Acts s (reset_watch w s)
    file_made :
        (s : Manager w) (name : Bytes)
        → IsDefined (find_or_add_file w name s).0
        → Acts s (find_or_add_file w name s).1

  -- Any events in which the timer does not fire.
  pub data Waits : Manager w → Manager w → Type 0 where
    at_once : (s : Manager w) → Waits s s
    then_acts : (s t u : Manager w) → Waits s t → Acts t u → Waits s u

  pub data Happens : Manager w → Manager w → Type 0 where
    acts : (s t : Manager w) → Acts s t → Happens s t
    timer_fired : (s : Manager w) → 0 < s.timers → Happens s (ignore_fs_notes_off w s)

  pub data Reaches : Manager w → Manager w → Type 0 where
    start : (s : Manager w) → Reaches s s
    step : (s t u : Manager w) → Reaches s t → Happens t u → Reaches s u

  module _ (i : Invariant w) (kept : IsKept i.Flags) where
    handle_inotify_event-Keeps :
        (events : List InotifyEvent) → Keeps w i (handle_inotify_event w events)
    unfolding handle_inotify_event
    handle_inotify_event-Keeps events = by_bind _ _ (by_gets (λ s. s.ignore_fs)) λ ignoring.
        by_if ignoring _ _ (λ _. pure-Keeps w i tt)
          λ _. by_bind _ _ (ignore-Keeps w i kept) λ _. on_events-Keeps w i kept events

    handle_db_notifications-Keeps :
        (payloads : List Bytes) → Keeps w i (handle_db_notifications w payloads)
    unfolding handle_db_notifications
    handle_db_notifications-Keeps payloads =
        by_bind _ _ (ignore-Keeps w i kept)
          λ _. by_bind _ _ (db-Keeps w i (consume w)) λ _. process_all-Keeps w i kept payloads

    cleanup_images-Keeps : (images : Map PendingImage) → Keeps w i (cleanup_images w images)
    unfolding cleanup_images cleanup_image
    cleanup_images-Keeps [] = pure-Keeps w i tt
    cleanup_images-Keeps ((k, image) ∷ images) =
        by_bind _ _
          (by_bind _ _ (by_gets _) λ missing. by_option missing _ _ (raise-Keeps w i _) λ size.
            by_bind _ _ (insert_image-Keeps w i kept image.file_name)
              λ _. rm_watch-Keeps w i image.wd)
          λ _. cleanup_images-Keeps images

    cleanup_image_watch-Keeps : Keeps w i (cleanup_image_watch w)
    unfolding cleanup_image_watch
    cleanup_image_watch-Keeps = by_bind _ _ (by_gets (λ s. s.pending_images)) λ images.
        by_bind _ _ (cleanup_images-Keeps images) λ _.
          change-Keeps w i (λ s. record s { pending_images = [] })
            (λ s. (refl, refl, λ h. h, λ h. h))

    find_or_add_file-Keeps : (name : Bytes) → Keeps w i (find_or_add_file w name)
    unfolding find_or_add_file
    find_or_add_file-Keeps name = by_bind _ _ (lookup_name-Keeps w i name) go
      where
        go :
            (found : Option Ptr)
            → Keeps w i (elim found [
              | some p ↦ (do f ← object w p; pure (info_of f))
              | none ↦ (do
                id ← in_source w (insert_db_file w name)
                modify (λ s. record s { manually_added = name ∷ s.manually_added })
                added ← in_source w (file_at w id)
                p ← deref w added
                f ← object w p
                pure (info_of f))
            ])
        go (some p) = by_bind _ _ (object-Keeps w i p) λ f. pure-Keeps w i _
        go none =
            by_bind _ _ (source-Keeps w i (insert_db_file w name) (i.stable.inserts name)) λ id.
              by_bind _ _ (change-Keeps w i _ (λ s. (refl, refl, λ h. h, λ h. h))) λ _.
                by_bind _ _ (source-Keeps w i (file_at w id) (i.stable.finds id)) λ added.
                  by_bind _ _ (deref-Keeps w i added)
                    λ p. by_bind _ _ (object-Keeps w i p) λ f. pure-Keeps w i _

    kept_by :
        {A : Type 0} (m : Exec (Manager w) A) (s : Manager w)
        → Keeps w i m
        → IsDefined (m s).0
        → Holds w i s
        → Holds w i (m s).1
    kept_by m s k d h = state_of_post (Holds w i) (m s).0 (m s).1 d (k.at s h)

    -- The start of a command has to keep what is said of the images.
    module _
        (resets : (batch : ℤ) (ids : List ℤ)
          → i.Images batch ids
          → i.Images (if ltb 0 (length ids) then succ batch else batch) []) where
      Acts-Holds : (s t : Manager w) → Acts s t → Holds w i s → Holds w i t
      unfolding reset_watch
      Acts-Holds _ _ (file_events s events d) h =
          kept_by _ s (handle_inotify_event-Keeps events) d h
      Acts-Holds _ _ (notifications s payloads d) h =
          kept_by _ s (handle_db_notifications-Keeps payloads) d h
      Acts-Holds _ _ (images_collected s d) h = kept_by _ s cleanup_image_watch-Keeps d h
      Acts-Holds _ _ (command_started s) h = record {
        at = h.at;
        files = h.files;
        images = resets s.session_image_batch s.image_ids h.images;
      }
      Acts-Holds _ _ (file_made s name d) h = kept_by _ s (find_or_add_file-Keeps name) d h

      pub Waits-Holds : (s t : Manager w) → Holds w i s → Waits s t → Holds w i t
      Waits-Holds _ _ h (at_once s) = h
      Waits-Holds _ _ h (then_acts s t u r e) = Acts-Holds t u e (Waits-Holds s t h r)

      -- The timer has to keep what is said of the flag and the timers.
      module _
          (fires : (flag : Bool) (n : ℕ) → 0 < n → i.Flags flag n → i.Flags false (n - 1)) where
        Happens-Holds : (s t : Manager w) → Happens s t → Holds w i s → Holds w i t
        unfolding ignore_fs_notes_off
        Happens-Holds _ _ (acts s t e) h = Acts-Holds s t e h
        Happens-Holds _ _ (timer_fired s p) h = record {
          at = fires s.ignore_fs s.timers p h.at;
          files = h.files;
          images = h.images;
        }

        pub Reaches-Holds : (s t : Manager w) → Holds w i s → Reaches s t → Holds w i t
        Reaches-Holds _ _ h (start s) = h
        Reaches-Holds _ _ h (step s t u r e) = Happens-Holds t u e (Reaches-Holds s t h r)
