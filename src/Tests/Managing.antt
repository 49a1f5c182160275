-- ===== src/Tests/Managing.antt =====
-- A manager of one file, and what happens to it.
use rc2compute.Prelude.{
  ◌⊎◌, ◌++◌, true, List, ◌≡◌, refl, none, some, [], ◌∷◌, arith, lit, if◌then◌else◌,
}
use rc2compute.Effects.{ok}
use rc2compute.Effects.Hoare.{Post}
use rc2compute.Numbers.{ℤ, pos, negsuc, eq_ℤ, lt_ℤ}
use rc2compute.Map.{find}
use rc2compute.FileManager.{Manager, ignore_fs_notifications}
use rc2compute.Effects.{◌>>=◌, pure}
use rc2compute.Database.{consume}
use rc2compute.FileManager.Watches.{InotifyEvent, handle_inotify_event, on_delete_self}
use rc2compute.FileManager.Notifications.{inserted, read_note, process_all, handle_db_notifications}
use rc2compute.FileManager.Shield.{handle_db_notifications-shields}
use rc2compute.FileManager.Steps.{
  Reaches, start, step, acts, at_once, then_acts, command_started, notifications,
}
use rc2compute.FileManager.Batches.{Reaches-Grown}
use rc2compute.FileManager.Timer.{Reaches-timed}
use rc2compute.FileSource.Consistent.{AllOwn}
use rc2compute.FileManager.Interface.{new_manager, init_file_manager, reset_watch}
use rc2compute.FileManager.Consistency.{Reaches-consistent}
use rc2compute.FileManager.Forgetting.{on_delete_self-erases_id}
use rc2compute.FileManager.Messages.{print_note, read_note-print_note}
use rc2compute.Tests.{test_world, test_world-IsSplit, manager, one_file}

abbrev deletion : InotifyEvent
deletion = record { wd = pos 3; mask = 0x400; name = [] }

-- After a notice of a deletion.
abbrev shielded : Manager test_world
shielded = (handle_db_notifications test_world (lit "d5/1/1" ∷ []) manager).1

handle_db_notifications-shields_example :
    handle_inotify_event test_world (deletion ∷ []) (reset_watch test_world shielded)
    ≡ (ok tt, reset_watch test_world shielded)
unfolding handle_db_notifications ignore_fs_notifications process_all ◌>>=◌ consume pure
    rc2compute.Effects.gets read_note lit rc2compute.Tests.split_at_slash eq_ℤ
    rc2compute.Numbers.atol rc2compute.Numbers.read_digits rc2compute.Effects.try_catch find
    rc2compute.Effects.modify rc2compute.FileSource.remove_from_disk
handle_db_notifications-shields_example =
    handle_db_notifications-shields test_world (lit "d5/1/1" ∷ []) (deletion ∷ []) manager
      (reset_watch test_world shielded) tt
      (then_acts shielded shielded (reset_watch test_world shielded) (at_once shielded)
        (command_started shielded))

-- A new manager, after `initFileManager` has failed for want of the workspace, and after a round of notifications.
abbrev initial : Manager test_world
initial = (init_file_manager test_world (lit "/w") (pos 1) (pos 2) (new_manager test_world tt)).1

abbrev noted : Manager test_world
noted = (handle_db_notifications test_world [] initial).1

Reaches-timed_example : noted.timers ≡ (if noted.ignore_fs then 1 else 0)
unfolding init_file_manager ◌>>=◌ rc2compute.Effects.modify rc2compute.FileSource.initialize_source
    rc2compute.Database.execute rc2compute.Database.rows_returned rc2compute.Database.data_returned
    rc2compute.Prelude.same lit rc2compute.Effects.raise handle_db_notifications
    ignore_fs_notifications new_manager consume pure
Reaches-timed_example =
    Reaches-timed test_world tt (lit "/w") (pos 1) (pos 2) noted tt (
      step initial initial noted (start initial) (acts initial noted (notifications initial [] tt)))

read_note-print_note_example :
    read_note test_world
      (print_note (record { kind = inserted; file_id = pos 12; wspace_id = negsuc 0 }) (pos 3))
    ≡ some (record { kind = inserted; file_id = pos 12; wspace_id = negsuc 0 })
read_note-print_note_example =
    read_note-print_note test_world test_world-IsSplit
      (record { kind = inserted; file_id = pos 12; wspace_id = negsuc 0 }) (pos 3)

on_delete_self-erases_id_example :
    let (r, t) = on_delete_self test_world deletion manager in
    (r ≡ ok tt)
    × (find (pos 3) t.files_by_watch
        ≡ (if eq_ℤ (pos 5) (pos 3) then none else find (pos 3) manager.files_by_watch))
unfolding find eq_ℤ
on_delete_self-erases_id_example =
    on_delete_self-erases_id test_world deletion manager 8 (pos 3) refl

Reaches-consistent_example :
    Post
      (λ _ t.
        (u : Manager test_world)
        → Reaches test_world t u
        → AllOwn u.source.objects u.source.next_ptr u.source.files_by_id)
      (λ t.
        (u : Manager test_world)
        → Reaches test_world t u
        → AllOwn u.source.objects u.source.next_ptr u.source.files_by_id)
      (init_file_manager test_world (lit "/w") (pos 1) (pos 2) manager)
Reaches-consistent_example = Reaches-consistent test_world (lit "/w") (pos 1) (pos 2) manager

abbrev two_images : Manager test_world
two_images = record manager { session_image_batch = pos 3; image_ids = pos 8 ∷ pos 9 ∷ [] }

Reaches-Grown_example :
    (((reset_watch test_world two_images).session_image_batch ≡ pos 3)
      × ((more : List ℤ) × ((reset_watch test_world two_images).image_ids
            ≡ (pos 8 ∷ pos 9 ∷ []) ++ more)))
    ⊎ (lt_ℤ (pos 3) (reset_watch test_world two_images).session_image_batch ≡ true)
unfolding lt_ℤ
Reaches-Grown_example =
    Reaches-Grown test_world two_images (reset_watch test_world two_images) (ground arith) (
      step two_images two_images (reset_watch test_world two_images) (start two_images)
        (acts two_images (reset_watch test_world two_images) (command_started two_images)))
