-- ===== src/FileManager/Notifications/Keeps.antt =====
-- src/FileManager.cpp: every notification keeps what a first call of `ignoreFSNotifications` keeps.
use rc2compute.Prelude.{refl, not, List, [], ◌∷◌, Bytes}
use rc2compute.Effects.{out_of_range, any_exception}
use rc2compute.Effects.Hoare.{by_bind, by_if, by_option, by_gets, by_try}
use rc2compute.Numbers.{ℤ, eq_ℤ}
use rc2compute.Map.{find, has}
use rc2compute.World.{World}
use rc2compute.FileSource.{file_at}
use rc2compute.FileSource.Load.{load_files}
use rc2compute.FileManager.{in_dir}
use rc2compute.FileManager.Notifications.{
  NoteType, inserted, updated, deleted, read_note, where_file, delete_file, apply_note,
  process_db_notification, process_all,
}
use rc2compute.FileManager.Window.{
  Invariant, remove_from_disk-Keeps, IsKept, Keeps, source-Keeps, deref-Keeps, watch_file-Keeps,
  pure-Keeps, raise-Keeps, rm_watch-Keeps, object-Keeps, change-Keeps,
}
use rc2compute.FileManager.Handlers.{ignore-Keeps}

module _ (w : World) (i : Invariant w) (kept : IsKept i.Flags) where
  delete_file-Keeps : (id : ℤ) → Keeps w i (delete_file w id)
  unfolding delete_file
  delete_file-Keeps id = by_bind _ _ (by_gets (λ s. find id s.source.files_by_id)) λ found.
      by_option found _ _ (raise-Keeps w i out_of_range) λ q. by_bind _ _ (deref-Keeps w i q) λ p.
        by_bind _ _ (object-Keeps w i p) λ f.
          by_bind _ _ (rm_watch-Keeps w i f.watch_descriptor) λ _.
            by_bind _ _
              (change-Keeps w i _ (λ s. (refl, refl, i.stable.erased id s.source, λ h. h)))
              λ _. by_bind _ _ (by_gets (in_dir w f.path)) λ path. remove_from_disk-Keeps w i path

  apply_note-Keeps : (kind : NoteType) (id : ℤ) → Keeps w i (apply_note w kind id)
  unfolding apply_note
  apply_note-Keeps deleted id =
      by_try _ any_exception _ (delete_file-Keeps id) (λ s h. h) (λ e. pure-Keeps w i tt)
  apply_note-Keeps inserted id = by_bind _ _ (ignore-Keeps w i kept) λ _.
      by_bind _ _
        (source-Keeps w i (load_files w (where_file w id)) (i.stable.loads (where_file w id)))
        λ _.
          by_bind _ _ (source-Keeps w i (file_at w id) (i.stable.finds id))
            λ found. by_bind _ _ (deref-Keeps w i found) λ p. watch_file-Keeps w i p
  apply_note-Keeps updated id = by_bind _ _ (by_gets (λ s. has id s.source.files_by_id)) λ known.
      by_if known _ _
        (λ _.
          by_bind _ _ (ignore-Keeps w i kept) λ _.
            source-Keeps w i (load_files w (where_file w id)) (i.stable.loads (where_file w id)))
        (λ _. pure-Keeps w i tt)

  process-Keeps : (message : Bytes) → Keeps w i (process_db_notification w message)
  unfolding process_db_notification
  process-Keeps message = by_option (read_note w message) _ _ (pure-Keeps w i tt) λ note.
      by_bind _ _ (by_gets (λ s. s.wspace_id)) λ wspace.
        by_if (not (eq_ℤ wspace note.wspace_id)) _ _ (λ _. pure-Keeps w i tt)
          λ _.
            by_try _ any_exception _ (apply_note-Keeps note.kind note.file_id) (λ s h. h)
              (λ e. pure-Keeps w i tt)

  pub process_all-Keeps : (payloads : List Bytes) → Keeps w i (process_all w payloads)
  unfolding process_all
  process_all-Keeps [] = pure-Keeps w i tt
  process_all-Keeps (payload ∷ payloads) = by_bind _ _ (by_gets (λ s. s.ignore_db)) λ ignoring.
      by_bind _ _ (by_if ignoring _ _ (λ _. pure-Keeps w i tt) (λ _. process-Keeps payload))
        λ _. process_all-Keeps payloads
