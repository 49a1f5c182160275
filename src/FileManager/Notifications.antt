-- ===== src/FileManager/Notifications.antt =====
-- src/FileManager.cpp: notifications of the database about files that others changed.
pub mod Keeps
use rc2compute.Prelude.{
  ℕ, Bool, not, Option, none, some, List, [], ◌∷◌, ◌++◌, Bytes, length, lit, ltb, ◌==◌,
  if◌then◌else◌,
}
use rc2compute.Effects.{
  out_of_range, Exec, pure, raise, gets, modify, try_catch, any_exception, ◌>>=◌, ◌>>◌,
}
use rc2compute.Numbers.{ℤ, show, eq_ℤ, atol}
use rc2compute.Map.{find, has, erase}
use rc2compute.World.{World}
use rc2compute.Database.{plain, execute, is_command_ok, consume}
use rc2compute.FileSource.{file_at, remove_from_disk}
use rc2compute.FileSource.Load.{load_files}
use rc2compute.FileManager.{
  Manager, in_source, in_db, object, deref, in_dir, ignore_fs_notifications, rm_watch,
}
use rc2compute.FileManager.Watches.{watch_file}

abbrev first : Bytes → ℕ
first [] = 0
first (c ∷ cs) = c

abbrev rest_of : Bytes → Bytes
rest_of [] = []
rest_of (c ∷ cs) = cs

-- The three kinds of message.
pub data NoteType : Type 0 where
  inserted updated deleted : NoteType

-- What a message says: its kind, the file and the workspace.
pub record Note : Type 0 where
  pub kind : NoteType
  pub file_id : ℤ
  pub wspace_id : ℤ

note_type : ℕ → Option NoteType
note_type c =
    if c == b'i'
    then some inserted
    else if c == b'u'
    then some updated
    else if c == b'd'
    then some deleted
    else none

unfoldable pub from_fields : NoteType → List Bytes → Option Note
from_fields kind (a ∷ b ∷ c ∷ []) =
    some (record { kind = kind; file_id = atol a; wspace_id = atol b })
from_fields kind _ = none

module _ (w : World) where
  open w use {split_slash}

  -- The first part of `processDBNotification`; `none` is a bad message, which is only logged.
  unfoldable pub read_note : Bytes → Option Note
  unfolding note_type from_fields
  read_note message = elim (note_type (first message)) [
    | none ↦ none
    | some kind ↦
        if ltb (length message) 2 then none else from_fields kind (split_slash (rest_of message))
  ]

  abbrev pub where_file : ℤ → Bytes
  where_file id = lit " where f.id = " ++ show id

  -- The try block of a deletion, whose handlers take every exception. The entry erased from
  -- `filesByWatchDesc_` is that of the file's id.
  unfoldable pub delete_file : ℤ → Exec (Manager w) (Unit {0})
  delete_file id = do
    found ← gets (λ s. find id s.source.files_by_id)
    elim found [
      | none ↦ raise out_of_range
      | some q ↦ (do
        p ← deref w q
        f ← object w p
        rm_watch w f.watch_descriptor
        modify (λ s. record s {
          source = record s.source { files_by_id = erase id s.source.files_by_id };
          files_by_watch = erase id s.files_by_watch;
        })
        path ← gets (in_dir w f.path)
        in_source w (remove_from_disk w path))
    ]

  unfoldable pub apply_note : NoteType → ℤ → Exec (Manager w) (Unit {0})
  unfolding delete_file
  apply_note deleted id = try_catch (delete_file id) any_exception (λ e. pure tt)
  apply_note inserted id = do
    ignore_fs_notifications w
    in_source w (load_files w (where_file id))
    found ← in_source w (file_at w id)
    p ← deref w found
    watch_file w p
  apply_note updated id = do
    known ← gets (λ s. has id s.source.files_by_id)
    if known
        then (do ignore_fs_notifications w; in_source w (load_files w (where_file id)))
        else pure tt

  unfoldable pub process_db_notification : Bytes → Exec (Manager w) (Unit {0})
  unfolding apply_note
  process_db_notification message = elim (read_note message) [
    | none ↦ pure tt
    | some note ↦ (do
      wspace ← gets (λ s. s.wspace_id)
      if not (eq_ℤ wspace note.wspace_id)
          then pure tt
          else try_catch (apply_note note.kind note.file_id) any_exception (λ e. pure tt))
  ]

  unfoldable pub process_all : List Bytes → Exec (Manager w) (Unit {0})
  unfolding process_db_notification
  process_all [] = pure tt
  process_all (payload ∷ payloads) = do
    ignoring ← gets (λ s. s.ignore_db)
    if ignoring then pure tt else process_db_notification payload
    process_all payloads

  -- `handleDBNotifications`, with the payloads that `PQnotifies` returns before it has no more.
  unfoldable pub handle_db_notifications : List Bytes → Exec (Manager w) (Unit {0})
  unfolding process_all
  handle_db_notifications payloads = do
    ignore_fs_notifications w
    in_db w (consume w)
    process_all payloads

  -- `executeDBCommand`, which nothing calls: it returns false when the command succeeded.
  unfoldable pub execute_db_command : Bytes → Exec (Manager w) Bool
  execute_db_command text = do r ← in_db w (execute w (plain text)); pure (not (is_command_ok r))
