-- ===== src/FileManager/Watches.antt =====
-- src/FileManager.cpp: the inotify watches and the events that they report.
use rc2compute.Prelude.{
  ℕ, ◌/◌, ◌%◌, ◌^◌, Bool, true, false, not, ◌||◌, Option, none, some, List, [], ◌∷◌, ◌++◌, Bytes,
  lit, same, ◌==◌, if◌then◌else◌,
}
use rc2compute.Effects.{
  Exn, stat_exception, formatted, Exec, pure, raise, crash, gets, modify, try_catch, any_exception,
  ◌>>=◌, ◌>>◌,
}
use rc2compute.Numbers.{ℤ, pos, minus_one, lt_ℤ, eq_ℤ}
use rc2compute.Map.{Map, find, assign, erase}
use rc2compute.World.{World}
use rc2compute.FileSource.{Ptr, set_object, file_at}
use rc2compute.FileSource.Store.{insert_db_file, update_db_file, remove_db_file}
use rc2compute.FileManager.{
  Manager, in_source, world_of, with_world, object, deref, in_dir, ignore_fs_notifications,
  rm_watch, add_watch, lookup_name,
}
use rc2compute.FileManager.Images.{insert_image, start_image_watch, stop_image_watch}

-- `struct inotify_event`: the descriptor, the mask and the name.
pub record InotifyEvent : Type 0 where
  pub wd : ℤ
  pub mask : ℕ
  pub name : Bytes

-- The events that the handler tells apart, from the low word of the mask.
pub data EventType : Type 0 where
  in_create in_close_write in_delete_self in_open in_modify in_other : EventType

unfoldable pub event_type : ℕ → EventType
event_type mask =
    let evtype = mask % 65536 in
    if evtype == 0x100
    then in_create
    else if evtype == 0x8
    then in_close_write
    else if evtype == 0x400
    then in_delete_self
    else if evtype == 0x20
    then in_open
    else if evtype == 0x2
    then in_modify
    else in_other

-- `mask & IN_ISDIR`
abbrev pub is_dir : ℕ → Bool
is_dir mask = mask / 2 ^ 30 % 2 == 1

-- `event->name[0] != '.'`
abbrev pub visible : Bytes → Bool
visible [] = true
visible (c ∷ cs) = not (c == b'.')

-- IN_OPEN | IN_CLOSE_WRITE | IN_DELETE_SELF | IN_MODIFY | IN_EXCL_UNLINK
abbrev pub file_mask : ℕ
file_mask = 0x400042a

-- IN_CREATE | IN_DELETE | IN_DELETE_SELF | IN_MOVE_SELF | IN_MOVE
abbrev pub root_mask : ℕ
root_mask = 0xfc0

unfoldable pub contains : List Bytes → Bytes → Bool
contains [] a = false
contains (x ∷ xs) a = same x a || contains xs a

abbrev pub is_stat_exception : Exn → Bool
is_stat_exception (stat_exception m) = true
is_stat_exception _ = false

module _ (w : World) where
  open w use {W, stat, inotify_init, image_number}

  unfoldable pub watch_file : Ptr → Exec (Manager w) (Unit {0})
  watch_file p = do
    f ← object w p
    path ← gets (in_dir w f.path)
    found ← gets (λ s. stat (world_of w s) path)
    elim found [
      | none ↦ raise (stat_exception (lit "stat failed for watch " ++ path))
      | some t ↦ (do
        in_source w (set_object w p (record f { sb = some t }))
        wd ← add_watch w path file_mask
        in_source w (set_object w p (record f { sb = some t; watch_descriptor = wd }))
        if eq_ℤ wd minus_one
            then raise (formatted (lit "inotify_add_warched failed " ++ f.name))
            else modify (λ s. record s { files_by_watch = assign wd (some p) s.files_by_watch }))
    ]

  -- The loop of `setupInotify`: a file that cannot be stat'ed is passed over.
  unfoldable pub watch_files : Map (Option Ptr) → Exec (Manager w) (Unit {0})
  unfolding watch_file
  watch_files [] = pure tt
  watch_files ((k, found) ∷ m) = do
    try_catch (do p ← deref w found; watch_file p) is_stat_exception (λ e. pure tt)
    watch_files m

  unfoldable pub setup_inotify : Exec (Manager w) (Unit {0})
  unfolding watch_files
  setup_inotify = do
    modify (λ s.
        let (fd, next) = inotify_init (world_of w s) in
        with_world w next (record s { inotify_fd = fd }))
    fd ← gets (λ s. s.inotify_fd)
    dir ← gets (λ s. s.working_dir)
    if eq_ℤ fd minus_one
        then raise (formatted (lit "inotify_init() failed for " ++ dir))
        else pure tt
    wd ← add_watch w dir root_mask
    modify (λ s. record s { root_wd = wd })
    if eq_ℤ wd minus_one then raise (formatted (lit "inotify_add_watched failed")) else pure tt
    files ← gets (λ s. s.source.files_by_id)
    watch_files files

  -- A new file of the working directory that is not an image.
  unfoldable pub add_new_file : Bytes → Exec (Manager w) (Unit {0})
  unfolding watch_file
  add_new_file name = do
    by_hand ← gets (λ s. contains s.manually_added name)
    if by_hand then pure tt else do
      known ← lookup_name w name
      elim known [
        | some p ↦ pure tt
        | none ↦ (do
          id ← in_source w (insert_db_file w name)
          if lt_ℤ (pos 0) id
              then (do found ← in_source w (file_at w id); p ← deref w found; watch_file p)
              else pure tt)
      ]

  unfoldable pub on_create : InotifyEvent → Exec (Manager w) (Unit {0})
  unfolding add_new_file
  on_create event =
      if is_dir event.mask || not (visible event.name)
      then pure tt
      else elim (image_number event.name) [
        | some number ↦ start_image_watch w event.name number
        | none ↦ add_new_file event.name
      ]

  -- `filesByWatchDesc_[event->wd]`, read through: a missing key gives a null pointer.
  unfoldable pub watched : ℤ → Exec (Manager w) Ptr
  watched wd = do
    found ← gets (λ s. find wd s.files_by_watch)
    elim found [ none ↦ crash | some p ↦ deref w p ]

  unfoldable pub on_close_write : InotifyEvent → Exec (Manager w) (Unit {0})
  unfolding watched
  on_close_write event = do
    image ← gets (λ s. find event.wd s.pending_images)
    elim image [
      | some i ↦ (do insert_image w i.file_name; stop_image_watch w event.wd)
      | none ↦ (do p ← watched event.wd; in_source w (update_db_file w p))
    ]

  -- The entry erased from `filesByWatchDesc_` is that of the file's id, not of the descriptor.
  unfoldable pub on_delete_self : InotifyEvent → Exec (Manager w) (Unit {0})
  unfolding watched
  on_delete_self event = do
    p ← watched event.wd
    in_source w (remove_db_file w p)
    f ← object w p
    modify (λ s. record s { files_by_watch = erase f.id s.files_by_watch })
    rm_watch w event.wd

  unfoldable pub on_event : InotifyEvent → EventType → Exec (Manager w) (Unit {0})
  unfolding on_create on_close_write on_delete_self watched
  on_event event in_create = on_create event
  on_event event in_close_write = on_close_write event
  on_event event in_delete_self = on_delete_self event
  on_event event in_open = do watched event.wd; pure tt
  on_event event in_modify = do watched event.wd; pure tt
  on_event event in_other = pure tt

  -- Each event is handled under a `catch (exception&)`.
  unfoldable pub on_events : List InotifyEvent → Exec (Manager w) (Unit {0})
  unfolding on_event
  on_events [] = pure tt
  on_events (event ∷ events) = do
    try_catch (on_event event (event_type event.mask)) any_exception (λ e. pure tt)
    on_events events

  -- `handleInotifyEvent` with the events of one read, each of them whole.
  unfoldable pub handle_inotify_event : List InotifyEvent → Exec (Manager w) (Unit {0})
  unfolding on_events
  handle_inotify_event events = do
    ignoring ← gets (λ s. s.ignore_fs)
    if ignoring then pure tt else (do ignore_fs_notifications w; on_events events)
