-- ===== src/FileManager.antt =====
-- src/FileManager.cpp, `FileManager::Impl`: its state and what the event handlers share. The
-- watches, images, notifications and the public interface are in the modules below.
pub mod Images
pub mod Watches
pub mod Window
pub mod Handlers
pub mod Shield
pub mod Steps
pub mod Beginning
pub mod Timer
pub mod Batches
pub mod Consistency
pub mod Forgetting
pub mod Messages
pub mod Notifications
pub mod Interface
use rc2compute.Prelude.{
  ℕ, suc, ◌+◌, ◌-◌, Bool, true, false, Option, none, some, List, [], ◌∷◌, ◌++◌, Bytes, lit, same,
  if◌then◌else◌,
}
use rc2compute.Effects.{
  Result, ok, raised, undefined, Exec, pure, raise, crash, gets, modify, ◌>>=◌, ◌>>◌,
}
use rc2compute.Numbers.{ℤ}
use rc2compute.Map.{Map}
use rc2compute.World.{World}
use rc2compute.Database.{Db}
use rc2compute.FileSource.{Source, DbFileInfo, Ptr}

pub record PendingImage : Type 0 where
  pub file_name : Bytes
  pub img_num_str : Bytes
  pub wd : ℤ

module _ (w : World) where
  open w use {W}

  -- `dbConnection_` is the connection of `source`. `timers` counts the scheduled events that
  -- switch `ignore_fs` off. Of `rootDir_` the descriptor is kept; its `stat` buffer is never read.
  pub record Manager : Type 0 where
    pub source : Source w
    pub wspace_id : ℤ
    pub session_rec_id : ℤ
    pub session_image_batch : ℤ
    pub manually_added : List Bytes
    pub files_by_watch : Map (Option Ptr)
    pub pending_images : Map PendingImage
    pub image_ids : List ℤ
    pub working_dir : Bytes
    pub inotify_fd : ℤ
    pub root_wd : ℤ
    pub ignore_fs : Bool
    pub ignore_db : Bool
    pub timers : ℕ

  abbrev pub in_source : {A : Type 0} → Exec (Source w) A → Exec Manager A
  in_source m s = let (r, t) = m s.source in (r, record s { source = t })

  abbrev pub in_db : {A : Type 0} → Exec (Db w) A → Exec Manager A
  in_db m s = let (r, d) = m s.source.db in (r, record s { source = record s.source { db = d } })

  abbrev pub world_of : Manager → W
  world_of s = s.source.db.world

  abbrev pub with_world : W → Manager → Manager
  with_world d s = record s { source = record s.source { db = record s.source.db { world = d } } }

  abbrev pub object : Ptr → Exec Manager DbFileInfo
  object p = gets (λ s. s.source.objects p)

  abbrev pub deref : Option Ptr → Exec Manager Ptr
  deref none = crash
  deref (some p) = pure p

  abbrev pub in_dir : Bytes → Manager → Bytes
  in_dir name s = s.working_dir ++ (lit "/" ++ name)

  -- `ignoreFSNotifications`: the first call sets the flag and schedules the event that clears it.
  unfoldable pub ignore_fs_notifications : Exec Manager (Unit {0})
  ignore_fs_notifications s =
      if s.ignore_fs
      then (ok tt, s)
      else (ok tt, record s { ignore_fs = true; timers = suc s.timers })

  -- `handleIgnoreFSNotesOff`, when one of the scheduled events fires.
  unfoldable pub ignore_fs_notes_off : Manager → Manager
  ignore_fs_notes_off s = record s { ignore_fs = false; timers = s.timers - 1 }

  -- `inotify_rm_watch` on the manager's own inotify instance.
  abbrev pub rm_watch : ℤ → Exec Manager (Unit {0})
  rm_watch wd = modify (λ s. with_world (World.rm_watch w (world_of s) s.inotify_fd wd) s)

  unfoldable pub add_watch : Bytes → ℕ → Exec Manager ℤ
  add_watch path mask s =
      let (wd, next) = World.add_watch w (world_of s) s.inotify_fd path mask in
      (ok wd, with_world next s)

  -- The loop of `fileExistsWithName` and of `findOrAddFile`: the first object with the name. A null
  -- pointer in the map is read through.
  unfoldable pub find_by_name : Bytes → Map (Option Ptr) → (Ptr → DbFileInfo) → Result (Option Ptr)
  find_by_name name [] objects = ok none
  find_by_name name ((k, none) ∷ m) objects = undefined
  find_by_name name ((k, some p) ∷ m) objects =
      if same name (objects p).name then ok (some p) else find_by_name name m objects

  unfoldable pub lookup_name : Bytes → Exec Manager (Option Ptr)
  lookup_name name s = (find_by_name name s.source.files_by_id s.source.objects, s)
