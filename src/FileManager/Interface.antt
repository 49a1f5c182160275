-- ===== src/FileManager/Interface.antt =====
-- src/FileManager.cpp: the public interface of `FileManager`.
use rc2compute.Prelude.{
  Bool, false, not, Option, none, some, List, [], ◌∷◌, ◌++◌, Bytes, length, lit, ltb, if◌then◌else◌,
}
use rc2compute.Effects.{runtime_error, ok, raised, Exec, pure, gets, modify, ◌>>=◌, ◌>>◌}
use rc2compute.Numbers.{ℤ, pos, negsuc, show, succ}
use rc2compute.Map.{find}
use rc2compute.World.{World}
use rc2compute.Database.{plain, execute}
use rc2compute.FileSource.{DbFileInfo, file_at, initialize_source, new_source, set_working_dir}
use rc2compute.FileSource.Load.{load_files, load_rdata}
use rc2compute.FileSource.Store.{insert_db_file, save_rdata}
use rc2compute.FileManager.{
  Manager, in_source, in_db, world_of, with_world, object, deref, lookup_name,
}
use rc2compute.FileManager.Watches.{setup_inotify}

-- What a caller learns of a file; the default has the id 0.
pub record FileInfo : Type 0 where
  pub id : ℤ
  pub version : ℤ
  pub name : Bytes

abbrev pub no_file : FileInfo
no_file = record { id = pos 0; version = pos 0; name = [] }

unfoldable pub info_of : DbFileInfo → FileInfo
info_of f = record { id = f.id; version = f.version; name = f.name }

-- A file manager that knows no file; the id of the source's workspace is not set.
unfoldable pub new_manager : (w : World) → World.W w → Manager w
new_manager w d = record {
  source = record {
    db = record { world = d; sent = []; open_flag = false };
    wspace_id = World.garbage w d;
    working_dir = [];
    objects = λ p. record {
      id = pos 0;
      version = pos 0;
      name = [];
      path = [];
      watch_descriptor = pos 0;
      sb = none;
    };
    next_ptr = 1;
    files_by_id = [];
  };
  wspace_id = pos 0;
  session_rec_id = pos 0;
  session_image_batch = pos 0;
  manually_added = [];
  files_by_watch = [];
  pending_images = [];
  image_ids = [];
  working_dir = [];
  inotify_fd = negsuc 0;
  root_wd = pos 0;
  ignore_fs = false;
  ignore_db = false;
  timers = 0;
}

module _ (w : World) where
  open w use {inotify_enabled, disable_inotify}

  unfoldable pub connect : ℤ → ℤ → Exec (Manager w) (Unit {0})
  connect wspace_id session_rec_id = do
    modify (λ s. record s { wspace_id = wspace_id; session_rec_id = session_rec_id })
    in_source w (initialize_source w wspace_id)
    in_source w (load_files w (lit "where wspaceid = " ++ show wspace_id))
    modify (λ s. record s { session_image_batch = pos 0 })

  -- The argument `dbsrc` is left out, as every caller does, so the source is a new one.
  unfoldable pub init_file_manager : Bytes → ℤ → ℤ → Exec (Manager w) (Unit {0})
  unfolding connect
  init_file_manager dir wspace_id session_rec_id = do
    modify (λ s. record s {
      working_dir = dir;
      source = set_working_dir w dir (new_source w s.source);
    })
    connect wspace_id session_rec_id
    setup_inotify w
    in_db w (execute w (plain (lit "listen rcfile")))
    pure tt

  -- Both tests are the other way round than their messages.
  unfoldable pub suspend_notify_events : Exec (Manager w) (Unit {0})
  suspend_notify_events s =
      if inotify_enabled (world_of w s)
      then (raised (runtime_error (lit "notify events already suspended")), s)
      else (ok tt, with_world w (disable_inotify (world_of w s)) s)

  unfoldable pub resume_notify_events : Exec (Manager w) (Unit {0})
  resume_notify_events s =
      if not (inotify_enabled (world_of w s))
      then (raised (runtime_error (lit "notify events already enabled")), s)
      else (ok tt, with_world w (disable_inotify (world_of w s)) s)

  unfoldable pub reset_watch : Manager w → Manager w
  reset_watch s = record s {
    session_image_batch =
        if ltb 0 (length s.image_ids) then succ s.session_image_batch else s.session_image_batch;
    image_ids = [];
    manually_added = [];
  }

  -- The image ids and the batch number.
  unfoldable pub check_watch : Manager w → List ℤ × ℤ
  check_watch s = (s.image_ids, s.session_image_batch)

  unfoldable pub find_or_add_file : Bytes → Exec (Manager w) FileInfo
  find_or_add_file name = do
    found ← lookup_name w name
    elim found [
      | some p ↦ (do f ← object w p; pure (info_of f))
      | none ↦ (do
        id ← in_source w (insert_db_file w name)
        modify (λ s. record s { manually_added = name ∷ s.manually_added })
        added ← in_source w (file_at w id)
        p ← deref w added
        f ← object w p
        pure (info_of f))
    ]

  -- The result that goes with `false` is the argument as it was.
  unfoldable pub file_info_for_id : ℤ → Exec (Manager w) (Option FileInfo)
  file_info_for_id id = do
    found ← gets (λ s. find id s.source.files_by_id)
    elim found [
      | none ↦ pure none
      | some q ↦ (do p ← deref w q; f ← object w p; pure (some (info_of f)))
    ]

  unfoldable pub file_path_for_id : ℤ → Exec (Manager w) (Option Bytes)
  file_path_for_id id = do
    found ← gets (λ s. find id s.source.files_by_id)
    elim found [
      | none ↦ pure none
      | some q ↦ (do p ← deref w q; f ← object w p; pure (some f.path))
    ]

  unfoldable pub load_r_data : Exec (Manager w) Bool
  load_r_data = in_source w (load_rdata w)

  unfoldable pub save_r_data : Exec (Manager w) (Unit {0})
  save_r_data = in_source w (save_rdata w)
