-- ===== src/FileManager/Beginning.antt =====
-- src/FileManager.cpp: what `initFileManager` keeps on every way out.
use rc2compute.Prelude.{refl, Option, [], ◌∷◌, List, Bytes}
use rc2compute.Effects.Hoare.{Triple, by_bind, by_if, by_gets, by_modify, by_try}
use rc2compute.Numbers.{ℤ, pos, minus_one, eq_ℤ}
use rc2compute.Map.{Map}
use rc2compute.World.{World}
use rc2compute.FileSource.{Source, Ptr, new_source, set_working_dir, initialize_source}
use rc2compute.FileManager.Watches.{watch_files, setup_inotify, is_stat_exception}
use rc2compute.FileManager.Interface.{connect, init_file_manager}
use rc2compute.FileManager.Window.{
  Invariant, Keeps, source-Keeps, db-Keeps, deref-Keeps, watch_file-Keeps, add_watch-Keeps,
  change-Keeps, pure-Keeps, raise-Keeps,
}

-- What is said of the files survives a new source, and what is said of the images the first batch number.
pub record IsInitial (w : World) (i : Invariant w) : Type 0 where
  pub makes :
      (dir : Bytes) (s : Source w) → i.Files s → i.Files (set_working_dir w dir (new_source w s))
  pub initializes : (wsid : ℤ) → Triple i.Files (initialize_source w wsid) (λ _. i.Files) i.Files
  pub first_batch : (batch : ℤ) (ids : List ℤ) → i.Images batch ids → i.Images (pos 0) ids

module _ (w : World) (i : Invariant w) (starts : IsInitial w i) where
  connect-Keeps : (wspace_id rec : ℤ) → Keeps w i (connect w wspace_id rec)
  unfolding connect
  connect-Keeps wspace_id rec =
      by_bind _ _ (change-Keeps w i _ (λ s. (refl, refl, λ h. h, λ h. h))) λ _.
        by_bind _ _ (source-Keeps w i _ (starts.initializes wspace_id)) λ _.
          by_bind _ _ (source-Keeps w i _ (i.stable.loads _)) λ _.
            change-Keeps w i _
              (λ s. (refl, refl, λ h. h, starts.first_batch s.session_image_batch s.image_ids))

  watch_files-Keeps : (m : Map (Option Ptr)) → Keeps w i (watch_files w m)
  unfolding watch_files
  watch_files-Keeps [] = pure-Keeps w i tt
  watch_files-Keeps ((k, found) ∷ m) =
      by_bind _ _
        (by_try _ is_stat_exception _ (by_bind _ _ (deref-Keeps w i found) (watch_file-Keeps w i))
          (λ s h. h) (λ e. pure-Keeps w i tt))
        λ _. watch_files-Keeps m

  setup_inotify-Keeps : Keeps w i (setup_inotify w)
  unfolding setup_inotify
  setup_inotify-Keeps =
      by_bind _ _
        (by_modify _
          (λ s h. record { at = h.at; files = i.stable.db s.source _ h.files; images = h.images }))
        λ _. by_bind _ _ (by_gets (λ s. s.inotify_fd)) λ fd.
          by_bind _ _ (by_gets (λ s. s.working_dir)) λ dir.
            by_bind _ _
              (by_if (eq_ℤ fd minus_one) _ _ (λ _. raise-Keeps w i _) (λ _. pure-Keeps w i tt))
              λ _. by_bind _ _ (add_watch-Keeps w i dir _) λ wd.
                by_bind _ _ (change-Keeps w i _ (λ s. (refl, refl, λ h. h, λ h. h))) λ _.
                  by_bind _ _
                    (by_if (eq_ℤ wd minus_one) _ _ (λ _. raise-Keeps w i _)
                      (λ _. pure-Keeps w i tt))
                    λ _. by_bind _ _ (by_gets (λ s. s.source.files_by_id)) watch_files-Keeps

  pub init_file_manager-Keeps :
      (dir : Bytes) (wspace_id rec : ℤ) → Keeps w i (init_file_manager w dir wspace_id rec)
  unfolding init_file_manager
  init_file_manager-Keeps dir wspace_id rec =
      by_bind _ _
        (change-Keeps w i
          (λ s. record s {
            working_dir = dir;
            source = set_working_dir w dir (new_source w s.source);
          })
          (λ s. (refl, refl, starts.makes dir s.source, λ h. h)))
        λ _. by_bind _ _ (connect-Keeps wspace_id rec) λ _.
          by_bind _ _ setup_inotify-Keeps λ _. by_bind _ _ (db-Keeps w i _) λ r. pure-Keeps w i tt
