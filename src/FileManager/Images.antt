-- ===== src/FileManager/Images.antt =====
-- src/FileManager.cpp: plot images, from the file that R writes to the row in the database.
use rc2compute.Prelude.{ℕ, not, none, some, [], ◌∷◌, ◌++◌, Bytes, length, lit, ltb, if◌then◌else◌}
use rc2compute.Effects.{formatted, Exec, pure, raise, gets, modify, ◌>>=◌, ◌>>◌}
use rc2compute.Numbers.{ℤ, pos, minus_one, show, succ, lt_ℤ, eq_ℤ}
use rc2compute.Map.{Map, insert, erase}
use rc2compute.World.{World}
use rc2compute.Database.{execute, long_from_query, is_command_ok}
use rc2compute.FileSource.{read_file_blob, remove_from_disk, filesystem_error}
use rc2compute.FileManager.{
  Manager, PendingImage, in_source, in_db, world_of, in_dir, ignore_fs_notifications, rm_watch,
  add_watch,
}

module _ (w : World) where
  open w use {W, file_size, append_path}

  unfoldable pub insert_image_text : ℤ → ℤ → ℤ → Bytes
  insert_image_text id session batch =
      lit "insert into sessionimage (id,sessionid,batchid,name,imgdata) values ("
      ++ (show id
          ++ (lit ","
              ++ (show session
                  ++ (lit ","
                      ++ (show batch ++ (lit ",'img" ++ (show id ++ lit ".png',$1::bytea)")))))))

  -- The batch number is fetched at the first image after a start.
  unfoldable pub choose_batch : Exec (Manager w) (Unit {0})
  choose_batch = do
    batch ← gets (λ s. s.session_image_batch)
    if lt_ℤ (pos 0) batch then pure tt else do
      session ← gets (λ s. s.session_rec_id)
      last ← in_db w (
          long_from_query w
            (lit "select max(batchid) from sessionimage where sessionid = " ++ show session))
      modify (λ t. record t { session_image_batch = succ last })

  unfoldable pub store_image : Bytes → Bytes → Exec (Manager w) ℤ
  unfolding choose_batch
  store_image path content = do
    id ← in_db w (long_from_query w (lit "select nextval('sessionimage_seq'::regclass)"))
    if not (lt_ℤ (pos 0) id)
        then raise (formatted (lit "failed to get session image id"))
        else pure tt
    choose_batch
    text ← gets (λ s. insert_image_text id s.session_rec_id s.session_image_batch)
    r ← in_db w (execute w (record { text = text; params = content ∷ [] }))
    if not (is_command_ok r)
        then raise (formatted (lit "failed to insert image in db: " ++ r.error_message))
        else pure tt
    modify (λ s. record s { image_ids = s.image_ids ++ id ∷ [] })
    ignore_fs_notifications w
    in_source w (remove_from_disk w path)
    pure (pos 0)

  -- `insertImage`: a file with no data is left alone.
  unfoldable pub insert_image : Bytes → Exec (Manager w) ℤ
  unfolding store_image
  insert_image name = do
    path ← gets (in_dir w name)
    content ← in_source w (read_file_blob w path)
    if ltb (length content) 1 then pure (pos 0) else store_image path content

  -- IN_CLOSE_WRITE | IN_CLOSE_NOWRITE
  abbrev pub image_mask : ℕ
  image_mask = 0x18

  unfoldable pub start_image_watch : Bytes → Bytes → Exec (Manager w) (Unit {0})
  start_image_watch name number = do
    path ← gets (in_dir w name)
    wd ← add_watch w path image_mask
    if eq_ℤ wd minus_one
        then raise (formatted (lit "inotify_add_warched failed " ++ name))
        else modify (λ s. record s {
          pending_images =
              insert wd (record { file_name = name; img_num_str = number; wd = wd })
                s.pending_images;
        })

  unfoldable pub stop_image_watch : ℤ → Exec (Manager w) (Unit {0})
  stop_image_watch wd = do
    rm_watch w wd
    modify (λ s. record s { pending_images = erase wd s.pending_images })

  -- `fs::file_size` throws for a missing file, so the comparison with -1 is always true.
  unfoldable pub cleanup_image : PendingImage → Exec (Manager w) (Unit {0})
  unfolding insert_image
  cleanup_image image = do
    missing ← gets (λ s. file_size (world_of w s) (append_path s.working_dir image.file_name))
    elim missing [
      | none ↦ raise (filesystem_error w)
      | some size ↦ (do insert_image image.file_name; rm_watch w image.wd)
    ]

  unfoldable pub cleanup_images : Map PendingImage → Exec (Manager w) (Unit {0})
  unfolding cleanup_image
  cleanup_images [] = pure tt
  cleanup_images ((k, image) ∷ images) = do cleanup_image image; cleanup_images images

  unfoldable pub cleanup_image_watch : Exec (Manager w) (Unit {0})
  unfolding cleanup_images
  cleanup_image_watch = do
    images ← gets (λ s. s.pending_images)
    cleanup_images images
    modify (λ s. record s { pending_images = [] })
