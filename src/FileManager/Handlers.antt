-- ===== src/FileManager/Handlers.antt =====
-- src/FileManager.cpp: every handler of file events keeps what a first call of `ignoreFSNotifications` keeps.
use rc2compute.Prelude.{
  ap, ◌∙◌, refl, not, ◌||◌, Option, none, some, sym, Bool-cases, inl, inr, List, [], ◌∷◌, ◌++◌,
  Bytes, length, ltb, if◌then◌else◌,
}
use rc2compute.Effects.{pure, any_exception, ◌>>=◌, ◌>>◌}
use rc2compute.Effects.Hoare.{
  by_bind, by_if, by_option, by_gets, by_crash, by_try, by_reads, by_before, by_pure, by_modify,
}
use rc2compute.Numbers.{ℤ, pos, minus_one, succ, lt_ℤ, eq_ℤ}
use rc2compute.Map.{find, erase}
use rc2compute.World.{World}
use rc2compute.Database.{is_command_ok}
use rc2compute.FileSource.{Ptr, file_at}
use rc2compute.FileSource.Store.{insert_db_file, update_db_file, remove_db_file}
use rc2compute.FileManager.{PendingImage, in_source, deref, in_dir, ignore_fs_notifications}
use rc2compute.FileManager.Images.{
  choose_batch, store_image, insert_image, start_image_watch, stop_image_watch, image_mask,
}
use rc2compute.FileManager.Watches.{
  InotifyEvent, EventType, in_create, in_close_write, in_delete_self, in_open, in_modify, in_other,
  event_type, is_dir, visible, contains, watch_file, add_new_file, on_create, watched,
  on_close_write, on_delete_self, on_event, on_events,
}
use rc2compute.FileManager.Window.{
  Invariant, read_file_blob-Keeps, remove_from_disk-Keeps, IsKept, Keeps, source-Keeps, db-Keeps,
  object-Keeps, deref-Keeps, rm_watch-Keeps, add_watch-Keeps, lookup_name-Keeps, raise-Keeps,
  pure-Keeps, watch_file-Keeps, change-Keeps, Unchosen, db-Unchosen,
}

module _ (w : World) (i : Invariant w) (kept : IsKept i.Flags) where
  pub ignore-Keeps : Keeps w i (ignore_fs_notifications w)
  unfolding ignore_fs_notifications
  ignore-Keeps = record {
    at = λ s h. elim (Bool-cases s.ignore_fs) [
      | inl on ↦
          rw (on, ignore_fs_notifications)
            (record { at = rw (sym on) h.at; files = h.files; images = h.images })
      | inr off ↦
          rw (off, ignore_fs_notifications)
            (record {
              at = kept.starts s.timers (rw (sym off) h.at);
              files = h.files;
              images = h.images;
            })
    ];
  }

  choose_batch-Keeps : Keeps w i (choose_batch w)
  unfolding choose_batch
  choose_batch-Keeps = by_bind _ _ (by_reads (λ s. s.session_image_batch)) λ batch.
      by_if (lt_ℤ (pos 0) batch) _ _ (λ _. by_pure tt (λ s h. h.0))
        λ off.
          by_before _ (λ s h. record { holds = h.0; off = ap (λ b. lt_ℤ (pos 0) b) h.1 ∙ off })
            (by_bind {Q = λ _. Unchosen w i} _ _ (by_gets (λ s. s.session_rec_id)) λ session.
              by_bind _ _ (db-Unchosen w i _) λ last. by_modify _ (λ s h. record {
                at = h.holds.at;
                files = h.holds.files;
                images =
                    i.collected.chooses s.session_image_batch (succ last) s.image_ids h.off
                      h.holds.images;
              }))

  store_image-Keeps : (path content : Bytes) → Keeps w i (store_image w path content)
  unfolding store_image
  store_image-Keeps path content = by_bind _ _ (db-Keeps w i _) λ id.
      by_bind _ _
        (by_if (not (lt_ℤ (pos 0) id)) _ _ (λ _. raise-Keeps w i _) (λ _. pure-Keeps w i tt))
        λ _. by_bind _ _ choose_batch-Keeps λ _. by_bind _ _ (by_gets _) λ text.
          by_bind _ _ (db-Keeps w i _) λ r.
            by_bind _ _
              (by_if (not (is_command_ok r)) _ _ (λ _. raise-Keeps w i _) (λ _. pure-Keeps w i tt))
              λ _.
                by_bind _ _
                  (change-Keeps w i (λ s. record s { image_ids = s.image_ids ++ id ∷ [] })
                    (λ s. (
                      refl,
                      refl,
                      λ h. h,
                      i.collected.stores s.session_image_batch id s.image_ids,
                    )))
                  λ _.
                    by_bind _ _ ignore-Keeps
                      λ _. by_bind _ _ (remove_from_disk-Keeps w i path) λ _. pure-Keeps w i (pos 0)

  pub insert_image-Keeps : (name : Bytes) → Keeps w i (insert_image w name)
  unfolding insert_image
  insert_image-Keeps name = by_bind _ _ (by_gets (in_dir w name)) λ path.
      by_bind _ _ (read_file_blob-Keeps w i path) λ content.
        by_if (ltb (length content) 1) _ _ (λ _. pure-Keeps w i (pos 0))
          (λ _. store_image-Keeps path content)

  start_image_watch-Keeps : (name number : Bytes) → Keeps w i (start_image_watch w name number)
  unfolding start_image_watch
  start_image_watch-Keeps name number = by_bind _ _ (by_gets (in_dir w name)) λ path.
      by_bind _ _ (add_watch-Keeps w i path (image_mask w)) λ wd.
        by_if (eq_ℤ wd minus_one) _ _ (λ _. raise-Keeps w i _)
          (λ _. change-Keeps w i _ (λ s. (refl, refl, λ h. h, λ h. h)))

  stop_image_watch-Keeps : (wd : ℤ) → Keeps w i (stop_image_watch w wd)
  unfolding stop_image_watch
  stop_image_watch-Keeps wd = by_bind _ _ (rm_watch-Keeps w i wd) λ _.
      change-Keeps w i (λ s. record s { pending_images = erase wd s.pending_images })
        (λ s. (refl, refl, λ h. h, λ h. h))

  watched-Keeps : (wd : ℤ) → Keeps w i (watched w wd)
  unfolding watched
  watched-Keeps wd =
      by_bind _ _ (by_gets (λ s. find wd s.files_by_watch))
        λ found. by_option found _ _ by_crash (deref-Keeps w i)

  add_new_file-Keeps : (name : Bytes) → Keeps w i (add_new_file w name)
  unfolding add_new_file
  add_new_file-Keeps name = by_bind _ _ (by_gets (λ s. contains s.manually_added name)) λ by_hand.
      by_if by_hand _ _ (λ _. pure-Keeps w i tt)
        λ _. by_bind _ _ (lookup_name-Keeps w i name) λ known. known_or_new known
    where
      inserted : Keeps w i (in_source w (insert_db_file w name))
      inserted = source-Keeps w i (insert_db_file w name) (i.stable.inserts name)

      known_or_new :
          (known : Option Ptr)
          → Keeps w i (elim known [
            | some p ↦ pure tt
            | none ↦ (do
              id ← in_source w (insert_db_file w name)
              if lt_ℤ (pos 0) id
                  then (do found ← in_source w (file_at w id); p ← deref w found; watch_file w p)
                  else pure tt)
          ])
      known_or_new (some p) = pure-Keeps w i tt
      known_or_new none = by_bind _ _ inserted λ id.
          by_if (lt_ℤ (pos 0) id) _ _
            (λ _.
              by_bind _ _ (source-Keeps w i (file_at w id) (i.stable.finds id))
                λ found. by_bind _ _ (deref-Keeps w i found) (watch_file-Keeps w i))
            (λ _. pure-Keeps w i tt)

  on_create-Keeps : (event : InotifyEvent) → Keeps w i (on_create w event)
  unfolding on_create
  on_create-Keeps event =
      by_if (is_dir event.mask || not (visible event.name)) _ _ (λ _. pure-Keeps w i tt)
        λ _. image (World.image_number w event.name)
    where
      image :
          (number : Option Bytes)
          → Keeps w i (elim number [
            | some n ↦ start_image_watch w event.name n
            | none ↦ add_new_file w event.name
          ])
      image (some n) = start_image_watch-Keeps event.name n
      image none = add_new_file-Keeps event.name

  on_close_write-Keeps : (event : InotifyEvent) → Keeps w i (on_close_write w event)
  unfolding on_close_write
  on_close_write-Keeps event = by_bind _ _ (by_gets (λ s. find event.wd s.pending_images)) closed
    where
      closed :
          (image : Option PendingImage)
          → Keeps w i (elim image [
            | some i ↦ (do insert_image w i.file_name; stop_image_watch w event.wd)
            | none ↦ (do p ← watched w event.wd; in_source w (update_db_file w p))
          ])
      closed (some i) =
          by_bind _ _ (insert_image-Keeps i.file_name) λ _. stop_image_watch-Keeps event.wd
      closed none =
          by_bind _ _ (watched-Keeps event.wd)
            λ p. source-Keeps w i (update_db_file w p) (i.stable.updates p)

  on_delete_self-Keeps : (event : InotifyEvent) → Keeps w i (on_delete_self w event)
  unfolding on_delete_self
  on_delete_self-Keeps event = by_bind _ _ (watched-Keeps event.wd) λ p.
      by_bind _ _ (source-Keeps w i (remove_db_file w p) (i.stable.removes p)) λ _.
        by_bind _ _ (object-Keeps w i p) λ f.
          by_bind _ _
            (change-Keeps w i (λ s. record s { files_by_watch = erase f.id s.files_by_watch })
              (λ s. (refl, refl, λ h. h, λ h. h)))
            λ _. rm_watch-Keeps w i event.wd

  on_event-Keeps : (event : InotifyEvent) (type : EventType) → Keeps w i (on_event w event type)
  unfolding on_event
  on_event-Keeps event in_create = on_create-Keeps event
  on_event-Keeps event in_close_write = on_close_write-Keeps event
  on_event-Keeps event in_delete_self = on_delete_self-Keeps event
  on_event-Keeps event in_open = by_bind _ _ (watched-Keeps event.wd) λ _. pure-Keeps w i tt
  on_event-Keeps event in_modify = by_bind _ _ (watched-Keeps event.wd) λ _. pure-Keeps w i tt
  on_event-Keeps event in_other = pure-Keeps w i tt

  pub on_events-Keeps : (events : List InotifyEvent) → Keeps w i (on_events w events)
  unfolding on_events
  on_events-Keeps [] = pure-Keeps w i tt
  on_events-Keeps (event ∷ events) =
      by_bind _ _
        (by_try _ any_exception _ (on_event-Keeps event (event_type event.mask)) (λ s h. h)
          (λ e. pure-Keeps w i tt))
        λ _. on_events-Keeps events
