-- ===== src/FileManager/Forgetting.antt =====
-- src/FileManager.cpp: what the two maps of files hold after a file is deleted.
use rc2compute.Prelude.{◌≡◌, refl, Option, none, some, ◌∷◌, ◌++◌, arith, lit, if◌then◌else◌}
use rc2compute.Effects.{ok, pure, gets, modify, ◌>>=◌}
use rc2compute.Numbers.{ℤ, show, eq_ℤ}
use rc2compute.Map.{Map, find, erase, find-erase}
use rc2compute.World.{World}
use rc2compute.Database.{Db, plain, execute, is_command_ok}
use rc2compute.FileSource.{Source, Ptr}
use rc2compute.FileSource.Store.{remove_db_file}
use rc2compute.FileManager.{Manager}
use rc2compute.FileManager.Watches.{InotifyEvent, watched, on_delete_self}

module _ (w : World) where
  -- It changes the connection and the map by id alone.
  remove_db_file-changes :
      (p : Ptr) (s : Source w)
      → (d : Db w) × (m : Map (Option Ptr)) × (remove_db_file w p s
          ≡ (ok tt, record s { db = d; files_by_id = m }))
  unfolding remove_db_file execute ◌>>=◌ gets modify pure
  remove_db_file-changes p s =
      let q = plain (lit "delete from rcfile where id = " ++ show (s.objects p).id) in
      let (r, next) = World.query w s.db.world q in
      let d : Db w = record s.db { world = next; sent = (q, r.status) ∷ s.db.sent } in
      (
        d,
        (if is_command_ok r then erase (s.objects p).id s.files_by_id else s.files_by_id),
        ground arith,
      )

  -- IN_DELETE_SELF for a descriptor that is watched, with the object `p`: the handler returns, and of the map
  -- by descriptor it erases the entry under the id of the file, whatever the descriptor is. So the entry of
  -- the descriptor stays unless the two numbers are equal, and one of another file may be lost.
  pub on_delete_self-erases_id :
      (event : InotifyEvent) (s : Manager w) (p : Ptr) (k : ℤ)
      → find event.wd s.files_by_watch ≡ some (some p)
      → let (r, t) = on_delete_self w event s in
        (r ≡ ok tt)
        × (find k t.files_by_watch
            ≡ (if eq_ℤ (s.source.objects p).id k then none else find k s.files_by_watch))
  unfolding on_delete_self watched ◌>>=◌ gets modify pure
  on_delete_self-erases_id event s p k h =
      let (d, m, removed) = remove_db_file-changes p s.source in
      rw (h, removed) ((refl, find-erase k (s.source.objects p).id s.files_by_watch))
