-- ===== src/FileSource/Load.antt =====
-- src/DBFileSource.cpp: from the database to the disk.
use rc2compute.Prelude.{
  ℕ, zero, suc, ◌+◌, Bool, true, false, not, Option, none, some, ◌++◌, Bytes, length, lit, ltb,
  if◌then◌else◌,
}
use rc2compute.Effects.{ok, Exec, pure, crash, gets, modify, ◌>>=◌, ◌>>◌}
use rc2compute.Numbers.{ℤ, pos, show, eq_ℤ}
use rc2compute.Map.{find, insert, erase}
use rc2compute.World.{DbResult, World}
use rc2compute.Database.{plain, execute, rows_returned, data_returned, get_value}
use rc2compute.Word.{get_be32}
use rc2compute.FileSource.{
  Source, in_db, on_disk, new_file, set_object, deref, file_at, in_dir, remove_from_disk,
}

module _ (w : World) where
  open w use {W, write_file, utime, append_path, remove_file}

  -- `res.getValue(i, j)`, read through without a test for null
  abbrev value : DbResult → ℕ → ℕ → Exec (Source w) Bytes
  value r row col = elim (get_value r row col) [ none ↦ crash | some v ↦ pure v ]

  -- The entry of a row: an existing object gets the version and the name, and keeps its `path`.
  unfoldable pub record_row : ℕ → ℕ → Bytes → Exec (Source w) (Unit {0})
  record_row id version name s = elim (find (pos id) s.files_by_id) [
    | some p ↦
        (do
          q ← deref w p
          f ← gets (λ t. t.objects q)
          set_object w q (record f { version = pos version; name = name }))
          s
    | none ↦
        (do
          q ← new_file w (pos id) (pos version) name
          modify (λ t. record t { files_by_id = insert (pos id) (some q) t.files_by_id }))
          s
  ]

  -- The body of the loop of `loadFiles`.
  unfoldable pub load_row : DbResult → ℕ → Exec (Source w) (Unit {0})
  load_row r row = do
    id ← value r row 0
    version ← value r row 1
    name ← value r row 2
    last_modified ← value r row 3
    content ← value r row 4
    record_row (get_be32 id) (get_be32 version) name
    path ← gets (λ s. append_path s.working_dir name)
    modify (on_disk w (λ d. write_file d path content))
    modify (on_disk w (λ d. utime d path (get_be32 last_modified)))

  -- The rows from `row` on, `left` of them.
  unfoldable pub load_rows : DbResult → ℕ → ℕ → Exec (Source w) (Unit {0})
  load_rows r row zero = pure tt
  load_rows r row (suc left) = do load_row r row; load_rows r (row + 1) left

  unfoldable pub load_files : Bytes → Exec (Source w) (Unit {0})
  load_files clause = do
    r ← in_db w (
        execute w (
          plain (
            lit
              "select f.id::int4, f.version::int4, f.name, extract('epoch' from f.lastmodified)::int4, d.bindata from rcfile f join rcfiledata d on f.id = d.id "
            ++ clause)))
    if data_returned r then (do n ← in_db w (rows_returned w r); load_rows r 0 n) else pure tt

  unfoldable pub insert_or_update_local_file : ℤ → ℤ → Exec (Source w) (Unit {0})
  insert_or_update_local_file file_id wspace_id s =
      if not (eq_ℤ s.wspace_id wspace_id)
      then (ok tt, s)
      else load_files (lit "where f.id = " ++ show file_id) s

  unfoldable pub remove_local_file : ℤ → Exec (Source w) (Unit {0})
  remove_local_file file_id = do
    found ← file_at w file_id
    p ← deref w found
    path ← gets (λ s. append_path s.working_dir (s.objects p).path)
    remove_from_disk w path
    modify (λ s. record s { files_by_id = erase file_id s.files_by_id })

  -- `loadRData`: the result says whether there was data.
  unfoldable pub load_rdata : Exec (Source w) Bool
  load_rdata = do
    path ← gets (in_dir w (lit ".RData"))
    wspace ← gets (λ s. s.wspace_id)
    r ←
        in_db w
          (execute w (plain (lit "select bindata from rcworkspacedata where id = " ++ show wspace)))
    if data_returned r then write_rdata path (get_value r 0 0) else pure false
    where
      write_rdata : Bytes → Option Bytes → Exec (Source w) Bool
      write_rdata path none = pure false
      write_rdata path (some v) =
          if ltb 0 (length v)
          then (do modify (on_disk w (λ d. write_file d path v)); pure true)
          else pure false
