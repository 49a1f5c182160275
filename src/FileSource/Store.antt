-- ===== src/FileSource/Store.antt =====
-- src/DBFileSource.cpp: from the disk to the database.
use rc2compute.Prelude.{ℕ, not, none, some, [], ◌∷◌, ◌++◌, Bytes, length, lit, if◌then◌else◌}
use rc2compute.Effects.{
  Exn, runtime_error, formatted, ok, raised, Exec, pure, raise, gets, modify, ◌>>=◌, ◌>>◌,
}
use rc2compute.Numbers.{ℤ, pos, show, show_ℕ, succ, to_s32, lt_ℤ}
use rc2compute.Map.{insert, erase}
use rc2compute.World.{Statement, DbResult, World}
use rc2compute.Database.{plain, execute, long_from_query, commit, rows_affected, is_command_ok}
use rc2compute.FileSource.{
  Source, Ptr, update, in_db, new_file, set_object, read_file_blob, transaction, in_dir,
}

module _ (w : World) where
  open w use {W, escape_literal, stat, exists}

  abbrev pub with_blob : Bytes → Bytes → Statement
  with_blob text blob = record { text = text; params = blob ∷ [] }

  -- A command whose failure is thrown as a FormattedException.
  abbrev pub must : Statement → Bytes → Exec (Source w) DbResult
  must q message = do
    r ← in_db w (execute w q)
    if is_command_ok r then pure r else raise (formatted (message ++ r.error_message))

  abbrev pub must_commit : (Bytes → Bytes) → Exec (Source w) (Unit {0})
  must_commit message = do
    r ← in_db w (commit w)
    if is_command_ok r then pure tt else raise (formatted (message r.error_message))

  -- `stat` into the object's buffer; a failure is a runtime_error with the text given.
  unfoldable pub stat_into : Ptr → Bytes → Exn → Exec (Source w) ℕ
  stat_into p path failure s = elim (stat s.db.world path) [
    | none ↦ (raised failure, s)
    | some t ↦
        (ok t, record s { objects = update s.objects p (record (s.objects p) { sb = some t }) })
  ]

  unfoldable pub insert_file_text : ℤ → ℤ → Bytes → ℕ → ℕ → Bytes
  insert_file_text id wspace name size modified =
      lit "insert into rcfile (id, version, wspaceid,name,filesize,lastmodified) values ("
      ++ (show id
          ++ (lit ", 1, "
              ++ (show wspace
                  ++ (lit ","
                      ++ (name
                          ++ (lit ","
                              ++ (show_ℕ size
                                  ++ (lit ", to_timestamp(" ++ (show_ℕ modified ++ lit "))")))))))))

  unfoldable pub insert_statements : ℤ → Bytes → ℕ → Bytes → Exec (Source w) (Unit {0})
  insert_statements id name modified content = do
    escaped ← gets (λ s. escape_literal s.db.world name)
    wspace ← gets (λ s. s.wspace_id)
    must (plain (insert_file_text id wspace escaped (length content) modified)) failure
    must
        (with_blob
          (lit "insert into rcfiledata (id, bindata) values (" ++ (show id ++ lit ", $1::bytea)"))
          content)
        failure
    must_commit (λ m. lit "failed to commit file inserts " ++ (name ++ (lit ": " ++ m)))
    where
      failure : Bytes
      failure = lit "failed to insert file " ++ (name ++ lit ": ")

  -- Within the transaction of `insertDBFile`.
  unfoldable pub insert_body : Bytes → Exec (Source w) ℤ
  insert_body name = do
    id ← in_db w (long_from_query w (lit "select nextval('rcfile_seq'::regclass)"))
    p ← new_file w id (pos 1) name
    path ← gets (in_dir w name)
    modified ← stat_into p path (runtime_error (lit "stat failed for insert " ++ path))
    content ← read_file_blob w path
    insert_statements id name modified content
    modify (λ s. record s { files_by_id = insert id (some p) s.files_by_id })
    pure id

  -- `insertDBFile`: the id under which the file is now known.
  unfoldable pub insert_db_file : Bytes → Exec (Source w) ℤ
  insert_db_file name = transaction w (insert_body name)

  unfoldable pub update_file_text : ℤ → ℕ → ℕ → ℤ → Bytes
  update_file_text version modified size id =
      lit "update rcfile set version = "
      ++ (show version
          ++ (lit ", lastmodified = to_timestamp("
              ++ (show_ℕ modified
                  ++ (lit "), filesize = " ++ (show_ℕ size ++ (lit " where id = " ++ show id))))))

  -- Within the transaction of `updateDBFile`.
  unfoldable pub update_body : ℤ → ℤ → ℕ → Bytes → Exec (Source w) (Unit {0})
  update_body id version modified content = do
    must (plain (update_file_text version modified (length content) id)) failure
    must
        (with_blob (lit "update rcfiledata set bindata = $1::bytea where id = " ++ show id) content)
        failure
    must_commit (λ m. lit "failed to commit file updates " ++ (show id ++ (lit ": " ++ m)))
    where
      failure : Bytes
      failure = lit "failed to update file " ++ (show id ++ lit ": ")

  -- `updateDBFile`; the new version, an `int`, is written to the object after the commit.
  unfoldable pub update_db_file : Ptr → Exec (Source w) (Unit {0})
  update_db_file p = do
    f ← gets (λ s. s.objects p)
    path ← gets (in_dir w f.path)
    modified ← stat_into p path (runtime_error (lit "stat failed for update " ++ f.name))
    content ← read_file_blob w path
    transaction w (do
      update_body f.id (to_s32 (succ f.version)) modified content
      g ← gets (λ s. s.objects p)
      set_object w p (record g { version = to_s32 (succ f.version) }))

  unfoldable pub remove_db_file : Ptr → Exec (Source w) (Unit {0})
  remove_db_file p = do
    id ← gets (λ s. (s.objects p).id)
    r ← in_db w (execute w (plain (lit "delete from rcfile where id = " ++ show id)))
    if is_command_ok r
        then modify (λ s. record s { files_by_id = erase id s.files_by_id })
        else pure tt

  -- Within the transaction of `saveRData`.
  unfoldable pub save_body : Bytes → ℤ → Exec (Source w) (Unit {0})
  save_body content wspace = do
    locked ← in_db w (execute w (plain (lit "lock table rcworkspacedata in access exclusive mode")))
    if not (is_command_ok locked) then pure tt else do
      r ←
          must
            (with_blob
              (lit "update rcworkspacedata set bindata = $1::bytea where id = " ++ show wspace)
              content)
            (lit "failed to update rcworkspacedata " ++ (show wspace ++ lit ": "))
      if lt_ℤ (rows_affected r) (pos 1)
          then must
              (with_blob
                (lit "insert into rcworkspacedata (id,bindata) values ("
                  ++ (show wspace ++ lit ", $1::bytea)"))
                content)
              (lit "failed to insert rcworkspacedata " ++ (show wspace ++ lit ":"))
          else pure r
      must_commit (λ m. lit "failed to commit save rdata")

  unfoldable pub save_rdata : Exec (Source w) (Unit {0})
  save_rdata = do
    path ← gets (in_dir w (lit ".RData"))
    there ← gets (λ s. exists s.db.world path)
    if not there then pure tt else do
      content ← read_file_blob w path
      wspace ← gets (λ s. s.wspace_id)
      transaction w (save_body content wspace)
