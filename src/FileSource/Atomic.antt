-- ===== src/FileSource/Atomic.antt =====
-- src/DBFileSource.cpp: `insertDBFile` closes its transaction on every way out, and the record in memory follows
-- only a successful commit.
use rc2compute.Prelude.{
  ℕ, ◌≡◌, ◌∙◌, refl, ap, if◌then◌else◌, true, false, Option, some, Option-cases, inl, inr, ◌++◌,
  arith, Bytes, length, lit, same,
}
use rc2compute.Effects.{Exn, runtime_error, formatted, gets, modify, pure, ◌>>=◌, ◌>>◌}
use rc2compute.Effects.Hoare.{Post, Triple, by_bind, by_pure, by_gets, by_modify, by_weaken}
use rc2compute.Numbers.{ℤ, pos, eq_ℤ, show, to_u32}
use rc2compute.Map.{Map, find, has, insert, find-insert_kept}
use rc2compute.World.{World}
use rc2compute.Database.{plain, long_from_query}
use rc2compute.Database.Transactions.{
  IsNeutral, Flag, Level, Ended, close_ended, long_from_query-Flag,
}
use rc2compute.FileSource.{Source, Ptr, in_db, new_file, read_file_blob, in_dir}
use rc2compute.FileSource.Store.{
  with_blob, insert_body, insert_statements, insert_db_file, stat_into, insert_file_text,
}
use rc2compute.FileSource.Transacting.{
  With, IsFrame, by_db, by_transaction, by_must, by_must_commit,
}

-- The statements of the program that are neither `begin`, `rollback` nor `commit`.
next_id-IsNeutral : IsNeutral (lit "select nextval('rcfile_seq'::regclass)")
unfolding lit same
next_id-IsNeutral = record { not_begin = refl; not_rollback = refl; not_commit = refl }

insert_file-IsNeutral :
    (w : World) (id wspace : ℤ) (name : Bytes) (size modified : ℕ)
    → IsNeutral (insert_file_text w id wspace name size modified)
unfolding insert_file_text lit same
insert_file-IsNeutral w id wspace name size modified = record {
  not_begin = refl;
  not_rollback = refl;
  not_commit = refl;
}

insert_data-IsNeutral :
    (rest : Bytes) → IsNeutral (lit "insert into rcfiledata (id, bindata) values (" ++ rest)
unfolding lit same
insert_data-IsNeutral rest = record { not_begin = refl; not_rollback = refl; not_commit = refl }

module _ (w : World) (m : Map (Option Ptr)) (p : Ptr) (name : Bytes) where
  -- Before and after the new object is made, and after a failure.
  record Before (s : Source w) : Type 0 where
    files : s.files_by_id ≡ m
    next : s.next_ptr ≡ p

  pub record Made (s : Source w) : Type 0 where
    pub files : s.files_by_id ≡ m
    pub name_is : (s.objects p).name ≡ name
    pub version_is : (s.objects p).version ≡ pos 1

  pub record Same (s : Source w) : Type 0 where
    pub files : s.files_by_id ≡ m

  Before-IsFrame : IsFrame w Before
  Before-IsFrame = record { keeps = λ s d f. record { files = f.files; next = f.next } }

  Made-IsFrame : IsFrame w Made
  Made-IsFrame = record {
    keeps = λ s d f. record { files = f.files; name_is = f.name_is; version_is = f.version_is };
  }

  Same-IsFrame : IsFrame w Same
  Same-IsFrame = record { keeps = λ s d f. record { files = f.files } }

  Made-Same : (s : Source w) → Made s → Same s
  Made-Same s f = record { files = f.files }

  new_file-Made :
      (id : ℤ)
      → Triple
          (With w (Flag true) Before)
          (new_file w id (pos 1) name)
          (λ q s. (q ≡ p) × With w (Flag true) Made s)
          (With w (Flag true) Same)
  unfolding new_file to_u32
  new_file-Made id = record { at = λ s f. (f.1.next, (f.0, ground (arith, f.1.next, f.1.files))) }

  stat_into-Made :
      (path : Bytes) (e : Exn)
      → Triple
          (With w (Flag true) Made)
          (stat_into w p path e)
          (λ _. With w (Flag true) Made)
          (With w (Flag true) Same)
  unfolding stat_into
  stat_into-Made path e = record {
    at = λ s f. elim (Option-cases (World.stat w s.db.world path)) [
      | inl gone ↦ rw (gone, stat_into) ((f.0, Made-Same s f.1))
      | inr (t, there) ↦
          rw (there, stat_into) ((f.0, ground (arith, f.1.files, f.1.name_is, f.1.version_is)))
    ];
  }

  read_file_blob-keeps :
      (path : Bytes)
      → Triple
          (With w (Flag true) Made)
          (read_file_blob w path)
          (λ _. With w (Flag true) Made)
          (With w (Flag true) Same)
  unfolding read_file_blob
  read_file_blob-keeps path = record {
    at = λ s f. elim (Option-cases (World.read_file w s.db.world path)) [
      | inl gone ↦ rw (gone, read_file_blob) ((f.0, Made-Same s f.1))
      | inr (t, there) ↦ rw (there, read_file_blob) f
    ];
  }

  insert_statements-Made :
      (id : ℤ) (modified : ℕ) (content : Bytes)
      → Triple
          (With w (Flag true) Made)
          (insert_statements w id name modified content)
          (λ _. With w (Ended true) Made)
          (With w (Flag true) Same)
  unfolding insert_statements
  insert_statements-Made id modified content =
      by_bind (gets (λ s. World.escape_literal w s.db.world name)) _
        (by_gets (λ s. World.escape_literal w s.db.world name))
        λ escaped. by_bind (gets (λ s. s.wspace_id)) _ (by_gets (λ s. s.wspace_id)) λ wspace.
          by_bind _ _
            (by_must w Made Made-IsFrame
              (plain (insert_file_text w id wspace escaped (length content) modified))
              (λ r.
                formatted ((lit "failed to insert file " ++ (name ++ lit ": ")) ++ r.error_message))
              (insert_file-IsNeutral w id wspace escaped (length content) modified) Made-Same)
            λ _.
              by_bind _ _
                (by_must w Made Made-IsFrame
                  (with_blob w
                    (lit "insert into rcfiledata (id, bindata) values ("
                      ++ (show id ++ lit ", $1::bytea)"))
                    content)
                  (λ r.
                    formatted
                      ((lit "failed to insert file " ++ (name ++ lit ": ")) ++ r.error_message))
                  (insert_data-IsNeutral (show id ++ lit ", $1::bytea)")) Made-Same)
                λ _.
                  by_must_commit w Made Made-IsFrame
                    (λ r. formatted (
                      lit "failed to commit file inserts "
                      ++ (name ++ (lit ": " ++ r.error_message))))
                    Made-Same

  -- After the commit: the object is under the id, unless the id had an object before.
  pub record Stored (id : ℤ) (s : Source w) : Type 0 where
    pub files :
        (j : ℤ)
        → find j s.files_by_id
          ≡ (if has id m then find j m else if eq_ℤ id j then some (some p) else find j m)
    pub name_is : (s.objects p).name ≡ name
    pub version_is : (s.objects p).version ≡ pos 1

  Stored-IsFrame : (id : ℤ) → IsFrame w (Stored id)
  Stored-IsFrame id = record {
    keeps = λ s d f. record { files = f.files; name_is = f.name_is; version_is = f.version_is };
  }

  insert-Made :
      (id : ℤ)
      → Triple
          (With w (Flag true) Made)
          (do
            path ← gets (in_dir w name)
            modified ← stat_into w p path (runtime_error (lit "stat failed for insert " ++ path))
            content ← read_file_blob w path
            insert_statements w id name modified content
            modify (λ s. record s { files_by_id = insert id (some p) s.files_by_id })
            pure id)
          (λ id. With w (Ended true) (Stored id))
          (With w (Flag true) Same)
  insert-Made id = by_bind (gets (in_dir w name)) _ (by_gets (in_dir w name)) λ path.
      by_bind _ _ (stat_into-Made path (runtime_error (lit "stat failed for insert " ++ path)))
        λ modified. by_bind _ _ (read_file_blob-keeps path) λ content.
          by_bind _ _ (insert_statements-Made id modified content) λ _.
            by_bind
              (modify
                (λ (s : Source w). record s { files_by_id = insert id (some p) s.files_by_id }))
              _
              (by_modify {Q = λ _. With w (Ended true) (Stored id)}
                (λ s. record s { files_by_id = insert id (some p) s.files_by_id })
                (λ s f. (
                  f.0,
                  record {
                    files = λ j.
                        ap (λ n. find j (insert id (some p) n)) f.1.files
                        ∙ find-insert_kept j id (some p) m;
                    name_is = f.1.name_is;
                    version_is = f.1.version_is;
                  },
                )))
              λ _. by_pure id (λ s f. f)

  insert_body-Stored :
      Triple
        (With w (Flag true) Before)
        (insert_body w name)
        (λ id. With w (Ended true) (Stored id))
        (With w (Flag true) Same)
  unfolding insert_body
  insert_body-Stored =
      by_bind (in_db w (long_from_query w (lit "select nextval('rcfile_seq'::regclass)"))) _
        (by_weaken _ (λ a s f. f) (λ s f. (f.0, record { files = f.1.files }))
          (by_db w Before Before-IsFrame _ (
            long_from_query-Flag w true (lit "select nextval('rcfile_seq'::regclass)")
              next_id-IsNeutral)))
        λ id.
          by_bind (new_file w id (pos 1) name) _ (new_file-Made id)
            λ q. record { at = λ s f. rw (f.0) ((insert-Made id).at s f.1) }

-- `insertDBFile`, when the server has no transaction open or has one that the connection object knows of.
-- If it returns an id, no transaction is open and the last one was committed, and a new object has the file's
-- name and version 1. If the id had no entry in the map of files, the new object is under it now; if it had
-- one, that stays. All other ids have what they had. If it throws, no transaction is open and the last one was
-- rolled back, and the map of files is the old one. After undefined behaviour, which a result without rows for
-- the next id is, nothing is claimed.
pub insert_db_file-atomic :
    (w : World) (name : Bytes) (s : Source w)
    → Level s.db
    → Post
        (λ id. With w (Ended true) (Stored w s.files_by_id s.next_ptr name id))
        (With w (Ended false) (Same w s.files_by_id s.next_ptr name))
        (insert_db_file w name s)
unfolding insert_db_file
insert_db_file-atomic w name s level =
    let m = s.files_by_id in
    let p = s.next_ptr in
    (by_transaction w (Before w m p name) (Before-IsFrame w m p name) (Ended true) (Ended true)
        (insert_body w name) (close_ended w) (Stored-IsFrame w m p name) (Same-IsFrame w m p name)
        (insert_body-Stored w m p name)).at
      s (level, record { files = refl; next = refl })
