-- ===== src/FileSource/Updates.antt =====
-- src/DBFileSource.cpp: `updateDBFile` leaves no transaction behind, and a version goes up only with a successful
-- commit.
use rc2compute.Prelude.{
  ℕ, ◌≡◌, refl, true, false, Option-cases, inl, inr, ◌++◌, arith, Bytes, length, lit, same,
}
use rc2compute.Effects.{Exn, runtime_error, formatted, gets, modify, finally, ◌>>=◌, ◌>>◌}
use rc2compute.Effects.Hoare.{Post, Triple, by_bind, by_gets, by_before, by_weaken}
use rc2compute.Numbers.{ℤ, show, succ, to_s32}
use rc2compute.World.{World}
use rc2compute.Database.{plain}
use rc2compute.Database.Transactions.{
  IsNeutral, Flag, Level, Flag-Level, Ended, close_ended, Ended-Flag,
}
use rc2compute.FileSource.{Source, Ptr, set_object, read_file_blob, transaction, in_dir}
use rc2compute.FileSource.Store.{
  with_blob, update_body, update_db_file, stat_into, update_file_text,
}
use rc2compute.FileSource.Transacting.{With, IsFrame, by_transaction, by_must, by_must_commit}

update_file-IsNeutral :
    (w : World) (version : ℤ) (modified size : ℕ) (id : ℤ)
    → IsNeutral (update_file_text w version modified size id)
unfolding update_file_text lit same
update_file-IsNeutral w version modified size id = record {
  not_begin = refl;
  not_rollback = refl;
  not_commit = refl;
}

update_data-IsNeutral :
    (rest : Bytes) → IsNeutral (lit "update rcfiledata set bindata = $1::bytea where id = " ++ rest)
unfolding lit same
update_data-IsNeutral rest = record { not_begin = refl; not_rollback = refl; not_commit = refl }

module _ (w : World) (p : Ptr) where
  -- The version of the object at `p`.
  pub record VersionIs (v : ℤ) (s : Source w) : Type 0 where
    pub version_is : (s.objects p).version ≡ v

  VersionIs-IsFrame : (v : ℤ) → IsFrame w (VersionIs v)
  VersionIs-IsFrame v = record { keeps = λ s d f. record { version_is = f.version_is } }

module _ (w : World) (p : Ptr) (version : ℤ) where
  update_body-Ended :
      (id : ℤ) (modified : ℕ) (content : Bytes)
      → Triple
          (With w (Flag true) (VersionIs w p version))
          (update_body w id (to_s32 (succ version)) modified content)
          (λ _. With w (Ended true) (VersionIs w p version))
          (With w (Flag true) (VersionIs w p version))
  unfolding update_body
  update_body-Ended id modified content =
      by_bind _ _
        (by_must w (VersionIs w p version) (VersionIs-IsFrame w p version)
          (plain (update_file_text w (to_s32 (succ version)) modified (length content) id))
          (λ r.
            formatted ((lit "failed to update file " ++ (show id ++ lit ": ")) ++ r.error_message))
          (update_file-IsNeutral w (to_s32 (succ version)) modified (length content) id) (λ s f. f))
        λ _.
          by_bind _ _
            (by_must w (VersionIs w p version) (VersionIs-IsFrame w p version)
              (with_blob w (lit "update rcfiledata set bindata = $1::bytea where id = " ++ show id)
                content)
              (λ r.
                formatted
                  ((lit "failed to update file " ++ (show id ++ lit ": ")) ++ r.error_message))
              (update_data-IsNeutral (show id)) (λ s f. f))
            λ _.
              by_must_commit w (VersionIs w p version) (VersionIs-IsFrame w p version)
                (λ r. formatted (
                  lit "failed to commit file updates "
                  ++ (show id ++ (lit ": " ++ r.error_message))))
                (λ s f. f)

  set_version :
      Triple
        (With w (Ended true) (VersionIs w p version))
        (do
          g ← gets (λ (s : Source w). s.objects p)
          set_object w p (record g { version = to_s32 (succ version) }))
        (λ _. With w (Ended true) (VersionIs w p (to_s32 (succ version))))
        (With w (Flag true) (VersionIs w p version))
  unfolding ◌>>=◌ gets modify
  set_version = record { at = λ s f. (f.0, record { version_is = ground arith }) }

  stat_into-VersionIs :
      (path : Bytes) (e : Exn)
      → Triple
          (With w (Flag false) (VersionIs w p version))
          (stat_into w p path e)
          (λ _. With w (Flag false) (VersionIs w p version))
          (With w (Flag false) (VersionIs w p version))
  unfolding stat_into
  stat_into-VersionIs path e = record {
    at = λ s f. elim (Option-cases (World.stat w s.db.world path)) [
      | inl gone ↦ rw (gone, stat_into) f
      | inr (t, there) ↦ rw (there, stat_into) ((f.0, ground (arith, f.1.version_is)))
    ];
  }

  committed :
      (id : ℤ) (modified : ℕ) (content : Bytes)
      → Triple
          (With w Level (VersionIs w p version))
          (transaction w (do
            update_body w id (to_s32 (succ version)) modified content
            g ← gets (λ (s : Source w). s.objects p)
            set_object w p (record g { version = to_s32 (succ version) })))
          (λ _. With w (Ended true) (VersionIs w p (to_s32 (succ version))))
          (With w (Flag false) (VersionIs w p version))
  committed id modified content =
      by_weaken _ (λ a s f. f) (λ s f. (Ended-Flag w false s.db f.0, f.1))
        (by_transaction w (VersionIs w p version) (VersionIs-IsFrame w p version) (Ended true)
          (Ended true) _ (close_ended w) (λ _. VersionIs-IsFrame w p (to_s32 (succ version)))
          (VersionIs-IsFrame w p version)
          (by_bind _ _ (update_body-Ended id modified content) λ _. set_version))

-- Reading a file leaves the state alone.
module _ (w : World) (P : Source w → Type 0) where
  pub read_file_blob-keeps : (path : Bytes) → Triple P (read_file_blob w path) (λ _. P) P
  unfolding read_file_blob
  read_file_blob-keeps path = record {
    at = λ s f. elim (Option-cases (World.read_file w s.db.world path)) [
      | inl gone ↦ rw (gone, read_file_blob) f
      | inr (t, there) ↦ rw (there, read_file_blob) f
    ];
  }

-- `updateDBFile`, when no transaction is open: however it ends, short of undefined behaviour, none is open.
-- If it returns, the last transaction was committed, and the version of the file's object is the old one plus 1,
-- as an `int` of 32 bits holds it, so negative after 2 ^ 31 - 1; if it throws, the version is the old one.
pub update_db_file-version :
    (w : World) (p : Ptr) (s : Source w)
    → Flag false s.db
    → Post
        (λ _. With w (Ended true) (VersionIs w p (to_s32 (succ (s.objects p).version))))
        (With w (Flag false) (VersionIs w p (s.objects p).version))
        (update_db_file w p s)
unfolding update_db_file gets stat_into read_file_blob ◌>>=◌ finally
update_db_file-version w p s level =
    let f = s.objects p in
    let old = VersionIs w p f.version in
    (by_bind (gets (in_dir w f.path)) _ (by_gets (in_dir w f.path)) λ path.
        by_bind _ _
          (stat_into-VersionIs w p f.version path
            (runtime_error (lit "stat failed for update " ++ f.name)))
          λ modified. by_bind _ _ (read_file_blob-keeps w (With w (Flag false) old) path) λ content.
            by_before _ (λ t g. (Flag-Level w false t.db g.0, g.1))
              (committed w p f.version f.id modified content)).at
      s (level, record { version_is = refl })
