-- ===== src/FileSource/Steady.antt =====
-- src/DBFileSource.cpp: what the connection and the disk do not touch is kept by the actions on them, in every
-- order and whether they succeed or throw.
use rc2compute.Prelude.{Option-cases, inl, inr, ℕ, Bytes, if◌then◌else◌}
use rc2compute.Effects.{Exn, Exec, pure, raise, modify, ◌>>=◌}
use rc2compute.Effects.Hoare.{
  Triple, by_bind, by_if, by_pure, by_raise, by_gets, by_finally, by_state,
}
use rc2compute.Numbers.{ℤ}
use rc2compute.World.{World, Statement, DbResult}
use rc2compute.Database.{Db, execute, start_transaction, commit, is_command_ok}
use rc2compute.FileSource.{Source, in_db, on_disk, read_file_blob, remove_from_disk, transaction}
use rc2compute.FileSource.Store.{insert_statements, update_body}
use rc2compute.FileSource.Transacting.{IsFrame}

module _ (w : World) (F : Source w → Type 0) (frame : IsFrame w F) where
  abbrev pub Steady : {A : Type 0} → Exec (Source w) A → Type 0
  Steady m = Triple F m (λ _. F) F

  pub in_db-Steady : {A : Type 0} (m : Exec (Db w) A) → Steady (in_db w m)
  in_db-Steady m = record {
    at = λ s h. let (r, d) = m s.db in by_state F r (record s { db = d }) (frame.keeps s d h);
  }

  pub on_disk-Steady : (f : World.W w → World.W w) → Steady (modify (on_disk w f))
  unfolding modify
  on_disk-Steady f = record { at = λ s h. frame.keeps s _ h }

  pub read_file_blob-Steady : (path : Bytes) → Steady (read_file_blob w path)
  unfolding read_file_blob
  read_file_blob-Steady path = record {
    at = λ s h. elim (Option-cases (World.read_file w s.db.world path)) [
      | inl gone ↦ rw (gone, read_file_blob) h
      | inr (t, there) ↦ rw (there, read_file_blob) h
    ];
  }

  pub remove_from_disk-Steady : (path : Bytes) → Steady (remove_from_disk w path)
  unfolding remove_from_disk
  remove_from_disk-Steady path = record {
    at = λ s h. elim (Option-cases (World.remove_file w s.db.world path)) [
      | inl gone ↦ rw (gone, remove_from_disk) h
      | inr (t, there) ↦ rw (there, remove_from_disk) (frame.keeps s _ h)
    ];
  }

  must-Steady :
      (q : Statement) (e : DbResult → Exn)
      → Steady (do r ← in_db w (execute w q); if is_command_ok r then pure r else raise (e r))
  must-Steady q e =
      by_bind _ _ (in_db-Steady (execute w q)) λ r.
        by_if (is_command_ok r) _ _ (λ _. by_pure r (λ s h. h)) (λ _. by_raise (e r) (λ s h. h))

  must_commit-Steady :
      (e : DbResult → Exn)
      → Steady (do r ← in_db w (commit w); if is_command_ok r then pure tt else raise (e r))
  must_commit-Steady e =
      by_bind _ _ (in_db-Steady (commit w)) λ r.
        by_if (is_command_ok r) _ _ (λ _. by_pure tt (λ s h. h)) (λ _. by_raise (e r) (λ s h. h))

  pub insert_statements-Steady :
      (id : ℤ) (name : Bytes) (modified : ℕ) (content : Bytes)
      → Steady (insert_statements w id name modified content)
  unfolding insert_statements
  insert_statements-Steady id name modified content = by_bind _ _ (by_gets _) λ escaped.
      by_bind _ _ (by_gets (λ s. s.wspace_id)) λ wspace.
        by_bind _ _ (must-Steady _ _) λ _. by_bind _ _ (must-Steady _ _) λ _. must_commit-Steady _

  pub update_body-Steady :
      (id version : ℤ) (modified : ℕ) (content : Bytes)
      → Steady (update_body w id version modified content)
  unfolding update_body
  update_body-Steady id version modified content =
      by_bind _ _ (must-Steady _ _) λ _. by_bind _ _ (must-Steady _ _) λ _. must_commit-Steady _

  -- The scope of a transaction keeps what its body keeps.
  pub transaction-Steady :
      {A : Type 0} (body : Exec (Source w) A) → Steady body → Steady (transaction w body)
  transaction-Steady body h =
      by_bind _ _ (in_db-Steady (start_transaction w))
        λ _. by_finally body _ (λ a s k. frame.keeps s _ k) (λ s k. frame.keeps s _ k) h
