-- ===== src/FileSource/Operations.antt =====
-- src/DBFileSource.cpp: every operation leaves the map of files consistent, and so does every way out of it.
use rc2compute.Prelude.{
  ℕ, zero, suc, ◌+◌, ◌≡◌, refl, sym, ap, ◌∙◌, inl, inr, Option, none, some, Option-cases, arith,
  Bytes, ltb,
}
use rc2compute.Effects.{Exn, Exec, pure, crash, gets, ◌>>=◌}
use rc2compute.Effects.Hoare.{
  Triple, by_bind, by_weaken, by_if, by_option, by_pure, by_gets, by_reads, by_crash, by_modify,
  by_raise,
}
use rc2compute.Numbers.{ℤ, pos, succ, to_s32}
use rc2compute.Map.{find}
use rc2compute.World.{World, DbResult}
use rc2compute.Database.{is_command_ok, data_returned, get_value}
use rc2compute.Word.{get_be32}
use rc2compute.FileSource.{Source, DbFileInfo, Ptr, set_object, deref, initialize_source, file_at}
use rc2compute.FileSource.Load.{record_row, load_row, load_rows, load_files}
use rc2compute.FileSource.Store.{
  stat_into, insert_body, insert_db_file, update_db_file, remove_db_file,
}
use rc2compute.FileSource.Stable.{IsStable}
use rc2compute.FileSource.Steady.{
  Steady, in_db-Steady, on_disk-Steady, read_file_blob-Steady, insert_statements-Steady,
  update_body-Steady, transaction-Steady,
}
use rc2compute.FileSource.Consistent.{
  IsConsistent, IsConsistent-IsFrame, update-IsConsistent, erase-IsConsistent, AllOwn-assign,
  HasMade, HasMade-IsFrame, HasMade-IsConsistent, new_file-HasMade, into_map,
}

module _ (w : World) where
  -- Consistent before, and after every way out.
  abbrev Kept : {A : Type 0} → Exec (Source w) A → Type 0
  Kept m = Steady w (IsConsistent w) (IsConsistent-IsFrame w) m

  pub file_at-Steady : (id : ℤ) → Kept (file_at w id)
  unfolding file_at
  file_at-Steady id = record {
    at = λ s h. elim (Option-cases (find id s.files_by_id)) [
      | inl new ↦
          rw (new, file_at)
            (record { at = AllOwn-assign s.objects s.next_ptr id none s.files_by_id tt h.at })
      | inr (q, old) ↦ rw (old, file_at) h
    ];
  }

  deref-Steady : (q : Option Ptr) → Kept (deref w q)
  deref-Steady none = by_crash
  deref-Steady (some p) = by_pure p (λ s h. h)

  -- The object is read, changed but for its id, and written.
  rewrite-Steady :
      (p : Ptr) (change : DbFileInfo → DbFileInfo)
      → ((f : DbFileInfo) → (change f).id ≡ f.id)
      → Kept (do f ← gets (λ (t : Source w). t.objects p); set_object w p (change f))
  rewrite-Steady p change same_id = by_bind _ _ (by_reads (λ (t : Source w). t.objects p)) λ f.
      by_modify _
        (λ s h. update-IsConsistent w p (change f) s (same_id f ∙ ap (λ g. g.id) (sym h.1)) h.0)

  record_row-Steady : (id version : ℕ) (name : Bytes) → Kept (record_row w id version name)
  unfolding record_row
  record_row-Steady id version name = record {
    at = λ s h. elim (Option-cases (find (pos id) s.files_by_id)) [
      | inl new ↦
          rw (new, record_row)
            ((by_bind _ _ (new_file-HasMade w (pos id) (pos version) name)
                (λ q. into_map w q (pos id))).at
              s h)
      | inr (found, old) ↦
          rw (old, record_row)
            ((by_bind _ _ (deref-Steady found) λ q.
                rewrite-Steady q (λ f. record f { version = pos version; name = name })
                  (λ f. refl)).at
              s h)
    ];
  }

  value-Steady : (o : Option Bytes) → Kept {A = Bytes} (elim o [ none ↦ crash | some v ↦ pure v ])
  value-Steady o = by_option o _ _ by_crash (λ v. by_pure v (λ s h. h))

  load_row-Steady : (r : DbResult) (row : ℕ) → Kept (load_row w r row)
  unfolding load_row
  load_row-Steady r row = by_bind _ _ (value-Steady (get_value r row 0)) λ id.
      by_bind _ _ (value-Steady (get_value r row 1)) λ version.
        by_bind _ _ (value-Steady (get_value r row 2)) λ name.
          by_bind _ _ (value-Steady (get_value r row 3)) λ last_modified.
            by_bind _ _ (value-Steady (get_value r row 4)) λ content.
              by_bind _ _ (record_row-Steady (get_be32 id) (get_be32 version) name) λ _.
                by_bind _ _ (by_gets _) λ path.
                  by_bind _ _ (on_disk-Steady w (IsConsistent w) (IsConsistent-IsFrame w) _)
                    λ _. on_disk-Steady w (IsConsistent w) (IsConsistent-IsFrame w) _

  load_rows-Steady : (r : DbResult) (row left : ℕ) → Kept (load_rows w r row left)
  unfolding load_rows
  load_rows-Steady r row zero = by_pure tt (λ s h. h)
  load_rows-Steady r row (suc left) =
      by_bind _ _ (load_row-Steady r row) λ _. load_rows-Steady r (row + 1) left

  pub load_files-Steady : (clause : Bytes) → Kept (load_files w clause)
  unfolding load_files
  load_files-Steady clause =
      by_bind _ _ (in_db-Steady w (IsConsistent w) (IsConsistent-IsFrame w) _) λ r.
        by_if (data_returned r) _ _
          (λ _.
            by_bind _ _ (in_db-Steady w (IsConsistent w) (IsConsistent-IsFrame w) _)
              λ n. load_rows-Steady r 0 n)
          (λ _. by_pure tt (λ s h. h))

  -- `stat` writes to the object's buffer.
  stat_into-HasMade :
      (p : Ptr) (id : ℤ) (path : Bytes) (e : Exn)
      → Steady w (HasMade w p id) (HasMade-IsFrame w p id) (stat_into w p path e)
  unfolding stat_into
  stat_into-HasMade p id path e = record {
    at = λ s h. elim (Option-cases (World.stat w s.db.world path)) [
      | inl gone ↦ rw (gone, stat_into) h
      | inr (t, there) ↦
          rw (there, stat_into)
            (record {
              at =
                  (update-IsConsistent w p (record (s.objects p) { sb = some t }) s refl
                    (record { at = h.at })).at;
              made = h.made;
              has_id = ground (arith, h.has_id);
            })
    ];
  }

  insert_body-Steady : (name : Bytes) → Kept (insert_body w name)
  unfolding insert_body
  insert_body-Steady name =
      by_bind _ _ (in_db-Steady w (IsConsistent w) (IsConsistent-IsFrame w) _) λ id.
        by_bind _ _ (new_file-HasMade w id (pos 1) name) λ p. by_bind _ _ (by_gets _) λ path.
          by_bind _ _ (weaker id p (stat_into-HasMade p id path _)) λ modified.
            by_bind _ _
              (weaker id p (read_file_blob-Steady w (HasMade w p id) (HasMade-IsFrame w p id) path))
              λ content.
                by_bind _ _
                  (weaker id p (
                    insert_statements-Steady w (HasMade w p id) (HasMade-IsFrame w p id) id name
                      modified content))
                  λ _. by_bind _ _ (into_map w p id) λ _. by_pure id (λ s h. h)
    where
      weaker :
          {A : Type 0} {m : Exec (Source w) A} (id : ℤ) (p : Ptr)
          → Triple (HasMade w p id) m (λ _. HasMade w p id) (HasMade w p id)
          → Triple (HasMade w p id) m (λ _. HasMade w p id) (IsConsistent w)
      weaker id p h = by_weaken _ (λ a s k. k) (HasMade-IsConsistent w p id) h

  pub insert_db_file-Steady : (name : Bytes) → Kept (insert_db_file w name)
  unfolding insert_db_file
  insert_db_file-Steady name =
      transaction-Steady w (IsConsistent w) (IsConsistent-IsFrame w) _ (insert_body-Steady name)

  stat_into-Steady : (p : Ptr) (path : Bytes) (e : Exn) → Kept (stat_into w p path e)
  unfolding stat_into
  stat_into-Steady p path e = record {
    at = λ s h. elim (Option-cases (World.stat w s.db.world path)) [
      | inl gone ↦ rw (gone, stat_into) h
      | inr (t, there) ↦
          rw (there, stat_into)
            (update-IsConsistent w p (record (s.objects p) { sb = some t }) s refl h)
    ];
  }

  pub update_db_file-Steady : (p : Ptr) → Kept (update_db_file w p)
  unfolding update_db_file
  update_db_file-Steady p = by_bind _ _ (by_gets _) λ f. by_bind _ _ (by_gets _) λ path.
      by_bind _ _ (stat_into-Steady p path _) λ modified.
        by_bind _ _ (read_file_blob-Steady w (IsConsistent w) (IsConsistent-IsFrame w) path)
          λ content. transaction-Steady w (IsConsistent w) (IsConsistent-IsFrame w) _ (
            by_bind _ _
              (update_body-Steady w (IsConsistent w) (IsConsistent-IsFrame w) f.id
                (to_s32 (succ f.version)) modified content)
              λ _.
                rewrite-Steady p (λ g. record g { version = to_s32 (succ f.version) }) (λ g. refl))

  pub remove_db_file-Steady : (p : Ptr) → Kept (remove_db_file w p)
  unfolding remove_db_file
  remove_db_file-Steady p = by_bind _ _ (by_gets _) λ id.
      by_bind _ _ (in_db-Steady w (IsConsistent w) (IsConsistent-IsFrame w) _) λ r.
        by_if (is_command_ok r) _ _ (λ _. by_modify _ (λ s h. erase-IsConsistent w id s h))
          (λ _. by_pure tt (λ s h. h))

pub IsConsistent-IsStable : (w : World) → IsStable w (IsConsistent w)
IsConsistent-IsStable w = record {
  db = λ s d h. record { at = h.at };
  changed = update-IsConsistent w;
  erased = erase-IsConsistent w;
  finds = file_at-Steady w;
  loads = load_files-Steady w;
  inserts = insert_db_file-Steady w;
  updates = update_db_file-Steady w;
  removes = remove_db_file-Steady w;
}

module _ (w : World) where
  pub initialize_source-Steady :
      (wsid : ℤ) → Steady w (IsConsistent w) (IsConsistent-IsFrame w) (initialize_source w wsid)
  unfolding initialize_source
  initialize_source-Steady wsid = by_bind _ _ (by_modify _ (λ s h. record { at = h.at })) λ _.
      by_bind _ _ (in_db-Steady w (IsConsistent w) (IsConsistent-IsFrame w) _) λ r.
        by_bind _ _ (in_db-Steady w (IsConsistent w) (IsConsistent-IsFrame w) _)
          λ n. by_if (ltb n 1) _ _ (λ _. by_raise _ (λ s h. h)) (λ _. by_pure tt (λ s h. h))
