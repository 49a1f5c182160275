-- ===== src/FileSource/Saving.antt =====
-- src/DBFileSource.cpp: `saveRData` leaves no transaction behind.
use rc2compute.Prelude.{refl, true, false, not, ◌++◌, Bytes, lit, same}
use rc2compute.Effects.{Exn, formatted, gets}
use rc2compute.Effects.Hoare.{Post, Triple, by_bind, by_if, by_pure, by_gets, by_before, by_weaken}
use rc2compute.Numbers.{ℤ, pos, show, lt_ℤ}
use rc2compute.World.{World, DbResult}
use rc2compute.Database.{plain, execute, is_command_ok, rows_affected}
use rc2compute.Database.Transactions.{
  IsNeutral, Flag, Level, Flag-Level, execute-Flag, Ended-Flag, close-Flag,
}
use rc2compute.FileSource.{Source, in_db, in_dir}
use rc2compute.FileSource.Store.{with_blob, save_body, save_rdata}
use rc2compute.FileSource.Transacting.{
  With, IsFrame, by_db, by_transaction, by_must, by_must_commit,
}
use rc2compute.FileSource.Updates.{read_file_blob-keeps}

lock-IsNeutral : IsNeutral (lit "lock table rcworkspacedata in access exclusive mode")
unfolding lit same
lock-IsNeutral = record { not_begin = refl; not_rollback = refl; not_commit = refl }

update_rdata-IsNeutral :
    (rest : Bytes)
    → IsNeutral (lit "update rcworkspacedata set bindata = $1::bytea where id = " ++ rest)
unfolding lit same
update_rdata-IsNeutral rest = record { not_begin = refl; not_rollback = refl; not_commit = refl }

insert_rdata-IsNeutral :
    (rest : Bytes) → IsNeutral (lit "insert into rcworkspacedata (id,bindata) values (" ++ rest)
unfolding lit same
insert_rdata-IsNeutral rest = record { not_begin = refl; not_rollback = refl; not_commit = refl }

module _ (w : World) where
  Anything : Source w → Type 0
  Anything s = Unit

  Anything-IsFrame : IsFrame w Anything
  unfolding Anything
  Anything-IsFrame = record { keeps = λ s d f. tt }

  save_message : Bytes → ℤ → Bytes → DbResult → Exn
  save_message text wspace colon r = formatted ((text ++ (show wspace ++ colon)) ++ r.error_message)

  save_body-Level :
      (content : Bytes) (wspace : ℤ)
      → Triple
          (With w (Flag true) Anything)
          (save_body w content wspace)
          (λ _. With w Level Anything)
          (With w (Flag true) Anything)
  unfolding save_body save_message
  save_body-Level content wspace =
      by_bind
        (in_db w (execute w (plain (lit "lock table rcworkspacedata in access exclusive mode")))) _
        (by_weaken _ (λ a s p. p) (λ s p. p)
          (by_db w Anything Anything-IsFrame _ (execute-Flag w true _ lock-IsNeutral)))
        λ locked.
          by_if (not (is_command_ok locked)) _ _
            (λ _. by_pure tt (λ s f. (Flag-Level w true s.db f.0, f.1)))
            λ _.
              by_bind _ _
                (by_must w Anything Anything-IsFrame
                  (with_blob w
                    (lit "update rcworkspacedata set bindata = $1::bytea where id = "
                      ++ show wspace)
                    content)
                  (save_message (lit "failed to update rcworkspacedata ") wspace (lit ": "))
                  (update_rdata-IsNeutral (show wspace)) (λ s f. f))
                λ r.
                  by_bind _ _
                    (by_if (lt_ℤ (rows_affected r) (pos 1)) _ _
                      (λ _.
                        by_must w Anything Anything-IsFrame
                          (with_blob w
                            (lit "insert into rcworkspacedata (id,bindata) values ("
                              ++ (show wspace ++ lit ", $1::bytea)"))
                            content)
                          (save_message (lit "failed to insert rcworkspacedata ") wspace (lit ":"))
                          (insert_rdata-IsNeutral (show wspace ++ lit ", $1::bytea)")) (λ s f. f))
                      (λ _. by_pure r (λ s f. f)))
                    λ _.
                      by_weaken _
                        (λ a s f. (Flag-Level w false s.db (Ended-Flag w true s.db f.0), f.1))
                        (λ s f. f)
                        (by_must_commit w Anything Anything-IsFrame
                          (λ r. formatted (lit "failed to commit save rdata")) (λ s f. f))

  saved :
      Triple
        (With w (Flag false) Anything)
        (save_rdata w)
        (λ _. With w (Flag false) Anything)
        (With w (Flag false) Anything)
  unfolding save_rdata
  saved = by_bind (gets (in_dir w (lit ".RData"))) _ (by_gets (in_dir w (lit ".RData"))) λ path.
      by_bind (gets (λ s. World.exists w s.db.world path)) _
        (by_gets (λ s. World.exists w s.db.world path))
        λ there.
          by_if (not there) _ _ (λ _. by_pure tt (λ s f. f))
            λ _. by_bind _ _ (read_file_blob-keeps w (With w (Flag false) Anything) path) λ content.
              by_bind (gets (λ s. s.wspace_id)) _ (by_gets (λ s. s.wspace_id)) λ wspace.
                by_before _ (λ t g. (Flag-Level w false t.db g.0, g.1))
                  (by_weaken _ (λ a s f. f) (λ s f. (Ended-Flag w false s.db f.0, f.1))
                    (by_transaction w Anything Anything-IsFrame Level (Flag false)
                      (save_body w content wspace) (close-Flag w) (λ _. Anything-IsFrame)
                      Anything-IsFrame (save_body-Level content wspace)))

-- `saveRData`, when no transaction is open: however it ends, short of undefined behaviour, none is open,
-- also when the lock is refused, which is not reported.
pub save_rdata-closes :
    (w : World) (s : Source w)
    → Flag false s.db
    → Post (λ _ t. Flag false t.db) (λ t. Flag false t.db) (save_rdata w s)
unfolding Anything
save_rdata-closes w s level =
    (by_weaken (save_rdata w) (λ a t f. f.0) (λ t f. f.0) (saved w)).at s (level, tt)
