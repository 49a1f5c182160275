-- ===== src/FileSource/Transacting.antt =====
-- src/DBFileSource.cpp: rules for the actions that share a transaction, and for its scope. `F` is what is known
-- of the state apart from the connection.
use rc2compute.Prelude.{refl, Bool, true, false, if◌then◌else◌}
use rc2compute.Effects.{Exn, Exec, pure, raise, ◌>>=◌}
use rc2compute.Effects.Hoare.{
  Triple, by_bind, by_if, by_pure, by_raise, by_weaken, by_finally, by_inside,
}
use rc2compute.World.{World, Statement, DbResult}
use rc2compute.Database.{Db, execute, start_transaction, commit, close_transaction, is_command_ok}
use rc2compute.Database.Transactions.{
  IsNeutral, Flag, Level, execute-Flag, start-Flag, commit-Decided, close-Ended, Ended, Decided,
}
use rc2compute.FileSource.{Source, in_db, transaction}

module _ (w : World) where
  abbrev pub With : (Db w → Type 0) → (Source w → Type 0) → Source w → Type 0
  With P F s = P s.db × F s

  -- What an action on the connection leaves alone.
  pub record IsFrame (F : Source w → Type 0) : Type 0 where
    pub keeps : (s : Source w) (d : Db w) → F s → F (record s { db = d })

  module _ (F : Source w → Type 0) (frame : IsFrame F) where
    pub by_db :
        {A : Type 0} {P E : Db w → Type 0} {Q : A → Db w → Type 0} (m : Exec (Db w) A)
        → Triple P m Q E
        → Triple (With P F) (in_db w m) (λ a. With (Q a) F) (With E F)
    by_db m h =
        by_inside F (λ s. s.db) (λ s d. record s { db = d }) m (λ s d f. (refl, frame.keeps s d f))
          h

    -- The end of the scope turns `C` into `D`, and rolls back after a throw.
    pub by_transaction :
        {A : Type 0} {Q : A → Source w → Type 0} {E : Source w → Type 0} (C D : Db w → Type 0)
        (body : Exec (Source w) A)
        → ((db : Db w) → C db → D (close_transaction w db))
        → ((a : A) → IsFrame (Q a))
        → IsFrame E
        → Triple (With (Flag true) F) body (λ a. With C (Q a)) (With (Flag true) E)
        → Triple (With Level F) (transaction w body) (λ a. With D (Q a)) (With (Ended false) E)
    by_transaction C D body close q e h =
        by_bind (in_db w (start_transaction w)) _
          (by_weaken {E = With (λ _. ⊥) F} _ (λ a s p. p) (λ s p. absurd p.0)
            (by_db (start_transaction w) (start-Flag w)))
          λ _.
            by_finally body (λ s. record s { db = close_transaction w s.db })
              (λ a s p. (close s.db p.0, (q a).keeps s _ p.1))
              (λ s p. (close-Ended w s.db p.0, e.keeps s _ p.1)) h

    -- `must` and `must_commit` of the code, with any message.
    pub by_must :
        {R : Source w → Type 0} (q : Statement) (e : DbResult → Exn)
        → IsNeutral q.text
        → ((s : Source w) → F s → R s)
        → Triple
            (With (Flag true) F)
            (do r ← in_db w (execute w q); if is_command_ok r then pure r else raise (e r))
            (λ _. With (Flag true) F)
            (With (Flag true) R)
    by_must q e n weaker =
        by_bind (in_db w (execute w q)) _
          (by_weaken _ (λ a s p. p) (λ s p. (p.0, weaker s p.1))
            (by_db (execute w q) (execute-Flag w true q n)))
          λ r.
            by_if (is_command_ok r) _ _ (λ _. by_pure r (λ s p. p))
              (λ _. by_raise (e r) (λ s p. (p.0, weaker s p.1)))

    pub by_must_commit :
        {R : Source w → Type 0} (e : DbResult → Exn)
        → ((s : Source w) → F s → R s)
        → Triple
            (With (Flag true) F)
            (do r ← in_db w (commit w); if is_command_ok r then pure tt else raise (e r))
            (λ _. With (Ended true) F)
            (With (Flag true) R)
    by_must_commit {R = R} e weaker =
        by_bind (in_db w (commit w)) _
          (by_weaken _ (λ a s p. p) (λ s p. (p.0, weaker s p.1))
            (by_db (commit w) (commit-Decided w)))
          λ r. ending r (is_command_ok r)
      where
        ending :
            (r : DbResult) (fine : Bool)
            → Triple
                (With (Decided fine) F)
                (if fine then pure tt else raise (e r))
                (λ _. With (Ended true) F)
                (With (Flag true) R)
        ending r true = by_pure tt (λ s p. p)
        ending r false = by_raise (e r) (λ s p. (p.0, weaker s p.1))
