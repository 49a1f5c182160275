-- ===== src/Database/Transactions.antt =====
-- Whether the server has a transaction open, and that a `DBTransaction` knows it.
use rc2compute.Prelude.{
  ◌≡◌, refl, not, Option, none, some, Bool, true, false, ◌&&◌, List, [], ◌∷◌, arith, Bytes, lit,
  same, if◌then◌else◌,
}
use rc2compute.Effects.{db_exception, pure, raise, modify, ◌>>=◌}
use rc2compute.Effects.Hoare.{Triple, by_bind, by_if, by_option, by_crash, by_pure, by_raise}
use rc2compute.Numbers.{atol}
use rc2compute.World.{Statement, ExecStatus, command_ok, tuples_ok, failed, DbResult, World}
use rc2compute.Database.{
  Db, plain, execute, long_from_query, start_transaction, commit, close_transaction, is_command_ok,
  data_returned, get_value, rows_returned,
}

abbrev is_ok : ExecStatus → Bool
is_ok command_ok = true
is_ok _ = false

-- The state of the server after the commands, newest first: `begin` opens a transaction,
-- `rollback` closes it, and `commit` closes it if it succeeds.
unfoldable pub in_transaction : List (Statement × ExecStatus) → Bool
in_transaction [] = false
in_transaction ((q, status) ∷ older) =
    let before = in_transaction older in
    if same q.text (lit "begin")
    then true
    else if same q.text (lit "rollback")
    then false
    else if same q.text (lit "commit") && is_ok status
    then false
    else before

-- How the last transaction that ended did: `true` if it was committed, `false` if it was rolled back.
unfoldable pub last_end : List (Statement × ExecStatus) → Option Bool
last_end [] = none
last_end ((q, status) ∷ older) =
    let before = last_end older in
    if same q.text (lit "rollback")
    then some false
    else if same q.text (lit "commit") && is_ok status
    then some true
    else before

-- A command that neither opens nor closes a transaction.
pub record IsNeutral (text : Bytes) : Type 0 where
  pub not_begin : same text (lit "begin") ≡ false
  pub not_rollback : same text (lit "rollback") ≡ false
  pub not_commit : same text (lit "commit") ≡ false

-- The flag of the transaction object and the server agree on `b`.
pub record Flag {w : World} (b : Bool) (db : Db w) : Type 0 where
  pub server : in_transaction db.sent ≡ b
  pub object : db.open_flag ≡ b

pub record Level {w : World} (db : Db w) : Type 0 where
  pub agree : in_transaction db.sent ≡ db.open_flag

-- No transaction is open, and the last one was committed or rolled back.
pub record Ended {w : World} (committed : Bool) (db : Db w) : Type 0 where
  pub server : in_transaction db.sent ≡ false
  pub object : db.open_flag ≡ false
  pub outcome : last_end db.sent ≡ some committed

-- After a commit that succeeded or not.
module _ {w : World} where
  abbrev pub Decided : Bool → Db w → Type 0
  Decided true db = Ended true db
  Decided false db = Flag true db

module _ (w : World) where
  pub Flag-Level : (b : Bool) (db : Db w) → Flag b db → Level db
  Flag-Level b db f = record { agree = ground arith }

  pub execute-Flag :
      (b : Bool) (q : Statement)
      → IsNeutral q.text
      → Triple (Flag b) (execute w q) (λ _. Flag b) (Flag b)
  unfolding execute in_transaction
  execute-Flag b q n = record { at = λ db f. record { server = ground arith; object = f.object } }

  -- It throws nothing.
  pub start-Flag : Triple Level (start_transaction w) (λ _. Flag true) (λ _. ⊥)
  unfolding start_transaction in_transaction same lit ◌>>=◌ modify
  start-Flag = record { at = λ db f. record { server = refl; object = refl } }

  decide :
      (status : ExecStatus) (next : World.W w) (db : Db w)
      → Flag true db
      → let fine = is_ok status in
        Decided fine (record db {
          world = next;
          sent = (plain (lit "commit"), status) ∷ db.sent;
          open_flag = not fine;
        })
  unfolding in_transaction last_end same lit
  decide command_ok next db f = record { server = refl; object = refl; outcome = refl }
  decide tuples_ok next db f = record { server = f.server; object = refl }
  decide failed next db f = record { server = f.server; object = refl }

  status_ok : (r : DbResult) → is_command_ok r ≡ is_ok r.status
  unfolding is_command_ok
  status_ok r = ground arith

  pub commit-Decided : Triple (Flag true) (commit w) (λ r. Decided (is_command_ok r)) (Flag true)
  unfolding commit ◌>>=◌ modify pure execute
  commit-Decided = record {
    at = λ db f.
        let (r, next) = World.query w db.world (plain (lit "commit")) in
        rw (status_ok r) (decide r.status next db f);
  }

  pub rows_returned-Flag :
      (b : Bool) (r : DbResult) → Triple (Flag b) (rows_returned w r) (λ _. Flag b) (Flag b)
  unfolding rows_returned pure raise
  rows_returned-Flag b r = record { at = λ db f. ground (arith, f) }

  pub long_from_query-Flag :
      (b : Bool) (text : Bytes)
      → IsNeutral text
      → Triple (Flag b) (long_from_query w text) (λ _. Flag b) (Flag b)
  unfolding long_from_query in_transaction
  long_from_query-Flag b text n =
      by_bind (execute w (plain text)) _ (execute-Flag b (plain text) n) λ r.
        by_if (data_returned r) _ _
          (λ _. by_option (get_value r 0 0) _ _ by_crash (λ v. by_pure (atol v) (λ db f. f)))
          (λ _. by_raise (db_exception r.error_message) (λ db f. f))

  pub close-Flag : (db : Db w) → Level db → Flag false (close_transaction w db)
  unfolding close_transaction execute in_transaction same lit
  close-Flag db l = record { server = ground arith; object = ground arith }

  pub close-Ended : (db : Db w) → Flag true db → Ended false (close_transaction w db)
  unfolding close_transaction execute in_transaction last_end same lit
  close-Ended db f =
      rw (f.object, close_transaction) (record { server = refl; object = refl; outcome = refl })

  pub close_ended : (db : Db w) → Ended true db → Ended true (close_transaction w db)
  unfolding close_transaction
  close_ended db f = record {
    server = ground (arith, f.server, f.object);
    object = ground (arith, f.object);
    outcome = ground (arith, f.object, f.outcome);
  }

  pub Ended-Flag : (committed : Bool) (db : Db w) → Ended committed db → Flag false db
  Ended-Flag committed db f = record { server = f.server; object = f.object }
