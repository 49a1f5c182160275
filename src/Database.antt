-- ===== src/Database.antt =====
-- common/PGDBConnection.{hpp,cpp} and common/PostgresUtils.hpp: one connection and its results.
pub mod Transactions
use rc2compute.Prelude.{
  ℕ, zero, suc, ◌≡◌, Bool, true, false, not, Option, none, some, List, [], ◌∷◌, ◌++◌, Bytes, length,
  lit, ltb, if◌then◌else◌,
}
use rc2compute.Effects.{
  Exn, db_exception, Result, ok, raised, Exec, pure, raise, crash, gets, modify, finally, ◌>>=◌,
  ◌>>◌,
}
use rc2compute.Numbers.{ℤ, pos, atol}
use rc2compute.World.{Statement, ExecStatus, command_ok, tuples_ok, failed, DbResult, World}

unfoldable pub is_command_ok : DbResult → Bool
is_command_ok r = elim r.status [ command_ok ↦ true | _ ↦ false ]

unfoldable pub data_returned : DbResult → Bool
data_returned r = elim r.status [ tuples_ok ↦ true | _ ↦ false ]

nth {ℓ} : {A : Type ℓ} → List A → ℕ → Option A
nth [] i = none
nth (x ∷ xs) zero = some x
nth (x ∷ xs) (suc i) = nth xs i

-- `PQgetvalue`; a null pointer outside the result.
unfoldable pub get_value : DbResult → ℕ → ℕ → Option Bytes
unfolding nth
get_value r row col = elim (nth r.cells row) [ none ↦ none | some cells ↦ nth cells col ]

unfoldable pub rows_affected : DbResult → ℤ
rows_affected r = atol r.affected

abbrev pub plain : Bytes → Statement
plain text = record { text = text; params = [] }

module _ (w : World) where
  open w use {W, query, consume_input, notifies, connect_db}

  -- The world, what was sent over the connection with the status of each answer (newest first), and the flag `open_` of the
  -- `DBTransaction` in scope: no function of the program has two.
  pub record Db : Type 0 where
    pub world : W
    pub sent : List (Statement × ExecStatus)
    pub open_flag : Bool

  unfoldable pub rows_returned : DbResult → Exec Db ℕ
  rows_returned r =
      if data_returned r
      then pure (length r.cells)
      else raise (db_exception (lit "rowsReturned called when query did not return rows"))

  unfoldable pub execute : Statement → Exec Db DbResult
  execute q db =
      let (r, next) = query db.world q in
      (ok r, record db { world = next; sent = (q, r.status) ∷ db.sent })

  unfoldable pub long_from_query : Bytes → Exec Db ℤ
  unfolding execute
  long_from_query text = do
    r ← execute (plain text)
    if data_returned r
        then elim (get_value r 0 0) [ none ↦ crash | some v ↦ pure (atol v) ]
        else raise (db_exception r.error_message)

  -- `DBTransaction trans = startTransaction();`
  unfoldable pub start_transaction : Exec Db (Unit {0})
  unfolding execute
  start_transaction = do
    execute (plain (lit "begin"))
    modify (λ db. record db { open_flag = true })

  unfoldable pub commit : Exec Db DbResult
  unfolding execute
  commit = do
    r ← execute (plain (lit "commit"))
    modify (λ db. record db { open_flag = not (is_command_ok r) })
    pure r

  -- The destructor of the transaction; there is no flag any more, which is `false`.
  unfoldable pub close_transaction : Db → Db
  unfolding execute
  close_transaction db =
      if db.open_flag
      then record (execute (plain (lit "rollback")) db).1 { open_flag = false }
      else db

  unfoldable pub consume : Exec Db (Unit {0})
  consume db =
      let (fine, next) = consume_input db.world in
      let moved : Db = record db { world = next } in
      if fine
      then (ok tt, moved)
      else (raised (db_exception (lit "consume input returned error")), moved)

  -- Channel and payload of the next notification, if there is one.
  unfoldable pub check_for_notification : Exec Db (Option (Bytes × Bytes))
  check_for_notification db =
      let (note, next) = notifies db.world in (ok note, record db { world = next })

  -- `none` from the parameter is an open connection, and `some m` the message of a failure.
  unfoldable pub connect : Bytes → Exec Db (Unit {0})
  connect text db =
      if ltb (length text) 5
      then (raised (db_exception (lit "invalid connectString")), db)
      else let (failure, next) = connect_db db.world text in
        let moved : Db = record db { world = next } in
        elim failure [
          | none ↦ (ok tt, moved)
          | some m ↦ (raised (db_exception (lit "failed to connect to database: " ++ m)), moved)
        ]
