-- ===== src/Db/Transaction.antt =====
-- src/db/mysql_tx.h and mysql_tx.cpp, `Transaction`, and the calls of `MySQLConnection` that run SQL. The
-- server is a parameter: which statements it refuses, with what message, and whether a `COMMIT`
-- whose answer was an error has taken place all the same. One session runs at a time.
pub mod Triples
use zls.Base.{ℕ, ◌+◌, Bool, true, false, Option, none, some, [], if◌then◌else◌}
use zls.Base.Bytes.{Bytes}
use zls.Db.Sql.{
  Tables, Sql, start_transaction, commit_work, rollback_work, select, Effect, refused, changed,
  perform,
}

-- The answer to the n-th statement: `none` when it is accepted, else the message.
pub record Server : Type 0 where
  pub answer : ℕ → Sql → Option Bytes
  pub landed : ℕ → Bool

-- The session at the server, and `finished_` of the `Transaction` object that uses it. Outside a
-- transaction `working` is what is committed.
pub record Session : Type 0 where
  pub committed : Tables
  pub working : Tables
  pub in_transaction : Bool
  pub clock : ℕ
  pub finished : Bool

-- Why a transaction is given up: a statement or the `COMMIT` failed with a message, a new row's key
-- was there already, or the row asked for is not there.
pub data Failure : Type 0 where
  statement_failed duplicate_key commit_failed : Bytes → Failure
  not_found : Failure

pub data Answer (A : Type 0) : Type 0 where
  raised : Failure → Answer A
  returned : A → Answer A

abbrev pub Exec : Type 0 → Type 0
Exec A = Session → Answer A × Session

unfoldable pub pure : {A : Type 0} → A → Exec A
pure a s = (returned a, s)

unfoldable pub raise : {A : Type 0} → Failure → Exec A
raise f s = (raised f, s)

unfoldable pub continue : {A B : Type 0} → Answer A → (A → Exec B) → Exec B
continue (raised f) g s = (raised f, s)
continue (returned a) g s = g a s

infixl 10 ◌>>=◌ ◌>>◌
unfoldable pub ◌>>=◌ : {A B : Type 0} → Exec A → (A → Exec B) → Exec B
unfolding pure raise
◌>>=◌ m g s = let (r, s') = m s in continue r g s'

abbrev pub ◌>>◌ : {A B : Type 0} → Exec A → Exec B → Exec B
m >> n = m >>= λ _. n

unfoldable pub tick : Session → Session
tick s = record s { clock = s.clock + 1 }

-- A change is committed at once unless a transaction is open.
unfoldable pub keep : Tables → Session → Session
keep t s = record s { working = t; committed = if s.in_transaction then s.committed else t }

unfoldable pub settle : Effect → Exec (Unit {0})
settle (refused e) s = (raised (statement_failed e), s)
settle (changed t) s = (returned tt, keep t s)

unfoldable pub run_sql : Option Bytes → Sql → Exec (Unit {0})
run_sql none q s = settle (perform q s.working) (tick s)
run_sql (some e) q s = (raised (statement_failed e), tick s)

unfoldable pub read : {A : Type 0} → Option Bytes → (Tables → A) → Exec A
read none f s = (returned (f s.working), tick s)
read (some e) f s = (raised (statement_failed e), tick s)

module _ (server : Server) where
  -- `MySQLConnection::Execute`.
  unfoldable pub execute : Sql → Exec (Unit {0})
  execute q s = run_sql (server.answer s.clock q) q s

  -- `MySQLConnection::Query`, and what the caller takes from the rows.
  unfoldable pub query : {A : Type 0} → (Tables → A) → Exec A
  query f s = read (server.answer s.clock select) f s

  -- `Transaction::Execute` and `Transaction::Query`.
  unfoldable pub tx_execute : Sql → Exec (Unit {0})
  tx_execute q s = if s.finished then (raised (statement_failed []), s) else execute q s

  unfoldable pub tx_query : {A : Type 0} → (Tables → A) → Exec A
  tx_query f s = if s.finished then (raised (statement_failed []), s) else query f s

-- `START TRANSACTION` commits what is open. When it is refused the constructor only writes a log line.
unfoldable pub started : Option Bytes → Session → Session
started none s = record s { committed = s.working; in_transaction = true }
started (some e) s = s

unfoldable pub rolled_back : Option Bytes → Session → Session
rolled_back none s = record s { working = s.committed; in_transaction = false }
rolled_back (some e) s = s

-- What `COMMIT` leaves behind; `landed` is for the case that its answer was an error.
unfoldable pub ended : Option Bytes → Bool → Session → Session
ended none landed s = record s { committed = s.working; in_transaction = false }
ended (some e) landed s =
    if landed
    then record s { committed = s.working; in_transaction = false }
    else record s { working = s.committed; in_transaction = false }

unfoldable pub commit_answer : {A : Type 0} → A → Option Bytes → Answer A
commit_answer a none = returned a
commit_answer a (some e) = raised (commit_failed e)

module _ (server : Server) where
  -- The constructor of `Transaction`.
  unfoldable pub begin : Session → Session
  begin s = started (server.answer s.clock start_transaction) (tick (record s { finished = false }))

  unfoldable pub rollback : Session → Session
  rollback s =
      if s.finished
      then s
      else rolled_back (server.answer s.clock rollback_work) (tick (record s { finished = true }))

  -- The destructor rolls back a transaction that is not finished.
  unfoldable pub destroy : Session → Session
  destroy s = if s.finished then s else rollback s

  -- The message when the commit failed.
  unfoldable pub commit : Session → Option Bytes × Session
  commit s =
      let answer = server.answer s.clock commit_work in
      if s.finished
      then (some [], s)
      else (answer, ended answer (server.landed s.clock) (tick (record s { finished = true })))

  -- The end of a transaction: the object is destroyed after a failure, or after the commit.
  unfoldable pub conclude : {A : Type 0} → Answer A → Exec A
  conclude (raised f) s = (raised f, destroy s)
  conclude (returned a) s = let (c, s') = commit s in (commit_answer a c, destroy s')

  -- A block that begins a transaction, runs its statements and commits.
  unfoldable pub transaction : {A : Type 0} → Exec A → Exec A
  transaction body s = let (r, s') = body (begin s) in conclude r s'
