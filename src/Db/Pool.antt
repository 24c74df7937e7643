-- ===== src/Db/Pool.antt =====
-- src/db/mysql_pool, `MySQLPool`: the queue of idle connections and what each critical section does to
-- it. A connection is a number that names the `MySQLConnection` object. The MySQL client library is
-- not modelled: whether its `Ping` and its `Connect` succeed are arguments of the operations. Blocked
-- threads are a count; a thread takes the mutex in one event and its whole critical section is one step.
pub mod Invariant
pub mod Drained
use zls.Base.{
  ℕ, zero, suc, ◌+◌, ◌-◌, Bool, true, false, not, ◌||◌, List, [], ◌∷◌, ◌++◌, Option, none, some,
  if◌then◌else◌, ◌==◌,
}

pub record MySqlPool : Type 0 where
  pub pool_size : ℕ
  pub connections : List ℕ
  pub closed : Bool
  pub active_count : ℕ

unfoldable pub is_nil : List ℕ → Bool
is_nil [] = true
is_nil (c ∷ cs) = false

unfoldable pub create : ℕ → MySqlPool
create pool_size = record {
  pool_size = pool_size;
  connections = [];
  closed = false;
  active_count = 0;
}

-- The loop of `Init` from connection `i` on, with `left` to go.
unfoldable pub init_from : (ℕ → Bool) → ℕ → ℕ → MySqlPool → Bool × MySqlPool
init_from connects i zero pool = (true, pool)
init_from connects i (suc left) pool =
    let rest =
      init_from connects (suc i) left
        (record pool { connections = pool.connections ++ (i ∷ []) }) in
    if connects i then rest else (false, pool)

unfoldable pub init : (ℕ → Bool) → MySqlPool → Bool × MySqlPool
init connects pool = init_from connects 0 pool.pool_size pool

unfoldable pub close : MySqlPool → MySqlPool
close pool = record pool { connections = []; closed = true }

-- `ReturnConnection`; `fresh` names the object that it makes when the old one is dead.
unfoldable pub returned : ℕ → Bool → Bool → ℕ → List ℕ → List ℕ
returned conn ping connect fresh connections =
    if ping
    then connections ++ (conn ∷ [])
    else if connect
    then connections ++ (fresh ∷ [])
    else connections

unfoldable pub return_connection : ℕ → Bool → Bool → ℕ → MySqlPool → MySqlPool
return_connection conn ping connect fresh pool = if pool.closed then pool else record pool {
  connections = returned conn ping connect fresh pool.connections;
  active_count = pool.active_count - 1;
}

-- The predicate that `GetConnection` waits for.
unfoldable pub wait_predicate : MySqlPool → Bool
wait_predicate pool = pool.closed || not (is_nil pool.connections)

-- `GetConnection` from the end of its wait on.
unfoldable pub take_front : Bool → Bool → MySqlPool → List ℕ → Option ℕ × MySqlPool
take_front ping connect pool [] = (none, pool)
take_front ping connect pool (c ∷ cs) =
    if ping || connect
    then (some c, record pool { connections = cs; active_count = suc pool.active_count })
    else (none, record pool { connections = cs })

unfoldable pub take_connection : Bool → Bool → MySqlPool → Option ℕ × MySqlPool
take_connection ping connect pool =
    if pool.closed || is_nil pool.connections
    then (none, pool)
    else take_front ping connect pool pool.connections

-- The pool with the threads that use it: what they hold and how many of them wait.
pub record World : Type 0 where
  pub pool : MySqlPool
  pub lent : List ℕ
  pub waiting : ℕ
  pub next_object : ℕ

-- A call of `GetConnection`; a waiting thread that is woken, or whose time is over; the last owner of
-- a connection letting go of it; `Close`.
pub data Event : Type 0 where
  get : Bool → Bool → Event
  wake : Bool → Bool → Event
  expire : Event
  give_back : ℕ → Bool → Bool → Event
  shut : Event

abbrev pub hold : Option ℕ → List ℕ → List ℕ
hold none lent = lent
hold (some c) lent = c ∷ lent

unfoldable pub holds : ℕ → List ℕ → Bool
holds c [] = false
holds c (d ∷ ds) = (d == c) || holds c ds

unfoldable pub release : ℕ → List ℕ → List ℕ
release c [] = []
release c (d ∷ ds) = if d == c then ds else d ∷ release c ds

unfoldable pub taken : World → ℕ → Option ℕ × MySqlPool → Option ℕ × World
taken w waiting (got, pool) =
    (got, record w { pool = pool; lent = hold got w.lent; waiting = waiting })

-- What an event gives to its thread, and the world after it.
unfoldable pub step : World → Event → Option ℕ × World
step w (get ping connect) =
    if w.pool.closed
    then (none, w)
    else if wait_predicate w.pool
    then taken w w.waiting (take_connection ping connect w.pool)
    else (none, record w { waiting = suc w.waiting })
step w (wake ping connect) =
    if (w.waiting == 0) || not (wait_predicate w.pool)
    then (none, w)
    else taken w (w.waiting - 1) (take_connection ping connect w.pool)
step w expire = (none, record w { waiting = w.waiting - 1 })
step w (give_back c ping connect) =
    if holds c w.lent
    then (
      none,
      record w {
        pool = return_connection c ping connect w.next_object w.pool;
        lent = release c w.lent;
        next_object = suc w.next_object;
      },
    )
    else (none, w)
step w shut = (none, record w { pool = close w.pool })

unfoldable pub after : World → List Event → World
after w [] = w
after w (e ∷ es) = after (step w e).1 es

unfoldable pub given : World → List Event → List (Option ℕ)
given w [] = []
given w (e ∷ es) = (step w e).0 ∷ given (step w e).1 es

-- The world when `Init` has succeeded.
unfoldable pub start : ℕ → World
start size = record {
  pool = (init (λ i. true) (create size)).1;
  lent = [];
  waiting = 0;
  next_object = size;
}
