-- ===== src/Db/Pool/Drained.antt =====
-- How many connections the pool has over time.
use zls.Base.{
  ℕ, zero, suc, ◌+◌, ◌-◌, ◌≡◌, subst, refl, ap, Bool, true, false, not, ◌||◌, List, [], ◌∷◌, ◌++◌,
  Option, none, ◌==◌, length, replicate, arith, if-cases,
}
use zls.Db.Pool.{
  MySqlPool, is_nil, create, init_from, init, close, returned, return_connection, wait_predicate,
  take_front, take_connection, World, Event, get, wake, expire, give_back, shut, holds, release,
  taken, step, after, given, start,
}
use zls.Db.Pool.Invariant.{length-release, length-snoc}

-- Nothing idle and nothing lent.
pub record IsDry (w : World) : Type 0 where
  pub idle : w.pool.connections ≡ []
  pub lent : w.lent ≡ []

GivesNothing : Option ℕ × World → Type 0
GivesNothing (got, w) = (got ≡ none) × IsDry w

take_front-dry :
    (w : World) (k : ℕ) (ping connect : Bool) (idle : List ℕ)
    → idle ≡ []
    → IsDry w
    → GivesNothing (taken w k (take_front ping connect w.pool idle))
unfolding taken take_front GivesNothing
take_front-dry w k ping connect [] e d = (refl, record { idle = d.idle; lent = d.lent })
take_front-dry w k ping connect (c ∷ cs) e d = absurd (cc e)

take_connection-dry :
    (w : World) (k : ℕ) (ping connect : Bool)
    → IsDry w
    → GivesNothing (taken w k (take_connection ping connect w.pool))
unfolding take_connection
take_connection-dry w k ping connect d =
    if-cases (λ (r : Option ℕ × MySqlPool). GivesNothing (taken w k r))
      (w.pool.closed || is_nil w.pool.connections)
      (λ _. unfold taken in unfold GivesNothing in (refl, record { idle = d.idle; lent = d.lent }))
      (λ _. take_front-dry w k ping connect w.pool.connections d.idle d)

step-dry : (e : Event) (w : World) → IsDry w → GivesNothing (step w e)
unfolding step close holds GivesNothing
step-dry (get ping connect) w d =
    if-cases GivesNothing w.pool.closed (λ _. (refl, d))
      (λ _.
        if-cases GivesNothing (wait_predicate w.pool)
          (λ _. take_connection-dry w w.waiting ping connect d)
          (λ _. (refl, record { idle = d.idle; lent = d.lent })))
step-dry (wake ping connect) w d =
    if-cases GivesNothing ((w.waiting == 0) || not (wait_predicate w.pool)) (λ _. (refl, d))
      (λ _. take_connection-dry w (w.waiting - 1) ping connect d)
step-dry expire w d = (refl, record { idle = d.idle; lent = d.lent })
step-dry (give_back c ping connect) w d =
    if-cases GivesNothing (holds c w.lent)
      (λ e. let q : holds c w.lent ≡ false = rw (d.lent) refl in absurd (cc)) (λ e. (refl, d))
step-dry shut w d = (refl, record { idle = refl; lent = d.lent })

given-dry : (es : List Event) (w : World) → IsDry w → given w es ≡ replicate (length es) none
unfolding given GivesNothing
given-dry [] w d = refl
given-dry (e ∷ es) w d = rw ((step-dry e w d).0, given-dry es (step w e).1 (step-dry e w d).1)

-- A call of `GetConnection` that finds a dead connection and cannot reconnect.
abbrev pub failing : Event
failing = get false false

step-failing :
    (w : World) (c : ℕ) (cs : List ℕ)
    → w.pool.connections ≡ c ∷ cs
    → w.pool.closed ≡ false
    → step w failing ≡ (none, record w { pool = record w.pool { connections = cs } })
unfolding step wait_predicate take_connection taken take_front is_nil
step-failing w c cs e o = rw (o, e) refl

drain :
    (idle : List ℕ) (w : World)
    → w.pool.connections ≡ idle
    → w.lent ≡ []
    → w.pool.closed ≡ false
    → IsDry (after w (replicate (length idle) failing))
unfolding after
drain [] w e l o = record { idle = e; lent = l }
drain (c ∷ cs) w e l o =
    rw (after, step-failing w c cs e o)
      (drain cs (record w { pool = record w.pool { connections = cs } }) refl l o)

-- What MySQL answers when all is well: every connection that is looked at is alive or can be made
-- again. The pool is not closed.
abbrev pub IsHealthy : Event → Type 0
IsHealthy (get ping connect) = (ping || connect) ≡ true
IsHealthy (wake ping connect) = (ping || connect) ≡ true
IsHealthy expire = Unit {0}
IsHealthy (give_back c ping connect) = (ping || connect) ≡ true
IsHealthy shut = ⊥

abbrev pub AreHealthy : List Event → Type 0
AreHealthy [] = Unit {0}
AreHealthy (e ∷ es) = IsHealthy e × AreHealthy es

abbrev pub total : World → ℕ
total w = length w.pool.connections + length w.lent

-- Open, with as many connections as `size`.
Full : ℕ → World → Type 0
Full size w = (w.pool.closed ≡ false) × (total w ≡ size)

take_front-Full :
    (size : ℕ) (w : World) (k : ℕ) (ping connect : Bool) (idle : List ℕ)
    → w.pool.connections ≡ idle
    → (ping || connect) ≡ true
    → Full size w
    → Full size (taken w k (take_front ping connect w.pool idle)).1
unfolding taken take_front Full
take_front-Full size w k ping connect [] e h f = f
take_front-Full size w k ping connect (c ∷ cs) e h f = rw (h) (f.0, omega (arith, f.1, ap length e))

take_connection-Full :
    (size : ℕ) (w : World) (k : ℕ) (ping connect : Bool)
    → (ping || connect) ≡ true
    → Full size w
    → Full size (taken w k (take_connection ping connect w.pool)).1
unfolding take_connection
take_connection-Full size w k ping connect h f =
    if-cases (λ (r : Option ℕ × MySqlPool). Full size (taken w k r).1)
      (w.pool.closed || is_nil w.pool.connections) (λ _. unfold taken in unfold Full in f)
      (λ _. take_front-Full size w k ping connect w.pool.connections refl h f)

length-returned :
    (c : ℕ) (ping connect : Bool) (fresh : ℕ) (idle : List ℕ)
    → (ping || connect) ≡ true
    → length (returned c ping connect fresh idle) ≡ suc (length idle)
unfolding returned
length-returned c true connect fresh idle h = length-snoc c idle
length-returned c false true fresh idle h = length-snoc fresh idle
length-returned c false false fresh idle h = absurd (cc h)

give_back-Full :
    (size c : ℕ) (ping connect : Bool) (w : World)
    → holds c w.lent ≡ true
    → (ping || connect) ≡ true
    → Full size w
    → Full size (record w {
      pool = return_connection c ping connect w.next_object w.pool;
      lent = release c w.lent;
      next_object = suc w.next_object;
    })
unfolding return_connection Full
give_back-Full size c ping connect w g h f =
    let P : MySqlPool → Type 0 =
      λ p. (p.closed ≡ false) × (length p.connections + length (release c w.lent) ≡ size) in
    if-cases P w.pool.closed (λ e. let o = f.0 in absurd (cc))
      (λ _. (
        f.0,
        omega (
          arith,
          f.1,
          length-returned c ping connect w.next_object w.pool.connections h,
          length-release c w.lent g,
        ),
      ))

step-Full : (size : ℕ) (e : Event) (w : World) → IsHealthy e → Full size w → Full size (step w e).1
unfolding step
step-Full size (get ping connect) w h f =
    let P : Option ℕ × World → Type 0 = λ r. Full size r.1 in
    if-cases P w.pool.closed (λ _. f)
      (λ _.
        if-cases P (wait_predicate w.pool)
          (λ _. take_connection-Full size w w.waiting ping connect h f) (λ _. unfold Full in f))
step-Full size (wake ping connect) w h f =
    let P : Option ℕ × World → Type 0 = λ r. Full size r.1 in
    if-cases P ((w.waiting == 0) || not (wait_predicate w.pool)) (λ _. f)
      (λ _. take_connection-Full size w (w.waiting - 1) ping connect h f)
step-Full size expire w h f = unfold Full in f
step-Full size (give_back c ping connect) w h f =
    let P : Option ℕ × World → Type 0 = λ r. Full size r.1 in
    if-cases P (holds c w.lent) (λ g. give_back-Full size c ping connect w g h f) (λ _. f)
step-Full size shut w h f = absurd h

after-Full :
    (size : ℕ) (es : List Event) (w : World) → AreHealthy es → Full size w → Full size (after w es)
unfolding after
after-Full size [] w h f = f
after-Full size (e ∷ es) w h f = after-Full size es (step w e).1 h.1 (step-Full size e w h.0 f)

init_from-Full :
    (i left : ℕ) (pool : MySqlPool)
    → pool.closed ≡ false
    → let p = (init_from (λ j. true) i left pool).1 in
      (p.closed ≡ false) × (length p.connections ≡ length pool.connections + left)
unfolding init_from
init_from-Full i zero pool o = (o, omega arith)
init_from-Full i (suc left) pool o =
    let r =
      init_from-Full (suc i) left (record pool { connections = pool.connections ++ (i ∷ []) }) o in
    (r.0, omega (arith, r.1, length-snoc i pool.connections))

start-Full : (size : ℕ) → Full size (start size)
unfolding start init create Full
start-Full size = let r = init_from-Full 0 size (create size) refl in (r.0, omega (arith, r.1))

-- While MySQL answers, a pool that is not closed keeps as many connections, idle or lent, as `Init`
-- has made, whatever the calls and their order.
pub total-after :
    (size : ℕ) (es : List Event) → AreHealthy es → total (after (start size) es) ≡ size
unfolding Full
total-after size es h = (after-Full size es (start size) h (start-Full size)).1

start-drained : (size : ℕ) → IsDry (after (start size) (replicate size failing))
unfolding Full
start-drained size =
    let f = start-Full size in
    let e : length (start size).pool.connections ≡ size = (unfold start in omega (arith, f.1)) in
    subst (λ n. IsDry (after (start size) (replicate n failing))) e
      (drain (start size).pool.connections (start size) refl (unfold start in refl) f.0)

-- After as many calls of `GetConnection` on a fresh pool as it has connections, each of which finds
-- its connection dead and cannot reconnect, no later call is given one, even if MySQL is back.
pub given-drained :
    (size : ℕ) (es : List Event)
    → given (after (start size) (replicate size failing)) es ≡ replicate (length es) none
given-drained size es =
    given-dry es (after (start size) (replicate size failing)) (start-drained size)
