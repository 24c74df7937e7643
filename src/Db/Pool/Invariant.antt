-- ===== src/Db/Pool/Invariant.antt =====
-- The invariant of the connection pool, over its histories.
use zls.Base.{
  ℕ, zero, suc, ◌+◌, ◌-◌, ◌≤◌, ◌≡◌, ◌⊎◌, subst, refl, ap, Bool, true, false, not, ◌||◌, List, [],
  ◌∷◌, ◌++◌, Option, if◌then◌else◌, ◌==◌, length, length-append, arith, if-cases, inl, inr,
  Bool-cases,
}
use zls.Db.Pool.{
  MySqlPool, is_nil, create, init_from, init, close, returned, return_connection, wait_predicate,
  take_front, take_connection, World, Event, get, wake, expire, give_back, shut, holds, release,
  taken, step, after, start,
}

abbrev pub count : ℕ → List ℕ → ℕ
count c [] = 0
count c (d ∷ ds) = (if d == c then 1 else 0) + count c ds

pub record Sound (size : ℕ) (closed : Bool) (active : ℕ) (idle lent : List ℕ) (next : ℕ)
    : Type 0 where
  pub unique : (c : ℕ) → count c idle + count c lent ≤ 1
  pub known : (c : ℕ) → next ≤ c → count c idle + count c lent ≡ 0
  pub capacity : length idle + length lent ≤ size
  pub active_lem : closed ≡ false → active ≡ length lent
  pub closed_lem : closed ≡ true → idle ≡ []

abbrev pub IsValid : World → Type 0
IsValid w =
    Sound w.pool.pool_size w.pool.closed w.pool.active_count w.pool.connections w.lent w.next_object

count-append : (c : ℕ) (xs ys : List ℕ) → count c (xs ++ ys) ≡ count c xs + count c ys
count-append c [] ys = omega arith
count-append c (x ∷ xs) ys = omega (arith, count-append c xs ys)

count-release :
    (d c : ℕ) (xs : List ℕ)
    → holds c xs ≡ true
    → count d xs ≡ (if c == d then 1 else 0) + count d (release c xs)
unfolding holds release
count-release d c [] h = absurd (cc h)
count-release d c (x ∷ xs) h = elim (Bool-cases (x == c)) [
  | inl e ↦ rw (e) (ground arith)
  | inr e ↦ rw (e) (let ih = count-release d c xs (ground arith) in omega (arith, ih))
]

pub length-release :
    (c : ℕ) (xs : List ℕ) → holds c xs ≡ true → length xs ≡ suc (length (release c xs))
unfolding holds release
length-release c [] h = absurd (cc h)
length-release c (x ∷ xs) h = elim (Bool-cases (x == c)) [
  | inl e ↦ rw (e) refl
  | inr e ↦ rw (e) (ap suc (length-release c xs (ground arith)))
]

module _ {size active next c : ℕ} {idle cs lent : List ℕ} (e : idle ≡ c ∷ cs)
    (v : Sound size false active idle lent next) where
  front_lent : Sound size false (suc active) cs (c ∷ lent) next
  front_lent = record {
    unique = λ d. omega (arith, v.unique d, ap (count d) e);
    known = λ d h. omega (arith, v.known d h, ap (count d) e);
    capacity = omega (arith, v.capacity, ap length e);
    active_lem = λ h. ap suc (v.active_lem h);
    closed_lem = λ h. absurd (cc h);
  }

  front_lost : Sound size false active cs lent next
  front_lost = record {
    unique = λ d. omega (arith, v.unique d, ap (count d) e);
    known = λ d h. omega (arith, v.known d h, ap (count d) e);
    capacity = omega (arith, v.capacity, ap length e);
    active_lem = λ h. v.active_lem h;
    closed_lem = λ h. absurd (cc h);
  }

take_front-IsValid :
    (w : World) (k : ℕ) (ping connect : Bool) (idle : List ℕ)
    → w.pool.connections ≡ idle
    → w.pool.closed ≡ false
    → IsValid w
    → IsValid (taken w k (take_front ping connect w.pool idle)).1
unfolding taken take_front
take_front-IsValid w k ping connect [] e f v = v
take_front-IsValid w k ping connect (c ∷ cs) e f v = elim (Bool-cases (ping || connect)) [
  | inl g ↦ rw (g, f) (front_lent e (rw (← f) v))
  | inr g ↦ rw (g, f) (front_lost e (rw (← f) v))
]

take_connection-IsValid :
    (w : World) (k : ℕ) (ping connect : Bool)
    → IsValid w
    → IsValid (taken w k (take_connection ping connect w.pool)).1
unfolding take_connection taken
take_connection-IsValid w k ping connect v =
    elim (Bool-cases (w.pool.closed || is_nil w.pool.connections)) [
      | inl e ↦ rw (e) v
      | inr e ↦ rw (e) (
          unfold taken in
          take_front-IsValid w k ping connect w.pool.connections refl (ground arith) v)
    ]

count-snoc :
    (d x : ℕ) (xs : List ℕ) → count d (xs ++ (x ∷ [])) ≡ count d xs + (if x == d then 1 else 0)
count-snoc d x xs = omega (arith, count-append d xs (x ∷ []))

pub length-snoc : (x : ℕ) (xs : List ℕ) → length (xs ++ (x ∷ [])) ≡ suc (length xs)
length-snoc x xs = omega (arith, length-append xs (x ∷ []))

init_from_lem :
    (i left : ℕ) (pool : MySqlPool)
    → pool.closed ≡ false
    → pool.active_count ≡ 0
    → length pool.connections + left ≤ pool.pool_size
    → ((c : ℕ) → count c pool.connections ≤ 1)
    → ((c : ℕ) → i ≤ c → count c pool.connections ≡ 0)
    → IsValid (record {
      pool = (init_from (λ j. true) i left pool).1;
      lent = [];
      waiting = 0;
      next_object = i + left;
    })
unfolding init_from
init_from_lem i zero pool h a k u b = record {
  unique = λ d. omega (arith, u d);
  known = λ d l. omega (arith, b d (omega arith));
  capacity = omega arith;
  active_lem = λ g. a;
  closed_lem = λ g. absurd (cc);
}
init_from_lem i (suc left) pool h a k u b =
    subst
      (λ n. IsValid (record {
        pool = (init_from (λ j. true) i (suc left) pool).1;
        lent = [];
        waiting = 0;
        next_object = n;
      }))
      (omega arith)
      (init_from_lem (suc i) left (record pool { connections = pool.connections ++ (i ∷ []) }) h a
        (omega (arith, length-snoc i pool.connections))
        (λ d. let q = count-snoc d i pool.connections in let z = b d in let t = u d in ground arith)
        (λ d l.
          let q = count-snoc d i pool.connections in let z = b d (omega arith) in ground arith))

-- The pool that `Init` has made is valid.
pub start-IsValid : (size : ℕ) → IsValid (start size)
unfolding start init create
start-IsValid size =
    subst
      (λ n. IsValid (record {
        pool = (init_from (λ j. true) 0 size (create size)).1;
        lent = [];
        waiting = 0;
        next_object = n;
      }))
      (omega arith)
      (init_from_lem 0 size (create size) refl refl (omega arith) (λ d. omega arith) (λ d h. refl))

module _ {size active next : ℕ} {idle lent : List ℕ} (c : ℕ) (h : holds c lent ≡ true) where
  back_dropped :
      Sound size false active idle lent next
      → Sound size false (active - 1) idle (release c lent) (suc next)
  back_dropped v = record {
    unique = λ d. omega (arith, v.unique d, count-release d c lent h);
    known = λ d l. omega (arith, v.known d (omega arith), count-release d c lent h);
    capacity = omega (arith, v.capacity, length-release c lent h);
    active_lem = λ f. omega (arith, v.active_lem f, length-release c lent h);
    closed_lem = λ f. absurd (cc f);
  }

  back_pushed :
      (x : ℕ)
      → (x ≡ c) ⊎ (x ≡ next)
      → Sound size false active idle lent next
      → Sound size false (active - 1) (idle ++ (x ∷ [])) (release c lent) (suc next)
  back_pushed x o v = record {
    unique = λ d.
        let q = count-snoc d x idle in
        let r = count-release d c lent h in let a = v.unique d in let b = v.known d in ground arith;
    known = λ d l.
        let q = count-snoc d x idle in
        let r = count-release d c lent h in let b = v.known d (omega arith) in ground arith;
    capacity = omega (arith, v.capacity, length-release c lent h, length-snoc x idle);
    active_lem = λ f. omega (arith, v.active_lem f, length-release c lent h);
    closed_lem = λ f. absurd (cc f);
  }

  back_returned :
      (ping connect : Bool)
      → Sound size false active idle lent next
      → Sound size false
          (active - 1)
          (returned c ping connect next idle)
          (release c lent)
          (suc next)
  unfolding returned
  back_returned ping connect v =
      let P : List ℕ → Type 0 =
        λ xs. Sound size false (active - 1) xs (release c lent) (suc next) in
      if-cases P ping (λ _. back_pushed c (inl refl) v)
        (λ _. if-cases P connect (λ _. back_pushed next (inr refl) v) (λ _. back_dropped v))

  back_closed :
      Sound size true active idle lent next
      → Sound size true active idle (release c lent) (suc next)
  back_closed v = record {
    unique = λ d. omega (arith, v.unique d, count-release d c lent h);
    known = λ d l. omega (arith, v.known d (omega arith), count-release d c lent h);
    capacity = omega (arith, v.capacity, length-release c lent h);
    active_lem = λ f. absurd (cc f);
    closed_lem = v.closed_lem;
  }

return_connection-IsValid :
    (w : World) (c : ℕ) (ping connect : Bool)
    → holds c w.lent ≡ true
    → IsValid w
    → IsValid (record w {
      pool = return_connection c ping connect w.next_object w.pool;
      lent = release c w.lent;
      next_object = suc w.next_object;
    })
unfolding return_connection
return_connection-IsValid w c ping connect h v =
    let P : MySqlPool → Type 0 = λ p.
      IsValid (record w { pool = p; lent = release c w.lent; next_object = suc w.next_object }) in
    if-cases P w.pool.closed (λ e. rw (e) (back_closed c h (rw (← e) v)))
      (λ e. rw (e) (back_returned c h ping connect (rw (← e) v)))

step-IsValid : (e : Event) (w : World) → IsValid w → IsValid (step w e).1
unfolding step close
step-IsValid (get ping connect) w v =
    if-cases (λ (r : Option ℕ × World). IsValid r.1) w.pool.closed (λ e. v)
      (λ e.
        if-cases (λ (r : Option ℕ × World). IsValid r.1) (wait_predicate w.pool)
          (λ f. take_connection-IsValid w w.waiting ping connect v) (λ f. v))
step-IsValid (wake ping connect) w v =
    if-cases (λ (r : Option ℕ × World). IsValid r.1)
      ((w.waiting == 0) || not (wait_predicate w.pool)) (λ e. v)
      (λ e. take_connection-IsValid w (w.waiting - 1) ping connect v)
step-IsValid expire w v = v
step-IsValid (give_back c ping connect) w v =
    if-cases (λ (r : Option ℕ × World). IsValid r.1) (holds c w.lent)
      (λ e. return_connection-IsValid w c ping connect e v) (λ e. v)
step-IsValid shut w v = record {
  unique = λ d. omega (arith, v.unique d);
  known = λ d l. omega (arith, v.known d l);
  capacity = omega (arith, v.capacity);
  active_lem = λ f. absurd (cc f);
  closed_lem = λ f. refl;
}

after-IsValid : (es : List Event) (w : World) → IsValid w → IsValid (after w es)
unfolding after
after-IsValid [] w v = v
after-IsValid (e ∷ es) w v = after-IsValid es (step w e).1 (step-IsValid e w v)

-- After every history of calls on a pool of `size` connections that `Init` has made, no connection is
-- in two places, at most `size` of them exist, `active_count_` is the number that are lent while the
-- pool is open, and a closed pool keeps none.
pub after-start : (size : ℕ) (es : List Event) → IsValid (after (start size) es)
after-start size es = after-IsValid es (start size) (start-IsValid size)
