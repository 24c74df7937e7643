-- ===== src/Db/Transaction/Triples.antt =====
-- Rules for what the statements of a transaction's body leave behind, and the transaction with them.
use zls.Base.{
  ℕ, ◌≡◌, ◌⊎◌, inl, inr, refl, sym, ap, subst, Bool, true, false, Option, none, some, if◌then◌else◌,
  if-false,
}
use zls.Base.Bytes.{Bytes}
use zls.Db.Sql.{
  Tables, Sql, start_transaction, rollback_work, commit_work, select, Effect, refused, changed,
  perform,
}
use zls.Db.Transaction.{
  Server, Session, Failure, Answer, raised, returned, Exec, pure, raise, continue, ◌>>=◌, tick,
  keep, settle, run_sql, read, execute, query, tx_execute, tx_query, started, rolled_back, ended,
  begin, rollback, destroy, commit, commit_answer, conclude, transaction,
}

-- A transaction is open on the tables `t`, and `c` is committed.
pub record IsOpen (c t : Tables) (s : Session) : Type 0 where
  pub committed_is : s.committed ≡ c
  pub working_is : s.working ≡ t
  pub is_open : s.in_transaction ≡ true
  pub unfinished : s.finished ≡ false

-- No transaction is open, and `t` is committed.
pub record IsClosed (t : Tables) (s : Session) : Type 0 where
  pub committed_is : s.committed ≡ t
  pub working_is : s.working ≡ t
  pub is_closed : s.in_transaction ≡ false

-- The server opens and rolls back transactions when it is asked to; it may refuse all else.
pub record IsSteady (server : Server) : Type 0 where
  pub starts : (n : ℕ) → server.answer n start_transaction ≡ none
  pub rolls_back : (n : ℕ) → server.answer n rollback_work ≡ none

-- The transaction stays open, and an answer comes with `Q`.
abbrev pub Post : {A : Type 0} → (A → Tables → Type 0) → Tables → Answer A × Session → Type 0
Post Q c (raised f, s) = (t : Tables) × IsOpen c t s
Post Q c (returned a, s) = (t : Tables) × (IsOpen c t s × Q a t)

pub record Triple {A : Type 0} (P : Tables → Type 0) (m : Exec A) (Q : A → Tables → Type 0)
    : Type 0 where
  pub at : (c t : Tables) (s : Session) → IsOpen c t s → P t → Post Q c (m s)

-- What holds if a statement is accepted.
abbrev pub Accepted : (Tables → Type 0) → Effect → Type 0
Accepted Q (refused e) = Unit {0}
Accepted Q (changed t) = Q t

-- What holds after a transaction on `t`: it has taken place, or, after a failure, perhaps not.
abbrev pub After : {A : Type 0} → (A → Tables → Type 0) → Tables → Answer A × Session → Type 0
After {A = A} Q t (raised f, s) = (t' : Tables) × (IsClosed t' s × ((t' ≡ t) ⊎ ((a : A) × Q a t')))
After Q t (returned a, s) = (t' : Tables) × (IsClosed t' s × Q a t')

ticked : {c t : Tables} {s : Session} → IsOpen c t s → IsOpen c t (tick s)
unfolding tick
ticked o = record {
  committed_is = o.committed_is;
  working_is = o.working_is;
  is_open = o.is_open;
  unfinished = o.unfinished;
}

kept : {c t : Tables} {s : Session} (t' : Tables) → IsOpen c t s → IsOpen c t' (keep t' s)
unfolding keep
kept t' o = record {
  committed_is = rw (o.is_open) (o.committed_is);
  working_is = refl;
  is_open = o.is_open;
  unfinished = o.unfinished;
}

module _ {A : Type 0} {P : Tables → Type 0} where
  pub Triple-pure : (a : A) → Triple P (pure a) (λ b t. P t × (b ≡ a))
  unfolding pure
  Triple-pure a = record { at = λ c t s o p. (t, (o, (p, refl))) }

  pub Triple-raise : {Q : A → Tables → Type 0} (f : Failure) → Triple P (raise f) Q
  unfolding raise
  Triple-raise f = record { at = λ c t s o p. (t, o) }

  pub Triple-weaken :
      {Q R : A → Tables → Type 0} {m : Exec A}
      → Triple P m Q
      → ((a : A) (t : Tables) → Q a t → R a t)
      → Triple P m R
  Triple-weaken {Q} {R} {m} k f = record { at = λ c t s o p. weaken c (m s) (k.at c t s o p) }
    where
      weaken : (c : Tables) (r : Answer A × Session) → Post Q c r → Post R c r
      weaken c (raised e, s) h = h
      weaken c (returned a, s) (t, (o, q)) = (t, (o, f a t q))

  -- A precondition that gives a fact about the arguments.
  pub Triple-fact :
      {F : Type 0} {Q : A → Tables → Type 0} {m : Exec A}
      → ((t : Tables) → P t → F)
      → (F → Triple P m Q)
      → Triple P m Q
  Triple-fact f k = record { at = λ c t s o p. (k (f t p)).at c t s o p }

  pub Triple-assume :
      {R : Tables → Type 0} {Q : A → Tables → Type 0} {m : Exec A}
      → ((t : Tables) → R t → P t)
      → Triple P m Q
      → Triple R m Q
  Triple-assume f k = record { at = λ c t s o p. k.at c t s o (f t p) }

  pub Triple-if :
      {Q : A → Tables → Type 0} (b : Bool) {m n : Exec A}
      → (b ≡ true → Triple P m Q)
      → (b ≡ false → Triple P n Q)
      → Triple P (if b then m else n) Q
  Triple-if true k l = k refl
  Triple-if false k l = l refl

Post-read :
    {A : Type 0} (P : Tables → Type 0) (f : Tables → A) (answer : Option Bytes) (c t : Tables)
    (s : Session)
    → IsOpen c t s
    → P t
    → Post (λ a u. P u × (a ≡ f u)) c (read answer f s)
unfolding read
Post-read P f none c t s o p = (t, (ticked o, (p, ap f o.working_is)))
Post-read P f (some e) c t s o p = (t, ticked o)

Post-settle :
    (Q : Tables → Type 0) (e : Effect) (c t : Tables) (s : Session)
    → IsOpen c t s
    → Accepted Q e
    → Post (λ _ u. Q u) c (settle e s)
unfolding settle
Post-settle Q (refused e) c t s o h = (t, o)
Post-settle Q (changed t') c t s o h = (t', (kept t' o, h))

Post-run_sql :
    (Q : Tables → Type 0) (answer : Option Bytes) (q : Sql) (c t : Tables) (s : Session)
    → IsOpen c t s
    → Accepted Q (perform q t)
    → Post (λ _ u. Q u) c (run_sql answer q s)
unfolding run_sql
Post-run_sql Q none q c t s o h =
    Post-settle Q (perform q s.working) c t (tick s) (ticked o)
      (subst (λ w. Accepted Q (perform q w)) (sym o.working_is) h)
Post-run_sql Q (some e) q c t s o h = (t, ticked o)

pub Triple-tx_query :
    {A : Type 0} {P : Tables → Type 0} (server : Server) (f : Tables → A)
    → Triple P (tx_query server f) (λ a t. P t × (a ≡ f t))
unfolding tx_query query
Triple-tx_query {P} server f = record {
  at = λ c t s o p.
      if-false (Post (λ a u. P u × (a ≡ f u)) c) s.finished _ o.unfinished
        (Post-read P f (server.answer s.clock select) c t s o p);
}

pub Triple-tx_execute :
    {P Q : Tables → Type 0} (server : Server) (q : Sql)
    → ((t : Tables) → P t → Accepted Q (perform q t))
    → Triple P (tx_execute server q) (λ _ t. Q t)
unfolding tx_execute execute
Triple-tx_execute {Q} server q h = record {
  at = λ c t s o p.
      if-false (Post (λ _ u. Q u) c) s.finished _ o.unfinished
        (Post-run_sql Q (server.answer s.clock q) q c t s o (h t p));
}

module _ {A B : Type 0} {P : Tables → Type 0} {Q : A → Tables → Type 0}
    {R : B → Tables → Type 0} where
  pub Triple-bind :
      {m : Exec A} {g : A → Exec B}
      → Triple P m Q
      → ((a : A) → Triple (Q a) (g a) R)
      → Triple P (m >>= g) R
  unfolding ◌>>=◌ continue
  Triple-bind {m} {g} k l = record { at = λ c t s o p. next c (m s) (k.at c t s o p) }
    where
      next :
          (c : Tables) (r : Answer A × Session)
          → Post Q c r
          → Post R c (let (x, s') = r in continue x g s')
      next c (raised e, s) h = h
      next c (returned a, s) (t, (o, q)) = (l a).at c t s o q

rolled_back-IsClosed :
    (answer : Option Bytes) {c : Tables} (s : Session)
    → answer ≡ none
    → s.committed ≡ c
    → IsClosed c (rolled_back answer s)
unfolding rolled_back
rolled_back-IsClosed none s e h = record { committed_is = h; working_is = h; is_closed = refl }
rolled_back-IsClosed (some x) s e h = absurd (cc e)

opened_by_start :
    (answer : Option Bytes) {t : Tables} (s : Session)
    → answer ≡ none
    → s.working ≡ t
    → s.finished ≡ false
    → IsOpen t t (started answer s)
unfolding started
opened_by_start none s e h f = record {
  committed_is = h;
  working_is = h;
  is_open = refl;
  unfinished = f;
}
opened_by_start (some x) s e h f = absurd (cc e)

module _ {server : Server} (steady : IsSteady server) where
  destroy-open : {c t : Tables} (s : Session) → IsOpen c t s → IsClosed c (destroy server s)
  unfolding destroy rollback tick
  destroy-open {c} s o = if-false (IsClosed c) s.finished _ o.unfinished (
      if-false (IsClosed c) s.finished _ o.unfinished (
        rolled_back-IsClosed (server.answer s.clock rollback_work)
          (tick (record s { finished = true })) (steady.rolls_back s.clock) o.committed_is))

  begin-open : {t : Tables} (s : Session) → IsClosed t s → IsOpen t t (begin server s)
  unfolding begin tick
  begin-open s k =
      opened_by_start (server.answer s.clock start_transaction)
        (tick (record s { finished = false })) (steady.starts s.clock) k.working_is refl

  module _ {A : Type 0} (Q : A → Tables → Type 0) {t u : Tables} where
    After-ended :
        (a : A) (answer : Option Bytes) (landed : Bool) (s : Session)
        → IsOpen t u s
        → Q a u
        → After Q t (
          commit_answer a answer,
          destroy server (ended answer landed (tick (record s { finished = true }))),
        )
    unfolding commit_answer destroy ended tick
    After-ended a none landed s o q = (
      u,
      (record { committed_is = o.working_is; working_is = o.working_is; is_closed = refl }, q),
    )
    After-ended a (some e) true s o q = (
      u,
      (
        record { committed_is = o.working_is; working_is = o.working_is; is_closed = refl },
        inr (a, q),
      ),
    )
    After-ended a (some e) false s o q = (
      t,
      (
        record { committed_is = o.committed_is; working_is = o.committed_is; is_closed = refl },
        inl refl,
      ),
    )

  module _ {A : Type 0} (Q : A → Tables → Type 0) (t : Tables) where
    After-conclude : (r : Answer A × Session) → Post Q t r → After Q t (conclude server r.0 r.1)
    unfolding conclude commit
    After-conclude (raised f, s) (u, o) = (t, (destroy-open s o, inl refl))
    After-conclude (returned a, s) (u, (o, q)) =
        if-false
          (λ (r : Option Bytes × Session). After Q t (commit_answer a r.0, destroy server r.1))
          s.finished _ o.unfinished
          (After-ended Q a (server.answer s.clock commit_work) (server.landed s.clock) s o q)

  -- A transaction takes place as a whole or not at all, whatever the server refuses.
  pub After-transaction :
      {A : Type 0} {P : Tables → Type 0} {Q : A → Tables → Type 0} {body : Exec A} {t : Tables}
      → Triple P body Q
      → P t
      → (s : Session) → IsClosed t s
      → After Q t (transaction server body s)
  unfolding transaction
  After-transaction {Q} {body} {t} k p s h =
      After-conclude Q t (body (begin server s)) (k.at t t (begin server s) (begin-open s h) p)
