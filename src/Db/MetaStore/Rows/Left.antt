-- ===== src/Db/MetaStore/Rows/Left.antt =====
-- What a statement leaves committed outside a transaction.
use zls.Base.{◌≡◌, refl, sym, ap, subst, Bool, true, false, Option, none, some}
use zls.Base.Bytes.{Bytes}
use zls.Db.Sql.{Tables, Sql, select, Effect, refused, changed, perform}
use zls.Db.Transaction.{
  Server, Session, Answer, raised, returned, execute, query, run_sql, read, settle, keep, tick,
}
use zls.Db.Transaction.Triples.{IsClosed, Accepted}
use zls.Db.MetaStore.Rows.{execute_status}
use zls.Util.Status.{Status}

pub IsClosed-tick : {t : Tables} {s : Session} → IsClosed t s → IsClosed t (tick s)
unfolding tick
IsClosed-tick c = record {
  committed_is = c.committed_is;
  working_is = c.working_is;
  is_closed = c.is_closed;
}

-- A query answers from what is committed, and changes nothing.
abbrev pub Asked : {A : Type 0} → (Tables → A) → Tables → Answer A × Session → Type 0
Asked f t (raised e, s) = IsClosed t s
Asked f t (returned a, s) = IsClosed t s × (a ≡ f t)

Asked-read :
    {A : Type 0} (f : Tables → A) (answer : Option Bytes) (t : Tables) (s : Session)
    → IsClosed t s
    → Asked f t (read answer f s)
unfolding read
Asked-read f none t s closed = (IsClosed-tick closed, ap f closed.working_is)
Asked-read f (some e) t s closed = IsClosed-tick closed

pub Asked-query :
    {A : Type 0} (server : Server) (f : Tables → A) (t : Tables) (s : Session)
    → IsClosed t s
    → Asked f t (query server f s)
unfolding query
Asked-query server f t s closed = Asked-read f (server.answer s.clock select) t s closed

module _ (P : Tables → Type 0) where
  abbrev pub Left : Session → Type 0
  Left s = (t : Tables) × (IsClosed t s × P t)

  Left-settle :
      (e : Effect) (t : Tables) (s : Session)
      → IsClosed t s
      → P t
      → Accepted P e
      → Left (settle e s).1
  unfolding settle keep
  Left-settle (refused x) t s closed h a = (t, (closed, h))
  Left-settle (changed u) t s closed h a = (
    u,
    (
      record {
        committed_is = rw (closed.is_closed);
        working_is = refl;
        is_closed = closed.is_closed;
      },
      a,
    ),
  )

  Left-run_sql :
      (answer : Option Bytes) (q : Sql) (t : Tables) (s : Session)
      → IsClosed t s
      → P t
      → Accepted P (perform q t)
      → Left (run_sql answer q s).1
  unfolding run_sql
  Left-run_sql (some x) q t s closed h a = (t, (IsClosed-tick closed, h))
  Left-run_sql none q t s closed h a =
      Left-settle (perform q s.working) t (tick s) (IsClosed-tick closed) h
        (subst (λ w. Accepted P (perform q w)) (sym closed.working_is) a)

  module _ (server : Server) where
    pub Left-execute :
        (q : Sql) (t : Tables) (s : Session)
        → IsClosed t s
        → P t
        → Accepted P (perform q t)
        → Left (execute server q s).1
    unfolding execute
    Left-execute q t s closed h a = Left-run_sql (server.answer s.clock q) q t s closed h a

    pub Left-status :
        (connected : Bool) (missing : Option Status) (q : Sql) (t : Tables) (s : Session)
        → IsClosed t s
        → P t
        → Accepted P (perform q t)
        → Left (execute_status server connected missing q s).1
    unfolding execute_status
    Left-status false missing q t s closed h a = (t, (closed, h))
    Left-status true missing q t s closed h a = Left-execute q t s closed h a
