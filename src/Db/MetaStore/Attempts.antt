-- ===== src/Db/MetaStore/Attempts.antt =====
-- Attempts that may be repeated, and a property that each of them keeps.
use zls.Base.{ℕ, zero, suc, Bool, ◌&&◌, inl, inr, subst, sym, if-cases, ltb}
use zls.Db.Sql.{Tables}
use zls.Db.Transaction.{Session, Answer, raised, returned, Exec}
use zls.Db.Transaction.Triples.{IsClosed, After}
use zls.Db.MetaStore.{text_of, is_retryable, next_attempt, retry, report}
use zls.Util.Status.{Result, value, failed}

-- After a failure `Inv` holds of what is committed, after an answer `Done`.
abbrev pub Attempted :
    {A : Type 0} → (Tables → Type 0) → (A → Tables → Type 0) → Answer A × Session → Type 0
Attempted Inv Done (raised f, s) = (t : Tables) × (IsClosed t s × Inv t)
Attempted Inv Done (returned a, s) = (t : Tables) × (IsClosed t s × Done a t)

abbrev pub Called :
    {A : Type 0} → (Tables → Type 0) → (A → Tables → Type 0) → Result A × Session → Type 0
Called Inv Done (failed e, s) = (t : Tables) × (IsClosed t s × Inv t)
Called Inv Done (value a, s) = (t : Tables) × (IsClosed t s × Done a t)

module _ {A : Type 0} (Inv : Tables → Type 0) (Done : A → Tables → Type 0) where
  pub Attempted-After :
      (t : Tables) (r : Answer A × Session)
      → ((a : A) (u : Tables) → Done a u → Inv u)
      → Inv t
      → After Done t r
      → Attempted Inv Done r
  Attempted-After t (raised f, s) k i (u, (closed, inl e)) = (u, (closed, subst Inv (sym e) i))
  Attempted-After t (raised f, s) k i (u, (closed, inr (a, d))) = (u, (closed, k a u d))
  Attempted-After t (returned a, s) k i (u, (closed, d)) = (u, (closed, d))

  pub Called-report :
      (r : Answer A × Session) → Attempted Inv Done r → Called Inv Done (report r.0, r.1)
  unfolding report
  Called-report (raised f, s) h = h
  Called-report (returned a, s) h = h

  Called-next :
      (more : Bool) (again : Session → Result A × Session) (r : Answer A × Session)
      → ((t : Tables) (s : Session) → IsClosed t s → Inv t → Called Inv Done (again s))
      → Attempted Inv Done r
      → Called Inv Done (next_attempt more again r.0 r.1)
  unfolding next_attempt
  Called-next more again (returned a, s) k h = h
  Called-next more again (raised f, s) k (t, (closed, i)) =
      if-cases (Called Inv Done) (more && is_retryable (text_of f)) (λ _. k t s closed i)
        λ _. (t, (closed, i))

  -- The loop ends after the attempts it is given, and what an attempt keeps it keeps.
  pub Called-retry :
      (attempt : Exec A)
      → ((t : Tables) (s : Session) → IsClosed t s → Inv t → Attempted Inv Done (attempt s))
      → (n : ℕ) (t : Tables) (s : Session) → IsClosed t s
      → Inv t
      → Called Inv Done (retry attempt n s)
  unfolding retry
  Called-retry attempt k zero t s closed i = (t, (closed, i))
  Called-retry attempt k (suc n) t s closed i =
      Called-next (ltb 0 n) (retry attempt n) (attempt s) (Called-retry attempt k n)
        (k t s closed i)
