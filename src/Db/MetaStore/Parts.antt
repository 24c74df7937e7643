-- ===== src/Db/MetaStore/Parts.antt =====
-- `PutPartWithRefCount`.
use zls.Base.{◌≡◌, refl, ap, subst, ◌∙◌, Bool, true, false, Option, some, ℕ}
use zls.Base.Bytes.{Bytes}
use zls.Base.Tables.{row_of, put_row, remove_row, row_of-put_row_self, remove_row-put_row}
use zls.Db.Sql.{PartKey, PartRow, part_key_test, Tables, upsert_part, perform}
use zls.Db.Transaction.{Server, Session, tx_execute, transaction}
use zls.Db.Transaction.Triples.{
  IsSteady, IsClosed, Triple, After-transaction, Triple-bind, Triple-weaken, Triple-fact,
  Triple-assume, Triple-tx_execute, Triple-tx_query,
}
use zls.Db.MetaStore.{cas_of_part, put_part, put_part_with_ref_count, max_retries}
use zls.Db.MetaStore.Counts.{
  ref_count, Holds, Holds-start, moved, IsCandidate, IsCandidate-blobs, Triple-handed, Triple-move,
}
use zls.Db.MetaStore.Attempts.{Called, Attempted-After, Called-retry}
use zls.Db.MetaStore.Balance.{Surplus, Surplus-put_part}

-- The surplus of each blob is `surplus`, and but for the part `k` the rows are those of `t`.
pub record IsKept (surplus : Bytes → ℕ) (k : PartKey) (t u : Tables) : Type 0 where
  pub balanced : Surplus surplus u
  pub others_are : remove_row k u.parts ≡ remove_row k t.parts
  pub objects_are : u.objects ≡ t.objects

-- The part is there as it was put, and a candidate for the garbage collector has no references.
pub record IsStored (surplus : Bytes → ℕ) (k : PartKey) (r : PartRow) (t : Tables)
    (c : Option Bytes) (u : Tables) : Type 0 where
  pub kept : IsKept surplus k t u
  pub is_there : row_of k u.parts ≡ some r
  pub candidate : IsCandidate c u

module _ (surplus : Bytes → ℕ) (k : PartKey) (r : PartRow) (t0 t : Tables) where
  -- The rows and the counts before and after the part is written.
  abbrev Counted : Bytes → Tables → Type 0
  Counted old u = Holds t.objects t.parts (moved old r.cas_key (λ cas. ref_count cas t)) u

  abbrev Written : Tables → Type 0
  Written u =
      Holds t.objects (put_row k r t.parts)
        (moved (cas_of_part (row_of k t.parts)) r.cas_key (λ cas. ref_count cas t)) u

  IsStored-Written :
      (c : Option Bytes) (u : Tables)
      → IsKept surplus k t0 t
      → Written u
      → IsCandidate c u
      → IsStored surplus k r t0 c u
  IsStored-Written c u h w i = record {
    kept = record {
      balanced = Surplus-put_part surplus t u k r w h.balanced;
      others_are = ap (remove_row k) w.parts_are ∙ remove_row-put_row k r t.parts ∙ h.others_are;
      objects_are = w.objects_are ∙ h.objects_are;
    };
    is_there = ap (row_of k) w.parts_are ∙ row_of-put_row_self k r t.parts;
    candidate = i;
  }

  module _ (server : Server) where
    upsert-Written :
        (old : Bytes) (c : Option Bytes)
        → old ≡ cas_of_part (row_of k t.parts)
        → Triple
            (λ u. Counted old u × IsCandidate c u)
            (tx_execute server (upsert_part k r))
            (λ _ u. Written u × IsCandidate c u)
    unfolding perform ref_count
    upsert-Written old c e = Triple-tx_execute server (upsert_part k r) λ u h. (
      record {
        objects_are = h.0.objects_are;
        parts_are = ap (put_row k r) h.0.parts_are;
        counts = λ cas.
            subst (λ w. ref_count cas u ≡ moved w r.cas_key (λ x. ref_count x t) cas) e
              (h.0.counts cas);
      },
      IsCandidate-blobs c u _ refl h.1,
    )

    Triple-put_part : Triple (λ u. u ≡ t) (put_part server k r) (λ c u. Written u × IsCandidate c u)
    unfolding put_part
    Triple-put_part =
        Triple-bind (Triple-tx_query server (λ u. cas_of_part (row_of k u.parts))) λ old.
          Triple-fact {F = old ≡ cas_of_part (row_of k t.parts)}
            (λ u h. h.1 ∙ ap (λ (v : Tables). cas_of_part (row_of k v.parts)) h.0)
            λ e.
              Triple-bind
                (Triple-assume (λ u h. Holds-start t h.0) (Triple-move server old r.cas_key r.size))
                λ c. Triple-bind (upsert-Written old c e) λ _. Triple-handed c

module _ (server : Server) (steady : IsSteady server) where
  -- `PutPartWithRefCount`, at a server that opens and rolls back transactions and refuses other
  -- statements and commits as it likes: no transaction is left open; whatever is reported, the
  -- surplus of every blob is what it was, and no other row has changed; and when it reports success,
  -- the part is there as it was put, and a blob for the garbage collector has no references.
  pub put_part-IsStored :
      (connected : Bool) (surplus : Bytes → ℕ) (k : PartKey) (r : PartRow) (t : Tables)
      (s : Session)
      → IsClosed t s
      → Surplus surplus t
      → Called
          (IsKept surplus k t)
          (IsStored surplus k r t)
          (put_part_with_ref_count server connected k r s)
  unfolding put_part_with_ref_count
  put_part-IsStored false surplus k r t s closed h =
      (t, (closed, record { balanced = h; others_are = refl; objects_are = refl }))
  put_part-IsStored true surplus k r t0 s closed h =
      Called-retry (IsKept surplus k t0) (IsStored surplus k r t0)
        (transaction server (put_part server k r))
        (λ t s' c i.
          Attempted-After (IsKept surplus k t0) (IsStored surplus k r t0) t
            (transaction server (put_part server k r) s') (λ _ u d. d.kept) i
            (After-transaction steady
              (Triple-weaken (Triple-put_part surplus k r t0 t server)
                λ d u w. IsStored-Written surplus k r t0 t d u i w.0 w.1)
              refl s' c))
        max_retries t0 s closed (record { balanced = h; others_are = refl; objects_are = refl })
