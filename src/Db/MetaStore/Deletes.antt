-- ===== src/Db/MetaStore/Deletes.antt =====
-- `DeleteObjectWithRefCount`.
use zls.Base.{◌≡◌, ◌⊎◌, inl, inr, refl, sym, ap, ◌∙◌, Bool, true, false, Option, none, some, ℕ}
use zls.Base.Bytes.{Bytes}
use zls.Base.Tables.{row_of, remove_row}
use zls.Db.Sql.{ObjectKey, ObjectRow, object_key_test, Tables, delete_object, perform}
use zls.Db.Transaction.{Server, Session, tx_execute, transaction, not_found}
use zls.Db.Transaction.Triples.{
  IsSteady, IsClosed, Triple, After-transaction, Triple-bind, Triple-weaken, Triple-fact,
  Triple-assume, Triple-raise, Triple-tx_execute, Triple-tx_query,
}
use zls.Db.MetaStore.{delete_row, delete_counted, delete_object_with_ref_count}
use zls.Db.MetaStore.Counts.{ref_count, Holds, Holds-start, dropped, IsCandidate, Triple-drop}
use zls.Db.MetaStore.Attempts.{Called, Attempted-After, Called-report}
use zls.Db.MetaStore.Balance.{Surplus, Surplus-remove_object}

-- The object was there and is not any more; nothing else has gone.
pub record IsDeleted (surplus : Bytes → ℕ) (k : ObjectKey) (t : Tables) (c : Option Bytes)
    (u : Tables) : Type 0 where
  pub balanced : Surplus surplus u
  pub row : ObjectRow
  pub was_there : row_of k t.objects ≡ some row
  pub objects_are : u.objects ≡ remove_row k t.objects
  pub parts_are : u.parts ≡ t.parts
  pub candidate : IsCandidate c u

-- The deletion has taken place or it has not.
pub record IsKept (surplus : Bytes → ℕ) (k : ObjectKey) (t u : Tables) : Type 0 where
  pub balanced : Surplus surplus u
  pub objects_are : (u.objects ≡ t.objects) ⊎ (u.objects ≡ remove_row k t.objects)
  pub parts_are : u.parts ≡ t.parts

module _ (k : ObjectKey) (t : Tables) where
  abbrev Removed : ObjectRow → Tables → Type 0
  Removed r u =
      Holds (remove_row k t.objects) t.parts (dropped r.cas_key (λ cas. ref_count cas t)) u

  -- The row that was read, and what becomes of it.
  abbrev Gone : Option Bytes → Tables → Type 0
  Gone c u = (r : ObjectRow) × ((row_of k t.objects ≡ some r) × Removed r u × IsCandidate c u)

  module _ (server : Server) where
    remove_written :
        Triple
          (λ u. u ≡ t)
          (tx_execute server (delete_object k))
          (λ _ u. Holds (remove_row k t.objects) t.parts (λ cas. ref_count cas t) u)
    unfolding perform ref_count
    remove_written = Triple-tx_execute server (delete_object k) λ u e.
        let h : Holds t.objects t.parts (λ cas. ref_count cas t) u = Holds-start t e in
        record {
          objects_are = ap (remove_row k) h.objects_are;
          parts_are = h.parts_are;
          counts = h.counts;
        }

    Triple-delete_row :
        (o : Option ObjectRow)
        → o ≡ row_of k t.objects
        → Triple (λ u. u ≡ t) (delete_row server k o) Gone
    unfolding delete_row
    Triple-delete_row none e = Triple-raise not_found
    Triple-delete_row (some r) e =
        Triple-bind remove_written
          λ _. Triple-weaken (Triple-drop server r.cas_key) λ c u h. (r, (sym e, h.0, h.1))

    Triple-delete_counted : Triple (λ u. u ≡ t) (delete_counted server k) Gone
    unfolding delete_counted
    Triple-delete_counted = Triple-bind (Triple-tx_query server (λ u. row_of k u.objects)) λ o.
        Triple-fact {F = o ≡ row_of k t.objects}
          (λ u h. h.1 ∙ ap (λ (v : Tables). row_of k v.objects) h.0)
          λ e. Triple-assume (λ u h. h.0) (Triple-delete_row o e)

module _ (server : Server) (steady : IsSteady server) where
  -- `DeleteObjectWithRefCount`, at a server that opens and rolls back transactions and refuses other
  -- statements and commits as it likes: no transaction is left open; whatever is reported, the
  -- surplus of every blob is what it was, and no row but the object's may be missing; and when it
  -- reports success, the object was there and its row is removed, and a blob for the garbage
  -- collector has no references.
  pub delete_object-IsDeleted :
      (connected : Bool) (surplus : Bytes → ℕ) (k : ObjectKey) (t : Tables) (s : Session)
      → IsClosed t s
      → Surplus surplus t
      → Called
          (IsKept surplus k t)
          (IsDeleted surplus k t)
          (delete_object_with_ref_count server connected k s)
  unfolding delete_object_with_ref_count
  delete_object-IsDeleted false surplus k t s closed h =
      (t, (closed, record { balanced = h; objects_are = inl refl; parts_are = refl }))
  delete_object-IsDeleted true surplus k t s closed h =
      Called-report (IsKept surplus k t) (IsDeleted surplus k t)
        (transaction server (delete_counted server k) s)
        (Attempted-After (IsKept surplus k t) (IsDeleted surplus k t) t
          (transaction server (delete_counted server k) s)
          (λ c u d. record {
            balanced = d.balanced;
            objects_are = inr d.objects_are;
            parts_are = d.parts_are;
          })
          (record { balanced = h; objects_are = inl refl; parts_are = refl })
          (After-transaction steady
            (Triple-weaken (Triple-delete_counted k t server) λ c u (r, (e, w, i)). record {
              balanced = Surplus-remove_object surplus t u k r e w h;
              row = r;
              was_there = e;
              objects_are = w.objects_are;
              parts_are = w.parts_are;
              candidate = i;
            })
            refl s closed))
