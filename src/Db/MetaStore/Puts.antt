-- ===== src/Db/MetaStore/Puts.antt =====
-- `PutObjectWithRefCount`, for names that the unique key of the table tells apart.
use zls.Base.{ℕ, ◌≡◌, refl, sym, ap, subst, ◌∙◌, Bool, true, false, Option, none, some, if-cases}
use zls.Base.Bytes.{Bytes, is_empty}
use zls.Base.Tables.{row_of, put_row, remove_row, row_of-put_row_self, remove_row-put_row}
use zls.Db.Sql.{
  ObjectKey, ObjectRow, object_key_test, Tables, insert_object, upsert_object, perform,
  insert_object_row, row_by_unique_key, overwrite_by_unique_key,
}
use zls.Db.Transaction.{
  Server, Session, Answer, raised, returned, statement_failed, duplicate_key, commit_failed,
  not_found, Exec, tx_execute, transaction,
}
use zls.Db.Transaction.Triples.{
  IsSteady, IsClosed, Triple, Post, Accepted, After-transaction, Triple-pure, Triple-bind,
  Triple-weaken, Triple-fact, Triple-assume, Triple-tx_execute, Triple-tx_query,
}
use zls.Db.MetaStore.{
  cas_of_object, mark_duplicate, is_duplicate, insert_or_mark, insert_object_fast, overwrite_object,
  after_fast, put_object_attempt, put_object_with_ref_count, max_retries,
}
use zls.Db.MetaStore.Counts.{
  ref_count, Holds, Holds-start, added, moved, IsCandidate, IsCandidate-blobs, Triple-handed,
  Triple-add, Triple-move,
}
use zls.Db.MetaStore.Attempts.{Attempted, Called, Attempted-After, Called-retry}
use zls.Db.MetaStore.Names.{IsApart, IsApart-kept, row_by_unique_key-IsApart, overwrite-IsApart}
use zls.Db.MetaStore.Balance.{Surplus, Surplus-put_object}

-- The surplus of each blob is `surplus`, and but for the object `k` the rows are those of `t`.
pub record IsKept (surplus : Bytes → ℕ) (k : ObjectKey) (t u : Tables) : Type 0 where
  pub balanced : Surplus surplus u
  pub others_are : remove_row k u.objects ≡ remove_row k t.objects
  pub parts_are : u.parts ≡ t.parts

-- The object is there as it was put, and a candidate for the garbage collector has no references.
pub record IsStored (surplus : Bytes → ℕ) (k : ObjectKey) (r : ObjectRow) (t : Tables)
    (c : Option Bytes) (u : Tables) : Type 0 where
  pub kept : IsKept surplus k t u
  pub is_there : row_of k u.objects ≡ some r
  pub candidate : IsCandidate c u

-- A new row's blob gets a reference, and no other loses one.
added-moved :
    (o : Option ObjectRow) (cas x : Bytes) (count : Bytes → ℕ)
    → o ≡ none
    → added cas count x ≡ moved (cas_of_object o) cas count x
unfolding moved cas_of_object is_empty
added-moved none cas x count e = refl
added-moved (some w) cas x count e = absurd (cc e)

module _ {A : Type 0} (Q : A → Tables → Type 0) where
  pub Post-mark :
      (c : Tables) (r : Answer A) (s : Session) → Post Q c (r, s) → Post Q c (mark_duplicate r, s)
  unfolding mark_duplicate
  Post-mark c (raised (statement_failed e)) s h =
      if-cases (λ (r : Answer A). Post Q c (r, s)) (is_duplicate e) (λ _. h) (λ _. h)
  Post-mark c (raised (duplicate_key e)) s h = h
  Post-mark c (raised (commit_failed e)) s h = h
  Post-mark c (raised not_found) s h = h
  Post-mark c (returned a) s h = h

module _ (surplus : Bytes → ℕ) (k : ObjectKey) (r : ObjectRow) (t0 t : Tables) where
  -- The rows and the counts after the object is written.
  abbrev Written : Tables → Type 0
  Written u =
      Holds (put_row k r t.objects) t.parts
        (moved (cas_of_object (row_of k t.objects)) r.cas_key (λ cas. ref_count cas t)) u

  IsStored-Written :
      (c : Option Bytes) (u : Tables)
      → IsKept surplus k t0 t
      → Written u
      → IsCandidate c u
      → IsStored surplus k r t0 c u
  IsStored-Written c u h w i = record {
    kept = record {
      balanced = Surplus-put_object surplus t u k r w h.balanced;
      others_are =
          ap (remove_row k) w.objects_are ∙ remove_row-put_row k r t.objects ∙ h.others_are;
      parts_are = w.parts_are ∙ h.parts_are;
    };
    is_there = ap (row_of k) w.objects_are ∙ row_of-put_row_self k r t.objects;
    candidate = i;
  }

  Accepted-insert :
      (u : Tables) (o : Option ObjectRow)
      → row_of k t.objects ≡ o
      → Holds t.objects t.parts (added r.cas_key (λ cas. ref_count cas t)) u
      → Accepted Written (insert_object_row k r o u)
  unfolding insert_object_row ref_count
  Accepted-insert u (some old) e h = tt
  Accepted-insert u none e h = record {
    objects_are = ap (put_row k r) h.objects_are;
    parts_are = h.parts_are;
    counts = λ x. h.counts x ∙ added-moved (row_of k t.objects) r.cas_key x (λ y. ref_count y t) e;
  }

  module _ (apart : IsApart k t.objects) (server : Server) where
    insert-Written :
        Triple
          (Holds t.objects t.parts (added r.cas_key (λ cas. ref_count cas t)))
          (insert_or_mark server k r)
          (λ _ u. Written u)
    unfolding insert_or_mark perform
    insert-Written =
        let inserted : Triple _ (tx_execute server (insert_object k r)) (λ _ u. Written u) =
          Triple-tx_execute server (insert_object k r) λ u h.
            Accepted-insert u (row_by_unique_key k u.objects)
              (sym (row_by_unique_key-IsApart k t.objects apart)
                ∙ ap (row_by_unique_key k) (sym h.objects_are))
              h in
        record {
          at = λ c u s o h.
              let (answer, s') = tx_execute server (insert_object k r) s in
              Post-mark (λ _ v. Written v) c answer s' (inserted.at c u s o h);
        }

    Triple-fast :
        Triple (λ u. u ≡ t) (insert_object_fast server k r) (λ c u. Written u × IsCandidate c u)
    unfolding insert_object_fast
    Triple-fast =
        Triple-bind (Triple-assume (λ u. Holds-start t) (Triple-add server r.cas_key r.size)) λ _.
          Triple-bind insert-Written λ _.
            Triple-weaken (Triple-pure none)
              λ c u h. (h.0, subst (λ d. IsCandidate d u) (sym h.1) tt)

    upsert-Written :
        (c : Option Bytes)
        → Triple
            (λ u.
              Holds t.objects t.parts
                (moved (cas_of_object (row_of k t.objects)) r.cas_key (λ cas. ref_count cas t))
                u
              × IsCandidate c u)
            (tx_execute server (upsert_object k r))
            (λ _ u. Written u × IsCandidate c u)
    unfolding perform ref_count
    upsert-Written c = Triple-tx_execute server (upsert_object k r) λ u h. (
      record {
        objects_are =
            ap (overwrite_by_unique_key k r) h.0.objects_are
            ∙ overwrite-IsApart k r t.objects apart;
        parts_are = h.0.parts_are;
        counts = h.0.counts;
      },
      IsCandidate-blobs c u _ refl h.1,
    )

    Triple-overwrite :
        Triple (λ u. u ≡ t) (overwrite_object server k r) (λ c u. Written u × IsCandidate c u)
    unfolding overwrite_object
    Triple-overwrite =
        Triple-bind (Triple-tx_query server (λ u. cas_of_object (row_of k u.objects))) λ old.
          Triple-fact {F = old ≡ cas_of_object (row_of k t.objects)}
            (λ u h. h.1 ∙ ap (λ (v : Tables). cas_of_object (row_of k v.objects)) h.0)
            λ e.
              Triple-bind
                (Triple-assume (λ u h. Holds-start t h.0) (Triple-move server old r.cas_key r.size))
                λ c.
                  Triple-bind
                    (subst
                      (λ w.
                        Triple
                          (λ u.
                            Holds t.objects t.parts (moved w r.cas_key (λ cas. ref_count cas t)) u
                            × IsCandidate c u)
                          (tx_execute server (upsert_object k r))
                          (λ _ u. Written u × IsCandidate c u))
                      (sym e) (upsert-Written c))
                    λ _. Triple-handed c

module _ (server : Server) (steady : IsSteady server) where
  module _ (surplus : Bytes → ℕ) (k : ObjectKey) (r : ObjectRow) (t0 : Tables)
      (apart : IsApart k t0.objects) where
    kept-IsApart : {t : Tables} → IsKept surplus k t0 t → IsApart k t.objects
    kept-IsApart {t} h = IsApart-kept k t.objects t0.objects h.others_are apart

    Attempted-Written :
        (t : Tables) (body : Exec (Option Bytes))
        → Triple (λ u. u ≡ t) body (λ c u. Written surplus k r t0 t u × IsCandidate c u)
        → (s : Session) → IsClosed t s
        → IsKept surplus k t0 t
        → Attempted (IsKept surplus k t0) (IsStored surplus k r t0) (transaction server body s)
    Attempted-Written t body triple s closed h =
        Attempted-After (IsKept surplus k t0) (IsStored surplus k r t0) t
          (transaction server body s) (λ c u d. d.kept) h
          (After-transaction steady
            (Triple-weaken triple λ c u w. IsStored-Written surplus k r t0 t c u h w.0 w.1) refl s
            closed)

    Attempted-after_fast :
        (answer : Answer (Option Bytes)) (s : Session)
        → Attempted (IsKept surplus k t0) (IsStored surplus k r t0) (answer, s)
        → Attempted (IsKept surplus k t0) (IsStored surplus k r t0) (after_fast server k r answer s)
    unfolding after_fast
    Attempted-after_fast (raised (duplicate_key e)) s (t, (closed, h)) =
        Attempted-Written t (overwrite_object server k r)
          (Triple-overwrite surplus k r t0 t (kept-IsApart h) server) s closed h
    Attempted-after_fast (raised (statement_failed e)) s h = h
    Attempted-after_fast (raised (commit_failed e)) s h = h
    Attempted-after_fast (raised not_found) s h = h
    Attempted-after_fast (returned a) s h = h

    Attempted-put_object :
        (t : Tables) (s : Session)
        → IsClosed t s
        → IsKept surplus k t0 t
        → Attempted
            (IsKept surplus k t0)
            (IsStored surplus k r t0)
            (put_object_attempt server k r s)
    unfolding put_object_attempt
    Attempted-put_object t s closed h =
        let (answer, s') = transaction server (insert_object_fast server k r) s in
        Attempted-after_fast answer s' (
          Attempted-Written t (insert_object_fast server k r)
            (Triple-fast surplus k r t0 t (kept-IsApart h) server) s closed h)

  -- `PutObjectWithRefCount`, at a server that opens and rolls back transactions and refuses other
  -- statements and commits as it likes, outside a transaction, for a name whose first 255 characters
  -- no other name of the bucket shares, where every blob has `surplus` references more than rows: no
  -- transaction is left open; whatever is reported, the
  -- surplus of every blob over the rows that name it is what it was, and no other row has changed;
  -- and when it reports success, the object is there as it was put, and a blob that it hands to the
  -- garbage collector has no references.
  pub put_object-IsStored :
      (connected : Bool) (surplus : Bytes → ℕ) (k : ObjectKey) (r : ObjectRow) (t : Tables)
      (s : Session)
      → IsClosed t s
      → Surplus surplus t
      → IsApart k t.objects
      → Called
          (IsKept surplus k t)
          (IsStored surplus k r t)
          (put_object_with_ref_count server connected k r s)
  unfolding put_object_with_ref_count
  put_object-IsStored false surplus k r t s closed h apart =
      (t, (closed, record { balanced = h; others_are = refl; parts_are = refl }))
  put_object-IsStored true surplus k r t s closed h apart =
      Called-retry (IsKept surplus k t) (IsStored surplus k r t) (put_object_attempt server k r)
        (Attempted-put_object surplus k r t apart) max_retries t s closed
        (record { balanced = h; others_are = refl; parts_are = refl })
