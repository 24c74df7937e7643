-- ===== src/Db/MetaStore/Clashes.antt =====
-- `PutObjectWithRefCount`, for a name whose unique key another name has.
use zls.Base.{ℕ, ◌≡◌, if◌then◌else◌, Bool, true, false, not, ◌&&◌, ◌||◌, Option, none, some}
use zls.Base.Bytes.{Bytes, is_empty, eq_bytes}
use zls.Base.Tables.{bytes_key, row_of}
use zls.Db.Sql.{
  ObjectKey, ObjectRow, object_key_test, Tables, add_reference, lower_count, insert_object,
  upsert_object, perform, insert_object_row, row_by_unique_key,
}
use zls.Db.Transaction.{
  Server, Session, Answer, raised, returned, statement_failed, duplicate_key, commit_failed,
  not_found, Exec, pure, tx_execute, transaction,
}
use zls.Db.Transaction.Triples.{
  IsSteady, IsClosed, Triple, Accepted, After-transaction, Triple-pure, Triple-if, Triple-bind,
  Triple-weaken, Triple-tx_execute, Triple-tx_query,
}
use zls.Db.MetaStore.{
  cas_of_object, is_zero, insert_or_mark, insert_object_fast, overwrite_object, move_reference,
  lower, after_fast, put_object_attempt, put_object_with_ref_count, max_retries,
}
use zls.Db.MetaStore.Attempts.{Attempted, Called, Attempted-After, Called-retry}
use zls.Db.MetaStore.Names.{row_of-overwrite, row_by_unique_key-overwrite}
use zls.Db.MetaStore.Puts.{Post-mark}

module _ (k : ObjectKey) where
  -- The name is not there, and `w` is the row of another name that has its unique key.
  abbrev pub Clash : ObjectRow → Tables → Type 0
  Clash w t = (row_of k t.objects ≡ none) × (row_by_unique_key k t.objects ≡ some w)

  abbrev pub Clashes : Tables → Type 0
  Clashes t = (w : ObjectRow) × Clash w t

  module _ (server : Server) where
    Clashes-add :
        (cas : Bytes) (size : ℕ)
        → Triple Clashes (tx_execute server (add_reference cas size)) (λ _ t. Clashes t)
    unfolding perform
    Clashes-add cas size = Triple-tx_execute server (add_reference cas size) λ t h. h

    Clashes-pure : {A : Type 0} (a : A) → Triple Clashes (pure a) (λ _ t. Clashes t)
    Clashes-pure a = Triple-weaken (Triple-pure a) λ _ t h. h.0

    Clashes-lower : (cas : Bytes) → Triple Clashes (lower server cas) (λ _ t. Clashes t)
    unfolding lower perform
    Clashes-lower cas =
        Triple-bind {Q = λ _ t. Clashes t} (Triple-tx_execute server (lower_count cas) λ t h. h)
          λ _.
            Triple-bind {Q = λ _ t. Clashes t}
              (Triple-weaken (Triple-tx_query server (λ t. is_zero (row_of cas t.cas_blobs)))
                λ _ t h. h.0)
              λ empty. Clashes-pure (if empty then some cas else none)

    Clashes-move :
        (old cas : Bytes) (size : ℕ)
        → Triple Clashes (move_reference server old cas size) (λ _ t. Clashes t)
    unfolding move_reference
    Clashes-move old cas size =
        Triple-bind {Q = λ _ t. Clashes t}
          (Triple-if (is_empty old || not (eq_bytes old cas)) (λ _. Clashes-add cas size)
            (λ _. Clashes-pure tt))
          λ _.
            Triple-if (not (is_empty old) && not (eq_bytes old cas)) (λ _. Clashes-lower old)
              (λ _. Clashes-pure none)

    module _ (r : ObjectRow) where
      -- The unique key is taken, so the row is not inserted.
      Accepted-taken :
          (t : Tables) (o : Option ObjectRow) (w : ObjectRow)
          → o ≡ some w
          → Accepted (Clash r) (insert_object_row k r o t)
      unfolding insert_object_row
      Accepted-taken t none w e = absurd (cc e)
      Accepted-taken t (some v) w e = tt

      insert-taken : Triple Clashes (insert_or_mark server k r) (λ _ t. Clash r t)
      unfolding insert_or_mark perform
      insert-taken =
          let inserted : Triple Clashes (tx_execute server (insert_object k r)) (λ _ t. Clash r t) =
            Triple-tx_execute server (insert_object k r)
              λ t (w, h). Accepted-taken t (row_by_unique_key k t.objects) w h.1 in
          record {
            at = λ c u s o h.
                let (answer, s') = tx_execute server (insert_object k r) s in
                Post-mark (λ _ v. Clash r v) c answer s' (inserted.at c u s o h);
          }

      fast-taken : Triple Clashes (insert_object_fast server k r) (λ _ t. Clash r t)
      unfolding insert_object_fast
      fast-taken =
          Triple-bind (Clashes-add r.cas_key r.size)
            λ _. Triple-bind insert-taken λ _. Triple-weaken (Triple-pure none) λ _ t h. h.0

      upsert-taken : Triple Clashes (tx_execute server (upsert_object k r)) (λ _ t. Clash r t)
      unfolding perform
      upsert-taken = Triple-tx_execute server (upsert_object k r) λ t (w, h). (
        row_of-overwrite k r w t.objects h.0 h.1,
        row_by_unique_key-overwrite k r w t.objects h.1,
      )

      overwrite-taken : Triple Clashes (overwrite_object server k r) (λ _ t. Clash r t)
      unfolding overwrite_object
      overwrite-taken =
          Triple-bind {Q = λ _ t. Clashes t}
            (Triple-weaken (Triple-tx_query server (λ t. cas_of_object (row_of k t.objects)))
              λ _ t h. h.0)
            λ old.
              Triple-bind (Clashes-move old r.cas_key r.size)
                λ c. Triple-bind upsert-taken λ _. Triple-weaken (Triple-pure c) λ _ t h. h.0

module _ (server : Server) (steady : IsSteady server) (k : ObjectKey) (r : ObjectRow) where
  abbrev Tried : Answer (Option Bytes) × Session → Type 0
  Tried = Attempted (Clashes k) (λ _ t. Clash k r t)

  Tried-transaction :
      (body : Exec (Option Bytes))
      → Triple (Clashes k) body (λ _ t. Clash k r t)
      → (t : Tables) (s : Session) → IsClosed t s
      → Clashes k t
      → Tried (transaction server body s)
  Tried-transaction body triple t s closed h =
      Attempted-After (Clashes k) (λ _ t. Clash k r t) t (transaction server body s)
        (λ c u d. (r, d)) h (After-transaction steady triple h s closed)

  Tried-after_fast :
      (answer : Answer (Option Bytes)) (s : Session)
      → Tried (answer, s)
      → Tried (after_fast server k r answer s)
  unfolding after_fast
  Tried-after_fast (raised (duplicate_key e)) s (t, (closed, h)) =
      Tried-transaction (overwrite_object server k r) (overwrite-taken k server r) t s closed h
  Tried-after_fast (raised (statement_failed e)) s h = h
  Tried-after_fast (raised (commit_failed e)) s h = h
  Tried-after_fast (raised not_found) s h = h
  Tried-after_fast (returned a) s h = h

  Tried-put_object :
      (t : Tables) (s : Session)
      → IsClosed t s
      → Clashes k t
      → Tried (put_object_attempt server k r s)
  unfolding put_object_attempt
  Tried-put_object t s closed h =
      let (answer, s') = transaction server (insert_object_fast server k r) s in
      Tried-after_fast answer s'
        (Tried-transaction (insert_object_fast server k r) (fast-taken k server r) t s closed h)

  -- `PutObjectWithRefCount`, at a server that opens and rolls back transactions and refuses other
  -- statements and commits as it likes, outside a transaction, for a name that is not there while
  -- the row of another name of the bucket has the same first 255 characters: the name is not there
  -- afterwards, whatever is reported; and when success is reported, what was put stands in the row
  -- of the other name.
  pub put_object-Clash :
      (connected : Bool) (t : Tables) (s : Session)
      → IsClosed t s
      → Clashes k t
      → Called (Clashes k) (λ _ t. Clash k r t) (put_object_with_ref_count server connected k r s)
  unfolding put_object_with_ref_count
  put_object-Clash false t s closed h = (t, (closed, h))
  put_object-Clash true t s closed h =
      Called-retry (Clashes k) (λ _ t. Clash k r t) (put_object_attempt server k r) Tried-put_object
        max_retries t s closed h
