-- ===== src/Db/MetaStore.antt =====
-- src/db/meta_store.h and meta_store.cpp, `MetaStore`: objects and parts with the reference counts of
-- their blobs. `server` is the database server of Db.Transaction; `connected` tells whether the pool
-- has handed out a connection. A wait between two attempts has no effect here.
pub mod Counts
pub mod Attempts
pub mod Balance
pub mod Names
pub mod Puts
pub mod Clashes
pub mod Parts
pub mod Deletes
pub mod Collecting
pub mod Listing
pub mod Rows
use zls.Base.{
  ℕ, zero, suc, ◌+◌, Bool, true, false, not, ◌&&◌, ◌||◌, Option, none, some, List, [], ◌∷◌,
  if◌then◌else◌, ◌==◌, ltb,
}
use zls.Base.Bytes.{Bytes, codes, contains, eq_bytes, is_empty}
use zls.Base.Tables.{bytes_key, row_of}
use zls.Db.Sql.{
  ObjectKey, ObjectRow, object_key_test, CasBlob, PartKey, PartRow, part_key_test, UploadRow,
  Tables, count_objects, count_parts, Sql, add_reference, raise_count, lower_count, delete_blob,
  insert_object, upsert_object, delete_object, upsert_part, insert_upload, delete_upload,
}
use zls.Db.Transaction.{
  Server, Session, Failure, statement_failed, duplicate_key, commit_failed, not_found, Answer,
  raised, returned, Exec, pure, raise, ◌>>=◌, ◌>>◌, tx_execute, tx_query, transaction, execute,
  query,
}
use zls.Util.Status.{
  Status, Result, value, failed, ErrorCode, database_error, no_such_key, no_such_upload,
}

unfoldable pub is_retryable : Bytes → Bool
is_retryable err =
    contains (codes "Deadlock found") err || contains (codes "Lock wait timeout exceeded") err

unfoldable pub is_duplicate : Bytes → Bool
is_duplicate err = contains (codes "Duplicate entry") err

abbrev pub max_retries : ℕ
max_retries = 3

abbrev pub no_connection : Status
no_connection = record { code = database_error; message = codes "No MySQL connection" }

-- `old_cas`: empty when there is no row.
unfoldable pub cas_of_object : Option ObjectRow → Bytes
cas_of_object none = []
cas_of_object (some r) = r.cas_key

unfoldable pub cas_of_part : Option PartRow → Bytes
cas_of_part none = []
cas_of_part (some r) = r.cas_key

-- `row && row[0] && std::stoi(row[0]) == 0`.
unfoldable pub is_zero : Option CasBlob → Bool
is_zero none = false
is_zero (some b) = b.ref_count == 0

unfoldable pub mark_duplicate : {A : Type 0} → Answer A → Answer A
mark_duplicate (raised (statement_failed e)) =
    if is_duplicate e then raised (duplicate_key e) else raised (statement_failed e)
mark_duplicate (raised (duplicate_key e)) = raised (duplicate_key e)
mark_duplicate (raised (commit_failed e)) = raised (commit_failed e)
mark_duplicate (raised not_found) = raised not_found
mark_duplicate (returned a) = returned a

unfoldable pub text_of : Failure → Bytes
text_of (statement_failed e) = e
text_of (duplicate_key e) = e
text_of (commit_failed e) = e
text_of not_found = []

-- What is reported when no further attempt is made.
unfoldable pub give_up : Failure → Status
give_up (statement_failed e) = record { code = database_error; message = e }
give_up (duplicate_key e) = record { code = database_error; message = e }
give_up (commit_failed e) = record {
  code = database_error;
  message = if is_empty e then codes "Failed to commit transaction" else e;
}
give_up not_found = record { code = no_such_key; message = codes "Object not found" }

-- The same where no attempt is repeated: a failed commit has its own text.
unfoldable pub give_up_at_once : Failure → Status
give_up_at_once (statement_failed e) = record { code = database_error; message = e }
give_up_at_once (duplicate_key e) = record { code = database_error; message = e }
give_up_at_once (commit_failed e) = record {
  code = database_error;
  message = codes "Failed to commit transaction";
}
give_up_at_once not_found = record { code = no_such_key; message = codes "Object not found" }

unfoldable pub report : {A : Type 0} → Answer A → Result A
report (raised f) = failed (give_up_at_once f)
report (returned a) = value a

-- The retry loop: `more` tells whether `attempt + 1 < kMaxRetries`.
unfoldable pub next_attempt :
    {A : Type 0} → Bool → (Session → Result A × Session) → Answer A → Session → Result A × Session
next_attempt more again (returned a) s = (value a, s)
next_attempt more again (raised f) s =
    if more && is_retryable (text_of f) then again s else (failed (give_up f), s)

unfoldable pub retry : {A : Type 0} → Exec A → ℕ → Session → Result A × Session
retry attempt zero s =
    (failed (record { code = database_error; message = codes "Transaction retry exhausted" }), s)
retry attempt (suc n) s = let (r, s') = attempt s in next_attempt (ltb 0 n) (retry attempt n) r s'

module _ (server : Server) where
  -- Take one reference off a blob; a blob with none left is a candidate for the garbage collector.
  unfoldable pub lower : Bytes → Exec (Option Bytes)
  lower old = do
    tx_execute server (lower_count old)
    empty ← tx_query server (λ t. is_zero (row_of old t.cas_blobs))
    pure (if empty then some old else none)

  -- The counts when a row that names `old` is written to name `cas`.
  unfoldable pub move_reference : Bytes → Bytes → ℕ → Exec (Option Bytes)
  move_reference old cas size = do
    if is_empty old || not (eq_bytes old cas)
        then tx_execute server (add_reference cas size)
        else pure tt
    if not (is_empty old) && not (eq_bytes old cas) then lower old else pure none

  -- The fast path of `PutObjectWithRefCount`: a new key.
  unfoldable pub insert_or_mark : ObjectKey → ObjectRow → Exec (Unit {0})
  insert_or_mark k r s =
      let (answer, s') = tx_execute server (insert_object k r) s in (mark_duplicate answer, s')

  unfoldable pub insert_object_fast : ObjectKey → ObjectRow → Exec (Option Bytes)
  insert_object_fast k r = do
    tx_execute server (add_reference r.cas_key r.size)
    insert_or_mark k r
    pure none

  -- The slow path: the row is there already.
  unfoldable pub overwrite_object : ObjectKey → ObjectRow → Exec (Option Bytes)
  overwrite_object k r = do
    old ← tx_query server (λ t. cas_of_object (row_of k t.objects))
    candidate ← move_reference old r.cas_key r.size
    tx_execute server (upsert_object k r)
    pure candidate

  unfoldable pub after_fast : ObjectKey → ObjectRow → Answer (Option Bytes) → Exec (Option Bytes)
  after_fast k r (raised (duplicate_key e)) s = transaction server (overwrite_object k r) s
  after_fast k r (raised (statement_failed e)) s = (raised (statement_failed e), s)
  after_fast k r (raised (commit_failed e)) s = (raised (commit_failed e), s)
  after_fast k r (raised not_found) s = (raised not_found, s)
  after_fast k r (returned a) s = (returned a, s)

  unfoldable pub put_object_attempt : ObjectKey → ObjectRow → Exec (Option Bytes)
  put_object_attempt k r s =
      let (answer, s') = transaction server (insert_object_fast k r) s in after_fast k r answer s'

  unfoldable pub put_object_with_ref_count :
      Bool → ObjectKey → ObjectRow → Session → Result (Option Bytes) × Session
  put_object_with_ref_count connected k r s =
      if connected then retry (put_object_attempt k r) max_retries s else (failed no_connection, s)

  unfoldable pub put_part : PartKey → PartRow → Exec (Option Bytes)
  put_part k r = do
    old ← tx_query server (λ t. cas_of_part (row_of k t.parts))
    candidate ← move_reference old r.cas_key r.size
    tx_execute server (upsert_part k r)
    pure candidate

  unfoldable pub put_part_with_ref_count :
      Bool → PartKey → PartRow → Session → Result (Option Bytes) × Session
  put_part_with_ref_count connected k r s =
      if connected
      then retry (transaction server (put_part k r)) max_retries s
      else (failed no_connection, s)

  unfoldable pub delete_row : ObjectKey → Option ObjectRow → Exec (Option Bytes)
  delete_row k none = raise not_found
  delete_row k (some r) = do
    tx_execute server (delete_object k)
    if is_empty r.cas_key then pure none else lower r.cas_key

  unfoldable pub delete_counted : ObjectKey → Exec (Option Bytes)
  delete_counted k = do old ← tx_query server (λ t. row_of k t.objects); delete_row k old

  unfoldable pub delete_object_with_ref_count :
      Bool → ObjectKey → Session → Result (Option Bytes) × Session
  delete_object_with_ref_count connected k s =
      if connected
      then (let (answer, s') = transaction server (delete_counted k) s in (report answer, s'))
      else (failed no_connection, s)

  -- `CanDeleteCasBlob`, of the locked row.
  unfoldable pub is_unused : Bytes → Option CasBlob → Exec Bool
  is_unused cas none = pure false
  is_unused cas (some b) =
      if b.ref_count == 0
      then (do
        objects ← tx_query server (count_objects cas)
        if ltb 0 objects
            then pure false
            else do parts ← tx_query server (count_parts cas); pure (parts == 0))
      else pure false

  unfoldable pub check_unused : Bytes → Exec Bool
  check_unused cas = do blob ← tx_query server (λ t. row_of cas t.cas_blobs); is_unused cas blob

  unfoldable pub can_delete_cas_blob : Bool → Bytes → Session → Result Bool × Session
  can_delete_cas_blob connected cas s =
      if connected
      then (let (answer, s') = transaction server (check_unused cas) s in (report answer, s'))
      else (failed no_connection, s)
