-- ===== src/Db/MetaStore/Rows.antt =====
-- src/db/meta_store.cpp, the operations of one statement outside a transaction: blobs, the deletion of
-- objects without their counts, and multipart uploads. Their reads of a single row are here too.
pub mod Left
pub mod Cover
use zls.Base.{ℕ, Bool, true, false, Option, none, some, if◌then◌else◌, ◌==◌}
use zls.Base.Bytes.{Bytes, codes}
use zls.Base.Tables.{bytes_key, row_of}
use zls.Db.Sql.{
  ObjectKey, ObjectRow, object_key_test, CasBlob, UploadRow, Tables, Sql, add_reference,
  raise_count, lower_count, delete_blob, delete_object, insert_upload, delete_upload,
}
use zls.Db.Transaction.{
  Server, Session, Answer, raised, returned, Exec, raise, not_found, statement_failed,
  duplicate_key, commit_failed, execute, query, pure, ◌>>=◌, ◌>>◌,
}
use zls.Db.MetaStore.{no_connection, report, is_zero, text_of}
use zls.Util.Status.{
  Status, ok_status, Result, value, failed, ErrorCode, database_error, no_such_key, no_such_upload,
}

-- `AffectedRows() == 0`: no row has the key of the statement.
unfoldable pub is_absent : {V : Type 0} → Option V → Bool
is_absent none = true
is_absent (some v) = false

unfoldable pub affects_none : Sql → Tables → Bool
affects_none q t = elim q [
  | raise_count cas ↦ is_absent (row_of cas t.cas_blobs)
  | delete_object k ↦ is_absent (row_of k t.objects)
  | delete_upload u ↦ is_absent (row_of u t.uploads)
  | _ ↦ false
]

-- The status of a statement; `missing` is for one that affects no row, where the code asks for that.
unfoldable pub unless_absent : Bool → Option Status → Status
unless_absent absent none = ok_status
unless_absent absent (some missing) = if absent then missing else ok_status

unfoldable pub status_of : Option Status → Bool → Answer (Unit {0}) → Status
status_of missing absent (raised f) = record { code = database_error; message = text_of f }
status_of missing absent (returned a) = unless_absent absent missing

abbrev pub no_blob : Status
no_blob = record { code = no_such_key; message = codes "CAS blob not found" }

abbrev pub no_object : Status
no_object = record { code = no_such_key; message = codes "Object not found" }

abbrev pub no_upload : Status
no_upload = record { code = no_such_upload; message = codes "Upload not found" }

-- What is reported of a blob.
unfoldable pub report_blob : {A : Type 0} → Answer A → Result A
report_blob (returned a) = value a
report_blob (raised not_found) = failed no_blob
report_blob (raised (statement_failed e)) = failed (record { code = database_error; message = e })
report_blob (raised (duplicate_key e)) = failed (record { code = database_error; message = e })
report_blob (raised (commit_failed e)) = failed (record { code = database_error; message = e })

unfoldable pub report_upload : {A : Type 0} → Answer A → Result A
report_upload (returned a) = value a
report_upload (raised not_found) = failed no_upload
report_upload (raised (statement_failed e)) = failed (record { code = database_error; message = e })
report_upload (raised (duplicate_key e)) = failed (record { code = database_error; message = e })
report_upload (raised (commit_failed e)) = failed (record { code = database_error; message = e })

module _ (server : Server) where
  unfoldable pub execute_status : Bool → Option Status → Sql → Session → Status × Session
  execute_status connected missing q s =
      if connected
      then (let (answer, s') = execute server q s in
          (status_of missing (affects_none q s.working) answer, s'))
      else (no_connection, s)

  -- `RegisterCasBlob`, whose value is always 1.
  unfoldable pub register_cas_blob : Bool → Bytes → ℕ → Session → Status × Session
  register_cas_blob connected cas size = execute_status connected none (add_reference cas size)

  unfoldable pub increment_ref_count : Bool → Bytes → Session → Status × Session
  increment_ref_count connected cas = execute_status connected (some no_blob) (raise_count cas)

  unfoldable pub delete_cas_blob : Bool → Bytes → Session → Status × Session
  delete_cas_blob connected cas = execute_status connected none (delete_blob cas)

  -- `DeleteObject`: the counts stay.
  unfoldable pub delete_object_row : Bool → ObjectKey → Session → Status × Session
  delete_object_row connected k = execute_status connected (some no_object) (delete_object k)

  unfoldable pub create_multipart_upload : Bool → Bytes → UploadRow → Session → Status × Session
  create_multipart_upload connected u r = execute_status connected none (insert_upload u r)

  -- `DeleteMultipartUpload`, which is `CompleteMultipartUpload` and `AbortMultipartUpload` too.
  unfoldable pub delete_multipart_upload : Bool → Bytes → Session → Status × Session
  delete_multipart_upload connected u = execute_status connected (some no_upload) (delete_upload u)

  unfoldable pub found : {V : Type 0} → Option V → Exec V
  found none = raise not_found
  found (some v) = pure v

  unfoldable pub get_cas_blob : Bool → Bytes → Session → Result CasBlob × Session
  get_cas_blob connected cas s =
      if connected
      then (let (answer, s') = (query server (λ t. row_of cas t.cas_blobs) >>= λ b. found b) s in
          (report_blob answer, s'))
      else (failed no_connection, s)

  -- `GetObject` without a cache.
  unfoldable pub get_object : Bool → ObjectKey → Session → Result ObjectRow × Session
  get_object connected k s =
      if connected
      then (let (answer, s') = (query server (λ t. row_of k t.objects) >>= λ r. found r) s in
          (report answer, s'))
      else (failed no_connection, s)

  unfoldable pub decrement_and_check : Bytes → Exec Bool
  decrement_and_check cas = do
    execute server (lower_count cas)
    blob ← query server (λ t. row_of cas t.cas_blobs)
    found blob
    pure (is_zero blob)

  -- `DecrementRefCountAndCheckZero`: two statements that are no transaction.
  unfoldable pub decrement_ref_count_and_check_zero : Bool → Bytes → Session → Result Bool × Session
  decrement_ref_count_and_check_zero connected cas s =
      if connected
      then (let (answer, s') = decrement_and_check cas s in (report_blob answer, s'))
      else (failed no_connection, s)

  -- `GetMultipartUpload`.
  unfoldable pub get_multipart_upload : Bool → Bytes → Session → Result UploadRow × Session
  get_multipart_upload connected u s =
      if connected
      then (let (answer, s') = (query server (λ t. row_of u t.uploads) >>= λ r. found r) s in
          (report_upload answer, s'))
      else (failed no_connection, s)
