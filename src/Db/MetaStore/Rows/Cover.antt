-- ===== src/Db/MetaStore/Rows/Cover.antt =====
-- The operations of one statement that keep blobs with as many references as rows: `RegisterCasBlob`,
-- `IncrementRefCount`, `DeleteCasBlob`, `DeleteObject`, `CreateMultipartUpload` and
-- `DeleteMultipartUpload`. `DecrementRefCount`, `PutObject` and `CreateOrUpdatePart` are not among them.
use zls.Base.{
  ℕ, ◌+◌, ◌≡◌, ◌≤◌, refl, subst, Bool, true, false, Option, none, some, [], ◌∷◌, if-cases, arith,
  ◌==◌, ==_iff,
}
use zls.Base.Bytes.{Bytes, eq_bytes, eq_bytes_iff}
use zls.Base.Tables.{
  Table, bytes_key, row_of, remove_row, total, total-remove_row, row_of-remove_row,
}
use zls.Db.Sql.{
  ObjectKey, ObjectRow, object_key_test, PartKey, PartRow, CasBlob, UploadRow, Tables, names,
  count_objects, count_parts, add_reference, raise_count, delete_blob, delete_object, insert_upload,
  delete_upload, perform, add_to_blob, update_blob, without_upload, insert_upload_row,
}
use zls.Db.Transaction.{Server, Session}
use zls.Db.Transaction.Triples.{IsClosed, Accepted}
use zls.Db.MetaStore.Counts.{ref_count, count_in, uses, count_in-add}
use zls.Db.MetaStore.Rows.{
  register_cas_blob, increment_ref_count, delete_cas_blob, delete_object_row,
  create_multipart_upload, delete_multipart_upload,
}
use zls.Db.MetaStore.Rows.Left.{Left-status}
use zls.Util.Status.{Status}

-- No blob has fewer references than there are rows that name it.
unfoldable pub Covered : Tables → Type 0
Covered t = (cas : Bytes) → uses cas t ≤ ref_count cas t

-- A call of one of these operations.
pub data Call : Type 0 where
  register : Bytes → ℕ → Call
  increment delete_blob_row : Bytes → Call
  drop_object : ObjectKey → Call
  create_upload : Bytes → UploadRow → Call
  drop_upload : Bytes → Call

unfoldable pub run_call : Server → Bool → Call → Session → Status × Session
run_call server connected (register cas size) = register_cas_blob server connected cas size
run_call server connected (increment cas) = increment_ref_count server connected cas
run_call server connected (delete_blob_row cas) = delete_cas_blob server connected cas
run_call server connected (drop_object k) = delete_object_row server connected k
run_call server connected (create_upload u r) = create_multipart_upload server connected u r
run_call server connected (drop_upload u) = delete_multipart_upload server connected u

count_in-raise :
    (k cas : Bytes) (o : Option CasBlob) (t : Table Bytes CasBlob)
    → row_of k t ≡ o
    → count_in (row_of cas t) ≤ count_in (row_of cas (update_blob (λ n. n + 1) k o t))
unfolding update_blob add_to_blob
count_in-raise k cas none t e = omega arith
count_in-raise k cas (some b) t e = omega (arith, count_in-add k cas 0 (some b) t e)

total-without_upload :
    (w : PartRow → ℕ) (u : Bytes) (t : Table PartKey PartRow)
    → total w (without_upload u t) ≤ total w t
unfolding total without_upload
total-without_upload w u [] = omega arith
total-without_upload w u (((v, n), r) ∷ t) =
    if-cases (λ (x : Table PartKey PartRow). total w x ≤ w r + total w t) (eq_bytes v u)
      (λ _. omega (arith, total-without_upload w u t))
      (λ _. omega (arith, total-without_upload w u t))

module _ (t : Tables) (h : Covered t) where
  add-Covered : (k : Bytes) (size : ℕ) → Accepted Covered (perform (add_reference k size) t)
  unfolding perform Covered ref_count uses count_objects count_parts
  add-Covered k size cas =
      let more = count_in-add k cas size (row_of k t.cas_blobs) t.cas_blobs refl in
      omega (arith, h cas, more)

  raise-Covered : (k : Bytes) → Accepted Covered (perform (raise_count k) t)
  unfolding perform Covered ref_count uses count_objects count_parts
  raise-Covered k cas =
      let more = count_in-raise k cas (row_of k t.cas_blobs) t.cas_blobs refl in
      omega (arith, h cas, more)

  remove_blob-cover :
      (k cas : Bytes) (b : Bool)
      → eq_bytes k cas ≡ b
      → count_objects k t + count_parts k t ≡ 0
      → uses cas t ≤ ref_count cas (record t { cas_blobs = remove_row k t.cas_blobs })
  unfolding ref_count uses Covered
  remove_blob-cover k cas true e z =
      let none_named : count_objects cas t + count_parts cas t ≡ 0 =
        subst (λ x. count_objects x t + count_parts x t ≡ 0) ((eq_bytes_iff k cas).0 e) z in
      omega (arith, none_named)
  remove_blob-cover k cas false e z = rw (row_of-remove_row cas k t.cas_blobs e) (h cas)

  -- A blob with rows is not deleted: they refer to it by a foreign key.
  delete_blob-Covered : (k : Bytes) → Accepted Covered (perform (delete_blob k) t)
  unfolding perform Covered uses count_objects count_parts
  delete_blob-Covered k =
      if-cases (Accepted Covered) (count_objects k t + count_parts k t == 0)
        (λ z cas.
          remove_blob-cover k cas (eq_bytes k cas) refl
            ((==_iff (count_objects k t + count_parts k t) 0).0 z))
        (λ _. tt)

  delete_object-Covered : (k : ObjectKey) → Accepted Covered (perform (delete_object k) t)
  unfolding perform Covered ref_count uses count_objects count_parts
  delete_object-Covered k cas =
      let less = total-remove_row (λ (r : ObjectRow). names cas r.cas_key) k t.objects in
      omega (arith, h cas, less)

  insert_upload_row-Covered :
      (u : Bytes) (r : UploadRow) (o : Option UploadRow)
      → Accepted Covered (insert_upload_row u r o t)
  unfolding insert_upload_row Covered ref_count uses count_objects count_parts
  insert_upload_row-Covered u r none = h
  insert_upload_row-Covered u r (some old) = tt

  insert_upload-Covered :
      (u : Bytes) (r : UploadRow) → Accepted Covered (perform (insert_upload u r) t)
  unfolding perform
  insert_upload-Covered u r = insert_upload_row-Covered u r (row_of u t.uploads)

  delete_upload-Covered : (u : Bytes) → Accepted Covered (perform (delete_upload u) t)
  unfolding perform Covered ref_count uses count_objects count_parts
  delete_upload-Covered u cas =
      let less = total-without_upload (λ (r : PartRow). names cas r.cas_key) u t.parts in
      omega (arith, h cas, less)

module _ (server : Server) where
  -- `RegisterCasBlob`, `IncrementRefCount`, `DeleteCasBlob`, `DeleteObject`, `CreateMultipartUpload`
  -- and `DeleteMultipartUpload`, at any server and outside a transaction: no transaction is left open, and no blob has fewer references than there are rows that name it, if none had before.
  pub run_call-Covered :
      (connected : Bool) (call : Call) (t : Tables) (s : Session)
      → IsClosed t s
      → Covered t
      → (u : Tables) × (IsClosed u (run_call server connected call s).1 × Covered u)
  unfolding run_call register_cas_blob increment_ref_count delete_cas_blob delete_object_row
      create_multipart_upload delete_multipart_upload
  run_call-Covered connected (register k size) t s closed h =
      Left-status Covered server connected _ (add_reference k size) t s closed h
        (add-Covered t h k size)
  run_call-Covered connected (increment k) t s closed h =
      Left-status Covered server connected _ (raise_count k) t s closed h (raise-Covered t h k)
  run_call-Covered connected (delete_blob_row k) t s closed h =
      Left-status Covered server connected _ (delete_blob k) t s closed h
        (delete_blob-Covered t h k)
  run_call-Covered connected (drop_object k) t s closed h =
      Left-status Covered server connected _ (delete_object k) t s closed h
        (delete_object-Covered t h k)
  run_call-Covered connected (create_upload k r) t s closed h =
      Left-status Covered server connected _ (insert_upload k r) t s closed h
        (insert_upload-Covered t h k r)
  run_call-Covered connected (drop_upload k) t s closed h =
      Left-status Covered server connected _ (delete_upload k) t s closed h
        (delete_upload-Covered t h k)
