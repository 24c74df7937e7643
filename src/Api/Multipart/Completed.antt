-- ===== src/Api/Multipart/Completed.antt =====
-- What a completed upload is made of.
use zls.Base.{
  ℕ, ◌≡◌, ◌⊎◌, sym, subst, true, false, Option, some, List, [], ◌∷◌, if-cases, ◌==◌, ==_iff, length,
  ltb,
}
use zls.Base.Bytes.{Bytes, eq_bytes, starts_with}
use zls.Base.Tables.{Table, bytes_key, row_of, Every}
use zls.Db.Sql.{
  ObjectKey, ObjectRow, object_key_test, PartRow, UploadRow, Tables, delete_upload, perform,
}
use zls.Db.Transaction.{Session}
use zls.Db.Transaction.Triples.{IsSteady, IsClosed}
use zls.Db.MetaStore.Attempts.{Called}
use zls.Db.MetaStore.Names.{IsApart}
use zls.Db.MetaStore.Balance.{Surplus}
use zls.Db.MetaStore.Puts.{IsKept, IsStored, put_object-IsStored}
use zls.Db.MetaStore.Listing.{Page, order_by, page_after, parts_of, list_parts}
use zls.Db.MetaStore.Rows.{
  get_multipart_upload, decrement_ref_count_and_check_zero, delete_multipart_upload,
}
use zls.Db.MetaStore.Rows.Left.{Left, Left-status}
use zls.Storage.Cas.{get_cas_path}
use zls.Storage.DataStore.{Files, merge}
use zls.Storage.DataStore.Addresses.{IsAddressed, tmp-get_cas_path}
use zls.Storage.DataStore.Merges.{joined, MergedInto, merge-MergedInto}
use zls.Api.Multipart.{
  Env, Reply, bad_request, not_found, internal_error, completed, Outcome, Checked, refused, checked,
  check_parts, normalize_parts, all_parts, lower_all, after_put, merged_row, after_merge,
  after_check, after_list, after_upload, complete_upload,
}
use zls.Util.Status.{Result, value, failed, code_value, no_such_upload}
use zls.Api.Multipart.Parts.{Matches, Checks, Checks-check_parts}
use zls.Api.Multipart.Sessions.{Left-decrement, Answered, Answered-list_parts, Answered-get_upload}

module _ (env : Env) (steady : IsSteady env.server) (tmp_dir : Bytes)
    (apart : (c : Bytes) → starts_with tmp_dir (get_cas_path env.base (env.sha256 c)) ≡ false)
    (temporary : starts_with tmp_dir env.tmp ≡ true) (files : Files)
    (addressed : Every (IsAddressed env.sha256 env.base tmp_dir) files) (u : Bytes)
    (client : Table ℕ Bytes) (t : Tables) where
  -- The parts that the upload has.
  abbrev pub stored_parts : Table ℕ PartRow
  stored_parts = (page_after ltb 0 all_parts (parts_of u t.parts)).rows

  -- The object that a completed upload leaves: its blob is the concatenation of the parts, which are
  -- those the client named.
  abbrev pub IsDone : Reply → Session → Files → Type 0
  IsDone (bad_request e) s files' = Unit
  IsDone (not_found e) s files' = Unit
  IsDone (internal_error e) s files' = Unit
  IsDone (completed key size) s files' =
      (row : UploadRow) × (keys : List Bytes) × (c : Bytes) × (row_of u t.uploads ≡ some row)
      × Matches (order_by ltb (normalize_parts client)) stored_parts keys size
      × (joined env.base files keys ≡ some c)
      × (key ≡ env.sha256 c)
      × (d : Bytes) × (row_of (get_cas_path env.base key) files' ≡ some d)
      × ((d ≡ c) ⊎ (row_of (get_cas_path env.base key) files ≡ some d))
      × Left
          (λ v.
            row_of (row.bucket_id, row.object_key) v.objects ≡ some (merged_row env row key size))
          s

  module _ (k : ObjectKey) (r : ObjectRow) where
    abbrev HasObject : Tables → Type 0
    HasObject v = row_of k v.objects ≡ some r

    Left-lower_all :
        (keys : List Bytes) (s : Session)
        → Left HasObject s
        → Left HasObject (lower_all env keys s).1
    unfolding lower_all perform
    Left-lower_all [] s h = h
    Left-lower_all (key ∷ keys) s h =
        Left-lower_all keys (decrement_ref_count_and_check_zero env.server env.connected key s).1
          (Left-decrement HasObject env.server (λ cas v p. p) env.connected key s h)

    Left-delete_upload :
        (s : Session)
        → Left HasObject s
        → Left HasObject (delete_multipart_upload env.server env.connected u s).1
    unfolding delete_multipart_upload perform
    Left-delete_upload s (v, (closed, p)) =
        Left-status HasObject env.server env.connected _ (delete_upload u) v s closed p p

  module _ (row : UploadRow) (keys : List Bytes) (size : ℕ)
      (is_upload : row_of u t.uploads ≡ some row)
      (matches : Matches (order_by ltb (normalize_parts client)) stored_parts keys size)
      (surplus : Bytes → ℕ) where
    IsDone-after_put :
        (c key d : Bytes) (files' : Files) (answer : Result (Option Bytes) × Session)
        → joined env.base files keys ≡ some c
        → key ≡ env.sha256 c
        → row_of (get_cas_path env.base key) files' ≡ some d
        → (d ≡ c) ⊎ (row_of (get_cas_path env.base key) files ≡ some d)
        → Called
            (IsKept surplus (row.bucket_id, row.object_key) t)
            (IsStored surplus (row.bucket_id, row.object_key) (merged_row env row key size) t)
            answer
        → let o = after_put env u key size keys files' answer in IsDone o.reply o.session o.files
    unfolding after_put
    IsDone-after_put c key d files' (failed e, s) j a b f h = tt
    IsDone-after_put c key d files' (value old, s) j a b f (v, (closed, stored)) = (
      row,
      keys,
      c,
      is_upload,
      matches,
      j,
      a,
      d,
      b,
      f,
      Left-delete_upload (row.bucket_id, row.object_key) (merged_row env row key size)
          (lower_all env keys s).1
          (Left-lower_all (row.bucket_id, row.object_key) (merged_row env row key size) keys s
            (v, (closed, stored.is_there))),
    )

    IsDone-after_merge :
        (s : Session) (p : Bytes) (other : eq_bytes env.tmp p ≡ false)
        (answer : Result Bytes × Files)
        → IsClosed t s
        → Surplus surplus t
        → IsApart (row.bucket_id, row.object_key) t.objects
        → MergedInto env.sha256 env.base tmp_dir apart env.moves env.tmp p temporary other files
            addressed
            (joined env.base files keys)
            answer
        → let o = after_merge env u row size keys s answer in IsDone o.reply o.session o.files
    unfolding after_merge
    IsDone-after_merge s p other (failed e, files') closed b own h = tt
    IsDone-after_merge s p other (value key, files') closed b own
          (c, j, (a, every, d, at_key, was)) =
        IsDone-after_put c key d files' _ j a
          (subst (λ x. row_of (get_cas_path env.base x) files' ≡ some d) (sym a) at_key)
          (subst (λ x. (d ≡ c) ⊎ (row_of (get_cas_path env.base x) files ≡ some d)) (sym a) was)
          (put_object-IsStored env.server steady env.connected surplus
            (row.bucket_id, row.object_key) (merged_row env row key size) t s closed b own)

module _ (env : Env) (steady : IsSteady env.server) (tmp_dir : Bytes)
    (apart : (c : Bytes) → starts_with tmp_dir (get_cas_path env.base (env.sha256 c)) ≡ false)
    (temporary : starts_with tmp_dir env.tmp ≡ true) (files : Files)
    (addressed : Every (IsAddressed env.sha256 env.base tmp_dir) files) (u : Bytes)
    (client : Table ℕ Bytes) (surplus : Bytes → ℕ) (t : Tables) (balanced : Surplus surplus t)
    (own_key : (row : UploadRow)
      → row_of u t.uploads ≡ some row
      → IsApart (row.bucket_id, row.object_key) t.objects) where
  abbrev Done : Outcome → Type 0
  Done o =
      IsDone env steady tmp_dir apart temporary files addressed u client t o.reply o.session o.files

  Done-after_check :
      (row : UploadRow) (s : Session) (c : Checked)
      → row_of u t.uploads ≡ some row
      → IsClosed t s
      → Checks
          (order_by ltb (normalize_parts client))
          (page_after ltb 0 all_parts (parts_of u t.parts)).rows
          c
      → Done (after_check env u row c s files)
  unfolding after_check
  Done-after_check row s (refused e) is_upload closed h = tt
  Done-after_check row s (checked keys size) is_upload closed h =
      let p : Bytes = get_cas_path env.base (env.sha256 []) in
      let other : eq_bytes env.tmp p ≡ false =
        tmp-get_cas_path env.sha256 env.base tmp_dir apart env.tmp [] temporary in
      IsDone-after_merge env steady tmp_dir apart temporary files addressed u client t row keys size
        is_upload h surplus s p other
        (merge env.sha256 env.base env.moves env.opened env.tmp env.turns keys files) closed
        balanced (own_key row is_upload)
        (merge-MergedInto env.sha256 env.base tmp_dir apart env.moves env.tmp p temporary other
          files addressed env.opened env.turns keys)

  Done-after_list :
      (row : UploadRow) (answer : Result (Page ℕ PartRow) × Session)
      → row_of u t.uploads ≡ some row
      → Answered
          (λ (p : Page ℕ PartRow). p ≡ page_after ltb 0 all_parts (parts_of u t.parts))
          t
          answer
      → Done (after_list env u row (order_by ltb (normalize_parts client)) answer.0 answer.1 files)
  unfolding after_list
  Done-after_list row (failed e, s) is_upload h = tt
  Done-after_list row (value page, s) is_upload (closed, e) =
      if-cases Done (length (order_by ltb (normalize_parts client)) == length page.rows)
        (λ same. Done-after_check row s _ is_upload closed (
          subst
            (λ (x : Page ℕ PartRow).
              Checks (order_by ltb (normalize_parts client)) x.rows
                (check_parts (order_by ltb (normalize_parts client)) page.rows))
            e
            (Checks-check_parts (order_by ltb (normalize_parts client)) page.rows
              ((==_iff _ _).0 same))))
        (λ _. tt)

  Done-after_upload :
      (answer : Result UploadRow × Session)
      → Answered (λ (row : UploadRow). row_of u t.uploads ≡ some row) t answer
      → Done (after_upload env u client answer.0 answer.1 files)
  unfolding after_upload
  Done-after_upload (failed e, s) h =
      if-cases Done (code_value e.code == code_value no_such_upload) (λ _. tt) (λ _. tt)
  Done-after_upload (value row, s) (closed, is_upload) =
      Done-after_list row (list_parts env.server env.connected u 0 all_parts s) is_upload
        (Answered-list_parts env.server t env.connected u s closed)

  -- `CompleteUpload`, at a server that opens and rolls back transactions, whatever else fails, outside a
  -- transaction, at a data directory whose blobs lie at the addresses of their contents and are no
  -- temporary files, with no blob that has fewer references than rows, for an upload whose object shares its first 255 characters with no other name of the bucket: when it
  -- replies that the upload is complete, the upload was there, the client's parts are the stored
  -- parts by number and tag, every blob of a part was there, the object has the key of these blobs
  -- one behind the other and the sum of their sizes, a blob lies under that key, which is this one or
  -- was there before, and the row of the object is committed.
  pub complete_upload-IsDone :
      (s : Session)
      → IsClosed t s
      → let o = complete_upload env u client s files in
        IsDone env steady tmp_dir apart temporary files addressed u client t o.reply o.session
          o.files
  unfolding complete_upload
  complete_upload-IsDone s closed =
      Done-after_upload (get_multipart_upload env.server env.connected u s)
        (Answered-get_upload env.server t env.connected u s closed)
