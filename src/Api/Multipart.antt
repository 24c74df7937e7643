-- ===== src/Api/Multipart.antt =====
-- src/api/handlers/multipart_handlers.cpp, `MultipartHandlers::CompleteUpload` behind the JSON of the
-- request: the list of parts that the client names is an argument, and part numbers are not negative.
-- `Env` is what lies outside: the database server, the answers of the file system, SHA-256.
pub mod Parts
pub mod Sessions
pub mod Completed
pub mod Aborts
use zls.Base.{
  ℕ, zero, suc, ◌+◌, Bool, true, false, ◌&&◌, ◌||◌, Option, none, some, List, [], ◌∷◌, ◌++◌,
  if◌then◌else◌, ◌==◌, length, take, ltb,
}
use zls.Base.Bytes.{Bytes, codes, eq_bytes}
use zls.Base.Tables.{Table, bytes_key, remove_row}
use zls.Db.Sql.{ObjectRow, PartRow, UploadRow, CasBlob}
use zls.Db.Transaction.{Server, Session}
use zls.Db.MetaStore.{put_object_with_ref_count}
use zls.Db.MetaStore.Listing.{Page, order_by, list_parts}
use zls.Db.MetaStore.Rows.{
  get_multipart_upload, get_cas_blob, decrement_ref_count_and_check_zero, delete_multipart_upload,
}
use zls.Storage.Cas.{get_cas_path}
use zls.Storage.DataStore.{Files, Moves, Turn, merge}
use zls.Util.Status.{Status, Result, value, failed, code_value, no_such_upload, no_such_key}

pub record Env : Type 0 where
  pub server : Server
  pub connected : Bool
  pub sha256 : Bytes → Bytes
  pub base : Bytes
  pub moves : Moves
  pub opened : Bool
  pub tmp : Bytes
  pub turns : Bytes → List Turn
  pub deleted : Bool

-- The replies: an error with its text, or the key of the object's blob and its size.
pub data Reply : Type 0 where
  bad_request not_found internal_error : Bytes → Reply
  completed : Bytes → ℕ → Reply

-- The reply, the session, the files, and what is handed to the garbage collector.
pub record Outcome : Type 0 where
  pub reply : Reply
  pub session : Session
  pub files : Files
  pub pending : List Bytes

abbrev quote : ℕ
quote = 34

unfoldable pub strip_last : Bytes → Option Bytes
strip_last [] = none
strip_last (c ∷ []) = if c == quote then some [] else none
strip_last (c ∷ d ∷ cs) = cons_some c (strip_last (d ∷ cs))
  where
    cons_some : ℕ → Option Bytes → Option Bytes
    cons_some c none = none
    cons_some c (some cs) = some (c ∷ cs)

unfoldable pub or_whole : Bytes → Option Bytes → Bytes
or_whole etag none = etag
or_whole etag (some inner) = inner

-- Without the double quotes at both ends.
unfoldable pub normalize_etag_value : Bytes → Bytes
normalize_etag_value [] = []
normalize_etag_value (c ∷ cs) = if c == quote then or_whole (c ∷ cs) (strip_last cs) else c ∷ cs

-- The loop over both lists: the blobs and the size of all, or the text of a refusal, which leaves out
-- the number of the part.
pub data Checked : Type 0 where
  refused : Bytes → Checked
  checked : List Bytes → ℕ → Checked

unfoldable pub with_part : PartRow → Checked → Checked
with_part r (refused e) = refused e
with_part r (checked keys size) = checked (r.cas_key ∷ keys) (r.size + size)

unfoldable pub check_parts : Table ℕ Bytes → Table ℕ PartRow → Checked
check_parts [] ps = checked [] 0
check_parts ((n, etag) ∷ cs) [] = refused (codes "Part count mismatch")
check_parts ((n, etag) ∷ cs) ((m, r) ∷ ps) =
    let rest = check_parts cs ps in
    if n == m
    then (if eq_bytes etag (normalize_etag_value r.etag)
        then with_part r rest
        else refused (codes "Part ETag mismatch for part "))
    else refused (codes "Part number mismatch")

unfoldable pub normalize_parts : Table ℕ Bytes → Table ℕ Bytes
normalize_parts [] = []
normalize_parts ((n, etag) ∷ cs) = (n, normalize_etag_value etag) ∷ normalize_parts cs

abbrev pub all_parts : ℕ
all_parts = 10000

module _ (env : Env) where
  abbrev answer : Reply → Session → Files → Outcome
  answer r s files = record { reply = r; session = s; files = files; pending = [] }

  unfoldable pub remove_blob : Bytes → Files → Files
  remove_blob key files =
      if env.deleted then remove_row (get_cas_path env.base key) files else files

  -- `CleanupUnreferencedCas`.
  unfoldable pub cleanup : Bytes → Result CasBlob → Files → Files
  cleanup key (failed e) files =
      if code_value e.code == code_value no_such_key then remove_blob key files else files
  cleanup key (value b) files = if b.ref_count == 0 then remove_blob key files else files

  unfoldable pub is_zero_now : Result Bool → Bool
  is_zero_now (failed e) = false
  is_zero_now (value zero_now) = zero_now

  -- The references of the parts.
  unfoldable pub lower_all : List Bytes → Session → List Bytes × Session
  lower_all [] s = ([], s)
  lower_all (k ∷ ks) s =
      let (r, s') = decrement_ref_count_and_check_zero env.server env.connected k s in
      let (pending, s'') = lower_all ks s' in (if is_zero_now r then k ∷ pending else pending, s'')

  unfoldable pub old_blob : Option Bytes → List Bytes
  old_blob none = []
  old_blob (some k) = k ∷ []

  unfoldable pub after_put :
      Bytes → Bytes → ℕ → List Bytes → Files → Result (Option Bytes) × Session → Outcome
  after_put u key size keys files (failed e, s) =
      let (r, s') = get_cas_blob env.server env.connected key s in
      answer (internal_error (codes "Failed to create object")) s' (cleanup key r files)
  after_put u key size keys files (value c, s) =
      let (pending, s') = lower_all keys s in
      let (status, s'') = delete_multipart_upload env.server env.connected u s' in
      record {
        reply = completed key size;
        session = s'';
        files = files;
        pending = old_blob c ++ pending;
      }

  unfoldable pub merged_row : UploadRow → Bytes → ℕ → ObjectRow
  merged_row row key size = record {
    cas_key = key;
    size = size;
    content_type = row.content_type;
    etag = quote ∷ (take 32 key ++ (quote ∷ []));
  }

  unfoldable pub after_merge :
      Bytes → UploadRow → ℕ → List Bytes → Session → Result Bytes × Files → Outcome
  after_merge u row size keys s (failed e, files) =
      answer (internal_error (codes "Failed to merge parts")) s files
  after_merge u row size keys s (value key, files) = after_put u key size keys files (
      put_object_with_ref_count env.server env.connected (row.bucket_id, row.object_key)
        (merged_row row key size) s)

  unfoldable pub after_check : Bytes → UploadRow → Checked → Session → Files → Outcome
  after_check u row (refused e) s files = answer (bad_request e) s files
  after_check u row (checked keys size) s files =
      after_merge u row size keys s
        (merge env.sha256 env.base env.moves env.opened env.tmp env.turns keys files)

  unfoldable pub after_list :
      Bytes → UploadRow → Table ℕ Bytes → Result (Page ℕ PartRow) → Session → Files → Outcome
  after_list u row client (failed e) s files =
      answer (internal_error (codes "Failed to list parts")) s files
  after_list u row client (value page) s files =
      if length client == length page.rows
      then after_check u row (check_parts client page.rows) s files
      else answer (bad_request (codes "Part count mismatch")) s files

  unfoldable pub after_upload : Bytes → Table ℕ Bytes → Result UploadRow → Session → Files → Outcome
  after_upload u client (failed e) s files =
      if code_value e.code == code_value no_such_upload
      then answer (not_found (codes "Upload not found")) s files
      else answer (internal_error (codes "Failed to get upload")) s files
  after_upload u client (value row) s files =
      let (parts, s') = list_parts env.server env.connected u 0 all_parts s in
      after_list u row (order_by ltb (normalize_parts client)) parts s' files

  unfoldable pub complete_upload : Bytes → Table ℕ Bytes → Session → Files → Outcome
  complete_upload u client s files =
      let (row, s') = get_multipart_upload env.server env.connected u s in
      after_upload u client row s' files
