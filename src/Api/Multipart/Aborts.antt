-- ===== src/Api/Multipart/Aborts.antt =====
-- src/api/handlers/multipart_handlers.cpp, `MultipartHandlers::AbortUpload` behind its path parameters.
use zls.Base.{ℕ, List, [], ◌∷◌, if◌then◌else◌, ◌==◌}
use zls.Base.Bytes.{Bytes, codes}
use zls.Base.Tables.{Table}
use zls.Db.Sql.{PartRow, UploadRow}
use zls.Db.Transaction.{Session}
use zls.Db.MetaStore.Listing.{Page, list_parts}
use zls.Db.MetaStore.Rows.{get_multipart_upload, delete_multipart_upload}
use zls.Api.Multipart.{Env, all_parts, lower_all}
use zls.Util.Status.{Status, Result, value, failed, code_value, no_such_upload, is_ok}

pub data AbortReply : Type 0 where
  no_content : AbortReply
  upload_not_found abort_failed : Bytes → AbortReply

-- The blobs of the parts, in their order.
unfoldable pub part_keys : Table ℕ PartRow → List Bytes
part_keys [] = []
part_keys ((n, r) ∷ ps) = r.cas_key ∷ part_keys ps

module _ (env : Env) where
  -- Parts that cannot be listed keep their references.
  unfoldable pub release_parts : Result (Page ℕ PartRow) → Session → List Bytes × Session
  release_parts (failed e) s = ([], s)
  release_parts (value page) s = lower_all env (part_keys page.rows) s

  unfoldable pub abort_reply : Status → AbortReply
  abort_reply status =
      if is_ok status then no_content else abort_failed (codes "Failed to abort upload")

  unfoldable pub abort_after_get :
      Bytes → Result UploadRow → Session → AbortReply × (Session × List Bytes)
  abort_after_get u (failed e) s =
      if code_value e.code == code_value no_such_upload
      then (upload_not_found (codes "Upload not found"), (s, []))
      else (abort_failed (codes "Failed to get upload"), (s, []))
  abort_after_get u (value row) s =
      let (parts, s1) = list_parts env.server env.connected u 0 all_parts s in
      let (pending, s2) = release_parts parts s1 in
      let (status, s3) = delete_multipart_upload env.server env.connected u s2 in
      (abort_reply status, (s3, pending))

  -- The reply, the session, and what is handed to the garbage collector.
  unfoldable pub abort_upload : Bytes → Session → AbortReply × (Session × List Bytes)
  abort_upload u s =
      let (row, s') = get_multipart_upload env.server env.connected u s in abort_after_get u row s'
