-- ===== src/Tests/Multipart.antt =====
-- Runs of the completion and of the abort of an upload of one part.
use zls.Base.{◌≡◌, inl, refl, ◌+◌, Bool, true, false, none, some, [], ◌∷◌, if◌then◌else◌}
use zls.Base.Bytes.{Bytes, codes, starts_with, eq_bytes, is_empty}
use zls.Base.Tables.{Every, total, row_of, remove_row, put_row}
use zls.Db.Sql.{PartRow, Tables, count_objects, count_parts, perform, update_blob}
use zls.Db.Transaction.{
  Server, Session, pure, raise, continue, ◌>>=◌, tick, keep, settle, run_sql, read, execute, query,
}
use zls.Db.Transaction.Triples.{IsSteady, IsClosed}
use zls.Db.MetaStore.Counts.{ref_count, count_in, uses}
use zls.Db.MetaStore.Balance.{Surplus}
use zls.Storage.Cas.{get_cas_path, get_cas_dir, join_path, is_absolute, ends_with_slash}
use zls.Storage.DataStore.{Files}
use zls.Storage.DataStore.Addresses.{IsAddressed}
use zls.Api.Multipart.{Env, completed, complete_upload, lower_all, is_zero_now}
use zls.Api.Multipart.Completed.{IsDone, complete_upload-IsDone}
use zls.Api.Multipart.Aborts.{
  no_content, abort_upload, abort_after_get, abort_reply, release_parts, part_keys,
}
use zls.Db.MetaStore.Listing.{
  list_parts, page_after, parts_of, fetch_rows, rows_after, order_by, insert_ordered, with_row,
}
use zls.Db.MetaStore.{report, is_zero}
use zls.Db.MetaStore.Rows.{
  get_multipart_upload, delete_multipart_upload, decrement_ref_count_and_check_zero,
  decrement_and_check, execute_status, found, report_upload, report_blob, status_of, unless_absent,
  is_absent, affects_none,
}
use zls.Util.Status.{ok_status, is_ok, code_value}

unfoldable hash : Bytes → Bytes
hash [] = codes "aaaa"
hash (x ∷ xs) = 98 ∷ 98 ∷ 98 ∷ 98 ∷ x ∷ []

abbrev accepts : Server
accepts = record { answer = λ n q. none; landed = λ n. false }

accepts-IsSteady : IsSteady accepts
accepts-IsSteady = record { starts = λ n. refl; rolls_back = λ n. refl }

abbrev env : Env
env = record {
  server = accepts;
  connected = true;
  sha256 = hash;
  base = codes "/d";
  moves = record { directory_made = ok_status; renamed = ok_status; removed = true };
  opened = true;
  tmp = codes "/t/1";
  turns = λ k. [];
  deleted = true;
}

env-apart : (c : Bytes) → starts_with (codes "/t") (get_cas_path env.base (hash c)) ≡ false
unfolding hash get_cas_path get_cas_dir join_path starts_with is_absolute ends_with_slash is_empty
env-apart [] = refl
env-apart (x ∷ xs) = refl

env_temporary : starts_with (codes "/t") env.tmp ≡ true
unfolding starts_with
env_temporary = refl

abbrev part_row : PartRow
part_row = record { cas_key = hash (codes "x"); size = 1; etag = codes "e" }

abbrev tables : Tables
tables = record {
  objects = [];
  cas_blobs = (hash (codes "x"), record { size = 1; ref_count = 1 }) ∷ [];
  parts = ((codes "u", 1), part_row) ∷ [];
  uploads = (codes "u", record { bucket_id = 1; object_key = codes "k"; content_type = [] }) ∷ [];
}

abbrev session : Session
session = record {
  committed = tables;
  working = tables;
  in_transaction = false;
  clock = 0;
  finished = false;
}

session-IsClosed : IsClosed tables session
session-IsClosed = record { committed_is = refl; working_is = refl; is_closed = refl }

tables-Surplus : Surplus (λ cas. 0) tables
unfolding Surplus ref_count uses count_objects count_parts total row_of count_in
tables-Surplus c cs = by_test (eq_bytes (hash (codes "x")) (c ∷ cs))
  where
    by_test :
        (b : Bool)
        → count_in (if b then some (record { size = 1; ref_count = 1 }) else none)
          ≡ 0 + ((if b then 1 else 0) + 0) + 0
    by_test true = refl
    by_test false = refl

abbrev files : Files
files = (get_cas_path env.base (hash (codes "x")), codes "x") ∷ []

files_addressed : Every (IsAddressed hash env.base (codes "/t")) files
files_addressed = (inl refl, tt)

complete_upload-IsDone_example :
    let o = complete_upload env (codes "u") ((1, codes "e") ∷ []) session files in
    IsDone env accepts-IsSteady
      (codes "/t")
      env-apart
      env_temporary
      files
      files_addressed
      (codes "u")
      ((1, codes "e") ∷ [])
      tables
      o.reply
      o.session
      o.files
complete_upload-IsDone_example =
    complete_upload-IsDone env accepts-IsSteady (codes "/t") env-apart env_temporary files
      files_addressed (codes "u") ((1, codes "e") ∷ []) (λ cas. 0) tables tables-Surplus
      (λ row e. tt) session session-IsClosed

-- The upload is aborted, its only blob goes to the garbage collector, and no upload is left.
abort_of_one_part :
    let (reply, (s, pending)) = abort_upload env (codes "u") session in
    (reply ≡ no_content) × (pending ≡ hash (codes "x") ∷ []) × (s.committed.uploads ≡ [])
unfolding page_after parts_of report report_blob status_of unless_absent is_absent affects_none
    perform pure raise continue ◌>>=◌ tick keep settle run_sql read execute query row_of remove_row
    lower_all is_zero_now list_parts get_multipart_upload delete_multipart_upload
    decrement_ref_count_and_check_zero decrement_and_check execute_status found report_upload is_ok
    abort_upload abort_after_get abort_reply release_parts part_keys eq_bytes code_value fetch_rows
    rows_after order_by insert_ordered with_row update_blob hash put_row is_zero
abort_of_one_part = (refl, refl, refl)

-- The upload of one part is completed: its blob is the part.
completion_of_one_part :
    (complete_upload env (codes "u") ((1, codes "e") ∷ []) session files).reply
    ≡ completed (hash (codes "x")) 1
unfolding hash zls.Api.Multipart.normalize_etag_value zls.Api.Multipart.with_part
    zls.Api.Multipart.check_parts zls.Api.Multipart.normalize_parts zls.Api.Multipart.after_put
    zls.Api.Multipart.merged_row zls.Api.Multipart.after_merge zls.Api.Multipart.after_check
    zls.Api.Multipart.after_list zls.Api.Multipart.after_upload zls.Api.Multipart.complete_upload
    zls.Db.MetaStore.mark_duplicate zls.Db.MetaStore.text_of zls.Db.MetaStore.report
    zls.Db.MetaStore.next_attempt zls.Db.MetaStore.retry zls.Db.MetaStore.lower
    zls.Db.MetaStore.move_reference zls.Db.MetaStore.insert_or_mark
    zls.Db.MetaStore.insert_object_fast zls.Db.MetaStore.overwrite_object
    zls.Db.MetaStore.after_fast zls.Db.MetaStore.put_object_attempt
    zls.Db.MetaStore.put_object_with_ref_count zls.Db.MetaStore.Listing.with_row
    zls.Db.MetaStore.Listing.fetch_rows zls.Db.MetaStore.Listing.insert_ordered
    zls.Db.MetaStore.Listing.order_by zls.Db.MetaStore.Listing.rows_after
    zls.Db.MetaStore.Listing.page_after zls.Db.MetaStore.Listing.parts_of
    zls.Db.MetaStore.Listing.list_parts zls.Db.MetaStore.Rows.report_upload
    zls.Db.MetaStore.Rows.found zls.Db.MetaStore.Rows.get_multipart_upload zls.Db.Sql.add_to_blob
    zls.Db.Sql.update_blob zls.Db.Sql.insert_object_row zls.Db.Sql.row_by_unique_key
    zls.Db.Sql.overwrite_by_unique_key zls.Db.Sql.perform zls.Db.Transaction.pure
    zls.Db.Transaction.raise zls.Db.Transaction.continue zls.Db.Transaction.◌>>=◌
    zls.Db.Transaction.tick zls.Db.Transaction.keep zls.Db.Transaction.settle
    zls.Db.Transaction.run_sql zls.Db.Transaction.read zls.Db.Transaction.execute
    zls.Db.Transaction.query zls.Db.Transaction.tx_execute zls.Db.Transaction.tx_query
    zls.Db.Transaction.started zls.Db.Transaction.ended zls.Db.Transaction.commit_answer
    zls.Db.Transaction.begin zls.Db.Transaction.rollback zls.Db.Transaction.destroy
    zls.Db.Transaction.commit zls.Db.Transaction.conclude zls.Db.Transaction.transaction
    zls.Storage.Cas.ends_with_slash zls.Storage.Cas.is_absolute zls.Storage.Cas.join_path
    zls.Storage.Cas.get_cas_dir zls.Storage.Cas.get_cas_path zls.Storage.DataStore.contents_of
    zls.Storage.DataStore.drop_file zls.Storage.DataStore.rename zls.Storage.DataStore.place
    zls.Storage.DataStore.write_blob zls.Storage.DataStore.copy_file
    zls.Storage.DataStore.copy_source zls.Storage.DataStore.and_then zls.Storage.DataStore.copy_all
    zls.Storage.DataStore.place_merged zls.Storage.DataStore.merge zls.Base.Tables.row_of
    zls.Base.Tables.put_row zls.Base.Bytes.eq_bytes zls.Base.Bytes.is_empty
completion_of_one_part = refl
