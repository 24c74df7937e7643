-- ===== src/Tests/MetaStore.antt =====
-- Runs of the metadata store at a server that refuses a statement.
use zls.Base.{
  ◌≡◌, refl, ℕ, Bool, true, false, Option, none, some, [], ◌∷◌, if◌then◌else◌, ◌==◌, arith, ◌+◌,
  ◌≤◌, ltb, take, drop, replicate, ◌++◌,
}
use zls.Base.Bytes.{Bytes, codes, eq_bytes}
use zls.Base.Tables.{Table, row_of, total}
use zls.Db.Sql.{
  ObjectKey, ObjectRow, object_key_test, PartRow, Tables, Sql, start_transaction, rollback_work,
  count_objects, count_parts,
}
use zls.Db.Transaction.{Server, Session}
use zls.Db.Transaction.Triples.{IsSteady, IsClosed}
use zls.Db.MetaStore.{
  put_object_with_ref_count, put_part_with_ref_count, delete_object_with_ref_count,
  can_delete_cas_blob,
}
use zls.Db.MetaStore.Counts.{ref_count, count_in, uses}
use zls.Db.MetaStore.Attempts.{Called}
use zls.Db.MetaStore.Balance.{Surplus}
use zls.Db.MetaStore.Clashes.{Clash, Clashes, put_object-Clash}
use zls.Db.MetaStore.Puts
use zls.Db.MetaStore.Parts
use zls.Db.MetaStore.Deletes
use zls.Db.MetaStore.Collecting.{Answers, can_delete-Answers}
use zls.Db.Sql.{
  perform, insert_object_row, row_by_unique_key, overwrite_by_unique_key, add_to_blob, update_blob,
}
use zls.Db.Transaction.{
  transaction, conclude, commit_answer, commit, destroy, rollback, begin, ended, rolled_back,
  started, tx_execute, tx_query, execute, query, read, run_sql, settle, keep, tick, ◌>>=◌, continue,
  pure, raise,
}
use zls.Db.MetaStore.{
  retry, next_attempt, put_object_attempt, after_fast, insert_object_fast, insert_or_mark,
  overwrite_object, move_reference, lower, cas_of_object, is_zero, mark_duplicate, is_duplicate,
  is_retryable, text_of,
}
use zls.Base.Bytes.{contains, starts_with, is_empty}
use zls.Base.Tables.{put_row}
use zls.Db.MetaStore.Listing.{first_page, page_after, order_by, insert_ordered}
use zls.Db.MetaStore.Listing.Pages.{page_after-first_page}
use zls.Db.MetaStore.Rows.Cover.{Call, drop_upload, run_call, Covered, run_call-Covered}
use zls.Util.Status.{value}

-- The third statement meets a deadlock.
abbrev refuse_third : ℕ → Sql → Option Bytes
refuse_third n q = elim q [
  | start_transaction ↦ none
  | rollback_work ↦ none
  | _ ↦ if n == 2 then some (codes "Deadlock found") else none
]

abbrev server : Server
server = record { answer = refuse_third; landed = λ n. false }

server-IsSteady : IsSteady server
server-IsSteady = record { starts = λ n. refl; rolls_back = λ n. refl }

abbrev old_row : ObjectRow
old_row = record { cas_key = codes "A"; size = 1; content_type = []; etag = [] }

abbrev new_row : ObjectRow
new_row = record { cas_key = codes "B"; size = 2; content_type = []; etag = [] }

abbrev part_row : PartRow
part_row = record { cas_key = codes "B"; size = 2; etag = [] }

abbrev object_key : ObjectKey
object_key = (1, codes "k")

abbrev tables : Tables
tables = record {
  objects = (object_key, old_row) ∷ [];
  cas_blobs = (codes "A", record { size = 1; ref_count = 1 }) ∷ [];
  parts = [];
  uploads = [];
}

abbrev session : Session
session = record {
  committed = tables;
  working = tables;
  in_transaction = false;
  clock = 0;
  finished = false;
}

session-IsClosed : IsClosed tables session
session-IsClosed = record { committed_is = refl; working_is = refl; is_closed = refl }

abbrev no_surplus : Bytes → ℕ
no_surplus cas = 0

tables-Surplus : Surplus no_surplus tables
unfolding Surplus ref_count uses count_objects count_parts total row_of count_in
tables-Surplus c cs = by_test (eq_bytes (codes "A") (c ∷ cs))
  where
    by_test :
        (b : Bool)
        → count_in (if b then some (record { size = 1; ref_count = 1 }) else none)
          ≡ (if b then 1 else 0) + 0 + 0 + 0
    by_test true = refl
    by_test false = refl

-- The second attempt overwrites the object, and its old blob has no references left.
put_retried :
    (put_object_with_ref_count server true object_key new_row session).0 ≡ value (some (codes "A"))
unfolding put_object_with_ref_count retry next_attempt put_object_attempt after_fast
    insert_object_fast insert_or_mark overwrite_object move_reference lower transaction conclude
    commit_answer commit destroy rollback begin ended rolled_back started tx_execute tx_query
    execute query read run_sql settle keep tick ◌>>=◌ continue pure raise perform insert_object_row
    row_by_unique_key overwrite_by_unique_key add_to_blob update_blob put_row row_of cas_of_object
    is_zero mark_duplicate is_duplicate is_retryable text_of contains starts_with is_empty eq_bytes
put_retried = refl

-- Two names that agree on 255 characters.
abbrev long_name : ℕ → ObjectKey
long_name c = (1, replicate 255 97 ++ (c ∷ []))

abbrev other_objects : Table ObjectKey ObjectRow
other_objects = (long_name 120, old_row) ∷ []

abbrev other_tables : Tables
other_tables = record tables { objects = other_objects }

abbrev other_session : Session
other_session = record session { committed = other_tables; working = other_tables }

other_session-IsClosed : IsClosed other_tables other_session
other_session-IsClosed = record { committed_is = refl; working_is = refl; is_closed = refl }

other_tables-Clashes : Clashes (long_name 121) other_tables
unfolding row_of row_by_unique_key eq_bytes
other_tables-Clashes = (old_row, (refl, refl))

put_object-Clash_example :
    Called
      (Clashes (long_name 121))
      (λ _ t. Clash (long_name 121) new_row t)
      (put_object_with_ref_count server true (long_name 121) new_row other_session)
put_object-Clash_example =
    put_object-Clash server server-IsSteady (long_name 121) new_row true other_tables other_session
      other_session-IsClosed other_tables-Clashes

abbrev accepts : Server
accepts = record { answer = λ n q. none; landed = λ n. false }

-- `PutObjectWithRefCount` reports success for the second of them, and it is not there.
put_other_name :
    let (r, s) = put_object_with_ref_count accepts true (long_name 121) new_row other_session in
    (r ≡ value none) × (row_of (long_name 121) s.committed.objects ≡ none)
unfolding put_object_with_ref_count retry next_attempt put_object_attempt after_fast
    insert_object_fast insert_or_mark overwrite_object move_reference lower transaction conclude
    commit_answer commit destroy rollback begin ended rolled_back started tx_execute tx_query
    execute query read run_sql settle keep tick ◌>>=◌ continue pure raise perform insert_object_row
    row_by_unique_key overwrite_by_unique_key add_to_blob update_blob put_row row_of cas_of_object
    is_zero mark_duplicate is_duplicate is_retryable text_of contains starts_with is_empty eq_bytes
put_other_name = (refl, refl)

put_object-IsStored_example :
    Called
      (Puts.IsKept no_surplus object_key tables)
      (Puts.IsStored no_surplus object_key new_row tables)
      (put_object_with_ref_count server true object_key new_row session)
put_object-IsStored_example =
    Puts.put_object-IsStored server server-IsSteady true no_surplus object_key new_row tables
      session session-IsClosed tables-Surplus ((λ e. refl), tt)

put_part-IsStored_example :
    Called
      (Parts.IsKept no_surplus (codes "u", 1) tables)
      (Parts.IsStored no_surplus (codes "u", 1) part_row tables)
      (put_part_with_ref_count server true (codes "u", 1) part_row session)
put_part-IsStored_example =
    Parts.put_part-IsStored server server-IsSteady true no_surplus (codes "u", 1) part_row tables
      session session-IsClosed tables-Surplus

delete_object-IsDeleted_example :
    Called
      (Deletes.IsKept no_surplus object_key tables)
      (Deletes.IsDeleted no_surplus object_key tables)
      (delete_object_with_ref_count server true object_key session)
delete_object-IsDeleted_example =
    Deletes.delete_object-IsDeleted server server-IsSteady true no_surplus object_key tables session
      session-IsClosed tables-Surplus

can_delete-Answers_example :
    Called
      (λ u. u ≡ tables)
      (Answers (codes "A") tables)
      (can_delete_cas_blob server true (codes "A") session)
can_delete-Answers_example =
    can_delete-Answers server server-IsSteady true (codes "A") tables session session-IsClosed

abbrev three_parts : Table ℕ PartRow
three_parts = (3, part_row) ∷ (1, part_row) ∷ (2, part_row) ∷ []

ltb_asym : (a b : ℕ) → ltb a b ≡ true → ltb b a ≡ false
ltb_asym a b h = ground arith

-- Part 2 is on neither page.
page_after-first_page_example :
    ((first_page ltb 1 three_parts).rows ≡ take 1 (order_by ltb three_parts))
    × ((first_page ltb 1 three_parts).next_marker ≡ some 2)
    × ((page_after ltb 2 1 three_parts).rows ≡ take 1 (drop 2 (order_by ltb three_parts)))
unfolding order_by insert_ordered
page_after-first_page_example =
    page_after-first_page ltb ltb_asym 1 three_parts (2, part_row)
      ((refl, (refl, tt)), ((refl, tt), (tt, tt))) refl

abbrev with_upload : Call
with_upload = drop_upload (codes "u")

tables-Covered : Covered tables
unfolding Covered ref_count uses count_objects count_parts total row_of count_in
tables-Covered cas = by_test (eq_bytes (codes "A") cas)
  where
    by_test :
        (b : Bool)
        → (if b then 1 else 0) + 0 + 0
          ≤ count_in (if b then some (record { size = 1; ref_count = 1 }) else none)
    by_test true = omega arith
    by_test false = omega arith

run_call-Covered_example :
    (u : Tables) × (IsClosed u (run_call server true with_upload session).1 × Covered u)
run_call-Covered_example =
    run_call-Covered server true with_upload tables session session-IsClosed tables-Covered
