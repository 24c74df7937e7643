-- ===== src/Db/Sql.antt =====
-- The tables of scripts/mysql_init.sql, with the columns that src/db/meta_store.cpp reads and writes, and
-- what the SQL statements of that file do to them. Left out are the row numbers and the times. The keys
-- of blobs and of uploads are hexadecimal digits in one case, which the server compares byte by byte.
use zls.Base.{
  ℕ, ◌+◌, ◌-◌, ◌≡◌, ◌↔◌, Bool, true, ◌&&◌, List, [], ◌∷◌, take, Option, none, some, if◌then◌else◌,
  ◌==◌,
}
use zls.Base.Bytes.{Bytes, eq_bytes, eq_bytes_iff, codes}
use zls.Base.Tests.{==_iff}
use zls.Base.Tables.{Key, bytes_key, Table, row_of, put_row, remove_row, total}
use native.Mathlib.Omega.{arith}

-- The name of an object as the server compares it: the list of its characters, where those that the
-- collation of the database takes for one character, as `a` and `A`, are one number. Two names that
-- the server takes for one are one here; blanks at the end do not count.
abbrev pub Name : Type 0
Name = List ℕ

-- A row of `objects`; its key is the bucket and the object's name.
pub record ObjectRow : Type 0 where
  pub cas_key : Bytes
  pub size : ℕ
  pub content_type : Bytes
  pub etag : Bytes

pub record CasBlob : Type 0 where
  pub size : ℕ
  pub ref_count : ℕ

-- A row of `multipart_parts`; its key is the upload and the part's number.
pub record PartRow : Type 0 where
  pub cas_key : Bytes
  pub size : ℕ
  pub etag : Bytes

pub record UploadRow : Type 0 where
  pub bucket_id : ℕ
  pub object_key : Name
  pub content_type : Bytes

abbrev pub ObjectKey : Type 0
ObjectKey = ℕ × Name

-- The unique key of `objects`: `uk_bucket_key (bucket_id, object_key(255))`.
abbrev pub unique_key : ObjectKey → ObjectKey
unique_key (b, name) = (b, take 255 name)

abbrev pub PartKey : Type 0
PartKey = Bytes × ℕ

abbrev pub same_object : ObjectKey → ObjectKey → Bool
same_object (b, k) (c, j) = b == c && eq_bytes k j

pub same_object_iff : (x y : ObjectKey) → (same_object x y ≡ true) ↔ (x ≡ y)
same_object_iff (b, k) (c, j) = (
  (λ h. ground (arith, ==_iff b c, eq_bytes_iff k j)),
  λ h. ground (arith, ==_iff b c, eq_bytes_iff k j),
)

abbrev pub same_part : PartKey → PartKey → Bool
same_part (u, n) (v, m) = eq_bytes u v && n == m

pub same_part_iff : (x y : PartKey) → (same_part x y ≡ true) ↔ (x ≡ y)
same_part_iff (u, n) (v, m) = (
  (λ h. ground (arith, ==_iff n m, eq_bytes_iff u v)),
  λ h. ground (arith, ==_iff n m, eq_bytes_iff u v),
)

instance abbrev pub object_key_test : Key ObjectKey
object_key_test = record { same = same_object; same_iff = same_object_iff }

instance abbrev pub part_key_test : Key PartKey
part_key_test = record { same = same_part; same_iff = same_part_iff }

pub record Tables : Type 0 where
  pub objects : Table ObjectKey ObjectRow
  pub cas_blobs : Table Bytes CasBlob
  pub parts : Table PartKey PartRow
  pub uploads : Table Bytes UploadRow

-- One for a row that names the blob.
abbrev pub names : Bytes → Bytes → ℕ
names cas k = if eq_bytes k cas then 1 else 0

-- `SELECT COUNT(*) FROM objects WHERE cas_key=...`, and the same from `multipart_parts`.
unfoldable pub count_objects : Bytes → Tables → ℕ
count_objects cas t = total (λ (r : ObjectRow). names cas r.cas_key) t.objects

unfoldable pub count_parts : Bytes → Tables → ℕ
count_parts cas t = total (λ (r : PartRow). names cas r.cas_key) t.parts

-- The statements, named for what they do. A `SELECT` stands here for its chance to fail.
pub data Sql : Type 0 where
  start_transaction commit_work rollback_work select : Sql
  add_reference : Bytes → ℕ → Sql
  raise_count lower_count : Bytes → Sql
  delete_blob : Bytes → Sql
  insert_object upsert_object : ObjectKey → ObjectRow → Sql
  delete_object : ObjectKey → Sql
  upsert_part : PartKey → PartRow → Sql
  insert_upload : Bytes → UploadRow → Sql
  delete_upload : Bytes → Sql

-- A statement is refused with a message, or changes the tables.
pub data Effect : Type 0 where
  refused : Bytes → Effect
  changed : Tables → Effect

abbrev pub duplicate_entry : Bytes
duplicate_entry = codes "Duplicate entry"

-- `INSERT INTO cas_blobs ... VALUES (cas, size, 1) ON DUPLICATE KEY UPDATE ref_count = ref_count + 1`.
unfoldable pub add_to_blob : ℕ → Option CasBlob → CasBlob
add_to_blob size none = record { size = size; ref_count = 1 }
add_to_blob size (some b) = record b { ref_count = b.ref_count + 1 }

-- `UPDATE cas_blobs SET ref_count = ... WHERE cas_key=...` changes the one row there may be.
unfoldable pub update_blob :
    (ℕ → ℕ) → Bytes → Option CasBlob → Table Bytes CasBlob → Table Bytes CasBlob
update_blob f cas none t = t
update_blob f cas (some b) t = put_row cas (record b { ref_count = f b.ref_count }) t

-- The rows of other uploads: `ON DELETE CASCADE` takes the parts with their upload.
unfoldable pub without_upload : Bytes → Table PartKey PartRow → Table PartKey PartRow
without_upload u [] = []
without_upload u (((v, n), r) ∷ t) =
    let rest = without_upload u t in if eq_bytes v u then rest else ((v, n), r) ∷ rest

-- The row with the unique key of an object, which may have another name.
unfoldable pub row_by_unique_key : ObjectKey → Table ObjectKey ObjectRow → Option ObjectRow
row_by_unique_key k [] = none
row_by_unique_key k ((j, w) ∷ t) =
    if same_object (unique_key j) (unique_key k) then some w else row_by_unique_key k t

-- `INSERT INTO objects ... ON DUPLICATE KEY UPDATE`: the row with the unique key keeps its name.
unfoldable pub overwrite_by_unique_key :
    ObjectKey → ObjectRow → Table ObjectKey ObjectRow → Table ObjectKey ObjectRow
overwrite_by_unique_key k r [] = (k, r) ∷ []
overwrite_by_unique_key k r ((j, w) ∷ t) =
    if same_object (unique_key j) (unique_key k)
    then (j, r) ∷ t
    else (j, w) ∷ overwrite_by_unique_key k r t

-- `INSERT` into a table with a unique key: `old` is the row that has the key.
unfoldable pub insert_object_row : ObjectKey → ObjectRow → Option ObjectRow → Tables → Effect
insert_object_row k r none t = changed (record t { objects = put_row k r t.objects })
insert_object_row k r (some old) t = refused duplicate_entry

unfoldable pub insert_upload_row : Bytes → UploadRow → Option UploadRow → Tables → Effect
insert_upload_row u r none t = changed (record t { uploads = put_row u r t.uploads })
insert_upload_row u r (some old) t = refused duplicate_entry

unfoldable pub perform : Sql → Tables → Effect
perform start_transaction t = changed t
perform commit_work t = changed t
perform rollback_work t = changed t
perform select t = changed t
perform (add_reference cas size) t =
    changed
      (record t { cas_blobs = put_row cas (add_to_blob size (row_of cas t.cas_blobs)) t.cas_blobs })
perform (raise_count cas) t =
    changed
      (record t { cas_blobs = update_blob (λ n. n + 1) cas (row_of cas t.cas_blobs) t.cas_blobs })
perform (lower_count cas) t =
    changed
      (record t { cas_blobs = update_blob (λ n. n - 1) cas (row_of cas t.cas_blobs) t.cas_blobs })
perform (delete_blob cas) t =
    if count_objects cas t + count_parts cas t == 0
    then changed (record t { cas_blobs = remove_row cas t.cas_blobs })
    else refused (codes "a foreign key constraint fails")
perform (insert_object k r) t = insert_object_row k r (row_by_unique_key k t.objects) t
perform (upsert_object k r) t =
    changed (record t { objects = overwrite_by_unique_key k r t.objects })
perform (delete_object k) t = changed (record t { objects = remove_row k t.objects })
perform (upsert_part k r) t = changed (record t { parts = put_row k r t.parts })
perform (insert_upload u r) t = insert_upload_row u r (row_of u t.uploads) t
perform (delete_upload u) t =
    changed (record t { uploads = remove_row u t.uploads; parts = without_upload u t.parts })
