-- ===== src/Tests/DataStore.antt =====
-- Runs of the data store, with a hash that is easy to compute in place of SHA-256.
use zls.Base.{◌≡◌, inl, refl, true, false, List, [], ◌∷◌}
use zls.Base.Bytes.{Bytes, codes, starts_with, eq_bytes, is_empty}
use zls.Base.Tables.{put_row, row_of, remove_row, Every}
use zls.Storage.Cas.{get_cas_path, get_cas_dir, join_path, is_absolute, ends_with_slash}
use zls.Storage.DataStore.{
  Files, Moves, took, write_interrupted, Turn, moved, turn_interrupted, write_blob, write,
  write_loop, written, contents_of, commit_write, finish, commit_finished, commit_key, place,
  rename, merge,
}
use zls.Storage.DataStore.Addresses.{IsAddressed, Placed}
use zls.Storage.DataStore.Writes.{write_blob-Placed}
use zls.Storage.DataStore.Merges.{joined, MergedInto, merge-MergedInto}
use zls.Util.Status.{ok_status, value, is_ok, code_value}

unfoldable hash : Bytes → Bytes
hash [] = codes "aaaa"
hash (x ∷ xs) = 98 ∷ 98 ∷ 98 ∷ 98 ∷ x ∷ []

abbrev base : Bytes
base = codes "/d"

abbrev tmp_dir : Bytes
tmp_dir = codes "/t"

abbrev tmp : Bytes
tmp = codes "/t/1"

abbrev moves : Moves
moves = record { directory_made = ok_status; renamed = ok_status; removed = true }

hash-apart : (c : Bytes) → starts_with tmp_dir (get_cas_path base (hash c)) ≡ false
unfolding hash get_cas_path get_cas_dir join_path starts_with is_absolute ends_with_slash is_empty
hash-apart [] = refl
hash-apart (x ∷ xs) = refl

abbrev old_path : Bytes
old_path = get_cas_path base (hash (codes "x"))

abbrev files : Files
files = (old_path, codes "x") ∷ []

tmp_is_temporary : starts_with tmp_dir tmp ≡ true
unfolding starts_with
tmp_is_temporary = refl

tmp-old_path : eq_bytes tmp old_path ≡ false
unfolding eq_bytes get_cas_path get_cas_dir join_path hash is_absolute ends_with_slash is_empty
tmp-old_path = refl

files_addressed : Every (IsAddressed hash base tmp_dir) files
files_addressed = (inl refl, tt)

write_blob-Placed_example :
    Placed hash base tmp_dir old_path
      (hash (codes "data"))
      (codes "data")
      files
      (write_blob hash base moves true tmp (took 2 ∷ write_interrupted ∷ []) (codes "data") files)
write_blob-Placed_example =
    write_blob-Placed hash base tmp_dir hash-apart moves tmp old_path tmp_is_temporary tmp-old_path
      files files_addressed true (took 2 ∷ write_interrupted ∷ []) (codes "data")

abbrev turns : Bytes → List Turn
turns k = moved 0 (took 1 ∷ []) ∷ turn_interrupted ∷ []

merge-MergedInto_example :
    MergedInto hash base tmp_dir hash-apart moves tmp old_path tmp_is_temporary tmp-old_path files
      files_addressed
      (joined base files (hash (codes "x") ∷ []))
      (merge hash base moves true tmp turns (hash (codes "x") ∷ []) files)
merge-MergedInto_example =
    merge-MergedInto hash base tmp_dir hash-apart moves tmp old_path tmp_is_temporary tmp-old_path
      files files_addressed true turns (hash (codes "x") ∷ [])

-- The interrupted write of a blob ends with its key.
write_blob_run :
    (write_blob hash base moves true tmp (took 2 ∷ write_interrupted ∷ []) (codes "data") files).0
    ≡ value (hash (codes "data"))
unfolding write_blob write write_loop written contents_of commit_write finish commit_finished
    commit_key place rename get_cas_path get_cas_dir join_path hash is_absolute ends_with_slash
    is_empty eq_bytes row_of put_row remove_row is_ok code_value
write_blob_run = refl
