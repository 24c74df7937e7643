-- ===== src/Storage/DataStore.antt =====
-- src/storage/data_store.h and data_store.cpp, `WriteSession` and `DataStore`, on a file system that is a
-- table of paths and contents. What the system calls answer is an argument: SHA-256 is a parameter.
-- When the list of answers to `read` or `write` is used up, the next call takes all that is left.
-- A temporary file has a fresh name that no one else uses.
pub mod Addresses
pub mod Writes
pub mod Merges
use zls.Base.{
  ℕ, zero, suc, ◌+◌, Bool, true, false, not, ◌&&◌, Option, none, some, List, [], ◌∷◌, ◌++◌,
  if◌then◌else◌, min, length, take, drop,
}
use zls.Base.Bytes.{Bytes, codes, eq_bytes, is_empty}
use zls.Base.Tables.{Table, bytes_key, row_of, put_row, remove_row}
use zls.Storage.Cas.{get_cas_path}
use zls.Util.Status.{
  Status, ok_status, is_ok, Result, value, failed, ErrorCode, internal_error, storage_error,
  checksum_mismatch, no_such_key, invalid_argument,
}

abbrev pub Files : Type 0
Files = Table Bytes Bytes

-- What `write` took, and what `read` delivered (at least one byte before the end of the file).
pub data Wrote : Type 0 where
  took : ℕ → Wrote
  write_interrupted write_refused : Wrote

pub data Got : Type 0 where
  got : ℕ → Got
  read_interrupted read_refused : Got

-- The end of a commit: `CreateDirectories`, `AtomicRename`, and whether a file can be removed.
pub record Moves : Type 0 where
  pub directory_made : Status
  pub renamed : Status
  pub removed : Bool

pub record WriteSession : Type 0 where
  pub tmp_path : Bytes
  pub is_open : Bool
  pub bytes_written : ℕ
  pub hashed : Bytes
  pub finished : Bool

abbrev pub storage_failure : Status
storage_failure = record { code = storage_error; message = [] }

-- The contents of a file that is being written.
unfoldable pub contents_of : Option Bytes → Bytes
contents_of none = []
contents_of (some c) = c

-- The loop of `write` calls over `rest`, behind the bytes `file`.
unfoldable pub write_loop : List Wrote → Bytes → Bytes → Bool × Bytes
write_loop os [] file = (true, file)
write_loop [] (b ∷ bs) file = (true, file ++ (b ∷ bs))
write_loop (took n ∷ os) (b ∷ bs) file = write_loop os (drop n (b ∷ bs)) (file ++ take n (b ∷ bs))
write_loop (write_interrupted ∷ os) (b ∷ bs) file = write_loop os (b ∷ bs) file
write_loop (write_refused ∷ os) (b ∷ bs) file = (false, file)

unfoldable pub written : WriteSession → Bytes → Bool → Status × WriteSession
written s d true =
    (ok_status, record s { hashed = s.hashed ++ d; bytes_written = s.bytes_written + length d })
written s d false = (storage_failure, s)

unfoldable pub write : List Wrote → Bytes → WriteSession → Files → Status × (WriteSession × Files)
write os d s files =
    if s.finished
    then (
      record { code = internal_error; message = codes "WriteSession already finished" },
      (s, files),
    )
    else (let (ok, file) = write_loop os d (contents_of (row_of s.tmp_path files)) in
        let (status, s') = written s d ok in (status, (s', put_row s.tmp_path file files)))

-- `Abort`, which the destructor calls for an unfinished session; `removed` tells whether `unlink` works.
unfoldable pub abort : Bool → WriteSession → Files → WriteSession × Files
abort removed s files = (
  record s { is_open = false; tmp_path = []; finished = true },
  if not (is_empty s.tmp_path) && removed then remove_row s.tmp_path files else files,
)

unfoldable pub destroy : Bool → WriteSession → Files → Files
destroy removed s files =
    if not s.finished && s.is_open
    then (let (s', files') = abort removed s files in files')
    else files

unfoldable pub drop_file : Moves → Bytes → Files → Files
drop_file m tmp files = if m.removed then remove_row tmp files else files

unfoldable pub rename : Bytes → Bytes → Option Bytes → Files → Files
rename tmp path none files = files
rename tmp path (some c) files = put_row path c (remove_row tmp files)

-- Into place, or away when the blob is there already or something fails.
unfoldable pub place : Bytes → Moves → Bytes → Bytes → Option Bytes → Files → Result Bytes × Files
place base m tmp cas_key (some c) files = (value cas_key, drop_file m tmp files)
place base m tmp cas_key none files =
    if is_ok m.directory_made
    then (if is_ok m.renamed
        then (value cas_key, rename tmp (get_cas_path base cas_key) (row_of tmp files) files)
        else (failed m.renamed, drop_file m tmp files))
    else (failed m.directory_made, drop_file m tmp files)

module _ (sha256 : Bytes → Bytes) where
  unfoldable pub finish : WriteSession → Result Bytes × WriteSession
  finish s =
      if s.finished
      then (
        failed (record { code = internal_error; message = codes "WriteSession already finished" }),
        s,
      )
      else (value (sha256 s.hashed), record s { finished = true; is_open = false })

  unfoldable pub commit_key : Bytes → Moves → Bytes → Bytes → Bytes → Files → Result Bytes × Files
  commit_key base m expected tmp cas_key files =
      if not (is_empty expected) && not (eq_bytes cas_key expected)
      then (
        failed (record {
          code = checksum_mismatch;
          message = codes "SHA256 mismatch: expected " ++ (expected ++ (codes ", got " ++ cas_key));
        }),
        drop_file m tmp files,
      )
      else place base m tmp cas_key (row_of (get_cas_path base cas_key) files) files

  unfoldable pub commit_finished :
      Bytes → Moves → Bytes → Bytes → Result Bytes → Files → Result Bytes × Files
  commit_finished base m expected tmp (failed e) files = (failed e, files)
  commit_finished base m expected tmp (value cas_key) files =
      commit_key base m expected tmp cas_key files

  unfoldable pub commit_write : Bytes → Moves → Bytes → WriteSession → Files → Result Bytes × Files
  commit_write base m expected s files =
      let (r, s') = finish s in commit_finished base m expected s'.tmp_path r files

-- The loop of `read` calls over what is left of the file: `none` when a call fails.
unfoldable pub read_loop : List Got → Bytes → Bytes → Option Bytes
read_loop os [] data_read = some data_read
read_loop [] (b ∷ bs) data_read = some (data_read ++ (b ∷ bs))
read_loop (got n ∷ os) (b ∷ bs) data_read =
    read_loop os (drop (suc n) (b ∷ bs)) (data_read ++ take (suc n) (b ∷ bs))
read_loop (read_interrupted ∷ os) (b ∷ bs) data_read = read_loop os (b ∷ bs) data_read
read_loop (read_refused ∷ os) (b ∷ bs) data_read = none

unfoldable pub read_result : Option Bytes → Result Bytes
read_result none = failed storage_failure
read_result (some d) = value d

unfoldable pub no_cas : Bytes → Status
no_cas cas_key = record { code = no_such_key; message = codes "CAS not found: " ++ cas_key }

unfoldable pub read_file : List Got → Bytes → Option Bytes → Result Bytes
read_file os cas_key none = failed (no_cas cas_key)
read_file os cas_key (some c) = read_result (read_loop os c [])

unfoldable pub read : Bytes → List Got → Bytes → Files → Result Bytes
read base os cas_key files = read_file os cas_key (row_of (get_cas_path base cas_key) files)

-- `BeginWrite` when `open` works.
abbrev pub new_session : Bytes → WriteSession
new_session tmp = record {
  tmp_path = tmp;
  is_open = true;
  bytes_written = 0;
  hashed = [];
  finished = false;
}

module _ (sha256 : Bytes → Bytes) where
  -- `Write` of a whole blob; `opened` tells whether the temporary file can be made.
  unfoldable pub write_blob :
      Bytes → Moves → Bool → Bytes → List Wrote → Bytes → Files → Result Bytes × Files
  write_blob base m opened tmp os d files =
      if opened
      then (let (status, (s, files')) = write os d (new_session tmp) (put_row tmp [] files) in
          if is_ok status
          then commit_write sha256 base m [] s files'
          else (failed status, destroy m.removed s files'))
      else (failed storage_failure, files)

-- One turn of the copying loop of `Merge`: a `read`, and the `write` calls for what it delivered.
pub data Turn : Type 0 where
  moved : ℕ → List Wrote → Turn
  turn_interrupted turn_refused : Turn

abbrev pub buffer_size : ℕ
buffer_size = 65536

-- What is hashed and what is in the merged file.
pub data Merged : Type 0 where
  merged : Bytes → Bytes → Merged
  merge_failed : Status → Bytes → Merged

unfoldable pub copy_file : List Turn → Bytes → Bytes → Bytes → Merged
copy_file os [] hashed file = merged hashed file
copy_file [] (b ∷ bs) hashed file = merged (hashed ++ (b ∷ bs)) (file ++ (b ∷ bs))
copy_file (turn_interrupted ∷ os) (b ∷ bs) hashed file = copy_file os (b ∷ bs) hashed file
copy_file (turn_refused ∷ os) (b ∷ bs) hashed file = merge_failed storage_failure file
copy_file (moved n ws ∷ os) (b ∷ bs) hashed file =
    let chunk = take (min (suc n) buffer_size) (b ∷ bs) in
    let (ok, file') = write_loop ws chunk file in
    let rest = copy_file os (drop (min (suc n) buffer_size) (b ∷ bs)) (hashed ++ chunk) file' in
    if ok then rest else merge_failed storage_failure file'

-- One source after the other. `turns` are the answers for each.
unfoldable pub copy_source : List Turn → Bytes → Option Bytes → Bytes → Bytes → Merged
copy_source turns cas_key none hashed file = merge_failed (no_cas cas_key) file
copy_source turns cas_key (some c) hashed file = copy_file turns c hashed file

unfoldable pub and_then : Merged → (Bytes → Bytes → Merged) → Merged
and_then (merged hashed file) next = next hashed file
and_then (merge_failed e file) next = merge_failed e file

unfoldable pub copy_all : (Bytes → List Turn) → Bytes → Files → List Bytes → Bytes → Bytes → Merged
copy_all turns base files [] hashed file = merged hashed file
copy_all turns base files (k ∷ ks) hashed file =
    and_then (copy_source (turns k) k (row_of (get_cas_path base k) files) hashed file)
      (copy_all turns base files ks)

module _ (sha256 : Bytes → Bytes) where
  unfoldable pub place_merged : Bytes → Moves → Bytes → Merged → Files → Result Bytes × Files
  place_merged base m tmp (merged hashed file) files =
      let files' = put_row tmp file files in
      place base m tmp (sha256 hashed) (row_of (get_cas_path base (sha256 hashed)) files') files'
  place_merged base m tmp (merge_failed e file) files =
      (failed e, drop_file m tmp (put_row tmp file files))

  unfoldable pub merge :
      Bytes → Moves → Bool → Bytes → (Bytes → List Turn) → List Bytes → Files → Result Bytes × Files
  merge base m opened tmp turns [] files =
      (failed (record { code = invalid_argument; message = codes "No CAS keys to merge" }), files)
  merge base m opened tmp turns (k ∷ ks) files =
      if opened
      then place_merged base m tmp (copy_all turns base files (k ∷ ks) [] []) files
      else (failed storage_failure, files)
