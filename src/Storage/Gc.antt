-- ===== src/Storage/Gc.antt =====
-- src/storage/gc.h and gc.cpp, `GarbageCollector`: the queue of files to delete, and `ProcessBatch`.
-- What the metadata store and the file system answer for a file is an `Answers` argument: the two
-- checks for references, and whether the rename, the way back and the removal succeed. A quarantine
-- path has a fresh UUID, so a file is in its place, in its own quarantine, or gone. One batch runs
-- without other writers to these files.
pub mod Safety
use zls.Base.{
  ℕ, zero, suc, ◌+◌, Bool, true, false, List, [], ◌∷◌, ◌++◌, Option, none, some, if◌then◌else◌,
}
use zls.Base.Bytes.{Bytes, eq_bytes}

pub data Place : Type 0 where
  present quarantined missing : Place

-- `none` for a check that failed.
pub record Answers : Type 0 where
  pub reclaimable_before : Option Bool
  pub renamed : Bool
  pub reclaimable_after : Option Bool
  pub restored : Bool
  pub removed : Bool

-- What becomes of one file: where it is, what is counted, what `delete_callback_` is told.
pub record Outcome : Type 0 where
  pub place : Place
  pub successes : ℕ
  pub failures : ℕ
  pub told : Option Bool

abbrev pub skip : Place → Outcome
skip p = record { place = p; successes = 0; failures = 0; told = none }

abbrev pub count_failure : Place → Outcome
count_failure p = record { place = p; successes = 0; failures = 1; told = none }

-- Move a quarantined file back.
unfoldable pub restore : Answers → Place
restore a = if a.restored then present else quarantined

-- The second check, of a file that was moved to quarantine.
unfoldable pub recheck_quarantined : Answers → Option Bool → Outcome
recheck_quarantined a none = count_failure (restore a)
recheck_quarantined a (some false) = if a.restored then skip present else count_failure quarantined
recheck_quarantined a (some true) =
    if a.removed
    then record { place = missing; successes = 1; failures = 0; told = some true }
    else record { place = quarantined; successes = 0; failures = 1; told = some false }

-- The second check, of a file that was not in its place.
unfoldable pub recheck_absent : Place → Option Bool → Outcome
recheck_absent p none = count_failure p
recheck_absent p (some false) = skip p
recheck_absent p (some true) = record { place = p; successes = 1; failures = 0; told = some true }

unfoldable pub quarantine : Answers → Place → Outcome
quarantine a present =
    if a.renamed then recheck_quarantined a a.reclaimable_after else count_failure present
quarantine a quarantined = recheck_absent quarantined a.reclaimable_after
quarantine a missing = recheck_absent missing a.reclaimable_after

unfoldable pub process_checked : Answers → Option Bool → Place → Outcome
process_checked a none p = count_failure p
process_checked a (some false) p = skip p
process_checked a (some true) p = quarantine a p

unfoldable pub process_key : Answers → Place → Outcome
process_key a p = process_checked a a.reclaimable_before p

-- The batch that is taken off the queue, and the queue after it.
unfoldable pub take_batch : ℕ → List Bytes → List Bytes × List Bytes
take_batch n [] = ([], [])
take_batch zero (k ∷ ks) = ([], k ∷ ks)
take_batch (suc n) (k ∷ ks) = let (batch, rest) = take_batch n ks in (k ∷ batch, rest)

unfoldable pub enqueue : List Bytes → Bytes → List Bytes
enqueue pending key = pending ++ (key ∷ [])

unfoldable pub enqueue_batch : List Bytes → List Bytes → List Bytes
enqueue_batch pending [] = pending
enqueue_batch pending (key ∷ keys) = enqueue_batch (enqueue pending key) keys

-- All files: where each is.
abbrev pub Files : Type 0
Files = Bytes → Place

unfoldable pub put : Files → Bytes → Place → Files
put files key p = λ k. if eq_bytes key k then p else files k

-- A run over a batch: the files after it, and the numbers of successes and failures.
unfoldable pub process_all : (Bytes → Answers) → List Bytes → Files → Files × (ℕ × ℕ)
process_all answers [] files = (files, (0, 0))
process_all answers (key ∷ keys) files =
    let o = process_key (answers key) (files key) in
    let (files', (s, f)) = process_all answers keys (put files key o.place) in
    (files', (o.successes + s, o.failures + f))

-- The queue and the files after `ProcessBatch`, and what it has counted.
unfoldable pub process_batch :
    (Bytes → Answers) → ℕ → List Bytes → Files → List Bytes × (Files × (ℕ × ℕ))
process_batch answers batch_size pending files =
    let (batch, rest) = take_batch batch_size pending in (rest, process_all answers batch files)
