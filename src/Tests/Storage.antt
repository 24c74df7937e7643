-- ===== src/Tests/Storage.antt =====
-- Runs of the garbage collector and of the table of error codes.
use zls.Base.{◌≡◌, ◌≢◌, refl, ◌≤◌, ◌<◌, [], ◌∷◌, some, true, false}
use zls.Base.Bytes.{Bytes, codes}
use zls.Storage.Gc.{
  process_checked, quarantine, recheck_quarantined, restore, present, missing, Answers, Files,
  process_key, process_batch, process_checked, quarantine, recheck_quarantined,
}
use zls.Storage.Gc.Safety.{IsSafe, process_batch-IsSafe}
use zls.Util.Status.{get_http_status, no_such_key}
use zls.Util.Status.Codes.{get_http_status-IsKnown}
use zls.Http.Response.{get_status_message}

abbrev free : Answers
free = record {
  reclaimable_before = some true;
  renamed = true;
  reclaimable_after = some true;
  restored = true;
  removed = true;
}

abbrev referenced_again : Answers
referenced_again = record free { reclaimable_after = some false }

removed_file : (process_key free present).place ≡ missing
unfolding process_key process_checked quarantine recheck_quarantined
removed_file = refl

abbrev answers : Bytes → Answers
answers key = free

abbrev files : Files
files key = present

process_batch-IsSafe_example :
    let (rest, (files', counts)) = process_batch answers 1 (codes "a" ∷ codes "b" ∷ []) files in
    ((k : Bytes) → IsSafe free (files' k)) × (rest ≡ codes "b" ∷ [])
process_batch-IsSafe_example =
    process_batch-IsSafe answers 1 (codes "a" ∷ codes "b" ∷ []) files (λ k. record {})

-- A file that is named again while it lies in quarantine is put back.
put_back : (process_key referenced_again present).place ≡ present
unfolding process_key process_checked quarantine recheck_quarantined restore
put_back = refl

get_http_status-IsKnown_example :
    (400 ≤ get_http_status no_such_key)
    × (get_http_status no_such_key < 600)
    × (get_status_message (get_http_status no_such_key) ≢ codes "Unknown")
get_http_status-IsKnown_example = get_http_status-IsKnown no_such_key (λ e. absurd (cc e))
