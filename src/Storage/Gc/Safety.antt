-- ===== src/Storage/Gc/Safety.antt =====
-- What becomes of the files of a batch.
use zls.Base.{
  ℕ, zero, suc, ◌≡◌, ◌≢◌, ◌⊎◌, inl, inr, refl, subst, ap, sym, Bool, true, false, if-cases, List,
  [], ◌∷◌, Option, none, some, take, drop,
}
use zls.Base.Bytes.{Bytes, eq_bytes, eq_bytes_iff}
use zls.Storage.Gc.{
  Place, present, quarantined, missing, Answers, Outcome, restore, recheck_quarantined,
  recheck_absent, quarantine, process_checked, process_key, take_batch, Files, put, process_all,
  process_batch,
}

-- A file that both checks let go.
abbrev pub IsReclaimable : Answers → Type 0
IsReclaimable a = (a.reclaimable_before ≡ some true) × (a.reclaimable_after ≡ some true)

-- What happens to a file in its place: it is still there, or it stays in quarantine because a file
-- operation failed, or it was removed and both checks had let it go.
abbrev pub IsSafe : Answers → Place → Type 0
IsSafe a present = Unit {0}
IsSafe a quarantined = (a.restored ≡ false) ⊎ (IsReclaimable a × (a.removed ≡ false))
IsSafe a missing = IsReclaimable a × (a.removed ≡ true)

recheck_quarantined-IsSafe :
    (a : Answers) (after : Option Bool)
    → a.reclaimable_before ≡ some true
    → a.reclaimable_after ≡ after
    → IsSafe a (recheck_quarantined a after).place
unfolding recheck_quarantined restore
recheck_quarantined-IsSafe a none b e = if-cases (IsSafe a) a.restored (λ _. record {}) (λ r. inl r)
recheck_quarantined-IsSafe a (some false) b e =
    if-cases (λ (o : Outcome). IsSafe a o.place) a.restored (λ _. record {}) (λ r. inl r)
recheck_quarantined-IsSafe a (some true) b e =
    if-cases (λ (o : Outcome). IsSafe a o.place) a.removed (λ r. ((b, e), r)) (λ r. inr ((b, e), r))

process_checked-IsSafe :
    (a : Answers) (before : Option Bool)
    → a.reclaimable_before ≡ before
    → IsSafe a (process_checked a before present).place
unfolding process_checked quarantine
process_checked-IsSafe a none e = record {}
process_checked-IsSafe a (some false) e = record {}
process_checked-IsSafe a (some true) e =
    if-cases (λ (o : Outcome). IsSafe a o.place) a.renamed
      (λ _. recheck_quarantined-IsSafe a a.reclaimable_after e refl) (λ _. record {})

process_key-IsSafe : (a : Answers) → IsSafe a (process_key a present).place
unfolding process_key
process_key-IsSafe a = process_checked-IsSafe a a.reclaimable_before refl

recheck_absent-place : (p : Place) (after : Option Bool) → (recheck_absent p after).place ≡ p
unfolding recheck_absent
recheck_absent-place p none = refl
recheck_absent-place p (some false) = refl
recheck_absent-place p (some true) = refl

quarantine-absent : (a : Answers) (p : Place) → p ≢ present → (quarantine a p).place ≡ p
unfolding quarantine
quarantine-absent a present h = absurd (h refl)
quarantine-absent a quarantined h = recheck_absent-place quarantined a.reclaimable_after
quarantine-absent a missing h = recheck_absent-place missing a.reclaimable_after

process_checked-absent :
    (a : Answers) (before : Option Bool) (p : Place)
    → p ≢ present
    → (process_checked a before p).place ≡ p
unfolding process_checked
process_checked-absent a none p h = refl
process_checked-absent a (some false) p h = refl
process_checked-absent a (some true) p h = quarantine-absent a p h

keeps-IsSafe : (a : Answers) (p : Place) → IsSafe a p → IsSafe a (process_key a p).place
unfolding process_key
keeps-IsSafe a present h = process_key-IsSafe a
keeps-IsSafe a quarantined h =
    subst (IsSafe a)
      (sym (process_checked-absent a a.reclaimable_before quarantined (λ e. absurd (cc e)))) h
keeps-IsSafe a missing h =
    subst (IsSafe a)
      (sym (process_checked-absent a a.reclaimable_before missing (λ e. absurd (cc e)))) h

put-IsSafe :
    (answers : Bytes → Answers) (files : Files) (key : Bytes) (p : Place)
    → IsSafe (answers key) p
    → ((k : Bytes) → IsSafe (answers k) (files k))
    → (k : Bytes) → IsSafe (answers k) (put files key p k)
unfolding put
put-IsSafe answers files key p h f k =
    if-cases (IsSafe (answers k)) (eq_bytes key k)
      (λ e. subst (λ j. IsSafe (answers j) p) ((eq_bytes_iff key k).0 e) h) (λ _. f k)

process_all-IsSafe :
    (answers : Bytes → Answers) (keys : List Bytes) (files : Files)
    → ((k : Bytes) → IsSafe (answers k) (files k))
    → (k : Bytes) → IsSafe (answers k) ((process_all answers keys files).0 k)
unfolding process_all
process_all-IsSafe answers [] files f = f
process_all-IsSafe answers (key ∷ keys) files f =
    process_all-IsSafe answers keys (put files key (process_key (answers key) (files key)).place) (
      put-IsSafe answers files key (process_key (answers key) (files key)).place
        (keeps-IsSafe (answers key) (files key) (f key)) f)

take_batch_lem : (n : ℕ) (keys : List Bytes) → take_batch n keys ≡ (take n keys, drop n keys)
unfolding take_batch
take_batch_lem zero [] = refl
take_batch_lem (suc n) [] = refl
take_batch_lem zero (k ∷ ks) = refl
take_batch_lem (suc n) (k ∷ ks) = rw (take_batch_lem n ks) refl

-- After a batch, if all files were safe before it, as files in their places are: every file is in
-- its place, or stayed in quarantine since a rename back or a removal failed, or was removed after
-- both checks had let it go. The batch is the front of the queue, at most `batch_size` long, and the
-- rest of the queue stays.
pub process_batch-IsSafe :
    (answers : Bytes → Answers) (batch_size : ℕ) (pending : List Bytes) (files : Files)
    → ((k : Bytes) → IsSafe (answers k) (files k))
    → let (rest, (files', counts)) = process_batch answers batch_size pending files in
      ((k : Bytes) → IsSafe (answers k) (files' k)) × (rest ≡ drop batch_size pending)
unfolding process_batch
process_batch-IsSafe answers batch_size pending files f = (
  process_all-IsSafe answers (take_batch batch_size pending).0 files f,
  ap (λ r. r.1) (take_batch_lem batch_size pending),
)
