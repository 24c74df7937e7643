-- ===== src/Db/MetaStore/Counts.antt =====
-- What the statements on `cas_blobs` do to the reference counts, and the rows that stay as they are.
use zls.Base.{
  ℕ, ◌+◌, ◌-◌, ◌≡◌, refl, sym, ap, subst, if-cases, ◌∙◌, Bool, true, false, not, ◌&&◌, ◌||◌, Option,
  none, some, if◌then◌else◌, ◌==◌, arith, ==_iff,
}
use zls.Base.Bytes.{Bytes, eq_bytes, eq_bytes_iff, is_empty}
use zls.Base.Tables.{Table, bytes_key, row_of, put_row, row_of-put_row}
use zls.Db.Sql.{
  ObjectKey, ObjectRow, CasBlob, PartKey, PartRow, Tables, names, count_objects, count_parts,
  add_reference, lower_count, perform, add_to_blob, update_blob,
}
use zls.Db.Transaction.{Server, tx_execute, pure, ◌>>=◌}
use zls.Db.Transaction.Triples.{
  Triple, Triple-pure, Triple-bind, Triple-weaken, Triple-tx_execute, Triple-tx_query,
}
use zls.Db.MetaStore.{is_zero, lower, move_reference}

-- A blob that has no row has no references.
unfoldable pub count_in : Option CasBlob → ℕ
count_in none = 0
count_in (some b) = b.ref_count

unfoldable pub ref_count : Bytes → Tables → ℕ
ref_count cas t = count_in (row_of cas t.cas_blobs)

-- How many rows name the blob.
unfoldable pub uses : Bytes → Tables → ℕ
uses cas t = count_objects cas t + count_parts cas t

-- The objects, the parts and the reference counts.
pub record Holds (objects : Table ObjectKey ObjectRow) (parts : Table PartKey PartRow)
    (count : Bytes → ℕ) (t : Tables) : Type 0 where
  pub objects_are : t.objects ≡ objects
  pub parts_are : t.parts ≡ parts
  pub counts : (cas : Bytes) → ref_count cas t ≡ count cas

-- The count of each blob with one more reference to `k`, and with one less.
abbrev pub added : Bytes → (Bytes → ℕ) → Bytes → ℕ
added k count cas = count cas + names cas k

abbrev pub lowered : Bytes → (Bytes → ℕ) → Bytes → ℕ
lowered k count cas = count cas - names cas k

-- The row that was written over had a count `n`, or there was none.
count_in-put :
    (k cas : Bytes) (b : CasBlob) (t : Table Bytes CasBlob)
    → count_in (row_of cas (put_row k b t))
      ≡ (if eq_bytes k cas then b.ref_count else count_in (row_of cas t))
unfolding count_in
count_in-put k cas b t = rw (row_of-put_row cas k b t) (push (eq_bytes k cas))
  where
    push :
        (c : Bool)
        → count_in (if c then some b else row_of cas t)
          ≡ (if c then b.ref_count else count_in (row_of cas t))
    push true = refl
    push false = refl

pub count_in-add :
    (k cas : Bytes) (size : ℕ) (o : Option CasBlob) (t : Table Bytes CasBlob)
    → row_of k t ≡ o
    → count_in (row_of cas (put_row k (add_to_blob size o) t))
      ≡ count_in (row_of cas t) + names cas k
unfolding add_to_blob count_in
count_in-add k cas size none t e =
    grind (arith, count_in-put k cas (record { size = size; ref_count = 1 }) t, eq_bytes_iff k cas)
count_in-add k cas size (some b) t e =
    grind
      (arith, count_in-put k cas (record b { ref_count = b.ref_count + 1 }) t, eq_bytes_iff k cas)

count_in-lower :
    (k cas : Bytes) (o : Option CasBlob) (t : Table Bytes CasBlob)
    → row_of k t ≡ o
    → count_in (row_of cas (update_blob (λ n. n - 1) k o t)) ≡ count_in (row_of cas t) - names cas k
unfolding update_blob count_in
count_in-lower k cas none t e = grind (arith, eq_bytes_iff k cas)
count_in-lower k cas (some b) t e =
    grind
      (arith, count_in-put k cas (record b { ref_count = b.ref_count - 1 }) t, eq_bytes_iff k cas)

-- A candidate for the garbage collector has no references left.
abbrev pub IsCandidate : Option Bytes → Tables → Type 0
IsCandidate none t = Unit {0}
IsCandidate (some cas) t = ref_count cas t ≡ 0

-- What a move from `old` to `cas` makes of the counts.
abbrev pub moved_if : Bool → Bool → Bytes → Bytes → (Bytes → ℕ) → Bytes → ℕ
moved_if true same old cas count = added cas count
moved_if false true old cas count = count
moved_if false false old cas count = lowered old (added cas count)

unfoldable pub moved : Bytes → Bytes → (Bytes → ℕ) → Bytes → ℕ
moved old cas count = moved_if (is_empty old) (eq_bytes old cas) old cas count

-- What a row that goes makes of the counts.
abbrev pub dropped_if : Bool → Bytes → (Bytes → ℕ) → Bytes → ℕ
dropped_if true old count = count
dropped_if false old count = lowered old count

unfoldable pub dropped : Bytes → (Bytes → ℕ) → Bytes → ℕ
dropped old count = dropped_if (is_empty old) old count

IsCandidate-zero :
    (k : Bytes) (t : Tables) (o : Option CasBlob)
    → row_of k t.cas_blobs ≡ o
    → IsCandidate (if is_zero o then some k else none) t
unfolding ref_count count_in is_zero
IsCandidate-zero k t none e = tt
IsCandidate-zero k t (some b) e =
    if-cases (λ (c : Option Bytes). IsCandidate c t) (b.ref_count == 0)
      (λ z. rw e ((==_iff b.ref_count 0).0 z)) (λ _. tt)

module _ {objects : Table ObjectKey ObjectRow} {parts : Table PartKey PartRow} {count : Bytes → ℕ}
    (server : Server) where
  pub Triple-add :
      (k : Bytes) (size : ℕ)
      → Triple
          (Holds objects parts count)
          (tx_execute server (add_reference k size))
          (λ _ t. Holds objects parts (added k count) t)
  unfolding perform ref_count
  Triple-add k size = Triple-tx_execute server (add_reference k size) λ t h. record {
    objects_are = h.objects_are;
    parts_are = h.parts_are;
    counts = λ cas.
        count_in-add k cas size (row_of k t.cas_blobs) t.cas_blobs refl
        ∙ ap (λ n. n + names cas k) (h.counts cas);
  }

  lower_one :
      (k : Bytes)
      → Triple
          (Holds objects parts count)
          (tx_execute server (lower_count k))
          (λ _ t. Holds objects parts (lowered k count) t)
  unfolding perform ref_count
  lower_one k = Triple-tx_execute server (lower_count k) λ t h. record {
    objects_are = h.objects_are;
    parts_are = h.parts_are;
    counts = λ cas.
        count_in-lower k cas (row_of k t.cas_blobs) t.cas_blobs refl
        ∙ ap (λ n. n - names cas k) (h.counts cas);
  }

  pub Triple-lower :
      (k : Bytes)
      → Triple
          (Holds objects parts count)
          (lower server k)
          (λ c t. Holds objects parts (lowered k count) t × IsCandidate c t)
  unfolding lower
  Triple-lower k = Triple-bind (lower_one k) λ _.
      Triple-bind (Triple-tx_query server (λ t. is_zero (row_of k t.cas_blobs))) λ empty.
        Triple-weaken (Triple-pure (if empty then some k else none)) λ c t h. (
          h.0.0,
          subst (λ d. IsCandidate d t) (sym (h.1 ∙ ap (λ z. if z then some k else none) h.0.1))
              (IsCandidate-zero k t (row_of k t.cas_blobs) refl),
        )

  Triple-none :
      Triple
        (Holds objects parts count)
        (pure none)
        (λ c t. Holds objects parts count t × IsCandidate c t)
  Triple-none =
      Triple-weaken (Triple-pure none) λ c t h. (h.0, subst (λ d. IsCandidate d t) (sym h.1) tt)

  Triple-skip :
      Triple (Holds objects parts count) (pure tt) (λ (_ : Unit {0}) t. Holds objects parts count t)
  Triple-skip = Triple-weaken (Triple-pure tt) λ _ t h. h.0

module _ {objects : Table ObjectKey ObjectRow} {parts : Table PartKey PartRow} {count : Bytes → ℕ}
    (server : Server) where
  Triple-move_if :
      (none_old same : Bool) (old cas : Bytes) (size : ℕ)
      → Triple
          (Holds objects parts count)
          ((if none_old || not same then tx_execute server (add_reference cas size) else pure tt)
            >>= λ _. if not none_old && not same then lower server old else pure none)
          (λ c t. Holds objects parts (moved_if none_old same old cas count) t × IsCandidate c t)
  Triple-move_if true true old cas size =
      Triple-bind (Triple-add server cas size) λ _. Triple-none server
  Triple-move_if true false old cas size =
      Triple-bind (Triple-add server cas size) λ _. Triple-none server
  Triple-move_if false true old cas size = Triple-bind (Triple-skip server) λ _. Triple-none server
  Triple-move_if false false old cas size =
      Triple-bind (Triple-add server cas size) λ _. Triple-lower server old

  Triple-drop_if :
      (none_old : Bool) (old : Bytes)
      → Triple
          (Holds objects parts count)
          (if none_old then pure none else lower server old)
          (λ c t. Holds objects parts (dropped_if none_old old count) t × IsCandidate c t)
  Triple-drop_if true old = Triple-none server
  Triple-drop_if false old = Triple-lower server old

  pub Triple-drop :
      (old : Bytes)
      → Triple
          (Holds objects parts count)
          (if is_empty old then pure none else lower server old)
          (λ c t. Holds objects parts (dropped old count) t × IsCandidate c t)
  unfolding dropped
  Triple-drop old = Triple-drop_if (is_empty old) old

  pub Triple-move :
      (old cas : Bytes) (size : ℕ)
      → Triple
          (Holds objects parts count)
          (move_reference server old cas size)
          (λ c t. Holds objects parts (moved old cas count) t × IsCandidate c t)
  unfolding move_reference moved
  Triple-move old cas size = Triple-move_if (is_empty old) (eq_bytes old cas) old cas size

-- A candidate stays one while the blobs are not touched.
pub IsCandidate-blobs :
    (c : Option Bytes) (t u : Tables)
    → u.cas_blobs ≡ t.cas_blobs
    → IsCandidate c t
    → IsCandidate c u
unfolding ref_count
IsCandidate-blobs none t u e h = tt
IsCandidate-blobs (some cas) t u e h = ap (λ b. count_in (row_of cas b)) e ∙ h

-- The candidate is handed on.
pub Triple-handed :
    {W : Tables → Type 0} (c : Option Bytes)
    → Triple (λ t. W t × IsCandidate c t) (pure c) (λ d t. W t × IsCandidate d t)
Triple-handed c =
    Triple-weaken (Triple-pure c) λ d t h. (h.0.0, subst (λ x. IsCandidate x t) (sym h.1) h.0.1)

pub Holds-start :
    (t : Tables) {u : Tables} → u ≡ t → Holds t.objects t.parts (λ cas. ref_count cas t) u
Holds-start t e = record {
  objects_are = ap (λ (v : Tables). v.objects) e;
  parts_are = ap (λ (v : Tables). v.parts) e;
  counts = λ cas. ap (ref_count cas) e;
}
