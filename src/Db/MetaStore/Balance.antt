-- ===== src/Db/MetaStore/Balance.antt =====
-- The reference counts against the rows that name a blob. A blob may have more references than rows,
-- its surplus. Blobs have names that are not empty.
use zls.Base.{
  ℕ, ◌+◌, ◌≡◌, refl, sym, ap, ap₂, subst, ◌∙◌, Bool, true, false, Option, none, some, [], ◌∷◌,
  arith,
}
use zls.Base.Bytes.{Bytes, eq_bytes, eq_bytes_iff, is_empty}
use zls.Base.Tables.{
  Table, row_of, put_row, remove_row, total, total-put_row, total-remove_row, weight_of,
}
use zls.Db.Sql.{
  ObjectKey, ObjectRow, object_key_test, PartKey, PartRow, part_key_test, Tables, names,
  count_objects, count_parts,
}
use zls.Db.MetaStore.{cas_of_object, cas_of_part}
use zls.Db.MetaStore.Counts.{ref_count, uses, Holds, moved, moved_if, dropped, dropped_if}

-- Each blob has `surplus` references more than there are rows that name it.
unfoldable pub Surplus : (Bytes → ℕ) → Tables → Type 0
Surplus surplus t = (c : ℕ) (cs : Bytes) → ref_count (c ∷ cs) t ≡ uses (c ∷ cs) t + surplus (c ∷ cs)

moved_if-balance :
    (none_old same : Bool) (old cas x : Bytes) (count : Bytes → ℕ) (u u' e : ℕ)
    → (none_old ≡ true → names x old ≡ 0)
    → (same ≡ true → names x old ≡ names x cas)
    → u' + names x old ≡ u + names x cas
    → count x ≡ u + e
    → moved_if none_old same old cas count x ≡ u' + e
moved_if-balance true same old cas x count u u' e f g h k = omega (arith, f refl, h, k)
moved_if-balance false true old cas x count u u' e f g h k = omega (arith, g refl, h, k)
moved_if-balance false false old cas x count u u' e f g h k = omega (arith, h, k)

empty-names : (old : Bytes) (c : ℕ) (cs : Bytes) → is_empty old ≡ true → names (c ∷ cs) old ≡ 0
unfolding is_empty eq_bytes
empty-names [] c cs e = refl
empty-names (o ∷ os) c cs e = absurd (cc e)

moved-balance :
    (old cas : Bytes) (c : ℕ) (cs : Bytes) (count : Bytes → ℕ) (u u' e : ℕ)
    → u' + names (c ∷ cs) old ≡ u + names (c ∷ cs) cas
    → count (c ∷ cs) ≡ u + e
    → moved old cas count (c ∷ cs) ≡ u' + e
unfolding moved
moved-balance old cas c cs count u u' e =
    moved_if-balance (is_empty old) (eq_bytes old cas) old cas (c ∷ cs) count u u' e
      (empty-names old c cs) λ same. ap (names (c ∷ cs)) ((eq_bytes_iff old cas).0 same)

dropped_if-balance :
    (none_old : Bool) (old x : Bytes) (count : Bytes → ℕ) (u u' e : ℕ)
    → (none_old ≡ true → names x old ≡ 0)
    → u' + names x old ≡ u
    → count x ≡ u + e
    → dropped_if none_old old count x ≡ u' + e
dropped_if-balance true old x count u u' e f h k = omega (arith, f refl, h, k)
dropped_if-balance false old x count u u' e f h k = omega (arith, h, k)

dropped-balance :
    (old : Bytes) (c : ℕ) (cs : Bytes) (count : Bytes → ℕ) (u u' e : ℕ)
    → u' + names (c ∷ cs) old ≡ u
    → count (c ∷ cs) ≡ u + e
    → dropped old count (c ∷ cs) ≡ u' + e
unfolding dropped
dropped-balance old c cs count u u' e =
    dropped_if-balance (is_empty old) old (c ∷ cs) count u u' e (empty-names old c cs)

-- The rows that name a blob, of the row that was there.
object-names :
    (c : ℕ) (cs : Bytes) (o : Option ObjectRow)
    → weight_of (λ (r : ObjectRow). names (c ∷ cs) r.cas_key) o ≡ names (c ∷ cs) (cas_of_object o)
unfolding weight_of cas_of_object eq_bytes
object-names c cs none = refl
object-names c cs (some r) = refl

part-names :
    (c : ℕ) (cs : Bytes) (o : Option PartRow)
    → weight_of (λ (r : PartRow). names (c ∷ cs) r.cas_key) o ≡ names (c ∷ cs) (cas_of_part o)
unfolding weight_of cas_of_part eq_bytes
part-names c cs none = refl
part-names c cs (some r) = refl

-- The number of rows of two tables that name a blob.
abbrev uses_in : Bytes → Table ObjectKey ObjectRow → Table PartKey PartRow → ℕ
uses_in cas objects parts =
    total (λ (r : ObjectRow). names cas r.cas_key) objects
    + total (λ (r : PartRow). names cas r.cas_key) parts

uses-Holds :
    {objects : Table ObjectKey ObjectRow} {parts : Table PartKey PartRow} {count : Bytes → ℕ}
    {u : Tables} (cas : Bytes)
    → Holds objects parts count u
    → uses cas u ≡ uses_in cas objects parts
unfolding uses count_objects count_parts
uses-Holds cas h = ap₂ (uses_in cas) h.objects_are h.parts_are

module _ (surplus : Bytes → ℕ) (t u : Tables) where
  -- What holds of all counts, from what holds of the count of one blob.
  Surplus-Holds :
      {objects : Table ObjectKey ObjectRow} {parts : Table PartKey PartRow} {count : Bytes → ℕ}
      → Holds objects parts count u
      → ((c : ℕ) (cs : Bytes) → count (c ∷ cs) ≡ uses_in (c ∷ cs) objects parts + surplus (c ∷ cs))
      → Surplus surplus u
  unfolding Surplus
  Surplus-Holds h k c cs =
      h.counts (c ∷ cs) ∙ k c cs ∙ ap (λ n. n + surplus (c ∷ cs)) (sym (uses-Holds (c ∷ cs) h))

  -- An object is written, and a reference is moved to its new blob.
  pub Surplus-put_object :
      (k : ObjectKey) (r : ObjectRow)
      → Holds
          (put_row k r t.objects)
          t.parts
          (moved (cas_of_object (row_of k t.objects)) r.cas_key (λ cas. ref_count cas t))
          u
      → Surplus surplus t
      → Surplus surplus u
  unfolding Surplus uses count_objects count_parts
  Surplus-put_object k r h balanced = Surplus-Holds h λ c cs.
      let x : Bytes = c ∷ cs in
      moved-balance (cas_of_object (row_of k t.objects)) r.cas_key c cs (λ cas. ref_count cas t)
        (uses x t) (uses_in x (put_row k r t.objects) t.parts) (surplus x)
        (omega (
          arith,
          total-put_row (λ (o : ObjectRow). names x o.cas_key) k r t.objects,
          object-names c cs (row_of k t.objects),
        ))
        (balanced c cs)

  pub Surplus-put_part :
      (k : PartKey) (r : PartRow)
      → Holds t.objects
          (put_row k r t.parts)
          (moved (cas_of_part (row_of k t.parts)) r.cas_key (λ cas. ref_count cas t))
          u
      → Surplus surplus t
      → Surplus surplus u
  unfolding Surplus uses count_objects count_parts
  Surplus-put_part k r h balanced = Surplus-Holds h λ c cs.
      let x : Bytes = c ∷ cs in
      moved-balance (cas_of_part (row_of k t.parts)) r.cas_key c cs (λ cas. ref_count cas t)
        (uses x t) (uses_in x t.objects (put_row k r t.parts)) (surplus x)
        (omega (
          arith,
          total-put_row (λ (o : PartRow). names x o.cas_key) k r t.parts,
          part-names c cs (row_of k t.parts),
        ))
        (balanced c cs)

  -- An object is removed, and its reference with it.
  pub Surplus-remove_object :
      (k : ObjectKey) (r : ObjectRow)
      → row_of k t.objects ≡ some r
      → Holds (remove_row k t.objects) t.parts (dropped r.cas_key (λ cas. ref_count cas t)) u
      → Surplus surplus t
      → Surplus surplus u
  unfolding Surplus uses count_objects count_parts weight_of
  Surplus-remove_object k r e h balanced = Surplus-Holds h λ c cs.
      let x : Bytes = c ∷ cs in
      let w : ObjectRow → ℕ = λ o. names x o.cas_key in
      let removed : total w (remove_row k t.objects) + weight_of w (some r) ≡ total w t.objects =
        subst (λ o. total w (remove_row k t.objects) + weight_of w o ≡ total w t.objects) e
          (total-remove_row w k t.objects) in
      dropped-balance r.cas_key c cs (λ cas. ref_count cas t) (uses x t)
        (uses_in x (remove_row k t.objects) t.parts) (surplus x) (omega (arith, removed))
        (balanced c cs)
