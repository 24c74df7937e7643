-- ===== src/Db/MetaStore/Names.antt =====
-- Names of objects against the unique key of their table, which is the first 255 characters.
use zls.Base.{
  ◌≡◌, refl, sym, ap, subst, Bool, true, false, Bool-cases, inl, inr, none, some, [], ◌∷◌, arith,
  if◌then◌else◌,
}
use zls.Base.Tables.{Table, Every, Every-remove_row, row_of, put_row, remove_row}
use zls.Db.Sql.{
  ObjectKey, ObjectRow, object_key_test, same_object, same_object_iff, unique_key,
  row_by_unique_key, overwrite_by_unique_key,
}

-- No other name of the table has the unique key of `k`.
abbrev pub IsApart : ObjectKey → Table ObjectKey ObjectRow → Type 0
IsApart k = Every (λ j (w : ObjectRow). unique_key j ≡ unique_key k → j ≡ k)

same_answer : (a b : Bool) → (a ≡ true → b ≡ true) → (b ≡ true → a ≡ true) → a ≡ b
same_answer true b f g = sym (f refl)
same_answer false true f g = g refl
same_answer false false f g = refl

module _ (k : ObjectKey) where
  -- A name that is apart is told by its unique key.
  same_unique :
      (j : ObjectKey)
      → (unique_key j ≡ unique_key k → j ≡ k)
      → same_object (unique_key j) (unique_key k) ≡ same_object j k
  same_unique j h =
      same_answer (same_object (unique_key j) (unique_key k)) (same_object j k)
        (λ e. (same_object_iff j k).1 (h ((same_object_iff (unique_key j) (unique_key k)).0 e)))
        λ e.
          (same_object_iff (unique_key j) (unique_key k)).1
            (ap unique_key ((same_object_iff j k).0 e))

  pub row_by_unique_key-IsApart :
      (t : Table ObjectKey ObjectRow) → IsApart k t → row_by_unique_key k t ≡ row_of k t
  unfolding row_by_unique_key row_of
  row_by_unique_key-IsApart [] h = refl
  row_by_unique_key-IsApart ((j, w) ∷ t) h =
      rw (same_unique j h.0, row_by_unique_key-IsApart t h.1) refl

  pub overwrite-IsApart :
      (r : ObjectRow) (t : Table ObjectKey ObjectRow)
      → IsApart k t
      → overwrite_by_unique_key k r t ≡ put_row k r t
  unfolding overwrite_by_unique_key put_row
  overwrite-IsApart r [] h = refl
  overwrite-IsApart r ((j, w) ∷ t) h = elim (Bool-cases (same_object j k)) [
    | inl e ↦ rw (same_unique j h.0, e) (ap (λ x. (x, r) ∷ t) ((same_object_iff j k).0 e))
    | inr e ↦ rw (same_unique j h.0, e) (ap (λ x. (j, w) ∷ x) (overwrite-IsApart r t h.1))
  ]

  IsApart-remove_row_back :
      (t : Table ObjectKey ObjectRow) → IsApart k (remove_row k t) → IsApart k t
  unfolding remove_row
  IsApart-remove_row_back [] h = tt
  IsApart-remove_row_back ((j, w) ∷ t) h =
      by_row (same_object j k) refl (IsApart-remove_row_back t) h
    where
      by_row :
          (b : Bool)
          → same_object j k ≡ b
          → (IsApart k (remove_row k t) → IsApart k t)
          → IsApart k (if b then t else (j, w) ∷ remove_row k t)
          → IsApart k ((j, w) ∷ t)
      by_row true e back g = ((λ _. (same_object_iff j k).0 e), g)
      by_row false e back g = (g.0, back g.1)

  -- What is written under a name leaves it apart.
  pub IsApart-kept :
      (u t : Table ObjectKey ObjectRow)
      → remove_row k u ≡ remove_row k t
      → IsApart k t
      → IsApart k u
  IsApart-kept u t e h = IsApart-remove_row_back u (
      subst (IsApart k) (sym e)
        (Every-remove_row (λ j (w : ObjectRow). unique_key j ≡ unique_key k → j ≡ k) k t h))

  pub row_of-overwrite :
      (r w : ObjectRow) (t : Table ObjectKey ObjectRow)
      → row_of k t ≡ none
      → row_by_unique_key k t ≡ some w
      → row_of k (overwrite_by_unique_key k r t) ≡ none
  unfolding row_of row_by_unique_key overwrite_by_unique_key
  row_of-overwrite r w [] e f = absurd (cc f)
  row_of-overwrite r w ((j, v) ∷ t) e f = grind (arith, row_of-overwrite r w t)

  pub row_by_unique_key-overwrite :
      (r w : ObjectRow) (t : Table ObjectKey ObjectRow)
      → row_by_unique_key k t ≡ some w
      → row_by_unique_key k (overwrite_by_unique_key k r t) ≡ some r
  unfolding row_by_unique_key overwrite_by_unique_key
  row_by_unique_key-overwrite r w [] f = absurd (cc f)
  row_by_unique_key-overwrite r w ((j, v) ∷ t) f = grind (arith, row_by_unique_key-overwrite r w t)
