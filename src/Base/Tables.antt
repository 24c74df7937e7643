-- ===== src/Base/Tables.antt =====
-- Tables with a unique key, as association lists with one entry for a key, and sums over their rows.
use zls.Base.Bytes.{Bytes, eq_bytes, eq_bytes_iff}
use zls.Base.Tests.{if-cases, if◌then◌else◌, ==_iff, ◌==◌}
use Prim.Native.Nat.{ℕ, ◌+◌}
use mathlib.Core.Path.{◌≡◌, refl, subst}
use mathlib.Core.Logic.{◌↔◌}
use mathlib.Core.Bool.{Bool, true, false}
use mathlib.Core.List.{List, [], ◌∷◌}
use mathlib.Core.Option.{Option, none, some, some-injective}
use native.Mathlib.Omega.{arith}

-- Equality of keys, as a test.
pub record Key {ℓ} (K : Type ℓ) : Type ℓ where
  pub same : K → K → Bool
  pub same_iff : (a b : K) → (same a b ≡ true) ↔ (a ≡ b)

pub same_refl {ℓ} : {K : Type ℓ} ⦃key : Key K⦄ (k : K) → key.same k k ≡ true
same_refl ⦃key⦄ k = (key.same_iff k k).1 refl

instance abbrev pub bytes_key : Key Bytes
bytes_key = record { same = eq_bytes; same_iff = eq_bytes_iff }

instance abbrev pub nat_key : Key ℕ
nat_key = record { same = ◌==◌; same_iff = ==_iff }

abbrev pub Table {ℓ κ} : Type ℓ → Type κ → Type (ℓ ⊔ κ)
Table K V = List (K × V)

module _ {ℓ κ} {K : Type ℓ} {V : Type κ} ⦃key : Key K⦄ where
  -- The row of a key.
  unfoldable pub row_of : K → Table K V → Option V
  row_of k [] = none
  row_of k ((j, v) ∷ t) = if key.same j k then some v else row_of k t

  -- The row of a key, written over or added.
  unfoldable pub put_row : K → V → Table K V → Table K V
  put_row k v [] = (k, v) ∷ []
  put_row k v ((j, w) ∷ t) = if key.same j k then (k, v) ∷ t else (j, w) ∷ put_row k v t

  unfoldable pub remove_row : K → Table K V → Table K V
  remove_row k [] = []
  remove_row k ((j, w) ∷ t) = if key.same j k then t else (j, w) ∷ remove_row k t

  pub row_of-put_row :
      (k j : K) (v : V) (t : Table K V)
      → row_of k (put_row j v t) ≡ (if key.same j k then some v else row_of k t)
  unfolding row_of put_row
  row_of-put_row k j v [] = refl
  row_of-put_row k j v ((i, w) ∷ t) = grind (arith, key.same_iff, row_of-put_row k j v t)

  pub row_of-remove_row :
      (k j : K) (t : Table K V) → key.same j k ≡ false → row_of k (remove_row j t) ≡ row_of k t
  unfolding row_of remove_row
  row_of-remove_row k j [] e = refl
  row_of-remove_row k j ((i, w) ∷ t) e = grind (arith, key.same_iff, row_of-remove_row k j t e)

unfoldable pub weight_of {κ} : {V : Type κ} → (V → ℕ) → Option V → ℕ
weight_of weight none = 0
weight_of weight (some v) = weight v

module _ {ℓ κ} {K : Type ℓ} {V : Type κ} ⦃key : Key K⦄ where
  pub row_of-put_row_self : (k : K) (v : V) (t : Table K V) → row_of k (put_row k v t) ≡ some v
  row_of-put_row_self k v t = rw (row_of-put_row k k v t, same_refl k)

  -- All but the row that is written stays.
  pub remove_row-put_row :
      (k : K) (v : V) (t : Table K V) → remove_row k (put_row k v t) ≡ remove_row k t
  unfolding put_row remove_row
  remove_row-put_row k v [] = rw (same_refl k)
  remove_row-put_row k v ((j, w) ∷ t) = ground (arith, same_refl k, remove_row-put_row k v t)

-- The sum of a weight over the rows.
module _ {ℓ κ} {K : Type ℓ} {V : Type κ} (weight : V → ℕ) where
  unfoldable pub total : Table K V → ℕ
  total [] = 0
  total ((k, v) ∷ t) = weight v + total t

module _ {ℓ κ} {K : Type ℓ} {V : Type κ} ⦃key : Key K⦄ (weight : V → ℕ) where
  pub total-put_row :
      (k : K) (v : V) (t : Table K V)
      → total weight (put_row k v t) + weight_of weight (row_of k t) ≡ total weight t + weight v
  unfolding row_of put_row total weight_of
  total-put_row k v [] = omega arith
  total-put_row k v ((j, w) ∷ t) = ground (arith, total-put_row k v t)

  pub total-remove_row :
      (k : K) (t : Table K V)
      → total weight (remove_row k t) + weight_of weight (row_of k t) ≡ total weight t
  unfolding row_of remove_row total weight_of
  total-remove_row k [] = refl
  total-remove_row k ((j, w) ∷ t) = ground (arith, total-remove_row k t)

-- A property of every row.
module _ {ℓ κ μ} {K : Type ℓ} {V : Type κ} (P : K → V → Type μ) where
  abbrev pub Every : Table K V → Type μ
  Every [] = Unit
  Every ((k, v) ∷ t) = P k v × Every t

module _ {ℓ κ μ} {K : Type ℓ} {V : Type κ} ⦃key : Key K⦄ (P : K → V → Type μ) where
  pub Every-put_row : (k : K) (v : V) (t : Table K V) → P k v → Every P t → Every P (put_row k v t)
  unfolding put_row
  Every-put_row k v [] p h = (p, tt)
  Every-put_row k v ((j, w) ∷ t) p h =
      if-cases (Every P) (key.same j k) (λ _. (p, h.1)) (λ _. (h.0, Every-put_row k v t p h.1))

  pub Every-remove_row : (k : K) (t : Table K V) → Every P t → Every P (remove_row k t)
  unfolding remove_row
  Every-remove_row k [] h = tt
  Every-remove_row k ((j, w) ∷ t) h =
      if-cases (Every P) (key.same j k) (λ _. h.1) (λ _. (h.0, Every-remove_row k t h.1))

  pub Every-row_of : (k : K) (v : V) (t : Table K V) → Every P t → row_of k t ≡ some v → P k v
  unfolding row_of
  Every-row_of k v [] h e = absurd (cc e)
  Every-row_of k v ((j, w) ∷ t) h e = at_row (key.same j k) refl e (Every-row_of k v t h.1)
    where
      at_row :
          (b : Bool)
          → key.same j k ≡ b
          → (if b then some w else row_of k t) ≡ some v
          → (row_of k t ≡ some v → P k v)
          → P k v
      at_row true s e rest =
          subst (λ x. P k x) (some-injective w v e)
            (subst (λ x. P x w) ((key.same_iff j k).0 s) h.0)
      at_row false s e rest = rest e
