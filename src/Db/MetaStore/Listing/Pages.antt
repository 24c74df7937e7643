-- ===== src/Db/MetaStore/Listing/Pages.antt =====
-- What one page holds, and what the page after its marker holds.
use zls.Base.{
  ℕ, zero, suc, ◌+◌, ◌≡◌, refl, sym, ap, subst, ◌∙◌, Bool, true, false, Option, none, some, [], ◌∷◌,
  if-cases, leb, take, drop, take-nil, get_elem?, arith, take-take_of_le,
}
use mathlib.Core.Option.{some-injective}
use native.Mathlib.Nat.{suc-add}
use zls.Base.Tables.{Table}
use zls.Db.MetaStore.Listing.{
  Page, with_row, fetch_rows, order_by, rows_after, page_after, first_page,
}

-- The page for a marker that was or was not reached.
abbrev Expected : {K V : Type 0} → Table K V → Option (K × V) → Page K V → Type 0
Expected rows none p = (p.rows ≡ rows) × (p.is_truncated ≡ false) × (p.next_marker ≡ none)
Expected rows (some r) p = (p.rows ≡ rows) × (p.is_truncated ≡ true) × (p.next_marker ≡ some r.0)

module _ {K V : Type 0} where
  Expected-rows :
      (rows : Table K V) (next : Option (K × V)) (p : Page K V)
      → Expected rows next p
      → p.rows ≡ rows
  Expected-rows rows none p h = h.0
  Expected-rows rows (some r) p h = h.0

  Expected-with_row :
      (r : K × V) (rows : Table K V) (next : Option (K × V)) (p : Page K V)
      → Expected rows next p
      → Expected (r ∷ rows) next (with_row r p)
  unfolding with_row
  Expected-with_row r rows none p (a, b, c) = (ap (◌∷◌ r) a, b, c)
  Expected-with_row r rows (some q) p (a, b, c) = (ap (◌∷◌ r) a, b, c)

  fetch_rows-Expected :
      (max n count : ℕ) (rows : Table K V)
      → max ≡ count + n
      → Expected (take n rows) (get_elem? rows n) (fetch_rows max count rows)
  unfolding fetch_rows
  fetch_rows-Expected max zero count [] e = (refl, refl, refl)
  fetch_rows-Expected max (suc n) count [] e = (refl, refl, refl)
  fetch_rows-Expected max zero count (r ∷ rows) e =
      if-cases (Expected [] (some r)) (leb max count) (λ _. (refl, refl, refl))
        (λ more. absurd (ground arith))
  fetch_rows-Expected max (suc n) count (r ∷ rows) e =
      if-cases (Expected (r ∷ take n rows) (get_elem? rows n)) (leb max count)
        (λ full. absurd (ground arith))
        (λ _.
          Expected-with_row r (take n rows) (get_elem? rows n) (fetch_rows max (count + 1) rows)
            (fetch_rows-Expected max n (count + 1) rows (omega (arith, e))))

  get_elem?-take : (n : ℕ) (rows : Table K V) → get_elem? (take (n + 1) rows) n ≡ get_elem? rows n
  get_elem?-take zero [] = refl
  get_elem?-take zero (r ∷ rows) = refl
  get_elem?-take (suc n) [] = rw (take-nil {A = K × V} (suc n + 1))
  get_elem?-take (suc n) (r ∷ rows) = rw suc-add (get_elem?-take n rows)

  fetch-Expected :
      (max : ℕ) (rows : Table K V)
      → Expected (take max rows) (get_elem? rows max) (fetch_rows max 0 (take (max + 1) rows))
  fetch-Expected max rows =
      subst (λ t. Expected t (get_elem? rows max) (fetch_rows max 0 (take (max + 1) rows)))
        (take-take_of_le max (max + 1) rows (omega arith))
        (subst
          (λ o.
            Expected (take max (take (max + 1) rows)) o (fetch_rows max 0 (take (max + 1) rows)))
          (get_elem?-take max rows)
          (fetch_rows-Expected max max 0 (take (max + 1) rows) (omega arith)))

  module _ (before : K → K → Bool) where
    abbrev pub IsBelow : K → Table K V → Type 0
    IsBelow k [] = Unit {0}
    IsBelow k (q ∷ t) = (before k q.0 ≡ true) × IsBelow k t

    abbrev pub IsAscending : Table K V → Type 0
    IsAscending [] = Unit {0}
    IsAscending (r ∷ t) = IsBelow r.0 t × IsAscending t

    IsBelow-get_elem? :
        (k : K) (t : Table K V) (n : ℕ) (r : K × V)
        → IsBelow k t
        → get_elem? t n ≡ some r
        → before k r.0 ≡ true
    IsBelow-get_elem? k [] n r h e = absurd (cc e)
    IsBelow-get_elem? k (q ∷ t) zero r h e =
        ap (λ (x : K × V). before k x.0) (sym (some-injective q r e)) ∙ h.0
    IsBelow-get_elem? k (q ∷ t) (suc n) r h e = IsBelow-get_elem? k t n r h.1 e

    rows_after-below : (k : K) (t : Table K V) → IsBelow k t → rows_after before k t ≡ t
    unfolding rows_after
    rows_after-below k [] h = refl
    rows_after-below k (q ∷ t) h = rw (h.0) (ap (◌∷◌ q) (rows_after-below k t h.1))

    -- After the key of a row come the rows that follow it.
    rows_after-marker :
        ((a b : K) → before a b ≡ true → before b a ≡ false)
        → (t : Table K V) (n : ℕ) (r : K × V) → IsAscending t
        → get_elem? t n ≡ some r
        → rows_after before r.0 t ≡ drop (suc n) t
    unfolding rows_after
    rows_after-marker asym [] n r h e = absurd (cc e)
    rows_after-marker asym (q ∷ t) zero r h e =
        subst (λ (x : K × V). rows_after before x.0 (q ∷ t) ≡ t) (some-injective q r e)
          (if-cases (λ (x : Table K V). x ≡ t) (before q.0 q.0)
            (λ self. absurd (cc (self, asym q.0 q.0 self))) (λ _. rows_after-below q.0 t h.0))
    rows_after-marker asym (q ∷ t) (suc n) r h e =
        rw (asym q.0 r.0 (IsBelow-get_elem? q.0 t n r h.0 e)) (rows_after-marker asym t n r h.1 e)

    -- Pages of rows in ascending order: a page has the first rows of those asked for; when there is
    -- one more, that row's key is the marker, and the page after the marker starts with the row
    -- behind that one, which stands in neither page.
    pub page_after-first_page :
        ((a b : K) → before a b ≡ true → before b a ≡ false)
        → (max : ℕ) (rows : Table K V) (r : K × V) → IsAscending (order_by before rows)
        → get_elem? (order_by before rows) max ≡ some r
        → ((first_page before max rows).rows ≡ take max (order_by before rows))
          × ((first_page before max rows).next_marker ≡ some r.0)
          × ((page_after before r.0 max rows).rows
              ≡ take max (drop (suc max) (order_by before rows)))
    unfolding first_page page_after
    page_after-first_page asym max rows r h e =
        let t : Table K V = order_by before rows in
        let first : Expected (take max t) (some r) (fetch_rows max 0 (take (max + 1) t)) =
          subst (λ o. Expected (take max t) o (fetch_rows max 0 (take (max + 1) t))) e
            (fetch-Expected max t) in
        (
          first.0,
          first.2,
          subst (λ u. (fetch_rows max 0 (take (max + 1) u)).rows ≡ take max (drop (suc max) t))
              (sym (rows_after-marker asym t max r h e))
              (Expected-rows (take max (drop (suc max) t)) (get_elem? (drop (suc max) t) max)
                (fetch_rows max 0 (take (max + 1) (drop (suc max) t)))
                (fetch-Expected max (drop (suc max) t))),
        )
