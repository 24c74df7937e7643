-- ===== src/Api/Multipart/Parts.antt =====
-- The check of the parts that a client names against those stored.
use zls.Base.{ℕ, ◌+◌, ◌≡◌, refl, List, [], ◌∷◌, if-cases, ◌==◌, ==_iff, length, arith}
use zls.Base.Bytes.{Bytes, eq_bytes, eq_bytes_iff}
use zls.Base.Tables.{Table, bytes_key}
use zls.Db.Sql.{object_key_test, PartRow}
use zls.Api.Multipart.{normalize_etag_value, Checked, refused, checked, with_part, check_parts}

-- The client's parts are those stored, number by number and tag by tag; `keys` and `size` are theirs.
abbrev pub Matches : Table ℕ Bytes → Table ℕ PartRow → List Bytes → ℕ → Type 0
Matches [] [] keys size = (keys ≡ []) × (size ≡ 0)
Matches [] (p ∷ ps) keys size = ⊥
Matches (c ∷ cs) [] keys size = ⊥
Matches ((n, etag) ∷ cs) ((m, r) ∷ ps) keys size =
    (n ≡ m)
    × (etag ≡ normalize_etag_value r.etag)
    × (rest : List Bytes) × (bytes : ℕ) × (keys ≡ r.cas_key ∷ rest)
    × (size ≡ r.size + bytes)
    × Matches cs ps rest bytes

abbrev pub Checks : Table ℕ Bytes → Table ℕ PartRow → Checked → Type 0
Checks cs ps (refused e) = Unit {0}
Checks cs ps (checked keys size) = Matches cs ps keys size

Checks-with_part :
    (n m : ℕ) (etag : Bytes) (r : PartRow) (cs : Table ℕ Bytes) (ps : Table ℕ PartRow) (c : Checked)
    → n ≡ m
    → etag ≡ normalize_etag_value r.etag
    → Checks cs ps c
    → Checks ((n, etag) ∷ cs) ((m, r) ∷ ps) (with_part r c)
unfolding with_part
Checks-with_part n m etag r cs ps (refused e) a b h = tt
Checks-with_part n m etag r cs ps (checked keys size) a b h = (a, b, keys, size, refl, refl, h)

pub Checks-check_parts :
    (cs : Table ℕ Bytes) (ps : Table ℕ PartRow)
    → length cs ≡ length ps
    → Checks cs ps (check_parts cs ps)
unfolding check_parts
Checks-check_parts [] [] e = (refl, refl)
Checks-check_parts [] (p ∷ ps) e = absurd (omega (arith, e))
Checks-check_parts ((n, etag) ∷ cs) [] e = absurd (omega (arith, e))
Checks-check_parts ((n, etag) ∷ cs) ((m, r) ∷ ps) e =
    if-cases (Checks ((n, etag) ∷ cs) ((m, r) ∷ ps)) (n == m)
      (λ same.
        if-cases (Checks ((n, etag) ∷ cs) ((m, r) ∷ ps))
          (eq_bytes etag (normalize_etag_value r.etag))
          (λ tag.
            Checks-with_part n m etag r cs ps (check_parts cs ps) ((==_iff n m).0 same)
              ((eq_bytes_iff etag (normalize_etag_value r.etag)).0 tag)
              (Checks-check_parts cs ps (omega (arith, e))))
          (λ _. tt))
      (λ _. tt)
