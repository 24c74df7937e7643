-- ===== src/Api/Range/Meaning.antt =====
-- What a Range header asks for, by the positions of the bytes.
use zls.Base.{
  ℕ, ◌+◌, ◌^◌, ◌≤◌, ◌<◌, ◌≡◌, ◌≢◌, ◌↔◌, refl, true, false, ◌||◌, [], ◌∷◌, ◌++◌, some, ltb, leb,
  ◌==◌, arith, inl, inr, Bool-cases, drop-append_length,
}
use zls.Base.Bytes.{Bytes, codes, eq_bytes_refl, is_empty, starts_with, digits, decimal, is_digit}
use zls.Api.Range.{
  ParsedRange, no_range, range, throws, range_match, match_end, parse_range, range_of_match, stoull,
  suffix_range, open_range, closed_range,
}

-- A run of digits, none of them missing.
abbrev pub AreDigits : Bytes → Type 0
AreDigits [] = Unit {0}
AreDigits (c ∷ cs) = (is_digit c ≡ true) × AreDigits cs

-- The three forms of the header, with their digits.
pub data Spec : Type 0 where
  suffix : Bytes → Spec
  from : Bytes → Spec
  between : Bytes → Bytes → Spec

abbrev pub start_part : Spec → Bytes
start_part (suffix n) = []
start_part (from n) = n
start_part (between n m) = n

abbrev pub end_part : Spec → Bytes
end_part (suffix n) = n
end_part (from n) = []
end_part (between n m) = m

unfoldable pub print_spec : Spec → Bytes
print_spec s = codes "bytes=" ++ (start_part s ++ (b'-' ∷ end_part s))

-- A number of a header, that fits a `size_t`.
abbrev pub IsNumber : Bytes → Type 0
IsNumber s = AreDigits s × (s ≢ []) × (decimal 0 s < 2 ^ 64)

abbrev pub IsSpec : Spec → Type 0
IsSpec (suffix n) = IsNumber n
IsSpec (from n) = IsNumber n
IsSpec (between n m) = IsNumber n × IsNumber m

-- The header asks for the byte at position `i` of a file of `size` bytes.
abbrev pub Asks : Spec → ℕ → ℕ → Type 0
Asks (suffix n) size i = (i < size) × (size ≤ i + decimal 0 n)
Asks (from n) size i = (i < size) × (decimal 0 n ≤ i)
Asks (between n m) size i = (i < size) × (decimal 0 n ≤ i) × (i ≤ decimal 0 m)

-- A result covers just the bytes asked for.
abbrev pub Covers : ParsedRange → Spec → ℕ → Type 0
Covers no_range s size = (i : ℕ) → ¬ Asks s size i
Covers (range a b) s size = (i : ℕ) → ((a ≤ i) × (i ≤ b)) ↔ Asks s size i
Covers throws s size = ⊥

digits-append : (ds rest : Bytes) → AreDigits ds → digits (ds ++ b'-' ∷ rest) ≡ ds
unfolding digits is_digit
digits-append [] rest h = refl
digits-append (c ∷ ds) rest h = ground (arith, digits-append ds rest h.1)

digits_all : (ds : Bytes) → AreDigits ds → digits ds ≡ ds
unfolding digits
digits_all [] h = refl
digits_all (c ∷ ds) h = rw (h.0, digits_all ds h.1)

range_match_lem :
    (a b : Bytes)
    → AreDigits a
    → AreDigits b
    → range_match (codes "bytes=" ++ (a ++ (b'-' ∷ b))) ≡ some (a, b)
unfolding range_match starts_with match_end
range_match_lem a b h k =
    rw (digits-append a b h, drop-append_length a (b'-' ∷ b), digits_all b k, eq_bytes_refl b)

pub stoull_lem : (s : Bytes) → decimal 0 s < 2 ^ 64 → stoull s ≡ some (decimal 0 s)
unfolding stoull
stoull_lem s h = ground arith

pub is_empty_ne : (s : Bytes) → s ≢ [] → is_empty s ≡ false
unfolding is_empty
is_empty_ne [] h = absurd (h refl)
is_empty_ne (x ∷ xs) h = refl

suffix_range-Covers :
    (size : ℕ) (n : Bytes)
    → 0 < size
    → size < 2 ^ 64
    → Covers (suffix_range size (decimal 0 n)) (suffix n) size
unfolding suffix_range
suffix_range-Covers size n h k = λ i. ((λ e. ground arith), λ e. ground arith)

open_range-Covers :
    (size : ℕ) (n : Bytes)
    → 0 < size
    → size < 2 ^ 64
    → Covers (open_range size (decimal 0 n)) (from n) size
unfolding open_range
open_range-Covers size n h k = elim (Bool-cases (leb size (decimal 0 n))) [
  | inl e ↦ rw (e) (λ i a. ground arith)
  | inr e ↦ rw (e) (λ i. ((λ e. ground arith), λ e. ground arith))
]

closed_range-Covers :
    (size : ℕ) (n m : Bytes)
    → 0 < size
    → size < 2 ^ 64
    → Covers (closed_range size (decimal 0 n) (decimal 0 m)) (between n m) size
unfolding closed_range
closed_range-Covers size n m h k =
    elim (Bool-cases (ltb (decimal 0 m) (decimal 0 n) || leb size (decimal 0 n))) [
      | inl e ↦ rw (e) (λ i a. ground arith)
      | inr e ↦ rw (e) (elim (Bool-cases (leb size (decimal 0 m))) [
        | inl f ↦ rw (f) (λ i. ((λ e. ground arith), λ e. ground arith))
        | inr f ↦ rw (f) (λ i. ((λ e. ground arith), λ e. ground arith))
      ])
    ]

start_part-AreDigits : (s : Spec) → IsSpec s → AreDigits (start_part s)
start_part-AreDigits (suffix n) v = tt
start_part-AreDigits (from n) v = v.0
start_part-AreDigits (between n m) v = v.0.0

end_part-AreDigits : (s : Spec) → IsSpec s → AreDigits (end_part s)
end_part-AreDigits (suffix n) v = v.0
end_part-AreDigits (from n) v = tt
end_part-AreDigits (between n m) v = v.1.0

pub parse_range-print_spec :
    (s : Spec) (size : ℕ)
    → AreDigits (start_part s)
    → AreDigits (end_part s)
    → 0 < size
    → parse_range (print_spec s) size ≡ range_of_match size (start_part s) (end_part s)
unfolding parse_range print_spec
parse_range-print_spec s size v w h =
    let e : (size == 0) ≡ false = ground arith in
    rw (e, range_match_lem (start_part s) (end_part s) v w)

range_of_match-Covers :
    (s : Spec) (size : ℕ)
    → IsSpec s
    → 0 < size
    → size < 2 ^ 64
    → Covers (range_of_match size (start_part s) (end_part s)) s size
unfolding range_of_match is_empty
range_of_match-Covers (suffix n) size v h k =
    rw (is_empty_ne n v.1, stoull_lem n v.2) (suffix_range-Covers size n h k)
range_of_match-Covers (from n) size v h k =
    rw (is_empty_ne n v.1, stoull_lem n v.2) (open_range-Covers size n h k)
range_of_match-Covers (between n m) size v h k =
    rw (is_empty_ne n v.0.1, is_empty_ne m v.1.1, stoull_lem n v.0.2, stoull_lem m v.1.2)
      (closed_range-Covers size n m h k)

-- For every header of the three forms with numbers below 2^64, and a file that is not empty and smaller
-- than 2^64 bytes, `ParseRange` returns just the positions asked for, or nothing
-- where no byte of the file is asked for.
pub parse_range-Covers :
    (s : Spec) (size : ℕ)
    → IsSpec s
    → 0 < size
    → size < 2 ^ 64
    → Covers (parse_range (print_spec s) size) s size
parse_range-Covers s size v h k =
    rw (parse_range-print_spec s size (start_part-AreDigits s v) (end_part-AreDigits s v) h)
      (range_of_match-Covers s size v h k)
