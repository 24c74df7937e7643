-- ===== src/Api/Range/Reply.antt =====
-- What `GetObject` sends for a Range header of the three forms: the part of the file, and the length
-- it announces.
use zls.Base.{
  ℕ, ◌+◌, ◌-◌, ◌^◌, ◌≤◌, ◌<◌, ◌≡◌, ◌≢◌, ◌↔◌, refl, Bool, true, false, [], none, ltb, add_size,
  sub_size, arith,
}
use zls.Base.Bytes.{Bytes, decimal, is_empty}
use zls.Api.Range.{
  ParsedRange, no_range, range, throws, Answer, not_satisfiable, crashes, sends, set_file,
  answer_range, answer, parse_range, range_of_match, stoull,
}
use zls.Api.Range.Meaning.{
  Spec, suffix, from, between, IsSpec, Asks, Covers, print_spec, parse_range-Covers,
  parse_range-print_spec, is_empty_ne, AreDigits,
}

-- The answer sends just the bytes that the header asks for, and announces their number; or it is
-- "not satisfiable" and no byte of the file is asked for.
abbrev pub IsExact : Answer → Spec → ℕ → Type 0
IsExact not_satisfiable s size = (i : ℕ) → ¬ Asks s size i
IsExact crashes s size = ⊥
IsExact (sends r) s size =
    (r.content_length ≡ r.file_length)
    × (r.file_offset + r.file_length ≤ size)
    × ((i : ℕ) → ((r.file_offset ≤ i) × (i < r.file_offset + r.file_length)) ↔ Asks s size i)

Asks-bound : (s : Spec) (size i : ℕ) → Asks s size i → i < size
Asks-bound (suffix n) size i a = a.0
Asks-bound (from n) size i a = a.0
Asks-bound (between n m) size i a = a.0

set_file_lem :
    (partial : Bool) (size offset len : ℕ)
    → 0 < len
    → set_file partial size offset len
      ≡ record { partial = partial; content_length = len; file_offset = offset; file_length = len }
unfolding set_file
set_file_lem partial size offset len h = let e : ltb 0 len ≡ true = ground arith in rw (e, e) refl

range-length : (a b : ℕ) → a ≤ b → b + 1 < 2 ^ 64 → add_size (sub_size b a) 1 ≡ b - a + 1
range-length a b h k = omega arith

range-IsExact :
    (s : Spec) (size a b : ℕ)
    → a ≤ b
    → b < size
    → size < 2 ^ 64
    → Covers (range a b) s size
    → IsExact (answer_range size (range a b)) s size
unfolding answer_range
range-IsExact s size a b ab bs k c =
    rw (range-length a b ab (omega arith), set_file_lem true size a (b - a + 1) (omega arith))
      (
        refl,
        omega arith,
        λ i. ((λ e. (c i).0 (ground arith)), λ q. let e = (c i).1 q in ground arith),
      )

pub is_empty-print_spec : (s : Spec) → is_empty (print_spec s) ≡ false
unfolding print_spec is_empty
is_empty-print_spec s = refl

answer_range-IsExact :
    (r : ParsedRange) (s : Spec) (size i : ℕ)
    → size < 2 ^ 64
    → Covers r s size
    → Asks s size i
    → IsExact (answer_range size r) s size
unfolding answer_range
answer_range-IsExact no_range s size i k c asked = c
answer_range-IsExact throws s size i k c asked = c
answer_range-IsExact (range a b) s size i k c asked =
    let ab : a ≤ b = let w = (c i).1 asked in ground arith in
    range-IsExact s size a b ab (Asks-bound s size b ((c b).0 (ab, omega arith))) k c

-- For every header of the three forms with numbers below 2^64 that asks for a byte of the file,
-- `GetObject` sends just the
-- bytes asked for, and announces just their number.
pub answer-IsExact :
    (s : Spec) (size i : ℕ)
    → IsSpec s
    → size < 2 ^ 64
    → Asks s size i
    → IsExact (answer (print_spec s) size) s size
unfolding answer
answer-IsExact s size i v k asked =
    let h : 0 < size = let w = Asks-bound s size i asked in omega arith in
    rw (is_empty-print_spec s) (
      answer_range-IsExact (parse_range (print_spec s) size) s size i k
        (parse_range-Covers s size v h k) asked)

stoull-none : (s : Bytes) → 2 ^ 64 ≤ decimal 0 s → stoull s ≡ none
unfolding stoull
stoull-none s h = ground arith

-- For a header that asks for the last `n` bytes, with `n` at least 2^64, and a file that is not empty,
-- `ParseRange` throws, and `GetObject` does not catch it.
pub answer-overflow :
    (n : Bytes) (size : ℕ)
    → AreDigits n
    → n ≢ []
    → 2 ^ 64 ≤ decimal 0 n
    → 0 < size
    → answer (print_spec (suffix n)) size ≡ crashes
unfolding answer range_of_match is_empty answer_range
answer-overflow n size v w h k =
    rw
      (
        is_empty-print_spec (suffix n),
        parse_range-print_spec (suffix n) size tt v k,
        is_empty_ne n w,
        stoull-none n h,
      )
      refl
