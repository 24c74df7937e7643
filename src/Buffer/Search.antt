-- ===== src/Buffer/Search.antt =====
-- What `FindCRLF` and `FindEOL` return, by the positions of the bytes.
use mathlib.Core.Option
use mathlib.Core.Option.{some-injective}
use zls.Base.{
  ℕ, zero, suc, ◌+◌, ◌≤◌, ◌<◌, ◌≡◌, ◌≢◌, refl, [], ◌∷◌, ◌++◌, length, arith, ◌==◌, ◌&&◌, inl, inr,
  Bool-cases, Option, some, none, get_elem?, Option-cases, ap, ==_iff, take_all, ◌∙◌,
}
use zls.Base.Bytes.{Bytes, cr, lf, find_crlf, find_byte}
use zls.Buffer.Contents.{contents, peek-contents, length-contents}
use zls.Buffer.Invariant.{IsValid}
use zls.Buffer.{ByteBuffer, find_crlf_in, find_eol_in, peek, readable_bytes}

-- "\r\n" stands at index `i`.
abbrev pub CrlfAt : Bytes → ℕ → Type 0
CrlfAt xs i = (get_elem? xs i ≡ some cr) × (get_elem? xs (suc i) ≡ some lf)

-- `o` is the first index of "\r\n" in `xs`.
abbrev pub IsFirstCrlf : Bytes → Option ℕ → Type 0
IsFirstCrlf xs none = (j : ℕ) → ¬ CrlfAt xs j
IsFirstCrlf xs (some i) = CrlfAt xs i × ((j : ℕ) → j < i → ¬ CrlfAt xs j)

IsFirstCrlf-cons :
    (x y : ℕ) (xs : Bytes) (o : Option ℕ)
    → ¬ CrlfAt (x ∷ y ∷ xs) 0
    → IsFirstCrlf (y ∷ xs) o
    → IsFirstCrlf (x ∷ y ∷ xs) (Option.map suc o)
IsFirstCrlf-cons x y xs none miss h = go
  where
    go : (j : ℕ) → ¬ CrlfAt (x ∷ y ∷ xs) j
    go zero = miss
    go (suc j) = h j
IsFirstCrlf-cons x y xs (some i) miss h = (h.0, go)
  where
    go : (j : ℕ) → j < suc i → ¬ CrlfAt (x ∷ y ∷ xs) j
    go zero k = miss
    go (suc j) k = h.1 j (omega arith)

not-CrlfAt_short : (x j : ℕ) → ¬ CrlfAt (x ∷ []) j
not-CrlfAt_short x zero h = cc (h.1)
not-CrlfAt_short x (suc j) h = cc (h.0)

find_crlf-IsFirstCrlf : (xs : Bytes) → IsFirstCrlf xs (find_crlf xs)
unfolding find_crlf
find_crlf-IsFirstCrlf [] = λ j h. cc (h.0)
find_crlf-IsFirstCrlf (x ∷ []) = not-CrlfAt_short x
find_crlf-IsFirstCrlf (x ∷ y ∷ xs) = elim (Bool-cases (x == cr && y == lf)) [
  | inl e ↦ rw e ((ground arith, ground arith), λ j h. absurd (omega arith))
  | inr e ↦ rw e (
      IsFirstCrlf-cons x y xs (find_crlf (y ∷ xs)) (λ h. ground (arith, h.0, h.1))
        (find_crlf-IsFirstCrlf (y ∷ xs)))
]

-- `FindCRLF` returns the first "\r\n" of the unread bytes, and null exactly when there is none.
pub find_crlf_in-IsFirstCrlf : (b : ByteBuffer) → IsFirstCrlf (contents b) (find_crlf_in b)
unfolding find_crlf_in contents
find_crlf_in-IsFirstCrlf b = find_crlf-IsFirstCrlf (contents b)

-- `o` is the first index of `c` in `xs`.
abbrev pub IsFirst : ℕ → Bytes → Option ℕ → Type 0
IsFirst c xs none = (j : ℕ) → get_elem? xs j ≢ some c
IsFirst c xs (some i) = (get_elem? xs i ≡ some c) × ((j : ℕ) → j < i → get_elem? xs j ≢ some c)

IsFirst-cons :
    (c x : ℕ) (xs : Bytes) (o : Option ℕ)
    → x ≢ c
    → IsFirst c xs o
    → IsFirst c (x ∷ xs) (Option.map suc o)
IsFirst-cons c x xs none miss h = go
  where
    go : (j : ℕ) → get_elem? (x ∷ xs) j ≢ some c
    go zero e = miss (some-injective x c e)
    go (suc j) e = h j e
IsFirst-cons c x xs (some i) miss h = (h.0, go)
  where
    go : (j : ℕ) → j < suc i → get_elem? (x ∷ xs) j ≢ some c
    go zero k e = miss (some-injective x c e)
    go (suc j) k e = h.1 j (omega arith) e

find_byte-IsFirst : (c : ℕ) (xs : Bytes) → IsFirst c xs (find_byte c xs)
unfolding find_byte
find_byte-IsFirst c [] = λ j e. cc e
find_byte-IsFirst c (x ∷ xs) = elim (Bool-cases (x == c)) [
  | inl e ↦ rw e (ap some ((==_iff x c).0 e), λ j h. absurd (omega arith))
  | inr e ↦ rw e (IsFirst-cons c x xs (find_byte c xs) (λ h. ground arith) (find_byte-IsFirst c xs))
]

-- `FindEOL` on a valid buffer returns the first line feed of the unread bytes, and null exactly when
-- there is none.
pub find_eol_in-IsFirst : {b : ByteBuffer} → IsValid b → IsFirst lf (contents b) (find_eol_in b)
unfolding find_eol_in
find_eol_in-IsFirst {b} v = rw (all_of_it) (find_byte-IsFirst lf (contents b))
  where
    all_of_it : peek b (readable_bytes b) ≡ contents b
    all_of_it =
        peek-contents (readable_bytes b) v (omega arith)
        ∙ take_all (readable_bytes b) (contents b) (omega (arith, length-contents v))

pub find_crlf_in-contents : (b : ByteBuffer) → find_crlf_in b ≡ find_crlf (contents b)
unfolding find_crlf_in contents
find_crlf_in-contents b = refl

pub find_crlf_bound : (xs : Bytes) {i : ℕ} → find_crlf xs ≡ some i → i + 2 ≤ length xs
unfolding find_crlf
find_crlf_bound [] h = absurd (cc)
find_crlf_bound (x ∷ []) h = absurd (cc)
find_crlf_bound (x ∷ y ∷ xs) h = elim (Option-cases (find_crlf (y ∷ xs))) [
  | inl e ↦ ground (arith, e)
  | inr (j, e) ↦ ground (arith, e, find_crlf_bound (y ∷ xs) e)
]

-- More bytes behind the first "\r\n" do not move it.
pub find_crlf-append :
    (xs ys : Bytes) {i : ℕ} → find_crlf xs ≡ some i → find_crlf (xs ++ ys) ≡ some i
unfolding find_crlf
find_crlf-append [] ys h = absurd (cc)
find_crlf-append (x ∷ []) ys h = absurd (cc)
find_crlf-append (x ∷ y ∷ xs) ys h = elim (Option-cases (find_crlf (y ∷ xs))) [
  | inl e ↦ ground (arith, e)
  | inr (j, e) ↦ ground (arith, e, find_crlf-append (y ∷ xs) ys e)
]

-- A line with no '\r' in it ends where it ends.
abbrev pub Lacks : ℕ → Bytes → Type 0
Lacks c [] = Unit {0}
Lacks c (x ∷ xs) = (x ≢ c) × Lacks c xs

pub find_crlf_line :
    (line rest : Bytes) → Lacks cr line → find_crlf (line ++ cr ∷ lf ∷ rest) ≡ some (length line)
unfolding find_crlf
find_crlf_line [] rest h = refl
find_crlf_line (x ∷ []) rest h = ground arith
find_crlf_line (x ∷ y ∷ xs) rest h = ground (arith, find_crlf_line (y ∷ xs) rest h.1)
