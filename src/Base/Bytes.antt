-- ===== src/Base/Bytes.antt =====
-- Byte strings as lists of numbers, and the functions of `std::string` and `std::string_view` that
-- the server calls on them. A string literal is `codes "..."`, its bytes.
use Prim.Native.Char.{code}
use Prim.Native.String.{String}
use mathlib.Core.Option
use zls.Base.Tests.{◌==◌, leb, ltb, if◌then◌else◌}
use zls.Base.Lists.{length}
use Prim.Native.Nat.{ℕ, suc, ◌+◌, ◌-◌, ◌*◌, ◌^◌}
use mathlib.Core.Bool.{Bool, true, false, ◌&&◌, ◌||◌}
use mathlib.Core.Option.{Option, none, some}
use mathlib.Core.List.{List, [], ◌∷◌}
use mathlib.Core.Path.{◌≡◌, refl}
use mathlib.Core.Logic.{◌↔◌}
use native.Mathlib.Omega.{arith}

abbrev pub Bytes : Type 0
Bytes = List ℕ

abbrev pub codes : String → Bytes
codes String.[] = []
codes (String.◌∷◌ c s) = code c ∷ codes s

abbrev pub cr : ℕ
cr = 13

abbrev pub lf : ℕ
lf = 10

-- `operator==` on strings.
unfoldable pub eq_bytes : Bytes → Bytes → Bool
eq_bytes [] [] = true
eq_bytes [] (y ∷ ys) = false
eq_bytes (x ∷ xs) [] = false
eq_bytes (x ∷ xs) (y ∷ ys) = x == y && eq_bytes xs ys

pub eq_bytes_iff : (xs ys : Bytes) → (eq_bytes xs ys ≡ true) ↔ (xs ≡ ys)
unfolding eq_bytes
eq_bytes_iff [] [] = ((λ _. refl), λ _. refl)
eq_bytes_iff [] (y ∷ ys) = ((λ h. absurd (cc h)), λ h. absurd (cc h))
eq_bytes_iff (x ∷ xs) [] = ((λ h. absurd (cc h)), λ h. absurd (cc h))
eq_bytes_iff (x ∷ xs) (y ∷ ys) =
    ((λ h. ground (arith, eq_bytes_iff xs ys)), λ h. ground (arith, eq_bytes_iff xs ys))

pub eq_bytes_refl : (xs : Bytes) → eq_bytes xs xs ≡ true
eq_bytes_refl xs = (eq_bytes_iff xs xs).1 refl

unfoldable pub is_empty : Bytes → Bool
is_empty [] = true
is_empty (x ∷ xs) = false

-- The first position of byte `c`; `none` is `npos`.
unfoldable pub find_byte : ℕ → Bytes → Option ℕ
find_byte c [] = none
find_byte c (x ∷ xs) = if x == c then some 0 else Option.map suc (find_byte c xs)

-- `std::search` for "\r\n".
unfoldable pub find_crlf : Bytes → Option ℕ
find_crlf [] = none
find_crlf (x ∷ []) = none
find_crlf (x ∷ y ∷ xs) = if x == cr && y == lf then some 0 else Option.map suc (find_crlf (y ∷ xs))

unfoldable pub starts_with : Bytes → Bytes → Bool
starts_with [] xs = true
starts_with (p ∷ ps) [] = false
starts_with (p ∷ ps) (x ∷ xs) = p == x && starts_with ps xs

-- `find(needle) != npos`.
unfoldable pub contains : Bytes → Bytes → Bool
unfolding starts_with
contains needle [] = is_empty needle
contains needle (x ∷ xs) = starts_with needle (x ∷ xs) || contains needle xs

-- `std::tolower` in the "C" locale.
unfoldable pub to_lower : ℕ → ℕ
to_lower c = if leb b'A' c && leb c b'Z' then c + 32 else c

unfoldable pub lower : Bytes → Bytes
lower [] = []
lower (c ∷ cs) = to_lower c ∷ lower cs

unfoldable pub is_digit : ℕ → Bool
is_digit c = leb b'0' c && leb c b'9'

-- The digits at the front, and the number that a run of digits continues.
unfoldable pub digits : Bytes → Bytes
digits [] = []
digits (c ∷ cs) = if is_digit c then c ∷ digits cs else []

unfoldable pub decimal : ℕ → Bytes → ℕ
decimal acc [] = acc
decimal acc (c ∷ cs) = decimal (acc * 10 + (c - b'0')) cs

-- `std::from_chars` into a `size_t`: an error, or the value and how many characters it took.
pub data FromChars : Type 0 where
  invalid_argument : FromChars
  out_of_range : ℕ → FromChars
  parsed : ℕ → ℕ → FromChars

unfoldable pub from_chars : Bytes → FromChars
from_chars s =
    let run = digits s in
    if is_empty run
    then invalid_argument
    else if ltb (decimal 0 run) (2 ^ 64)
    then parsed (decimal 0 run) (length run)
    else out_of_range (length run)
