-- ===== src/Buffer/Slices.antt =====
-- Ranges of a vector, and what the writes of the buffer do to them.
use zls.Base.Bytes.{Bytes}
use zls.Base.{
  ℕ, ◌+◌, ◌-◌, ◌≤◌, List, ◌++◌, ◌≡◌, sym, ap, ◌∙◌, length, take, drop, replicate, overwrite, arith,
  length-take, length-drop, length-append, length-replicate, drop-take, drop-drop, take-append_left,
  drop-append_left, take-append_length, drop-overwrite, take-overwrite_end, take-take_of_le,
  take-append_add, zero,
}

-- The elements from index `i` up to, and without, index `j`.
unfoldable pub slice {ℓ} : {A : Type ℓ} → List A → ℕ → ℕ → List A
slice xs i j = take (j - i) (drop i xs)

-- `vector::resize`, which fills up with zeros.
unfoldable pub resize : ℕ → Bytes → Bytes
resize n xs = take n xs ++ replicate (n - length xs) 0

module _ {ℓ} {A : Type ℓ} where
  pub length-slice : (xs : List A) (i j : ℕ) → j ≤ length xs → length (slice xs i j) ≡ j - i
  unfolding slice
  length-slice xs i j h = omega (arith, length-take (j - i) (drop i xs), length-drop i xs)

  -- A range survives a longer or shorter vector that keeps its first part.
  slice_of_take :
      (xs ys : List A) (i j : ℕ) → i ≤ j → take j xs ≡ take j ys → slice xs i j ≡ slice ys i j
  unfolding slice
  slice_of_take xs ys i j h e = sym (drop-take j i xs) ∙ ap (drop i) e ∙ drop-take j i ys

  pub slice-drop : (xs : List A) (i j n : ℕ) → drop n (slice xs i j) ≡ slice xs (i + n) j
  unfolding slice
  slice-drop xs i j n =
      drop-take (j - i) n (drop i xs)
      ∙ rw drop-drop
          (ap (λ m. take m (drop (i + n) xs)) {x = j - i - n} {y = j - (i + n)} (omega arith))

  pub slice-overwrite_self :
      (xs ys : List A) (i : ℕ)
      → i + length ys ≤ length xs
      → slice (overwrite xs i ys) i (i + length ys) ≡ ys
  unfolding slice
  slice-overwrite_self xs ys i h = rw (drop-overwrite xs i ys h) (
      let e : i + length ys - i ≡ length ys = omega arith in
      rw e (take-append_length ys (drop (i + length ys) xs)))

  -- Bytes stored at the end of a range extend it.
  pub slice-overwrite_end :
      (xs ys : List A) (i j : ℕ)
      → i ≤ j
      → j + length ys ≤ length xs
      → slice (overwrite xs j ys) i (j + length ys) ≡ slice xs i j ++ ys
  unfolding slice
  slice-overwrite_end xs ys i j h k =
      sym (drop-take (j + length ys) i (overwrite xs j ys))
      ∙ ap (drop i) (take-overwrite_end xs j ys k)
      ∙ drop-append_left (take j xs) ys i (omega (arith, length-take j xs))
      ∙ ap (λ zs. zs ++ ys) (drop-take j i xs)

  -- Bytes stored in front of a range extend it on the left.
  pub slice-overwrite_front :
      (xs ys : List A) (i j : ℕ)
      → i + length ys ≤ j
      → j ≤ length xs
      → slice (overwrite xs i ys) i j ≡ ys ++ slice xs (i + length ys) j
  unfolding slice
  slice-overwrite_front xs ys i j h k =
      let e : j - i ≡ length ys + (j - (i + length ys)) = omega arith in
      rw (drop-overwrite xs i ys (omega arith), e) (take-append_add ys _ _)

pub length-resize : (n : ℕ) (xs : Bytes) → length (resize n xs) ≡ n
unfolding resize
length-resize n xs = omega (
  arith,
  length-append (take n xs) (replicate (n - length xs) 0),
  length-take n xs,
  length-replicate (n - length xs) zero,
)

pub slice-resize :
    (xs : Bytes) (n i j : ℕ)
    → i ≤ j
    → j ≤ n
    → j ≤ length xs
    → slice (resize n xs) i j ≡ slice xs i j
slice-resize xs n i j h k l = slice_of_take (resize n xs) xs i j h kept
  where
    kept : take j (resize n xs) ≡ take j xs
    kept =
        unfold resize in
        (take-append_left (take n xs) _ j (omega (arith, length-take n xs))
          ∙ take-take_of_le j n xs k)
