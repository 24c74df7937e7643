-- ===== src/Buffer/Invariant.antt =====
-- The representation invariant of `ByteBuffer`: the indices are in order and in range.
use zls.Base.{
  ℕ, ◌+◌, ◌-◌, ◌≤◌, ◌<◌, ◌^◌, ◌≡◌, inl, inr, length, arith, replicate, zero, ltb, add_size,
  sub_size, Bool-cases, length-overwrite, length-replicate,
}
use zls.Base.Bytes.{Bytes}
use zls.Buffer.Slices.{slice, length-resize}
use zls.Buffer.{
  ByteBuffer, prepend_size, create, readable_bytes, writable_bytes, prependable_bytes, retrieve,
  retrieve_all, unwrite, ensure_writable_bytes, grow, move_to_front, make_space, store, has_written,
  append, prepend, shrink, peek,
}

-- A `vector<char>` holds fewer than 2^63 bytes.
abbrev pub max_size : ℕ
max_size = 2 ^ 63

pub record IsValid (b : ByteBuffer) : Type 0 where
  pub ordered : b.reader_index ≤ b.writer_index
  pub in_range : b.writer_index ≤ length b.buffer
  pub has_front : prepend_size ≤ length b.buffer
  pub small : length b.buffer < max_size

-- A valid buffer that can take `n` bytes as it is.
abbrev pub HasRoom : ℕ → ByteBuffer → Type 0
HasRoom n b = IsValid b × (b.writer_index + n ≤ length b.buffer)

-- `n` more bytes fit below the size limit of a vector.
abbrev pub Fits : ByteBuffer → ℕ → Type 0
Fits b n = b.writer_index + n < max_size

pub readable_bytes_lem :
    {b : ByteBuffer} → IsValid b → readable_bytes b ≡ b.writer_index - b.reader_index
unfolding readable_bytes
readable_bytes_lem v = omega arith

pub writable_bytes_lem :
    {b : ByteBuffer} → IsValid b → writable_bytes b ≡ length b.buffer - b.writer_index
unfolding writable_bytes
writable_bytes_lem v = omega arith

pub create-IsValid : (n : ℕ) → n + prepend_size < max_size → IsValid (create n)
unfolding create
create-IsValid n h = omega (arith, length-replicate (add_size prepend_size n) zero)

pub retrieve_all-IsValid : {b : ByteBuffer} → IsValid b → IsValid (retrieve_all b)
unfolding retrieve_all
retrieve_all-IsValid v = omega arith

pub retrieve-IsValid : {b : ByteBuffer} (n : ℕ) → IsValid b → IsValid (retrieve b n)
unfolding retrieve retrieve_all
retrieve-IsValid n v = ground (arith, readable_bytes_lem v)

pub unwrite-IsValid :
    {b : ByteBuffer} (n : ℕ)
    → IsValid b
    → n ≤ b.writer_index - b.reader_index
    → IsValid (unwrite b n)
unfolding unwrite
unwrite-IsValid n v h = omega arith

module _ {b : ByteBuffer} (n : ℕ) (v : IsValid b) (f : Fits b n) where
  grow-HasRoom : length b.buffer < b.writer_index + n → HasRoom n (grow b n)
  unfolding grow
  grow-HasRoom full = omega (arith, length-resize (add_size b.writer_index n) b.buffer)

  move_to_front-HasRoom :
      n + prepend_size ≤ length b.buffer - b.writer_index + b.reader_index
      → HasRoom n (move_to_front b)
  unfolding move_to_front
  move_to_front-HasRoom h = omega (
    arith,
    readable_bytes_lem v,
    length-overwrite b.buffer prepend_size (slice b.buffer b.reader_index b.writer_index),
  )

  -- When the bytes move, they move left.
  pub make_space_cases {ℓ} :
      (P : ByteBuffer → Type ℓ)
      → length b.buffer < b.writer_index + n
      → P (grow b n)
      → (prepend_size < b.reader_index
          → n + prepend_size ≤ length b.buffer - b.writer_index + b.reader_index
          → P (move_to_front b))
      → P (make_space b n)
  unfolding make_space prependable_bytes
  make_space_cases P full grown moved =
      elim (Bool-cases
        (ltb (add_size (writable_bytes b) b.reader_index) (add_size n prepend_size))) [
          | inl e ↦ rw (e, make_space) grown
          | inr e ↦
              rw (e, make_space)
                (moved (ground (arith, writable_bytes_lem v))
                  (ground (arith, writable_bytes_lem v)))
        ]

  pub make_space-HasRoom : length b.buffer < b.writer_index + n → HasRoom n (make_space b n)
  make_space-HasRoom full =
      make_space_cases (HasRoom n) full (grow-HasRoom full) (λ _ h. move_to_front-HasRoom h)

  pub ensure_writable_bytes-HasRoom : HasRoom n (ensure_writable_bytes b n)
  unfolding ensure_writable_bytes
  ensure_writable_bytes-HasRoom = ground (arith, writable_bytes_lem v, make_space-HasRoom)

pub store-HasRoom :
    {b : ByteBuffer} (n : ℕ) (bytes : Bytes) → HasRoom n b → HasRoom n (store b bytes)
unfolding store
store-HasRoom {b} n bytes v = omega (arith, length-overwrite b.buffer b.writer_index bytes)

pub has_written-IsValid : {b : ByteBuffer} (n : ℕ) → HasRoom n b → IsValid (has_written b n)
unfolding has_written
has_written-IsValid n v = omega arith

pub append-IsValid :
    {b : ByteBuffer} (bytes : Bytes) → IsValid b → Fits b (length bytes) → IsValid (append b bytes)
unfolding append
append-IsValid bytes v f =
    has_written-IsValid (length bytes)
      (store-HasRoom (length bytes) bytes (ensure_writable_bytes-HasRoom (length bytes) v f))

pub prepend-IsValid :
    {b : ByteBuffer} (bytes : Bytes)
    → IsValid b
    → length bytes ≤ b.reader_index
    → IsValid (prepend b bytes)
unfolding prepend
prepend-IsValid {b} bytes v h =
    omega (arith, length-overwrite b.buffer (sub_size b.reader_index (length bytes)) bytes)

pub shrink-IsValid :
    {b : ByteBuffer} (n : ℕ)
    → IsValid b
    → prepend_size + (b.writer_index - b.reader_index) + n < max_size
    → IsValid (shrink b n)
unfolding shrink
shrink-IsValid {b} n v h = omega (
  arith,
  readable_bytes_lem v,
  length-overwrite (fresh (readable_bytes b)) prepend_size (peek b (readable_bytes b)),
  length-replicate (add_size (add_size prepend_size (readable_bytes b)) n) zero,
)
  where
    fresh : ℕ → Bytes
    fresh k = replicate (add_size (add_size prepend_size k) n) 0
