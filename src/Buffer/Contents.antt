-- ===== src/Buffer/Contents.antt =====
-- The abstract view of `ByteBuffer`: the bytes between the two indices.
use zls.Base.{
  ℕ, ◌+◌, ◌-◌, ◌≤◌, ◌<◌, ◌≡◌, refl, sym, ap, ◌∙◌, [], ◌++◌, length, arith, take, drop, ltb,
  add_size, sub_size, inl, inr, Bool-cases, true, take-take_of_le, drop_all, take_all, zero,
  length-replicate,
}
use zls.Base.Bytes.{Bytes}
use zls.Buffer.Slices.{
  slice, length-slice, slice-drop, slice-overwrite_self, slice-overwrite_end, slice-overwrite_front,
  slice-resize,
}
use zls.Buffer.Invariant.{
  IsValid, HasRoom, Fits, max_size, readable_bytes_lem, writable_bytes_lem, make_space_cases,
  ensure_writable_bytes-HasRoom,
}
use zls.Buffer.{
  ByteBuffer, prepend_size, readable_bytes, writable_bytes, retrieve, retrieve_all,
  ensure_writable_bytes, grow, move_to_front, store, has_written, append, prepend, shrink, peek,
}

unfoldable pub contents : ByteBuffer → Bytes
contents b = slice b.buffer b.reader_index b.writer_index

pub length-contents : {b : ByteBuffer} → IsValid b → length (contents b) ≡ readable_bytes b
unfolding contents
length-contents {b} v =
    omega (arith, readable_bytes_lem v, length-slice b.buffer b.reader_index b.writer_index)

pub peek-contents :
    {b : ByteBuffer} (n : ℕ) → IsValid b → n ≤ readable_bytes b → peek b n ≡ take n (contents b)
unfolding contents peek slice
peek-contents {b} n v h = sym (take-take_of_le n _ _ (omega (arith, readable_bytes_lem v)))

pub peek_all : {b : ByteBuffer} → IsValid b → peek b (readable_bytes b) ≡ contents b
peek_all {b} v =
    peek-contents (readable_bytes b) v (omega arith)
    ∙ take_all (readable_bytes b) (contents b) (omega (arith, length-contents v))

contents-retrieve_all : (b : ByteBuffer) → contents (retrieve_all b) ≡ []
unfolding contents retrieve_all slice
contents-retrieve_all b = refl

-- `Retrieve` on a valid buffer drops bytes from the front, all when asked for more than there are.
pub contents-retrieve :
    {b : ByteBuffer} (n : ℕ) → IsValid b → contents (retrieve b n) ≡ drop n (contents b)
unfolding retrieve contents
contents-retrieve {b} n v = elim (Bool-cases (ltb n (readable_bytes b))) [
  | inl e ↦ rw (e, retrieve) (rw (slice-drop, add_eq e))
  | inr e ↦
      rw (e, retrieve)
        (contents-retrieve_all b
          ∙ sym (drop_all n (contents b) (ground (arith, length-contents v))))
]
  where
    add_eq : ltb n (readable_bytes b) ≡ true → add_size b.reader_index n ≡ b.reader_index + n
    add_eq e = ground (arith, readable_bytes_lem v)

module _ {b : ByteBuffer} (n : ℕ) (v : IsValid b) (f : Fits b n) where
  contents-grow : contents (grow b n) ≡ contents b
  unfolding contents grow
  contents-grow = slice-resize b.buffer _ _ _ v.ordered (omega arith) v.in_range

  contents-move_to_front : prepend_size ≤ b.reader_index → contents (move_to_front b) ≡ contents b
  unfolding contents move_to_front
  contents-move_to_front h =
      let e : add_size prepend_size (readable_bytes b)
          ≡ prepend_size + length (slice b.buffer b.reader_index b.writer_index) =
        omega (arith, readable_bytes_lem v, length-slice b.buffer b.reader_index b.writer_index) in
      rw e (
        slice-overwrite_self b.buffer (slice b.buffer b.reader_index b.writer_index) prepend_size
          (omega (arith, length-slice b.buffer b.reader_index b.writer_index)))

  contents-ensure_writable_bytes : contents (ensure_writable_bytes b n) ≡ contents b
  unfolding ensure_writable_bytes
  contents-ensure_writable_bytes = elim (Bool-cases (ltb (writable_bytes b) n)) [
    | inl e ↦ rw e (
        make_space_cases n v f (λ c. contents c ≡ contents b) (ground (arith, writable_bytes_lem v))
          contents-grow (λ h _. contents-move_to_front (omega arith)))
    | inr e ↦ rw e refl
  ]

pub contents-store :
    {b : ByteBuffer} (bytes : Bytes)
    → HasRoom (length bytes) b
    → contents (has_written (store b bytes) (length bytes)) ≡ contents b ++ bytes
unfolding contents store has_written
contents-store {b} bytes r =
    let e : add_size b.writer_index (length bytes) ≡ b.writer_index + length bytes = omega arith in
    rw e (slice-overwrite_end b.buffer bytes b.reader_index b.writer_index (omega arith) r.1)

-- `Append` to a valid buffer adds the bytes at the end, whether or not the buffer moves or grows, if
-- they fit below the size limit.
pub contents-append :
    {b : ByteBuffer} (bytes : Bytes)
    → IsValid b
    → Fits b (length bytes)
    → contents (append b bytes) ≡ contents b ++ bytes
unfolding append
contents-append bytes v f =
    contents-store bytes (ensure_writable_bytes-HasRoom (length bytes) v f)
    ∙ ap (λ xs. xs ++ bytes) (contents-ensure_writable_bytes (length bytes) v f)

-- `Prepend` to a valid buffer of at most as many bytes as lie free in front adds them at the front.
pub contents-prepend :
    {b : ByteBuffer} (bytes : Bytes)
    → IsValid b
    → length bytes ≤ b.reader_index
    → contents (prepend b bytes) ≡ bytes ++ contents b
unfolding contents prepend
contents-prepend {b} bytes v h =
    let e : sub_size b.reader_index (length bytes) ≡ b.reader_index - length bytes = omega arith in
    let back : b.reader_index - length bytes + length bytes ≡ b.reader_index = omega arith in
    rw e (
      slice-overwrite_front b.buffer bytes (b.reader_index - length bytes) b.writer_index
        (omega arith) v.in_range
      ∙ ap (λ i. bytes ++ slice b.buffer i b.writer_index) back)

-- `Shrink` keeps the contents of a valid buffer, if the new vector stays below the size limit.
pub contents-shrink :
    {b : ByteBuffer} (n : ℕ)
    → IsValid b
    → prepend_size + readable_bytes b + n < max_size
    → contents (shrink b n) ≡ contents b
unfolding contents shrink
contents-shrink {b} n v h =
    let all : peek b (readable_bytes b) ≡ contents b = peek_all v in
    let e : add_size prepend_size (readable_bytes b)
        ≡ prepend_size + length (peek b (readable_bytes b)) =
      omega (arith, ap length all, length-contents v) in
    rw e (
      slice-overwrite_self _ (peek b (readable_bytes b)) prepend_size (
        omega (
          arith,
          ap length all,
          length-contents v,
          length-replicate (add_size (prepend_size + length (peek b (readable_bytes b))) n) zero,
        ))
      ∙ all)
