-- ===== src/Buffer/Sockets.antt =====
-- `ReadFd`, with the part that goes through the stack buffer, and what a write leaves.
use zls.Base.{
  ℕ, ◌-◌, ◌≤◌, ◌≡◌, ap, ◌∙◌, ◌++◌, length, arith, take, drop, leb, inl, inr, Bool-cases, some,
  length-take, length-drop, take-append-drop, append_assoc, take_all, length-overwrite,
}
use zls.Base.Bytes.{Bytes}
use zls.Buffer.Contents.{contents, contents-store, contents-append, contents-retrieve}
use zls.Buffer.Invariant.{
  IsValid, HasRoom, Fits, writable_bytes_lem, append-IsValid, store-HasRoom, has_written-IsValid,
  retrieve-IsValid,
}
use zls.Buffer.{
  ByteBuffer, writable_bytes, store, has_written, append, received, extrabuf_size, offered, read_fd,
  write_fd,
}

-- The bytes came in order, behind those that were there.
abbrev pub Appends : ByteBuffer → Bytes → ByteBuffer → Type 0
Appends b bytes c = IsValid c × (contents c ≡ contents b ++ bytes)

store-Appends :
    {b : ByteBuffer} (bytes : Bytes)
    → HasRoom (length bytes) b
    → Appends b bytes (has_written (store b bytes) (length bytes))
store-Appends bytes r = (
  has_written-IsValid (length bytes) (store-HasRoom (length bytes) bytes r),
  contents-store bytes r,
)

module _ {b : ByteBuffer} (bytes : Bytes) (v : IsValid b) (f : Fits b (length bytes)) where
  kept : Bytes
  kept = take (writable_bytes b) bytes

  spilled : Bytes
  spilled = drop (writable_bytes b) bytes

  filled : ByteBuffer
  unfolding kept
  filled = store b kept

  length-kept : writable_bytes b ≤ length bytes → length kept ≡ length b.buffer - b.writer_index
  unfolding kept
  length-kept h = omega (arith, length-take (writable_bytes b) bytes, writable_bytes_lem v)

  -- Setting `writer_index_` to the vector's size is what `HasWritten` of the stored bytes does.
  filled_full :
      writable_bytes b ≤ length bytes
      → record filled { writer_index = length filled.buffer } ≡ has_written filled (length kept)
  unfolding filled store has_written
  filled_full h =
      ap (λ w. record filled { writer_index = w })
        (omega (arith, length-kept h, length-overwrite b.buffer b.writer_index kept))

  spill-Appends :
      writable_bytes b ≤ length bytes
      → Appends b bytes (append (record filled { writer_index = length filled.buffer }) spilled)
  unfolding spilled filled
  spill-Appends h = rw (filled_full h) (
    append-IsValid spilled stored.0 fits,
    contents-append spilled stored.0 fits
        ∙ ap (λ xs. xs ++ spilled) stored.1
        ∙ append_assoc (contents b) kept spilled
        ∙ ap (λ xs. contents b ++ xs) (unfold kept in take-append-drop (writable_bytes b) bytes),
  )
    where
      stored : Appends b kept (has_written filled (length kept))
      stored = store-Appends kept (v, omega (arith, length-kept h))

      fits : Fits (has_written filled (length kept)) (length spilled)
      fits =
          unfold store has_written kept in
          omega (
            arith,
            length-take (writable_bytes b) bytes,
            length-drop (writable_bytes b) bytes,
            writable_bytes_lem v,
          )

  -- `ReadFd` on a valid buffer appends exactly what was received, in place or through the stack buffer,
  -- and leaves the buffer valid, if it fits below the size limit.
  pub read_fd-Appends : Appends b bytes (read_fd b (received bytes))
  unfolding read_fd filled spilled kept
  read_fd-Appends = elim (Bool-cases (leb (length bytes) (writable_bytes b))) [
    | inl e ↦
        rw (e, take_all (writable_bytes b) bytes (ground arith))
          (store-Appends bytes (v, ground (arith, writable_bytes_lem v)))
    | inr e ↦ rw e (spill-Appends (ground arith))
  ]

-- The part that goes through the stack buffer fits into it, if `readv` keeps to what it was offered.
pub spilled_bound :
    {b : ByteBuffer} (bytes : Bytes)
    → IsValid b
    → length bytes ≤ offered b
    → length (drop (writable_bytes b) bytes) ≤ extrabuf_size
unfolding offered
spilled_bound {b} bytes v h =
    ground (arith, writable_bytes_lem v, length-drop (writable_bytes b) bytes)

pub contents-write_fd :
    {b : ByteBuffer} (n : ℕ)
    → IsValid b
    → IsValid (write_fd b (some n)) × (contents (write_fd b (some n)) ≡ drop n (contents b))
unfolding write_fd
contents-write_fd n v = (retrieve-IsValid n v, contents-retrieve n v)
