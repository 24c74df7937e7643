-- ===== src/Buffer/Queue.antt =====
-- A history of `Append`, `RetrieveAsString` and `Shrink` on one buffer, against a queue of bytes.
use zls.Base.{
  ℕ, ◌+◌, ◌≤◌, ◌≡◌, refl, sym, ap, ap₂, ◌∙◌, List, [], ◌∷◌, ◌++◌, length, arith, take, drop, min,
  ltb, inl, inr, Bool-cases, take-min-length,
}
use zls.Base.Bytes.{Bytes}
use zls.Buffer.Contents.{
  contents, contents-append, contents-retrieve, contents-shrink, peek-contents, length-contents,
}
use zls.Buffer.Invariant.{
  IsValid, Fits, writable_bytes_lem, readable_bytes_lem, append-IsValid, make_space_cases,
  shrink-IsValid, retrieve-IsValid,
}
use zls.Buffer.{
  ByteBuffer, prepend_size, append, retrieve, retrieve_all, retrieve_as_string, shrink,
  readable_bytes, writable_bytes, ensure_writable_bytes, grow, move_to_front, store, has_written,
  peek,
}

pub data Op : Type 0 where
  put : Bytes → Op
  get : ℕ → Op
  trim : ℕ → Op

-- What a call returns, and the buffer after it.
unfoldable pub step : ByteBuffer → Op → Bytes × ByteBuffer
step b (put bytes) = ([], append b bytes)
step b (get n) = retrieve_as_string b n
step b (trim n) = ([], shrink b n)

unfoldable pub run : ByteBuffer → List Op → List Bytes
run b [] = []
run b (op ∷ ops) = let (out, b') = step b op in out ∷ run b' ops

-- The queue.
unfoldable pub queue_step : Bytes → Op → Bytes × Bytes
queue_step q (put bytes) = ([], q ++ bytes)
queue_step q (get n) = (take n q, drop n q)
queue_step q (trim n) = ([], q)

unfoldable pub queue_run : Bytes → List Op → List Bytes
queue_run q [] = []
queue_run q (op ∷ ops) = let (out, q') = queue_step q op in out ∷ queue_run q' ops

-- The room that a call asks for.
abbrev pub cost : Op → ℕ
cost (put bytes) = length bytes
cost (get n) = 0
cost (trim n) = n

abbrev pub total_cost : List Op → ℕ
total_cost [] = 0
total_cost (op ∷ ops) = cost op + total_cost ops

-- A valid buffer of which nothing was prepended, with room for `n` more bytes below the limit.
pub record IsReady (b : ByteBuffer) (n : ℕ) : Type 0 where
  pub valid : IsValid b
  pub front : prepend_size ≤ b.reader_index
  pub fits : Fits b n

IsReady-le : {b : ByteBuffer} {m n : ℕ} → IsReady b m → n ≤ m → IsReady b n
IsReady-le r h = record { valid = r.valid; front = r.front; fits = omega (arith, r.fits) }

peek-min :
    {b : ByteBuffer} (k : ℕ) → IsValid b → peek b (min k (readable_bytes b)) ≡ take k (contents b)
peek-min {b} k v =
    peek-contents (min k (readable_bytes b)) v (omega arith)
    ∙ ap (λ n. take (min k n) (contents b)) (sym (length-contents v))
    ∙ take-min-length k (contents b)

-- Neither way of making room moves the end of the bytes to the right.
Stays : ByteBuffer → ByteBuffer → Type 0
Stays b c = (prepend_size ≤ c.reader_index) × (c.writer_index ≤ b.writer_index)

ensure_writable_bytes-Stays :
    {b : ByteBuffer} (n : ℕ) → IsReady b n → Stays b (ensure_writable_bytes b n)
unfolding ensure_writable_bytes Stays grow move_to_front
ensure_writable_bytes-Stays {b} n r = elim (Bool-cases (ltb (writable_bytes b) n)) [
  | inl e ↦ rw e (
      make_space_cases n r.valid r.fits (Stays b) (ground (arith, writable_bytes_lem r.valid))
        (r.front, omega arith) (λ h _. (omega arith, omega (arith, readable_bytes_lem r.valid))))
  | inr e ↦ rw e (r.front, omega arith)
]

append-IsReady :
    {b : ByteBuffer} (bytes : Bytes) (n : ℕ)
    → IsReady b (length bytes + n)
    → IsReady (append b bytes) n
unfolding append store has_written Stays
append-IsReady {b} bytes n r =
    let fits : Fits b (length bytes) = omega (arith, r.fits) in
    let stays = ensure_writable_bytes-Stays (length bytes) (IsReady-le r (omega arith)) in
    record {
      valid = append-IsValid bytes r.valid fits;
      front = stays.0;
      fits = omega (arith, stays.1, r.fits);
    }

retrieve-IsReady : {b : ByteBuffer} (k n : ℕ) → IsReady b n → IsReady (retrieve b k) n
unfolding retrieve retrieve_all
retrieve-IsReady {b} k n r = record {
  valid = retrieve-IsValid k r.valid;
  front = ground (arith, readable_bytes_lem r.valid);
  fits = ground arith;
}

step-IsReady :
    {b : ByteBuffer} (op : Op) (n : ℕ) → IsReady b (cost op + n) → IsReady (step b op).1 n
unfolding step
step-IsReady (put bytes) n r = append-IsReady bytes n r
step-IsReady (get k) n r =
    unfold retrieve_as_string in (retrieve-IsReady k n (IsReady-le r (omega arith)))
step-IsReady {b} (trim k) n r = record {
  valid = shrink-IsValid k r.valid (omega (arith, r.fits));
  front = unfold shrink in omega arith;
  fits = unfold shrink in omega (arith, readable_bytes_lem r.valid, r.fits);
}

step_refines :
    {b : ByteBuffer} (op : Op) (n : ℕ)
    → IsReady b (cost op + n)
    → let (out, b') = step b op in (out, contents b') ≡ queue_step (contents b) op
unfolding step queue_step
step_refines (put bytes) n r =
    ap (λ q. ([], q)) (contents-append bytes r.valid (omega (arith, r.fits)))
step_refines {b} (get k) n r =
    unfold retrieve_as_string in
    (ap₂ (λ out q. (out, q)) (peek-min k r.valid) (contents-retrieve k r.valid))
step_refines {b} (trim k) n r =
    ap (λ q. ([], q))
      (contents-shrink k r.valid (omega (arith, readable_bytes_lem r.valid, r.fits)))

-- No sequence of `Append`, `RetrieveAsString` and `Shrink` tells a buffer from the queue of its bytes,
-- if the buffer is valid, nothing was prepended to it, and all that the calls add stays below the size
-- limit of a vector.
pub run_refines :
    (ops : List Op) {b : ByteBuffer}
    → IsReady b (total_cost ops)
    → run b ops ≡ queue_run (contents b) ops
unfolding run queue_run
run_refines [] r = refl
run_refines (op ∷ ops) r =
    rw (run_refines ops (step-IsReady op (total_cost ops) r), ← step_refines op (total_cost ops) r)
