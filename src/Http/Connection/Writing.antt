-- ===== src/Http/Connection/Writing.antt =====
-- What goes out on a connection, and what is pending.
use native.Mathlib.Nat.{sub-zero, suc-sub-suc}
use zls.Base.{
  ℕ, zero, suc, ◌+◌, ◌-◌, ◌≤◌, ◌≡◌, refl, sym, ap, ap₂, ◌∙◌, arith, Bool, true, false, List, [],
  ◌∷◌, ◌++◌, none, if◌then◌else◌, ltb, ◌==◌, length, take, drop, append_assoc, if-cases,
  take-append-drop, drop-drop, take-nil,
}
use zls.Base.Bytes.{Bytes}
use zls.Buffer.{ByteBuffer, readable_bytes}
use zls.Buffer.Invariant.{IsValid, Fits}
use zls.Buffer.Contents.{contents, length-contents, peek-contents, contents-append}
use zls.Buffer.Sockets.{contents-write_fd}
use zls.Http.Request
use zls.Http.Response.{HttpResponse, to_text, append_to_buffer, has_file, sent_length}
use zls.Http.Connection.{
  HttpConnection, reading_headers, reading_body_stream, processing, writing_response, sending_file,
  closed, Notice, is_closed, handle_close, handle_error, Wrote, wrote, write_error, finish_response,
  write_buffer, send_in_loop, file_bytes, send_file, finish_file, file_step, send_file_in_loop,
  handle_write, send, opened, start_file, respond,
}

-- What still has to go out: the buffer, and the part of the file.
unfoldable pub pending : HttpConnection → Bytes
pending c =
    contents c.output_buffer ++ take c.file_remaining (drop c.file_offset (file_bytes c.file_fd))

-- A system call takes at most what it is offered.
abbrev pub IsPossible : Wrote → ℕ → Type 0
IsPossible (wrote n) limit = n ≤ limit
IsPossible (write_error transient) limit = Unit {0}

pub record Conserves (c : HttpConnection) (out : Bytes) (d : HttpConnection) : Type 0 where
  pub sum : out ++ pending d ≡ pending c
  pub valid : IsValid d.output_buffer

abbrev After : HttpConnection → Bytes × (List Notice × HttpConnection) → Type 0
After c (out, (ns, d)) = Conserves c out d

handle_close-Conserves :
    (c : HttpConnection) → IsValid c.output_buffer → Conserves c [] (handle_close c).1
unfolding handle_close pending
handle_close-Conserves c v =
    if-cases (λ (r : List Notice × HttpConnection). Conserves c [] r.1) (is_closed c.state)
      (λ _. record { sum = refl; valid = v }) (λ _. record { sum = refl; valid = v })

error-After :
    (c : HttpConnection) (transient : Bool)
    → IsValid c.output_buffer
    → After c ([], if transient then ([], c) else handle_error c)
unfolding handle_error
error-After c true v = record { sum = refl; valid = v }
error-After c false v = handle_close-Conserves c v

write_buffer-After :
    (c : HttpConnection) (w : Wrote)
    → IsValid c.output_buffer
    → IsPossible w (readable_bytes c.output_buffer)
    → After c (write_buffer c w)
unfolding write_buffer pending
write_buffer-After c (wrote n) v h =
    let r = contents-write_fd n v in
    record {
      sum =
          ap₂
            (λ xs ys.
              xs ++ (ys ++ take c.file_remaining (drop c.file_offset (file_bytes c.file_fd))))
            (peek-contents n v h) r.1
          ∙ sym (
              append_assoc (take n (contents c.output_buffer)) (drop n (contents c.output_buffer))
                (take c.file_remaining (drop c.file_offset (file_bytes c.file_fd))))
          ∙ ap (λ xs. xs ++ take c.file_remaining (drop c.file_offset (file_bytes c.file_fd)))
              (take-append-drop n (contents c.output_buffer));
      valid = r.0;
    }
write_buffer-After c (write_error transient) v h = error-After c transient v

finish_response-Conserves :
    (c : HttpConnection) → IsValid c.output_buffer → Conserves c [] (finish_response c).1
unfolding finish_response
finish_response-Conserves c v =
    if-cases (λ (r : List Notice × HttpConnection). Conserves c [] r.1)
      (zls.Http.Request.is_keep_alive c.parser.request)
      (λ _. unfold pending in record { sum = refl; valid = v }) (λ _. handle_close-Conserves c v)

send_in_loop-After :
    (c : HttpConnection) (w : Wrote)
    → IsValid c.output_buffer
    → IsPossible w (readable_bytes c.output_buffer)
    → After c (send_in_loop c w)
unfolding send_in_loop finish_response pending
send_in_loop-After c w v h =
    if-cases (After c) (readable_bytes c.output_buffer == 0)
      (λ _.
        let r = finish_response-Conserves (record c { writing = false }) v in
        record { sum = r.sum; valid = r.valid })
      (λ _. write_buffer-After c w v h)

take-take-drop : (k n : ℕ) (xs : Bytes) → k ≤ n → take k xs ++ take (n - k) (drop k xs) ≡ take n xs
take-take-drop zero n xs h = rw (sub-zero) refl
take-take-drop (suc k) zero xs h = absurd (omega arith)
take-take-drop (suc k) (suc n) [] h = take-nil (suc n - suc k)
take-take-drop (suc k) (suc n) (x ∷ xs) h =
    rw (suc-sub-suc) (ap (◌∷◌ x) (take-take-drop k n xs (omega arith)))

send_file-After :
    (c : HttpConnection) (v : Wrote)
    → IsValid c.output_buffer
    → contents c.output_buffer ≡ []
    → IsPossible v c.file_remaining
    → After c (send_file c v)
unfolding send_file pending
send_file-After c (wrote n) i e h = record {
  sum =
      let file = file_bytes c.file_fd in
      let part = take n (drop c.file_offset file) in
      ap (λ xs. part ++ (xs ++ take (c.file_remaining - n) (drop (c.file_offset + n) file))) e
      ∙ ap (λ ys. part ++ take (c.file_remaining - n) ys) (sym (drop-drop c.file_offset n file))
      ∙ take-take-drop n c.file_remaining (drop c.file_offset file) h
      ∙ ap (λ xs. xs ++ take c.file_remaining (drop c.file_offset file)) (sym e);
  valid = i;
}
send_file-After c (write_error transient) i e h = error-After c transient i

finish_file-Conserves :
    (c : HttpConnection)
    → IsValid c.output_buffer
    → c.file_remaining ≡ 0
    → Conserves c [] (finish_file c).1
unfolding finish_file
finish_file-Conserves c i e =
    let r = finish_response-Conserves (record c { file_fd = none; writing = false }) i in
    record {
      sum =
          r.sum
          ∙ unfold pending in
            (ap (λ k. contents c.output_buffer ++ take k (drop c.file_offset [])) e
              ∙ sym (
                  ap
                    (λ k.
                      contents c.output_buffer
                      ++ take k (drop c.file_offset (file_bytes c.file_fd)))
                    e));
      valid = r.valid;
    }

file_step-After :
    (c : HttpConnection) (v : Wrote)
    → IsValid c.output_buffer
    → contents c.output_buffer ≡ []
    → IsPossible v c.file_remaining
    → After c (file_step c v)
unfolding file_step
file_step-After c v i e h =
    if-cases (After c) (c.file_remaining == 0) (λ z. finish_file-Conserves c i (ground arith))
      (λ _. send_file-After c v i e h)

empty-contents : {b : ByteBuffer} → IsValid b → readable_bytes b ≡ 0 → contents b ≡ []
empty-contents {b} v e = none_left (contents b) (length-contents v ∙ e)
  where
    none_left : (xs : Bytes) → length xs ≡ 0 → xs ≡ []
    none_left [] h = refl
    none_left (x ∷ xs) h = absurd (omega arith)

After-then :
    (c d : HttpConnection) (out : Bytes) (r : Bytes × (List Notice × HttpConnection))
    → Conserves c out d
    → After d r
    → After c (out ++ r.0, r.1)
After-then c d out r p q = record {
  sum = append_assoc out r.0 (pending r.1.1) ∙ ap (λ xs. out ++ xs) q.sum ∙ p.sum;
  valid = q.valid;
}

send_file_in_loop-After :
    (c : HttpConnection) (w v : Wrote)
    → IsValid c.output_buffer
    → IsPossible w (readable_bytes c.output_buffer)
    → IsPossible v c.file_remaining
    → After c (send_file_in_loop c w v)
unfolding send_file_in_loop write_buffer
send_file_in_loop-After c (wrote n) v i h k =
    if-cases (After c) (readable_bytes c.output_buffer == 0)
      (λ e. file_step-After c v i (empty-contents i (ground arith)) k)
      (λ _.
        let d = (write_buffer c (wrote n)).1.1 in
        let p : After c (write_buffer c (wrote n)) = write_buffer-After c (wrote n) i h in
        if-cases (After c) (ltb 0 (readable_bytes d.output_buffer)) (λ _. p)
          (λ e.
            After-then c d (write_buffer c (wrote n)).0 (file_step d v) p
              (file_step-After d v p.valid (empty-contents p.valid (ground arith)) k)))
send_file_in_loop-After c (write_error transient) v i h k =
    if-cases (After c) (readable_bytes c.output_buffer == 0)
      (λ e. file_step-After c v i (empty-contents i (ground arith)) k)
      (λ _. write_buffer-After c (write_error transient) i h)

-- A write event conserves: what went out and what is pending after it is what was pending before.
handle_write-Conserves :
    (c : HttpConnection) (w v : Wrote)
    → IsValid c.output_buffer
    → IsPossible w (readable_bytes c.output_buffer)
    → IsPossible v c.file_remaining
    → After c (handle_write c w v)
unfolding handle_write
handle_write-Conserves c w v i h k =
    elim c.state
      as (λ s. After c (elim s [
        | reading_headers ↦ send_in_loop c w
        | reading_body_stream ↦ send_in_loop c w
        | processing ↦ send_in_loop c w
        | writing_response ↦ send_in_loop c w
        | sending_file ↦ send_file_in_loop c w v
        | closed ↦ send_in_loop c w
      ])) [
        | reading_headers ↦ send_in_loop-After c w i h
        | reading_body_stream ↦ send_in_loop-After c w i h
        | processing ↦ send_in_loop-After c w i h
        | writing_response ↦ send_in_loop-After c w i h
        | sending_file ↦ send_file_in_loop-After c w v i h k
        | closed ↦ send_in_loop-After c w i h
      ]

-- Write events one after the other, each with what the system calls took, and all that went out.
pub data Writes : HttpConnection → Bytes → HttpConnection → Type 0 where
  finished : (c : HttpConnection) → Writes c [] c
  write :
      (c e : HttpConnection) (w v : Wrote) (rest : Bytes)
      → IsPossible w (readable_bytes c.output_buffer)
      → IsPossible v c.file_remaining
      → Writes (handle_write c w v).1.1 rest e
      → Writes c ((handle_write c w v).0 ++ rest) e

-- Over any sequence of write events on a valid output buffer, whatever part of what they are offered
-- the system calls take and even if they fail, the bytes that
-- went out followed by those still pending are the bytes that were pending at the start: the head
-- before the file, nothing twice and nothing left out.
pub Writes-pending :
    {c e : HttpConnection} {out : Bytes}
    → Writes c out e
    → IsValid c.output_buffer
    → out ++ pending e ≡ pending c
Writes-pending (finished c) i = refl
Writes-pending (write c e w v rest h k more) i =
    let r = handle_write-Conserves c w v i h k in
    append_assoc (handle_write c w v).0 rest (pending e)
    ∙ ap (λ xs. (handle_write c w v).0 ++ xs) (Writes-pending more r.valid)
    ∙ r.sum

-- `Send` of a file response on an open connection, with a valid output buffer that the head fits,
-- whose file can be opened, puts the head and then the asked part of the file
-- behind what is pending in the buffer.
pub send-pending :
    (json : Bytes → Bytes → Bytes → Bytes) (c : HttpConnection) (r : HttpResponse) (file : Bytes)
    → let text =
        to_text (record r { keep_alive = zls.Http.Request.is_keep_alive c.parser.request }) in
      IsValid c.output_buffer
      → Fits c.output_buffer (length text)
      → is_closed c.state ≡ false
      → has_file r ≡ true
      → pending (send json c r (opened file))
        ≡ contents c.output_buffer ++ (text ++ take (sent_length r) (drop r.file_offset file))
unfolding send start_file respond append_to_buffer pending
send-pending json c r file v f o h =
    let text =
      to_text (record r { keep_alive = zls.Http.Request.is_keep_alive c.parser.request }) in
    let part = take (sent_length r) (drop r.file_offset file) in
    rw (o, h)
      (ap (λ xs. xs ++ part) (contents-append text v f)
        ∙ append_assoc (contents c.output_buffer) text part)
