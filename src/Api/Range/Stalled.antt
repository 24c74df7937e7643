-- ===== src/Api/Range/Stalled.antt =====
-- What becomes of a connection whose file part starts where the file ends, as it does for a Range
-- header that asks for the last 0 bytes.
use zls.Base.{
  ℕ, ◌^◌, ◌≤◌, ◌<◌, ◌≡◌, refl, sym, subst, ◌∙◌, ap, ap₂, List, true, false, some, length, drop, ltb,
  zero, add_size, sub_size, arith, length-drop, ◌==◌,
}
use zls.Base.Bytes.{Bytes, decimal, is_empty}
use zls.Buffer.{readable_bytes}
use zls.Http.Connection.{
  HttpConnection, reading_headers, reading_body_stream, processing, writing_response, sending_file,
  closed, Notice, send_in_loop, Wrote, wrote, write_error, file_bytes, send_file, file_step,
  send_file_in_loop, handle_write,
}
use zls.Api.Range.{sends, set_file, answer_range, answer, range_of_match, suffix_range}
use zls.Api.Range.Meaning.{
  suffix, print_spec, parse_range-print_spec, is_empty_ne, stoull_lem, IsNumber,
}
use zls.Api.Range.Reply.{is_empty-print_spec}

answer-zero_suffix :
    (n : Bytes) (size : ℕ)
    → IsNumber n
    → decimal 0 n ≡ 0
    → 0 < size
    → size < 2 ^ 64
    → answer (print_spec (suffix n)) size
      ≡ sends
          (record { partial = true; content_length = 0; file_offset = size; file_length = size })
unfolding answer range_of_match is_empty suffix_range answer_range set_file
answer-zero_suffix n size v z h k =
    let e : ltb size zero ≡ false = ground arith in
    let f : sub_size size zero ≡ size = omega arith in
    let g : add_size (sub_size (sub_size size 1) size) 1 ≡ zero = omega arith in
    let l : ltb 0 size ≡ true = ground arith in
    rw
      (
        is_empty-print_spec (suffix n),
        parse_range-print_spec (suffix n) size tt v.0 h,
        is_empty_ne n v.1,
        stoull_lem n v.2,
        z,
        e,
        f,
        g,
        l,
      )
      refl

-- `sendfile` sends no more than the file has behind the offset, and does not fail for good.
abbrev pub IsRead : Wrote → ℕ → Type 0
IsRead (wrote n) left = n ≤ left
IsRead (write_error true) left = Unit {0}
IsRead (write_error false) left = ⊥

-- Write events one after the other.
pub data Events : HttpConnection → HttpConnection → Type 0 where
  finished : (c : HttpConnection) → Events c c
  write :
      (c e : HttpConnection) (w v : Wrote)
      → IsRead v (length (drop c.file_offset (file_bytes c.file_fd)))
      → Events (handle_write c w v).1.1 e
      → Events c e

-- The head has gone out, and all of the file's length is to go out from the end of the file on.
pub record IsAtEnd (file : Bytes) (c : HttpConnection) : Type 0 where
  pub state_is : c.state ≡ sending_file
  pub head_is_out : readable_bytes c.output_buffer ≡ 0
  pub file_is : c.file_fd ≡ some file
  pub offset_is : c.file_offset ≡ length file
  pub remaining_is : c.file_remaining ≡ length file

module _ (file : Bytes) (some_bytes : 0 < length file) where
  nothing_left :
      (c : HttpConnection) → IsAtEnd file c → length (drop c.file_offset (file_bytes c.file_fd)) ≡ 0
  nothing_left c h = rw (h.file_is, h.offset_is) (omega (arith, length-drop (length file) file))

  read-IsAtEnd :
      (c : HttpConnection) (w v : Wrote)
      → IsAtEnd file c
      → IsRead v 0
      → (send_file_in_loop c w v).1.1 ≡ c
  unfolding send_file_in_loop file_step send_file
  read-IsAtEnd c w (wrote n) h r =
      let none_read : n ≡ 0 = omega (arith, r) in
      let more : (c.file_remaining == 0) ≡ false = ground (arith, h.remaining_is) in
      rw (h.head_is_out, more, none_read)
        (ap₂ (λ x y. record c { file_offset = x; file_remaining = y }) (omega arith) (omega arith))
  read-IsAtEnd c w (write_error true) h r =
      let more : (c.file_remaining == 0) ≡ false = ground (arith, h.remaining_is) in
      rw (h.head_is_out, more) refl
  read-IsAtEnd c w (write_error false) h r = absurd r

  write-IsAtEnd :
      (c : HttpConnection) (w v : Wrote)
      → IsAtEnd file c
      → IsRead v (length (drop c.file_offset (file_bytes c.file_fd)))
      → (handle_write c w v).1.1 ≡ c
  unfolding handle_write
  write-IsAtEnd c w v h r =
      ap
        (λ state.
          (elim state as (λ _. Bytes × (List Notice × HttpConnection)) [
            | reading_headers ↦ send_in_loop c w
            | reading_body_stream ↦ send_in_loop c w
            | processing ↦ send_in_loop c w
            | writing_response ↦ send_in_loop c w
            | sending_file ↦ send_file_in_loop c w v
            | closed ↦ send_in_loop c w
          ]).1.1)
        h.state_is
      ∙ read-IsAtEnd c w v h (subst (IsRead v) (nothing_left c h) r)

  Events-IsAtEnd : {c e : HttpConnection} → Events c e → IsAtEnd file c → e ≡ c
  Events-IsAtEnd (finished c) h = refl
  Events-IsAtEnd (write c e w v r more) h =
      let same = write-IsAtEnd c w v h r in
      Events-IsAtEnd more (subst (IsAtEnd file) (sym same) h) ∙ same

-- For a header "bytes=-0", with any number of zeros, and a file that is not empty and smaller
-- than 2^64 bytes, `GetObject`
-- announces a length of 0 and asks for as many bytes as the file has, from its end on, where there
-- are none; and a connection that has sent the head of this answer stays as it is over any sequence
-- of write events in which `sendfile` sends no more than there is and does not fail for good, so it
-- never finishes the response.
pub zero_suffix-Stalls :
    (n file : Bytes) {c e : HttpConnection}
    → IsNumber n
    → decimal 0 n ≡ 0
    → 0 < length file
    → length file < 2 ^ 64
    → IsAtEnd file c
    → Events c e
    → (answer (print_spec (suffix n)) (length file)
        ≡ sends (record {
          partial = true;
          content_length = 0;
          file_offset = length file;
          file_length = length file;
        }))
      × (e ≡ c)
zero_suffix-Stalls n file v z h k at_end events =
    (answer-zero_suffix n (length file) v z h k, Events-IsAtEnd file h events at_end)
