-- ===== src/Http/Parser/RoundTrip.antt =====
-- A whole request head, printed and parsed back.
use zls.Buffer.Invariant.{IsValid}
use zls.Buffer.Contents.{contents}
use zls.Buffer.{ByteBuffer}
use zls.Http.Parser.Segments.{parsed_view, parse-stream}
use zls.Base.{◌+◌, length, drop, List, [], ◌∷◌, ◌++◌, ◌≡◌, refl, ap, ◌∙◌, take-append_length}
use native.Mathlib.Nat.{suc-add}
use zls.Base.Bytes.{Bytes, cr, lf, is_empty}
use zls.Buffer.Search.{Lacks, find_crlf_line}
use zls.Http.Request.{HttpRequest, add_header}
use zls.Http.Parser.Stream.{
  more, take_request_line, take_header, take_blank, take_header_line, next_in, stream,
}
use zls.Http.Parser.Progress.{after, stream_round}
use zls.Http.Parser.Lines.{
  Target, IsPrintable, print_line, told, parse_request_line-print_line, IsField, print_header,
  parse_header-print_header, is_empty-print_header,
}
use zls.Http.Parser.{HttpParser, request_line, headers, finish_headers, parse}

abbrev crlf : Bytes → Bytes
crlf rest = cr ∷ lf ∷ rest

-- The head of a request, with `rest` behind it.
unfoldable pub print_fields : List (Bytes × Bytes) → Bytes → Bytes
print_fields [] rest = crlf rest
print_fields (f ∷ fs) rest = print_header f ++ crlf (print_fields fs rest)

unfoldable pub print_head : Target → List (Bytes × Bytes) → Bytes → Bytes
print_head t fs rest = print_line t ++ crlf (print_fields fs rest)

abbrev pub AreFields : List (Bytes × Bytes) → Type 0
AreFields [] = Unit {0}
AreFields (f ∷ fs) = IsField f × Lacks cr (print_header f) × AreFields fs

-- The headers stored in order; a later one replaces an earlier one of the same name.
unfoldable pub add_fields : List (Bytes × Bytes) → HttpRequest → HttpRequest
add_fields [] r = r
add_fields ((key, value) ∷ fs) r = add_fields fs (add_header r key value)

drop_line : (line rest : Bytes) → drop (length line + 2) (line ++ crlf rest) ≡ rest
drop_line [] rest = refl
drop_line (x ∷ line) rest = rw suc-add (drop_line line rest)

-- A round on a line that holds no '\r'.
header_round :
    (p : HttpParser) (line rest : Bytes)
    → p.state ≡ headers
    → Lacks cr line
    → stream p (line ++ crlf rest) ≡ after (take_header_line p line rest (line ++ crlf rest))
unfolding next_in
header_round p line rest s h =
    stream_round p (line ++ crlf rest)
    ∙ ap after (
        rw (s, find_crlf_line line rest h, next_in)
          (rw (take-append_length line (crlf rest), drop_line line rest)))

take_field :
    (p : HttpParser) (f : Bytes × Bytes) (rest xs : Bytes)
    → IsField f
    → take_header_line p (print_header f) rest xs
      ≡ more (record p { request = add_header p.request f.0 f.1 }) rest
unfolding take_header_line take_header
take_field p f rest xs h = rw (is_empty-print_header f, parse_header-print_header p f h)

stream_fields :
    (fs : List (Bytes × Bytes)) (p : HttpParser) (rest : Bytes)
    → p.state ≡ headers
    → AreFields fs
    → stream p (print_fields fs rest)
      ≡ after (take_blank (finish_headers (record p { request = add_fields fs p.request })) rest)
unfolding print_fields add_fields
stream_fields [] p rest s h =
    header_round p [] rest s tt ∙ (unfold take_header_line is_empty in refl)
stream_fields (f ∷ fs) p rest s h =
    header_round p (print_header f) (print_fields fs rest) s h.1
    ∙ ap after (take_field p f (print_fields fs rest) _ h.0)
    ∙ stream_fields fs (record p { request = add_header p.request f.0 f.1 }) rest s h.2

line_round :
    (p : HttpParser) (t : Target) (rest : Bytes)
    → p.state ≡ request_line
    → IsPrintable t
    → Lacks cr (print_line t)
    → stream p (print_line t ++ crlf rest)
      ≡ stream (record p { state = headers; request = told t p.request }) rest
unfolding next_in take_request_line
line_round p t rest s h k =
    stream_round p (print_line t ++ crlf rest)
    ∙ ap after {y = more (record p { state = headers; request = told t p.request }) rest} (
        rw (s, find_crlf_line (print_line t) rest k, next_in)
          (rw (
            take-append_length (print_line t) (crlf rest),
            drop_line (print_line t) rest,
            parse_request_line-print_line (record p { state = request_line }) t h,
          )))

pub stream-print_head :
    (p : HttpParser) (t : Target) (fs : List (Bytes × Bytes)) (rest : Bytes)
    → p.state ≡ request_line
    → IsPrintable t
    → Lacks cr (print_line t)
    → AreFields fs
    → stream p (print_head t fs rest)
      ≡ after (
          take_blank
            (finish_headers
              (record p { state = headers; request = add_fields fs (told t p.request) }))
            rest)
unfolding print_head
stream-print_head p t fs rest s h k a =
    line_round p t (print_fields fs rest) s h k
    ∙ stream_fields fs (record p { state = headers; request = told t p.request }) rest refl a

-- `Parse` reads a printed head back: on a valid buffer that holds a head as printed, with a request line
-- and headers that can be read back and hold no carriage return, and then `rest`, the
-- target and the headers go into the request as printed, the result is settled by `FinishHeaders`
-- alone, and exactly `rest` is left in the buffer.
pub parse-print_head :
    (p : HttpParser) (t : Target) (fs : List (Bytes × Bytes)) (rest : Bytes) {b : ByteBuffer}
    → IsValid b
    → contents b ≡ print_head t fs rest
    → p.state ≡ request_line
    → IsPrintable t
    → Lacks cr (print_line t)
    → AreFields fs
    → parsed_view (parse p b)
      ≡ after (
          take_blank
            (finish_headers
              (record p { state = headers; request = add_fields fs (told t p.request) }))
            rest)
parse-print_head p t fs rest v e s h k a =
    parse-stream p v ∙ ap (stream p) e ∙ stream-print_head p t fs rest s h k a
