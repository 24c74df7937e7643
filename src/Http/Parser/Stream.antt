-- ===== src/Http/Parser/Stream.antt =====
-- The parser over a plain sequence of bytes: what `Parse` does, with no buffer in sight. A state
-- that wants a line takes the bytes up to "\r\n"; the body is left to the caller.
use zls.Base.{
  ℕ, zero, suc, ◌+◌, ◌-◌, Bool, true, false, Option, none, some, if◌then◌else◌, ltb, ◌==◌, length,
  take, drop, min,
}
use zls.Base.Bytes.{Bytes, codes, is_empty, find_crlf}
use zls.Http.Parser.{
  HttpParser, ParseState, request_line, headers, body, done, ParseResult, need_more_data,
  headers_complete, body_data, message_complete, has_body, parse_request_line, parse_header,
  finish_headers, fail, max_request_line_size, max_header_size,
}

-- One round: the loop goes on behind these bytes, or returns and leaves these.
pub data Next : Type 0 where
  more : HttpParser → Bytes → Next
  stop : ParseResult → HttpParser → Bytes → Next

abbrev pub reject : HttpParser → Bytes → Next
reject p xs = stop ParseResult.error (fail p) xs

unfoldable pub starve : ℕ → Bytes → HttpParser → Bytes → Next
starve limit message p xs =
    if ltb limit (length xs)
    then reject (record p { error_message = message }) xs
    else stop need_more_data p xs

-- A line that was read; `rest` stands behind its "\r\n", and `xs` is line and rest.
unfoldable pub take_request_line : Bool × HttpParser → Bytes → Bytes → Next
take_request_line (false, p) rest xs = reject p xs
take_request_line (true, p) rest xs = more (record p { state = headers }) rest

unfoldable pub take_header : Bool × HttpParser → Bytes → Bytes → Next
take_header (false, p) rest xs = reject p xs
take_header (true, p) rest xs = more p rest

unfoldable pub take_blank : Bool × HttpParser → Bytes → Next
take_blank (false, p) rest = reject p rest
take_blank (true, p) rest =
    if has_body p
    then stop headers_complete (record p { state = body }) rest
    else stop message_complete (record p { state = done }) rest

unfoldable pub take_header_line : HttpParser → Bytes → Bytes → Bytes → Next
take_header_line p line rest xs =
    if is_empty line
    then take_blank (finish_headers p) rest
    else take_header (parse_header p line) rest xs

unfoldable pub take_body : HttpParser → Bytes → Next
take_body p xs =
    if p.chunked
    then reject (record p { error_message = codes "Chunked encoding not supported yet" }) xs
    else if length xs == 0
    then stop need_more_data p xs
    else let left = p.remaining_body_length - min (length xs) p.remaining_body_length in
      if left == 0
      then stop message_complete (record p { remaining_body_length = left; state = done }) xs
      else stop body_data (record p { remaining_body_length = left }) xs

unfoldable pub next_in : ParseState → HttpParser → Bytes → Next
next_in request_line p xs = elim (find_crlf xs) [
  | none ↦ starve max_request_line_size (codes "Request line too long") p xs
  | some i ↦ take_request_line (parse_request_line p (take i xs)) (drop (i + 2) xs) xs
]
next_in headers p xs = elim (find_crlf xs) [
  | none ↦ starve max_header_size (codes "Headers too large") p xs
  | some i ↦ take_header_line p (take i xs) (drop (i + 2) xs) xs
]
next_in body p xs = take_body p xs
next_in done p xs = stop message_complete p xs
next_in ParseState.error p xs = stop ParseResult.error p xs

abbrev pub next : HttpParser → Bytes → Next
next p xs = next_in p.state p xs

unfoldable pub stream_loop : ℕ → HttpParser → Bytes → Option (ParseResult × HttpParser × Bytes)
stream_loop zero p xs = none
stream_loop (suc fuel) p xs = elim (next p xs) [
  | more p' rest ↦ stream_loop fuel p' rest
  | stop result p' rest ↦ some (result, p', rest)
]

unfoldable pub stream : HttpParser → Bytes → Option (ParseResult × HttpParser × Bytes)
stream p xs = stream_loop (suc (length xs)) p xs
