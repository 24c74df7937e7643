-- ===== src/Http/Parser.antt =====
-- src/net/http/http_parser.h and http_parser.cpp: the streaming request parser. `Parse` is a loop
-- over the parser's state; one round of it is `turn`, and the loop runs on fuel.
pub mod Stream
pub mod Progress
pub mod Loop
pub mod Segments
pub mod States
pub mod Lines
pub mod RoundTrip
use zls.Base.{
  ℕ, zero, suc, ◌+◌, ◌-◌, ◌*◌, ◌||◌, ◌&&◌, Bool, true, false, not, List, [], ◌∷◌, Option, none,
  some, if◌then◌else◌, ltb, leb, ◌==◌, length, take, drop, min,
}
use zls.Base.Bytes.{
  Bytes, codes, eq_bytes, is_empty, find_byte, lower, contains, from_chars, FromChars,
  invalid_argument, out_of_range, parsed,
}
use zls.Buffer.{ByteBuffer, find_crlf_in, readable_bytes, peek, retrieve_until}
use zls.Http.Request.{
  HttpMethod, HttpRequest, new_request, string_to_method, is_unknown, add_header, get_header,
}
use zls.Http.Request

pub data ParseState : Type 0 where
  request_line headers body done error : ParseState

pub data ParseResult : Type 0 where
  need_more_data headers_complete body_data message_complete error : ParseResult

pub record HttpParser : Type 0 where
  pub state : ParseState
  pub request : HttpRequest
  pub error_message : Bytes
  pub content_length : ℕ
  pub remaining_body_length : ℕ
  pub chunked : Bool
  pub current_chunk_size : ℕ
  pub reading_chunk_size : Bool

abbrev pub max_header_size : ℕ
max_header_size = 8 * 1024

abbrev pub max_request_line_size : ℕ
max_request_line_size = 4 * 1024

abbrev pub new_parser : HttpParser
new_parser = record {
  state = request_line;
  request = new_request;
  error_message = [];
  content_length = 0;
  remaining_body_length = 0;
  chunked = false;
  current_chunk_size = 0;
  reading_chunk_size = true;
}

unfoldable pub reset : HttpParser → HttpParser
reset p = record p {
  state = request_line;
  request = Request.reset p.request;
  error_message = [];
  content_length = 0;
  remaining_body_length = 0;
  chunked = false;
  current_chunk_size = 0;
  reading_chunk_size = true;
}

unfoldable pub has_body : HttpParser → Bool
has_body p = ltb 0 p.content_length || p.chunked

-- What the three line parsers return, and the parser that they leave.
abbrev pub refuse : HttpParser → Bytes → Bool × HttpParser
refuse p message = (false, record p { error_message = message })

unfoldable pub set_version : HttpParser → Bytes → Bool × HttpParser
set_version p version =
    if not (eq_bytes version (codes "HTTP/1.0")) && not (eq_bytes version (codes "HTTP/1.1"))
    then refuse p (codes "Unsupported HTTP version")
    else (true, record p { request = record (p.request) { version = version } })

-- The path, and the query if there is a '?'.
unfoldable pub set_uri : HttpParser → Bytes → HttpParser
set_uri p uri = elim (find_byte b'?' uri) [
  | none ↦ record p { request = record (p.request) { path = uri } }
  | some query_pos ↦ record p {
    request = record (p.request) { path = take query_pos uri; query = drop (query_pos + 1) uri };
  }
]

-- `rest` is what stands behind the first space.
unfoldable pub parse_target : HttpParser → Bytes → Bool × HttpParser
parse_target p rest = elim (find_byte b' ' rest) [
  | none ↦ refuse p (codes "Invalid request line: missing path")
  | some length ↦ set_version (set_uri p (take length rest)) (drop (length + 1) rest)
]

unfoldable pub parse_method : HttpParser → HttpMethod → Bytes → Bool × HttpParser
parse_method p method rest =
    let p' = record p { request = record (p.request) { method = method } } in
    if is_unknown method then refuse p' (codes "Unknown HTTP method") else parse_target p' rest

unfoldable pub parse_request_line : HttpParser → Bytes → Bool × HttpParser
parse_request_line p line = elim (find_byte b' ' line) [
  | none ↦ refuse p (codes "Invalid request line: missing method")
  | some space1 ↦ parse_method p (string_to_method (take space1 line)) (drop (space1 + 1) line)
]

abbrev pub is_blank : ℕ → Bool
is_blank c = c == b' ' || c == b'\t'

-- The two loops that strip blanks from a header's value.
unfoldable pub trim_left : Bytes → Bytes
trim_left [] = []
trim_left (c ∷ cs) = if is_blank c then trim_left cs else c ∷ cs

unfoldable pub trim_right : Bytes → Bytes
trim_right [] = []
trim_right (c ∷ cs) =
    let rest = trim_right cs in if is_blank c && is_empty rest then [] else c ∷ rest

unfoldable pub parse_header : HttpParser → Bytes → Bool × HttpParser
parse_header p line = elim (find_byte b':' line) [
  | none ↦ refuse p (codes "Invalid header: missing colon")
  | some colon ↦ (
    true,
    record p {
      request =
          add_header p.request (take colon line) (trim_right (trim_left (drop (colon + 1) line)));
    },
  )
]

-- `Content-Length` must be digits alone, and fit a `size_t`.
unfoldable pub set_content_length : HttpParser → Bytes → Bool × HttpParser
set_content_length p value = elim (from_chars value) [
  | invalid_argument ↦ refuse p (codes "Invalid Content-Length")
  | out_of_range _ ↦ refuse p (codes "Invalid Content-Length")
  | parsed n stop ↦
      if stop == length value
      then (true, record p { content_length = n; remaining_body_length = n })
      else refuse p (codes "Invalid Content-Length")
]

unfoldable pub check_content_length : HttpParser → Bool × HttpParser
check_content_length p =
    let header = get_header p.request (codes "content-length") in
    if is_empty header then (true, p) else set_content_length p header

unfoldable pub check_transfer_encoding : HttpParser → Bool × HttpParser
check_transfer_encoding p =
    let encoding = lower (get_header p.request (codes "transfer-encoding")) in
    if not (is_empty encoding) && contains (codes "chunked") encoding
    then if ltb 0 p.content_length
      then refuse p (codes "Conflicting Content-Length and Transfer-Encoding")
      else (true, record p { chunked = true })
    else (true, p)

abbrev pub and_then : Bool × HttpParser → (HttpParser → Bool × HttpParser) → Bool × HttpParser
and_then (true, p) f = f p
and_then (false, p) f = (false, p)

unfoldable pub finish_headers : HttpParser → Bool × HttpParser
finish_headers p =
    and_then
      (check_content_length
        (record p { content_length = 0; remaining_body_length = 0; chunked = false }))
      check_transfer_encoding

-- One round of the loop of `Parse`: the loop goes on, or `Parse` returns.
pub data Turn : Type 0 where
  again : HttpParser → ByteBuffer → Turn
  return : ParseResult → HttpParser → ByteBuffer → Turn

abbrev pub fail : HttpParser → HttpParser
fail p = record p { state = ParseState.error }

-- No line end yet: an error if too much was read, else more data is needed.
unfoldable pub wait_line : ℕ → Bytes → HttpParser → ByteBuffer → Turn
wait_line limit message p b =
    if ltb limit (readable_bytes b)
    then return ParseResult.error (fail (record p { error_message = message })) b
    else return need_more_data p b

unfoldable pub after_request_line : Bool × HttpParser → ByteBuffer → ℕ → Turn
after_request_line (false, p) b crlf = return ParseResult.error (fail p) b
after_request_line (true, p) b crlf =
    again (record p { state = headers }) (retrieve_until b (crlf + 2))

unfoldable pub after_header : Bool × HttpParser → ByteBuffer → ℕ → Turn
after_header (false, p) b crlf = return ParseResult.error (fail p) b
after_header (true, p) b crlf = again p (retrieve_until b (crlf + 2))

-- `b` is the buffer behind the empty line.
unfoldable pub after_headers : Bool × HttpParser → ByteBuffer → Turn
after_headers (false, p) b = return ParseResult.error (fail p) b
after_headers (true, p) b =
    if has_body p
    then return headers_complete (record p { state = body }) b
    else return message_complete (record p { state = done }) b

unfoldable pub header_line : HttpParser → ByteBuffer → ℕ → Turn
header_line p b crlf =
    let line = peek b crlf in
    if is_empty line
    then after_headers (finish_headers p) (retrieve_until b (crlf + 2))
    else after_header (parse_header p line) b crlf

-- The bytes of the body stay in the buffer.
unfoldable pub read_body : HttpParser → ByteBuffer → Turn
read_body p b =
    if p.chunked
    then return ParseResult.error
        (fail (record p { error_message = codes "Chunked encoding not supported yet" })) b
    else if readable_bytes b == 0
    then return need_more_data p b
    else let left = p.remaining_body_length - min (readable_bytes b) p.remaining_body_length in
      if left == 0
      then return message_complete (record p { remaining_body_length = left; state = done }) b
      else return body_data (record p { remaining_body_length = left }) b

unfoldable pub turn_in : ParseState → HttpParser → ByteBuffer → Turn
turn_in request_line p b = elim (find_crlf_in b) [
  | none ↦ wait_line max_request_line_size (codes "Request line too long") p b
  | some crlf ↦ after_request_line (parse_request_line p (peek b crlf)) b crlf
]
turn_in headers p b = elim (find_crlf_in b) [
  | none ↦ wait_line max_header_size (codes "Headers too large") p b
  | some crlf ↦ header_line p b crlf
]
turn_in body p b = read_body p b
turn_in done p b = return message_complete p b
turn_in ParseState.error p b = return ParseResult.error p b

abbrev pub turn : HttpParser → ByteBuffer → Turn
turn p b = turn_in p.state p b

-- `none` means that the fuel ran out.
unfoldable pub parse_loop :
    ℕ → HttpParser → ByteBuffer → Option (ParseResult × HttpParser × ByteBuffer)
parse_loop zero p b = none
parse_loop (suc fuel) p b = elim (turn p b) [
  | again p' b' ↦ parse_loop fuel p' b'
  | return result p' b' ↦ some (result, p', b')
]

-- Each round that goes on takes at least two bytes.
unfoldable pub parse : HttpParser → ByteBuffer → Option (ParseResult × HttpParser × ByteBuffer)
parse p b = parse_loop (suc (readable_bytes b)) p b

-- `ConsumeBody`, and whether the body is complete.
unfoldable pub consume_body : HttpParser → ℕ → Bool × HttpParser
consume_body p len =
    if leb p.remaining_body_length len
    then (true, record p { remaining_body_length = 0; state = done })
    else (false, record p { remaining_body_length = p.remaining_body_length - len })
