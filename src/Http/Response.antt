-- ===== src/Http/Response.antt =====
-- src/net/http/http_response.h and http_response.cpp: the response and how it is written out. The
-- headers are written in the order in which the map yields them, which is the list's order here. The
-- JSON text of an error comes from a library and is a parameter of `error_response`.
pub mod Framing
use zls.Base.{
  ℕ, zero, suc, ◌+◌, ◌/◌, ◌%◌, Bool, true, false, not, ◌&&◌, List, [], ◌∷◌, ◌++◌, Option, none,
  some, if◌then◌else◌, ltb, ◌==◌, length,
}
use zls.Base.Bytes.{Bytes, codes, cr, lf, is_empty}
use zls.Base.Dict.{lookup, insert}
use zls.Buffer.{ByteBuffer, append}

-- `std::to_string`: the decimal digits of a number; as many rounds as the number are enough.
unfoldable pub to_digits : ℕ → ℕ → Bytes
to_digits zero n = []
to_digits (suc fuel) n =
    let front = to_digits fuel (n / 10) in
    if ltb n 10 then (48 + n) ∷ [] else front ++ ((48 + n % 10) ∷ [])

unfoldable pub to_string : ℕ → Bytes
to_string n = to_digits (suc n) n

pub record HttpResponse : Type 0 where
  pub status_code : ℕ
  pub status_message : Bytes
  pub headers : List (Bytes × Bytes)
  pub body : Bytes
  pub file_path : Bytes
  pub file_size : ℕ
  pub file_offset : ℕ
  pub file_length : ℕ
  pub keep_alive : Bool

-- A response as it is constructed.
abbrev pub new_response : HttpResponse
new_response = record {
  status_code = 200;
  status_message = codes "OK";
  headers = [];
  body = [];
  file_path = [];
  file_size = 0;
  file_offset = 0;
  file_length = 0;
  keep_alive = true;
}

unfoldable pub reset : HttpResponse → HttpResponse
reset r = record {
  status_code = 200;
  status_message = codes "OK";
  headers = [];
  body = [];
  file_path = [];
  file_size = 0;
  file_offset = 0;
  file_length = 0;
  keep_alive = true;
}

unfoldable pub set_header : HttpResponse → Bytes → Bytes → HttpResponse
set_header r key value = record r { headers = insert key value r.headers }

unfoldable pub joined : Option Bytes → Bytes → Bytes
joined none value = value
joined (some old) value = old ++ (codes ", " ++ value)

unfoldable pub add_header : HttpResponse → Bytes → Bytes → HttpResponse
add_header r key value = record r {
  headers = insert key (joined (lookup key r.headers) value) r.headers;
}

unfoldable pub set_json_body : HttpResponse → Bytes → HttpResponse
set_json_body r json =
    set_header (record r { body = json }) (codes "Content-Type")
      (codes "application/json; charset=utf-8")

unfoldable pub set_file : HttpResponse → Bytes → ℕ → ℕ → ℕ → HttpResponse
set_file r path size offset len = record r {
  file_path = path;
  file_size = size;
  file_offset = offset;
  file_length = if ltb 0 len then len else size;
}

unfoldable pub set_file_range : HttpResponse → ℕ → ℕ → HttpResponse
set_file_range r offset len = record r { file_offset = offset; file_length = len }

unfoldable pub has_file : HttpResponse → Bool
has_file r = not (is_empty r.file_path)

-- `FileLength()`.
unfoldable pub sent_length : HttpResponse → ℕ
sent_length r = if ltb 0 r.file_length then r.file_length else r.file_size

abbrev line_end : Bytes
line_end = cr ∷ lf ∷ []

unfoldable pub write_headers : List (Bytes × Bytes) → Bytes
write_headers [] = []
write_headers ((key, value) ∷ hs) = key ++ (codes ": " ++ (value ++ (line_end ++ write_headers hs)))

unfoldable pub is_set : Bytes → List (Bytes × Bytes) → Bool
is_set key hs = elim (lookup key hs) [ none ↦ false | some _ ↦ true ]

-- The text that `AppendToBuffer` puts together.
unfoldable pub to_text : HttpResponse → Bytes
to_text r =
    codes "HTTP/1.1 "
    ++ (to_string r.status_code
        ++ (codes " "
            ++ (r.status_message
                ++ (line_end
                    ++ (write_headers r.headers
                        ++ ((if not (is_empty r.body)
                                && not (is_set (codes "Content-Length") r.headers)
                              then codes "Content-Length: "
                                ++ (to_string (length r.body) ++ line_end)
                              else [])
                            ++ ((if not (is_set (codes "Connection") r.headers)
                                  then codes "Connection: "
                                    ++ ((if r.keep_alive then codes "keep-alive" else codes "close")
                                        ++ line_end)
                                  else [])
                                ++ (line_end
                                    ++ (if not (has_file r) && not (is_empty r.body)
                                        then r.body
                                        else [])))))))))

unfoldable pub append_to_buffer : HttpResponse → ByteBuffer → ByteBuffer
append_to_buffer r b = append b (to_text r)

unfoldable pub get_status_message : ℕ → Bytes
get_status_message code =
    if code == 200
    then codes "OK"
    else if code == 201
    then codes "Created"
    else if code == 204
    then codes "No Content"
    else if code == 206
    then codes "Partial Content"
    else if code == 301
    then codes "Moved Permanently"
    else if code == 302
    then codes "Found"
    else if code == 304
    then codes "Not Modified"
    else if code == 400
    then codes "Bad Request"
    else if code == 401
    then codes "Unauthorized"
    else if code == 403
    then codes "Forbidden"
    else if code == 404
    then codes "Not Found"
    else if code == 405
    then codes "Method Not Allowed"
    else if code == 409
    then codes "Conflict"
    else if code == 413
    then codes "Payload Too Large"
    else if code == 416
    then codes "Range Not Satisfiable"
    else if code == 500
    then codes "Internal Server Error"
    else if code == 503
    then codes "Service Unavailable"
    else codes "Unknown"

-- `Error`, with the JSON text for a code, a message and a trace id.
unfoldable pub error_response :
    (Bytes → Bytes → Bytes → Bytes) → ℕ → Bytes → Bytes → Bytes → HttpResponse
error_response json status code message trace_id =
    set_json_body
      (record new_response { status_code = status; status_message = get_status_message status })
      (json code message trace_id)

unfoldable pub range_not_satisfiable : ℕ → HttpResponse
range_not_satisfiable size =
    set_header
      (record new_response { status_code = 416; status_message = codes "Range Not Satisfiable" })
      (codes "Content-Range") (codes "bytes */" ++ to_string size)
