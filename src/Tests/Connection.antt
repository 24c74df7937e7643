-- ===== src/Tests/Connection.antt =====
-- Runs of a connection and of the text of a response.
use zls.Base.{
  ◌≡◌, refl, ℕ, ◌+◌, ◌^◌, ◌<◌, List, [], ◌∷◌, ◌++◌, Option, none, some, Bool, true, false, length,
  replicate, take, drop, arith,
}
use zls.Base.Bytes.{Bytes, codes, cr, lf, is_empty, from_chars, parsed, eq_bytes}
use zls.Base.Dict.{lookup}
use zls.Buffer.{ByteBuffer, received, readable_bytes}
use zls.Buffer.Invariant.{IsValid, Fits}
use zls.Buffer.Contents.{contents}
use zls.Buffer.Slices.{slice}
use zls.Http.Request.{HttpRequest}
use zls.Http.Parser.{new_parser}
use zls.Http.Parser.RoundTrip.{print_fields}
use zls.Http.Response.{
  HttpResponse, new_response, to_text, to_string, has_file, sent_length, get_status_message,
  error_response, set_json_body, set_header,
}
use zls.Http.Response.Framing.{to_text-framing, status_line, fields}
use zls.Http.Connection.{
  HttpConnection, create_connection, reading_body_stream, sending_file, Notice, handle_read,
  process_input, stream_body, wrote, handle_write, send, opened,
}
use zls.Http.Connection.Body.{
  Reads, finished, read, bodies, joined, Reads-joined, HandsOn, handle_read-HandsOn,
}
use zls.Http.Connection.Writing.{pending, Writes, write, Writes-pending, send-pending}
use zls.Http.Connection.Writing

abbrev hello : HttpResponse
hello = record new_response { body = codes "hello" }

to_text-framing_example :
    (to_text hello ≡ status_line hello ++ (cr ∷ lf ∷ print_fields (fields hello) (codes "hello")))
    × (lookup (codes "Content-Length") (fields hello) ≡ some (to_string 5))
    × (from_chars (to_string 5) ≡ parsed 5 (length (to_string 5)))
unfolding has_file is_empty lookup
to_text-framing_example = to_text-framing hello refl refl refl (omega arith)

abbrev json : Bytes → Bytes → Bytes → Bytes
json code message trace = code ++ message ++ trace

abbrev on_body : Bytes → HttpRequest → HttpRequest
on_body bytes r = record r { body = r.body ++ bytes }

abbrev holding : Bytes → ByteBuffer
holding bytes = record {
  buffer = replicate 8 0 ++ bytes;
  reader_index = 8;
  writer_index = 8 + length bytes;
}

-- A connection that lacks five bytes of a body.
abbrev uploading : HttpConnection
uploading = record (create_connection (codes "peer") 100) {
  state = reading_body_stream;
  parser = record new_parser { remaining_body_length = 5 };
  input_buffer = holding [];
}

uploading-IsValid : IsValid uploading.input_buffer
uploading-IsValid = record {
  ordered = omega arith;
  in_range = omega arith;
  has_front = omega arith;
  small = omega arith;
}

handle_read-HandsOn_example :
    (ns : List Notice) × (d : HttpConnection) × (handle_read json on_body uploading
        (received (codes "abcdefg"))
        false
      ≡ some (ns, d))
    × HandsOn uploading (contents uploading.input_buffer ++ codes "abcdefg") ns d
handle_read-HandsOn_example =
    handle_read-HandsOn json on_body uploading (codes "abcdefg") refl uploading-IsValid
      (omega arith) (λ e. absurd (cc e))

-- A connection that sends a head of two bytes and three bytes of a file.
abbrev downloading : HttpConnection
downloading = record (create_connection (codes "peer") 100) {
  state = sending_file;
  output_buffer = holding (codes "ok");
  file_fd = some (codes "012345");
  file_offset = 1;
  file_remaining = 3;
}

downloading-IsValid : IsValid downloading.output_buffer
downloading-IsValid = record {
  ordered = omega arith;
  in_range = omega arith;
  has_front = omega arith;
  small = omega arith;
}

pending_bytes : pending downloading ≡ codes "ok123"
unfolding pending contents slice
pending_bytes = refl

abbrev first_read : List Notice × HttpConnection
first_read = stream_body json on_body (record uploading {
  input_buffer = zls.Buffer.read_fd uploading.input_buffer (received (codes "abc"));
})

two-Reads : Reads json on_body uploading (codes "abc" ∷ []) (first_read.0 ++ []) first_read.1
unfolding handle_read process_input
two-Reads =
    read uploading first_read.1 first_read.1 (codes "abc") [] first_read.0 [] (omega arith)
      (λ e. absurd (cc e)) refl (finished first_read.1)

Reads-joined_example :
    (bodies (first_read.0 ++ [])
      ≡ take 5 (contents uploading.input_buffer ++ joined (codes "abc" ∷ [])))
    × (contents first_read.1.input_buffer
        ≡ drop 5 (contents uploading.input_buffer ++ joined (codes "abc" ∷ [])))
unfolding contents slice
Reads-joined_example = Reads-joined json on_body two-Reads refl uploading-IsValid refl

one-Writes :
    Writes downloading
      ((handle_write downloading (wrote 2) (wrote 1)).0 ++ [])
      (handle_write downloading (wrote 2) (wrote 1)).1.1
unfolding readable_bytes
one-Writes =
    write downloading (handle_write downloading (wrote 2) (wrote 1)).1.1 (wrote 2) (wrote 1) []
      (omega arith) (omega arith)
      (zls.Http.Connection.Writing.finished (handle_write downloading (wrote 2) (wrote 1)).1.1)

Writes-pending_example :
    ((handle_write downloading (wrote 2) (wrote 1)).0 ++ [])
      ++ pending (handle_write downloading (wrote 2) (wrote 1)).1.1
    ≡ pending downloading
Writes-pending_example = Writes-pending one-Writes downloading-IsValid

abbrev download : HttpResponse
download = record new_response {
  file_path = codes "/f";
  file_size = 6;
  file_offset = 1;
  file_length = 3;
}

download-Fits : Fits downloading.output_buffer (
    length (
      to_text (record download {
        keep_alive = zls.Http.Request.is_keep_alive downloading.parser.request;
      })))
unfolding to_text zls.Http.Response.to_digits to_string zls.Http.Response.write_headers
    zls.Http.Response.is_set zls.Http.Request.is_keep_alive zls.Http.Request.get_header lookup
    eq_bytes is_empty has_file create_connection zls.Base.Bytes.lower zls.Base.Bytes.to_lower
download-Fits = omega arith

send-pending_example :
    pending (send json downloading download (opened (codes "012345")))
    ≡ contents downloading.output_buffer
      ++ (to_text (record download {
        keep_alive = zls.Http.Request.is_keep_alive downloading.parser.request;
      })
          ++ take (sent_length download) (codes "12345"))
unfolding has_file is_empty zls.Http.Connection.is_closed
send-pending_example =
    send-pending json downloading download (codes "012345") downloading-IsValid download-Fits refl
      refl
