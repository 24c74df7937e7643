-- ===== src/Http/Connection.antt =====
-- src/net/http/http_connection.h and http_connection.cpp: one connection, driven by the events of its
-- socket on the thread of its event loop. What system calls return are arguments: `readv`, `write`,
-- `sendfile`, `open`. What the server's callbacks are told is the list of `Notice`s; what
-- `body_data_callback_` does to the request is the parameter `on_body`, and the JSON text of an error
-- is the parameter `json`. The idle timer is a flag.
pub mod Body
pub mod Writing
use zls.Base.{
  ℕ, zero, suc, ◌+◌, ◌-◌, Bool, true, false, not, ◌||◌, List, [], ◌∷◌, ◌++◌, Option, none, some,
  if◌then◌else◌, ltb, leb, ◌==◌, length, take, drop, min,
}
use zls.Base.Bytes.{Bytes, codes}
use zls.Buffer.{
  ByteBuffer, Readv, read_error, received, readable_bytes, peek, retrieve, retrieve_all, read_fd,
  write_fd, create, initial_size,
}
use zls.Http.Request.{HttpRequest, is_keep_alive, add_header}
use zls.Http.Parser.{
  HttpParser, ParseResult, need_more_data, headers_complete, body_data, message_complete,
  new_parser, parse, has_body, consume_body,
}
use zls.Http.Parser
use zls.Http.Response.{HttpResponse, append_to_buffer, has_file, sent_length, error_response}

pub data ConnectionState : Type 0 where
  reading_headers reading_body_stream processing writing_response sending_file closed :
      ConnectionState

pub record HttpConnection : Type 0 where
  pub state : ConnectionState
  pub peer_addr : Bytes
  pub parser : HttpParser
  pub input_buffer : ByteBuffer
  pub output_buffer : ByteBuffer
  pub file_fd : Option Bytes
  pub file_offset : ℕ
  pub file_remaining : ℕ
  pub has_idle_timer : Bool
  pub max_body_bytes : ℕ
  pub reading : Bool
  pub writing : Bool

-- A connection that `Start` has registered.
unfoldable pub create_connection : Bytes → ℕ → HttpConnection
create_connection peer max_body = record {
  state = reading_headers;
  peer_addr = peer;
  parser = new_parser;
  input_buffer = create initial_size;
  output_buffer = create initial_size;
  file_fd = none;
  file_offset = 0;
  file_remaining = 0;
  has_idle_timer = true;
  max_body_bytes = max_body;
  reading = true;
  writing = false;
}

-- What the callbacks are told: a piece of a body, a request, the end.
pub data Notice : Type 0 where
  body_bytes : Bytes → Notice
  request : HttpRequest → Notice
  closing : Notice

unfoldable pub is_closed : ConnectionState → Bool
is_closed closed = true
is_closed reading_headers = false
is_closed reading_body_stream = false
is_closed processing = false
is_closed writing_response = false
is_closed sending_file = false

unfoldable pub handle_close : HttpConnection → List Notice × HttpConnection
handle_close c = if is_closed c.state then ([], c) else (
  closing ∷ [],
  record c { state = closed; has_idle_timer = false; reading = false; writing = false },
)

-- `HandleError` logs the socket's error and closes.
unfoldable pub handle_error : HttpConnection → List Notice × HttpConnection
handle_error c = handle_close c

-- What `open` did: the file's bytes, or an error, with whether it is ENOENT.
pub data Opened : Type 0 where
  opened : Bytes → Opened
  not_opened : Bool → Opened

unfoldable pub respond : HttpConnection → HttpResponse → HttpConnection
respond c r = record c {
  output_buffer =
      append_to_buffer (record r { keep_alive = is_keep_alive c.parser.request }) c.output_buffer;
}

module _ (json : Bytes → Bytes → Bytes → Bytes) where
  unfoldable pub open_failed : Bool → HttpResponse
  open_failed true = error_response json 404 (codes "NotFound") (codes "Object data not found") []
  open_failed false =
      error_response json 500 (codes "InternalError") (codes "Failed to open object data") []

  unfoldable pub start_file : HttpConnection → HttpResponse → Opened → HttpConnection
  start_file c r (not_opened missing) =
      record (respond (record c { output_buffer = retrieve_all c.output_buffer; file_fd = none })
        (open_failed missing)) { state = writing_response; writing = true }
  start_file c r (opened file) = record c {
    file_fd = some file;
    file_offset = r.file_offset;
    file_remaining = sent_length r;
    state = sending_file;
    writing = true;
  }

  unfoldable pub send : HttpConnection → HttpResponse → Opened → HttpConnection
  send c r o =
      if is_closed c.state
      then c
      else if has_file r
      then start_file (respond c r) r o
      else record (respond c r) { state = writing_response; writing = true }

  -- The tail of a body: hand on what belongs to it, and the request when it is complete.
  unfoldable pub complete : HttpConnection → Bool × HttpParser → List Notice × HttpConnection
  complete c (false, p) = ([], record c { parser = p })
  complete c (true, p) =
      let p' = record p { request = record p.request { client_ip = c.peer_addr } } in
      (request p'.request ∷ [], record c { parser = p' })

  module _ (on_body : Bytes → HttpRequest → HttpRequest) where
    unfoldable pub stream_body : HttpConnection → List Notice × HttpConnection
    stream_body c =
        let to_process = min (readable_bytes c.input_buffer) c.parser.remaining_body_length in
        let bytes = peek c.input_buffer to_process in
        let told = record c {
          parser = record c.parser { request = on_body bytes c.parser.request };
          input_buffer = retrieve c.input_buffer to_process;
        } in
        let (notices, c') = complete told (consume_body told.parser to_process) in
        (body_bytes bytes ∷ notices, c')

    unfoldable pub begin_body : HttpConnection → List Notice × HttpConnection
    begin_body c =
        if ltb c.max_body_bytes c.parser.content_length
        then (
          [],
          (let p = record c.parser {
            request = add_header c.parser.request (codes "Connection") (codes "close");
          } in
              send (record c { parser = p })
                (error_response json 413 (codes "EntityTooLarge") (codes "Request body too large")
                  p.request.trace_id)
                (not_opened true)),
        )
        else if ltb 0 (readable_bytes c.input_buffer)
        then stream_body (record c { state = reading_body_stream })
        else ([], record c { state = reading_body_stream })

    unfoldable pub after_parse : HttpConnection → ParseResult → List Notice × HttpConnection
    after_parse c need_more_data = ([], c)
    after_parse c headers_complete = if has_body c.parser then begin_body c else ([], c)
    after_parse c body_data = ([], c)
    after_parse c message_complete = complete c (true, c.parser)
    after_parse c ParseResult.error = (
      [],
      send c (error_response json 400 (codes "BadRequest") c.parser.error_message [])
          (not_opened true),
    )

    -- `none` would mean that `Parse` did not return.
    unfoldable pub process_headers : HttpConnection → Option (List Notice × HttpConnection)
    process_headers c = elim (parse c.parser c.input_buffer) [
      | none ↦ none
      | some (result, p, b) ↦ some (after_parse (record c { parser = p; input_buffer = b }) result)
    ]

    unfoldable pub process_input :
        ConnectionState → HttpConnection → Option (List Notice × HttpConnection)
    process_input reading_headers c = process_headers c
    process_input reading_body_stream c = some (stream_body c)
    process_input processing c = some ([], c)
    process_input writing_response c = some ([], c)
    process_input sending_file c = some ([], c)
    process_input closed c = some ([], c)

    -- An error of `readv` is transient for EAGAIN and EWOULDBLOCK; no bytes are the end of the input.
    unfoldable pub handle_read :
        HttpConnection → Readv → Bool → Option (List Notice × HttpConnection)
    handle_read c read_error transient = if transient then some ([], c) else some (handle_error c)
    handle_read c (received []) transient = some (handle_close c)
    handle_read c (received (x ∷ xs)) transient =
        process_input c.state
          (record c { input_buffer = read_fd c.input_buffer (received (x ∷ xs)) })

-- What `write` or `sendfile` did: how many bytes it took, or an error and whether it is transient.
pub data Wrote : Type 0 where
  wrote : ℕ → Wrote
  write_error : Bool → Wrote

unfoldable pub finish_response : HttpConnection → List Notice × HttpConnection
finish_response c =
    if is_keep_alive c.parser.request
    then ([], record c { parser = zls.Http.Parser.reset c.parser; state = reading_headers })
    else handle_close c

-- A write event: the bytes that went out, what the callbacks are told, the connection.
unfoldable pub write_buffer : HttpConnection → Wrote → Bytes × (List Notice × HttpConnection)
write_buffer c (wrote n) =
    (peek c.output_buffer n, ([], record c { output_buffer = write_fd c.output_buffer (some n) }))
write_buffer c (write_error transient) = ([], if transient then ([], c) else handle_error c)

unfoldable pub send_in_loop : HttpConnection → Wrote → Bytes × (List Notice × HttpConnection)
send_in_loop c w =
    if readable_bytes c.output_buffer == 0
    then ([], finish_response (record c { writing = false }))
    else write_buffer c w

abbrev pub file_bytes : Option Bytes → Bytes
file_bytes none = []
file_bytes (some bytes) = bytes

unfoldable pub send_file : HttpConnection → Wrote → Bytes × (List Notice × HttpConnection)
send_file c (wrote n) = (
  take n (drop c.file_offset (file_bytes c.file_fd)),
  ([], record c { file_offset = c.file_offset + n; file_remaining = c.file_remaining - n }),
)
send_file c (write_error transient) = ([], if transient then ([], c) else handle_error c)

unfoldable pub finish_file : HttpConnection → List Notice × HttpConnection
finish_file c = finish_response (record c { file_fd = none; writing = false })

unfoldable pub file_step : HttpConnection → Wrote → Bytes × (List Notice × HttpConnection)
file_step c w = if c.file_remaining == 0 then ([], finish_file c) else send_file c w

-- After the head has gone out with this write, the same event goes on with the file.
unfoldable pub send_file_in_loop :
    HttpConnection → Wrote → Wrote → Bytes × (List Notice × HttpConnection)
send_file_in_loop c w v =
    if readable_bytes c.output_buffer == 0
    then file_step c v
    else let (out, (notices, c')) = write_buffer c w in
      if stops w || ltb 0 (readable_bytes c'.output_buffer)
      then (out, (notices, c'))
      else (let (out', r) = file_step c' v in (out ++ out', r))
  where
    stops : Wrote → Bool
    stops (wrote n) = false
    stops (write_error t) = true

unfoldable pub handle_write :
    HttpConnection → Wrote → Wrote → Bytes × (List Notice × HttpConnection)
handle_write c w v = elim c.state [
  | reading_headers ↦ send_in_loop c w
  | reading_body_stream ↦ send_in_loop c w
  | processing ↦ send_in_loop c w
  | writing_response ↦ send_in_loop c w
  | sending_file ↦ send_file_in_loop c w v
  | closed ↦ send_in_loop c w
]
