-- ===== src/Buffer.antt =====
-- src/net/buffer/byte_buffer.h and byte_buffer.cpp: the byte buffer between a socket and the parser.
-- A `vector<char>` is a list; a pointer into it is an index; `readv` and `write` are arguments that
-- say what the kernel did. Sums and differences of `size_t` wrap.
pub mod Slices
pub mod Invariant
pub mod Contents
pub mod Search
pub mod Sockets
pub mod Queue
use zls.Base.Bytes.{Bytes, cr, lf, find_crlf, find_byte}
use zls.Base.{
  ℕ, ◌+◌, ◌-◌, List, [], ◌∷◌, ◌++◌, Option, none, some, if◌then◌else◌, ltb, leb, length, take, drop,
  replicate, overwrite, add_size, sub_size, min, Bool,
}
use Slices.{slice, resize}

pub record ByteBuffer : Type 0 where
  pub buffer : Bytes
  pub reader_index : ℕ
  pub writer_index : ℕ

abbrev pub initial_size : ℕ
initial_size = 1024

abbrev pub prepend_size : ℕ
prepend_size = 8

-- The constructor; `vector<char>(n)` is zero-filled.
unfoldable pub create : ℕ → ByteBuffer
create size = record {
  buffer = replicate (add_size prepend_size size) 0;
  reader_index = prepend_size;
  writer_index = prepend_size;
}

unfoldable pub readable_bytes : ByteBuffer → ℕ
readable_bytes b = sub_size b.writer_index b.reader_index

unfoldable pub writable_bytes : ByteBuffer → ℕ
writable_bytes b = sub_size (length b.buffer) b.writer_index

unfoldable pub prependable_bytes : ByteBuffer → ℕ
prependable_bytes b = b.reader_index

-- The `n` bytes from `Peek()` on.
unfoldable pub peek : ByteBuffer → ℕ → Bytes
peek b n = take n (drop b.reader_index b.buffer)

unfoldable pub retrieve_all : ByteBuffer → ByteBuffer
retrieve_all b = record b { reader_index = prepend_size; writer_index = prepend_size }

unfoldable pub retrieve : ByteBuffer → ℕ → ByteBuffer
retrieve b len =
    if ltb len (readable_bytes b)
    then record b { reader_index = add_size b.reader_index len }
    else retrieve_all b

-- `end` is given by its distance from `Peek()`.
unfoldable pub retrieve_until : ByteBuffer → ℕ → ByteBuffer
retrieve_until b offset = retrieve b offset

unfoldable pub retrieve_as_string : ByteBuffer → ℕ → Bytes × ByteBuffer
retrieve_as_string b len = (peek b (min len (readable_bytes b)), retrieve b len)

unfoldable pub retrieve_all_as_string : ByteBuffer → Bytes × ByteBuffer
retrieve_all_as_string b = retrieve_as_string b (readable_bytes b)

unfoldable pub has_written : ByteBuffer → ℕ → ByteBuffer
has_written b len = record b { writer_index = add_size b.writer_index len }

unfoldable pub unwrite : ByteBuffer → ℕ → ByteBuffer
unwrite b len = record b { writer_index = sub_size b.writer_index len }

-- The two branches of `MakeSpace`: a larger vector, or the unread bytes moved to the front.
unfoldable pub grow : ByteBuffer → ℕ → ByteBuffer
grow b len = record b { buffer = resize (add_size b.writer_index len) b.buffer }

unfoldable pub move_to_front : ByteBuffer → ByteBuffer
move_to_front b = record b {
  buffer = overwrite b.buffer prepend_size (slice b.buffer b.reader_index b.writer_index);
  reader_index = prepend_size;
  writer_index = add_size prepend_size (readable_bytes b);
}

unfoldable pub make_space : ByteBuffer → ℕ → ByteBuffer
make_space b len =
    if ltb (add_size (writable_bytes b) (prependable_bytes b)) (add_size len prepend_size)
    then grow b len
    else move_to_front b

unfoldable pub ensure_writable_bytes : ByteBuffer → ℕ → ByteBuffer
ensure_writable_bytes b len = if ltb (writable_bytes b) len then make_space b len else b

-- `std::copy` to `BeginWrite()`.
unfoldable pub store : ByteBuffer → Bytes → ByteBuffer
store b bytes = record b { buffer = overwrite b.buffer b.writer_index bytes }

unfoldable pub append : ByteBuffer → Bytes → ByteBuffer
append b bytes = has_written (store (ensure_writable_bytes b (length bytes)) bytes) (length bytes)

unfoldable pub prepend : ByteBuffer → Bytes → ByteBuffer
prepend b bytes =
    let start = sub_size b.reader_index (length bytes) in
    record b { buffer = overwrite b.buffer start bytes; reader_index = start }

unfoldable pub shrink : ByteBuffer → ℕ → ByteBuffer
shrink b reserve =
    let readable = readable_bytes b in
    record {
      buffer =
          overwrite (replicate (add_size (add_size prepend_size readable) reserve) 0) prepend_size
            (peek b readable);
      reader_index = prepend_size;
      writer_index = add_size prepend_size readable;
    }

-- Both finders return the distance of the match from `Peek()`; `none` is the null pointer.
unfoldable pub find_crlf_in : ByteBuffer → Option ℕ
find_crlf_in b = find_crlf (slice b.buffer b.reader_index b.writer_index)

unfoldable pub find_eol_in : ByteBuffer → Option ℕ
find_eol_in b = find_byte lf (peek b (readable_bytes b))

-- What `readv` did: an error, or the bytes that it stored, first into the writable space and then
-- into `extrabuf`.
pub data Readv : Type 0 where
  read_error : Readv
  received : Bytes → Readv

abbrev pub extrabuf_size : ℕ
extrabuf_size = 65536

-- How many bytes `readv` is offered.
unfoldable pub offered : ByteBuffer → ℕ
offered b =
    if ltb (writable_bytes b) extrabuf_size
    then writable_bytes b + extrabuf_size
    else writable_bytes b

unfoldable pub read_fd : ByteBuffer → Readv → ByteBuffer
read_fd b read_error = b
read_fd b (received bytes) =
    let filled = store b (take (writable_bytes b) bytes) in
    if leb (length bytes) (writable_bytes b)
    then has_written filled (length bytes)
    else append (record filled { writer_index = length filled.buffer })
        (drop (writable_bytes b) bytes)

-- What `write` did: `none` for an error, or the number of bytes that it took.
unfoldable pub write_fd : ByteBuffer → Option ℕ → ByteBuffer
write_fd b none = b
write_fd b (some n) = retrieve b n
