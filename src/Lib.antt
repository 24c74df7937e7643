-- ===== src/Lib.antt =====
-- MiniS3, an HTTP/1.1 object store in C++: bytes come from a socket into a `ByteBuffer`, `HttpParser`
-- takes a request head out of it, handlers answer from a content-addressed store and from metadata
-- that they reach through a pool of MySQL connections.
--
-- Base: shared names, and its children: Boolean tests (Tests), tables by keys (Tables), lists by native numbers (Lists),
--   `size_t` arithmetic modulo 2^64 (Words), byte strings with the functions of `std::string` that the
--   server calls (Bytes), maps keyed by byte strings (Dict).
-- Buffer (src/net/buffer/byte_buffer.h, .cpp): `ByteBuffer` as a vector with its two indices, one
--   function for each method, in snake_case (`EnsureWritableBytes` is `ensure_writable_bytes`).
--   `readv` and `write` are not modelled: what they delivered or took is an argument of `read_fd` and
--   `write_fd`. Children: Slices (list lemmas), Invariant (`IsValid`), Contents (the bytes between the
--   indices), Search (finders), Sockets (`ReadFd`, `WriteFd`), Queue (histories of calls).
-- Http.Request (src/net/http/http_request.h, .cpp): methods, headers, parameters.
-- Http.Parser (src/net/http/http_parser.h, .cpp): `parse` is `Parse`, one round of whose loop is
--   `turn`. The loop runs on fuel, one more than the readable bytes, which is enough since each round
--   that goes on takes at least two bytes. Children: Stream (the parser over plain bytes), Progress
--   (rounds and fuel), Loop (`parse` against `stream`), Segments (input in pieces), States
--   (what a result says), Lines and RoundTrip (printing and parsing back).
-- Http.Response (src/net/http/http_response.h, .cpp): the text that `AppendToBuffer` writes is
--   `to_text`; child Framing. The order of the headers is the list's order.
-- Http.Connection (src/net/http/http_connection.h, .cpp): read events, write events and `Send`; what a
--   callback is told is a `Notice`. Children: Body (a request's body in pieces) and Writing (what goes
--   out). The effect of the body callback on the request and the JSON text of an error are parameters.
-- Net.TimerWheel (src/net/epoll/timer_wheel.h, .cpp): `TimerWheel`; children Live and Due.
-- Storage.Gc (src/storage/gc.h, .cpp): `ProcessBatch`, with the answers of the metadata store and of the
--   file system as arguments; child Safety.
-- Storage.Cas (src/storage/cas_layout.h, .cpp; `JoinPath` of src/util/fs.cpp): paths of blobs.
-- Storage.DataStore (src/storage/data_store.h, .cpp): `WriteSession` and `DataStore` on a table of paths and
--   contents; what `read`, `write`, `rename` and `unlink` answer is an argument, SHA-256 is a parameter.
--   A list of answers ends with calls that take all that is left. The text of `strerror` is left out.
--   Children: Addresses (`IsAddressed`), Writes, Merges.
-- Util.Status (src/util/status.h): error codes, `Status`, `Result`; child Codes.
-- Api.Range (src/api/handlers/object_handlers.cpp: `ParseRange` and the range part of `GetObject`;
--   src/net/http/http_response.cpp: `SetFile`): children Meaning (the positions asked for), Reply
--   (what is sent) and Stalled (a part behind the end of the file). The regular expression is one fixed pattern and is matched by hand.
-- Api.Auth (src/api/middleware/auth_middleware.cpp; `VerifyPresignUrl` and `GenerateSignature` of
--   src/api/handlers/presign_handlers.cpp): `handle` decides on a request; HMAC-SHA256 and the clock are
--   parameters. Child Safety.
-- Api.Multipart (src/api/handlers/multipart_handlers.cpp): `complete_upload` is `CompleteUpload` behind the
--   JSON of the request, over Db.MetaStore and Storage.DataStore. Children: Parts (the check of the
--   client's list), Sessions (what questions leave of a session), Completed, Aborts (`AbortUpload`).
-- Db.Pool (src/db/mysql_pool.h, .cpp): the pool and the threads that use it; an event is one critical
--   section. Whether MySQL answers is an argument of each event. Children: Invariant and Drained.
-- Db.Sql (scripts/mysql_init.sql and the SQL text of src/db/meta_store.cpp): the tables, without row
--   numbers and times, and what each statement does to them. The unique key of `objects` is the bucket
--   and the first 255 characters of the name. A name is a list of characters as the collation compares
--   them, so two names that MySQL takes for one are one name here.
-- Db.Transaction (src/db/mysql_tx.h, .cpp): `begin` is the constructor, `destroy` the destructor. The
--   database server is a record of answers: any statement may be refused, and a refused COMMIT may have
--   taken place. One session runs at a time. Child Triples: rules for bodies of transactions.
-- Db.MetaStore (src/db/meta_store.h, .cpp): `put_object_with_ref_count` is `PutObjectWithRefCount` and so
--   on; its loop runs `max_retries` attempts. Children: Counts (the reference counts), Attempts (retries),
--   Balance (counts against rows), Names (names against the unique key), Puts, Clashes (a taken unique key), Parts, Deletes, Collecting (`CanDeleteCasBlob`), Listing
--   (`ListObjects`, `ListParts`) with Pages, Rows (operations of one statement) with Left and Cover.
-- Tests: runs on concrete inputs.
--
-- Not modelled: epoll and socket calls, JSON, OpenSSL, Redis, YAML and logging, which the
-- sources only call. The router, the event loop's queue,
-- the cache of object rows, buckets, services and the other handlers are not modelled either.
pub mod Api
pub mod Base
pub mod Buffer
pub mod Db
pub mod Http
pub mod Net
pub mod Storage
pub mod Tests
pub mod Util
