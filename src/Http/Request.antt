-- ===== src/Http/Request.antt =====
-- src/net/http/http_request.h and http_request.cpp: a request's parts, its headers, its query
-- parameters. `Reset` keeps the trace id and the client's address.
use zls.Base.{
  ℕ, ◌+◌, Bool, true, false, ◌||◌, List, [], ◌∷◌, Option, none, some, if◌then◌else◌, ◌==◌, take,
  drop,
}
use zls.Base.Bytes.{Bytes, codes, eq_bytes, is_empty, find_byte, lower}
use zls.Base.Dict.{lookup, insert}

pub data HttpMethod : Type 0 where
  unknown get post put delete head options patch : HttpMethod

abbrev pub Headers : Type 0
Headers = List (Bytes × Bytes)

unfoldable pub string_to_method : Bytes → HttpMethod
string_to_method method =
    if eq_bytes method (codes "GET")
    then get
    else if eq_bytes method (codes "POST")
    then post
    else if eq_bytes method (codes "PUT")
    then put
    else if eq_bytes method (codes "DELETE")
    then delete
    else if eq_bytes method (codes "HEAD")
    then head
    else if eq_bytes method (codes "OPTIONS")
    then options
    else if eq_bytes method (codes "PATCH")
    then patch
    else unknown

unfoldable pub method_to_string : HttpMethod → Bytes
method_to_string get = codes "GET"
method_to_string post = codes "POST"
method_to_string put = codes "PUT"
method_to_string delete = codes "DELETE"
method_to_string head = codes "HEAD"
method_to_string options = codes "OPTIONS"
method_to_string patch = codes "PATCH"
method_to_string unknown = codes "UNKNOWN"

-- `Method() == HttpMethod::UNKNOWN`.
unfoldable pub is_unknown : HttpMethod → Bool
is_unknown unknown = true
is_unknown get = false
is_unknown post = false
is_unknown put = false
is_unknown delete = false
is_unknown head = false
is_unknown options = false
is_unknown patch = false

pub record HttpRequest : Type 0 where
  pub method : HttpMethod
  pub path : Bytes
  pub query : Bytes
  pub version : Bytes
  pub headers : Headers
  pub body : Bytes
  pub path_params : Headers
  pub query_params : Headers
  pub query_parsed : Bool
  pub trace_id : Bytes
  pub client_ip : Bytes

-- A request as it is constructed.
abbrev pub new_request : HttpRequest
new_request = record {
  method = unknown;
  path = [];
  query = [];
  version = codes "HTTP/1.1";
  headers = [];
  body = [];
  path_params = [];
  query_params = [];
  query_parsed = false;
  trace_id = [];
  client_ip = [];
}

-- `AddHeader`, and `SetHeader`, which does the same.
unfoldable pub add_header : HttpRequest → Bytes → Bytes → HttpRequest
add_header r key value = record r { headers = insert (lower key) value r.headers }

-- The empty string for what a map does not hold.
abbrev pub or_empty : Option Bytes → Bytes
or_empty none = []
or_empty (some v) = v

unfoldable pub get_header : HttpRequest → Bytes → Bytes
get_header r key = or_empty (lookup (lower key) r.headers)

unfoldable pub is_keep_alive : HttpRequest → Bool
is_keep_alive r =
    let connection = lower (get_header r (codes "connection")) in
    if eq_bytes connection (codes "close")
    then false
    else if eq_bytes connection (codes "keep-alive")
    then true
    else eq_bytes r.version (codes "HTTP/1.1")

unfoldable pub set_path_param : HttpRequest → Bytes → Bytes → HttpRequest
set_path_param r key value = record r { path_params = insert key value r.path_params }

unfoldable pub get_path_param : HttpRequest → Bytes → Bytes
get_path_param r key = or_empty (lookup key r.path_params)

-- One more byte in front of the first piece.
abbrev pub extend : ℕ → List Bytes → List Bytes
extend c [] = (c ∷ []) ∷ []
extend c (piece ∷ pieces) = (c ∷ piece) ∷ pieces

-- `std::getline(stream, pair, '&')` until the stream ends: the pieces between the separators. No
-- piece stands behind a separator at the end.
unfoldable pub split_pairs : ℕ → Bytes → List Bytes
split_pairs sep [] = []
split_pairs sep (c ∷ cs) =
    if c == sep then [] ∷ split_pairs sep cs else extend c (split_pairs sep cs)

unfoldable pub insert_pair : Headers → Bytes → Headers
insert_pair params pair = elim (find_byte b'=' pair) [
  | none ↦ insert pair [] params
  | some eq_pos ↦ insert (take eq_pos pair) (drop (eq_pos + 1) pair) params
]

unfoldable pub insert_pairs : Headers → List Bytes → Headers
insert_pairs params [] = params
insert_pairs params (pair ∷ pairs) = insert_pairs (insert_pair params pair) pairs

unfoldable pub parse_query_string : HttpRequest → HttpRequest
parse_query_string r =
    if r.query_parsed || is_empty r.query then record r { query_parsed = true } else record r {
      query_params = insert_pairs r.query_params (split_pairs b'&' r.query);
      query_parsed = true;
    }

-- The request changes too: it keeps the parsed parameters.
unfoldable pub get_query_param : HttpRequest → Bytes → Bytes × HttpRequest
get_query_param r key = let r' = parse_query_string r in (or_empty (lookup key r'.query_params), r')

unfoldable pub reset : HttpRequest → HttpRequest
reset r = record r {
  method = unknown;
  path = [];
  query = [];
  version = codes "HTTP/1.1";
  headers = [];
  body = [];
  path_params = [];
  query_params = [];
  query_parsed = false;
}
