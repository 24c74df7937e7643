-- ===== src/Http/Parser/Lines.antt =====
-- One line of a request, printed and parsed back.
use zls.Base.{
  ℕ, ◌+◌, ◌<◌, true, false, Option, none, some, length, drop, [], ◌∷◌, ◌++◌, ◌≡◌, refl, ap, ◌∙◌,
  arith, inl, inr, ◌⊎◌, take-append_length, append-nil,
}
use native.Mathlib.Nat.{suc-add}
use zls.Base.Bytes.{Bytes, codes, is_empty, find_byte, eq_bytes}
use zls.Buffer.Search.{Lacks}
use zls.Http.Request.{
  HttpMethod, unknown, get, post, put, delete, head, options, patch, is_unknown, string_to_method,
  method_to_string, add_header, HttpRequest,
}
use zls.Http.Parser.{
  HttpParser, parse_request_line, parse_method, parse_target, set_uri, set_version, parse_header,
  trim_left, trim_right, is_blank,
}

pub Lacks-append : (c : ℕ) (xs ys : Bytes) → Lacks c xs → Lacks c ys → Lacks c (xs ++ ys)
Lacks-append c [] ys h k = k
Lacks-append c (x ∷ xs) ys h k = (h.0, Lacks-append c xs ys h.1 k)

find_byte-Lacks : (c : ℕ) (xs : Bytes) → Lacks c xs → find_byte c xs ≡ none
unfolding find_byte
find_byte-Lacks c [] h = refl
find_byte-Lacks c (x ∷ xs) h = ground (arith, find_byte-Lacks c xs h.1)

find_byte-append :
    (c : ℕ) (xs ys : Bytes) → Lacks c xs → find_byte c (xs ++ c ∷ ys) ≡ some (length xs)
unfolding find_byte
find_byte-append c [] ys h = ground arith
find_byte-append c (x ∷ xs) ys h = ground (arith, find_byte-append c xs ys h.1)

drop-append_cons : (xs : Bytes) (c : ℕ) (ys : Bytes) → drop (length xs + 1) (xs ++ c ∷ ys) ≡ ys
drop-append_cons [] c ys = refl
drop-append_cons (x ∷ xs) c ys = rw suc-add (drop-append_cons xs c ys)

string_to_method-method_to_string : (m : HttpMethod) → string_to_method (method_to_string m) ≡ m
unfolding string_to_method method_to_string eq_bytes
string_to_method-method_to_string unknown = refl
string_to_method-method_to_string get = refl
string_to_method-method_to_string post = refl
string_to_method-method_to_string put = refl
string_to_method-method_to_string delete = refl
string_to_method-method_to_string head = refl
string_to_method-method_to_string options = refl
string_to_method-method_to_string patch = refl

method_to_string-Lacks : (c : ℕ) → c < b'A' → (m : HttpMethod) → Lacks c (method_to_string m)
unfolding method_to_string
method_to_string-Lacks c h unknown = omega arith
method_to_string-Lacks c h get = omega arith
method_to_string-Lacks c h post = omega arith
method_to_string-Lacks c h put = omega arith
method_to_string-Lacks c h delete = omega arith
method_to_string-Lacks c h head = omega arith
method_to_string-Lacks c h options = omega arith
method_to_string-Lacks c h patch = omega arith

-- What a request line says.
pub record Target : Type 0 where
  pub method : HttpMethod
  pub path : Bytes
  pub query : Option Bytes
  pub version : Bytes

abbrev pub query_part : Option Bytes → Bytes
query_part none = []
query_part (some q) = b'?' ∷ q

-- `METHOD PATH[?QUERY] VERSION`
unfoldable pub print_line : Target → Bytes
print_line t =
    method_to_string t.method ++ (b' ' ∷ ((t.path ++ query_part t.query) ++ (b' ' ∷ t.version)))

-- A request line that can be written so that it reads back.
pub record IsPrintable (t : Target) : Type 0 where
  pub known : is_unknown t.method ≡ false
  pub path_space : Lacks b' ' t.path
  pub path_mark : Lacks b'?' t.path
  pub query_space : Lacks b' ' (query_part t.query)
  pub supported : (t.version ≡ codes "HTTP/1.0") ⊎ (t.version ≡ codes "HTTP/1.1")

abbrev with_query : Option Bytes → HttpRequest → HttpRequest
with_query none r = r
with_query (some q) r = record r { query = q }

-- The request that the line describes.
unfoldable pub told : Target → HttpRequest → HttpRequest
told t r = with_query t.query (record r { method = t.method; path = t.path; version = t.version })

set_uri_lem :
    (p : HttpParser) (path : Bytes) (query : Option Bytes)
    → Lacks b'?' path
    → set_uri p (path ++ query_part query)
      ≡ record p { request = with_query query (record (p.request) { path = path }) }
unfolding set_uri
set_uri_lem p path none h = rw (append-nil, find_byte-Lacks b'?' path h, set_uri) (rw append-nil)
set_uri_lem p path (some q) h =
    rw (find_byte-append b'?' path q h, set_uri)
      (rw (take-append_length path (b'?' ∷ q), drop-append_cons path b'?' q))

set_version_lem :
    (p : HttpParser) (v : Bytes)
    → (v ≡ codes "HTTP/1.0") ⊎ (v ≡ codes "HTTP/1.1")
    → set_version p v ≡ (true, record p { request = record (p.request) { version = v } })
unfolding set_version eq_bytes
set_version_lem p v (inl e) = rw e
set_version_lem p v (inr e) = rw e

split_method :
    (p : HttpParser) (method rest : Bytes)
    → Lacks b' ' method
    → parse_request_line p (method ++ b' ' ∷ rest) ≡ parse_method p (string_to_method method) rest
unfolding parse_request_line
split_method p method rest h =
    rw (find_byte-append b' ' method rest h, parse_request_line)
      (rw (take-append_length method (b' ' ∷ rest), drop-append_cons method b' ' rest))

split_target :
    (p : HttpParser) (uri version : Bytes)
    → Lacks b' ' uri
    → parse_target p (uri ++ b' ' ∷ version) ≡ set_version (set_uri p uri) version
unfolding parse_target
split_target p uri version h =
    rw (find_byte-append b' ' uri version h, parse_target)
      (rw (take-append_length uri (b' ' ∷ version), drop-append_cons uri b' ' version))

with_query_version :
    (q : Option Bytes) (r : HttpRequest) (v : Bytes)
    → record (with_query q r) { version = v } ≡ with_query q (record r { version = v })
with_query_version none r v = refl
with_query_version (some q) r v = refl

-- A printed request line of a known method and a supported version, whose path has no blank and no
-- question mark and whose query no blank, is read back: the method, path, query and version are those printed.
pub parse_request_line-print_line :
    (p : HttpParser) (t : Target)
    → IsPrintable t
    → parse_request_line p (print_line t) ≡ (true, record p { request = told t p.request })
unfolding print_line parse_method told
parse_request_line-print_line p t h =
    split_method p (method_to_string t.method) _
      (method_to_string-Lacks b' ' (omega arith) t.method)
    ∙ rw (string_to_method-method_to_string t.method, h.known, parse_method)
        (split_target _ _ t.version
            (Lacks-append b' ' t.path (query_part t.query) h.path_space h.query_space)
          ∙ rw (set_uri_lem _ t.path t.query h.path_mark) (
              set_version_lem _ t.version h.supported
              ∙ ap (λ r. (true, record p { request = r }))
                  (with_query_version t.query _ t.version)))

-- A header's value that the parser does not trim: no blank at either end.
abbrev pub FirstPlain : Bytes → Type 0
FirstPlain [] = Unit {0}
FirstPlain (c ∷ cs) = is_blank c ≡ false

abbrev pub LastPlain : Bytes → Type 0
LastPlain [] = Unit {0}
LastPlain (c ∷ []) = is_blank c ≡ false
LastPlain (c ∷ d ∷ cs) = LastPlain (d ∷ cs)

trim_left_lem : (v : Bytes) → FirstPlain v → trim_left v ≡ v
unfolding trim_left
trim_left_lem [] h = refl
trim_left_lem (c ∷ cs) h = rw h

trim_blank : (v : Bytes) → trim_left (b' ' ∷ v) ≡ trim_left v
unfolding trim_left
trim_blank v = refl

trim_right_lem : (v : Bytes) → LastPlain v → trim_right v ≡ v
unfolding trim_right is_empty
trim_right_lem [] h = refl
trim_right_lem (c ∷ []) h = ground arith
trim_right_lem (c ∷ d ∷ cs) h = rw (trim_right_lem (d ∷ cs) h) (ground arith)

-- `KEY: VALUE`
unfoldable pub print_header : Bytes × Bytes → Bytes
print_header (key, value) = key ++ (b':' ∷ b' ' ∷ value)

abbrev pub IsField : Bytes × Bytes → Type 0
IsField (key, value) = Lacks b':' key × FirstPlain value × LastPlain value

-- A printed header, whose key has no colon and whose value has no blank at either end, is read back: its value is stored under its key in lower case.
pub parse_header-print_header :
    (p : HttpParser) (f : Bytes × Bytes)
    → IsField f
    → parse_header p (print_header f) ≡ (true, record p { request = add_header p.request f.0 f.1 })
unfolding parse_header print_header
parse_header-print_header p (key, value) h =
    rw (find_byte-append b':' key (b' ' ∷ value) h.0, parse_header)
      (rw
        (
          take-append_length key (b':' ∷ b' ' ∷ value),
          drop-append_cons key b':' (b' ' ∷ value),
          trim_blank value,
          trim_left_lem value h.1,
          trim_right_lem value h.2,
        )
        refl)

pub is_empty-print_header : (f : Bytes × Bytes) → is_empty (print_header f) ≡ false
unfolding print_header is_empty
is_empty-print_header ([], value) = refl
is_empty-print_header (c ∷ key, value) = refl
