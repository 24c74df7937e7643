-- ===== src/Tests/Http.antt =====
-- Runs of the request parser.
use zls.Base.{
  ◌≡◌, refl, ℕ, ◌+◌, ◌==◌, Bool-cases, Option-cases, inl, inr, [], ◌∷◌, ◌++◌, none, some, true,
  length, replicate, arith,
}
use zls.Base.Bytes.{Bytes, codes, cr, find_byte, find_crlf}
use zls.Buffer.{ByteBuffer, append, peek, readable_bytes, find_crlf_in}
use zls.Buffer.Slices.{slice}
use zls.Buffer.Invariant.{IsValid}
use zls.Buffer.Contents.{contents}
use zls.Buffer.Search.{Lacks}
use zls.Http.Request.{
  HttpMethod, is_unknown, method_to_string, is_keep_alive, get_header, new_request, add_header,
}
use zls.Http.Parser.{
  HttpParser, ParseState, ParseResult, need_more_data, request_line, headers, new_parser, parse,
  parse_request_line, parse_header, finish_headers,
}
use zls.Http.Parser.Stream.{stream, take_blank}
use zls.Http.Parser.Progress.{after}
use zls.Http.Parser.Loop.{parse_refines}
use zls.Http.Parser.Segments.{parsed_view, parse_resume}
use zls.Http.Parser.States.{Settles, parse-Settles}
use zls.Http.Parser.Lines.{
  Target, print_line, IsPrintable, told, print_header, IsField, parse_request_line-print_line,
  parse_header-print_header,
}
use zls.Http.Parser.RoundTrip.{print_head, AreFields, add_fields, parse-print_head}

abbrev holding : Bytes → ByteBuffer
holding bytes = record {
  buffer = replicate 8 0 ++ bytes;
  reader_index = 8;
  writer_index = 8 + length bytes;
}

abbrev target : Target
target = record {
  method = zls.Http.Request.get;
  path = codes "/b/k";
  query = some (codes "a=1");
  version = codes "HTTP/1.1";
}

lacks : (c : ℕ) (xs : Bytes) → find_byte c xs ≡ none → Lacks c xs
unfolding find_byte
lacks c [] h = record {}
lacks c (x ∷ xs) h = elim (Bool-cases (x == c)) [
  | inl e ↦ absurd (ground (arith))
  | inr e ↦ elim (Option-cases (find_byte c xs)) [
    | inl f ↦ (ground arith, lacks c xs f)
    | inr (i, f) ↦ absurd (ground arith)
  ]
]

target-IsPrintable : IsPrintable target
unfolding is_unknown find_byte
target-IsPrintable = record {
  known = refl;
  path_space = lacks b' ' (codes "/b/k") refl;
  path_mark = lacks b'?' (codes "/b/k") refl;
  query_space = lacks b' ' (codes "?a=1") refl;
  supported = inr refl;
}

parse_request_line-print_line_example :
    parse_request_line new_parser (print_line target)
    ≡ (true, record new_parser { request = told target new_request })
parse_request_line-print_line_example =
    parse_request_line-print_line new_parser target target-IsPrintable

abbrev host : Bytes × Bytes
host = (codes "Host", codes "a b")

host-IsField : IsField host
unfolding find_byte
host-IsField = (lacks b':' (codes "Host") refl, refl, refl)

parse_header-print_header_example :
    parse_header new_parser (print_header host)
    ≡ (true, record new_parser { request = add_header new_request host.0 host.1 })
parse_header-print_header_example = parse_header-print_header new_parser host host-IsField

holding-IsValid : IsValid (holding (codes "GE"))
holding-IsValid = record {
  ordered = omega arith;
  in_range = omega arith;
  has_front = omega arith;
  small = omega arith;
}

-- A request line that has not ended.
waits :
    parse new_parser (holding (codes "GE"))
    ≡ some (need_more_data, new_parser, holding (codes "GE"))
unfolding parse zls.Http.Parser.parse_loop zls.Http.Parser.turn_in find_crlf_in
    zls.Http.Parser.wait_line peek slice find_crlf readable_bytes
waits = refl

parse_refines_example :
    (r : ParseResult) × (p' : HttpParser) × (b' : ByteBuffer) × (parse new_parser
        (holding (codes "GE"))
      ≡ some (r, p', b'))
    × IsValid b'
    × (stream new_parser (contents (holding (codes "GE"))) ≡ some (r, p', contents b'))
parse_refines_example = parse_refines new_parser holding-IsValid

parse_resume_example :
    parsed_view (parse new_parser (append (holding (codes "GE")) (codes "T / ")))
    ≡ parsed_view (parse new_parser (append (holding (codes "GE")) (codes "T / ")))
parse_resume_example =
    parse_resume new_parser (codes "T / ") holding-IsValid (omega arith) (omega arith) waits

parse-Settles_example : Settles need_more_data new_parser (contents (holding (codes "GE")))
parse-Settles_example = parse-Settles new_parser holding-IsValid waits

abbrev head : Bytes
head = print_head target (host ∷ []) (codes "xyz")

whole-IsValid : IsValid (holding head)
unfolding print_head print_line method_to_string zls.Http.Parser.RoundTrip.print_fields print_header
whole-IsValid = record {
  ordered = omega arith;
  in_range = omega arith;
  has_front = omega arith;
  small = omega arith;
}

whole-contents : contents (holding head) ≡ head
unfolding contents slice print_head print_line method_to_string
    zls.Http.Parser.RoundTrip.print_fields print_header
whole-contents = refl

line-Lacks : Lacks cr (print_line target)
unfolding find_byte print_line method_to_string
line-Lacks = lacks cr (print_line target) refl

host-AreFields : AreFields (host ∷ [])
unfolding find_byte print_header
host-AreFields = (host-IsField, lacks cr (print_header host) refl, record {})

parse-print_head_example :
    parsed_view (parse new_parser (holding head))
    ≡ after (
        take_blank
          (finish_headers (record new_parser {
            state = headers;
            request = add_fields (host ∷ []) (told target new_request);
          }))
          (codes "xyz"))
parse-print_head_example =
    parse-print_head new_parser target (host ∷ []) (codes "xyz") whole-IsValid whole-contents refl
      target-IsPrintable line-Lacks host-AreFields
