-- ===== src/Http/Parser/Segments.antt =====
-- A parser that asked for more data and gets it, against one that had all of it at once.
use zls.Base.{
  ℕ, ◌+◌, ◌-◌, min, ◌==◌, Bool, true, false, Option, none, some, ltb, length, take, drop, ◌++◌, ◌≡◌,
  refl, sym, ap, subst, ◌∙◌, arith, inl, inr, Bool-cases, Option-cases, take-append_left,
  drop-append_left,
}
use zls.Base.Bytes.{Bytes, is_empty, find_crlf}
use zls.Buffer.Search.{find_crlf_bound, find_crlf-append}
use zls.Buffer.{ByteBuffer, append}
use zls.Buffer.Contents.{contents, contents-append}
use zls.Buffer.Invariant.{IsValid, Fits, append-IsValid}
use zls.Http.Parser.Loop.{parse_refines}
use zls.Http.Parser.Progress.{after, stream_round, stream_induction}
use zls.Http.Parser.Stream.{
  Next, more, stop, starve, take_request_line, take_header, take_blank, take_header_line, take_body,
  next_in, next, stream,
}
use zls.Http.Parser.{
  HttpParser, ParseState, request_line, headers, body, done, ParseResult, need_more_data,
  parse_header, finish_headers, has_body, parse,
}

-- A round that went on goes on alike with `ys` behind; one that asked for data changed nothing.
abbrev Extends : Bytes → HttpParser → Bytes → Next → Next → Type 0
Extends ys p xs (more q rest) n = n ≡ more q (rest ++ ys)
Extends ys p xs (stop r q rest) n = r ≡ need_more_data → (q ≡ p) × (rest ≡ xs)

starve-Extends :
    (limit : ℕ) (message : Bytes) (p : HttpParser) (xs ys : Bytes) (n : Next)
    → Extends ys p xs (starve limit message p xs) n
unfolding starve
starve-Extends limit message p xs ys n = elim (Bool-cases (ltb limit (length xs))) [
  | inl e ↦ rw (e, starve) (λ r. absurd (cc r))
  | inr e ↦ rw (e, starve) (λ r. (refl, refl))
]

take_request_line-Extends :
    (r : Bool × HttpParser) (p : HttpParser) (rest xs ys : Bytes)
    → Extends ys p xs (take_request_line r rest xs) (take_request_line r (rest ++ ys) (xs ++ ys))
unfolding take_request_line
take_request_line-Extends (false, q) p rest xs ys = λ r. absurd (cc r)
take_request_line-Extends (true, q) p rest xs ys = refl

take_header-Extends :
    (r : Bool × HttpParser) (p : HttpParser) (rest xs ys : Bytes)
    → Extends ys p xs (take_header r rest xs) (take_header r (rest ++ ys) (xs ++ ys))
unfolding take_header
take_header-Extends (false, q) p rest xs ys = λ r. absurd (cc r)
take_header-Extends (true, q) p rest xs ys = refl

take_blank-Extends :
    (r : Bool × HttpParser) (p : HttpParser) (rest xs ys : Bytes) (n : Next)
    → Extends ys p xs (take_blank r rest) n
unfolding take_blank
take_blank-Extends (false, q) p rest xs ys n = λ r. absurd (cc r)
take_blank-Extends (true, q) p rest xs ys n = elim (Bool-cases (has_body q)) [
  | inl e ↦ rw (e, take_blank) (λ r. absurd (cc r))
  | inr e ↦ rw (e, take_blank) (λ r. absurd (cc r))
]

take_header_line-Extends :
    (p : HttpParser) (line rest xs ys : Bytes)
    → Extends ys p xs
        (take_header_line p line rest xs)
        (take_header_line p line (rest ++ ys) (xs ++ ys))
unfolding take_header_line
take_header_line-Extends p line rest xs ys = elim (Bool-cases (is_empty line)) [
  | inl e ↦ rw (e, take_header_line) (take_blank-Extends (finish_headers p) p rest xs ys _)
  | inr e ↦ rw (e, take_header_line) (take_header-Extends (parse_header p line) p rest xs ys)
]

take_body-Extends : (p : HttpParser) (xs ys : Bytes) (n : Next) → Extends ys p xs (take_body p xs) n
unfolding take_body
take_body-Extends p xs ys n = elim (Bool-cases p.chunked) [
  | inl e ↦ rw (e, take_body) (λ r. absurd (cc r))
  | inr e ↦
      rw (e, take_body)
        (elim (Bool-cases (length xs == 0)) [
          | inl z ↦ rw z (λ r. (refl, refl))
          | inr z ↦
              rw z
                (elim (Bool-cases
                  (p.remaining_body_length - min (length xs) p.remaining_body_length == 0)) [
                    | inl l ↦ rw l (λ r. absurd (cc r))
                    | inr l ↦ rw l (λ r. absurd (cc r))
                  ])
        ])
]

module _ (p : HttpParser) (xs ys : Bytes) {i : ℕ} (e : find_crlf xs ≡ some i) where
  same_line : take i (xs ++ ys) ≡ take i xs
  same_line = take-append_left xs ys i (omega (arith, find_crlf_bound xs e))

  same_rest : drop (i + 2) (xs ++ ys) ≡ drop (i + 2) xs ++ ys
  same_rest = drop-append_left xs ys (i + 2) (find_crlf_bound xs e)

next_in-Extends :
    (s : ParseState) (p : HttpParser) (xs ys : Bytes)
    → Extends ys p xs (next_in s p xs) (next_in s p (xs ++ ys))
unfolding next_in
next_in-Extends request_line p xs ys = elim (Option-cases (find_crlf xs)) [
  | inl e ↦ rw (e, next_in) (starve-Extends _ _ p xs ys _)
  | inr (i, e) ↦
      rw (find_crlf-append xs ys e, e, next_in)
        (rw (same_line p xs ys e, same_rest p xs ys e) (take_request_line-Extends _ p _ xs ys))
]
next_in-Extends headers p xs ys = elim (Option-cases (find_crlf xs)) [
  | inl e ↦ rw (e, next_in) (starve-Extends _ _ p xs ys _)
  | inr (i, e) ↦
      rw (find_crlf-append xs ys e, e, next_in)
        (rw (same_line p xs ys e, same_rest p xs ys e) (take_header_line-Extends p _ _ xs ys))
]
next_in-Extends body p xs ys = take_body-Extends p xs ys _
next_in-Extends done p xs ys = λ e. absurd (cc e)
next_in-Extends ParseState.error p xs ys = λ e. absurd (cc e)

-- The parser asked for more data, with these bytes left.
abbrev Waits : HttpParser → Bytes → Type 0
Waits p xs =
    (ys : Bytes) (q : HttpParser) (rest : Bytes)
    → stream p xs ≡ some (need_more_data, q, rest)
    → stream q (rest ++ ys) ≡ stream p (xs ++ ys)

round-Waits :
    (p : HttpParser) (xs : Bytes)
    → ((p' : HttpParser) (rest : Bytes) → next p xs ≡ more p' rest → Waits p' rest)
    → Waits p xs
round-Waits p xs ih ys q rest e =
    go (next p xs) refl (next_in-Extends p.state p xs ys) (sym (stream_round p xs) ∙ e)
  where
    go :
        (n : Next)
        → next p xs ≡ n
        → Extends ys p xs n (next p (xs ++ ys))
        → after n ≡ some (need_more_data, q, rest)
        → stream q (rest ++ ys) ≡ stream p (xs ++ ys)
    go (more p' left) here x out =
        ih p' left here ys q rest out ∙ sym (ap after x) ∙ sym (stream_round p (xs ++ ys))
    go (stop r p' left) here x out = let same = x (cc out) in cc (same.0, same.1, out)

-- If the parser asked for more data, then parsing what it left with `ys` behind is parsing all.
pub stream_resume :
    (p : HttpParser) (xs ys : Bytes) {q : HttpParser} {rest : Bytes}
    → stream p xs ≡ some (need_more_data, q, rest)
    → stream q (rest ++ ys) ≡ stream p (xs ++ ys)
stream_resume p xs ys {q} {rest} e = stream_induction Waits round-Waits p xs ys q rest e

-- What `Parse` returned, with the buffer seen as its contents.
abbrev pub parsed_view :
    Option (ParseResult × HttpParser × ByteBuffer) → Option (ParseResult × HttpParser × Bytes)
parsed_view none = none
parsed_view (some (r, p, b)) = some (r, p, contents b)

pub parse-stream :
    (p : HttpParser) {b : ByteBuffer} → IsValid b → parsed_view (parse p b) ≡ stream p (contents b)
parse-stream p v = let (r, p', b', e, _, s) = parse_refines p v in rw e (sym s)

-- `Parse` on a valid buffer that asked for more data, called again after `Append` of bytes that fit,
-- returns what one call on all the data would have returned, and leaves the same bytes.
pub parse_resume :
    (p : HttpParser) (ys : Bytes) {b c : ByteBuffer} {q : HttpParser}
    → IsValid b
    → Fits b (length ys)
    → Fits c (length ys)
    → parse p b ≡ some (need_more_data, q, c)
    → parsed_view (parse q (append c ys)) ≡ parsed_view (parse p (append b ys))
parse_resume p ys {b} {c} {q} v fb fc e =
    parse-stream q (append-IsValid ys vc fc)
    ∙ ap (stream q) (contents-append ys vc fc)
    ∙ stream_resume p (contents b) ys (sym (parse-stream p v) ∙ ap parsed_view e)
    ∙ ap (stream p) (sym (contents-append ys v fb))
    ∙ sym (parse-stream p (append-IsValid ys v fb))
  where
    vc : IsValid c
    vc =
        let (r, p', b', e', v', _) = parse_refines p v in
        let same : b' ≡ c = cc (e, e') in subst IsValid same v'
