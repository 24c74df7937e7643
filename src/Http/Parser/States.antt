-- ===== src/Http/Parser/States.antt =====
-- What each result of `Parse` says of the parser and of the bytes left.
use zls.Base.{
  ℕ, ◌+◌, ◌-◌, min, ◌≤◌, ◌<◌, ◌^◌, ◌==◌, Bool, true, false, some, ltb, length, take, drop, [], ◌∷◌,
  subst, ◌≡◌, refl, sym, ap, ◌∙◌, arith, inl, inr, ◌⊎◌, Bool-cases, Option-cases,
}
use mathlib.Core.Option.{some-injective}
use zls.Base.Bytes.{
  Bytes, codes, is_empty, find_crlf, from_chars, FromChars, invalid_argument, out_of_range, parsed,
}
use zls.Buffer.{ByteBuffer}
use zls.Buffer.Contents.{contents}
use zls.Buffer.Invariant.{IsValid}
use zls.Http.Parser.Segments.{parse-stream, parsed_view}
use zls.Http.Parser.Progress.{after, stream_round, stream_induction}
use zls.Http.Request.{get_header}
use zls.Http.Parser.Stream.{
  Next, more, stop, starve, take_request_line, take_header, take_blank, take_header_line, take_body,
  next_in, next, stream,
}
use zls.Http.Parser.{
  HttpParser, ParseState, request_line, headers, body, done, ParseResult, need_more_data,
  headers_complete, body_data, message_complete, parse_header, finish_headers, parse_request_line,
  has_body, set_content_length, check_content_length, check_transfer_encoding, and_then,
  max_request_line_size, max_header_size, parse,
}

from_chars_bound : (s : Bytes) {n k : ℕ} → from_chars s ≡ parsed n k → n < 2 ^ 64
unfolding from_chars
from_chars_bound s e = ground arith

-- The body's length after the headers: with "chunked" there is no other length.
pub record IsFramed (p : HttpParser) : Type 0 where
  pub whole : p.remaining_body_length ≡ p.content_length
  pub in_size : p.content_length < 2 ^ 64
  pub one_way : p.chunked ≡ true → p.content_length ≡ 0

abbrev Framed : Bool × HttpParser → Type 0
Framed (true, p) = IsFramed p
Framed (false, p) = Unit {0}

check_transfer_encoding-Framed :
    (p : HttpParser) → p.chunked ≡ false → IsFramed p → Framed (check_transfer_encoding p)
unfolding check_transfer_encoding
check_transfer_encoding-Framed p c f = ground arith

abbrev Plain : Bool × HttpParser → Type 0
Plain (true, p) = IsFramed p × (p.chunked ≡ false)
Plain (false, p) = Unit {0}

FromChars-cases :
    (r : FromChars)
    → (r ≡ invalid_argument)
      ⊎ ((k : ℕ) × (r ≡ out_of_range k))
      ⊎ ((n : ℕ) × (k : ℕ) × (r ≡ parsed n k))
FromChars-cases invalid_argument = inl refl
FromChars-cases (out_of_range k) = inr (inl (k, refl))
FromChars-cases (parsed n k) = inr (inr (n, k, refl))

set_content_length-Plain :
    (p : HttpParser) (value : Bytes) → p.chunked ≡ false → Plain (set_content_length p value)
unfolding set_content_length
set_content_length-Plain p value c = elim (FromChars-cases (from_chars value)) [
  | inl e ↦ rw (e, set_content_length) tt
  | inr (inl (k, e)) ↦ rw (e, set_content_length) tt
  | inr (inr (n, k, e)) ↦
      rw (e, set_content_length)
        (elim (Bool-cases (k == length value)) [
          | inl z ↦ rw z (
            record {
              whole = refl;
              in_size = from_chars_bound value e;
              one_way = λ h. absurd (cc (c, h));
            },
            c,
          )
          | inr z ↦ rw z tt
        ])
]

check_content_length-Plain :
    (p : HttpParser) → p.chunked ≡ false → IsFramed p → Plain (check_content_length p)
unfolding check_content_length
check_content_length-Plain p c f =
    elim (Bool-cases (is_empty (get_header p.request (codes "content-length")))) [
      | inl e ↦ rw (e, check_content_length) (f, c)
      | inr e ↦ rw (e, check_content_length) (set_content_length-Plain p _ c)
    ]

and_then-Framed : (r : Bool × HttpParser) → Plain r → Framed (and_then r check_transfer_encoding)
and_then-Framed (true, p) (f, c) = check_transfer_encoding-Framed p c f
and_then-Framed (false, p) _ = tt

-- However the headers read, the length of the body is settled.
finish_headers-Framed : (p : HttpParser) → Framed (finish_headers p)
unfolding finish_headers
finish_headers-Framed p = and_then-Framed _ (
    check_content_length-Plain _ refl
      (record { whole = refl; in_size = omega arith; one_way = λ _. refl }))

-- What the parser says when it returns.
abbrev pub Settles : ParseResult → HttpParser → Bytes → Type 0
Settles need_more_data q rest =
    ((q.state ≡ request_line) × (length rest ≤ max_request_line_size))
    ⊎ ((q.state ≡ headers) × (length rest ≤ max_header_size))
    ⊎ ((q.state ≡ body) × (rest ≡ []))
Settles headers_complete q rest = (q.state ≡ body) × (has_body q ≡ true) × IsFramed q
Settles body_data q rest = (q.state ≡ body) × (0 < q.remaining_body_length) × (q.chunked ≡ false)
Settles message_complete q rest = q.state ≡ done
Settles ParseResult.error q rest = q.state ≡ ParseState.error

abbrev Settled : Next → Type 0
Settled (more q rest) = Unit {0}
Settled (stop r q rest) = Settles r q rest

has_body-state : (p : HttpParser) (s : ParseState) → has_body (record p { state = s }) ≡ has_body p
unfolding has_body
has_body-state p s = refl

take_header_line-Settled :
    (p : HttpParser) (line rest xs : Bytes) → Settled (take_header_line p line rest xs)
unfolding take_header_line take_blank
take_header_line-Settled p line rest xs = elim (Bool-cases (is_empty line)) [
  | inl e ↦ rw (e, take_header_line) (blank (finish_headers p) (finish_headers-Framed p))
  | inr e ↦ rw (e, take_header_line) (header (parse_header p line))
]
  where
    blank : (r : Bool × HttpParser) → Framed r → Settled (take_blank r rest)
    blank (false, q) f = unfold take_blank in refl
    blank (true, q) f = elim (Bool-cases (has_body q)) [
      | inl e ↦
          rw (e, take_blank)
            (
              refl,
              has_body-state q body ∙ e,
              record { whole = f.whole; in_size = f.in_size; one_way = f.one_way },
            )
      | inr e ↦ rw (e, take_blank) refl
    ]

    header : (r : Bool × HttpParser) → Settled (take_header r rest xs)
    header (false, q) = unfold take_header in refl
    header (true, q) = unfold take_header in tt

take_body-Settled : (p : HttpParser) (xs : Bytes) → p.state ≡ body → Settled (take_body p xs)
unfolding take_body
take_body-Settled p xs s = elim (Bool-cases p.chunked) [
  | inl e ↦ rw (e, take_body) refl
  | inr e ↦
      rw (e, take_body)
        (elim (Bool-cases (length xs == 0)) [
          | inl z ↦ rw z (inr (inr (s, empty xs z)))
          | inr z ↦
              rw z
                (elim (Bool-cases
                  (p.remaining_body_length - min (length xs) p.remaining_body_length == 0)) [
                    | inl l ↦ rw l refl
                    | inr l ↦ rw l (s, ground arith, refl)
                  ])
        ])
]
  where
    empty : (ys : Bytes) → (length ys == 0) ≡ true → ys ≡ []
    empty [] z = refl
    empty (y ∷ ys) z = ground arith

starve-Settled :
    (limit : ℕ) (message : Bytes) (p : HttpParser) (xs : Bytes)
    → (length xs ≤ limit → Settles need_more_data p xs)
    → Settled (starve limit message p xs)
unfolding starve
starve-Settled limit message p xs h = elim (Bool-cases (ltb limit (length xs))) [
  | inl e ↦ rw (e, starve) refl
  | inr e ↦ rw (e, starve) (h (ground arith))
]

next_in-Settled :
    (s : ParseState) (p : HttpParser) (xs : Bytes) → p.state ≡ s → Settled (next_in s p xs)
unfolding next_in
next_in-Settled request_line p xs s = elim (Option-cases (find_crlf xs)) [
  | inl e ↦ rw (e, next_in) (starve-Settled _ _ p xs (λ h. inl (s, h)))
  | inr (i, e) ↦ rw (e, next_in) (line (parse_request_line p (take i xs)) (drop (i + 2) xs))
]
  where
    line : (r : Bool × HttpParser) (rest : Bytes) → Settled (take_request_line r rest xs)
    line (false, q) rest = unfold take_request_line in refl
    line (true, q) rest = unfold take_request_line in tt
next_in-Settled headers p xs s = elim (Option-cases (find_crlf xs)) [
  | inl e ↦ rw (e, next_in) (starve-Settled _ _ p xs (λ h. inr (inl (s, h))))
  | inr (i, e) ↦ rw (e, next_in) (take_header_line-Settled p _ _ xs)
]
next_in-Settled body p xs s = take_body-Settled p xs s
next_in-Settled done p xs s = s
next_in-Settled ParseState.error p xs s = s

-- What `stream` returns settles the matter as its result says.
abbrev Tells : HttpParser → Bytes → Type 0
Tells p xs =
    (r : ParseResult) (q : HttpParser) (rest : Bytes)
    → stream p xs ≡ some (r, q, rest)
    → Settles r q rest

abbrev Told : ParseResult × HttpParser × Bytes → Type 0
Told (r, q, rest) = Settles r q rest

round-Tells :
    (p : HttpParser) (xs : Bytes)
    → ((p' : HttpParser) (rest : Bytes) → next p xs ≡ more p' rest → Tells p' rest)
    → Tells p xs
round-Tells p xs ih r q rest e =
    go (next p xs) refl (next_in-Settled p.state p xs refl) (sym (stream_round p xs) ∙ e)
  where
    go : (n : Next) → next p xs ≡ n → Settled n → after n ≡ some (r, q, rest) → Settles r q rest
    go (more p' left) here s out = ih p' left here r q rest out
    go (stop r' p' left) here s out = subst Told (some-injective _ _ out) s

-- On a valid buffer the result that `Parse` returns, the state that it leaves, the bytes that it leaves and the
-- length of the body agree.
pub parse-Settles :
    (p : HttpParser) {b c : ByteBuffer} {r : ParseResult} {q : HttpParser}
    → IsValid b
    → parse p b ≡ some (r, q, c)
    → Settles r q (contents c)
parse-Settles p {b} {c} {r} {q} v e =
    stream_induction Tells round-Tells p (contents b) r q (contents c)
      (sym (parse-stream p v) ∙ ap parsed_view e)
