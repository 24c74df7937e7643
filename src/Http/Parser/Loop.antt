-- ===== src/Http/Parser/Loop.antt =====
-- `Parse` over a buffer against the parser over the buffer's contents.
use zls.Base.{
  ℕ, zero, suc, ◌+◌, ◌-◌, Bool, true, false, Option, none, some, ltb, ◌==◌, take, drop, ◌≡◌, refl,
  ap, arith, inl, inr, Bool-cases, Option-cases, min,
}
use zls.Base.Bytes.{Bytes, is_empty, find_crlf}
use zls.Buffer.{ByteBuffer, readable_bytes, peek, retrieve_until}
use zls.Buffer.Invariant.{IsValid, retrieve-IsValid}
use zls.Buffer.Contents.{contents, length-contents, peek-contents, contents-retrieve}
use zls.Buffer.Search.{find_crlf_in-contents, find_crlf_bound}
use zls.Http.Parser.Stream.{
  Next, more, stop, starve, take_request_line, take_header, take_blank, take_header_line, take_body,
  next_in, next, stream_loop, stream,
}
use zls.Http.Parser.Progress.{Returns, stream-Returns}
use zls.Http.Parser.{
  HttpParser, ParseState, request_line, headers, body, done, ParseResult, Turn, again, return,
  wait_line, after_request_line, after_header, after_headers, header_line, read_body, turn_in, turn,
  parse_loop, parse, parse_header, finish_headers, has_body,
}

-- What a round over a buffer says of the bytes in it.
abbrev pub view : Turn → Next
view (again p b) = more p (contents b)
view (return r p b) = stop r p (contents b)

abbrev pub Leaves : Turn → Type 0
Leaves (again p b) = IsValid b
Leaves (return r p b) = IsValid b

-- A round over the buffer leaves it valid, and is the round over the bytes.
abbrev pub Shows : Turn → Next → Type 0
Shows t n = Leaves t × (view t ≡ n)

after_headers-Shows :
    {b : ByteBuffer} (r : Bool × HttpParser)
    → IsValid b
    → Shows (after_headers r b) (take_blank r (contents b))
unfolding after_headers take_blank
after_headers-Shows (false, p) v = (v, refl)
after_headers-Shows (true, p) v = elim (Bool-cases (has_body p)) [
  | inl e ↦ rw e (v, refl)
  | inr e ↦ rw e (v, refl)
]

module _ {b : ByteBuffer} (v : IsValid b) where
  retrieve_until-contents :
      (n : ℕ) → IsValid (retrieve_until b n) × (contents (retrieve_until b n) ≡ drop n (contents b))
  unfolding retrieve_until
  retrieve_until-contents n = (retrieve-IsValid n v, contents-retrieve n v)

  wait_line-Shows :
      (limit : ℕ) (message : Bytes) (p : HttpParser)
      → Shows (wait_line limit message p b) (starve limit message p (contents b))
  unfolding wait_line starve
  wait_line-Shows limit message p = elim (Bool-cases (ltb limit (readable_bytes b))) [
    | inl e ↦ rw (length-contents v, e, wait_line) (v, refl)
    | inr e ↦ rw (length-contents v, e, wait_line) (v, refl)
  ]

  after_request_line-Shows :
      (r : Bool × HttpParser) (i : ℕ)
      → Shows
          (after_request_line r b i)
          (take_request_line r (drop (i + 2) (contents b)) (contents b))
  unfolding after_request_line take_request_line
  after_request_line-Shows (false, p) i = (v, refl)
  after_request_line-Shows (true, p) i =
      let (valid, left) = retrieve_until-contents (i + 2) in
      (valid, ap (more (record p { state = headers })) left)

  after_header-Shows :
      (r : Bool × HttpParser) (i : ℕ)
      → Shows (after_header r b i) (take_header r (drop (i + 2) (contents b)) (contents b))
  unfolding after_header take_header
  after_header-Shows (false, p) i = (v, refl)
  after_header-Shows (true, p) i =
      let (valid, left) = retrieve_until-contents (i + 2) in (valid, ap (more p) left)

  read_body-Shows : (p : HttpParser) → Shows (read_body p b) (take_body p (contents b))
  unfolding read_body take_body
  read_body-Shows p = rw (length-contents v) (elim (Bool-cases p.chunked) [
    | inl e ↦ rw (e, read_body) (v, refl)
    | inr e ↦
        rw (e, read_body)
          (elim (Bool-cases (readable_bytes b == 0)) [
            | inl z ↦ rw z (v, refl)
            | inr z ↦
                rw z
                  (elim (Bool-cases (
                    p.remaining_body_length - min (readable_bytes b) p.remaining_body_length
                    == 0)) [ inl l ↦ rw l (v, refl) | inr l ↦ rw l (v, refl) ])
          ])
  ])

  peek_line : {i : ℕ} → find_crlf (contents b) ≡ some i → peek b i ≡ take i (contents b)
  peek_line {i} e =
      peek-contents i v (omega (arith, find_crlf_bound (contents b) e, length-contents v))

  header_line-Shows :
      (p : HttpParser) (i : ℕ)
      → find_crlf (contents b) ≡ some i
      → Shows
          (header_line p b i)
          (take_header_line p (take i (contents b)) (drop (i + 2) (contents b)) (contents b))
  unfolding header_line take_header_line
  header_line-Shows p i e = rw (peek_line e) (elim (Bool-cases (is_empty (take i (contents b)))) [
    | inl z ↦ rw z (
        let (valid, left) = retrieve_until-contents (i + 2) in
        rw (← left) (after_headers-Shows (finish_headers p) valid))
    | inr z ↦ rw z (after_header-Shows (parse_header p (take i (contents b))) i)
  ])

  turn_in-Shows :
      (s : ParseState) (p : HttpParser) → Shows (turn_in s p b) (next_in s p (contents b))
  unfolding turn_in next_in
  turn_in-Shows request_line p =
      rw (find_crlf_in-contents b, turn_in)
        (elim (Option-cases (find_crlf (contents b))) [
          | inl e ↦ rw (e, next_in) (wait_line-Shows _ _ p)
          | inr (i, e) ↦ rw (e, next_in) (rw (peek_line e) (after_request_line-Shows _ i))
        ])
  turn_in-Shows headers p =
      rw (find_crlf_in-contents b, turn_in)
        (elim (Option-cases (find_crlf (contents b))) [
          | inl e ↦ rw (e, next_in) (wait_line-Shows _ _ p)
          | inr (i, e) ↦ rw (e, next_in) (header_line-Shows p i e)
        ])
  turn_in-Shows body p = read_body-Shows p
  turn_in-Shows done p = (v, refl)
  turn_in-Shows ParseState.error p = (v, refl)

-- A loop over the buffer is the loop over the bytes, and leaves the buffer valid.
abbrev pub Agrees :
    Option (ParseResult × HttpParser × ByteBuffer)
    → Option (ParseResult × HttpParser × Bytes)
    → Type 0
Agrees none none = Unit {0}
Agrees (some (r, p, b)) (some (r', p', xs)) = IsValid b × (r ≡ r') × (p ≡ p') × (contents b ≡ xs)
Agrees none (some _) = ⊥
Agrees (some _) none = ⊥

parse_loop-Agrees :
    (fuel : ℕ) (p : HttpParser) (b : ByteBuffer)
    → IsValid b
    → Agrees (parse_loop fuel p b) (stream_loop fuel p (contents b))
unfolding parse_loop stream_loop
parse_loop-Agrees zero p b v = tt
parse_loop-Agrees (suc fuel) p b v =
    go (parse_loop-Agrees fuel) (turn p b) (turn_in-Shows v p.state p)
  where
    go :
        ((p' : HttpParser) (b' : ByteBuffer)
          → IsValid b'
          → Agrees (parse_loop fuel p' b') (stream_loop fuel p' (contents b')))
        → (t : Turn) → Shows t (next p (contents b))
        → Agrees
            (elim t [ again p' b' ↦ parse_loop fuel p' b' | return r p' b' ↦ some (r, p', b') ])
            (elim (next p (contents b)) [
              | more p' xs ↦ stream_loop fuel p' xs
              | stop r p' xs ↦ some (r, p', xs)
            ])
    go ih (again p' b') s = rw (← s.1) (ih p' b' s.0)
    go ih (return r p' b') s = rw (← s.1) (s.0, refl, refl, refl)

Outcome :
    Option (ParseResult × HttpParser × ByteBuffer)
    → Option (ParseResult × HttpParser × Bytes)
    → Type 0
Outcome o o' =
    (r : ParseResult) × (p : HttpParser) × (b : ByteBuffer) × (o ≡ some (r, p, b))
    × IsValid b
    × (o' ≡ some (r, p, contents b))

Agrees-Outcome :
    (o : Option (ParseResult × HttpParser × ByteBuffer))
    (o' : Option (ParseResult × HttpParser × Bytes))
    → Agrees o o'
    → Returns o'
    → Outcome o o'
unfolding Outcome
Agrees-Outcome none none a (_, e) = absurd (cc)
Agrees-Outcome (some (r, p, b)) (some (r', p', xs)) (v, er, ep, eb) _ =
    (r, p, b, refl, v, rw (er, ep, eb) refl)
Agrees-Outcome none (some _) a _ = absurd a
Agrees-Outcome (some _) none a _ = absurd a

-- `Parse` returns on every valid buffer: the fuel is enough. What it returns is what the parser over
-- plain bytes returns on the buffer's contents; the buffer stays valid and holds what is left.
pub parse_refines :
    (p : HttpParser) {b : ByteBuffer}
    → IsValid b
    → (r : ParseResult) × (p' : HttpParser) × (b' : ByteBuffer) × (parse p b ≡ some (r, p', b'))
      × IsValid b'
      × (stream p (contents b) ≡ some (r, p', contents b'))
unfolding parse stream Outcome
parse_refines p {b} v = rw (length-contents v) (
    Agrees-Outcome _ _ (parse_loop-Agrees (suc (readable_bytes b)) p b v)
      (rw (length-contents v) at (stream-Returns p (contents b))))
