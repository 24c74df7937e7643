-- ===== src/Http/Parser/Progress.antt =====
-- How far a round of the loop over bytes gets, and the fuel of the loop.
use zls.Base.{
  ℕ, zero, suc, ◌+◌, ◌≤◌, ◌<◌, Bool, true, false, Option, some, length, ◌≡◌, refl, arith, inl, inr,
  Option-cases, length-drop,
}
use zls.Base.Bytes.{Bytes, find_crlf}
use zls.Buffer.Search.{find_crlf_bound}
use zls.Http.Parser.Stream.{
  Next, more, stop, starve, take_request_line, take_header, take_blank, take_header_line, take_body,
  next_in, next, stream_loop, stream,
}
use zls.Http.Parser.{
  HttpParser, ParseState, request_line, headers, body, done, ParseResult, parse_header,
  finish_headers,
}

-- What is left after a round that goes on.
abbrev pub Shrinks : ℕ → Next → Type 0
Shrinks n (more p xs) = length xs + 2 ≤ n
Shrinks n (stop r p xs) = Unit {0}

take_request_line-Shrinks :
    (n : ℕ) (r : Bool × HttpParser) (rest xs : Bytes)
    → length rest + 2 ≤ n
    → Shrinks n (take_request_line r rest xs)
unfolding take_request_line
take_request_line-Shrinks n (false, p) rest xs h = tt
take_request_line-Shrinks n (true, p) rest xs h = h

take_header_line-Shrinks :
    (n : ℕ) (p : HttpParser) (line rest xs : Bytes)
    → length rest + 2 ≤ n
    → Shrinks n (take_header_line p line rest xs)
unfolding take_header_line
take_header_line-Shrinks n p line rest xs h =
    ground (arith, blank (finish_headers p), header (parse_header p line))
  where
    blank : (r : Bool × HttpParser) → Shrinks n (take_blank r rest)
    blank (false, p) = unfold take_blank in tt
    blank (true, p) = unfold take_blank in ground arith

    header : (r : Bool × HttpParser) → Shrinks n (take_header r rest xs)
    header (false, p) = unfold take_header in tt
    header (true, p) = unfold take_header in h

next_in-Shrinks :
    (s : ParseState) (p : HttpParser) (xs : Bytes) → Shrinks (length xs) (next_in s p xs)
unfolding next_in
next_in-Shrinks request_line p xs = elim (Option-cases (find_crlf xs)) [
  | inl e ↦ rw (e, next_in) (unfold starve in ground arith)
  | inr (i, e) ↦
      rw (e, next_in)
        (take_request_line-Shrinks _ _ _ xs
          (omega (arith, find_crlf_bound xs e, length-drop (i + 2) xs)))
]
next_in-Shrinks headers p xs = elim (Option-cases (find_crlf xs)) [
  | inl e ↦ rw (e, next_in) (unfold starve in ground arith)
  | inr (i, e) ↦
      rw (e, next_in)
        (take_header_line-Shrinks _ p _ _ xs
          (omega (arith, find_crlf_bound xs e, length-drop (i + 2) xs)))
]
next_in-Shrinks body p xs = unfold take_body in ground arith
next_in-Shrinks done p xs = tt
next_in-Shrinks ParseState.error p xs = tt

-- A computation that returns.
abbrev pub Returns {ℓ} : {A : Type ℓ} → Option A → Type ℓ
Returns {A} o = (a : A) × (o ≡ some a)

-- With the round in view.
continue_on : ℕ → Next → Option (ParseResult × HttpParser × Bytes)
continue_on fuel n = elim n [
  | more p' rest ↦ stream_loop fuel p' rest
  | stop r p' rest ↦ some (r, p', rest)
]

stream_loop-Returns :
    (fuel : ℕ) (p : HttpParser) (xs : Bytes) → length xs < fuel → Returns (stream_loop fuel p xs)
unfolding stream_loop continue_on
stream_loop-Returns zero p xs h = absurd (omega arith)
stream_loop-Returns (suc fuel) p xs h =
    go (next p xs) (next_in-Shrinks p.state p xs) (stream_loop-Returns fuel)
  where
    go :
        (n : Next)
        → Shrinks (length xs) n
        → ((p : HttpParser) (ys : Bytes) → length ys < fuel → Returns (stream_loop fuel p ys))
        → Returns (continue_on fuel n)
    go (more p' rest) s ih = ih p' rest (omega arith)
    go (stop r p' rest) s ih = ((r, p', rest), refl)

stream_loop-fuel :
    (f g : ℕ) (p : HttpParser) (xs : Bytes)
    → length xs < f
    → length xs < g
    → stream_loop f p xs ≡ stream_loop g p xs
unfolding stream_loop continue_on
stream_loop-fuel zero g p xs h k = absurd (omega arith)
stream_loop-fuel (suc f) zero p xs h k = absurd (omega arith)
stream_loop-fuel (suc f) (suc g) p xs h k =
    go (next p xs) (next_in-Shrinks p.state p xs) (stream_loop-fuel f g)
  where
    go :
        (n : Next)
        → Shrinks (length xs) n
        → ((p : HttpParser) (ys : Bytes)
            → length ys < f
            → length ys < g
            → stream_loop f p ys ≡ stream_loop g p ys)
        → continue_on f n ≡ continue_on g n
    go (more p' rest) s ih = ih p' rest (omega arith) (omega arith)
    go (stop r p' rest) s ih = refl

pub stream-Returns : (p : HttpParser) (xs : Bytes) → Returns (stream p xs)
unfolding stream
stream-Returns p xs = stream_loop-Returns (suc (length xs)) p xs (omega arith)

-- The parser, round by round.
abbrev pub after : Next → Option (ParseResult × HttpParser × Bytes)
after (more p rest) = stream p rest
after (stop r p rest) = some (r, p, rest)

continue_on-after : (k : ℕ) (n : Next) → Shrinks k n → continue_on k n ≡ after n
unfolding stream continue_on
continue_on-after k (more p rest) s =
    stream_loop-fuel k (suc (length rest)) p rest (omega arith) (omega arith)
continue_on-after k (stop r p rest) s = refl

pub stream_round : (p : HttpParser) (xs : Bytes) → stream p xs ≡ after (next p xs)
unfolding stream stream_loop continue_on
stream_round p xs = continue_on-after (length xs) (next p xs) (next_in-Shrinks p.state p xs)

-- Induction on the rounds.
pub stream_induction {ℓ} :
    (P : HttpParser → Bytes → Type ℓ)
    → ((p : HttpParser) (xs : Bytes)
        → ((p' : HttpParser) (rest : Bytes) → next p xs ≡ more p' rest → P p' rest)
        → P p xs)
    → (p : HttpParser) (xs : Bytes) → P p xs
stream_induction P step p xs = go (suc (length xs)) p xs (omega arith)
  where
    go : (fuel : ℕ) (p : HttpParser) (xs : Bytes) → length xs < fuel → P p xs
    go zero p xs h = absurd (omega arith)
    go (suc fuel) p xs h = step p xs (λ p' rest e. go fuel p' rest (smaller e))
      where
        smaller : {p' : HttpParser} {rest : Bytes} → next p xs ≡ more p' rest → length rest < fuel
        smaller e = let s = rw e at (next_in-Shrinks p.state p xs) in omega arith
