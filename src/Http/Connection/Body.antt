-- ===== src/Http/Connection/Body.antt =====
-- A request body that arrives in pieces, and what the callback is handed.
use zls.Base.{
  ℕ, zero, suc, ◌-◌, ◌≡◌, ◌≢◌, refl, sym, ap, ◌∙◌, subst, arith, false, List, [], ◌∷◌, ◌++◌, some,
  if◌then◌else◌, leb, length, take, drop, min, Bool-cases, inl, inr, append_assoc, append-nil,
  take-min-length, drop_all, take-append-drop, ap₂,
}
use native.Mathlib.Nat.{zero-sub, sub-zero, suc-sub-suc}
use mathlib.Core.Option.{some-injective}
use zls.Base.Bytes.{Bytes}
use zls.Buffer.{ByteBuffer, received, readable_bytes, peek, retrieve, read_fd}
use zls.Buffer.Invariant.{IsValid, Fits, retrieve-IsValid}
use zls.Buffer.Contents.{contents, length-contents, peek-contents, contents-retrieve}
use zls.Buffer.Sockets.{read_fd-Appends}
use zls.Http.Request.{HttpRequest}
use zls.Http.Parser.{consume_body}
use zls.Http.Connection.{
  HttpConnection, reading_body_stream, Notice, body_bytes, request, closing, stream_body, complete,
  handle_read, process_input,
}

-- The bytes that `body_data_callback_` is handed, and how often `request_callback_` is called.
unfoldable pub bodies : List Notice → Bytes
bodies [] = []
bodies (body_bytes bytes ∷ ns) = bytes ++ bodies ns
bodies (request r ∷ ns) = bodies ns
bodies (closing ∷ ns) = bodies ns

unfoldable pub requests : List Notice → ℕ
requests [] = 0
requests (body_bytes bytes ∷ ns) = requests ns
requests (request r ∷ ns) = suc (requests ns)
requests (closing ∷ ns) = requests ns

-- `bytes` came for the body of `c`: what belongs to the body was handed on, the rest is kept.
pub record HandsOn (c : HttpConnection) (bytes : Bytes) (ns : List Notice) (d : HttpConnection)
    : Type 0 where
  pub handed : bodies ns ≡ take c.parser.remaining_body_length bytes
  pub kept : contents d.input_buffer ≡ drop c.parser.remaining_body_length bytes
  pub remaining : d.parser.remaining_body_length ≡ c.parser.remaining_body_length - length bytes
  pub dispatched :
      requests ns ≡ (if leb c.parser.remaining_body_length (length bytes) then 1 else 0)
  pub valid : IsValid d.input_buffer
  pub same_state : d.state ≡ c.state

drop-min-length : (n : ℕ) (xs : Bytes) → drop (min (length xs) n) xs ≡ drop n xs
drop-min-length n xs = elim (Bool-cases (leb n (length xs))) [
  | inl e ↦ ap (λ k. drop k xs) {x = min (length xs) n} {y = n} (ground arith)
  | inr e ↦ drop_all (min (length xs) n) xs (ground arith) ∙ sym (drop_all n xs (ground arith))
]

module _ {b : ByteBuffer} (n : ℕ) (v : IsValid b) where
  peeked : peek b (min (readable_bytes b) n) ++ [] ≡ take n (contents b)
  peeked =
      append-nil (peek b (min (readable_bytes b) n))
      ∙ peek-contents (min (readable_bytes b) n) v (omega arith)
      ∙ ap (λ k. take k (contents b)) {x = min (readable_bytes b) n}
          {y = min n (length (contents b))} (omega (arith, length-contents v))
      ∙ take-min-length n (contents b)

  left : contents (retrieve b (min (readable_bytes b) n)) ≡ drop n (contents b)
  left =
      contents-retrieve (min (readable_bytes b) n) v
      ∙ ap (λ k. drop k (contents b)) {x = min (readable_bytes b) n}
          {y = min (length (contents b)) n} (omega (arith, length-contents v))
      ∙ drop-min-length n (contents b)

module _ (json : Bytes → Bytes → Bytes → Bytes) (on_body : Bytes → HttpRequest → HttpRequest) where
  stream_body-HandsOn :
      (c : HttpConnection)
      → IsValid c.input_buffer
      → let (ns, d) = stream_body json on_body c in HandsOn c (contents c.input_buffer) ns d
  unfolding stream_body consume_body complete bodies requests
  stream_body-HandsOn c v =
      elim (Bool-cases (
        leb c.parser.remaining_body_length
          (min (readable_bytes c.input_buffer) c.parser.remaining_body_length))) [
            | inl e ↦ rw (e) (record {
              handed = peeked c.parser.remaining_body_length v;
              kept = left c.parser.remaining_body_length v;
              remaining = ground (arith, length-contents v);
              dispatched = ground (arith, length-contents v);
              valid =
                  retrieve-IsValid
                    (min (readable_bytes c.input_buffer) c.parser.remaining_body_length) v;
              same_state = refl;
            })
            | inr e ↦ rw (e) (record {
              handed = peeked c.parser.remaining_body_length v;
              kept = left c.parser.remaining_body_length v;
              remaining = ground (arith, length-contents v);
              dispatched = ground (arith, length-contents v);
              valid =
                  retrieve-IsValid
                    (min (readable_bytes c.input_buffer) c.parser.remaining_body_length) v;
              same_state = refl;
            })
          ]

  -- A read event that brings bytes that fit, while a body is read into a valid buffer, always returns. It hands on just those bytes, of what was
  -- left over and what came, that the body still lacks, keeps the others, and dispatches the request
  -- once if the body is complete and not at all otherwise.
  pub handle_read-HandsOn :
      (c : HttpConnection) (bytes : Bytes)
      → c.state ≡ reading_body_stream
      → IsValid c.input_buffer
      → Fits c.input_buffer (length bytes)
      → bytes ≢ []
      → (ns : List Notice) × (d : HttpConnection) × (handle_read json on_body c
            (received bytes)
            false
          ≡ some (ns, d))
        × HandsOn c (contents c.input_buffer ++ bytes) ns d
  unfolding handle_read process_input
  handle_read-HandsOn c [] s v f k = absurd (k refl)
  handle_read-HandsOn c (x ∷ xs) s v f k =
      let d = record c { input_buffer = read_fd c.input_buffer (received (x ∷ xs)) } in
      let r = read_fd-Appends (x ∷ xs) v f in
      let out = stream_body json on_body d in
      let h = stream_body-HandsOn d r.0 in
      (
        out.0,
        out.1,
        rw (s) refl,
        subst (λ bytes. HandsOn c bytes out.0 out.1) r.1
            (record {
              handed = h.handed;
              kept = h.kept;
              remaining = h.remaining;
              dispatched = h.dispatched;
              valid = h.valid;
              same_state = h.same_state;
            }),
      )

  -- Read events, one after the other, while no response is sent.
  pub data Reads : HttpConnection → List Bytes → List Notice → HttpConnection → Type 0 where
    finished : (c : HttpConnection) → Reads c [] [] c
    read :
        (c d e : HttpConnection) (bytes : Bytes) (rest : List Bytes) (ns ms : List Notice)
        → Fits c.input_buffer (length bytes)
        → bytes ≢ []
        → handle_read json on_body c (received bytes) false ≡ some (ns, d)
        → Reads d rest ms e
        → Reads c (bytes ∷ rest) (ns ++ ms) e

bodies-append : (ns ms : List Notice) → bodies (ns ++ ms) ≡ bodies ns ++ bodies ms
unfolding bodies
bodies-append [] ms = refl
bodies-append (body_bytes bytes ∷ ns) ms =
    rw (bodies-append ns ms, append_assoc bytes (bodies ns) (bodies ms)) refl
bodies-append (request r ∷ ns) ms = bodies-append ns ms
bodies-append (closing ∷ ns) ms = bodies-append ns ms

take_split :
    (n : ℕ) (xs ys : Bytes)
    → take n xs ++ take (n - length xs) (drop n xs ++ ys) ≡ take n (xs ++ ys)
take_split zero xs ys = rw (zero-sub) refl
take_split (suc n) [] ys = rw (sub-zero) refl
take_split (suc n) (x ∷ xs) ys = rw (suc-sub-suc) (ap (◌∷◌ x) (take_split n xs ys))

drop_split : (n : ℕ) (xs ys : Bytes) → drop (n - length xs) (drop n xs ++ ys) ≡ drop n (xs ++ ys)
drop_split zero xs ys = rw (zero-sub) refl
drop_split (suc n) [] ys = rw (sub-zero) refl
drop_split (suc n) (x ∷ xs) ys = rw (suc-sub-suc) (drop_split n xs ys)

-- Nothing is left to take behind what was dropped.
take_dropped : (n : ℕ) (xs : Bytes) → take (n - length xs) (drop n xs) ≡ []
take_dropped zero xs = rw (zero-sub) refl
take_dropped (suc n) [] = rw (sub-zero) refl
take_dropped (suc n) (x ∷ xs) = rw (suc-sub-suc) (take_dropped n xs)

drop_none : (n : ℕ) (xs : Bytes) → take n xs ≡ [] → xs ≡ drop n xs
drop_none n xs h = sym (take-append-drop n xs) ∙ ap (λ ys. ys ++ drop n xs) h

-- All that came, in the order in which it came.
unfoldable pub joined : List Bytes → Bytes
joined [] = []
joined (bytes ∷ rest) = bytes ++ joined rest

module _ (json : Bytes → Bytes → Bytes → Bytes) (on_body : Bytes → HttpRequest → HttpRequest) where
  read-HandsOn :
      (c d : HttpConnection) (bytes : Bytes) (ns : List Notice)
      → c.state ≡ reading_body_stream
      → IsValid c.input_buffer
      → Fits c.input_buffer (length bytes)
      → bytes ≢ []
      → handle_read json on_body c (received bytes) false ≡ some (ns, d)
      → HandsOn c (contents c.input_buffer ++ bytes) ns d
  read-HandsOn c d bytes ns s v f k e =
      let (ns', d', e', h) = handle_read-HandsOn json on_body c bytes s v f k in
      let same : (ns', d') ≡ (ns, d) = some-injective _ _ (sym e' ∙ e) in
      subst (λ r. HandsOn c (contents c.input_buffer ++ bytes) r.0 r.1) same h

  -- However the body is cut up by the network: while a body is read into a valid buffer, in which
  -- nothing of it waits, and no response is sent, a sequence of
  -- read events hands on, in order, the first bytes that come, up to the length of the body, and
  -- leaves exactly the bytes behind them in the buffer.
  pub Reads-joined :
      {c e : HttpConnection} {pieces : List Bytes} {ns : List Notice}
      → Reads json on_body c pieces ns e
      → c.state ≡ reading_body_stream
      → IsValid c.input_buffer
      → take c.parser.remaining_body_length (contents c.input_buffer) ≡ []
      → (bodies ns ≡ take c.parser.remaining_body_length (contents c.input_buffer ++ joined pieces))
        × (contents e.input_buffer
            ≡ drop c.parser.remaining_body_length (contents c.input_buffer ++ joined pieces))
  unfolding bodies joined
  Reads-joined (finished c) s v w =
      rw (append-nil (contents c.input_buffer))
        (sym w, drop_none c.parser.remaining_body_length (contents c.input_buffer) w)
  Reads-joined (read c d e bytes rest ks ms f k eq more) s v w =
      let n = c.parser.remaining_body_length in
      let whole = contents c.input_buffer ++ bytes in
      let h = read-HandsOn c d bytes ks s v f k eq in
      let w' : take d.parser.remaining_body_length (contents d.input_buffer) ≡ [] =
        ap₂ (λ i xs. take i xs) h.remaining h.kept ∙ take_dropped n whole in
      let ih = Reads-joined more (h.same_state ∙ s) h.valid w' in
      (
        bodies-append ks ms
            ∙ ap₂ ◌++◌ h.handed (ih.0 ∙ ap₂ (λ i xs. take i (xs ++ joined rest)) h.remaining h.kept)
            ∙ take_split n whole (joined rest)
            ∙ ap (take n) (append_assoc (contents c.input_buffer) bytes (joined rest)),
        ih.1
            ∙ ap₂ (λ i xs. drop i (xs ++ joined rest)) h.remaining h.kept
            ∙ drop_split n whole (joined rest)
            ∙ ap (drop n) (append_assoc (contents c.input_buffer) bytes (joined rest)),
      )
