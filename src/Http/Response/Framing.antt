-- ===== src/Http/Response/Framing.antt =====
-- The text of a response as a status line, fields and a body.
use zls.Base.{
  ℕ, zero, suc, ◌+◌, ◌-◌, ◌*◌, ◌/◌, ◌%◌, ◌^◌, ◌<◌, ◌≡◌, refl, sym, ap, ◌∙◌, arith, Bool, true,
  false, not, ◌&&◌, List, [], ◌∷◌, ◌++◌, none, some, if◌then◌else◌, ltb, length, Bool-cases, inl,
  inr, append_assoc, append-nil,
}
use zls.Base.Bytes.{
  Bytes, codes, cr, lf, is_empty, digits, decimal, is_digit, eq_bytes, parsed, from_chars,
}
use zls.Base.Dict.{lookup}
use zls.Http.Parser.Lines.{print_header}
use zls.Http.Parser.RoundTrip.{print_fields}
use zls.Http.Response.{HttpResponse, to_digits, to_string, to_text, write_headers, is_set, has_file}

decimal-append : (acc : ℕ) (xs ys : Bytes) → decimal acc (xs ++ ys) ≡ decimal (decimal acc xs) ys
unfolding decimal
decimal-append acc [] ys = refl
decimal-append acc (x ∷ xs) ys = decimal-append (acc * 10 + (x - b'0')) xs ys

decimal-to_digits : (fuel n : ℕ) → n < fuel → decimal 0 (to_digits fuel n) ≡ n
unfolding decimal to_digits
decimal-to_digits zero n h = absurd (omega arith)
decimal-to_digits (suc fuel) n h = elim (Bool-cases (ltb n 10)) [
  | inl e ↦ rw (e) (omega arith)
  | inr e ↦
      rw
        (
          e,
          decimal-append 0 (to_digits fuel (n / 10)) ((48 + n % 10) ∷ []),
          decimal-to_digits fuel (n / 10) (ground arith),
        )
        (omega arith)
]

-- A text of digits only.
AreDecimal : Bytes → Type 0
AreDecimal xs = (ys : Bytes) → digits (xs ++ ys) ≡ xs ++ digits ys

to_digits-AreDecimal : (fuel n : ℕ) → AreDecimal (to_digits fuel n)
unfolding to_digits digits is_digit AreDecimal
to_digits-AreDecimal zero n = λ ys. refl
to_digits-AreDecimal (suc fuel) n = elim (Bool-cases (ltb n 10)) [
  | inl e ↦ rw (e) (λ ys. ground arith)
  | inr e ↦ rw (e) (λ ys.
      let d : is_digit (48 + n % 10) ≡ true = ground arith in
      rw
        (
          append_assoc (to_digits fuel (n / 10)) ((48 + n % 10) ∷ []) ys,
          to_digits-AreDecimal fuel (n / 10) ((48 + n % 10) ∷ ys),
          append_assoc (to_digits fuel (n / 10)) ((48 + n % 10) ∷ []) (digits ys),
          d,
        )
        refl)
]

unfoldable pub status_line : HttpResponse → Bytes
status_line r = codes "HTTP/1.1 " ++ (to_string r.status_code ++ (codes " " ++ r.status_message))

unfoldable pub length_field : HttpResponse → List (Bytes × Bytes)
length_field r =
    if not (is_empty r.body) && not (is_set (codes "Content-Length") r.headers)
    then (codes "Content-Length", to_string (length r.body)) ∷ []
    else []

unfoldable pub connection_field : HttpResponse → List (Bytes × Bytes)
connection_field r =
    if not (is_set (codes "Connection") r.headers)
    then (codes "Connection", if r.keep_alive then codes "keep-alive" else codes "close") ∷ []
    else []

unfoldable pub payload : HttpResponse → Bytes
payload r = if not (has_file r) && not (is_empty r.body) then r.body else []

unfoldable pub fields : HttpResponse → List (Bytes × Bytes)
fields r = r.headers ++ (length_field r ++ connection_field r)

print_fields-append :
    (hs fs : List (Bytes × Bytes)) (rest : Bytes)
    → print_fields (hs ++ fs) rest ≡ write_headers hs ++ print_fields fs rest
unfolding print_fields write_headers print_header
print_fields-append [] fs rest = refl
print_fields-append ((key, value) ∷ hs) fs rest =
    append_assoc key (b':' ∷ b' ' ∷ value) (cr ∷ lf ∷ print_fields (hs ++ fs) rest)
    ∙ rw
        (
          print_fields-append hs fs rest,
          append_assoc key (b':' ∷ b' ' ∷ (value ++ (cr ∷ lf ∷ write_headers hs)))
              (print_fields fs rest),
          append_assoc value (cr ∷ lf ∷ write_headers hs) (print_fields fs rest),
        )
        refl

print_optional :
    (b : Bool) (f : Bytes × Bytes) (fs : List (Bytes × Bytes)) (rest : Bytes)
    → print_fields ((if b then f ∷ [] else []) ++ fs) rest
      ≡ (if b then print_header f ++ (cr ∷ lf ∷ []) else []) ++ print_fields fs rest
unfolding print_fields
print_optional true f fs rest =
    sym (append_assoc (print_header f) (cr ∷ lf ∷ []) (print_fields fs rest))
print_optional false f fs rest = refl

print_tail :
    (b c : Bool) (f g : Bytes × Bytes) (rest : Bytes)
    → print_fields ((if b then f ∷ [] else []) ++ (if c then g ∷ [] else [])) rest
      ≡ (if b then print_header f ++ (cr ∷ lf ∷ []) else [])
        ++ ((if c then print_header g ++ (cr ∷ lf ∷ []) else []) ++ (cr ∷ lf ∷ rest))
unfolding print_fields
print_tail b true f g rest =
    print_optional b f (g ∷ []) rest
    ∙ ap (λ xs. (if b then print_header f ++ (cr ∷ lf ∷ []) else []) ++ xs)
        (print_optional true g [] rest)
print_tail b false f g rest = print_optional b f [] rest

-- The text is the status line, the fields and the payload.
to_text-print_fields :
    (r : HttpResponse)
    → to_text r ≡ status_line r ++ (cr ∷ lf ∷ print_fields (fields r) (payload r))
unfolding to_text status_line fields length_field connection_field payload print_header
to_text-print_fields r =
    ap
      (λ xs.
        codes "HTTP/1.1 "
        ++ (to_string r.status_code
            ++ (codes " " ++ (r.status_message ++ (cr ∷ lf ∷ (write_headers r.headers ++ xs))))))
      (sym (
        print_tail (not (is_empty r.body) && not (is_set (codes "Content-Length") r.headers))
          (not (is_set (codes "Connection") r.headers))
          (codes "Content-Length", to_string (length r.body))
          (codes "Connection", if r.keep_alive then codes "keep-alive" else codes "close")
          (payload r)))
    ∙ rw
        (
          print_fields-append r.headers (length_field r ++ connection_field r) (payload r),
          append_assoc (to_string r.status_code) (codes " " ++ r.status_message) (
              cr
              ∷ lf
              ∷ (write_headers r.headers
                  ++ print_fields (length_field r ++ connection_field r) (payload r))),
        )
        refl

lookup-append :
    (k : Bytes) (hs fs : List (Bytes × Bytes))
    → lookup k hs ≡ none
    → lookup k (hs ++ fs) ≡ lookup k fs
unfolding lookup
lookup-append k [] fs h = refl
lookup-append k ((j, v) ∷ hs) fs h = elim (Bool-cases (eq_bytes j k)) [
  | inl e ↦ let g = rw (e) at h in absurd (cc g)
  | inr e ↦ rw (e) (lookup-append k hs fs (rw (e) at h))
]

to_string-digits : (n : ℕ) → digits (to_string n) ≡ to_string n
unfolding to_string AreDecimal digits
to_string-digits n = let e = to_digits-AreDecimal (suc n) n [] in rw (append-nil) at e

to_string-nonempty : (n : ℕ) → is_empty (to_string n) ≡ false
unfolding to_string to_digits is_empty
to_string-nonempty n = elim (Bool-cases (ltb n 10)) [
  | inl e ↦ rw (e) refl
  | inr e ↦ rw (e) (snoc (to_digits n (n / 10)))
]
  where
    snoc : (xs : Bytes) → is_empty (xs ++ ((48 + n % 10) ∷ [])) ≡ false
    snoc [] = refl
    snoc (x ∷ xs) = refl

-- `std::from_chars` reads the number back that `std::to_string` has written.
from_chars-to_string :
    (n : ℕ) → n < 2 ^ 64 → from_chars (to_string n) ≡ parsed n (length (to_string n))
unfolding from_chars
from_chars-to_string n h =
    let d : decimal 0 (to_string n) ≡ n =
      unfold to_string in decimal-to_digits (suc n) n (omega arith) in
    let t : ltb n (2 ^ 64) ≡ true = ground arith in
    rw (to_string-digits n, to_string-nonempty n, d, t) refl

is_set-none : (k : Bytes) (hs : List (Bytes × Bytes)) → lookup k hs ≡ none → is_set k hs ≡ false
unfolding is_set
is_set-none k hs h = rw (h, is_set) refl

-- A response with a body and no file, whose Content-Length nobody has set, is written as a status
-- line, the fields and the body; the fields give a Content-Length, and a reader of numbers finds in it
-- the length of the body.
pub to_text-framing :
    (r : HttpResponse)
    → has_file r ≡ false
    → is_empty r.body ≡ false
    → lookup (codes "Content-Length") r.headers ≡ none
    → length r.body < 2 ^ 64
    → (to_text r ≡ status_line r ++ (cr ∷ lf ∷ print_fields (fields r) r.body))
      × (lookup (codes "Content-Length") (fields r) ≡ some (to_string (length r.body)))
      × (from_chars (to_string (length r.body))
          ≡ parsed (length r.body) (length (to_string (length r.body))))
unfolding lookup eq_bytes
to_text-framing r f b k h =
    let p : payload r ≡ r.body = unfold payload in rw (f, b) refl in
    let c : is_set (codes "Content-Length") r.headers ≡ false =
      is_set-none (codes "Content-Length") r.headers k in
    let q : length_field r ≡ (codes "Content-Length", to_string (length r.body)) ∷ [] =
      unfold length_field in rw (b, c) refl in
    (
      to_text-print_fields r ∙ ap (λ xs. status_line r ++ (cr ∷ lf ∷ print_fields (fields r) xs)) p,
      unfold fields in
          lookup-append (codes "Content-Length") r.headers (length_field r ++ connection_field r) k
          ∙ ap (λ fs. lookup (codes "Content-Length") (fs ++ connection_field r)) q,
      from_chars-to_string (length r.body) h,
    )
