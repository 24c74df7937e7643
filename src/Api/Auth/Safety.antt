-- ===== src/Api/Auth/Safety.antt =====
-- What a request that passes the middleware has shown.
use zls.Base.{
  ℕ, ◌≤◌, ◌≡◌, ◌⊎◌, inl, inr, refl, ap, sym, ◌∙◌, arith, Bool, true, false, not, ◌||◌, ◌&&◌,
  Bool-cases, if-cases, List, [], ◌∷◌, ◌++◌, Option, none, some, if◌then◌else◌, ltb, leb, length,
  take, drop, take-append-drop,
}
use zls.Base.Bytes.{Bytes, codes, eq_bytes, eq_bytes_iff, is_empty}
use zls.Http.Request.{HttpRequest, get_query_param, get_header, method_to_string}
use zls.Api.Auth.{
  stoll, is_token, requires_auth, validate_bearer_token, validate_api_key, Decision, passes,
  forbidden, unauthorized, generate_signature, matches, verify_until, verify_presign_url, accept,
  check_api_key, check_bearer, handle,
}

abbrev pub In : Bytes → List Bytes → Type 0
In token [] = ⊥
In token (t ∷ ts) = (t ≡ token) ⊎ In token ts

is_token-In : (token : Bytes) (ts : List Bytes) → is_token token ts ≡ true → In token ts
unfolding is_token
is_token-In token [] h = absurd (cc h)
is_token-In token (t ∷ ts) h = elim (Bool-cases (eq_bytes t token)) [
  | inl e ↦ inl ((eq_bytes_iff t token).0 e)
  | inr e ↦ inr (is_token-In token ts (rw (e) at h))
]

-- The header says "Bearer " and then a token of the list.
abbrev pub IsBearer : Bytes → List Bytes → Type 0
IsBearer header tokens = (token : Bytes) × In token tokens × (header ≡ codes "Bearer " ++ token)

validate_bearer_token-IsBearer :
    (header : Bytes) (tokens : List Bytes)
    → validate_bearer_token header tokens ≡ true
    → IsBearer header tokens
unfolding validate_bearer_token
validate_bearer_token-IsBearer header tokens =
    if-cases (λ b. b ≡ true → IsBearer header tokens) (leb (length header) 7) (λ _ h. absurd (cc h))
      (λ _.
        if-cases (λ b. b ≡ true → IsBearer header tokens)
          (not (eq_bytes (take 7 header) (codes "Bearer "))) (λ _ h. absurd (cc h))
          (λ e h. (
            drop 7 header,
            is_token-In (drop 7 header) tokens h,
            sym (take-append-drop 7 header)
                ∙ ap (λ xs. xs ++ drop 7 header)
                    ((eq_bytes_iff (take 7 header) (codes "Bearer ")).0 (ground arith)),
          )))

module _ (hmac : Bytes → Bytes → Bytes) where
  -- A signature, made with a secret of the list, for this method and path and a time not yet over.
  abbrev pub IsSigned : ℕ → HttpRequest → Bytes → List Bytes → Type 0
  IsSigned now r sig secrets =
      (secret : Bytes) × (expires : ℕ) × In secret secrets
      × (now ≤ expires)
      × (sig ≡ generate_signature hmac secret (method_to_string r.method) r.path expires)

  matches-In :
      (secrets : List Bytes) (method path : Bytes) (expires : ℕ) (sig : Bytes)
      → matches hmac secrets method path expires sig ≡ true
      → (secret : Bytes) × In secret secrets
        × (sig ≡ generate_signature hmac secret method path expires)
  unfolding matches
  matches-In [] method path expires sig h = absurd (cc h)
  matches-In (secret ∷ secrets) method path expires sig h =
      elim (Bool-cases (eq_bytes (generate_signature hmac secret method path expires) sig)) [
        | inl e ↦ (
          secret,
          inl refl,
          sym ((eq_bytes_iff (generate_signature hmac secret method path expires) sig).0 e),
        )
        | inr e ↦
            (let (s, i, q) = matches-In secrets method path expires sig (rw (e) at h) in
              (s, inr i, q))
      ]

  verify_until-IsSigned :
      (now : ℕ) (r : HttpRequest) (sig method : Bytes) (secrets : List Bytes)
      (until : Option (Bool × ℕ))
      → verify_until hmac now r sig method secrets until ≡ true
      → IsSigned now r sig secrets
  unfolding verify_until
  verify_until-IsSigned now r sig method secrets none = λ h. absurd (cc h)
  verify_until-IsSigned now r sig method secrets (some (negative, expires)) =
      if-cases (λ b. b ≡ true → IsSigned now r sig secrets)
        ((negative && ltb 0 expires) || ltb expires now) (λ _ h. absurd (cc h))
        (λ e.
          if-cases (λ b. b ≡ true → IsSigned now r sig secrets)
            (not (eq_bytes (method_to_string r.method) method)) (λ _ h. absurd (cc h))
            (λ f h.
              let m : method_to_string r.method ≡ method =
                (eq_bytes_iff (method_to_string r.method) method).0 (ground arith) in
              let (secret, i, q) = matches-In secrets method r.path expires sig h in
              (
                secret,
                expires,
                i,
                ground arith,
                q ∙ ap (λ k. generate_signature hmac secret k r.path expires) (sym m),
              )))

  verify_presign_url-IsSigned :
      (now : ℕ) (r : HttpRequest) (secrets : List Bytes)
      → verify_presign_url hmac now r secrets ≡ true
      → IsSigned now r (get_query_param r (codes "sig")).0 secrets
  unfolding verify_presign_url
  verify_presign_url-IsSigned now r secrets =
      let sig = (get_query_param r (codes "sig")).0 in
      let expires = (get_query_param r (codes "expires")).0 in
      let method = (get_query_param r (codes "method")).0 in
      if-cases (λ b. b ≡ true → IsSigned now r sig secrets) (is_empty expires || is_empty sig)
        (λ _ h. absurd (cc h))
        (λ _.
          verify_until-IsSigned now r sig (if is_empty method then codes "GET" else method) secrets
            (stoll expires))

  -- What lets a request pass: `p` is the request `r` with its query parsed.
  abbrev pub IsAllowed : ℕ → List Bytes → HttpRequest → Type 0
  IsAllowed now tokens r =
      let p = (get_query_param r (codes "sig")).1 in
      (requires_auth r.path ≡ false)
      ⊎ (IsSigned now p (get_query_param p (codes "sig")).0 tokens
          ⊎ (IsBearer (get_header p (codes "Authorization")) tokens
              ⊎ In (get_header p (codes "X-API-Key")) tokens))

  abbrev pub Grants : ℕ → List Bytes → HttpRequest → Decision → Type 0
  Grants now tokens r (passes q) = IsAllowed now tokens r
  Grants now tokens r forbidden = Unit {0}
  Grants now tokens r unauthorized = Unit {0}

  check_bearer-Grants :
      (now : ℕ) (tokens : List Bytes) (r : HttpRequest)
      → Grants now tokens r (check_bearer hmac (get_query_param r (codes "sig")).1 tokens)
  unfolding check_bearer check_api_key validate_api_key accept
  check_bearer-Grants now tokens r =
      let p = (get_query_param r (codes "sig")).1 in
      let bearer = get_header p (codes "Authorization") in
      let key = get_header p (codes "X-API-Key") in
      if-cases (Grants now tokens r) (not (is_empty bearer) && validate_bearer_token bearer tokens)
        (λ e. inr (inr (inl (validate_bearer_token-IsBearer bearer tokens (ground arith)))))
        (λ _.
          if-cases (Grants now tokens r) (not (is_empty key) && is_token key tokens)
            (λ e. inr (inr (inr (is_token-In key tokens (ground arith))))) (λ _. record {}))

  -- A request that the middleware hands on is for one of the three public paths, or carries a
  -- signature for its method and path made with a secret of the list and not yet over, or the header
  -- "Authorization: Bearer" with a token of the list, or an API key of the list.
  pub handle-Grants :
      (now : ℕ) (tokens : List Bytes) (r : HttpRequest)
      → Grants now tokens r (handle hmac now tokens r)
  unfolding handle accept
  handle-Grants now tokens r =
      let p = (get_query_param r (codes "sig")).1 in
      if-cases (Grants now tokens r) (not (requires_auth r.path)) (λ e. inl (ground arith))
        (λ _.
          if-cases (Grants now tokens r) (not (is_empty (get_query_param r (codes "sig")).0))
            (λ _.
              if-cases (Grants now tokens r) (verify_presign_url hmac now p tokens)
                (λ e. inr (inl (verify_presign_url-IsSigned now p tokens e))) (λ _. record {}))
            (λ _. check_bearer-Grants now tokens r))
