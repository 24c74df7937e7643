-- ===== src/Api/Auth.antt =====
-- src/api/middleware/auth_middleware.cpp, `AuthMiddleware::Handle`, with `VerifyPresignUrl` and
-- `GenerateSignature` of src/api/handlers/presign_handlers.cpp. HMAC-SHA256 is the parameter `hmac`, the
-- clock is the parameter `now`. The handler that is called next is told the request that it gets.
pub mod Safety
use zls.Base.{
  ℕ, ◌+◌, ◌-◌, ◌^◌, Bool, true, false, not, ◌||◌, ◌&&◌, List, [], ◌∷◌, ◌++◌, Option, none, some,
  if◌then◌else◌, ltb, leb, ◌==◌, length, take, drop,
}
use zls.Base.Bytes.{Bytes, codes, eq_bytes, is_empty, digits, decimal, starts_with}
use zls.Http.Request.{HttpRequest, get_query_param, get_header, add_header, method_to_string}
use zls.Http.Response.{to_string}

-- `std::isspace` in the "C" locale.
unfoldable pub is_space : ℕ → Bool
is_space c = (c == 32) || (leb 9 c && leb c 13)

unfoldable pub skip_spaces : Bytes → Bytes
skip_spaces [] = []
skip_spaces (c ∷ cs) = if is_space c then skip_spaces cs else c ∷ cs

-- `std::stoll`: spaces, a sign, digits; what follows them is not looked at. The result is whether the
-- number is negative, and its magnitude; `none` is an exception.
unfoldable pub bounded : Bool → ℕ → Bytes → Option (Bool × ℕ)
bounded negative limit s =
    if is_empty (digits s) || ltb limit (decimal 0 (digits s))
    then none
    else some (negative, decimal 0 (digits s))

unfoldable pub signed : Bytes → Option (Bool × ℕ)
signed [] = none
signed (c ∷ cs) =
    if c == b'-'
    then bounded true (2 ^ 63) cs
    else if c == b'+'
    then bounded false (2 ^ 63 - 1) cs
    else bounded false (2 ^ 63 - 1) (c ∷ cs)

unfoldable pub stoll : Bytes → Option (Bool × ℕ)
stoll s = signed (skip_spaces s)

-- `std::find` in the list of tokens.
unfoldable pub is_token : Bytes → List Bytes → Bool
is_token token [] = false
is_token token (t ∷ ts) = eq_bytes t token || is_token token ts

unfoldable pub requires_auth : Bytes → Bool
requires_auth path = not (
    eq_bytes path (codes "/healthz")
    || (eq_bytes path (codes "/readyz") || eq_bytes path (codes "/metrics")))

unfoldable pub validate_bearer_token : Bytes → List Bytes → Bool
validate_bearer_token auth_header tokens =
    if leb (length auth_header) 7
    then false
    else if not (eq_bytes (take 7 auth_header) (codes "Bearer "))
    then false
    else is_token (drop 7 auth_header) tokens

unfoldable pub validate_api_key : Bytes → List Bytes → Bool
validate_api_key api_key tokens = is_token api_key tokens

-- What becomes of a request.
pub data Decision : Type 0 where
  passes : HttpRequest → Decision
  forbidden : Decision
  unauthorized : Decision

module _ (hmac : Bytes → Bytes → Bytes) where
  unfoldable pub generate_signature : Bytes → Bytes → Bytes → ℕ → Bytes
  generate_signature secret method path expires =
      hmac secret (method ++ (10 ∷ (path ++ (10 ∷ to_string expires))))

  unfoldable pub matches : List Bytes → Bytes → Bytes → ℕ → Bytes → Bool
  matches [] method path expires sig = false
  matches (secret ∷ secrets) method path expires sig =
      eq_bytes (generate_signature secret method path expires) sig
      || matches secrets method path expires sig

  -- With the time of the URL's end; one before 1970 is over.
  unfoldable pub verify_until :
      ℕ → HttpRequest → Bytes → Bytes → List Bytes → Option (Bool × ℕ) → Bool
  verify_until now r sig method secrets none = false
  verify_until now r sig method secrets (some (negative, expires)) =
      if (negative && ltb 0 expires) || ltb expires now
      then false
      else if not (eq_bytes (method_to_string r.method) method)
      then false
      else matches secrets method r.path expires sig

  unfoldable pub verify_presign_url : ℕ → HttpRequest → List Bytes → Bool
  verify_presign_url now r secrets =
      let expires = (get_query_param r (codes "expires")).0 in
      let sig = (get_query_param r (codes "sig")).0 in
      let method = (get_query_param r (codes "method")).0 in
      if is_empty expires || is_empty sig
      then false
      else verify_until now r sig (if is_empty method then codes "GET" else method) secrets
          (stoll expires)

  unfoldable pub accept : HttpRequest → Bytes → Decision
  accept r method = passes (add_header r (codes "X-Auth-Method") method)

  unfoldable pub check_api_key : HttpRequest → List Bytes → Decision
  check_api_key r tokens =
      let api_key = get_header r (codes "X-API-Key") in
      if not (is_empty api_key) && validate_api_key api_key tokens
      then accept r (codes "apikey")
      else unauthorized

  unfoldable pub check_bearer : HttpRequest → List Bytes → Decision
  check_bearer r tokens =
      let auth_header = get_header r (codes "Authorization") in
      if not (is_empty auth_header) && validate_bearer_token auth_header tokens
      then accept r (codes "bearer")
      else check_api_key r tokens

  unfoldable pub handle : ℕ → List Bytes → HttpRequest → Decision
  handle now tokens r =
      if not (requires_auth r.path)
      then passes r
      else (let (sig, parsed) = get_query_param r (codes "sig") in
          if not (is_empty sig)
          then if verify_presign_url now parsed tokens
            then accept parsed (codes "presign")
            else forbidden
          else check_bearer parsed tokens)
