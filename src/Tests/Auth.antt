-- ===== src/Tests/Auth.antt =====
-- Runs of the auth middleware.
use zls.Base.{List, [], ◌∷◌, ◌++◌}
use zls.Base.Bytes.{Bytes, codes}
use zls.Http.Request.{HttpRequest, new_request}
use zls.Api.Auth.{handle}
use zls.Api.Auth.Safety.{Grants, handle-Grants}

abbrev hmac : Bytes → Bytes → Bytes
hmac secret text = secret ++ text

abbrev tokens : List Bytes
tokens = codes "t0" ∷ codes "t1" ∷ []

-- A request with a token of the list.
abbrev with_token : HttpRequest
with_token = record new_request {
  path = codes "/buckets";
  headers = (codes "authorization", codes "Bearer t1") ∷ [];
}

handle-Grants_example : Grants hmac 5 tokens with_token (handle hmac 5 tokens with_token)
handle-Grants_example = handle-Grants hmac 5 tokens with_token
