-- ===== src/Auth/Security.antt =====
-- backend/app/core/security.py. The password context of passlib and the JWT codec of jose are
-- parameters; a token's payload is its subject and its expiry.
use vector_doc_qa.Prelude.{ℕ, ◌+◌, ◌*◌, String, Bool, Option, none, some, ltb, if◌then◌else◌}

pub record Payload : Type 0 where
  pub sub : Option String
  pub exp : Option ℕ

-- pwd_context and jwt, with the key and the algorithm of the settings inside.
pub record Crypto : Type 0 where
  pub verify : String → String → Bool
  pub hash : String → String
  pub jwt_encode : Payload → String
  -- None stands for JWTError.
  pub jwt_decode : String → Option Payload

unfoldable pub verify_password : Crypto → String → String → Bool
verify_password crypto plain_password hashed_password = crypto.verify plain_password hashed_password

unfoldable pub get_password_hash : Crypto → String → String
get_password_hash crypto password = crypto.hash password

-- `expires_delta` in seconds, `minutes` is `settings.access_token_expire_minutes`; with neither the
-- token does not expire.
unfoldable pub create_access_token : Crypto → ℕ → ℕ → String → Option ℕ → String
create_access_token crypto minutes now sub (some expires_delta) =
    crypto.jwt_encode (record { sub = some sub; exp = some (now + expires_delta) })
create_access_token crypto minutes now sub none =
    if ltb 0 minutes
    then crypto.jwt_encode (record { sub = some sub; exp = some (now + minutes * 60) })
    else crypto.jwt_encode (record { sub = some sub; exp = none })

unfoldable pub decode_access_token : Crypto → String → Option String
decode_access_token crypto token = elim (crypto.jwt_decode token) [
  | none ↦ none
  | some payload ↦ payload.sub
]
