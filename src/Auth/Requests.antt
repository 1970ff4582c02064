-- ===== src/Auth/Requests.antt =====
-- backend/app/services/auth_query_service.py: what a request shows of its user, and the
-- double-submit check of its CSRF token.
use text.Mathlib.Text.{◌==◌ as str_eq}
use vector_doc_qa.Prelude.{
  ℕ, String, Bool, false, ◌||◌, not, Option, none, some, if◌then◌else◌, any, ltb, ◌&&◌,
}
use vector_doc_qa.Errors.{Exc, Result, ok, err, http, message, ◌>>=◌}
use vector_doc_qa.Text.Write.{codes}
use vector_doc_qa.Models.{User}
use vector_doc_qa.Database.{Db}
use vector_doc_qa.Repositories.Users.{get_user_by_id}
use vector_doc_qa.Auth.Security.{Crypto, decode_access_token}

-- The parts of a request that the code reads; a cookie or header that is absent is none.
pub record Request : Type 0 where
  pub method : String
  pub path : String
  pub access_token_cookie : Option String
  pub refresh_token_cookie : Option String
  pub csrf_token_cookie : Option String
  pub csrf_header : Option String

-- The truth of an optional text: it is there and not empty.
abbrev pub is_truthy : Option String → Bool
is_truthy none = false
is_truthy (some s) = not (str_eq s "")

-- `a or b`
abbrev pub or_else : Option String → Option String → Option String
or_else a b = if is_truthy a then a else b

abbrev pub unauthorized : String → Exc
unauthorized text = http 401 (message text)

abbrev pub require {ℓ} : {A : Type ℓ} → Option A → Exc → Result A
require none e = err e
require (some a) e = ok a

-- `parse_int` is Python's `int`, with none for ValueError.
unfoldable pub get_authenticated_user_query :
    Crypto → (String → Option ℕ) → Request → Option String → Db → Result User
get_authenticated_user_query crypto parse_int request bearer_token db = do
  let token = or_else request.access_token_cookie bearer_token
  token ← require (if is_truthy token then token else none) (unauthorized "Not authenticated")
  user_id_str ←
      require (decode_access_token crypto token) (unauthorized "Invalid authentication credentials")
  user_id ← require (parse_int user_id_str) (unauthorized "Invalid authentication credentials")
  require (get_user_by_id user_id db) (unauthorized "User not found")

-- `body` is the refresh token of the request's body, if there is a body.
unfoldable pub get_refresh_token_from_request_query : Request → Option String → Option String
get_refresh_token_from_request_query request body = or_else request.refresh_token_cookie body

unfoldable pub get_csrf_token_query : Request → Result String
get_csrf_token_query request =
    require (if is_truthy request.csrf_token_cookie then request.csrf_token_cookie else none)
      (http 400 (message "CSRF cookie not found. Login or refresh first."))

unfoldable pub is_safe_method : String → Bool
is_safe_method method = str_eq method "GET" || str_eq method "HEAD" || str_eq method "OPTIONS"

-- _CSRF_EXEMPT_PATHS
unfoldable pub is_exempt_path : String → Bool
is_exempt_path path = str_eq path "/api/auth/login" || str_eq path "/api/auth/register"

abbrev pub is_ascii : String → Bool
is_ascii text = not (any (λ c. ltb 127 c) (codes text))

abbrev type_error : String → Exc
type_error text = Exc.other (message text)

-- secrets.compare_digest, which refuses texts that are not ASCII.
abbrev pub compare_digest : Option String → Option String → Result Bool
compare_digest (some a) (some b) =
    if is_ascii a && is_ascii b
    then ok (str_eq a b)
    else err (type_error "comparing strings with non-ASCII characters is not supported")
compare_digest _ _ = err (type_error "unsupported operand types(s) or combination of types")

abbrev pub forbidden : String → Exc
forbidden text = http 403 (message text)

unfoldable pub verify_csrf_query : Request → Result (Unit {0})
verify_csrf_query request =
    if is_safe_method request.method
    then ok tt
    else if is_exempt_path request.path
    then ok tt
    else if not (is_truthy request.access_token_cookie)
    then ok tt
    else if not (is_truthy request.csrf_token_cookie) || not (is_truthy request.csrf_header)
    then err (forbidden "CSRF token missing")
    else compare_digest request.csrf_token_cookie request.csrf_header >>= λ same.
        if not same then err (forbidden "CSRF token mismatch") else ok tt
