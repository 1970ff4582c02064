-- ===== src/Auth/Csrf.antt =====
-- When a request passes the CSRF check.
use text.Mathlib.Text.{◌==◌ as str_eq}
use text.Mathlib.TextEquality.{eq_iff}
use vector_doc_qa.Prelude.{
  String, ◌≡◌, refl, Bool, true, false, ◌&&◌, ◌||◌, not, Option, none, some, arith,
}
use vector_doc_qa.Errors.{is_ok}
use vector_doc_qa.Auth.Requests.{
  Request, is_truthy, is_ascii, is_safe_method, is_exempt_path, verify_csrf_query,
}

-- One text, in ASCII.
abbrev pub is_same : Option String → Option String → Bool
is_same (some a) (some b) = is_ascii a && is_ascii b && str_eq a b
is_same _ _ = false

-- A method that changes nothing, a path that asks for credentials, no cookie session, or the double
-- submit.
abbrev pub is_allowed : Request → Bool
is_allowed r =
    is_safe_method r.method
    || is_exempt_path r.path
    || not (is_truthy r.access_token_cookie)
    || (is_truthy r.csrf_token_cookie
        && is_truthy r.csrf_header
        && is_same r.csrf_token_cookie r.csrf_header)

-- A request passes the check exactly if its method changes nothing, its path is exempt, it has no
-- session cookie, or its cookie and header have one and the same text,
-- in ASCII and not empty.
pub verify_csrf_query-is_allowed : (r : Request) → is_ok (verify_csrf_query r) ≡ is_allowed r
unfolding verify_csrf_query
verify_csrf_query-is_allowed r = ground arith

-- A request with a session cookie, a method that may change something and a path that is not exempt
-- passes only if cookie and header have one and the same text, and it is not empty.
pub verify_csrf_query-double_submit :
    (r : Request)
    → is_safe_method r.method ≡ false
    → is_exempt_path r.path ≡ false
    → is_truthy r.access_token_cookie ≡ true
    → is_ok (verify_csrf_query r) ≡ true
    → (t : String) × (r.csrf_token_cookie ≡ some t)
      × (r.csrf_header ≡ some t)
      × (str_eq t "" ≡ false)
unfolding verify_csrf_query
verify_csrf_query-double_submit r unsafe guarded session passed =
    submitted r.csrf_token_cookie r.csrf_header (ground arith)
  where
    submitted :
        (cookie header : Option String)
        → (is_truthy cookie && is_truthy header && is_same cookie header) ≡ true
        → (t : String) × (cookie ≡ some t) × (header ≡ some t) × (str_eq t "" ≡ false)
    submitted none header h = ground arith
    submitted (some a) none h = ground arith
    submitted (some a) (some b) h = (b, ground (arith, eq_iff a b), refl, ground arith)
