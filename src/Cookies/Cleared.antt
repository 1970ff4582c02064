-- ===== src/Cookies/Cleared.antt =====
-- What the cookies of a session promise, and that a logout takes all of them back.
use text.Mathlib.Text.{◌==◌ as str_eq}
use vector_doc_qa.Prelude.{
  ◌≡◌, String, Bool, true, false, ◌&&◌, ◌||◌, none, some, List, All, any, ◌==◌, arith, Bool-cases,
  inl, inr,
}
use vector_doc_qa.Cookies.{
  SameSite, same_site_none, same_site_lax, Cookie, Settings, is_production, set_auth_cookies,
  clear_auth_cookies,
}

abbrev is_expired : Cookie → Bool
is_expired c = elim c.max_age [ none ↦ false | some n ↦ n == 0 ]

-- A browser replaces a cookie by one of the same name and path.
abbrev pub is_cleared_by : List Cookie → Cookie → Bool
is_cleared_by cookies c =
    any (λ (d : Cookie). str_eq d.key c.key && str_eq d.path c.path && is_expired d) cookies

abbrev is_lax : SameSite → Bool
is_lax same_site_none = false
is_lax same_site_lax = true

-- Scripts cannot read it unless it is the CSRF token, and it is sent across sites only by HTTPS.
abbrev pub is_guarded : Cookie → Bool
is_guarded c = (c.httponly || str_eq c.key "csrf_token") && (is_lax c.samesite || c.secure)

-- Each cookie that is set is guarded: scripts cannot read it unless it is the CSRF token, and it is
-- sent across sites by HTTPS only; and the cookies that a logout sets expire it, by its name and path.
pub set_auth_cookies-is_cleared_by :
    (settings : Settings) (access_token refresh_token csrf_value : String)
    → All
        (λ c. (is_guarded c ≡ true) × (is_cleared_by (clear_auth_cookies settings) c ≡ true))
        (set_auth_cookies settings access_token refresh_token csrf_value).0
unfolding set_auth_cookies clear_auth_cookies
set_auth_cookies-is_cleared_by settings access_token refresh_token csrf_value =
    elim (Bool-cases (is_production settings)) [
      | inl prod ↦ ground (arith, prod)
      | inr dev ↦ ground (arith, dev)
    ]
