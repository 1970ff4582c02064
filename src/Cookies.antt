-- ===== src/Cookies.antt =====
-- backend/app/utils/cookies.py: the calls of `response.set_cookie`, in order. The random value of
-- the CSRF cookie is a parameter.
pub mod Cleared
use vector_doc_qa.Prelude.{
  ℕ, ◌*◌, ◌≡◌, refl, ◌⊎◌, inl, inr, String, Bool, true, false, Option, none, some, List, [], ◌∷◌,
  All, ◌==◌, if◌then◌else◌, arith, Bool-cases,
}
use vector_doc_qa.Text.{Text}
use vector_doc_qa.Text.Write.{codes}
use vector_doc_qa.Files.{starts_with}

pub data SameSite : Type 0 where
  same_site_none same_site_lax : SameSite

-- A cookie without a maximal age ends with the browser's session.
pub record Cookie : Type 0 where
  pub key : String
  pub value : String
  pub max_age : Option ℕ
  pub httponly : Bool
  pub secure : Bool
  pub samesite : SameSite
  pub path : String

-- The settings that are read.
pub record Settings : Type 0 where
  pub frontend_url : Text
  pub access_token_expire_minutes : ℕ
  pub refresh_token_expire_days : ℕ

unfoldable pub is_production : Settings → Bool
unfolding starts_with
is_production settings = starts_with settings.frontend_url (codes "https://")

abbrev samesite_of : Bool → SameSite
samesite_of prod = if prod then same_site_none else same_site_lax

-- `n or None`
abbrev or_none : ℕ → Option ℕ
or_none n = if n == 0 then none else some n

module _ (settings : Settings) where
  abbrev cookie : String → String → Option ℕ → Bool → String → Cookie
  cookie key value max_age httponly path = record {
    key = key;
    value = value;
    max_age = max_age;
    httponly = httponly;
    secure = is_production settings;
    samesite = samesite_of (is_production settings);
    path = path;
  }

  abbrev pub expired : String → Bool → String → Cookie
  expired key httponly path = cookie key "" (some 0) httponly path

  abbrev access_max_age : Option ℕ
  access_max_age = or_none (settings.access_token_expire_minutes * 60)

  abbrev refresh_max_age : ℕ
  refresh_max_age = settings.refresh_token_expire_days * 86400

  -- The CSRF value comes back too.
  unfoldable pub set_auth_cookies : String → String → String → List Cookie × String
  unfolding is_production
  set_auth_cookies access_token refresh_token csrf_value = (
    expired "access_token" true "/"
        ∷ expired "refresh_token" true "/"
        ∷ cookie "access_token" access_token access_max_age true "/api/"
        ∷ cookie "refresh_token" refresh_token (some refresh_max_age) true "/api/auth/"
        ∷ cookie "csrf_token" csrf_value (some refresh_max_age) false "/"
        ∷ [],
    csrf_value,
  )

  unfoldable pub clear_auth_cookies : List Cookie
  unfolding is_production
  clear_auth_cookies =
      expired "access_token" true "/"
      ∷ expired "refresh_token" true "/"
      ∷ expired "access_token" true "/api/"
      ∷ expired "refresh_token" true "/api/auth/"
      ∷ expired "csrf_token" false "/"
      ∷ []
