-- ===== src/Config.antt =====
-- The checks of the settings in backend/app/config.py. `str.lower`, `urlparse` and `unquote` are parameters.
pub mod Guarded
pub mod Chunked
use vector_doc_qa.Prelude.{
  ℕ, Bool, true, false, not, ◌&&◌, Option, none, some, String, List, [], ◌∷◌, ◌++◌, ltb, leb, any,
  map, length, is_empty, if◌then◌else◌,
}
use vector_doc_qa.Text.{Text, strip}
use vector_doc_qa.Text.Write.{codes}
use vector_doc_qa.Files.{same_text, starts_with}

-- Python's integers.
pub data ℤ : Type 0 where
  pos negsuc : ℕ → ℤ

abbrev is_positive : ℤ → Bool
is_positive (pos n) = ltb 0 n
is_positive (negsuc n) = false

abbrev is_negative : ℤ → Bool
is_negative (pos n) = false
is_negative (negsuc n) = true

-- `bound < i`
abbrev is_above : ℕ → ℤ → Bool
is_above bound (pos n) = ltb bound n
is_above bound (negsuc n) = false

-- `i < j`
abbrev is_less : ℤ → ℤ → Bool
is_less (pos m) (pos n) = ltb m n
is_less (pos m) (negsuc n) = false
is_less (negsuc m) (pos n) = true
is_less (negsuc m) (negsuc n) = ltb n m

-- What is read of a URL that is parsed.
pub record ParsedUrl : Type 0 where
  pub scheme : Text
  pub hostname : Option Text
  pub path : Text
  pub username : Option Text
  pub password : Option Text

-- `urlparse` has none for ValueError.
pub record Library : Type 0 where
  pub lower : Text → Text
  pub urlparse : Text → Option ParsedUrl
  pub unquote : Text → Text

-- The settings that are checked.
pub record Settings : Type 0 where
  pub app_env : Text
  pub database_url : Text
  pub secret_key : Text
  pub chunk_size : ℤ
  pub chunk_overlap : ℤ

-- The ValueError raised, with the messages that it joins.
pub data ConfigError : Type 0 where
  invalid_chunking unsafe_runtime : List String → ConfigError
  -- from urlparse
  invalid_url : ConfigError

abbrev pub max_chunk_size : ℕ
max_chunk_size = 10000

abbrev pub max_chunk_overlap : ℕ
max_chunk_overlap = 2000

abbrev pub among : Text → List Text → Bool
among text texts = any (same_text text) texts

abbrev non_strict_app_envs : List Text
non_strict_app_envs = codes "local" ∷ codes "development" ∷ codes "dev" ∷ codes "test" ∷ []

abbrev pub forbidden_secret_key_values : List Text
forbidden_secret_key_values =
    codes "dev-secret-key-change-in-production"
    ∷ codes "changeme"
    ∷ codes "change-me"
    ∷ codes "replace-me"
    ∷ codes "your-secret-key"
    ∷ []

abbrev pub forbidden_db_hosts : List Text
forbidden_db_hosts = codes "localhost" ∷ codes "127.0.0.1" ∷ codes "::1" ∷ []

abbrev pub forbidden_db_names : List Text
forbidden_db_names = codes "document_intelligence" ∷ []

abbrev same_pair : Text × Text → Text × Text → Bool
same_pair a b = same_text a.0 b.0 && same_text a.1 b.1

abbrev pub forbidden_db_credentials : List (Text × Text)
forbidden_db_credentials =
    (codes "postgres", codes "postgres") ∷ (codes "postgres", codes "password") ∷ []

-- `"<" in text and ">" in text`
abbrev pub has_placeholder : Text → Bool
has_placeholder text =
    any (λ c. same_text (c ∷ []) (b'<' ∷ [])) text && any (λ c. same_text (c ∷ []) (b'>' ∷ [])) text

-- `if test: errors.append(message)`, for each test.
unfoldable pub errors_of : List (Bool × String) → List String
errors_of [] = []
errors_of (test ∷ tests) = let rest = errors_of tests in if test.0 then test.1 ∷ rest else rest

abbrev or_empty : Option Text → Text
or_empty none = []
or_empty (some text) = text

-- text.lstrip("/")
abbrev strip_slashes : Text → Text
strip_slashes [] = []
strip_slashes (c ∷ text) =
    let rest = strip_slashes text in if same_text (c ∷ []) (b'/' ∷ []) then rest else c ∷ text

abbrev pub chunk_tests : Settings → List (Bool × String)
chunk_tests s =
    (not (is_positive s.chunk_size), "CHUNK_SIZE must be greater than 0")
    ∷ (is_above max_chunk_size s.chunk_size, "CHUNK_SIZE must be less than or equal to 10000")
    ∷ (is_negative s.chunk_overlap, "CHUNK_OVERLAP must be greater than or equal to 0")
    ∷ (
      is_above max_chunk_overlap s.chunk_overlap,
      "CHUNK_OVERLAP must be less than or equal to 2000",
    )
    ∷ (not (is_less s.chunk_overlap s.chunk_size), "CHUNK_OVERLAP must be smaller than CHUNK_SIZE")
    ∷ []

module _ (lib : Library) where
  unfoldable pub is_strict_environment : Settings → Bool
  unfolding strip same_text
  is_strict_environment s = not (among (lib.lower (strip s.app_env)) non_strict_app_envs)

  abbrev pub db_host : ParsedUrl → Text
  db_host url = lib.lower (strip (or_empty url.hostname))

  abbrev pub db_name : ParsedUrl → Text
  db_name url = lib.lower (strip_slashes url.path)

  abbrev pub db_credential : Option Text → Text
  db_credential part = lib.lower (strip (lib.unquote (or_empty part)))

  abbrev pub has_forbidden_credentials : ParsedUrl → Bool
  has_forbidden_credentials url =
      any (same_pair (db_credential url.username, db_credential url.password))
        forbidden_db_credentials

  unfoldable pub security_tests : Settings → ParsedUrl → List (Bool × String)
  unfolding strip same_text starts_with
  security_tests s url =
      let secret_key = strip s.secret_key in
      (
        ltb (length secret_key) 32,
        "SECRET_KEY must be at least 32 characters in strict environments",
      )
      ∷ (
        among (lib.lower secret_key) forbidden_secret_key_values,
        "SECRET_KEY uses a forbidden dev/default value in strict environments",
      )
      ∷ (
        has_placeholder secret_key,
        "SECRET_KEY contains placeholder syntax; set a real secret value",
      )
      ∷ (
        not (starts_with url.scheme (codes "postgresql")),
        "DATABASE_URL must use a PostgreSQL URL in strict environments",
      )
      ∷ (
        among (db_host url) forbidden_db_hosts,
        "DATABASE_URL must not use localhost/loopback in strict mode",
      )
      ∷ (
        among (db_name url) forbidden_db_names,
        "DATABASE_URL must not use the default dev database name in strict mode",
      )
      ∷ (
        has_forbidden_credentials url,
        "DATABASE_URL must not use default dev credentials in strict mode",
      )
      ∷ (
        has_placeholder s.database_url,
        "DATABASE_URL contains placeholder syntax; set real connection values",
      )
      ∷ []

  abbrev pub security_error : Settings → Option ParsedUrl → Option ConfigError
  security_error s none = some invalid_url
  security_error s (some url) =
      let errors = errors_of (security_tests s url) in
      if not (is_empty errors) then some (unsafe_runtime errors) else none

  -- none if the settings are accepted.
  unfoldable pub validate_runtime_security_guardrails : Settings → Option ConfigError
  unfolding is_strict_environment
  validate_runtime_security_guardrails s =
      let chunk_errors = errors_of (chunk_tests s) in
      if not (is_empty chunk_errors)
      then some (invalid_chunking chunk_errors)
      else if not (is_strict_environment s)
      then none
      else security_error s (lib.urlparse s.database_url)
