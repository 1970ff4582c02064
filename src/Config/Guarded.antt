-- ===== src/Config/Guarded.antt =====
-- What settings that are accepted guarantee.
use vector_doc_qa.Prelude.{
  Option, none, some, ℕ, ◌≤◌, ◌<◌, ◌≡◌, refl, Bool, true, false, not, List, [], ◌∷◌, is_empty, ltb,
  if◌then◌else◌, length, String, arith,
}
use vector_doc_qa.Text.{strip}
use vector_doc_qa.Text.Write.{codes}
use vector_doc_qa.Files.{starts_with}
use vector_doc_qa.Config.{
  ℤ, pos, negsuc, is_positive, is_negative, is_above, is_less, invalid_chunking, unsafe_runtime,
  Library, Settings, max_chunk_size, max_chunk_overlap, among, has_placeholder, errors_of,
  forbidden_secret_key_values, forbidden_db_hosts, forbidden_db_names, db_host, db_name,
  has_forbidden_credentials, chunk_tests, is_strict_environment, security_tests, security_error,
  ConfigError, ParsedUrl, validate_runtime_security_guardrails,
}

-- The chunks are positive, bounded and longer than their overlap.
pub record IsChunkable (s : Settings) : Type 0 where
  pub size : ℕ
  pub overlap : ℕ
  pub chunk_size : s.chunk_size ≡ pos size
  pub chunk_overlap : s.chunk_overlap ≡ pos overlap
  pub positive : 0 < size
  pub bounded : size ≤ max_chunk_size
  pub overlap_bounded : overlap ≤ max_chunk_overlap
  pub overlap_smaller : overlap < size

-- Neither the key nor the database is one of the defaults.
pub record IsSecure (lib : Library) (s : Settings) : Type 0 where
  pub key_length : 32 ≤ length (strip s.secret_key)
  pub key_value : among (lib.lower (strip s.secret_key)) forbidden_secret_key_values ≡ false
  pub key_filled : has_placeholder (strip s.secret_key) ≡ false
  pub url : ParsedUrl
  pub parsed : lib.urlparse s.database_url ≡ some url
  pub scheme : starts_with url.scheme (codes "postgresql") ≡ true
  pub host : among (db_host lib url) forbidden_db_hosts ≡ false
  pub name : among (db_name lib url) forbidden_db_names ≡ false
  pub credentials : has_forbidden_credentials lib url ≡ false
  pub url_filled : has_placeholder s.database_url ≡ false

errors_of-nil :
    (test : Bool × String) (tests : List (Bool × String))
    → errors_of (test ∷ tests) ≡ []
    → (test.0 ≡ false) × (errors_of tests ≡ [])
unfolding errors_of
errors_of-nil (true, message) tests h = absurd (ground arith)
errors_of-nil (false, message) tests h = (refl, h)

not-false : (b : Bool) → not b ≡ false → b ≡ true
not-false true h = refl
not-false false h = absurd (ground arith)

ltb-false : (m n : ℕ) → ltb m n ≡ false → n ≤ m
ltb-false m n h = ground (arith, h)

IsChunkable-bounds :
    (s : Settings) (size overlap : ℤ)
    → s.chunk_size ≡ size
    → s.chunk_overlap ≡ overlap
    → is_positive size ≡ true
    → is_above max_chunk_size size ≡ false
    → is_negative overlap ≡ false
    → is_above max_chunk_overlap overlap ≡ false
    → is_less overlap size ≡ true
    → IsChunkable s
IsChunkable-bounds s (pos m) (pos n) p q a b c d e = record {
  size = m;
  overlap = n;
  chunk_size = p;
  chunk_overlap = q;
  positive = ground (arith, a);
  bounded = ltb-false max_chunk_size m b;
  overlap_bounded = ltb-false max_chunk_overlap n d;
  overlap_smaller = ground (arith, e);
}
IsChunkable-bounds s (pos m) (negsuc n) p q a b c d e = absurd (ground arith)
IsChunkable-bounds s (negsuc m) overlap p q a b c d e = absurd (ground arith)

chunk_tests-IsChunkable : (s : Settings) → errors_of (chunk_tests s) ≡ [] → IsChunkable s
chunk_tests-IsChunkable s h =
    let h1 = errors_of-nil _ _ h in
    let h2 = errors_of-nil _ _ h1.1 in
    let h3 = errors_of-nil _ _ h2.1 in
    let h4 = errors_of-nil _ _ h3.1 in
    IsChunkable-bounds s s.chunk_size s.chunk_overlap refl refl (not-false _ h1.0) h2.0 h3.0 h4.0
      (not-false _ (errors_of-nil _ _ h4.1).0)

screened-nil :
    (chunks : List String) (strict : Bool) (error : Option ConfigError)
    → (if not (is_empty chunks)
        then some (invalid_chunking chunks)
        else if not strict
        then none
        else error)
      ≡ none
    → chunks ≡ []
screened-nil [] strict error h = refl
screened-nil (x ∷ xs) strict error h = absurd (ground arith)

screened-none :
    (chunks : List String) (strict : Bool) (error : Option ConfigError)
    → (if not (is_empty chunks)
        then some (invalid_chunking chunks)
        else if not strict
        then none
        else error)
      ≡ none
    → strict ≡ true
    → error ≡ none
screened-none [] strict error h k = ground (arith, h, k)
screened-none (x ∷ xs) strict error h k = absurd (ground arith)

module _ (lib : Library) where
  security_tests-IsSecure :
      (s : Settings) (url : ParsedUrl)
      → lib.urlparse s.database_url ≡ some url
      → errors_of (security_tests lib s url) ≡ []
      → IsSecure lib s
  unfolding security_tests strip starts_with
  security_tests-IsSecure s url parsed h =
      let h1 = errors_of-nil _ _ h in
      let h2 = errors_of-nil _ _ h1.1 in
      let h3 = errors_of-nil _ _ h2.1 in
      let h4 = errors_of-nil _ _ h3.1 in
      let h5 = errors_of-nil _ _ h4.1 in
      let h6 = errors_of-nil _ _ h5.1 in
      let h7 = errors_of-nil _ _ h6.1 in
      record {
        url = url;
        parsed = parsed;
        key_length = ltb-false _ _ (h1.0);
        key_value = h2.0;
        key_filled = h3.0;
        scheme = not-false _ h4.0;
        host = h5.0;
        name = h6.0;
        credentials = h7.0;
        url_filled = (errors_of-nil _ _ h7.1).0;
      }

  nil_errors :
      (errors : List String)
      → (if not (is_empty errors) then some (unsafe_runtime errors) else none) ≡ none
      → errors ≡ []
  nil_errors [] h = refl
  nil_errors (x ∷ xs) h = absurd (ground arith)

  security_error-IsSecure :
      (s : Settings) (url : Option ParsedUrl)
      → lib.urlparse s.database_url ≡ url
      → security_error lib s url ≡ none
      → IsSecure lib s
  security_error-IsSecure s none parsed h = absurd (ground arith)
  security_error-IsSecure s (some url) parsed h =
      security_tests-IsSecure s url parsed (nil_errors (errors_of (security_tests lib s url)) h)

  pub validate_runtime_security_guardrails-IsChunkable :
      (s : Settings) → validate_runtime_security_guardrails lib s ≡ none → IsChunkable s
  unfolding validate_runtime_security_guardrails
  validate_runtime_security_guardrails-IsChunkable s h = chunk_tests-IsChunkable s (
      screened-nil (errors_of (chunk_tests s)) (is_strict_environment lib s)
        (security_error lib s (lib.urlparse s.database_url)) h)

  -- Settings that the validator accepts in a strict environment have a positive chunk size and a
  -- smaller overlap, each within its maximum, a key of at least 32 characters that is not one of the
  -- defaults, and a
  -- PostgreSQL URL that can be parsed and names none of the default hosts, names and credentials;
  -- neither the key nor the URL still has both brackets of a placeholder.
  pub validate_runtime_security_guardrails-IsSecure :
      (s : Settings)
      → validate_runtime_security_guardrails lib s ≡ none
      → is_strict_environment lib s ≡ true
      → IsChunkable s × IsSecure lib s
  unfolding validate_runtime_security_guardrails
  validate_runtime_security_guardrails-IsSecure s h strict = (
    validate_runtime_security_guardrails-IsChunkable s h,
    security_error-IsSecure s (lib.urlparse s.database_url) refl (
        screened-none (errors_of (chunk_tests s)) (is_strict_environment lib s)
          (security_error lib s (lib.urlparse s.database_url)) h strict),
  )
