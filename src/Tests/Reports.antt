-- ===== src/Tests/Reports.antt =====
-- The evaluation and the cookies at concrete inputs.
use vector_doc_qa.Prelude.{
  ◌*◌, ◌/◌, ◌≡◌, refl, true, false, none, some, List, [], ◌∷◌, leb, All, arith,
}
use vector_doc_qa.Text.Write.{codes}
use vector_doc_qa.Config.{
  ℤ, pos, negsuc, ParsedUrl, Library, ConfigError, invalid_chunking, unsafe_runtime,
  is_strict_environment, validate_runtime_security_guardrails,
}
use vector_doc_qa.Config.{Settings as Config}
use vector_doc_qa.Config.Chunked.{IsChunked, validate_runtime_security_guardrails-IsChunked}
use vector_doc_qa.Config.Guarded.{
  IsChunkable, IsSecure, validate_runtime_security_guardrails-IsSecure,
}
use vector_doc_qa.Cookies.{Settings, set_auth_cookies, clear_auth_cookies}
use vector_doc_qa.Cookies.Cleared.{is_guarded, is_cleared_by, set_auth_cookies-is_cleared_by}
use vector_doc_qa.MiniEval.Thresholds.{Rates, Band, ScoredCase, candidates, recommend_threshold}
use vector_doc_qa.MiniEval.Meeting.{IsOrder}
use vector_doc_qa.MiniEval.Recommended.{IsRecommended, recommend_threshold-IsRecommended}
use vector_doc_qa.MiniEval.Metrics.{occurs_in}

abbrev settings : Settings
settings = record {
  frontend_url = codes "https://quaero.dev";
  access_token_expire_minutes = 30;
  refresh_token_expire_days = 7;
}

set_auth_cookies-is_cleared_by_example :
    All
      (λ c. (is_guarded c ≡ true) × (is_cleared_by (clear_auth_cookies settings) c ≡ true))
      (set_auth_cookies settings "a" "r" "c").0
set_auth_cookies-is_cleared_by_example = set_auth_cookies-is_cleared_by settings "a" "r" "c"

-- Rates in ten-thousandths.
abbrev rates : Rates
rates = record { le = leb; zero = 0; ratio = λ part whole. part * 10000 / whole; round = λ x. x }

order : IsOrder rates
order = record { trans = λ a b c h k. ground (arith, h, k); total = λ a b. ground arith }

-- Four answers with their similarities, of which the third is wrong.
abbrev scored : List ScoredCase
scored = (9000, true) ∷ (8000, true) ∷ (6000, false) ∷ (5000, true) ∷ []

abbrev high_band : Band
high_band = record {
  threshold = 8000;
  target_met = true;
  stats = record { selected_cases = 2; positive_cases = 2; precision = 10000; coverage = 5000 };
}

recommends : recommend_threshold rates scored 9000 none ≡ some high_band
unfolding recommend_threshold
recommends = refl

recommend_threshold-IsRecommended_example :
    IsRecommended rates order scored 9000 (candidates rates scored none) high_band
recommend_threshold-IsRecommended_example =
    recommend_threshold-IsRecommended rates order scored 9000 none high_band recommends

occurs_in_test : occurs_in (codes "5M") (codes "about 5M.") ≡ true
unfolding occurs_in
occurs_in_test = refl

-- A library for which every URL is that of one server.
abbrev url_lib : Library
url_lib = record {
  lower = λ text. text;
  urlparse = λ text. some (record {
    scheme = codes "postgresql";
    hostname = some (codes "db.quaero.dev");
    path = codes "/quaero";
    username = some (codes "app");
    password = none;
  });
  unquote = λ text. text;
}

abbrev production : Config
production = record {
  app_env = codes "production";
  database_url = codes "postgresql://app@db.quaero.dev/quaero";
  secret_key = codes "0123456789abcdef0123456789abcdef";
  chunk_size = pos 1000;
  chunk_overlap = pos 50;
}

validate_runtime_security_guardrails-IsSecure_example :
    IsChunkable production × IsSecure url_lib production
unfolding validate_runtime_security_guardrails vector_doc_qa.Config.errors_of
    vector_doc_qa.Text.is_space vector_doc_qa.Config.security_tests
validate_runtime_security_guardrails-IsSecure_example =
    validate_runtime_security_guardrails-IsSecure url_lib production refl refl

validate_runtime_security_guardrails-IsChunked_example : IsChunked production (codes "One page.") []
unfolding validate_runtime_security_guardrails vector_doc_qa.Config.errors_of
    vector_doc_qa.Text.is_space vector_doc_qa.Config.security_tests
validate_runtime_security_guardrails-IsChunked_example =
    validate_runtime_security_guardrails-IsChunked url_lib production (codes "One page.") [] refl

-- No overlap is smaller than a chunk of -1 characters.
negative_chunks :
    validate_runtime_security_guardrails url_lib (record production { chunk_size = negsuc 0 })
    ≡ some (
        invalid_chunking (
          "CHUNK_SIZE must be greater than 0" ∷ "CHUNK_OVERLAP must be smaller than CHUNK_SIZE"
          ∷ []))
unfolding validate_runtime_security_guardrails vector_doc_qa.Config.errors_of
negative_chunks = refl

short_key :
    validate_runtime_security_guardrails url_lib (record production { secret_key = codes "<key>" })
    ≡ some (
        unsafe_runtime (
          "SECRET_KEY must be at least 32 characters in strict environments"
          ∷ "SECRET_KEY contains placeholder syntax; set a real secret value" ∷ []))
unfolding validate_runtime_security_guardrails vector_doc_qa.Config.errors_of
    vector_doc_qa.Text.is_space vector_doc_qa.Config.security_tests
short_key = refl
