-- ===== src/Auth/Commands.antt =====
-- backend/app/services/auth_commands_service.py. What is random or decided by a library comes as a
-- parameter: the codecs, `str(user_id)`, and the value of `secrets.token_hex(32)`.
use text.Mathlib.Text.{◌==◌ as str_eq}
use vector_doc_qa.Prelude.{ℕ, String, Bool, false, not, Option, none, some, is_some}
use vector_doc_qa.Errors.{Exc, http, message}
use vector_doc_qa.Exec.{◌>>=◌, ◌>>◌, pure, raise_if, or_raise, gets}
use vector_doc_qa.Models.{User}
use vector_doc_qa.Database.{Query, read, commit}
use vector_doc_qa.Repositories.Users.{get_user_by_username, get_user_by_email, create_user}
use vector_doc_qa.Repositories.RefreshTokens.{
  create_refresh_token, consume_refresh_token, delete_refresh_token,
}
use vector_doc_qa.Auth.Security.{Crypto, verify_password, get_password_hash, create_access_token}

pub record AuthTokenPair : Type 0 where
  pub access_token : String
  pub refresh_token : String

-- `settings` and the libraries.
pub record AuthConfig : Type 0 where
  pub crypto : Crypto
  pub access_token_expire_minutes : ℕ
  pub refresh_token_expire_days : ℕ
  pub str_of_id : ℕ → String

module _ (config : AuthConfig) where
  -- username, email, password
  unfoldable pub register_user_command : String → String → String → Query User
  unfolding create_user
  register_user_command username email password = do
    existing_user ← gets (read (get_user_by_username username))
    raise_if (is_some existing_user) (http 400 (message "Username already registered"))
    existing_email ← gets (read (get_user_by_email email))
    raise_if (is_some existing_email) (http 400 (message "Email already registered"))
    create_user username email (get_password_hash config.crypto password)

  abbrev pub password_matches : String → Option User → Bool
  password_matches password none = false
  password_matches password (some u) = verify_password config.crypto password u.hashed_password

  abbrev pub incorrect : Exc
  incorrect = http 401 (message "Incorrect username or password")

  abbrev pub issue : ℕ → String → Query String
  issue user_id raw_token = create_refresh_token config.refresh_token_expire_days raw_token user_id

  abbrev pub access_token_for : ℕ → ℕ → String
  access_token_for user_id now =
      create_access_token config.crypto config.access_token_expire_minutes now
        (config.str_of_id user_id) none

  unfoldable pub login_user_command : String → String → String → Query AuthTokenPair
  unfolding create_refresh_token commit create_access_token get_user_by_username verify_password
  login_user_command raw_token username password = do
    db_user ← gets (read (get_user_by_username username))
    raise_if (not (password_matches password db_user)) incorrect
    user ← or_raise db_user incorrect
    now ← gets (λ s. s.now)
    refresh_token ← issue user.id raw_token
    commit
    pure (record { access_token = access_token_for user.id now; refresh_token = refresh_token })

  abbrev pub invalid_refresh : Exc
  invalid_refresh = http 401 (message "Invalid or expired refresh token")

  -- `not value`: None or the empty text.
  abbrev pub is_missing : Option String → Bool
  is_missing value = elim value [ none ↦ Bool.true | some v ↦ str_eq v "" ]

  unfoldable pub refresh_auth_tokens_command : String → Option String → Query AuthTokenPair
  unfolding create_refresh_token consume_refresh_token commit create_access_token
  refresh_auth_tokens_command raw_token refresh_token_value = do
    raise_if (is_missing refresh_token_value) invalid_refresh
    token ← or_raise refresh_token_value invalid_refresh
    consumed ← consume_refresh_token token
    user_id ← or_raise consumed invalid_refresh
    new_refresh_token ← issue user_id raw_token
    commit
    now ← gets (λ s. s.now)
    pure (record { access_token = access_token_for user_id now; refresh_token = new_refresh_token })

  unfoldable pub logout_user_command : Option String → Query (Unit {0})
  unfolding delete_refresh_token commit
  logout_user_command refresh_token_value = delete_refresh_token refresh_token_value >> commit
