-- ===== src/Repositories/RefreshTokens.antt =====
-- backend/app/repositories/refresh_token_repository.py. The random token is an argument.
use text.Mathlib.Text.{◌==◌ as str_eq}
use vector_doc_qa.Prelude.{
  ℕ, ◌+◌, ◌*◌, String, Bool, ◌&&◌, Option, none, some, [], ◌∷◌, ◌++◌, ◌==◌, leb, ltb, find, delete,
  if◌then◌else◌,
}
use vector_doc_qa.Exec.{◌>>=◌, ◌>>◌, pure, gets}
use vector_doc_qa.Models.{RefreshToken}
use vector_doc_qa.Database.{Query, execute, fresh}

-- Seconds in `settings.refresh_token_expire_days` days.
abbrev pub lifetime : ℕ → ℕ
lifetime days = days * 86400

-- The row is staged; the caller commits.
unfoldable pub create_refresh_token : ℕ → String → ℕ → Query String
create_refresh_token days raw_token user_id = do
  id ← fresh
  now ← gets (λ s. s.now)
  let row : RefreshToken = record {
    id = id;
    user_id = user_id;
    token = raw_token;
    expires_at = now + lifetime days;
  }
  execute (λ db. record db { refresh_tokens = db.refresh_tokens ++ row ∷ [] })
  pure raw_token

abbrev pub has_token : String → RefreshToken → Bool
has_token token r = str_eq r.token token

abbrev pub is_live : String → ℕ → RefreshToken → Bool
is_live token now r = has_token token r && leb now r.expires_at

abbrev pub owner : Option RefreshToken → Option ℕ
owner none = none
owner (some r) = some r.user_id

-- DELETE ... WHERE token = ... AND expires_at >= now() RETURNING user_id
unfoldable pub consume_refresh_token : String → Query (Option ℕ)
consume_refresh_token token = do
  now ← gets (λ s. s.now)
  found ← gets (λ s. find (is_live token now) s.current.refresh_tokens)
  execute (λ db. record db { refresh_tokens = delete (is_live token now) db.refresh_tokens })
  pure (owner found)

-- The row if it has not expired; an expired one is staged for deletion.
abbrev pub drop_row : RefreshToken → Query (Option RefreshToken)
drop_row row = do
  execute (λ db. record db {
    refresh_tokens = delete (λ (r : RefreshToken). r.id == row.id) db.refresh_tokens;
  })
  pure none

abbrev pub check_expiry : RefreshToken → Query (Option RefreshToken)
check_expiry row s = if ltb row.expires_at s.now then drop_row row s else pure (some row) s

abbrev pub check_found : Option RefreshToken → Query (Option RefreshToken)
check_found none = pure none
check_found (some row) = check_expiry row

unfoldable pub validate_refresh_token : String → Query (Option RefreshToken)
validate_refresh_token token = do
  found ← gets (λ s. find (has_token token) s.current.refresh_tokens)
  check_found found

unfoldable pub delete_refresh_token : Option String → Query (Unit {0})
delete_refresh_token none = pure tt
delete_refresh_token (some token) =
    execute (λ db. record db { refresh_tokens = delete (has_token token) db.refresh_tokens })
