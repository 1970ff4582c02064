-- ===== src/Auth/Rotation.antt =====
-- Refresh tokens are used once: a refresh consumes the old token and stores a new one.
use text.Mathlib.Text.{◌==◌ as str_eq}
use text.Mathlib.TextEquality.{eq_iff}
use vector_doc_qa.Prelude.{
  ℕ, ◌+◌, ◌≤◌, String, ◌≡◌, refl, ◌≢◌, Bool, true, false, Option, none, some, List, [], ◌∷◌, ◌++◌,
  arith, inl, inr, Bool-cases, Option-cases, find, delete,
}
use vector_doc_qa.Errors.{Exc, ok, err, is_ok}
use vector_doc_qa.Models.{RefreshToken}
use vector_doc_qa.Database.{Session, open_session}
use vector_doc_qa.Repositories.RefreshTokens.{is_live, has_token, lifetime}
use vector_doc_qa.Auth.Commands.{
  AuthConfig, AuthTokenPair, invalid_refresh, refresh_auth_tokens_command, logout_user_command,
}

-- Once the live rows of a token are gone, no row of it is live later.
find-delete_live :
    (token : String) (now later : ℕ) (rows : List RefreshToken)
    → now ≤ later
    → find (is_live token later) (delete (is_live token now) rows) ≡ none
find-delete_live token now later [] h = refl
find-delete_live token now later (r ∷ rows) h =
    ground (arith, find-delete_live token now later rows h)

find-append_none :
    (test : RefreshToken → Bool) (xs ys : List RefreshToken)
    → find test xs ≡ none
    → find test (xs ++ ys) ≡ find test ys
find-append_none test [] ys h = refl
find-append_none test (x ∷ xs) ys h = ground (arith, find-append_none test xs ys)

find-delete-none :
    (token : String) (now : ℕ) (test : RefreshToken → Bool) (rows : List RefreshToken)
    → find (has_token token) rows ≡ none
    → find (is_live token now) (delete test rows) ≡ none
find-delete-none token now test [] h = refl
find-delete-none token now test (r ∷ rows) h = ground (arith, find-delete-none token now test rows)

find-delete_token :
    (token : String) (now : ℕ) (rows : List RefreshToken)
    → find (is_live token now) (delete (has_token token) rows) ≡ none
find-delete_token token now [] = refl
find-delete_token token now (r ∷ rows) = ground (arith, find-delete_token token now rows)

module _ (config : AuthConfig) where
  -- A refresh that raises commits nothing.
  pub refresh-err :
      (raw : String) (value : Option String) (s : Session) (e : Exc)
      → (refresh_auth_tokens_command config raw value s).0 ≡ err e
      → (refresh_auth_tokens_command config raw value s).1.committed ≡ s.committed
  unfolding refresh_auth_tokens_command
  refresh-err raw value s e h = ground arith

  -- Without a live row of the token the refresh is refused.
  refresh-no_row :
      (raw token : String) (s : Session)
      → find (is_live token s.now) s.current.refresh_tokens ≡ none
      → (refresh_auth_tokens_command config raw (some token) s).0 ≡ err (invalid_refresh config)
  unfolding refresh_auth_tokens_command
  refresh-no_row raw token s h = ground arith

  refresh-row :
      (raw token : String) (row : RefreshToken) (s : Session)
      → str_eq token "" ≡ false
      → find (is_live token s.now) s.current.refresh_tokens ≡ some row
      → is_ok (refresh_auth_tokens_command config raw (some token) s).0 ≡ true
  unfolding refresh_auth_tokens_command
  refresh-row raw token row s full h = ground arith

  -- What a refresh that succeeds has done: it replaced the live rows of the token by a row of the
  -- new one for the same user, and committed.
  pub record IsRotated (raw token : String) (s s' : Session) (pair : AuthTokenPair) : Type 0 where
    old : RefreshToken
    new : RefreshToken
    found : find (is_live token s.now) s.current.refresh_tokens ≡ some old
    rows :
        s'.current.refresh_tokens
        ≡ delete (is_live token s.now) s.current.refresh_tokens ++ new ∷ []
    named : new.token ≡ raw
    same_user : new.user_id ≡ old.user_id
    expiry : new.expires_at ≡ s.now + lifetime config.refresh_token_expire_days
    committed : s'.committed ≡ s'.current
    returned : pair.refresh_token ≡ raw

  refresh-IsRotated :
      (raw token : String) (s : Session) (pair : AuthTokenPair)
      → (refresh_auth_tokens_command config raw (some token) s).0 ≡ ok pair
      → IsRotated raw token s (refresh_auth_tokens_command config raw (some token) s).1 pair
  unfolding refresh_auth_tokens_command
  refresh-IsRotated raw token s pair done = elim (Bool-cases (str_eq token "")) [
    | inl empty ↦ ground arith
    | inr full ↦ elim (Option-cases (find (is_live token s.now) s.current.refresh_tokens)) [
      | inl missing ↦ cc (refresh-no_row raw token s missing)
      | inr (old, found) ↦ record {
        old = old;
        new = record {
          id = s.current.next_id;
          user_id = old.user_id;
          token = raw;
          expires_at = s.now + lifetime config.refresh_token_expire_days;
        };
        found = found;
        rows = ground arith;
        named = refl;
        same_user = refl;
        expiry = refl;
        committed = ground arith;
        returned = ground arith;
      }
    ]
  ]

  -- Once a refresh has returned, a request whose session begins at any later time with what the
  -- refresh has committed is refused the old token, whatever the next random token is, if the new
  -- token is another one.
  pub refresh-used_once :
      (raw next token : String) (s : Session) (pair : AuthTokenPair) (later : ℕ)
      → (refresh_auth_tokens_command config raw (some token) s).0 ≡ ok pair
      → raw ≢ token
      → s.now ≤ later
      → (refresh_auth_tokens_command config next (some token) (
          open_session (refresh_auth_tokens_command config raw (some token) s).1.committed later)).0
        ≡ err (invalid_refresh config)
  refresh-used_once raw next token s pair later done fresh order =
      let r = refresh-IsRotated raw token s pair done in
      refresh-no_row next token _ (
        rw (r.committed, r.rows)
          (rw
            (find-append_none (is_live token later) _ (r.new ∷ [])
              (find-delete_live token s.now later s.current.refresh_tokens order))
            (ground (arith, eq_iff r.new.token token, r.named))))

  -- Once a refresh has returned, a request whose session begins with what the refresh has committed,
  -- at any later time until the new token expires, has that token accepted, if it is not empty and
  -- no row had it before.
  pub refresh-renewed :
      (raw next token : String) (s : Session) (pair : AuthTokenPair) (later : ℕ)
      → (refresh_auth_tokens_command config raw (some token) s).0 ≡ ok pair
      → find (has_token raw) s.current.refresh_tokens ≡ none
      → str_eq raw "" ≡ false
      → s.now ≤ later
      → later ≤ s.now + lifetime config.refresh_token_expire_days
      → is_ok
          (refresh_auth_tokens_command config next (some raw) (
            open_session
              (refresh_auth_tokens_command config raw (some token) s).1.committed
              later)).0
        ≡ true
  refresh-renewed raw next token s pair later done new full order alive =
      let r = refresh-IsRotated raw token s pair done in
      refresh-row next raw r.new _ full (
        rw (r.committed, r.rows)
          (rw
            (find-append_none (is_live raw later) _ (r.new ∷ [])
              (find-delete-none raw later (is_live token s.now) s.current.refresh_tokens new))
            (ground (arith, eq_iff r.new.token raw, r.named, r.expiry))))

  -- A logout with a token returns, and a request whose session begins with what it has committed is
  -- refused that token at every time.
  pub logout-refused :
      (next token : String) (s : Session) (later : ℕ)
      → ((logout_user_command config (some token) s).0 ≡ ok tt)
        × ((refresh_auth_tokens_command config next
              (some token)
              (open_session (logout_user_command config (some token) s).1.committed later)).0
            ≡ err (invalid_refresh config))
  unfolding logout_user_command
  logout-refused next token s later =
      (refl, refresh-no_row next token _ (find-delete_token token later s.current.refresh_tokens))
