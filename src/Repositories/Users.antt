-- ===== src/Repositories/Users.antt =====
-- backend/app/repositories/user_repository.py
use text.Mathlib.Text.{◌==◌ as str_eq}
use vector_doc_qa.Prelude.{ℕ, String, Bool, false, ◌||◌, Option, [], ◌∷◌, ◌++◌, ◌==◌, find, any}
use vector_doc_qa.Errors.{integrity_error, message}
use vector_doc_qa.Exec.{◌>>=◌, ◌>>◌, pure, raise_if, gets}
use vector_doc_qa.Models.{User}
use vector_doc_qa.Database.{Db, Query, execute, fresh, commit}

unfoldable pub get_user_by_id : ℕ → Db → Option User
get_user_by_id user_id db = find (λ (u : User). u.id == user_id) db.users

unfoldable pub get_user_by_username : String → Db → Option User
get_user_by_username username db = find (λ (u : User). str_eq u.username username) db.users

unfoldable pub get_user_by_email : String → Db → Option User
get_user_by_email email db = find (λ (u : User). str_eq u.email email) db.users

-- The columns `username` and `email` are unique: a second row is refused.
abbrev pub is_taken : String → String → Db → Bool
is_taken username email db =
    any (λ (u : User). str_eq u.username username || str_eq u.email email) db.users

unfoldable pub create_user : String → String → String → Query User
unfolding commit
create_user username email hashed_password = do
  taken ← gets (λ s. is_taken username email s.current)
  raise_if taken (integrity_error (message "users_key"))
  id ← fresh
  let user : User = record {
    id = id;
    username = username;
    email = email;
    hashed_password = hashed_password;
    is_demo = false;
  }
  execute (λ db. record db { users = db.users ++ user ∷ [] })
  commit
  pure user
