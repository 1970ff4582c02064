-- ===== src/Tests/Sessions.antt =====
-- Runs of the session tokens, of the CSRF check and of the workspaces' members.
use text.Mathlib.Text.{◌==◌ as str_eq}
use vector_doc_qa.Prelude.{◌≡◌, refl, ap, String, true, false, none, some, [], ◌∷◌, ◌++◌, arith}
use vector_doc_qa.Errors.{ok, err, is_ok}
use vector_doc_qa.Models.{WorkspaceDocument, completed, pending}
use vector_doc_qa.Database.{Session, open_session, commit}
use vector_doc_qa.Repositories.Workspaces.{
  list_workspace_document_ids, get_workspace_for_user, get_documents_for_user_by_ids,
  add_workspace_documents, remove_workspace_document,
}
use vector_doc_qa.Auth.Security.{Crypto}
use vector_doc_qa.Auth.Commands.{
  AuthConfig, AuthTokenPair, refresh_auth_tokens_command, logout_user_command, invalid_refresh,
}
use vector_doc_qa.Auth.Requests.{Request, verify_csrf_query, is_safe_method, is_exempt_path}
use vector_doc_qa.Auth.Csrf.{verify_csrf_query-double_submit}
use vector_doc_qa.Auth.Rotation.{refresh-used_once, refresh-renewed, logout-refused}
use vector_doc_qa.Workspaces.Commands.{
  unique, add_members, add_workspace_documents_command, remove_workspace_document_command,
  delete_workspace_command,
}
use vector_doc_qa.Workspaces.Commands.Membership.{IsMembership}
use vector_doc_qa.Workspaces.Commands.Capacity.{
  is_addable, new_ids, add_workspace_documents_command-IsMembership,
  add_workspace_documents_command-members,
}
use vector_doc_qa.Workspaces.Commands.Removal.{nullify, delete_workspace_command-chatted}
use vector_doc_qa.Tests.Data.{alice, rows, session, chat, alone}

abbrev crypto : Crypto
crypto = record { verify = str_eq; hash = λ p. p; jwt_encode = λ p. "jwt"; jwt_decode = λ t. none }

abbrev config : AuthConfig
config = record {
  crypto = crypto;
  access_token_expire_minutes = 30;
  refresh_token_expire_days = 7;
  str_of_id = λ id. "1";
}

abbrev pair : AuthTokenPair
pair = record { access_token = "jwt"; refresh_token = "new" }

rotated : (refresh_auth_tokens_command config "new" (some "old") (session completed)).0 ≡ ok pair
unfolding refresh_auth_tokens_command
rotated = refl

refresh-used_once_example :
    (refresh_auth_tokens_command config "next" (some "old") (
      open_session
        (refresh_auth_tokens_command config "new" (some "old") (session completed)).1.committed
        9)).0
    ≡ err (invalid_refresh config)
refresh-used_once_example =
    refresh-used_once config "new" "next" "old" (session completed) pair 9 rotated
      (λ e. ground (arith, ap (λ s. str_eq s "old") e)) (omega arith)

refresh-renewed_example :
    is_ok
      (refresh_auth_tokens_command config "next" (some "new") (
        open_session
          (refresh_auth_tokens_command config "new" (some "old") (session completed)).1.committed
          9)).0
    ≡ true
refresh-renewed_example =
    refresh-renewed config "new" "next" "old" (session completed) pair 9 rotated refl refl
      (omega arith) (omega arith)

unknown :
    (refresh_auth_tokens_command config "new" (some "bad") (session completed)).0
    ≡ err (invalid_refresh config)
unfolding refresh_auth_tokens_command
unknown = refl

logout-refused_example :
    ((logout_user_command config (some "old") (session completed)).0 ≡ ok tt)
    × ((refresh_auth_tokens_command config "next" (some "old") (
          open_session
            (logout_user_command config (some "old") (session completed)).1.committed
            9)).0
        ≡ err (invalid_refresh config))
logout-refused_example = logout-refused config "next" "old" (session completed) 9

abbrev post : Request
post = record {
  method = "POST";
  path = "/api/documents/upload";
  access_token_cookie = some "jwt";
  refresh_token_cookie = none;
  csrf_token_cookie = some "c";
  csrf_header = some "c";
}

unsafe : is_safe_method "POST" ≡ false
unfolding is_safe_method
unsafe = refl

guarded : is_exempt_path "/api/documents/upload" ≡ false
unfolding is_exempt_path
guarded = refl

passed : is_ok (verify_csrf_query post) ≡ true
unfolding verify_csrf_query is_safe_method is_exempt_path
passed = refl

verify_csrf_query-double_submit_example :
    (t : String) × (some "c" ≡ some t) × (some "c" ≡ some t) × (str_eq t "" ≡ false)
verify_csrf_query-double_submit_example =
    verify_csrf_query-double_submit post unsafe guarded refl passed

nobody-IsMembership : IsMembership []
nobody-IsMembership = record { capacity = λ w. omega arith; once = λ w d. omega arith }

add_workspace_documents_command-IsMembership_example :
    IsMembership
      (add_workspace_documents_command alone 5 alice
        (2 ∷ 2 ∷ [])
        (session completed)).1.committed.workspace_documents
add_workspace_documents_command-IsMembership_example =
    add_workspace_documents_command-IsMembership alone 5 alice (2 ∷ 2 ∷ []) (session completed)
      nobody-IsMembership nobody-IsMembership

added :
    is_ok (add_workspace_documents_command alone 5 alice (2 ∷ 2 ∷ []) (session completed)).0 ≡ true
unfolding add_workspace_documents_command get_workspace_for_user get_documents_for_user_by_ids
    unique add_members list_workspace_document_ids add_workspace_documents commit
added = refl

add_workspace_documents_command-members_example :
    list_workspace_document_ids 5
      (add_workspace_documents_command alone 5 alice (2 ∷ 2 ∷ []) (session completed)).1.committed
    ≡ list_workspace_document_ids 5 (session completed).committed
      ++ new_ids 5 (unique (2 ∷ 2 ∷ [])) (session completed).committed
add_workspace_documents_command-members_example =
    add_workspace_documents_command-members alone 5 alice (2 ∷ 2 ∷ []) (session completed) added

incomplete : is_addable alone 5 alice (2 ∷ []) (session pending).current ≡ false
unfolding get_workspace_for_user get_documents_for_user_by_ids unique
incomplete = refl

abbrev member : WorkspaceDocument
member = record { id = 8; workspace_id = 5; document_id = 2; added_at = 3 }

abbrev shared : Session
shared = open_session (rows completed (member ∷ []) (chat ∷ [])) 7

removed : is_ok (remove_workspace_document_command 5 2 alice shared).0 ≡ true
unfolding remove_workspace_document_command get_workspace_for_user remove_workspace_document commit
removed = refl

member-IsMembership : IsMembership (member ∷ [])
member-IsMembership = record { capacity = λ w. ground arith; once = λ w d. ground arith }

delete_workspace_command-chatted_example :
    (is_ok (delete_workspace_command nullify 5 alice shared).0 ≡ false)
    × ((delete_workspace_command nullify 5 alice shared).1 ≡ shared)
delete_workspace_command-chatted_example =
    delete_workspace_command-chatted nullify 5 alice shared (λ w messages. refl) refl refl
