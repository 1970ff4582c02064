-- ===== src/Workspaces/Commands.antt =====
-- The commands of backend/app/services/workspace_service.py that read and change workspaces and their
-- members.

pub mod Membership
pub mod Capacity
pub mod Removal
use vector_doc_qa.Prelude.{
  ℕ, ◌+◌, String, Bool, true, false, not, ◌&&◌, ◌||◌, Option, none, some, List, [], ◌∷◌, map, ◌==◌,
  ltb, length, any, all, is_some, is_empty, select, update, delete, if◌then◌else◌,
}
use vector_doc_qa.Errors.{Exc, ok, err, http, integrity_error, message}
use vector_doc_qa.Exec.{◌>>=◌, ◌>>◌, pure, raise, raise_if, or_raise, gets}
use vector_doc_qa.Models.{User, Document, Message, Workspace, WorkspaceDocument}
use vector_doc_qa.Database.{Db, Session, Query, read, execute, commit, meanwhile}
use vector_doc_qa.Documents.Status.{is_completed}
use vector_doc_qa.Repositories.Messages.{names}
use vector_doc_qa.Repositories.Workspaces.{
  of_workspace, is_in, create_workspace, get_workspace_for_user, count_workspace_documents,
  list_workspaces_for_user_with_counts, list_workspace_documents, list_workspace_document_ids,
  get_documents_for_user_by_ids, add_workspace_documents, remove_workspace_document,
}

abbrev pub max_documents_per_workspace : ℕ
max_documents_per_workspace = 20

pub record WorkspaceResponse : Type 0 where
  pub workspace : Workspace
  pub document_count : ℕ

pub record WorkspaceDetailResponse : Type 0 where
  pub workspace : Workspace
  pub document_count : ℕ
  pub documents : List Document

abbrev pub get_workspace_for_user_or_404 : ℕ → ℕ → Query Workspace
get_workspace_for_user_or_404 workspace_id user_id = do
  workspace ← gets (read (get_workspace_for_user workspace_id user_id))
  or_raise workspace (http 404 (message "Workspace not found"))

abbrev pub build_workspace_detail_response : Workspace → Query WorkspaceDetailResponse
build_workspace_detail_response workspace = do
  documents ← gets (read (list_workspace_documents workspace.id))
  pure (record { workspace = workspace; document_count = length documents; documents = documents })

unfoldable pub create_workspace_command : User → String → Query WorkspaceResponse
create_workspace_command current_user name = do
  raise_if current_user.is_demo (http 403 (message "Demo account cannot create workspaces"))
  workspace ← create_workspace current_user.id name
  commit
  pure (record { workspace = workspace; document_count = 0 })

abbrev pub response : Workspace × ℕ → WorkspaceResponse
response (workspace, document_count) = record {
  workspace = workspace;
  document_count = document_count;
}

unfoldable pub list_workspaces_command : User → Query (List WorkspaceResponse × ℕ)
list_workspaces_command current_user = do
  workspaces_with_counts ← gets (read (list_workspaces_for_user_with_counts current_user.id))
  pure (map response workspaces_with_counts, length (map response workspaces_with_counts))

unfoldable pub get_workspace_command : ℕ → User → Query WorkspaceDetailResponse
get_workspace_command workspace_id current_user = do
  workspace ← get_workspace_for_user_or_404 workspace_id current_user.id
  build_workspace_detail_response workspace

-- The flush of an object's changed attributes.
unfoldable pub update_workspace : ℕ → (Workspace → Workspace) → Db → Db
update_workspace workspace_id change db = record db {
  workspaces = update (λ (w : Workspace). w.id == workspace_id) change db.workspaces;
}

abbrev pub renamed : String → ℕ → Workspace → Workspace
renamed name now w = record w { name = name; updated_at = now }

unfoldable pub update_workspace_command : ℕ → User → String → Query WorkspaceResponse
update_workspace_command workspace_id current_user name = do
  raise_if current_user.is_demo (http 403 (message "Demo account cannot modify workspaces"))
  workspace ← get_workspace_for_user_or_404 workspace_id current_user.id
  now ← gets (λ s. s.now)
  execute (update_workspace workspace.id (renamed name now))
  commit
  document_count ← gets (read (count_workspace_documents workspace.id))
  pure (record { workspace = renamed name now workspace; document_count = document_count })

-- The constraint `check_message_context`.
abbrev pub has_context : Message → Bool
has_context m =
    (is_some m.document_id && not (is_some m.workspace_id))
    || (not (is_some m.document_id) && is_some m.workspace_id)

-- `db.delete(workspace)` and the flush. The memberships are deleted by their cascade. The relationship
-- `messages` has none: what the unit of work makes of the rows of a relationship without a cascade is the
-- parameter `release`, and the rows it leaves are checked by the table's constraint.
unfoldable pub delete_workspace : (ℕ → List Message → List Message) → ℕ → Query (Unit {0})
delete_workspace release workspace_id s =
    let messages = release workspace_id s.current.messages in
    if all has_context messages
    then (
      ok tt,
      record s {
        current = record s.current {
          workspaces = delete (λ (w : Workspace). w.id == workspace_id) s.current.workspaces;
          workspace_documents = delete (of_workspace workspace_id) s.current.workspace_documents;
          messages = delete (λ (m : Message). names m.workspace_id workspace_id) messages;
        };
      },
    )
    else (err (integrity_error (message "check_message_context")), s)

unfoldable pub delete_workspace_command :
    (ℕ → List Message → List Message) → ℕ → User → Query (Unit {0})
delete_workspace_command release workspace_id current_user = do
  raise_if current_user.is_demo (http 403 (message "Demo account cannot modify workspaces"))
  workspace ← get_workspace_for_user_or_404 workspace_id current_user.id
  delete_workspace release workspace.id
  commit

-- list(dict.fromkeys(ids)): the first occurrence of each.
unfoldable pub unique : List ℕ → List ℕ
unique [] = []
unique (id ∷ ids) = id ∷ select (λ k. not (k == id)) (unique ids)

abbrev pub is_incomplete : Document → Bool
is_incomplete d = not (is_completed d.status)

-- `pg_advisory_xact_lock`: while this session waits for the lock, others may commit.
abbrev pub lock_workspace_membership_mutation : (Db → Db) → Query (Unit {0})
lock_workspace_membership_mutation others = meanwhile others

-- What is done under the lock.
unfoldable pub add_members : ℕ → List ℕ → Query (Unit {0})
add_members workspace_id requested_document_ids = do
  existing_document_ids ← gets (read (list_workspace_document_ids workspace_id))
  let new_document_ids = select (λ id. not (is_in id existing_document_ids)) requested_document_ids
  raise_if
      (ltb max_documents_per_workspace (length existing_document_ids + length new_document_ids))
      (http 400 (message "Workspace cannot contain more than 20 documents"))
  add_workspace_documents workspace_id new_document_ids
  commit

unfoldable pub add_workspace_documents_command :
    (Db → Db) → ℕ → User → List ℕ → Query WorkspaceDetailResponse
add_workspace_documents_command others workspace_id current_user document_ids = do
  raise_if current_user.is_demo (http 403 (message "Demo account cannot modify workspaces"))
  workspace ← get_workspace_for_user_or_404 workspace_id current_user.id
  let requested_document_ids = unique document_ids
  documents ← gets (read (get_documents_for_user_by_ids current_user.id requested_document_ids))
  raise_if (not (length documents == length requested_document_ids))
      (http 404 (message "One or more documents not found"))
  raise_if (any is_incomplete documents)
      (http 400 (message "Only completed documents can be added to workspaces"))
  lock_workspace_membership_mutation others
  add_members workspace_id requested_document_ids
  build_workspace_detail_response workspace

unfoldable pub remove_workspace_document_command : ℕ → ℕ → User → Query WorkspaceDetailResponse
remove_workspace_document_command workspace_id document_id current_user = do
  raise_if current_user.is_demo (http 403 (message "Demo account cannot modify workspaces"))
  workspace ← get_workspace_for_user_or_404 workspace_id current_user.id
  removed ← remove_workspace_document workspace_id document_id
  raise_if (not removed) (http 404 (message "Document not found in workspace"))
  commit
  build_workspace_detail_response workspace
