-- ===== src/Chat/History.antt =====
-- The histories that backend/app/services/document_query_service.py and
-- backend/app/services/workspace_service.py list.
use vector_doc_qa.Prelude.{ℕ, Bool, Option, some, List, map, reverse, length, ◌==◌}
use vector_doc_qa.Errors.{http, message}
use vector_doc_qa.Exec.{◌>>=◌, pure, or_raise, gets}
use vector_doc_qa.Json.{Items, Fields}
use vector_doc_qa.Models.{User, Message}
use vector_doc_qa.Database.{Query, read}
use vector_doc_qa.Repositories.Documents.{get_document_for_user}
use vector_doc_qa.Repositories.Messages.{
  list_messages_for_document_user, list_messages_for_workspace_user,
}
use vector_doc_qa.Repositories.Workspaces.{get_workspace_for_user}
use vector_doc_qa.Chat.Sources.{PipelineMeta, extract_sources_and_pipeline_meta}

abbrev pub message_history_display_limit : ℕ
message_history_display_limit = 500

-- A message of the history, with its sources and metadata read back.
pub record MessageResponse : Type 0 where
  pub message : Message
  pub sources : Option Items
  pub pipeline_meta : Option PipelineMeta

module _ (model_validate : Fields → Option PipelineMeta) where
  abbrev pub message_response : Message → MessageResponse
  message_response m =
      let (sources, meta) = extract_sources_and_pipeline_meta model_validate m.sources in
      record { message = m; sources = sources; pipeline_meta = meta }

  -- The oldest first, and whether the list may be cut.
  abbrev pub message_list : List Message → List MessageResponse × Bool
  message_list raw_messages = (
    map message_response (reverse raw_messages),
    length raw_messages == message_history_display_limit,
  )

  unfoldable pub get_document_messages_command : ℕ → User → Query (List MessageResponse × Bool)
  get_document_messages_command document_id current_user = do
    found ← gets (read (get_document_for_user document_id current_user.id))
    document ← or_raise found (http 404 (message "Document not found"))
    raw_messages ← gets (
        read (
          list_messages_for_document_user document_id current_user.id
            (some message_history_display_limit)))
    pure (message_list raw_messages)

  unfoldable pub list_workspace_messages_command : ℕ → User → Query (List MessageResponse × Bool)
  list_workspace_messages_command workspace_id current_user = do
    found ← gets (read (get_workspace_for_user workspace_id current_user.id))
    workspace ← or_raise found (http 404 (message "Workspace not found"))
    raw_messages ← gets (
        read (
          list_messages_for_workspace_user workspace_id current_user.id
            (some message_history_display_limit)))
    pure (message_list raw_messages)
