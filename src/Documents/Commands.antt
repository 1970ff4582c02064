-- ===== src/Documents/Commands.antt =====
-- backend/app/services/document_commands_service.py and services/queue_service.py. Logging is not
-- modelled.
pub mod Deletion
use vector_doc_qa.Prelude.{ℕ, Bool, none, List, length, delete, ◌==◌, if◌then◌else◌}
use vector_doc_qa.Errors.{Exc, Result, ok, http, os_error, message, with_number}
use vector_doc_qa.Exec.{◌>>=◌, ◌>>◌, pure, raise, raise_if, or_raise, lift, gets, catch}
use vector_doc_qa.Text.{Text}
use vector_doc_qa.Models.{
  User, Document, DocumentStatus, Message, WorkspaceDocument, pending, failed,
}
use vector_doc_qa.Database.{Db, Query, read, execute, commit}
use vector_doc_qa.Repositories.Documents.{
  has_id, of_document, create_document, get_document_for_user, list_documents_for_user,
}
use vector_doc_qa.Repositories.Messages.{names}
use vector_doc_qa.Files.{Bytes, Unicode, UploadFile, validate_file_upload, save_upload_file}
use vector_doc_qa.Documents.Status.{
  is_completed, is_processing, is_failed, with_status, with_error, update_document,
}

-- `pool.enqueue_job` for a document's job: whether there is a new job, since ARQ returns None for a
-- key that is queued already; or the exception of the queue.
abbrev pub EnqueueJob : Type 0
EnqueueJob = ℕ → Result Bool

unfoldable pub enqueue_document_processing : EnqueueJob → ℕ → Query Bool
enqueue_document_processing enqueue_job document_id = lift (enqueue_job document_id)

unfoldable pub get_document_for_user_or_404 : ℕ → ℕ → Query Document
unfolding get_document_for_user
get_document_for_user_or_404 document_id user_id = do
  found ← gets (read (get_document_for_user document_id user_id))
  or_raise found (http 404 (with_number "Document with ID " document_id " not found"))

pub record UploadResponse : Type 0 where
  pub id : ℕ
  pub user_id : ℕ
  pub filename : Text
  pub file_size : ℕ
  pub status : DocumentStatus

-- The settings, the libraries and the services that an upload uses.
pub record UploadEnvironment : Type 0 where
  pub unicode : Unicode
  pub allowed_extensions : List Text
  pub max_file_size : ℕ
  pub write_file_from_path : Text → Bytes → Result (Unit {0})
  pub timestamp : Text
  pub random_str : Text
  pub enqueue_job : EnqueueJob

module _ (env : UploadEnvironment) where
  abbrev pub queue_failure : ℕ → Exc → Query Bool
  queue_failure document_id e = do
    execute (
        update_document document_id
          (with_error failed (message "Upload succeeded, but queueing failed. Please retry.")))
    commit
    raise (http 503 (message "Document uploaded but could not be queued for processing."))

  abbrev pub save : UploadFile → Text → Result (Text × ℕ)
  save file filename =
      save_upload_file env.unicode env.allowed_extensions env.max_file_size env.write_file_from_path
        env.timestamp env.random_str file filename

  unfoldable pub upload_document_command : User → UploadFile → Query UploadResponse
  unfolding create_document commit enqueue_document_processing update_document
  upload_document_command current_user file = do
    raise_if current_user.is_demo (http 403 (message "Demo account cannot upload documents"))
    lift (validate_file_upload env.unicode env.allowed_extensions env.max_file_size file)
    filename ← or_raise file.filename (http 400 (message "No filename provided"))
    saved ← lift (save file filename)
    document ← create_document filename saved.0 saved.1 current_user.id pending
    commit
    catch (enqueue_document_processing env.enqueue_job document.id) (queue_failure document.id)
    pure (record {
      id = document.id;
      user_id = current_user.id;
      filename = document.filename;
      file_size = document.file_size;
      status = document.status;
    })

unfoldable pub list_documents_command : ℕ → Query (List Document × ℕ)
unfolding list_documents_for_user
list_documents_command user_id = do
  documents ← gets (read (list_documents_for_user user_id))
  pure (documents, length documents)

unfoldable pub get_document_command : ℕ → ℕ → Query Document
unfolding get_document_for_user_or_404
get_document_command document_id user_id = get_document_for_user_or_404 document_id user_id

abbrev pub file_missing : Exc → Query Bytes
file_missing (os_error d) = raise (http 404 (message "Document file not available"))
file_missing e = raise e

-- The bytes of the response, and the name from which its headers are made.
unfoldable pub get_document_file_command : (Text → Result Bytes) → ℕ → ℕ → Query (Bytes × Text)
unfolding get_document_for_user_or_404
get_document_file_command read_file_bytes document_id user_id = do
  document ← get_document_for_user_or_404 document_id user_id
  pdf_bytes ← catch (lift (read_file_bytes document.file_path)) file_missing
  pure (pdf_bytes, document.filename)

unfoldable pub get_document_status_command : ℕ → ℕ → Query Document
unfolding get_document_for_user_or_404
get_document_status_command document_id user_id = get_document_for_user_or_404 document_id user_id

-- `db.delete(document)`: the row, and by the cascades of the models its chunks, its messages and
-- its memberships.
unfoldable pub delete_rows : ℕ → Db → Db
delete_rows document_id db = record db {
  documents = delete (has_id document_id) db.documents;
  chunks = delete (of_document document_id) db.chunks;
  messages = delete (λ (m : Message). names m.document_id document_id) db.messages;
  workspace_documents =
      delete (λ (m : WorkspaceDocument). m.document_id == document_id) db.workspace_documents;
}

unfoldable pub delete_document_command : (Text → Result (Unit {0})) → ℕ → User → Query (Unit {0})
unfolding get_document_for_user_or_404 delete_rows commit
delete_document_command delete_file document_id current_user = do
  raise_if current_user.is_demo (http 403 (message "Demo account cannot delete documents"))
  document ← get_document_for_user_or_404 document_id current_user.id
  lift (delete_file document.file_path)
  execute (delete_rows document.id)
  commit

-- A failed document is made pending again.
abbrev pub reset_failed : Document → Query (Unit {0})
reset_failed document s =
    if is_failed document.status
    then (execute (update_document document.id (with_status pending none none)) >> commit) s
    else (ok tt, s)

abbrev pub requeue_failure : ℕ → Exc → Query Bool
requeue_failure document_id e = do
  execute (
      update_document document_id
        (with_error failed (message "Queueing failed. Please retry processing.")))
  commit
  raise (http 503 (message "Failed to queue document processing"))

-- Whether there is a new job, by which the message is chosen.
unfoldable pub process_document_command : EnqueueJob → ℕ → ℕ → Query Bool
unfolding get_document_for_user_or_404 update_document commit enqueue_document_processing
process_document_command enqueue_job document_id user_id = do
  document ← get_document_for_user_or_404 document_id user_id
  raise_if (is_completed document.status)
      (http 400 (with_number "Document " document_id " already processed"))
  raise_if (is_processing document.status)
      (http 400 (with_number "Document " document_id " is currently being processed"))
  reset_failed document
  catch (enqueue_document_processing enqueue_job document_id) (requeue_failure document_id)
