-- ===== src/Documents/Status.antt =====
-- The statuses of backend/app/models/base.py, and the rows of one document.
use vector_doc_qa.Prelude.{ℕ, Bool, true, false, Option, some, update}
use vector_doc_qa.Errors.{Detail}
use vector_doc_qa.Models.{Document, DocumentStatus, processing, completed, failed}
use vector_doc_qa.Database.{Db}
use vector_doc_qa.Repositories.Documents.{has_id}

abbrev pub is_completed : DocumentStatus → Bool
is_completed completed = true
is_completed _ = false

abbrev pub is_processing : DocumentStatus → Bool
is_processing processing = true
is_processing _ = false

abbrev pub is_failed : DocumentStatus → Bool
is_failed failed = true
is_failed _ = false

-- The flush of an object's changed attributes: an update of the rows with its key.
unfoldable pub update_document : ℕ → (Document → Document) → Db → Db
update_document document_id change db = record db {
  documents = update (has_id document_id) change db.documents;
}

-- Assignments to `status`, `error_message` and `processed_at`.
abbrev pub with_status : DocumentStatus → Option Detail → Option ℕ → Document → Document
with_status status error_message processed_at d = record d {
  status = status;
  error_message = error_message;
  processed_at = processed_at;
}

-- Assignments to `status` and `error_message`.
abbrev pub with_error : DocumentStatus → Detail → Document → Document
with_error status error_message d = record d { status = status; error_message = some error_message }

-- Assignments to `status` and `processed_at`.
abbrev pub with_time : DocumentStatus → ℕ → Document → Document
with_time status processed_at d = record d { status = status; processed_at = some processed_at }
