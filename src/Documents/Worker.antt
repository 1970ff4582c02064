-- ===== src/Documents/Worker.antt =====
-- backend/app/workers: the job of one document, and the reset of stale documents at the start.
pub mod Stale
use vector_doc_qa.Prelude.{
  ℕ, ◌-◌, ◌*◌, Bool, ◌&&◌, some, ltb, length, select, update, is_empty, if◌then◌else◌,
}
use vector_doc_qa.Errors.{ok, message}
use vector_doc_qa.Exec.{◌>>◌, pure, catch}
use vector_doc_qa.Models.{Document, pending}
use vector_doc_qa.Database.{Db, Query, execute, commit}
use vector_doc_qa.Documents.Status.{is_processing}
use vector_doc_qa.Documents.Processing.{Environment, process_document_text}

-- Every exception is logged and swallowed: the job is not tried again.
unfoldable pub process_document_task : Environment → (Db → Db) → ℕ → Query (Unit {0})
unfolding process_document_text
process_document_task env others document_id =
    catch (process_document_text env others document_id) (λ e. pure tt)

abbrev pub is_stale : ℕ → Document → Bool
is_stale cutoff d = is_processing d.status && ltb d.uploaded_at cutoff

abbrev pub interrupted : Document → Document
interrupted d = record d {
  status = pending;
  error_message = some (message "Processing was interrupted during a restart. Ready for retry.");
}

-- The number of documents that are pending again.
unfoldable pub reset_stale_processing_documents : ℕ → Query ℕ
unfolding commit
reset_stale_processing_documents stale_minutes s =
    let cutoff = s.now - stale_minutes * 60 in
    let stale = select (is_stale cutoff) s.current.documents in
    let reset =
      execute (λ db. record db { documents = update (is_stale cutoff) interrupted db.documents }) in
    if is_empty stale then (ok 0, s) else (reset >> commit >> pure (length stale)) s
