-- ===== src/Tests/Rows.antt =====
-- Runs of the deletion of a document and of the reset of stale ones.
use vector_doc_qa.Prelude.{◌≡◌, refl, true, false, is_some}
use vector_doc_qa.Errors.{Result, ok, is_ok}
use vector_doc_qa.Text.{Text}
use vector_doc_qa.Models.{processing, completed}
use vector_doc_qa.Repositories.Documents.{get_document_for_user}
use vector_doc_qa.Documents.Commands.{delete_document_command}
use vector_doc_qa.Documents.Commands.Deletion.{IsGone, delete_document_command-IsGone}
use vector_doc_qa.Documents.Worker.Stale.{
  is_overdue, Resets, reset_stale_processing_documents-cleared,
}
use vector_doc_qa.Tests.Data.{alice, session}

reset_stale_processing_documents-cleared_example : Resets (is_overdue 0 7) 0 (session processing)
reset_stale_processing_documents-cleared_example =
    reset_stale_processing_documents-cleared 0 (session processing) refl

abbrev removes : Text → Result (Unit {0})
removes path = ok tt

deleted : is_ok (delete_document_command removes 2 alice (session completed)).0 ≡ true
unfolding delete_document_command
deleted = refl

delete_document_command-IsGone_example :
    (is_some (get_document_for_user 2 1 (session completed).current) ≡ true)
    × IsGone 2 (delete_document_command removes 2 alice (session completed)).1.committed
delete_document_command-IsGone_example =
    delete_document_command-IsGone removes 2 alice (session completed) deleted

unknown : is_ok (delete_document_command removes 6 alice (session completed)).0 ≡ false
unfolding delete_document_command
unknown = refl
