-- ===== src/Documents/Commands/Deletion.antt =====
-- The deletion of a document.
use vector_doc_qa.Prelude.{
  ℕ, ◌≡◌, true, false, none, some, [], arith, ◌==◌, ==_iff, is_some, select, select-delete,
  find-test, and-eq_true, Option-cases, inl, inr,
}
use vector_doc_qa.Errors.{Result, is_ok}
use vector_doc_qa.Text.{Text}
use vector_doc_qa.Models.{User, Document, Message, WorkspaceDocument}
use vector_doc_qa.Database.{Db, Session, commit}
use vector_doc_qa.Repositories.Documents.{has_id, of_document, get_document_for_user}
use vector_doc_qa.Repositories.Messages.{names}
use vector_doc_qa.Documents.Commands.{
  get_document_for_user_or_404, delete_rows, delete_document_command,
}

-- No row of the document, and none that depends on it.
pub record IsGone (document_id : ℕ) (db : Db) : Type 0 where
  pub documents : select (has_id document_id) db.documents ≡ []
  pub chunks : select (of_document document_id) db.chunks ≡ []
  pub messages : select (λ (m : Message). names m.document_id document_id) db.messages ≡ []
  pub members :
      select (λ (m : WorkspaceDocument). m.document_id == document_id) db.workspace_documents ≡ []

delete_rows-IsGone : (document_id : ℕ) (db : Db) → IsGone document_id (delete_rows document_id db)
unfolding delete_rows
delete_rows-IsGone document_id db = record {
  documents = select-delete (has_id document_id) db.documents;
  chunks = select-delete (of_document document_id) db.chunks;
  messages = select-delete (λ (m : Message). names m.document_id document_id) db.messages;
  members =
      select-delete (λ (m : WorkspaceDocument). m.document_id == document_id)
        db.workspace_documents;
}

module _ (delete_file : Text → Result (Unit {0})) (document_id : ℕ) (current_user : User) where
  -- A deletion that raises leaves the session as it was.
  pub delete_document_command-refused :
      (s : Session)
      → is_ok (delete_document_command delete_file document_id current_user s).0 ≡ false
      → (delete_document_command delete_file document_id current_user s).1 ≡ s
  unfolding delete_document_command get_document_for_user_or_404 commit
  delete_document_command-refused s h = ground arith

  same_id :
      (d : Document) (db : Db)
      → get_document_for_user document_id current_user.id db ≡ some d
      → d.id ≡ document_id
  unfolding get_document_for_user
  same_id d db found =
      (==_iff d.id document_id).0 (and-eq_true _ _ (find-test _ db.documents d found)).0

  deleted :
      (s : Session) (d : Document)
      → get_document_for_user document_id current_user.id s.current ≡ some d
      → is_ok (delete_document_command delete_file document_id current_user s).0 ≡ true
      → (delete_document_command delete_file document_id current_user s).1.committed
        ≡ delete_rows d.id s.current
  unfolding delete_document_command get_document_for_user_or_404 commit
  deleted s d found h = ground arith

  missing :
      (s : Session)
      → get_document_for_user document_id current_user.id s.current ≡ none
      → is_ok (delete_document_command delete_file document_id current_user s).0 ≡ false
  unfolding delete_document_command get_document_for_user_or_404
  missing s absent = ground arith

  -- When a deletion returns, the caller owned the document, and neither the document nor a chunk, a message
  -- or a membership of it is left in what is committed.
  pub delete_document_command-IsGone :
      (s : Session)
      → is_ok (delete_document_command delete_file document_id current_user s).0 ≡ true
      → (is_some (get_document_for_user document_id current_user.id s.current) ≡ true)
        × IsGone document_id
            (delete_document_command delete_file document_id current_user s).1.committed
  delete_document_command-IsGone s h =
      elim (Option-cases (get_document_for_user document_id current_user.id s.current)) [
        | inl absent ↦ absurd (ground (arith, missing s absent))
        | inr (d, found) ↦ (
          ground (arith, found),
          rw (deleted s d found h, same_id d s.current found)
              (delete_rows-IsGone document_id s.current),
        )
      ]
