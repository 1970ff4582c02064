-- ===== src/Workspaces/Commands/Removal.antt =====
-- Documents that are detached from a workspace, and workspaces that are deleted.
use vector_doc_qa.Prelude.{
  ℕ, ◌≡◌, refl, ap, sym, ◌∙◌, Bool, true, false, none, List, [], ◌∷◌, arith, is_some, ==_iff, any,
  all, delete, update, find, length, Bool-cases, Option-cases, inl, inr, find-test, and-eq_true,
  select-delete,
}
use vector_doc_qa.Errors.{is_ok}
use vector_doc_qa.Models.{User, Message, WorkspaceDocument}
use vector_doc_qa.Database.{Session, commit}
use vector_doc_qa.Repositories.Messages.{names}
use vector_doc_qa.Repositories.Workspaces.{links, remove_workspace_document, get_workspace_for_user}
use vector_doc_qa.Workspaces.Commands.{
  remove_workspace_document_command, has_context, delete_workspace, delete_workspace_command,
}
use vector_doc_qa.Workspaces.Commands.Membership.{IsMembership, occurrences, delete-IsMembership}

is_some-find :
    (p : WorkspaceDocument → Bool) (rows : List WorkspaceDocument)
    → is_some (find p rows) ≡ any p rows
is_some-find p [] = refl
is_some-find p (r ∷ rows) = ground (arith, is_some-find p rows)

module _ (workspace_id document_id : ℕ) (current_user : User) where
  remove_ok :
      (s : Session)
      → is_ok (remove_workspace_document_command workspace_id document_id current_user s).0 ≡ true
      → (is_some (find (links workspace_id document_id) s.current.workspace_documents) ≡ true)
        × ((remove_workspace_document_command workspace_id document_id current_user
              s).1.committed.workspace_documents
            ≡ delete (links workspace_id document_id) s.current.workspace_documents)
  unfolding remove_workspace_document_command remove_workspace_document commit
  remove_ok s h = ground arith

  remove_err :
      (s : Session)
      → is_ok (remove_workspace_document_command workspace_id document_id current_user s).0 ≡ false
      → (remove_workspace_document_command workspace_id document_id current_user s).1.committed
        ≡ s.committed
  unfolding remove_workspace_document_command remove_workspace_document commit
  remove_err s h = ground arith

  -- For a session without changes of its own, a removal, whether it returns or raises, keeps that
  -- no workspace has more than twenty members and no document is a member twice.
  pub remove_workspace_document_command-IsMembership :
      (s : Session)
      → s.current ≡ s.committed
      → IsMembership s.committed.workspace_documents
      → IsMembership
          (remove_workspace_document_command workspace_id document_id current_user
            s).1.committed.workspace_documents
  remove_workspace_document_command-IsMembership s same m =
      elim (Bool-cases
        (is_ok (remove_workspace_document_command workspace_id document_id current_user s).0)) [
          | inl fine ↦ rw (remove_ok s fine).1 (
              rw same (
                delete-IsMembership (links workspace_id document_id) s.committed.workspace_documents
                  m))
          | inr failed ↦ rw (remove_err s failed) m
        ]

  -- When a removal returns, the document was a member of the workspace, and in what is committed it
  -- is none.
  pub remove_workspace_document_command-removed :
      (s : Session)
      → is_ok (remove_workspace_document_command workspace_id document_id current_user s).0 ≡ true
      → (any (links workspace_id document_id) s.current.workspace_documents ≡ true)
        × (occurrences workspace_id document_id
              (remove_workspace_document_command workspace_id document_id current_user
                s).1.committed.workspace_documents
            ≡ 0)
  remove_workspace_document_command-removed s h =
      let (there, rows) = remove_ok s h in
      (
        sym (is_some-find (links workspace_id document_id) s.current.workspace_documents) ∙ there,
        ap (occurrences workspace_id document_id) rows
            ∙ ap length
                (select-delete (links workspace_id document_id) s.current.workspace_documents),
      )

-- A relationship without a cascade: the key of the deleted row is set to null in the rows that name it.
abbrev pub nullify : ℕ → List Message → List Message
nullify workspace_id =
    update (λ (m : Message). names m.workspace_id workspace_id)
      (λ (m : Message). record m { workspace_id = none })

lost :
    (w : ℕ) (m : Message)
    → names m.workspace_id w ≡ true
    → has_context m ≡ true
    → is_some m.document_id ≡ false
lost w m its fits = elim (Option-cases m.workspace_id) [
  | inl absent ↦ ground arith
  | inr (k, there) ↦ ground arith
]

no_context :
    (w : ℕ) (messages : List Message)
    → any (λ (m : Message). names m.workspace_id w) messages ≡ true
    → all has_context messages ≡ true
    → all has_context (nullify w messages) ≡ false
no_context w [] h k = ground arith
no_context w (m ∷ messages) h k = elim (Bool-cases (names m.workspace_id w)) [
  | inr other ↦ ground (arith, no_context w messages)
  | inl its ↦ ground (arith, lost w m)
]

module _ (release : ℕ → List Message → List Message) (workspace_id : ℕ) (current_user : User) where
  -- If the unit of work sets the key to null in the messages of a workspace that is deleted, and
  -- each message is about a document or a workspace, then the deletion of a workspace that has a
  -- message raises, and the session does not change.
  pub delete_workspace_command-chatted :
      (s : Session)
      → ((w : ℕ) (messages : List Message) → release w messages ≡ nullify w messages)
      → all has_context s.current.messages ≡ true
      → any (λ (m : Message). names m.workspace_id workspace_id) s.current.messages ≡ true
      → (is_ok (delete_workspace_command release workspace_id current_user s).0 ≡ false)
        × ((delete_workspace_command release workspace_id current_user s).1 ≡ s)
  unfolding delete_workspace_command delete_workspace get_workspace_for_user
  delete_workspace_command-chatted s null contexts chatted =
      elim (Option-cases (get_workspace_for_user workspace_id current_user.id s.current)) [
        | inl missing ↦ ground arith
        | inr (w, found) ↦
            let test = and-eq_true _ _ (find-test _ s.current.workspaces w found) in
            let same : w.id ≡ workspace_id = (==_iff w.id workspace_id).0 test.0 in
            let bad = no_context workspace_id s.current.messages chatted contexts in
            ground (arith, null workspace_id s.current.messages)
      ]
