-- ===== src/Repositories/Messages.antt =====
-- backend/app/repositories/message_repository.py
use vector_doc_qa.Prelude.{
  ℕ, Bool, true, false, ◌&&◌, ◌||◌, not, Option, none, some, List, [], ◌∷◌, ◌++◌, ◌==◌, ltb, map,
  select, order_by, take, any,
}
use vector_doc_qa.Errors.{value_error, integrity_error, message}
use vector_doc_qa.Exec.{◌>>=◌, ◌>>◌, pure, raise_if, gets}
use vector_doc_qa.Text.{Text}
use vector_doc_qa.Json.{Json}
use vector_doc_qa.Models.{User, Document, Workspace, Message, Role}
use vector_doc_qa.Database.{Db, Query, execute, fresh}

-- A foreign key that is not null names a row.
abbrev pub refers : Option ℕ → (ℕ → Bool) → Bool
refers none exists = true
refers (some id) exists = exists id

abbrev pub has_references : Option ℕ → Option ℕ → ℕ → Db → Bool
has_references document_id workspace_id user_id db =
    refers document_id (λ id. any (λ (d : Document). d.id == id) db.documents)
    && refers workspace_id (λ id. any (λ (w : Workspace). w.id == id) db.workspaces)
    && any (λ (u : User). u.id == user_id) db.users

-- (document_id is None) == (workspace_id is None)
abbrev pub same_presence : Option ℕ → Option ℕ → Bool
same_presence none none = true
same_presence (some d) (some w) = true
same_presence _ _ = false

unfoldable pub create_message : Option ℕ → Option ℕ → ℕ → Role → Text → Option Json → Query Message
create_message document_id workspace_id user_id role content sources = do
  raise_if (same_presence document_id workspace_id)
      (value_error (message "Exactly one of document_id or workspace_id must be provided"))
  linked ← gets (λ s. has_references document_id workspace_id user_id s.current)
  raise_if (not linked) (integrity_error (message "messages_fkey"))
  id ← fresh
  now ← gets (λ s. s.now)
  let row : Message = record {
    id = id;
    document_id = document_id;
    workspace_id = workspace_id;
    user_id = user_id;
    role = role;
    content = content;
    sources = sources;
    created_at = now;
  }
  execute (λ db. record db { messages = db.messages ++ row ∷ [] })
  pure row

-- ORDER BY created_at DESC, id DESC
abbrev pub newer : Message → Message → Bool
newer a b = ltb b.created_at a.created_at || (a.created_at == b.created_at && ltb b.id a.id)

abbrev pub names : Option ℕ → ℕ → Bool
names none id = false
names (some k) id = k == id

abbrev pub of_document_user : ℕ → ℕ → Message → Bool
of_document_user document_id user_id m = names m.document_id document_id && m.user_id == user_id

abbrev pub of_workspace_user : ℕ → ℕ → Message → Bool
of_workspace_user workspace_id user_id m = names m.workspace_id workspace_id && m.user_id == user_id

abbrev pub limited {ℓ} : {A : Type ℓ} → Option ℕ → List A → List A
limited none rows = rows
limited (some limit) rows = take limit rows

unfoldable pub list_messages_for_document_user : ℕ → ℕ → Option ℕ → Db → List Message
list_messages_for_document_user document_id user_id limit db =
    limited limit (order_by newer (select (of_document_user document_id user_id) db.messages))

unfoldable pub list_messages_for_workspace_user : ℕ → ℕ → Option ℕ → Db → List Message
list_messages_for_workspace_user workspace_id user_id limit db =
    limited limit (order_by newer (select (of_workspace_user workspace_id user_id) db.messages))

-- The pairs (role, content) of the newest messages, newest first.
abbrev pub pair : Message → Role × Text
pair m = (m.role, m.content)

unfoldable pub list_recent_message_pairs_for_document_user : ℕ → ℕ → ℕ → Db → List (Role × Text)
list_recent_message_pairs_for_document_user document_id user_id limit db =
    map pair
      (take limit (order_by newer (select (of_document_user document_id user_id) db.messages)))

unfoldable pub list_recent_message_pairs_for_workspace_user : ℕ → ℕ → ℕ → Db → List (Role × Text)
list_recent_message_pairs_for_workspace_user workspace_id user_id limit db =
    map pair
      (take limit (order_by newer (select (of_workspace_user workspace_id user_id) db.messages)))
