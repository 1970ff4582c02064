-- ===== src/Repositories/Workspaces.antt =====
-- backend/app/repositories/workspace_repository.py
use vector_doc_qa.Prelude.{
  ℕ, String, Bool, ◌&&◌, ◌||◌, not, Option, none, some, List, [], ◌∷◌, ◌++◌, ◌==◌, leb, ltb, map,
  select, find, delete, order_by, take, any, is_some, length,
}
use vector_doc_qa.Errors.{integrity_error, message}
use vector_doc_qa.Exec.{◌>>=◌, ◌>>◌, pure, raise_if, gets}
use vector_doc_qa.Text.{Text}
use vector_doc_qa.Models.{Document, Chunk, Vector, Workspace, WorkspaceDocument}
use vector_doc_qa.Database.{Db, Query, execute, fresh}
use vector_doc_qa.Repositories.Documents.{Hit, hits}

abbrev pub of_workspace : ℕ → WorkspaceDocument → Bool
of_workspace workspace_id m = m.workspace_id == workspace_id

abbrev pub links : ℕ → ℕ → WorkspaceDocument → Bool
links workspace_id document_id m = m.workspace_id == workspace_id && m.document_id == document_id

abbrev pub document_of : WorkspaceDocument → ℕ
document_of m = m.document_id

unfoldable pub create_workspace : ℕ → String → Query Workspace
create_workspace user_id name = do
  id ← fresh
  now ← gets (λ s. s.now)
  let workspace : Workspace = record {
    id = id;
    name = name;
    user_id = user_id;
    created_at = now;
    updated_at = now;
  }
  execute (λ db. record db { workspaces = db.workspaces ++ workspace ∷ [] })
  pure workspace

unfoldable pub get_workspace_for_user : ℕ → ℕ → Db → Option Workspace
get_workspace_for_user workspace_id user_id db =
    find (λ (w : Workspace). w.id == workspace_id && w.user_id == user_id) db.workspaces

unfoldable pub count_workspace_documents : ℕ → Db → ℕ
count_workspace_documents workspace_id db =
    length (select (of_workspace workspace_id) db.workspace_documents)

-- ORDER BY created_at DESC, id DESC
abbrev pub newer : Workspace → Workspace → Bool
newer a b = ltb b.created_at a.created_at || (a.created_at == b.created_at && ltb b.id a.id)

unfoldable pub list_workspaces_for_user_with_counts : ℕ → Db → List (Workspace × ℕ)
unfolding count_workspace_documents
list_workspaces_for_user_with_counts user_id db =
    map (λ (w : Workspace). (w, count_workspace_documents w.id db))
      (order_by newer (select (λ (w : Workspace). w.user_id == user_id) db.workspaces))

-- The document that a membership row joins with.
abbrev pub joined : List Document → WorkspaceDocument → List Document
joined documents m = select (λ (d : Document). d.id == m.document_id) documents

unfoldable pub join_documents : List Document → List WorkspaceDocument → List Document
join_documents documents [] = []
join_documents documents (m ∷ members) = joined documents m ++ join_documents documents members

-- ORDER BY added_at, id
abbrev pub added_before : WorkspaceDocument → WorkspaceDocument → Bool
added_before a b = ltb a.added_at b.added_at || (a.added_at == b.added_at && leb a.id b.id)

unfoldable pub list_workspace_documents : ℕ → Db → List Document
unfolding join_documents
list_workspace_documents workspace_id db =
    join_documents db.documents
      (order_by added_before (select (of_workspace workspace_id) db.workspace_documents))

-- A set of keys in the source; only membership and size are used.
unfoldable pub list_workspace_document_ids : ℕ → Db → List ℕ
list_workspace_document_ids workspace_id db =
    map document_of (select (of_workspace workspace_id) db.workspace_documents)

abbrev pub is_in : ℕ → List ℕ → Bool
is_in id ids = any (λ k. k == id) ids

unfoldable pub get_documents_for_user_by_ids : ℕ → List ℕ → Db → List Document
get_documents_for_user_by_ids user_id [] db = []
get_documents_for_user_by_ids user_id (id ∷ ids) db =
    select (λ (d : Document). d.user_id == user_id && is_in d.id (id ∷ ids)) db.documents

-- The rows that the two foreign keys name.
abbrev pub has_ends : ℕ → ℕ → Db → Bool
has_ends workspace_id document_id db =
    any (λ (w : Workspace). w.id == workspace_id) db.workspaces
    && any (λ (d : Document). d.id == document_id) db.documents

abbrev pub add_member : ℕ → ℕ → Query (Unit {0})
add_member workspace_id document_id = do
  linked ← gets (λ s. any (links workspace_id document_id) s.current.workspace_documents)
  raise_if linked (integrity_error (message "uq_workspace_documents_workspace_document"))
  present ← gets (λ s. has_ends workspace_id document_id s.current)
  raise_if (not present) (integrity_error (message "workspace_documents_fkey"))
  id ← fresh
  now ← gets (λ s. s.now)
  execute (λ db. record db {
    workspace_documents =
        db.workspace_documents
        ++ record {
          id = id;
          workspace_id = workspace_id;
          document_id = document_id;
          added_at = now;
        }
          ∷ [];
  })

-- The flush inserts the rows; a pair that is there already breaks the unique constraint,
-- and a row that is gone a foreign key.
unfoldable pub add_workspace_documents : ℕ → List ℕ → Query (Unit {0})
add_workspace_documents workspace_id [] = pure tt
add_workspace_documents workspace_id (document_id ∷ ids) =
    add_member workspace_id document_id >> add_workspace_documents workspace_id ids

-- DELETE ... RETURNING id: whether a row was deleted.
unfoldable pub remove_workspace_document : ℕ → ℕ → Query Bool
remove_workspace_document workspace_id document_id = do
  found ← gets (λ s. find (links workspace_id document_id) s.current.workspace_documents)
  execute (λ db. record db {
    workspace_documents = delete (links workspace_id document_id) db.workspace_documents;
  })
  pure (is_some found)

-- The chunks of the workspace's documents, by the join on `document_id`.
abbrev pub chunks_of : List Chunk → WorkspaceDocument → List Chunk
chunks_of chunks m = select (λ (c : Chunk). c.document_id == m.document_id) chunks

unfoldable pub workspace_chunks : List Chunk → List WorkspaceDocument → List Chunk
workspace_chunks chunks [] = []
workspace_chunks chunks (m ∷ members) = chunks_of chunks m ++ workspace_chunks chunks members

unfoldable pub workspace_has_searchable_chunks : ℕ → Db → Bool
unfolding workspace_chunks
workspace_has_searchable_chunks workspace_id db =
    any (λ (c : Chunk). is_some c.embedding)
      (workspace_chunks db.chunks (select (of_workspace workspace_id) db.workspace_documents))

-- Ownership, the number of documents, and whether a chunk can be searched, in one statement.
unfoldable pub get_workspace_query_preflight : ℕ → ℕ → Db → Option (Workspace × ℕ × Bool)
unfolding get_workspace_for_user count_workspace_documents workspace_has_searchable_chunks
get_workspace_query_preflight workspace_id user_id db =
    elim (get_workspace_for_user workspace_id user_id db) [
      | none ↦ none
      | some w ↦
          some (w, count_workspace_documents w.id db, workspace_has_searchable_chunks w.id db)
    ]

module _ (cosine_distance : Vector → Vector → ℕ) (float_le : ℕ → ℕ → Bool) where
  -- A hit with the name of its document's file, by the join on the document's key.
  abbrev pub with_filename : List Document → Hit → List (Hit × Text)
  with_filename documents h =
      map (λ (d : Document). (h, d.filename))
        (select (λ (d : Document). d.id == h.0.document_id) documents)

  unfoldable pub with_filenames : List Document → List Hit → List (Hit × Text)
  with_filenames documents [] = []
  with_filenames documents (h ∷ rest) = with_filename documents h ++ with_filenames documents rest

  unfoldable pub search_workspace_chunks_by_embedding : ℕ → Vector → ℕ → Db → List (Hit × Text)
  unfolding hits workspace_chunks with_filenames
  search_workspace_chunks_by_embedding workspace_id query_embedding top_k db = take top_k (
      order_by (λ (a b : Hit × Text). float_le a.0.1 b.0.1)
        (with_filenames db.documents (
          hits cosine_distance float_le query_embedding (
            workspace_chunks db.chunks
              (select (of_workspace workspace_id) db.workspace_documents)))))
