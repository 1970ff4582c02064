-- ===== src/Repositories/Documents.antt =====
-- backend/app/repositories/document_repository.py
use vector_doc_qa.Prelude.{
  ℕ, suc, ◌+◌, Bool, ◌&&◌, Option, none, some, List, [], ◌∷◌, ◌++◌, ◌==◌, leb, if◌then◌else◌,
  select, find, delete, order_by, take, any, is_some, length,
}
use vector_doc_qa.Errors.{ok, err, integrity_error, message}
use vector_doc_qa.Exec.{◌>>=◌, ◌>>◌, pure, gets}
use vector_doc_qa.Text.{Text}
use vector_doc_qa.Models.{Document, DocumentStatus, Chunk, Vector}
use vector_doc_qa.Database.{Db, Query, execute, fresh}

abbrev pub has_id : ℕ → Document → Bool
has_id document_id d = d.id == document_id

abbrev pub of_document : ℕ → Chunk → Bool
of_document document_id c = c.document_id == document_id

-- INSERT; `uploaded_at` is the server's clock.
unfoldable pub create_document : Text → Text → ℕ → ℕ → DocumentStatus → Query Document
create_document filename file_path file_size user_id status = do
  id ← fresh
  now ← gets (λ s. s.now)
  let document : Document = record {
    id = id;
    filename = filename;
    file_path = file_path;
    file_size = file_size;
    status = status;
    user_id = user_id;
    uploaded_at = now;
    processed_at = none;
    error_message = none;
  }
  execute (λ db. record db { documents = db.documents ++ document ∷ [] })
  pure document

-- Newest first.
unfoldable pub list_documents_for_user : ℕ → Db → List Document
list_documents_for_user user_id db =
    order_by (λ (a b : Document). leb b.uploaded_at a.uploaded_at)
      (select (λ (d : Document). d.user_id == user_id) db.documents)

unfoldable pub get_document_for_user : ℕ → ℕ → Db → Option Document
get_document_for_user document_id user_id db =
    find (λ (d : Document). has_id document_id d && d.user_id == user_id) db.documents

unfoldable pub get_document_by_id : ℕ → Db → Option Document
get_document_by_id document_id db = find (has_id document_id) db.documents

unfoldable pub delete_chunks_for_document : ℕ → Query (Unit {0})
delete_chunks_for_document document_id =
    execute (λ db. record db { chunks = delete (of_document document_id) db.chunks })

abbrev pub ChunkPayload : Type 0
ChunkPayload = Text × Option ℕ × Option ℕ

-- The new rows, numbered from `chunk_index` on, with keys from `id` on.
unfoldable pub new_chunks : ℕ → ℕ → ℕ → List ChunkPayload → List Chunk
new_chunks document_id id chunk_index [] = []
new_chunks document_id id chunk_index ((content, page_start, page_end) ∷ payloads) =
    record {
      id = id;
      document_id = document_id;
      content = content;
      chunk_index = chunk_index;
      page_start = page_start;
      page_end = page_end;
      embedding = none;
    }
    ∷ new_chunks document_id (suc id) (suc chunk_index) payloads

-- The flush inserts the rows, and fails on the foreign key if the document is gone.
unfoldable pub create_chunks_for_document : ℕ → List ChunkPayload → Query (List Chunk)
create_chunks_for_document document_id payloads s =
    let chunks = new_chunks document_id s.current.next_id 0 payloads in
    if is_some (find (has_id document_id) s.current.documents)
    then (
      ok chunks,
      record s {
        current = record s.current {
          chunks = s.current.chunks ++ chunks;
          next_id = s.current.next_id + length payloads;
        };
      },
    )
    else (err (integrity_error (message "chunks_document_id_fkey")), s)

unfoldable pub document_has_chunks : ℕ → Db → Bool
document_has_chunks document_id db = any (of_document document_id) db.chunks

-- A row of the similarity search: a chunk with its distance from the query.
abbrev pub Hit : Type 0
Hit = Chunk × ℕ

-- pgvector's cosine distance, a float, and the order of floats are parameters.
module _ (cosine_distance : Vector → Vector → ℕ) (float_le : ℕ → ℕ → Bool) where
  abbrev pub hit : Vector → Chunk → List Hit
  hit query_embedding c = elim c.embedding [
    | none ↦ []
    | some embedding ↦ (c, cosine_distance embedding query_embedding) ∷ []
  ]

  -- Chunks without an embedding are left out.
  unfoldable pub hits : Vector → List Chunk → List Hit
  hits query_embedding [] = []
  hits query_embedding (c ∷ chunks) = hit query_embedding c ++ hits query_embedding chunks

  unfoldable pub search_document_chunks_by_embedding : ℕ → Vector → ℕ → Db → List Hit
  unfolding hits
  search_document_chunks_by_embedding document_id query_embedding top_k db = take top_k (
      order_by (λ (a b : Hit). float_le a.1 b.1)
        (hits query_embedding (select (of_document document_id) db.chunks)))
