-- ===== src/Repositories/DemoSeed.antt =====
-- backend/app/repositories/demo_seed_repository.py
use text.Mathlib.Text.{◌==◌ as str_eq}
use vector_doc_qa.Prelude.{
  ℕ, String, true, not, ◌||◌, Option, none, some, List, [], ◌∷◌, ◌++◌, ◌==◌, map, select, find,
  length,
}
use vector_doc_qa.Errors.{integrity_error, other, message}
use vector_doc_qa.Exec.{◌>>=◌, ◌>>◌, pure, raise_if, gets}
use vector_doc_qa.Text.{Text}
use vector_doc_qa.Models.{User, Document, Chunk, completed, Vector}
use vector_doc_qa.Database.{Db, Query, execute, fresh}
use vector_doc_qa.Repositories.Users.{is_taken}
use vector_doc_qa.Repositories.Documents.{of_document}
use vector_doc_qa.Documents.Commands.{delete_rows}
use vector_doc_qa.Embedding.{embedding_dimensions}

unfoldable pub get_user_by_username_or_email : String → String → Db → Option User
get_user_by_username_or_email username email db =
    find (λ (u : User). str_eq u.username username || str_eq u.email email) db.users

-- The flush is refused also for what others have committed.
unfoldable pub create_demo_user : (Db → Db) → String → String → String → Query User
create_demo_user others username email hashed_password = do
  taken ←
      gets (λ s. is_taken username email s.current || is_taken username email (others s.committed))
  raise_if taken (integrity_error (message "users_key"))
  id ← fresh
  let demo_user : User = record {
    id = id;
    username = username;
    email = email;
    hashed_password = hashed_password;
    is_demo = true;
  }
  execute (λ db. record db { users = db.users ++ demo_user ∷ [] })
  pure demo_user

abbrev pub chunks_of : List Chunk → Document → List Chunk
chunks_of chunks d = select (of_document d.id) chunks

-- Each document with its chunks.
unfoldable pub list_documents_with_chunks_for_user : ℕ → Db → List (Document × List Chunk)
list_documents_with_chunks_for_user user_id db =
    map (λ (d : Document). (d, chunks_of db.chunks d))
      (select (λ (d : Document). d.user_id == user_id) db.documents)

unfoldable pub delete_documents : List (Document × List Chunk) → Db → Db
unfolding delete_rows
delete_documents [] db = db
delete_documents ((d, chunks) ∷ documents) db = delete_documents documents (delete_rows d.id db)

unfoldable pub create_completed_document : ℕ → Text → Text → ℕ → ℕ → Query Document
create_completed_document user_id filename file_path file_size processed_at = do
  id ← fresh
  now ← gets (λ s. s.now)
  let document : Document = record {
    id = id;
    filename = filename;
    file_path = file_path;
    file_size = file_size;
    status = completed;
    user_id = user_id;
    uploaded_at = now;
    processed_at = some processed_at;
    error_message = none;
  }
  execute (λ db. record db { documents = db.documents ++ document ∷ [] })
  pure document

-- The column takes vectors of one dimension; the flush that refuses another is moved to the insertion.
unfoldable pub create_document_chunk :
    ℕ → Text → ℕ → Option ℕ → Option ℕ → Vector → Query (Unit {0})
create_document_chunk document_id content chunk_index page_start page_end embedding = do
  raise_if (not (length embedding == embedding_dimensions))
      (other (message "expected 1536 dimensions"))
  id ← fresh
  let chunk : Chunk = record {
    id = id;
    document_id = document_id;
    content = content;
    chunk_index = chunk_index;
    page_start = page_start;
    page_end = page_end;
    embedding = some embedding;
  }
  execute (λ db. record db { chunks = db.chunks ++ chunk ∷ [] })
