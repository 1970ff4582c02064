-- ===== src/Documents/Processing.antt =====
-- `process_document_text` of backend/app/services/document_service.py. What other sessions commit
-- while the PDF is read is the parameter `others`; the storage backend and `pdfplumber`, with the
-- timeout around it, are parameters too.
pub mod Outcome
pub mod Embedded
pub mod Completed
use vector_doc_qa.Prelude.{
  ℕ, zero, suc, ◌+◌, ◌-◌, min, not, Bool, Option, none, some, List, [], ◌∷◌, map, ◌==◌, ltb, length,
  take, drop, update, is_some, if◌then◌else◌,
}
use vector_doc_qa.Errors.{
  Exc, Result, ok, err, and_then, value_error, timeout_error, message, with_number, with_numbers,
  str,
}
use vector_doc_qa.Exec.{◌>>=◌, ◌>>◌, pure, raise, raise_if, or_raise, lift, gets, catch}
use vector_doc_qa.Text.{Text}
use vector_doc_qa.Models.{Document, Chunk, Vector, processing, completed, failed}
use vector_doc_qa.Database.{Db, Session, Query, read, execute, commit, rollback, meanwhile}
use vector_doc_qa.Repositories.Documents.{
  ChunkPayload, get_document_by_id, delete_chunks_for_document, create_chunks_for_document,
}
use vector_doc_qa.Files.{Bytes}
use vector_doc_qa.Pdf.Pages.{ExtractedPdfText, extract_text_and_page_boundaries}
use vector_doc_qa.Pdf.Chunking.{ChunkWithPage, is_blank_text, chunk_text}
use vector_doc_qa.Embedding.{Client, generate_embeddings_batch}
use vector_doc_qa.Documents.Status.{
  is_completed, is_processing, with_status, with_time, update_document,
}

abbrev pub embedding_batch_size : ℕ
embedding_batch_size = 100

pub record Environment : Type 0 where
  pub read_file_bytes : Text → Result Bytes
  -- What `page.extract_text()` returns for each page, or the exception of the extraction.
  pub extract_pages : Bytes → Result (List (Option Text))
  pub client : Client
  pub chunk_size : ℕ
  pub chunk_overlap : ℕ

-- A timeout is raised again with another message.
abbrev pub rename_timeout {ℓ} : {A : Type ℓ} → Result A → Result A
rename_timeout (ok a) = ok a
rename_timeout (err (timeout_error d)) = err (
    timeout_error (
      message
        "PDF processing timed out after 30 seconds. This PDF may contain complex graphics or be image-based."))
rename_timeout (err e) = err e

unfoldable pub extract_text_with_page_boundaries_from_pdf_bytes :
    Environment → Bytes → Result ExtractedPdfText
extract_text_with_page_boundaries_from_pdf_bytes env pdf_bytes =
    and_then (rename_timeout (env.extract_pages pdf_bytes))
      λ pages. ok (extract_text_and_page_boundaries pages)

abbrev pub payload : ChunkWithPage → ChunkPayload
payload c = (c.content, c.page_start, c.page_end)

abbrev pub content_of : Chunk → Text
content_of c = c.content

unfoldable pub set_embedding : ℕ → Vector → List Chunk → List Chunk
set_embedding id v = update (λ c. c.id == id) (λ c. record c { embedding = some v })

-- chunk.embedding = embeddings[index], for the chunks of a batch.
unfoldable pub assign_embeddings : List Chunk → List Vector → Db → Db
unfolding set_embedding
assign_embeddings (c ∷ batch) (v ∷ vs) db =
    assign_embeddings batch vs (record db { chunks = set_embedding c.id v db.chunks })
assign_embeddings _ _ db = db

-- One pass of the loop over the batches.
unfoldable pub embed_batch : Client → List Chunk → Query (Unit {0})
embed_batch client batch = do
  embeddings ← generate_embeddings_batch client (map content_of batch)
  raise_if (not (length embeddings == length batch)) (
      value_error (
        with_numbers "Embedding count mismatch: expected " (length batch) ", got "
          (length embeddings)))
  execute (assign_embeddings batch embeddings)

-- for batch_start in range(0, len(chunk_objects), EMBEDDING_BATCH_SIZE), over the chunks that are
-- left. Each pass takes one chunk at least, so their number is enough fuel.
unfoldable pub embed_batches : Client → ℕ → List Chunk → Query (Unit {0})
embed_batches client zero chunks = pure tt
embed_batches client (suc fuel) [] = pure tt
embed_batches client (suc fuel) (c ∷ chunks) =
    embed_batch client (take embedding_batch_size (c ∷ chunks))
    >> embed_batches client fuel (drop embedding_batch_size (c ∷ chunks))

module _ (env : Environment) (others : Db → Db) (document_id : ℕ) where
  -- The first transaction: the document is marked, and its old chunks are deleted.
  unfoldable pub begin_processing : Query (Unit {0})
  begin_processing = do
    execute (update_document document_id (with_status processing none none))
    delete_chunks_for_document document_id
    commit

  -- The second transaction: the chunks with their embeddings, and the status.
  unfoldable pub store_chunks : List ChunkWithPage → Query (Unit {0})
  store_chunks chunks = do
    chunk_objects ← create_chunks_for_document document_id (map payload chunks)
    embed_batches env.client (length chunk_objects) chunk_objects
    now ← gets (λ s. s.now)
    execute (update_document document_id (with_time completed now))
    commit

  unfoldable pub chunks_of_pdf : Text → Result (List ChunkWithPage)
  unfolding extract_text_with_page_boundaries_from_pdf_bytes
  chunks_of_pdf file_path = and_then (env.read_file_bytes file_path) λ pdf_bytes.
      and_then (extract_text_with_page_boundaries_from_pdf_bytes env pdf_bytes) λ extracted.
        if is_blank_text extracted.text
        then err (value_error (message "No text could be extracted from PDF"))
        else ok (
            chunk_text env.chunk_size env.chunk_overlap extracted.text none none
              (some extracted.page_boundaries))

  unfoldable pub process_body : Document → Query (Unit {0})
  process_body document = do
    begin_processing
    meanwhile others
    chunks ← lift (chunks_of_pdf document.file_path)
    store_chunks chunks

  -- The handler: the transaction is rolled back and the document, if it is still there, marked.
  abbrev pub mark_failed : Exc → Query (Unit {0})
  mark_failed e s =
      if is_some (get_document_by_id document_id s.current)
      then (execute (update_document document_id (with_status failed (some (str e)) none))
            >> commit)
          s
      else (ok tt, s)

  unfoldable pub fail_processing : Exc → Query (Unit {0})
  unfolding rollback get_document_by_id update_document commit str
  fail_processing e = do rollback; mark_failed e; raise e

  -- The two tests of the status.
  abbrev pub check_status : Document → Query (Unit {0})
  check_status document = do
    raise_if (is_completed document.status)
        (value_error (with_number "Document " document_id " already processed"))
    raise_if (is_processing document.status)
        (value_error (with_number "Document " document_id " is currently being processed"))

  unfoldable pub process_document_text : Query (Unit {0})
  process_document_text = do
    found ← gets (read (get_document_by_id document_id))
    document ←
        or_raise found (value_error (with_number "Document with ID " document_id " not found"))
    check_status document
    catch (process_body document) fail_processing
