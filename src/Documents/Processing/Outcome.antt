-- ===== src/Documents/Processing/Outcome.antt =====
-- What `process_document_text` commits, by how it ends.
use vector_doc_qa.Prelude.{
  ℕ, zero, suc, ◌≡◌, refl, Bool, true, false, not, ◌||◌, Option, none, some, List, [], ◌∷◌, arith,
  is_some, take, drop, map, if◌then◌else◌, Option-cases, inl, inr, length,
}
use vector_doc_qa.Errors.{Exc, ok, err, is_ok, str, Result-cases}
use vector_doc_qa.Exec.{catch}
use vector_doc_qa.Text.{Text}
use vector_doc_qa.Models.{Document, Chunk, failed}
use vector_doc_qa.Database.{Db, Session, meanwhile, commit}
use vector_doc_qa.Repositories.Documents.{
  ChunkPayload, get_document_by_id, delete_chunks_for_document, create_chunks_for_document,
}
use vector_doc_qa.Pdf.Chunking.{ChunkWithPage}
use vector_doc_qa.Embedding.{Client, generate_embeddings_batch}
use vector_doc_qa.Documents.Status.{is_completed, is_processing, with_status, update_document}
use vector_doc_qa.Documents.Processing.{
  Environment, content_of, embed_batch, embed_batches, embedding_batch_size, begin_processing,
  store_chunks, chunks_of_pdf, process_body, fail_processing, payload, process_document_text,
}

pub committed-generate :
    (client : Client) (texts : List Text) (s : Session)
    → ((generate_embeddings_batch client texts s).1.committed ≡ s.committed)
      × ((generate_embeddings_batch client texts s).1.current ≡ s.current)
      × ((generate_embeddings_batch client texts s).1.now ≡ s.now)
unfolding generate_embeddings_batch
committed-generate client texts s = ground arith

committed-embed_batch :
    (client : Client) (batch : List Chunk) (s : Session)
    → (embed_batch client batch s).1.committed ≡ s.committed
unfolding embed_batch
committed-embed_batch client batch s =
    ground (arith, committed-generate client (map content_of batch) s)

-- The loop over the batches commits nothing.
committed-embed_batches :
    (client : Client) (fuel : ℕ) (chunks : List Chunk) (s : Session)
    → (embed_batches client fuel chunks s).1.committed ≡ s.committed
unfolding embed_batches
committed-embed_batches client zero chunks s = refl
committed-embed_batches client (suc fuel) [] s = refl
committed-embed_batches client (suc fuel) (c ∷ chunks) s =
    let batch = take embedding_batch_size (c ∷ chunks) in
    ground (
      arith,
      committed-embed_batch client batch s,
      committed-embed_batches client fuel (drop embedding_batch_size (c ∷ chunks))
          (embed_batch client batch s).1,
    )

committed-create :
    (document_id : ℕ) (payloads : List ChunkPayload) (s : Session)
    → (create_chunks_for_document document_id payloads s).1.committed ≡ s.committed
unfolding create_chunks_for_document
committed-create document_id payloads s = ground arith

abbrev pub is_startable : Option Document → Bool
is_startable none = false
is_startable (some d) = not (is_completed d.status || is_processing d.status)

-- The database with the document marked as failed, if it is there.
abbrev pub failed_with : ℕ → Exc → Db → Db
failed_with document_id e db =
    if is_some (get_document_by_id document_id db)
    then update_document document_id (with_status failed (some (str e)) none) db
    else db

module _ (env : Environment) (others : Db → Db) (document_id : ℕ) where
  store_chunks-err :
      (chunks : List ChunkWithPage) (s : Session) (e : Exc)
      → (store_chunks env others document_id chunks s).0 ≡ err e
      → (store_chunks env others document_id chunks s).1.committed ≡ s.committed
  unfolding store_chunks commit
  store_chunks-err chunks s e h =
      let create = create_chunks_for_document document_id (map payload chunks) in
      elim (Result-cases (create s).0) [
        | inr (x, refused) ↦ ground (arith, committed-create document_id (map payload chunks) s)
        | inl (objects, created) ↦ ground (
          arith,
          committed-create document_id (map payload chunks) s,
          committed-embed_batches env.client (length objects) objects (create s).1,
        )
      ]

  -- What the others leave of the first transaction.
  abbrev pub base : Session → Db
  base s = others (begin_processing env others document_id s).1.committed

  pub begin-ok : (s : Session) → (begin_processing env others document_id s).0 ≡ ok tt
  unfolding begin_processing commit delete_chunks_for_document
  begin-ok s = refl

  process_body-err :
      (d : Document) (s : Session) (e : Exc)
      → (process_body env others document_id d s).0 ≡ err e
      → (process_body env others document_id d s).1.committed ≡ base s
  unfolding process_body
  process_body-err d s e h =
      let s1 = (meanwhile others (begin_processing env others document_id s).1).1 in
      elim (Result-cases (chunks_of_pdf env others document_id d.file_path)) [
        | inr (x, refused) ↦ ground (arith, begin-ok s)
        | inl (chunks, read) ↦ ground (arith, begin-ok s, store_chunks-err chunks s1 e)
      ]

  pub fail_processing_lem :
      (e : Exc) (s : Session)
      → ((fail_processing env others document_id e s).0 ≡ err e)
        × ((fail_processing env others document_id e s).1.committed
            ≡ failed_with document_id e s.committed)
  unfolding fail_processing
  fail_processing_lem e s = ground arith

  -- A document that is missing, completed or being processed is refused with an exception, and the
  -- session does not change.
  pub process_document_text-refused :
      (s : Session)
      → is_startable (get_document_by_id document_id s.current) ≡ false
      → (is_ok (process_document_text env others document_id s).0 ≡ false)
        × ((process_document_text env others document_id s).1 ≡ s)
  unfolding process_document_text
  process_document_text-refused s h = ground arith

  pub started :
      (s : Session) (d : Document)
      → get_document_by_id document_id s.current ≡ some d
      → is_startable (some d) ≡ true
      → process_document_text env others document_id s
        ≡ catch (process_body env others document_id d) (fail_processing env others document_id) s
  unfolding process_document_text
  started s d found ready = ground arith

  failed_body :
      (d : Document) (s : Session) (e : Exc)
      → (catch (process_body env others document_id d) (fail_processing env others document_id) s).0
        ≡ err e
      → (catch
          (process_body env others document_id d)
          (fail_processing env others document_id)
          s).1.committed
        ≡ failed_with document_id e (base s)
  failed_body d s e h = elim (Result-cases (process_body env others document_id d s).0) [
    | inl (u, fine) ↦ ground arith
    | inr (x, bad) ↦ ground (
      arith,
      process_body-err d s x,
      fail_processing_lem x (process_body env others document_id d s).1,
    )
  ]

  -- If the processing of a document that may be started raises, what is committed is what the
  -- others left of the first transaction, with the document, if it is still there, marked as failed
  -- by that exception: nothing of the second transaction.
  pub process_document_text-failed :
      (s : Session) (e : Exc)
      → is_startable (get_document_by_id document_id s.current) ≡ true
      → (process_document_text env others document_id s).0 ≡ err e
      → (process_document_text env others document_id s).1.committed
        ≡ failed_with document_id e (base s)
  process_document_text-failed s e ready h =
      elim (Option-cases (get_document_by_id document_id s.current)) [
        | inl missing ↦ cc (let r : is_startable none ≡ true = rw missing at ready in r)
        | inr (d, found) ↦
            let p = started s d found (rw found at ready) in rw p (failed_body d s e (rw p at h))
      ]
