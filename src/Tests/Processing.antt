-- ===== src/Tests/Processing.antt =====
-- Runs of the processing of a document.
use vector_doc_qa.Prelude.{◌≡◌, refl, some, List, [], ◌∷◌, select}
use vector_doc_qa.Errors.{ok, err, runtime_error, message, str}
use vector_doc_qa.Models.{pending}
use vector_doc_qa.Database.{Session, commit, rollback}
use vector_doc_qa.Text.{is_space, space_at, slice, lstrip, strip}
use vector_doc_qa.Repositories.Documents.{
  of_document, get_document_by_id, delete_chunks_for_document, new_chunks,
  create_chunks_for_document,
}
use vector_doc_qa.Pdf.Pages.{
  join, add_separator, add_text, add_page, extract_from, extract_text_and_page_boundaries,
  last_page, find_page, page_for_char_offset, map_chunk_range_to_pages,
}
use vector_doc_qa.Pdf.Chunks.{
  last_space, skip, trim_end, window_end, chunk_start, chunk_end, step_back, snap, next_start,
  append_chunk, chunk_loop,
}
use vector_doc_qa.Pdf.Chunking.{ChunkWithPage, chunk_with_page, is_blank_text, chunk_text}
use vector_doc_qa.Embedding.{
  check_texts, lookup, collect, in_order, order_embeddings, generate_embeddings_batch,
}
use vector_doc_qa.Documents.Status.{update_document}
use vector_doc_qa.Documents.Processing.{
  extract_text_with_page_boundaries_from_pdf_bytes, set_embedding, assign_embeddings, embed_batch,
  embed_batches, begin_processing, store_chunks, chunks_of_pdf, process_body, fail_processing,
  process_document_text,
}
use vector_doc_qa.Documents.Processing.Outcome.{failed_with, base, process_document_text-failed}
use vector_doc_qa.Documents.Processing.Completed.{IsStored, process_document_text-IsStored}
use vector_doc_qa.Tests.Data.{working_client, broken_client, report, session, environment, alone}

-- "ab", "cd", both from page 1
abbrev two_chunks : List ChunkWithPage
two_chunks =
    record { content = 97 ∷ 98 ∷ []; page_start = some 1; page_end = some 1 }
    ∷ record { content = 99 ∷ 100 ∷ []; page_start = some 1; page_end = some 1 }
    ∷ []

abbrev processed : Session
processed = (process_document_text (environment working_client) alone 2 (session pending)).1

abbrev refused : Session
refused = (process_document_text (environment broken_client) alone 2 (session pending)).1

reads_chunks : chunks_of_pdf (environment working_client) alone 2 (102 ∷ []) ≡ ok two_chunks
unfolding chunks_of_pdf chunk_text chunk_with_page is_blank_text strip lstrip slice
    extract_text_and_page_boundaries chunk_loop map_chunk_range_to_pages join extract_from add_page
    add_text is_space window_end last_space space_at append_chunk chunk_start skip chunk_end
    trim_end page_for_char_offset find_page next_start
reads_chunks = refl

processed_ok :
    (process_document_text (environment working_client) alone 2 (session pending)).0 ≡ ok tt
unfolding process_document_text process_body begin_processing get_document_by_id
    delete_chunks_for_document commit chunks_of_pdf is_blank_text extract_text_and_page_boundaries
    join extract_from add_page add_text strip is_space store_chunks create_chunks_for_document
    rollback assign_embeddings embed_batch embed_batches
    extract_text_with_page_boundaries_from_pdf_bytes fail_processing set_embedding update_document
    check_texts collect generate_embeddings_batch in_order lookup order_embeddings str chunk_text
    chunk_with_page append_chunk chunk_end chunk_loop chunk_start last_space next_start skip snap
    step_back trim_end window_end add_separator find_page last_page map_chunk_range_to_pages
    page_for_char_offset new_chunks lstrip space_at
processed_ok = refl

no_old_chunks :
    select (of_document 2) (base (environment working_client) alone 2 (session pending)).chunks ≡ []
unfolding begin_processing delete_chunks_for_document commit update_document
no_old_chunks = refl

process_document_text-IsStored_example : IsStored 2 two_chunks 7 processed
unfolding get_document_by_id
process_document_text-IsStored_example =
    process_document_text-IsStored (environment working_client) alone 2 (session pending)
      (report pending) two_chunks refl reads_chunks no_old_chunks processed_ok

failed_run :
    (process_document_text (environment broken_client) alone 2 (session pending)).0
    ≡ err (runtime_error (message "no connection"))
unfolding process_document_text process_body begin_processing get_document_by_id
    delete_chunks_for_document commit chunks_of_pdf is_blank_text extract_text_and_page_boundaries
    join extract_from add_page add_text strip is_space store_chunks create_chunks_for_document
    rollback assign_embeddings embed_batch embed_batches
    extract_text_with_page_boundaries_from_pdf_bytes fail_processing set_embedding update_document
    check_texts collect generate_embeddings_batch in_order lookup order_embeddings str chunk_text
    chunk_with_page append_chunk chunk_end chunk_loop chunk_start last_space next_start skip snap
    step_back trim_end window_end add_separator find_page last_page map_chunk_range_to_pages
    page_for_char_offset new_chunks lstrip space_at
failed_run = refl

process_document_text-failed_example :
    refused.committed
    ≡ failed_with 2
        (runtime_error (message "no connection"))
        (base (environment broken_client) alone 2 (session pending))
unfolding get_document_by_id
process_document_text-failed_example =
    process_document_text-failed (environment broken_client) alone 2 (session pending)
      (runtime_error (message "no connection")) refl failed_run
