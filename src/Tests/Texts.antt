-- ===== src/Tests/Texts.antt =====
-- Runs on texts, pages, embeddings and uploads.
use vector_doc_qa.Prelude.{
  if◌then◌else◌, ltb, not, ◌&&◌, ℕ, zero, suc, ◌+◌, ◌≤◌, ◌<◌, ◌≡◌, refl, ◌==◌, ◌||◌, is_some, true,
  false, none, some, List, [], ◌∷◌, ◌++◌, length, get_elem?, is_empty, arith,
}
use vector_doc_qa.Errors.{ok, err, is_ok}
use vector_doc_qa.Text.{Text}
use vector_doc_qa.Pdf.Pages.{extract_text_and_page_boundaries, page_for_char_offset}
use vector_doc_qa.Pdf.Pages.Attribution.{page_offset, page_for_char_offset-page}
use vector_doc_qa.Pdf.Chunks.{chunk_loop}
use vector_doc_qa.Pdf.Chunks.Loop.{span, chunk_loop-fuel}
use vector_doc_qa.Pdf.Chunking.{is_blank_text, chunk_text}
use vector_doc_qa.Pdf.Chunking.Guarantees.{IsChunking, chunk_text-IsChunking}
use vector_doc_qa.Embedding.{EmbeddingItem, order_embeddings, lookup}
use vector_doc_qa.Embedding.Alignment.{embedding_of, order_embeddings-aligned}
use vector_doc_qa.Embedding.Complete.{IsComplete, order_embeddings_complete}
use vector_doc_qa.Files.{
  Bytes, Unicode, generate_unique_filename, read_upload, starts_with, pdf_magic_bytes, not_pdf,
  too_large,
}
use vector_doc_qa.Files.Names.{has_slash, generate_unique_filename-no_slash}
use vector_doc_qa.Files.Uploads.{content, first_read, read_upload-ok, read_upload-content}
use vector_doc_qa.Tests.Data.{short_text, zeros}

chunk_text-IsChunking_example :
    IsChunking short_text 4 1 [] (chunk_text 4 1 short_text none none none)
chunk_text-IsChunking_example = chunk_text-IsChunking 4 1 short_text none none none (omega arith)

inked : is_blank_text short_text ≡ false
unfolding is_blank_text vector_doc_qa.Text.strip vector_doc_qa.Text.is_space
inked = refl

chunk_loop-fuel_example : chunk_loop span short_text 4 1 9 0 ≡ chunk_loop span short_text 4 1 5 0
chunk_loop-fuel_example =
    chunk_loop-fuel span short_text 4 1 5 9 0 (omega arith) (omega arith) (omega arith)

-- The second character of the page behind an empty one and a first one.
page_for_char_offset-page_example :
    (get_elem?
        (extract_text_and_page_boundaries
          ((some short_text ∷ none ∷ []) ++ some (120 ∷ 121 ∷ []) ∷ [])).text
        (page_offset (some short_text ∷ none ∷ []) + 1)
      ≡ some 121)
    × (page_for_char_offset
          (page_offset (some short_text ∷ none ∷ []) + 1)
          (extract_text_and_page_boundaries
            ((some short_text ∷ none ∷ []) ++ some (120 ∷ 121 ∷ []) ∷ [])).page_boundaries
        ≡ some 3)
page_for_char_offset-page_example =
    page_for_char_offset-page (some short_text ∷ none ∷ []) [] (120 ∷ 121 ∷ []) 1 (omega arith)

-- Two items in the wrong order.
abbrev swapped : List EmbeddingItem
swapped =
    record { index = 1; embedding = 9 ∷ zeros 1535 }
    ∷ record { index = 0; embedding = zeros 1536 }
    ∷ []

ordered : order_embeddings 2 swapped ≡ ok (zeros 1536 ∷ (9 ∷ zeros 1535) ∷ [])
unfolding order_embeddings lookup
ordered = refl

order_embeddings-aligned_example :
    (length (zeros 1536 ∷ (9 ∷ zeros 1535) ∷ []) ≡ 2)
    × ((i : ℕ) → i < 2 → get_elem? (zeros 1536 ∷ (9 ∷ zeros 1535) ∷ []) i ≡ embedding_of i swapped)
order_embeddings-aligned_example =
    order_embeddings-aligned 2 swapped (zeros 1536 ∷ (9 ∷ zeros 1535) ∷ []) ordered

both_present : (i : ℕ) → i < 2 → is_some (embedding_of i swapped) ≡ true
both_present zero h = refl
both_present (suc zero) h = refl
both_present (suc (suc i)) h = absurd (omega arith)

swapped-IsComplete : IsComplete 2 swapped
swapped-IsComplete = record {
  dimensions = (refl, (refl, tt));
  distinct = ((refl, tt), (tt, tt));
  size = refl;
  present = both_present;
}

order_embeddings_complete_example : is_ok (order_embeddings 2 swapped) ≡ true
order_embeddings_complete_example = order_embeddings_complete 2 swapped swapped-IsComplete

-- A table that knows the letters a to d only.
abbrev letters : Unicode
letters = record {
  lower = λ t. t;
  is_alnum = λ c. (c == 97) || (c == 98) || (c == 99) || (c == 100);
  megabytes = λ n. [];
}

-- "../a.b"
abbrev hostile : Text
hostile = 46 ∷ 46 ∷ 47 ∷ 97 ∷ 46 ∷ 98 ∷ []

generate_unique_filename-no_slash_example :
    has_slash (generate_unique_filename letters [] 10 (50 ∷ []) (49 ∷ []) hostile) ≡ false
generate_unique_filename-no_slash_example =
    generate_unique_filename-no_slash letters [] 10 refl (50 ∷ []) (49 ∷ []) hostile refl refl
      (λ t h. h)

-- "%PDF-" and "a", in two reads.
abbrev pdf_reads : List Bytes
pdf_reads = (37 ∷ 80 ∷ 68 ∷ 70 ∷ 45 ∷ []) ∷ (97 ∷ []) ∷ [] ∷ []

abbrev pdf_bytes : Bytes
pdf_bytes = 37 ∷ 80 ∷ 68 ∷ 70 ∷ 45 ∷ 97 ∷ []

accepted : read_upload letters [] 10 true true 0 [] pdf_reads ≡ ok (pdf_bytes, 6)
unfolding read_upload
accepted = refl

read_upload-ok_example :
    (pdf_bytes ≡ content pdf_reads)
    × (6 ≡ length (content pdf_reads))
    × (6 ≤ 10)
    × (true ≡ true
        → is_empty (content pdf_reads) ≡ false
        → starts_with (content pdf_reads) (pdf_magic_bytes letters [] 10) ≡ true)
read_upload-ok_example = read_upload-ok letters [] 10 true pdf_reads pdf_bytes 6 accepted

-- Nothing is read of a file that is named a PDF.
empty_accepted : read_upload letters [] 10 true true 0 [] ([] ∷ []) ≡ ok ([], 0)
unfolding read_upload
empty_accepted = refl

read_upload-content_example : read_upload letters [] 10 true true 0 [] pdf_reads ≡ (
    if true
      && not (is_empty (first_read pdf_reads))
      && not (starts_with (first_read pdf_reads) (pdf_magic_bytes letters [] 10))
    then err (not_pdf letters [] 10)
    else if ltb 10 (length (content pdf_reads))
    then err (too_large letters [] 10)
    else ok (content pdf_reads, length (content pdf_reads)))
read_upload-content_example = read_upload-content letters [] 10 true pdf_reads
