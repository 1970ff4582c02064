-- ===== src/Pdf/Chunking.antt =====
-- `chunk_text` of backend/app/utils/pdf_utils.py. The two sizes are natural numbers: the settings
-- are refused at startup if one of them is negative.
pub mod Guarantees
use vector_doc_qa.Prelude.{
  ℕ, Bool, ◌||◌, Option, none, some, List, [], ◌∷◌, leb, if◌then◌else◌, length, is_empty,
}
use vector_doc_qa.Text.{Text, slice, strip}
use vector_doc_qa.Pdf.Pages.{PageBoundary, map_chunk_range_to_pages}
use vector_doc_qa.Pdf.Chunks.{chunk_loop}

pub record ChunkWithPage : Type 0 where
  pub content : Text
  pub page_start : Option ℕ
  pub page_end : Option ℕ

-- The chunk of text[from:to].
unfoldable pub chunk_with_page : Text → List PageBoundary → ℕ → ℕ → ChunkWithPage
chunk_with_page text boundaries from to =
    let (page_start, page_end) = map_chunk_range_to_pages from to boundaries in
    record { content = slice text from to; page_start = page_start; page_end = page_end }

abbrev pub or_default {ℓ} : {A : Type ℓ} → Option A → A → A
or_default none d = d
or_default (some a) d = a

-- `not text or not text.strip()`
unfoldable pub is_blank_text : Text → Bool
is_blank_text text = is_empty text || is_empty (strip text)

-- `chunk_size` and `chunk_overlap` stand for those of `settings`.
module _ (default_chunk_size default_overlap : ℕ) where
  unfoldable pub chunk_text :
      Text → Option ℕ → Option ℕ → Option (List PageBoundary) → List ChunkWithPage
  chunk_text text chunk_size overlap page_boundaries =
      let size = or_default chunk_size default_chunk_size in
      let shared = or_default overlap default_overlap in
      let boundaries = or_default page_boundaries [] in
      if is_blank_text text
      then []
      else if leb (length text) size
      then (let (page_start, page_end) = map_chunk_range_to_pages 0 (length text) boundaries in
          record { content = text; page_start = page_start; page_end = page_end } ∷ [])
      else chunk_loop (chunk_with_page text boundaries) text size shared (length text) 0
