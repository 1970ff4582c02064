-- ===== src/Pdf/Pages.antt =====
-- Page boundaries in backend/app/utils/pdf_utils.py: `_extract_text_and_page_boundaries`,
-- `_page_for_char_offset` and `_map_chunk_range_to_pages`.
mod Growth
pub mod Attribution
use vector_doc_qa.Prelude.{
  ℕ, suc, ◌+◌, ◌-◌, ◌||◌, Option, none, some, List, [], ◌∷◌, ◌++◌, ltb, leb, if◌then◌else◌, length,
  is_empty,
}
use vector_doc_qa.Text.{Text}

pub record PageBoundary : Type 0 where
  pub page_number : ℕ
  pub end_char : ℕ

pub record ExtractedPdfText : Type 0 where
  pub text : Text
  pub page_boundaries : List PageBoundary

-- The variables of the extraction loop.
pub record Extraction : Type 0 where
  pub text_parts : List Text
  pub page_boundaries : List PageBoundary
  pub current_offset : ℕ

-- "".join(parts)
unfoldable pub join : List Text → Text
join [] = []
join (part ∷ parts) = part ++ join parts

abbrev pub separator : Text
separator = 10 ∷ 10 ∷ []

unfoldable pub add_separator : Extraction → Extraction
add_separator s = if is_empty s.text_parts then s else record s {
  text_parts = s.text_parts ++ separator ∷ [];
  current_offset = s.current_offset + length separator;
}

unfoldable pub add_text : ℕ → Text → Extraction → Extraction
unfolding add_separator
add_text page_number page_text s =
    let s' = add_separator s in
    let end = s'.current_offset + length page_text in
    record {
      text_parts = s'.text_parts ++ page_text ∷ [];
      page_boundaries =
          s'.page_boundaries ++ record { page_number = page_number; end_char = end } ∷ [];
      current_offset = end;
    }

-- A page with no text, None or "", is passed over.
unfoldable pub add_page : ℕ → Option Text → Extraction → Extraction
add_page page_number none s = s
add_page page_number (some []) s = s
add_page page_number (some (c ∷ r)) s = add_text page_number (c ∷ r) s

unfoldable pub extract_from : ℕ → List (Option Text) → Extraction → Extraction
extract_from page_number [] s = s
extract_from page_number (page ∷ pages) s =
    extract_from (suc page_number) pages (add_page page_number page s)

abbrev pub no_pages : Extraction
no_pages = record { text_parts = []; page_boundaries = []; current_offset = 0 }

unfoldable pub extract_text_and_page_boundaries : List (Option Text) → ExtractedPdfText
extract_text_and_page_boundaries pages =
    let s = extract_from 1 pages no_pages in
    record { text = join s.text_parts; page_boundaries = s.page_boundaries }

-- `page_boundaries[-1].page_number if page_boundaries else None`
unfoldable pub last_page : List PageBoundary → Option ℕ
last_page [] = none
last_page (b ∷ []) = some b.page_number
last_page (b ∷ next ∷ r) = last_page (next ∷ r)

-- The loop over the boundaries, with what is returned behind it.
unfoldable pub find_page : ℕ → List PageBoundary → Option ℕ → Option ℕ
find_page char_offset [] fallback = fallback
find_page char_offset (b ∷ r) fallback =
    if ltb char_offset b.end_char then some b.page_number else find_page char_offset r fallback

unfoldable pub page_for_char_offset : ℕ → List PageBoundary → Option ℕ
page_for_char_offset char_offset boundaries =
    find_page char_offset boundaries (last_page boundaries)

unfoldable pub map_chunk_range_to_pages : ℕ → ℕ → List PageBoundary → Option ℕ × Option ℕ
map_chunk_range_to_pages chunk_start chunk_end page_boundaries =
    if leb chunk_end chunk_start || is_empty page_boundaries then (none, none) else (
      page_for_char_offset chunk_start page_boundaries,
      page_for_char_offset (chunk_end - 1) page_boundaries,
    )
