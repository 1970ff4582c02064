-- ===== src/Pdf/Chunking/Guarantees.antt =====
-- What `chunk_text` promises, on every text, with page boundaries or without.
use vector_doc_qa.Prelude.{
  ℕ, ◌+◌, ◌-◌, ◌≤◌, ◌<◌, ◌≡◌, refl, ap, ◌∙◌, ◌⊎◌, inl, inr, true, false, Option, List, [], ◌∷◌, map,
  arith, Bool-cases, leb, length, take, is_empty, All,
}
use vector_doc_qa.Text.{Text, space_at, slice}
use vector_doc_qa.Text.Strip.{IsBlank, HasInk, strip-cases}
use vector_doc_qa.Pdf.Pages.{
  PageBoundary, find_page, last_page, page_for_char_offset, map_chunk_range_to_pages,
}
use vector_doc_qa.Pdf.Chunks.{chunk_loop}
use vector_doc_qa.Pdf.Chunks.Loop.{Span, span, spans, chunk_loop-map}
use vector_doc_qa.Pdf.Chunks.Coverage.{Covers, spans-Covers}
use vector_doc_qa.Pdf.Chunks.Shape.{IsFit, IsChained, spans-IsFit, spans-IsChained}
use vector_doc_qa.Pdf.Chunking.{
  ChunkWithPage, chunk_with_page, or_default, is_blank_text, chunk_text,
}

abbrev pub Fits : Text → ℕ → Span → Type 0
Fits text size s = (s.from < s.to) × (s.to ≤ length text) × (s.to ≤ s.from + size)

-- The slice of a span, with the pages of its first and its last character.
abbrev pub located : Text → List PageBoundary → Span → ChunkWithPage
located text boundaries s = record {
  content = slice text s.from s.to;
  page_start = page_for_char_offset s.from boundaries;
  page_end = page_for_char_offset (s.to - 1) boundaries;
}

-- The chunks are slices of the text, with their pages: of `size` characters at most and not empty;
-- together they hold every character that is no white space, and neighbours share at most `overlap`.
pub record IsChunking (text : Text) (size overlap : ℕ) (boundaries : List PageBoundary)
    (chunks : List ChunkWithPage) : Type 0 where
  pub parts : List Span
  pub made : chunks ≡ map (located text boundaries) parts
  pub covers : (p : ℕ) → p < length text → space_at text p ≡ false → Covers p parts
  pub fits : All (Fits text size) parts
  pub chained : IsChained overlap 0 parts

text_cases :
    (text : Text)
    → ((is_blank_text text ≡ true) × IsBlank text) ⊎ ((is_blank_text text ≡ false) × HasInk text)
unfolding is_blank_text
text_cases [] = inl (refl, λ p h. elim h [ ])
text_cases (c ∷ r) = strip-cases (c ∷ r)

take-length : (text : Text) → take (length text) text ≡ text
take-length [] = refl
take-length (c ∷ r) = ap (λ l. c ∷ l) (take-length r)

slice-whole : (text : Text) → slice text 0 (length text) ≡ text
slice-whole text = let p : length text - 0 ≡ length text = omega arith in rw p (take-length text)

Fits-All :
    (text : Text) (size : ℕ) (parts : List Span)
    → All (IsFit text size) parts
    → All (Fits text size) parts
Fits-All text size [] h = tt
Fits-All text size (s ∷ r) h = (omega arith, Fits-All text size r h.1)

map_chunk_range_to_pages_lem :
    (from to : ℕ) (boundaries : List PageBoundary)
    → from < to
    → map_chunk_range_to_pages from to boundaries
      ≡ (page_for_char_offset from boundaries, page_for_char_offset (to - 1) boundaries)
unfolding map_chunk_range_to_pages page_for_char_offset find_page last_page
map_chunk_range_to_pages_lem from to [] h = let q : leb to from ≡ false = ground arith in rw q refl
map_chunk_range_to_pages_lem from to (b ∷ r) h = ground arith

map-located :
    (text : Text) (size : ℕ) (boundaries : List PageBoundary) (parts : List Span)
    → All (Fits text size) parts
    → map (λ (s : Span). chunk_with_page text boundaries s.from s.to) parts
      ≡ map (located text boundaries) parts
unfolding chunk_with_page
map-located text size boundaries [] h = refl
map-located text size boundaries (s ∷ r) h = rw (
  map_chunk_range_to_pages_lem s.from s.to boundaries h.0.0,
  map-located text size boundaries r h.1,
)

module _ (text : Text) (size overlap : ℕ) (positive : 0 < size)
    (boundaries : List PageBoundary) where
  loop-IsChunking :
      IsChunking text size overlap boundaries
        (chunk_loop (chunk_with_page text boundaries) text size overlap (length text) 0)
  loop-IsChunking = record {
    parts = spans text size overlap;
    made =
        chunk_loop-map (chunk_with_page text boundaries) text size overlap (length text) 0
        ∙ map-located text size boundaries _
            (Fits-All text size _ (spans-IsFit text size overlap positive));
    covers = spans-Covers text size overlap positive;
    fits = Fits-All text size _ (spans-IsFit text size overlap positive);
    chained = spans-IsChained text size overlap positive;
  }

  whole-IsChunking :
      HasInk text
      → length text ≤ size
      → IsChunking text size overlap boundaries (
          record {
            content = text;
            page_start = (map_chunk_range_to_pages 0 (length text) boundaries).0;
            page_end = (map_chunk_range_to_pages 0 (length text) boundaries).1;
          }
          ∷ [])
  unfolding chunk_with_page
  whole-IsChunking (p, inside, ink) short = record {
    parts = span 0 (length text) ∷ [];
    made =
        rw
          (map_chunk_range_to_pages_lem 0 (length text) boundaries (omega arith), slice-whole text);
    covers = λ q h k. inl (omega arith, h);
    fits = ((omega arith, omega arith, omega arith), tt);
    chained = (omega arith, tt);
  }

  nothing-IsChunking : IsBlank text → IsChunking text size overlap boundaries []
  nothing-IsChunking blank = record {
    parts = [];
    made = refl;
    covers = λ q h ink. cc (blank q h);
    fits = tt;
    chained = tt;
  }

covered {ℓ} :
    {A : Type ℓ} (p : ℕ) (parts : List Span)
    → Covers p parts
    → (f : Span → A) → is_empty (map f parts) ≡ false
covered p [] h f = elim h [ ]
covered p (s ∷ r) h f = refl

module _ (default_chunk_size default_overlap : ℕ) where
  -- For every text, boundaries, overlap and positive chunk size: the chunks are slices of the text
  -- with the pages of their first and last characters, none is empty or longer than the chunk size,
  -- together they hold every character that is no white space, and each begins at most the overlap
  -- before the end of the one in front of it.
  pub chunk_text-IsChunking :
      (text : Text) (chunk_size overlap : Option ℕ) (boundaries : Option (List PageBoundary))
      → 0 < or_default chunk_size default_chunk_size
      → IsChunking text
          (or_default chunk_size default_chunk_size)
          (or_default overlap default_overlap)
          (or_default boundaries [])
          (chunk_text default_chunk_size default_overlap text chunk_size overlap boundaries)
  unfolding chunk_text
  chunk_text-IsChunking text chunk_size overlap boundaries positive =
      let size = or_default chunk_size default_chunk_size in
      let shared = or_default overlap default_overlap in
      let bounds = or_default boundaries [] in
      elim (text_cases text) [
        | inl (blank, all) ↦ rw blank (nothing-IsChunking text size shared positive bounds all)
        | inr (kept, some_ink) ↦ rw kept (elim (Bool-cases (leb (length text) size)) [
          | inl short ↦
              rw short (whole-IsChunking text size shared positive bounds some_ink (ground arith))
          | inr long ↦ rw long (loop-IsChunking text size shared positive bounds)
        ])
      ]

  -- With a positive chunk size, a text that is not all white space has a chunk.
  pub chunk_text-ne-nil :
      (text : Text) (chunk_size overlap : Option ℕ) (boundaries : Option (List PageBoundary))
      → 0 < or_default chunk_size default_chunk_size
      → is_blank_text text ≡ false
      → is_empty (chunk_text default_chunk_size default_overlap text chunk_size overlap boundaries)
        ≡ false
  chunk_text-ne-nil text chunk_size overlap boundaries positive kept =
      let c = chunk_text-IsChunking text chunk_size overlap boundaries positive in
      elim (text_cases text) [
        | inl (blank, _) ↦ cc
        | inr (_, (p, inside, ink)) ↦ rw c.made (covered p c.parts (c.covers p inside ink) _)
      ]
