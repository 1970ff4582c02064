-- ===== src/Pdf/Chunks/Coverage.antt =====
-- No character of a text but white space is left out of its chunks.
use vector_doc_qa.Prelude.{
  ℕ, ◌≤◌, ◌<◌, ◌≡◌, ◌⊎◌, inl, inr, false, List, [], ◌∷◌, ◌++◌, arith, dec_lt, length,
}
use vector_doc_qa.Text.{Text, space_at}
use vector_doc_qa.Pdf.Chunks.{window_end, chunk_start, chunk_end, append_chunk}
use vector_doc_qa.Pdf.Chunks.Offsets.{lt-window_end, chunk_keeps, next_start_bounds}
use vector_doc_qa.Pdf.Chunks.Loop.{Span, span, spans, pass, chunk_loop_induction}

-- Some span holds the position.
abbrev pub Covers : ℕ → List Span → Type 0
Covers p [] = ⊥
Covers p (s ∷ r) = ((s.from ≤ p) × (p < s.to)) ⊎ Covers p r

pub Covers-append_left : (p : ℕ) (xs ys : List Span) → Covers p xs → Covers p (xs ++ ys)
Covers-append_left p [] ys h = elim h [ ]
Covers-append_left p (x ∷ xs) ys (inl h) = inl h
Covers-append_left p (x ∷ xs) ys (inr h) = inr (Covers-append_left p xs ys h)

pub Covers-append_right : (p : ℕ) (xs ys : List Span) → Covers p ys → Covers p (xs ++ ys)
Covers-append_right p [] ys h = h
Covers-append_right p (x ∷ xs) ys h = inr (Covers-append_right p xs ys h)

append_chunk-Covers : (p a b : ℕ) → a ≤ p → p < b → Covers p (append_chunk span a b)
unfolding append_chunk
append_chunk-Covers p a b h k = ground arith

module _ (text : Text) (size overlap : ℕ) (positive : 0 < size) where
  pass-Covers :
      (p start : ℕ)
      → start ≤ p
      → start < length text
      → p < window_end text size start
      → space_at text p ≡ false
      → Covers p (pass span text size overlap start)
  pass-Covers p start from inside to ink =
      let end = window_end text size start in
      let kept =
        chunk_keeps text start end (omega (arith, lt-window_end text size start)) p from to ink in
      append_chunk-Covers p (chunk_start text start end) (chunk_end text start end) kept.0 kept.1

  -- Every character that is no white space lies in a chunk.
  pub spans-Covers :
      (p : ℕ) → p < length text → space_at text p ≡ false → Covers p (spans text size overlap)
  spans-Covers p inside ink =
      chunk_loop_induction span text size overlap positive (λ start xs. start ≤ p → Covers p xs)
        (λ start over from. absurd (omega arith))
        (λ start more ends from. pass-Covers p start from more (omega arith) ink)
        (λ start more goes rest ih from. elim (dec_lt p (window_end text size start)) [
          | yes before ↦
              Covers-append_left p (pass span text size overlap start) rest
                (pass-Covers p start from more before ink)
          | no behind ↦ Covers-append_right p (pass span text size overlap start) rest (
              ih (
                omega (
                  arith,
                  next_start_bounds text overlap start (window_end text size start)
                      (lt-window_end text size start more positive),
                )))
        ])
        (length text) 0 (omega arith) (omega arith)
