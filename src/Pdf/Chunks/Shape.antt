-- ===== src/Pdf/Chunks/Shape.antt =====
-- Every chunk fits its bounds, and neighbours share `overlap` characters at most.
use mathlib.Core.List.{append-nil}
use vector_doc_qa.Prelude.{
  ℕ, ◌+◌, ◌-◌, ◌≤◌, ◌<◌, ◌≡◌, false, List, [], ◌∷◌, ◌++◌, arith, length, All, All-append,
}
use vector_doc_qa.Text.{Text, space_at}
use vector_doc_qa.Pdf.Chunks.{window_end, chunk_end, append_chunk}
use vector_doc_qa.Pdf.Chunks.Offsets.{
  window_end_bounds, lt-window_end, chunk_start_bounds, chunk_end_bounds, chunk_ends,
  next_start_bounds,
}
use vector_doc_qa.Pdf.Chunks.Loop.{Span, span, spans, pass, chunk_loop_induction}

-- The chunk is not empty, lies inside the text, is no longer than `size`, and begins and ends with
-- a character that is no white space.
pub record IsFit (text : Text) (size : ℕ) (s : Span) : Type 0 where
  pub nonempty : s.from < s.to
  pub inside : s.to ≤ length text
  pub short : s.to ≤ s.from + size
  pub first_ink : space_at text s.from ≡ false
  pub last_ink : space_at text (s.to - 1) ≡ false

-- Each chunk repeats at most the last `overlap` characters of what ended at `to`.
abbrev pub IsChained : ℕ → ℕ → List Span → Type 0
IsChained overlap to [] = Unit
IsChained overlap to (s ∷ r) = (to ≤ s.from + overlap) × IsChained overlap s.to r

module _ (text : Text) (size overlap : ℕ) (positive : 0 < size) where
  pass-IsFit :
      (start : ℕ) → start < length text → All (IsFit text size) (pass span text size overlap start)
  unfolding append_chunk
  pass-IsFit start inside =
      let end = window_end text size start in
      ground (
        arith,
        window_end_bounds text size start inside,
        chunk_start_bounds text start end,
        chunk_end_bounds text start end,
        chunk_ends text start end,
      )

  pub spans-IsFit : All (IsFit text size) (spans text size overlap)
  spans-IsFit =
      chunk_loop_induction span text size overlap positive (λ start xs. All (IsFit text size) xs)
        (λ start over. tt) (λ start inside ends. pass-IsFit start inside)
        (λ start inside goes rest ih.
          All-append (IsFit text size) (pass span text size overlap start) rest
            (pass-IsFit start inside) ih)
        (length text) 0 (omega arith)

  pass-IsChained :
      (start to : ℕ) (rest : List Span)
      → start < length text
      → to ≤ start + overlap
      → ((end : ℕ) → end ≤ window_end text size start → IsChained overlap end rest)
      → IsChained overlap to rest
      → IsChained overlap to (pass span text size overlap start ++ rest)
  unfolding append_chunk
  pass-IsChained start to rest inside near later none_here =
      let end = window_end text size start in
      ground (
        arith,
        window_end_bounds text size start inside,
        chunk_start_bounds text start end,
        chunk_end_bounds text start end,
        later (chunk_end text start end),
      )

  pub spans-IsChained : IsChained overlap 0 (spans text size overlap)
  spans-IsChained =
      chunk_loop_induction span text size overlap positive
        (λ start xs. (to : ℕ) → to ≤ start + overlap → IsChained overlap to xs)
        (λ start over to near. tt)
        (λ start inside ends to near.
          rw append-nil at (pass-IsChained start to [] inside near (λ end below. tt) tt))
        (λ start inside goes rest ih to near.
          let bounds =
            next_start_bounds text overlap start (window_end text size start)
              (lt-window_end text size start inside positive) in
          pass-IsChained start to rest inside near (λ end below. ih end (omega (arith, bounds)))
            (ih to (omega (arith, bounds))))
        (length text) 0 (omega arith) 0 (omega arith)
