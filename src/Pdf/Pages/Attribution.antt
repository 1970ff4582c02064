-- ===== src/Pdf/Pages/Attribution.antt =====
-- Every character of the extracted text is attributed to the page that it came from.
use mathlib.Core.List.{append_assoc}
use vector_doc_qa.Prelude.{
  ℕ, zero, suc, ◌+◌, ◌≤◌, ◌<◌, ◌≡◌, refl, ◌∙◌, Option, some, List, [], ◌∷◌, ◌++◌, arith, length,
  get_elem?, All,
}
use vector_doc_qa.Text.{Text}
use vector_doc_qa.Pdf.Pages.{
  PageBoundary, Extraction, join, add_separator, add_text, add_page, extract_from, no_pages,
  extract_text_and_page_boundaries, find_page, page_for_char_offset,
}
use vector_doc_qa.Pdf.Pages.Growth.{
  join-append, IsConsistent, All-ended_mono, add_separator-IsConsistent, extract_from-IsConsistent,
  no_pages-IsConsistent, Extends, extract_from-Extends, extract_from-append,
}

-- Boundaries that end at or before the offset are passed over.
find_page-append :
    (o : ℕ) (xs : List PageBoundary) (b : PageBoundary) (ys : List PageBoundary) (d : Option ℕ)
    → All (λ (x : PageBoundary). x.end_char ≤ o) xs
    → o < b.end_char
    → find_page o (xs ++ b ∷ ys) d ≡ some b.page_number
unfolding find_page
find_page-append o [] b ys d all h = ground arith
find_page-append o (x ∷ xs) b ys d all h = ground (arith, find_page-append o xs b ys d all.1)

get_elem?-append_right :
    (xs ys : Text) (i : ℕ) → get_elem? (xs ++ ys) (length xs + i) ≡ get_elem? ys i
get_elem?-append_right [] ys i = let p : 0 + i ≡ i = omega arith in rw p
get_elem?-append_right (x ∷ xs) ys i =
    let p : suc (length xs) + i ≡ suc (length xs + i) = omega arith in
    rw p (get_elem?-append_right xs ys i)

get_elem?-append_left :
    (xs ys : Text) (i : ℕ) → i < length xs → get_elem? (xs ++ ys) i ≡ get_elem? xs i
get_elem?-append_left [] ys i h = elim h [ ]
get_elem?-append_left (x ∷ xs) ys zero h = refl
get_elem?-append_left (x ∷ xs) ys (suc i) h = get_elem?-append_left xs ys i (omega arith)

-- Where the text of the page behind `before` begins.
abbrev pub page_offset : List (Option Text) → ℕ
page_offset before = (add_separator (extract_from 1 before no_pages)).current_offset

placed_text :
    (parts more : List Text) (t : Text) (o i : ℕ)
    → length (join parts) ≡ o
    → i < length t
    → get_elem? (join ((parts ++ t ∷ []) ++ more)) (o + i) ≡ get_elem? t i
placed_text parts more t o i e h =
    rw (← e, append_assoc, join-append)
      (get_elem?-append_right (join parts) (join (t ∷ more)) i
        ∙ (unfold join in get_elem?-append_left t (join more) i h))

placed_boundary :
    (o : ℕ) (xs : List PageBoundary) (b : PageBoundary) (ys : List PageBoundary) (d : Option ℕ)
    → All (λ (x : PageBoundary). x.end_char ≤ o) xs
    → o < b.end_char
    → find_page o ((xs ++ b ∷ []) ++ ys) d ≡ some b.page_number
placed_boundary o xs b ys d all h = rw append_assoc (find_page-append o xs b ys d all h)

module _ (n : ℕ) (c : ℕ) (r : Text) (s : Extraction) (ok : IsConsistent s) where
  -- What is so once the page is added stays so for whatever comes behind it.
  placed :
      (s' : Extraction) (i : ℕ) (d : Option ℕ)
      → i < length (c ∷ r)
      → Extends (add_page n (some (c ∷ r)) s) s'
      → (get_elem? (join s'.text_parts) ((add_separator s).current_offset + i)
          ≡ get_elem? (c ∷ r) i)
        × (find_page ((add_separator s).current_offset + i) s'.page_boundaries d ≡ some n)
  unfolding add_page add_text
  placed s' i d h e =
      let k = add_separator-IsConsistent s ok in
      let q = add_separator s in
      (
        rw e.more_text (placed_text q.text_parts e.parts (c ∷ r) q.current_offset i k.offset h),
        rw e.more_boundaries (
            placed_boundary (q.current_offset + i) q.page_boundaries
              (record { page_number = n; end_char = q.current_offset + length (c ∷ r) })
              e.boundaries d
              (All-ended_mono q.current_offset (q.current_offset + i) q.page_boundaries
                (omega arith) k.ended)
              (omega arith)),
      )

-- A character of a page's text stands in the joined text behind what came before, and is attributed
-- to that page, by its number from 1.
pub page_for_char_offset-page :
    (before after : List (Option Text)) (t : Text) (i : ℕ)
    → i < length t
    → (get_elem?
          (extract_text_and_page_boundaries (before ++ some t ∷ after)).text
          (page_offset before + i)
        ≡ get_elem? t i)
      × (page_for_char_offset
            (page_offset before + i)
            (extract_text_and_page_boundaries (before ++ some t ∷ after)).page_boundaries
          ≡ some (suc (length before)))
unfolding extract_text_and_page_boundaries page_for_char_offset
page_for_char_offset-page before after [] i h = elim h [ ]
page_for_char_offset-page before after (c ∷ r) i h =
    let s = extract_from 1 before no_pages in
    let p : 1 + length before ≡ suc (length before) = omega arith in
    rw (extract_from-append 1 before (some (c ∷ r)) after no_pages, p)
      (placed (suc (length before)) c r s
        (extract_from-IsConsistent 1 before no_pages no_pages-IsConsistent) _ i _ h
        (extract_from-Extends _ after _))
