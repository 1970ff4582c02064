-- ===== src/Pdf/Pages/Growth.antt =====
-- What each page adds to the extracted text and to its boundaries.
use mathlib.Core.List.{append-nil, append_assoc}
use vector_doc_qa.Prelude.{
  ℕ, suc, ◌+◌, ◌≤◌, ◌≡◌, refl, sym, ap, ◌∙◌, inl, inr, Bool-cases, Option, none, some, List, [],
  ◌∷◌, ◌++◌, arith, length, length-append, is_empty, All, All-append,
}
use vector_doc_qa.Text.{Text}
use vector_doc_qa.Pdf.Pages.{
  PageBoundary, Extraction, separator, join, add_separator, add_text, add_page, extract_from,
  no_pages,
}

pub join-append : (xs ys : List Text) → join (xs ++ ys) ≡ join xs ++ join ys
unfolding join
join-append [] ys = refl
join-append (x ∷ xs) ys = rw (join-append xs ys, append_assoc)

length-join_snoc :
    (xs : List Text) (y : Text) → length (join (xs ++ y ∷ [])) ≡ length (join xs) + length y
length-join_snoc xs y = rw join-append (unfold join in rw append-nil (length-append (join xs) y))

-- The offset is the length of the text so far, and every page so far ends at or before it.
pub record IsConsistent (s : Extraction) : Type 0 where
  pub offset : length (join s.text_parts) ≡ s.current_offset
  pub ended : All (λ (b : PageBoundary). b.end_char ≤ s.current_offset) s.page_boundaries

pub All-ended_mono :
    (m n : ℕ) (bs : List PageBoundary)
    → m ≤ n
    → All (λ (b : PageBoundary). b.end_char ≤ m) bs
    → All (λ (b : PageBoundary). b.end_char ≤ n) bs
All-ended_mono m n [] h all = tt
All-ended_mono m n (b ∷ bs) h all = (omega (arith, all.0), All-ended_mono m n bs h all.1)

pub add_separator-IsConsistent : (s : Extraction) → IsConsistent s → IsConsistent (add_separator s)
unfolding add_separator
add_separator-IsConsistent s h = elim (Bool-cases (is_empty s.text_parts)) [
  | inl first ↦ rw first h
  | inr later ↦ rw later (record {
    offset = omega (arith, length-join_snoc s.text_parts separator, h.offset);
    ended = All-ended_mono s.current_offset _ s.page_boundaries (omega arith) h.ended;
  })
]

pub add_text-IsConsistent :
    (n : ℕ) (t : Text) (s : Extraction) → IsConsistent s → IsConsistent (add_text n t s)
add_text-IsConsistent n t s h =
    let k = add_separator-IsConsistent s h in
    let s' = add_separator s in
    unfold add_text in
    record {
      offset = omega (arith, length-join_snoc s'.text_parts t, k.offset);
      ended =
          All-append (λ (b : PageBoundary). b.end_char ≤ s'.current_offset + length t)
            s'.page_boundaries _
            (All-ended_mono s'.current_offset _ s'.page_boundaries (omega arith) k.ended)
            (omega arith, tt);
    }

add_page-IsConsistent :
    (n : ℕ) (page : Option Text) (s : Extraction)
    → IsConsistent s
    → IsConsistent (add_page n page s)
unfolding add_page
add_page-IsConsistent n none s h = h
add_page-IsConsistent n (some []) s h = h
add_page-IsConsistent n (some (c ∷ r)) s h = add_text-IsConsistent n (c ∷ r) s h

pub extract_from-IsConsistent :
    (n : ℕ) (pages : List (Option Text)) (s : Extraction)
    → IsConsistent s
    → IsConsistent (extract_from n pages s)
unfolding extract_from
extract_from-IsConsistent n [] s h = h
extract_from-IsConsistent n (page ∷ pages) s h =
    extract_from-IsConsistent (suc n) pages (add_page n page s) (add_page-IsConsistent n page s h)

pub no_pages-IsConsistent : IsConsistent no_pages
unfolding join
no_pages-IsConsistent = record { offset = refl; ended = tt }

-- `s'` has the text and the boundaries of `s`, and maybe more behind them.
pub record Extends (s s' : Extraction) : Type 0 where
  pub parts : List Text
  pub boundaries : List PageBoundary
  pub more_text : s'.text_parts ≡ s.text_parts ++ parts
  pub more_boundaries : s'.page_boundaries ≡ s.page_boundaries ++ boundaries

Extends-refl : (s : Extraction) → Extends s s
Extends-refl s = record {
  parts = [];
  boundaries = [];
  more_text = sym (append-nil _);
  more_boundaries = sym (append-nil _);
}

Extends-trans : {s t u : Extraction} → Extends s t → Extends t u → Extends s u
Extends-trans {s} {t} {u} a b = record {
  parts = a.parts ++ b.parts;
  boundaries = a.boundaries ++ b.boundaries;
  more_text =
      b.more_text ∙ ap (λ l. l ++ b.parts) a.more_text ∙ append_assoc s.text_parts a.parts b.parts;
  more_boundaries =
      b.more_boundaries
      ∙ ap (λ l. l ++ b.boundaries) a.more_boundaries
      ∙ append_assoc s.page_boundaries a.boundaries b.boundaries;
}

pub add_page-Extends : (n : ℕ) (page : Option Text) (s : Extraction) → Extends s (add_page n page s)
unfolding add_page add_text
add_page-Extends n none s = Extends-refl s
add_page-Extends n (some []) s = Extends-refl s
add_page-Extends n (some (c ∷ r)) s = elim (Bool-cases (is_empty s.text_parts)) [
  | inl first ↦
      rw first (record { parts = _; boundaries = _; more_text = refl; more_boundaries = refl })
  | inr later ↦ rw later (record {
    parts = separator ∷ (c ∷ r) ∷ [];
    boundaries = _;
    more_text = append_assoc s.text_parts _ _;
    more_boundaries = refl;
  })
]

pub extract_from-Extends :
    (n : ℕ) (pages : List (Option Text)) (s : Extraction) → Extends s (extract_from n pages s)
unfolding extract_from
extract_from-Extends n [] s = Extends-refl s
extract_from-Extends n (page ∷ pages) s =
    Extends-trans (add_page-Extends n page s)
      (extract_from-Extends (suc n) pages (add_page n page s))

pub extract_from-append :
    (n : ℕ) (before : List (Option Text)) (page : Option Text) (after : List (Option Text))
    (s : Extraction)
    → extract_from n (before ++ page ∷ after) s
      ≡ extract_from
          (n + suc (length before))
          after
          (add_page (n + length before) page (extract_from n before s))
unfolding extract_from
extract_from-append n [] page after s =
    let p : n + 1 ≡ suc n = omega arith in let q : n + 0 ≡ n = omega arith in rw (p, q)
extract_from-append n (p' ∷ before) page after s =
    let p : n + suc (suc (length before)) ≡ suc n + suc (length before) = omega arith in
    let q : n + suc (length before) ≡ suc n + length before = omega arith in
    rw (p, q) (extract_from-append (suc n) before page after (add_page n p' s))
