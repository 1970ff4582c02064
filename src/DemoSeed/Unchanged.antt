-- ===== src/DemoSeed/Unchanged.antt =====
-- Equal lists of signatures are seen as unchanged.
use mathlib.Core.Path.{subst}
use mathlib.Core.List.{append_assoc}
use vector_doc_qa.Prelude.{
  ℕ, ◌+◌, ◌≡◌, refl, ap, sym, ◌∙◌, Bool, true, List, [], ◌∷◌, ◌++◌, map, all, any, arith,
}
use vector_doc_qa.Text.{Text}
use vector_doc_qa.Json.{Fields}
use vector_doc_qa.Models.{Document, Chunk}
use vector_doc_qa.Files.{same_text}
use vector_doc_qa.DemoSeed.Fixture.{Environment}
use vector_doc_qa.DemoSeed.Signatures.{
  Signature, signature_eq, same_set, fixture_filename_set, fixture_document_signature,
  existing_filenames, existing_document_signature,
}
use vector_doc_qa.DemoSeed.Seeding.{is_unchanged}

same_text_refl : (s : Text) → same_text s s ≡ true
unfolding same_text
same_text_refl [] = refl
same_text_refl (c ∷ s) = ground (arith, same_text_refl s)

signature_eq_refl : (s : Signature) → signature_eq s s ≡ true
signature_eq_refl (f, m, n) = ground (arith, same_text_refl f)

module _ {A : Type 0} (eq : A → A → Bool) (eq_refl : (a : A) → eq a a ≡ true) where
  any-append : (a : A) (xs ys : List A) → any (eq a) (xs ++ a ∷ ys) ≡ true
  any-append a [] ys = ground (arith, eq_refl a)
  any-append a (x ∷ xs) ys = ground (arith, any-append a xs ys)

  -- The items of a list from some place on are items of the list.
  suffix-subset : (start xs : List A) → all (λ x. any (eq x) (start ++ xs)) xs ≡ true
  suffix-subset start [] = refl
  suffix-subset start (x ∷ xs) =
      let h : all (λ y. any (eq y) (start ++ x ∷ xs)) xs ≡ true =
        subst (λ l. all (λ y. any (eq y) l) xs ≡ true) (append_assoc start (x ∷ []) xs)
          (suffix-subset (start ++ x ∷ []) xs) in
      ground (arith, h, any-append x start xs)

  same_set_refl : (xs : List A) → same_set eq xs xs ≡ true
  same_set_refl xs = ground (arith, suffix-subset [] xs)

filenames_lem :
    (existing : List (Document × List Chunk))
    → existing_filenames existing
      ≡ map (λ (s : Signature). s.0) (existing_document_signature existing)
unfolding existing_document_signature
filenames_lem [] = refl
filenames_lem (d ∷ existing) = rw (filenames_lem existing)

fixture_filenames_lem :
    (env : Environment) (index : ℕ) (docs : List Fields)
    → fixture_filename_set env index docs
      ≡ map (λ (s : Signature). s.0) (fixture_document_signature env index docs)
unfolding fixture_filename_set fixture_document_signature
fixture_filenames_lem env index [] = refl
fixture_filenames_lem env index (doc ∷ docs) = rw (fixture_filenames_lem env (index + 1) docs)

pub is_unchanged_lem :
    (env : Environment) (docs : List Fields) (existing : List (Document × List Chunk))
    → existing_document_signature existing ≡ fixture_document_signature env 1 docs
    → is_unchanged env docs existing ≡ true
unfolding is_unchanged
is_unchanged_lem env docs existing h =
    let files : existing_filenames existing ≡ fixture_filename_set env 1 docs =
      filenames_lem existing
      ∙ ap (map (λ (s : Signature). s.0)) h
      ∙ sym (fixture_filenames_lem env 1 docs) in
    rw (files, h)
      (ground (
        arith,
        same_set_refl same_text same_text_refl (fixture_filename_set env 1 docs),
        same_set_refl signature_eq signature_eq_refl (fixture_document_signature env 1 docs),
      ))
