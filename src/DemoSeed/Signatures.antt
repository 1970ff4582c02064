-- ===== src/DemoSeed/Signatures.antt =====
-- The signatures by which the seed sees that nothing has changed: sets of file names with their
-- numbers of chunks and of chunks with a page. A set is a list here, compared as a set.
use vector_doc_qa.Prelude.{
  ℕ, ◌+◌, Bool, ◌&&◌, ◌||◌, List, [], ◌∷◌, ◌==◌, map, all, any, length, select, is_some,
}
use vector_doc_qa.Text.{Text}
use vector_doc_qa.Files.{same_text}
use vector_doc_qa.Json.{Fields}
use vector_doc_qa.Models.{Document, Chunk}
use vector_doc_qa.DemoSeed.Fixture.{Environment, filename_of, dicts_of, has_page}

abbrev pub Signature : Type 0
Signature = Text × ℕ × ℕ

abbrev pub signature_eq : Signature → Signature → Bool
signature_eq (f, m, n) (g, k, l) = same_text f g && m == k && n == l

module _ {A : Type 0} (eq : A → A → Bool) where
  abbrev pub is_subset : List A → List A → Bool
  is_subset xs ys = all (λ x. any (eq x) ys) xs

  abbrev pub same_set : List A → List A → Bool
  same_set xs ys = is_subset xs ys && is_subset ys xs

module _ (env : Environment) where
  unfoldable pub fixture_filename_set : ℕ → List Fields → List Text
  unfolding filename_of
  fixture_filename_set index [] = []
  fixture_filename_set index (doc_payload ∷ documents_payload) =
      filename_of env index doc_payload ∷ fixture_filename_set (index + 1) documents_payload

  abbrev pub payload_signature : ℕ → Fields → Signature
  payload_signature index doc_payload = (
    filename_of env index doc_payload,
    length (dicts_of "chunks" doc_payload),
    length (select (has_page env) (dicts_of "chunks" doc_payload)),
  )

  unfoldable pub fixture_document_signature : ℕ → List Fields → List Signature
  unfolding filename_of dicts_of
  fixture_document_signature index [] = []
  fixture_document_signature index (doc_payload ∷ documents_payload) =
      payload_signature index doc_payload ∷ fixture_document_signature (index + 1) documents_payload

abbrev pub chunk_has_page : Chunk → Bool
chunk_has_page chunk = is_some chunk.page_start || is_some chunk.page_end

abbrev pub document_signature : Document × List Chunk → Signature
document_signature (document, chunks) =
    (document.filename, length chunks, length (select chunk_has_page chunks))

unfoldable pub existing_document_signature : List (Document × List Chunk) → List Signature
existing_document_signature existing_documents = map document_signature existing_documents

abbrev pub existing_filenames : List (Document × List Chunk) → List Text
existing_filenames existing_documents =
    map (λ (d : Document × List Chunk). d.0.filename) existing_documents
