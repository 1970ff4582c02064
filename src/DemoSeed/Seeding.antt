-- ===== src/DemoSeed/Seeding.antt =====
-- seed_demo_user of backend/app/services/demo_seed_service.py. What it writes to the storage may
-- fail, but is not kept. The returned numbers are only logged.
use vector_doc_qa.Prelude.{
  ℕ, ◌+◌, String, Bool, not, ◌&&◌, Option, none, some, List, [], ◌∷◌, ltb, length, is_empty,
  if◌then◌else◌,
}
use vector_doc_qa.Errors.{Exc, Result, ok, err, value_error, os_error, integrity_error, with_text}
use vector_doc_qa.Exec.{◌>>=◌, ◌>>◌, pure, raise, lift, gets, catch}
use vector_doc_qa.Text.{Text}
use vector_doc_qa.Text.Write.{codes}
use vector_doc_qa.Json.{Fields, get}
use vector_doc_qa.Models.{User, Document, Chunk}
use vector_doc_qa.Database.{Db, Query, execute, commit, rollback}
use vector_doc_qa.Repositories.DemoSeed.{
  get_user_by_username_or_email, create_demo_user, list_documents_with_chunks_for_user,
  delete_documents, create_completed_document, create_document_chunk,
}
use vector_doc_qa.Files.{same_text}
use vector_doc_qa.DemoSeed.Fixture.{
  Environment, load_fixture_payload, build_fixture_documents_payload, dicts_of, coerce_int,
  filename_of, file_path_of, encoded_content_of, embedding_of, page_start_of, page_end_of,
  content_of,
}
use vector_doc_qa.DemoSeed.Signatures.{
  signature_eq, same_set, fixture_filename_set, fixture_document_signature, existing_filenames,
  existing_document_signature,
}

abbrev pub demo_username : String
demo_username = "demo"

abbrev pub demo_email : String
demo_email = "demo@quaero.dev"

abbrev pub demo_password : String
demo_password = "demo"

-- The bytes of a small PDF file.
abbrev demo_placeholder_pdf_bytes : Text
demo_placeholder_pdf_bytes =
    codes
      "%PDF-1.4\n1 0 obj\n<< /Type /Catalog /Pages 2 0 R >>\nendobj\n2 0 obj\n<< /Type /Pages /Kids [3 0 R] /Count 1 >>\nendobj\n3 0 obj\n<< /Type /Page /Parent 2 0 R /MediaBox [0 0 612 792] >>\nendobj\nxref\n0 4\n0000000000 65535 f\n0000000009 00000 n\n0000000058 00000 n\n0000000115 00000 n\ntrailer\n<< /Size 4 /Root 1 0 R >>\nstartxref\n190\n%%EOF"

module _ (env : Environment) where
  abbrev write_decoded : Text → Text → Option Text → Query ℕ
  write_decoded file_path filename none = raise (
      value_error
        (with_text "Invalid base64 file_content_base64 for demo fixture document '" filename "'"))
  write_decoded file_path filename (some file_bytes) =
      lift (env.write_file_bytes file_path file_bytes) >> pure (length file_bytes)

  -- A missing file is replaced by the placeholder; FileNotFoundError is an OSError.
  abbrev read_or_placeholder : Text → Result Text → Query ℕ
  read_or_placeholder file_path (ok existing_bytes) = pure (length existing_bytes)
  read_or_placeholder file_path (err (os_error d)) =
      lift (env.write_file_bytes file_path demo_placeholder_pdf_bytes)
      >> pure (length demo_placeholder_pdf_bytes)
  read_or_placeholder file_path (err e) = raise e

  unfoldable pub ensure_seeded_file : Text → Text → Option Text → Query ℕ
  ensure_seeded_file file_path filename none =
      read_or_placeholder file_path (env.read_file_bytes file_path)
  ensure_seeded_file file_path filename (some encoded_content) =
      if is_empty encoded_content
      then read_or_placeholder file_path (env.read_file_bytes file_path)
      else write_decoded file_path filename (env.b64decode encoded_content)

  abbrev pub positive_or : ℕ → ℕ → ℕ
  positive_or size default = if ltb 0 size then size else default

  unfoldable pub seed_chunk : ℕ → Fields → Query (Unit {0})
  unfolding get
  seed_chunk document_id chunk_payload =
      lift (embedding_of env chunk_payload)
      >>= create_document_chunk document_id (content_of env chunk_payload)
          (coerce_int env (get "chunk_index" chunk_payload) 0) (page_start_of env chunk_payload)
          (page_end_of env chunk_payload)

  unfoldable pub seed_chunks : ℕ → List Fields → Query (Unit {0})
  unfolding seed_chunk
  seed_chunks document_id [] = pure tt
  seed_chunks document_id (chunk_payload ∷ chunks_payload) =
      seed_chunk document_id chunk_payload >> seed_chunks document_id chunks_payload

  -- The row of a document, with the size that its file has.
  unfoldable pub seed_row : ℕ → ℕ → Fields → ℕ → Query Document
  unfolding get filename_of file_path_of coerce_int
  seed_row demo_user_id index doc_payload resolved_file_size = do
    now ← gets (λ s. s.now)
    create_completed_document demo_user_id (filename_of env index doc_payload)
        (file_path_of env index doc_payload)
        (positive_or (coerce_int env (get "file_size" doc_payload) 0) resolved_file_size) now

  -- With the row, its chunks.
  unfoldable pub seed_sized : ℕ → ℕ → Fields → ℕ → Query (Unit {0})
  unfolding dicts_of seed_row seed_chunks
  seed_sized demo_user_id index doc_payload resolved_file_size =
      seed_row demo_user_id index doc_payload resolved_file_size >>= λ document.
      seed_chunks document.id (dicts_of "chunks" doc_payload)

  unfoldable pub seed_document : ℕ → ℕ → Fields → Query (Unit {0})
  unfolding filename_of file_path_of encoded_content_of ensure_seeded_file seed_sized
  seed_document demo_user_id index doc_payload =
      ensure_seeded_file (file_path_of env index doc_payload) (filename_of env index doc_payload)
        (encoded_content_of env doc_payload)
      >>= seed_sized demo_user_id index doc_payload

  unfoldable pub seed_documents : ℕ → ℕ → List Fields → Query (Unit {0})
  unfolding seed_document
  seed_documents demo_user_id index [] = pure tt
  seed_documents demo_user_id index (doc_payload ∷ documents_payload) =
      seed_document demo_user_id index doc_payload
      >> seed_documents demo_user_id (index + 1) documents_payload

  unfoldable pub is_unchanged : List Fields → List (Document × List Chunk) → Bool
  unfolding fixture_filename_set fixture_document_signature existing_document_signature
  is_unchanged documents_payload existing_documents =
      same_set same_text (fixture_filename_set env 1 documents_payload)
        (existing_filenames existing_documents)
      && same_set signature_eq (fixture_document_signature env 1 documents_payload)
          (existing_document_signature existing_documents)

  unfoldable pub replace_documents :
      User → List Fields → List (Document × List Chunk) → Query (Unit {0})
  unfolding delete_documents seed_documents
  replace_documents demo_user documents_payload existing_documents =
      execute (delete_documents existing_documents)
      >> seed_documents demo_user.id 1 documents_payload

  unfoldable pub reconcile_documents_for_existing_demo_user : User → List Fields → Query (Unit {0})
  unfolding is_unchanged replace_documents list_documents_with_chunks_for_user
  reconcile_documents_for_existing_demo_user demo_user documents_payload s =
      let existing_documents = list_documents_with_chunks_for_user demo_user.id s.current in
      if is_unchanged documents_payload existing_documents
      then (ok tt, s)
      else replace_documents demo_user documents_payload existing_documents s

  module _ (others : Db → Db) where
    -- A unique-key conflict is undone, and seen as none.
    abbrev conflict_only : Exc → Query (Option User)
    conflict_only (integrity_error d) = rollback >> pure none
    conflict_only e = raise e

    unfoldable pub try_create_demo_user : Query (Option User)
    unfolding create_demo_user rollback
    try_create_demo_user =
        catch
          (create_demo_user others demo_username demo_email (env.get_password_hash demo_password)
            >>= λ demo_user. pure (some demo_user))
          conflict_only

    unfoldable pub seed_created : List Fields → Option User → Query (Unit {0})
    unfolding seed_documents commit
    seed_created documents_payload none = pure tt
    seed_created documents_payload (some demo_user) =
        seed_documents demo_user.id 1 documents_payload >> commit

    -- With the fixture loaded.
    unfoldable pub seed_payload : Option User → Option Fields → Query (Unit {0})
    unfolding build_fixture_documents_payload try_create_demo_user seed_created
        reconcile_documents_for_existing_demo_user commit
    seed_payload none payload =
        try_create_demo_user >>= seed_created (build_fixture_documents_payload payload)
    seed_payload (some existing_demo) none = pure tt
    seed_payload (some existing_demo) (some payload) =
        if not existing_demo.is_demo
        then pure tt
        else reconcile_documents_for_existing_demo_user existing_demo
            (build_fixture_documents_payload (some payload))
          >> commit

    abbrev undo : Exc → Query (Unit {0})
    undo e = rollback >> raise e

    unfoldable pub seed_demo_user : Query (Unit {0})
    unfolding get_user_by_username_or_email load_fixture_payload seed_payload rollback
    seed_demo_user s =
        catch
          (lift (load_fixture_payload env)
            >>= seed_payload (get_user_by_username_or_email demo_username demo_email s.current))
          undo s
