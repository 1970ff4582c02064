-- ===== src/DemoSeed/Seeded.antt =====
-- What the seed of a document adds to the tables.
use mathlib.Core.Path.{subst}
use mathlib.Core.List.{append_assoc, append-nil}
use vector_doc_qa.Prelude.{
  some, none, Option, ℕ, ◌+◌, ◌≤◌, ◌<◌, ◌≡◌, refl, ap, sym, ◌∙◌, Bool, List, [], ◌∷◌, ◌++◌, length,
  select, arith, inl, inr, All, All-append, length-append, select-append,
}
use vector_doc_qa.Errors.{ok, Result, Result-cases}
use vector_doc_qa.Exec.{bind-ok}
use vector_doc_qa.Text.{Text}
use vector_doc_qa.Json.{Fields, get}
use vector_doc_qa.Models.{Document, Chunk, Vector, completed}
use vector_doc_qa.Database.{Db, Session}
use vector_doc_qa.Chat.Stored.{bound}
use vector_doc_qa.Repositories.DemoSeed.{create_completed_document, create_document_chunk}
use vector_doc_qa.DemoSeed.Fixture.{
  Environment, content_of, coerce_int, page_start_of, page_end_of, dicts_of, embedding_of,
  file_path_of, filename_of, encoded_content_of, has_page,
}
use vector_doc_qa.DemoSeed.Signatures.{
  Signature, chunk_has_page, document_signature, payload_signature,
}
use vector_doc_qa.DemoSeed.Seeding.{
  positive_or, ensure_seeded_file, seed_chunk, seed_chunks, seed_row, seed_sized, seed_document,
}

-- Chunks that were added to a document, for payloads.
record IsChunked (env : Environment) (id : ℕ) (payloads : List Fields) (db db' : Db) : Type 0 where
  rows : List Chunk
  chunks : db'.chunks ≡ db.chunks ++ rows
  owned : All (λ (c : Chunk). c.document_id ≡ id) rows
  count : length rows ≡ length payloads
  paged : length (select chunk_has_page rows) ≡ length (select (has_page env) payloads)
  documents : db'.documents ≡ db.documents
  users : db'.users ≡ db.users
  keys : db.next_id ≤ db'.next_id

length-select-cons :
    {A : Type 0} (test : A → Bool) (x : A) (xs : List A)
    → length (select test (x ∷ [])) + length (select test xs) ≡ length (select test (x ∷ xs))
length-select-cons test x xs = ground arith

-- A document that was added, with its chunks.
pub record IsSeeded (user_id : ℕ) (signature : Signature) (db db' : Db) : Type 0 where
  pub row : Document
  pub rows : List Chunk
  pub documents : db'.documents ≡ db.documents ++ row ∷ []
  pub chunks : db'.chunks ≡ db.chunks ++ rows
  pub key : row.id ≡ db.next_id
  pub owner : row.user_id ≡ user_id
  pub owned : All (λ (c : Chunk). c.document_id ≡ db.next_id) rows
  pub signed : document_signature (row, rows) ≡ signature
  pub users : db'.users ≡ db.users
  pub keys : db.next_id < db'.next_id

module _ (env : Environment) where
  abbrev new_row : ℕ → Fields → Session → Vector → Chunk
  new_row id payload s v = record {
    id = s.current.next_id;
    document_id = id;
    content = content_of env payload;
    chunk_index = coerce_int env (get "chunk_index" payload) 0;
    page_start = page_start_of env payload;
    page_end = page_end_of env payload;
    embedding = some v;
  }

  seed_chunk-IsChunked :
      (id : ℕ) (payload : Fields) (s : Session)
      → (seed_chunk env id payload s).0 ≡ ok tt
      → IsChunked env id (payload ∷ []) s.current (seed_chunk env id payload s).1.current
  unfolding seed_chunk create_document_chunk
  seed_chunk-IsChunked id payload s h = elim (Result-cases (embedding_of env payload)) [
    | inr (e, failed) ↦ absurd (ground arith)
    | inl (v, fine) ↦ record {
      rows = new_row id payload s v ∷ [];
      chunks = ground (arith, fine, h);
      owned = (refl, tt);
      count = refl;
      paged = ground arith;
      documents = ground (arith, fine, h);
      users = ground (arith, fine, h);
      keys = ground (arith, fine, h);
    }
  ]

  IsChunked-append :
      (id : ℕ) (payload : Fields) (payloads : List Fields) (db db' db'' : Db)
      → IsChunked env id (payload ∷ []) db db'
      → IsChunked env id payloads db' db''
      → IsChunked env id (payload ∷ payloads) db db''
  IsChunked-append id payload payloads db db' db'' a b = record {
    rows = a.rows ++ b.rows;
    chunks = b.chunks ∙ ap (λ l. l ++ b.rows) a.chunks ∙ append_assoc db.chunks a.rows b.rows;
    owned = All-append _ a.rows b.rows a.owned b.owned;
    count = omega (arith, length-append a.rows b.rows, a.count, b.count);
    paged =
        ap length (select-append chunk_has_page a.rows b.rows)
        ∙ length-append (select chunk_has_page a.rows) (select chunk_has_page b.rows)
        ∙ ap (λ n. n + length (select chunk_has_page b.rows)) a.paged
        ∙ ap (λ n. length (select (has_page env) (payload ∷ [])) + n) b.paged
        ∙ length-select-cons (has_page env) payload payloads;
    documents = b.documents ∙ a.documents;
    users = b.users ∙ a.users;
    keys = omega (arith, a.keys, b.keys);
  }

  seed_chunks-IsChunked :
      (id : ℕ) (payloads : List Fields) (s : Session)
      → (seed_chunks env id payloads s).0 ≡ ok tt
      → IsChunked env id payloads s.current (seed_chunks env id payloads s).1.current
  unfolding seed_chunks
  seed_chunks-IsChunked id [] s h = record {
    rows = [];
    chunks = sym (append-nil s.current.chunks);
    owned = tt;
    count = refl;
    paged = refl;
    documents = refl;
    users = refl;
    keys = omega arith;
  }
  seed_chunks-IsChunked id (payload ∷ payloads) s h =
      let b = bound (seed_chunk env id payload) (λ _. seed_chunks env id payloads) s tt h in
      let s1 = (seed_chunk env id payload s).1 in
      subst
        (λ (t : Result (Unit {0}) × Session).
          IsChunked env id (payload ∷ payloads) s.current t.1.current)
        (sym b.rest)
        (IsChunked-append id payload payloads s.current s1.current _
          (seed_chunk-IsChunked id payload s b.first)
          (seed_chunks-IsChunked id payloads s1 (ap (λ t. t.0) (sym b.rest) ∙ h)))

  ensure_rows :
      (file_path filename : Text) (o : Option Text) (s : Session)
      → (ensure_seeded_file env file_path filename o s).1 ≡ s
  unfolding ensure_seeded_file
  ensure_rows file_path filename o s = ground arith

  abbrev new_document : ℕ → ℕ → Fields → ℕ → Session → Document
  new_document user_id index doc size s = record {
    id = s.current.next_id;
    filename = filename_of env index doc;
    file_path = file_path_of env index doc;
    file_size = positive_or env (coerce_int env (get "file_size" doc) 0) size;
    status = completed;
    user_id = user_id;
    uploaded_at = s.now;
    processed_at = some s.now;
    error_message = none;
  }

  abbrev with_document : Document → Session → Session
  with_document d s = record s {
    current = record s.current {
      documents = s.current.documents ++ d ∷ [];
      next_id = s.current.next_id + 1;
    };
  }

  seed_row_lem :
      (user_id index : ℕ) (doc : Fields) (size : ℕ) (s : Session)
      → seed_row env user_id index doc size s ≡ (
        ok (new_document user_id index doc size s),
        with_document (new_document user_id index doc size s) s,
      )
  unfolding seed_row create_completed_document
  seed_row_lem user_id index doc size s = refl

  seed_sized-IsSeeded :
      (user_id index : ℕ) (doc : Fields) (size : ℕ) (s : Session)
      → (seed_sized env user_id index doc size s).0 ≡ ok tt
      → IsSeeded user_id
          (payload_signature env index doc)
          s.current
          (seed_sized env user_id index doc size s).1.current
  unfolding seed_sized
  seed_sized-IsSeeded user_id index doc size s h =
      let d = new_document user_id index doc size s in
      let s1 = with_document d s in
      let rest = λ (document : Document). seed_chunks env document.id (dicts_of "chunks" doc) in
      let row = seed_row_lem user_id index doc size s in
      let q =
        bind-ok (seed_row env user_id index doc size) rest s d (ap (λ t. t.0) row)
        ∙ ap (λ (t : Result Document × Session). rest d t.1) row in
      let c =
        seed_chunks-IsChunked s.current.next_id (dicts_of "chunks" doc) s1
          (ap (λ t. t.0) (sym q) ∙ h) in
      subst
        (λ (t : Result (Unit {0}) × Session).
          IsSeeded user_id (payload_signature env index doc) s.current t.1.current)
        (sym q)
        (record {
          row = d;
          rows = c.rows;
          documents = c.documents;
          chunks = c.chunks;
          key = refl;
          owner = refl;
          owned = c.owned;
          signed =
              ap (λ n. (filename_of env index doc, n, length (select chunk_has_page c.rows)))
                c.count
              ∙ ap (λ n. (filename_of env index doc, length (dicts_of "chunks" doc), n)) c.paged;
          users = c.users;
          keys = omega (arith, c.keys);
        })

  pub seed_document-IsSeeded :
      (user_id index : ℕ) (doc : Fields) (s : Session)
      → (seed_document env user_id index doc s).0 ≡ ok tt
      → IsSeeded user_id
          (payload_signature env index doc)
          s.current
          (seed_document env user_id index doc s).1.current
  unfolding seed_document
  seed_document-IsSeeded user_id index doc s h =
      let ensure =
        ensure_seeded_file env (file_path_of env index doc) (filename_of env index doc)
          (encoded_content_of env doc) in
      let b = bound ensure (seed_sized env user_id index doc) s tt h in
      let same =
        ensure_rows (file_path_of env index doc) (filename_of env index doc)
          (encoded_content_of env doc) s in
      let q = b.rest ∙ ap (seed_sized env user_id index doc b.value) same in
      subst
        (λ (t : Result (Unit {0}) × Session).
          IsSeeded user_id (payload_signature env index doc) s.current t.1.current)
        (sym q) (seed_sized-IsSeeded user_id index doc b.value s (ap (λ t. t.0) (sym q) ∙ h))
