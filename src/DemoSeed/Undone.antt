-- ===== src/DemoSeed/Undone.antt =====
-- A seed that fails leaves nothing behind.
use vector_doc_qa.Prelude.{
  ℕ, ◌+◌, ◌≡◌, refl, Bool, true, false, not, if◌then◌else◌, Option, none, some, List, [], ◌∷◌,
  arith, inl, inr, Bool-cases,
}
use vector_doc_qa.Errors.{Exc, err, Result-cases}
use vector_doc_qa.Exec.{◌>>=◌, ◌>>◌, pure}
use vector_doc_qa.Json.{Fields}
use vector_doc_qa.Models.{User, Document}
use vector_doc_qa.Database.{Db, Session, Query, commit, rollback}
use vector_doc_qa.Repositories.DemoSeed.{
  create_completed_document, create_document_chunk, create_demo_user, get_user_by_username_or_email,
  delete_documents, list_documents_with_chunks_for_user,
}
use vector_doc_qa.Chat.Turns.{Keeps, IsUndone, bind-IsUndone}
use vector_doc_qa.DemoSeed.Fixture.{
  Environment, load_fixture_payload, build_fixture_documents_payload, dicts_of, file_path_of,
  filename_of, encoded_content_of,
}
use vector_doc_qa.DemoSeed.Seeding.{
  ensure_seeded_file, seed_chunk, seed_chunks, seed_row, seed_sized, seed_document, seed_documents,
  is_unchanged, replace_documents, reconcile_documents_for_existing_demo_user, try_create_demo_user,
  seed_created, seed_payload, seed_demo_user, demo_username, demo_email,
}

pub bind-Keeps :
    {A B : Type 0} (m : Query A) (f : A → Query B)
    → Keeps m
    → ((a : A) → Keeps (f a))
    → Keeps (m >>= f)
bind-Keeps m f keeps rest s = elim (Result-cases (m s).0) [
  | inl (a, fine) ↦ ground (arith, keeps s, rest a (m s).1)
  | inr (e, failed) ↦ ground (arith, keeps s)
]

module _ (env : Environment) where
  ensure-Keeps :
      (file_path filename : _) (o : _) → Keeps (ensure_seeded_file env file_path filename o)
  unfolding ensure_seeded_file
  ensure-Keeps file_path filename o s = ground arith

  seed_chunk-Keeps : (id : ℕ) (c : Fields) → Keeps (seed_chunk env id c)
  unfolding seed_chunk create_document_chunk
  seed_chunk-Keeps id c s = ground arith

  seed_chunks-Keeps : (id : ℕ) (cs : List Fields) → Keeps (seed_chunks env id cs)
  unfolding seed_chunks
  seed_chunks-Keeps id [] s = refl
  seed_chunks-Keeps id (c ∷ cs) s =
      bind-Keeps (seed_chunk env id c) (λ _. seed_chunks env id cs) (seed_chunk-Keeps id c)
        (λ _. seed_chunks-Keeps id cs) s

  seed_row-Keeps :
      (user_id index : ℕ) (doc : Fields) (size : ℕ) → Keeps (seed_row env user_id index doc size)
  unfolding seed_row create_completed_document
  seed_row-Keeps user_id index doc size s = refl

  seed_sized-Keeps :
      (user_id index : ℕ) (doc : Fields) (size : ℕ) → Keeps (seed_sized env user_id index doc size)
  unfolding seed_sized
  seed_sized-Keeps user_id index doc size =
      bind-Keeps (seed_row env user_id index doc size)
        (λ (document : Document). seed_chunks env document.id (dicts_of "chunks" doc))
        (seed_row-Keeps user_id index doc size)
        λ document. seed_chunks-Keeps document.id (dicts_of "chunks" doc)

  seed_document-Keeps :
      (user_id index : ℕ) (doc : Fields) → Keeps (seed_document env user_id index doc)
  unfolding seed_document
  seed_document-Keeps user_id index doc =
      bind-Keeps
        (ensure_seeded_file env (file_path_of env index doc) (filename_of env index doc)
          (encoded_content_of env doc))
        (seed_sized env user_id index doc) (ensure-Keeps _ _ _) (seed_sized-Keeps user_id index doc)

  pub seed_documents-Keeps :
      (user_id index : ℕ) (docs : List Fields) → Keeps (seed_documents env user_id index docs)
  unfolding seed_documents
  seed_documents-Keeps user_id index [] s = refl
  seed_documents-Keeps user_id index (doc ∷ docs) s =
      bind-Keeps (seed_document env user_id index doc)
        (λ _. seed_documents env user_id (index + 1) docs) (seed_document-Keeps user_id index doc)
        (λ _. seed_documents-Keeps user_id (index + 1) docs) s

  reconcile-Keeps :
      (u : User) (docs : List Fields)
      → Keeps (reconcile_documents_for_existing_demo_user env u docs)
  unfolding reconcile_documents_for_existing_demo_user replace_documents
  reconcile-Keeps u docs s =
      let existing = list_documents_with_chunks_for_user u.id s.current in
      elim (Bool-cases (is_unchanged env docs existing)) [
        | inl same ↦ ground (arith, same)
        | inr differs ↦ ground (
          arith,
          differs,
          seed_documents-Keeps u.id 1 docs
              (record s { current = delete_documents existing s.current }),
        )
      ]

  commit-IsUndone : IsUndone commit
  unfolding commit
  commit-IsUndone = record { undone = λ s e h. absurd (ground arith) }

  module _ (others : Db → Db) where
    try_create-Keeps : Keeps (try_create_demo_user env others)
    unfolding try_create_demo_user create_demo_user rollback
    try_create-Keeps s = ground arith

    seed_created-IsUndone :
        (docs : List Fields) (o : Option User) → IsUndone (seed_created env others docs o)
    unfolding seed_created
    seed_created-IsUndone docs none = record { undone = λ s e h. refl }
    seed_created-IsUndone docs (some u) =
        bind-IsUndone (seed_documents env u.id 1 docs) _ (seed_documents-Keeps u.id 1 docs)
          λ _. commit-IsUndone

    seed_existing-IsUndone :
        (is_demo : Bool) (u : User) (docs : List Fields)
        → IsUndone (
            if not is_demo
            then pure tt
            else reconcile_documents_for_existing_demo_user env u docs >> commit)
    seed_existing-IsUndone false u docs = record { undone = λ s e h. refl }
    seed_existing-IsUndone true u docs =
        bind-IsUndone (reconcile_documents_for_existing_demo_user env u docs) (λ _. commit)
          (reconcile-Keeps u docs) λ _. commit-IsUndone

    seed_payload-IsUndone :
        (existing : Option User) (payload : Option Fields)
        → IsUndone (seed_payload env others existing payload)
    unfolding seed_payload
    seed_payload-IsUndone none payload =
        bind-IsUndone (try_create_demo_user env others)
          (seed_created env others (build_fixture_documents_payload payload)) try_create-Keeps
          (seed_created-IsUndone (build_fixture_documents_payload payload))
    seed_payload-IsUndone (some u) none = record { undone = λ s e h. refl }
    seed_payload-IsUndone (some u) (some payload) =
        seed_existing-IsUndone u.is_demo u (build_fixture_documents_payload (some payload))

    -- When the seed raises, nothing is committed, and the session is back at what was committed.
    pub seed_demo_user-failed :
        (s : Session) (e : Exc)
        → (seed_demo_user env others s).0 ≡ err e
        → ((seed_demo_user env others s).1.committed ≡ s.committed)
          × ((seed_demo_user env others s).1.current ≡ s.committed)
    unfolding seed_demo_user rollback
    seed_demo_user-failed s e h =
        let existing = get_user_by_username_or_email demo_username demo_email s.current in
        elim (Result-cases (load_fixture_payload env)) [
          | inr (x, failed) ↦ ground (arith, failed)
          | inl (payload, fine) ↦
              elim (Result-cases (seed_payload env others existing payload s).0) [
                | inl (r, done) ↦ absurd (ground (arith, fine, done))
                | inr (x, failed) ↦ ground (
                  arith,
                  fine,
                  failed,
                  (seed_payload-IsUndone existing payload).undone s x failed,
                )
              ]
        ]

    -- An account with the name or the address of the demo account that is none is left alone: the
    -- seed commits nothing.
    pub seed_demo_user-committed :
        (s : Session) (u : User)
        → get_user_by_username_or_email demo_username demo_email s.current ≡ some u
        → u.is_demo ≡ false
        → (seed_demo_user env others s).1.committed ≡ s.committed
    unfolding seed_demo_user seed_payload rollback
    seed_demo_user-committed s u found regular = elim (Result-cases (load_fixture_payload env)) [
      | inr (x, failed) ↦ ground (arith, failed)
      | inl (none, fine) ↦ ground (arith, fine, found)
      | inl (some payload, fine) ↦ ground (arith, fine, found, regular)
    ]
