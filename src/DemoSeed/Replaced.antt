-- ===== src/DemoSeed/Replaced.antt =====
-- The deletion of a user's documents leaves none of them.
use vector_doc_qa.Prelude.{
  ℕ, ◌≡◌, refl, ap, ◌∙◌, Bool, List, [], ◌∷◌, map, select, delete, arith, inl, inr, All, Bool-cases,
  ==_refl,
}
use vector_doc_qa.Models.{Document, Chunk}
use vector_doc_qa.Database.{Db}
use vector_doc_qa.Repositories.Documents.{has_id, of_document}
use vector_doc_qa.Repositories.DemoSeed.{
  chunks_of, list_documents_with_chunks_for_user, delete_documents,
}
use vector_doc_qa.Documents.Commands.{delete_rows}
use vector_doc_qa.DemoSeed.Signatures.{existing_document_signature}
use vector_doc_qa.DemoSeed.Recorded.{IsKeyed, of_user, user_signatures}

module _ {A : Type 0} where
  delete_comm : (s t : A → Bool) (xs : List A) → delete s (delete t xs) ≡ delete t (delete s xs)
  delete_comm s t [] = refl
  delete_comm s t (x ∷ xs) = ground (arith, delete_comm s t xs)

  select-delete_comm :
      (s t : A → Bool) (xs : List A) → select s (delete t xs) ≡ delete t (select s xs)
  select-delete_comm s t [] = refl
  select-delete_comm s t (x ∷ xs) = ground (arith, select-delete_comm s t xs)

  All-delete : (P : A → Type 0) (t : A → Bool) (xs : List A) → All P xs → All P (delete t xs)
  All-delete P t [] h = tt
  All-delete P t (x ∷ xs) h = elim (Bool-cases (t x)) [
    | inl meets ↦ rw meets (All-delete P t xs h.1)
    | inr fails ↦ rw fails (h.0, All-delete P t xs h.1)
  ]

-- The rows of the documents alone, without the rows that each deletion takes along.
abbrev delete_all : List (Document × List Chunk) → List Document → List Document
delete_all [] documents = documents
delete_all ((d, chunks) ∷ existing) documents = delete_all existing (delete (has_id d.id) documents)

delete_all-delete :
    (existing : List (Document × List Chunk)) (t : Document → Bool) (documents : List Document)
    → delete_all existing (delete t documents) ≡ delete t (delete_all existing documents)
delete_all-delete [] t documents = refl
delete_all-delete ((d, chunks) ∷ existing) t documents =
    ap (delete_all existing) (delete_comm (has_id d.id) t documents)
    ∙ delete_all-delete existing t (delete (has_id d.id) documents)

select-delete_all :
    (s : Document → Bool) (existing : List (Document × List Chunk)) (documents : List Document)
    → select s (delete_all existing documents) ≡ delete_all existing (select s documents)
select-delete_all s [] documents = refl
select-delete_all s ((d, chunks) ∷ existing) documents =
    select-delete_all s existing (delete (has_id d.id) documents)
    ∙ ap (delete_all existing) (select-delete_comm s (has_id d.id) documents)

delete_all_self :
    (f : Document → List Chunk) (documents : List Document)
    → delete_all (map (λ (d : Document). (d, f d)) documents) documents ≡ []
delete_all_self f [] = refl
delete_all_self f (d ∷ documents) =
    let existing : List (Document × List Chunk) = map (λ (d : Document). (d, f d)) documents in
    let first : delete (has_id d.id) (d ∷ documents) ≡ delete (has_id d.id) documents =
      ground (arith, ==_refl d.id) in
    ap (delete_all existing) first
    ∙ delete_all-delete existing (has_id d.id) documents
    ∙ ap (delete (has_id d.id)) (delete_all_self f documents)

record IsDeleted (existing : List (Document × List Chunk)) (db db' : Db) : Type 0 where
  documents : db'.documents ≡ delete_all existing db.documents
  users : db'.users ≡ db.users
  keys : db'.next_id ≡ db.next_id
  keyed : IsKeyed db → IsKeyed db'

delete_documents-IsDeleted :
    (existing : List (Document × List Chunk)) (db : Db)
    → IsDeleted existing db (delete_documents existing db)
unfolding delete_documents delete_rows
delete_documents-IsDeleted [] db = record {
  documents = refl;
  users = refl;
  keys = refl;
  keyed = λ k. k;
}
delete_documents-IsDeleted ((d, chunks) ∷ existing) db =
    let i = delete_documents-IsDeleted existing (delete_rows d.id db) in
    record {
      documents = i.documents;
      users = i.users;
      keys = i.keys;
      keyed = λ k. i.keyed (record {
        documents = All-delete _ (has_id d.id) db.documents k.documents;
        owners = All-delete _ (has_id d.id) db.documents k.owners;
        chunks = All-delete _ (of_document d.id) db.chunks k.chunks;
      });
    }

-- No document of the user is left, and all else that matters stays.
pub record IsCleared (user_id : ℕ) (db db' : Db) : Type 0 where
  pub signed : user_signatures user_id db' ≡ []
  pub users : db'.users ≡ db.users
  pub keys : db'.next_id ≡ db.next_id
  pub keyed : IsKeyed db → IsKeyed db'

pub signatures_nil :
    (user_id : ℕ) (db : Db)
    → select (of_user user_id) db.documents ≡ []
    → user_signatures user_id db ≡ []
unfolding list_documents_with_chunks_for_user existing_document_signature
signatures_nil user_id db h = rw h refl

pub delete_documents-IsCleared :
    (user_id : ℕ) (db : Db)
    → IsCleared user_id db (delete_documents (list_documents_with_chunks_for_user user_id db) db)
unfolding list_documents_with_chunks_for_user
delete_documents-IsCleared user_id db =
    let existing = list_documents_with_chunks_for_user user_id db in
    let i = delete_documents-IsDeleted existing db in
    record {
      signed = signatures_nil user_id (delete_documents existing db) (
          ap (select (of_user user_id)) i.documents
          ∙ select-delete_all (of_user user_id) existing db.documents
          ∙ delete_all_self (chunks_of db.chunks) (select (of_user user_id) db.documents));
      users = i.users;
      keys = i.keys;
      keyed = i.keyed;
    }
