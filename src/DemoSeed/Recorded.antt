-- ===== src/DemoSeed/Recorded.antt =====
-- After a seed, the signatures of the user's documents are those of the fixture.
use mathlib.Core.Path.{subst}
use mathlib.Core.List.{append_assoc, append-nil}
use vector_doc_qa.Prelude.{
  ℕ, ◌+◌, ◌<◌, ◌≡◌, refl, ap, sym, ◌∙◌, Bool, true, false, List, [], ◌∷◌, ◌++◌, ◌==◌, map, select,
  arith, inl, inr, All, All-append, All-imp, select-append, Bool-cases,
}
use vector_doc_qa.Errors.{ok, Result}
use vector_doc_qa.Json.{Fields}
use vector_doc_qa.Models.{Document, Chunk}
use vector_doc_qa.Database.{Db, Session}
use vector_doc_qa.Repositories.Documents.{of_document}
use vector_doc_qa.Repositories.DemoSeed.{chunks_of, list_documents_with_chunks_for_user}
use vector_doc_qa.Chat.Stored.{bound}
use vector_doc_qa.DemoSeed.Fixture.{Environment}
use vector_doc_qa.DemoSeed.Signatures.{
  Signature, document_signature, existing_document_signature, payload_signature,
  fixture_document_signature,
}
use vector_doc_qa.DemoSeed.Seeding.{seed_document, seed_documents}
use vector_doc_qa.DemoSeed.Seeded.{IsSeeded, seed_document-IsSeeded}

-- The keys in use are below the counter.
pub record IsKeyed (db : Db) : Type 0 where
  pub documents : All (λ (d : Document). d.id < db.next_id) db.documents
  pub owners : All (λ (d : Document). d.user_id < db.next_id) db.documents
  pub chunks : All (λ (c : Chunk). c.document_id < db.next_id) db.chunks

abbrev pub of_user : ℕ → Document → Bool
of_user user_id d = d.user_id == user_id

abbrev pub user_signatures : ℕ → Db → List Signature
user_signatures user_id db =
    existing_document_signature (list_documents_with_chunks_for_user user_id db)

map-append : {A B : Type 0} (f : A → B) (xs ys : List A) → map f (xs ++ ys) ≡ map f xs ++ map f ys
map-append f [] ys = refl
map-append f (x ∷ xs) ys = rw (map-append f xs ys)

select-All :
    {A : Type 0} (test : A → Bool) (xs : List A) → All (λ x. test x ≡ true) xs → select test xs ≡ xs
select-All test [] h = refl
select-All test (x ∷ xs) h = ground (arith, h.0, select-All test xs h.1)

pub select-none :
    {A : Type 0} (test : A → Bool) (xs : List A)
    → All (λ x. test x ≡ false) xs
    → select test xs ≡ []
select-none test [] h = refl
select-none test (x ∷ xs) h = ground (arith, h.0, select-none test xs h.1)

-- Signatures of some documents, by a table of chunks.
abbrev signatures_by : List Chunk → List Document → List Signature
signatures_by chunks documents =
    map (λ (d : Document). document_signature (d, chunks_of chunks d)) documents

signatures_lem :
    (user_id : ℕ) (db : Db)
    → user_signatures user_id db ≡ signatures_by db.chunks (select (of_user user_id) db.documents)
unfolding list_documents_with_chunks_for_user existing_document_signature
signatures_lem user_id db = map_map (select (of_user user_id) db.documents)
  where
    map_map :
        (documents : List Document)
        → map document_signature (map (λ (d : Document). (d, chunks_of db.chunks d)) documents)
          ≡ signatures_by db.chunks documents
    map_map [] = refl
    map_map (d ∷ documents) = rw (map_map documents)

-- Chunks of a new document change nothing for the others.
signatures_kept :
    (chunks rows : List Chunk) (key : ℕ) (documents : List Document)
    → All (λ (c : Chunk). c.document_id ≡ key) rows
    → All (λ (d : Document). d.id < key) documents
    → signatures_by (chunks ++ rows) documents ≡ signatures_by chunks documents
signatures_kept chunks rows key [] owned below = refl
signatures_kept chunks rows key (d ∷ documents) owned below =
    let none_new =
      select-none (of_document d.id) rows
        (All-imp rows (λ c h. ground (arith, h, below.0)) owned) in
    let same =
      select-append (of_document d.id) chunks rows
      ∙ ap (λ l. chunks_of chunks d ++ l) none_new
      ∙ append-nil (chunks_of chunks d) in
    ap (λ l. document_signature (d, l) ∷ signatures_by (chunks ++ rows) documents) same
    ∙ ap (λ l. document_signature (d, chunks_of chunks d) ∷ l)
        (signatures_kept chunks rows key documents owned below.1)

All-select :
    {A : Type 0} (P : A → Type 0) (test : A → Bool) (xs : List A)
    → All P xs
    → All P (select test xs)
All-select P test [] h = tt
All-select P test (x ∷ xs) h = elim (Bool-cases (test x)) [
  | inl meets ↦ rw meets (h.0, All-select P test xs h.1)
  | inr fails ↦ rw fails (All-select P test xs h.1)
]

module _ (user_id : ℕ) (signature : Signature) (db db' : Db) (keyed : IsKeyed db)
    (seeded : IsSeeded user_id signature db db') where
  own_chunks : chunks_of (db.chunks ++ seeded.rows) seeded.row ≡ seeded.rows
  own_chunks =
      select-append (of_document seeded.row.id) db.chunks seeded.rows
      ∙ ap (λ l. l ++ select (of_document seeded.row.id) seeded.rows)
          (select-none (of_document seeded.row.id) db.chunks
            (All-imp db.chunks (λ c h. ground (arith, h, seeded.key)) keyed.chunks))
      ∙ select-All (of_document seeded.row.id) seeded.rows
          (All-imp seeded.rows (λ c h. ground (arith, h, seeded.key)) seeded.owned)

  own_row : select (of_user user_id) (seeded.row ∷ []) ≡ seeded.row ∷ []
  own_row = ground (arith, seeded.owner)

  pub signatures-IsSeeded :
      user_signatures user_id db' ≡ user_signatures user_id db ++ signature ∷ []
  signatures-IsSeeded =
      let old = select (of_user user_id) db.documents in
      let all_chunks = db.chunks ++ seeded.rows in
      signatures_lem user_id db'
      ∙ ap (λ l. signatures_by l (select (of_user user_id) db'.documents)) seeded.chunks
      ∙ ap (λ l. signatures_by all_chunks (select (of_user user_id) l)) seeded.documents
      ∙ ap (signatures_by all_chunks) (
          select-append (of_user user_id) db.documents (seeded.row ∷ [])
          ∙ ap (λ l. old ++ l) own_row)
      ∙ map-append (λ (d : Document). document_signature (d, chunks_of all_chunks d)) old
          (seeded.row ∷ [])
      ∙ ap (λ l. l ++ document_signature (seeded.row, chunks_of all_chunks seeded.row) ∷ [])
          (signatures_kept db.chunks seeded.rows db.next_id old seeded.owned
            (All-select _ (of_user user_id) db.documents keyed.documents))
      ∙ ap (λ l. signatures_by db.chunks old ++ document_signature (seeded.row, l) ∷ []) own_chunks
      ∙ ap (λ l. signatures_by db.chunks old ++ l ∷ []) seeded.signed
      ∙ ap (λ l. l ++ signature ∷ []) (sym (signatures_lem user_id db))

  pub IsKeyed-IsSeeded : user_id < db'.next_id → IsKeyed db'
  IsKeyed-IsSeeded below = record {
    documents = subst (All (λ (d : Document). d.id < db'.next_id)) (sym seeded.documents) (
        All-append _ db.documents (seeded.row ∷ [])
          (All-imp db.documents (λ d h. omega (arith, h, seeded.keys)) keyed.documents)
          (ground (arith, seeded.key, seeded.keys), tt));
    owners = subst (All (λ (d : Document). d.user_id < db'.next_id)) (sym seeded.documents) (
        All-append _ db.documents (seeded.row ∷ [])
          (All-imp db.documents (λ d h. omega (arith, h, seeded.keys)) keyed.owners)
          (ground (arith, seeded.owner, below), tt));
    chunks = subst (All (λ (c : Chunk). c.document_id < db'.next_id)) (sym seeded.chunks) (
        All-append _ db.chunks seeded.rows
          (All-imp db.chunks (λ c h. omega (arith, h, seeded.keys)) keyed.chunks)
          (All-imp seeded.rows (λ c h. ground (arith, h, seeded.keys)) seeded.owned));
  }

-- The whole list of the fixture.
pub record IsRecorded (user_id : ℕ) (signatures : List Signature) (db db' : Db) : Type 0 where
  pub signed : user_signatures user_id db' ≡ user_signatures user_id db ++ signatures
  pub users : db'.users ≡ db.users
  pub keyed : IsKeyed db'

pub seed_documents-IsRecorded :
    (env : Environment) (user_id index : ℕ) (docs : List Fields) (s : Session)
    → IsKeyed s.current
    → user_id < s.current.next_id
    → (seed_documents env user_id index docs s).0 ≡ ok tt
    → IsRecorded user_id
        (fixture_document_signature env index docs)
        s.current
        (seed_documents env user_id index docs s).1.current
unfolding seed_documents fixture_document_signature
seed_documents-IsRecorded env user_id index [] s keyed below h = record {
  signed = sym (append-nil (user_signatures user_id s.current));
  users = refl;
  keyed = keyed;
}
seed_documents-IsRecorded env user_id index (doc ∷ docs) s keyed below h =
    let b =
      bound (seed_document env user_id index doc) (λ _. seed_documents env user_id (index + 1) docs)
        s tt h in
    let s1 = (seed_document env user_id index doc s).1 in
    let signature = payload_signature env index doc in
    let seeded = seed_document-IsSeeded env user_id index doc s b.first in
    let below1 : user_id < s1.current.next_id = omega (arith, below, seeded.keys) in
    let keyed1 = IsKeyed-IsSeeded user_id signature s.current s1.current keyed seeded below1 in
    let r =
      seed_documents-IsRecorded env user_id (index + 1) docs s1 keyed1 below1
        (ap (λ t. t.0) (sym b.rest) ∙ h) in
    subst
      (λ (t : Result (Unit {0}) × Session).
        IsRecorded user_id (signature ∷ fixture_document_signature env (index + 1) docs) s.current
          t.1.current)
      (sym b.rest)
      (record {
        signed =
            r.signed
            ∙ ap (λ l. l ++ fixture_document_signature env (index + 1) docs)
                (signatures-IsSeeded user_id signature s.current s1.current keyed seeded)
            ∙ append_assoc (user_signatures user_id s.current) (signature ∷ [])
                (fixture_document_signature env (index + 1) docs);
        users = r.users ∙ seeded.users;
        keyed = r.keyed;
      })
