-- ===== src/Documents/Processing/Embedded.antt =====
-- A document that is completed has its chunks stored, each with an embedding.
use mathlib.Core.Path.{subst}
use mathlib.Core.List.{map-append}
use vector_doc_qa.Prelude.{
  ℕ, zero, suc, ◌≤◌, ◌≡◌, refl, ap, sym, ◌∙◌, Bool, true, ◌||◌, List, [], ◌∷◌, ◌++◌, map, arith,
  ◌==◌, is_some, select, any, take, drop, length, length-drop, take-append-drop, All, inl, inr,
}
use vector_doc_qa.Errors.{Result, ok, Result-cases}
use vector_doc_qa.Exec.{bind-ok}
use vector_doc_qa.Models.{Chunk, Vector}
use vector_doc_qa.Database.{Db, Session}
use vector_doc_qa.Repositories.Documents.{ChunkPayload, of_document}
use vector_doc_qa.Embedding.{Client, generate_embeddings_batch}
use vector_doc_qa.Documents.Processing.{
  content_of, set_embedding, assign_embeddings, embed_batch, embed_batches, embedding_batch_size,
}
use vector_doc_qa.Documents.Processing.Outcome.{committed-generate}

abbrev pub ids : List Chunk → List ℕ
ids chunks = map (λ (c : Chunk). c.id) chunks

abbrev pub is_in : ℕ → List ℕ → Bool
is_in id ks = any (λ k. k == id) ks

-- Every row of the document has an embedding, or is one of those that are left.
abbrev pub Waiting : ℕ → List ℕ → List Chunk → Type 0
Waiting document_id left = All (λ (c : Chunk).
    of_document document_id c ≡ true → (is_some c.embedding || is_in c.id left) ≡ true)

-- What is stored of the document's chunks, without their embeddings.
abbrev pub stored : ℕ → List Chunk → List ChunkPayload
stored document_id rows =
    map (λ (c : Chunk). (c.content, c.page_start, c.page_end))
      (select (of_document document_id) rows)

module _ (document_id : ℕ) where
  set_embedding-Waiting :
      (k : ℕ) (v : Vector) (left : List ℕ) (rows : List Chunk)
      → Waiting document_id (k ∷ left) rows
      → Waiting document_id left (set_embedding k v rows)
  unfolding set_embedding
  set_embedding-Waiting k v left [] h = tt
  set_embedding-Waiting k v left (c ∷ rows) h =
      (ground arith, set_embedding-Waiting k v left rows h.1)

  set_embedding-stored :
      (k : ℕ) (v : Vector) (rows : List Chunk)
      → stored document_id (set_embedding k v rows) ≡ stored document_id rows
  unfolding set_embedding
  set_embedding-stored k v [] = refl
  set_embedding-stored k v (c ∷ rows) = ground (arith, set_embedding-stored k v rows)

  assign_embeddings-Waiting :
      (batch : List Chunk) (vs : List Vector) (left : List ℕ) (db : Db)
      → length vs ≡ length batch
      → Waiting document_id (ids batch ++ left) db.chunks
      → Waiting document_id left (assign_embeddings batch vs db).chunks
  unfolding assign_embeddings
  assign_embeddings-Waiting [] [] left db e h = h
  assign_embeddings-Waiting [] (v ∷ vs) left db e h = absurd (omega arith)
  assign_embeddings-Waiting (c ∷ batch) [] left db e h = absurd (omega arith)
  assign_embeddings-Waiting (c ∷ batch) (v ∷ vs) left db e h =
      assign_embeddings-Waiting batch vs left _ (omega arith)
        (set_embedding-Waiting c.id v (ids batch ++ left) db.chunks h)

  assign_embeddings-stored :
      (batch : List Chunk) (vs : List Vector) (db : Db)
      → (stored document_id (assign_embeddings batch vs db).chunks ≡ stored document_id db.chunks)
        × ((assign_embeddings batch vs db).documents ≡ db.documents)
  unfolding assign_embeddings
  assign_embeddings-stored [] vs db = (refl, refl)
  assign_embeddings-stored (c ∷ batch) [] db = (refl, refl)
  assign_embeddings-stored (c ∷ batch) (v ∷ vs) db =
      let (a, b) =
        assign_embeddings-stored batch vs (record db { chunks = set_embedding c.id v db.chunks }) in
      (a ∙ set_embedding-stored c.id v db.chunks, b)

  -- What the batches keep.
  pub record IsKept (s s' : Session) : Type 0 where
    pub documents : s'.current.documents ≡ s.current.documents
    pub rows : stored document_id s'.current.chunks ≡ stored document_id s.current.chunks
    pub now : s'.now ≡ s.now

split_ids : (n : ℕ) (chunks : List Chunk) → ids (take n chunks) ++ ids (drop n chunks) ≡ ids chunks
split_ids n chunks =
    sym (map-append _ (take n chunks) (drop n chunks)) ∙ ap ids (take-append-drop n chunks)

-- What a batch that does not raise has assigned.
record IsAssigned (batch : List Chunk) (s s' : Session) : Type 0 where
  vectors : List Vector
  lengths : length vectors ≡ length batch
  current : s'.current ≡ assign_embeddings batch vectors s.current
  now : s'.now ≡ s.now

embed_batch-IsAssigned :
    (client : Client) (batch : List Chunk) (s : Session)
    → (embed_batch client batch s).0 ≡ ok tt
    → IsAssigned batch s (embed_batch client batch s).1
unfolding embed_batch
embed_batch-IsAssigned client batch s h =
    let texts = map content_of batch in
    let same = committed-generate client texts s in
    elim (Result-cases (generate_embeddings_batch client texts s).0) [
      | inr (e, failed) ↦ ground arith
      | inl (vs, done) ↦ record {
        vectors = vs;
        lengths = ground arith;
        current = ground (arith, same);
        now = ground (arith, same);
      }
    ]

module _ (document_id : ℕ) where
  embed_batch-Waiting :
      (client : Client) (batch : List Chunk) (left : List ℕ) (s : Session)
      → (embed_batch client batch s).0 ≡ ok tt
      → Waiting document_id (ids batch ++ left) s.current.chunks
      → Waiting document_id left (embed_batch client batch s).1.current.chunks
        × IsKept document_id s (embed_batch client batch s).1
  embed_batch-Waiting client batch left s h w =
      let a = embed_batch-IsAssigned client batch s h in
      let kept = assign_embeddings-stored document_id batch a.vectors s.current in
      (
        rw a.current
            (assign_embeddings-Waiting document_id batch a.vectors left s.current a.lengths w),
        record {
          documents = ap (λ (db : Db). db.documents) a.current ∙ kept.1;
          rows = ap (λ (db : Db). stored document_id db.chunks) a.current ∙ kept.0;
          now = a.now;
        },
      )

  IsKept-trans :
      (s t u : Session) → IsKept document_id s t → IsKept document_id t u → IsKept document_id s u
  IsKept-trans s t u a b = record {
    documents = b.documents ∙ a.documents;
    rows = b.rows ∙ a.rows;
    now = b.now ∙ a.now;
  }

  -- With a pass for each chunk that is left, all of them get an embedding.
  pub embed_batches-Waiting :
      (client : Client) (fuel : ℕ) (chunks : List Chunk) (s : Session)
      → length chunks ≤ fuel
      → (embed_batches client fuel chunks s).0 ≡ ok tt
      → Waiting document_id (ids chunks) s.current.chunks
      → Waiting document_id [] (embed_batches client fuel chunks s).1.current.chunks
        × IsKept document_id s (embed_batches client fuel chunks s).1
  unfolding embed_batches
  embed_batches-Waiting client zero [] s enough h w =
      (w, record { documents = refl; rows = refl; now = refl })
  embed_batches-Waiting client zero (c ∷ chunks) s enough h w = absurd (omega arith)
  embed_batches-Waiting client (suc fuel) [] s enough h w =
      (w, record { documents = refl; rows = refl; now = refl })
  embed_batches-Waiting client (suc fuel) (c ∷ chunks) s enough h w =
      let batch = take embedding_batch_size (c ∷ chunks) in
      let left = drop embedding_batch_size (c ∷ chunks) in
      let s1 = (embed_batch client batch s).1 in
      elim (Result-cases (embed_batch client batch s).0) [
        | inr (e, failed) ↦ ground arith
        | inl (u, done) ↦
            let first = embed_batch-Waiting client batch (ids left) s done (
              subst (λ l. Waiting document_id l s.current.chunks)
                (sym (split_ids embedding_batch_size (c ∷ chunks))) w) in
            let rest =
              embed_batches-Waiting client fuel left s1
                (omega (arith, length-drop embedding_batch_size (c ∷ chunks)))
                (let e : (embed_batches client fuel left s1).0 ≡ ok tt = ground arith in e)
                first.0 in
            let p =
              bind-ok (embed_batch client batch) (λ _. embed_batches client fuel left) s tt done in
            subst
              (λ (t : Result (Unit {0}) × Session).
                Waiting document_id [] t.1.current.chunks × IsKept document_id s t.1)
              (sym p) (rest.0, IsKept-trans s s1 _ first.1 rest.1)
      ]
