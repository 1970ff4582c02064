-- ===== src/Documents/Processing/Completed.antt =====
-- What `process_document_text` has stored when it returns.
use mathlib.Core.Path.{subst}
use vector_doc_qa.Prelude.{
  ℕ, suc, ◌≡◌, refl, ap, sym, ◌∙◌, true, some, List, [], ◌∷◌, ◌++◌, map, arith, ==_refl, is_some,
  find, find-update, select, length, All, All-append, Bool-cases, Option-cases, inl, inr,
  select-append,
}
use vector_doc_qa.Errors.{Result, ok, Result-cases}
use vector_doc_qa.Exec.{◌>>=◌, ◌>>◌, bind-ok, gets}
use vector_doc_qa.Models.{Document, Chunk, completed}
use vector_doc_qa.Database.{Db, Session, Query, execute, commit, meanwhile}
use vector_doc_qa.Repositories.Documents.{
  ChunkPayload, delete_chunks_for_document, has_id, of_document, new_chunks,
  create_chunks_for_document, get_document_by_id,
}
use vector_doc_qa.Pdf.Chunking.{ChunkWithPage}
use vector_doc_qa.Documents.Status.{with_time, update_document}
use vector_doc_qa.Documents.Processing.{
  Environment, payload, embed_batches, begin_processing, store_chunks, chunks_of_pdf, process_body,
  process_document_text,
}
use vector_doc_qa.Documents.Processing.Outcome.{
  base, is_startable, process_document_text-refused, started, begin-ok, fail_processing_lem,
}
use vector_doc_qa.Documents.Processing.Embedded.{ids, is_in, Waiting, stored, embed_batches-Waiting}

All-is_in_mono :
    (k : ℕ) (ks : List ℕ) (xs : List Chunk)
    → All (λ (c : Chunk). is_in c.id ks ≡ true) xs
    → All (λ (c : Chunk). is_in c.id (k ∷ ks) ≡ true) xs
All-is_in_mono k ks [] h = tt
All-is_in_mono k ks (x ∷ xs) h = (ground arith, All-is_in_mono k ks xs h.1)

All-is_in : (xs : List Chunk) → All (λ (c : Chunk). is_in c.id (ids xs) ≡ true) xs
All-is_in [] = tt
All-is_in (x ∷ xs) = (ground arith, All-is_in_mono x.id (ids xs) xs (All-is_in xs))

abbrev row_of : Chunk → ChunkPayload
row_of c = (c.content, c.page_start, c.page_end)

module _ (document_id : ℕ) where
  Waiting-old :
      (left : List ℕ) (rows : List Chunk)
      → select (of_document document_id) rows ≡ []
      → Waiting document_id left rows
  Waiting-old left [] h = tt
  Waiting-old left (c ∷ rows) h = elim (Bool-cases (of_document document_id c)) [
    | inl its ↦ ground arith
    | inr other ↦ (λ its. cc, Waiting-old left rows (ground arith))
  ]

  Waiting-new :
      (left : List ℕ) (rows : List Chunk)
      → All (λ (c : Chunk). is_in c.id left ≡ true) rows
      → Waiting document_id left rows
  Waiting-new left [] h = tt
  Waiting-new left (c ∷ rows) h = (λ its. ground arith, Waiting-new left rows h.1)

  stored-new_chunks :
      (id index : ℕ) (payloads : List ChunkPayload)
      → stored document_id (new_chunks document_id id index payloads) ≡ payloads
  unfolding new_chunks
  stored-new_chunks id index [] = refl
  stored-new_chunks id index ((content, page_start, page_end) ∷ payloads) =
      ground (arith, ==_refl document_id, stored-new_chunks (suc id) (suc index) payloads)

  record IsCreated (payloads : List ChunkPayload) (s s' : Session) (objects : List Chunk)
      : Type 0 where
    objects_new : objects ≡ new_chunks document_id s.current.next_id 0 payloads
    rows : s'.current.chunks ≡ s.current.chunks ++ objects
    documents : s'.current.documents ≡ s.current.documents
    present : is_some (find (has_id document_id) s.current.documents) ≡ true
    now : s'.now ≡ s.now

  create-IsCreated :
      (payloads : List ChunkPayload) (s : Session) (objects : List Chunk)
      → (create_chunks_for_document document_id payloads s).0 ≡ ok objects
      → IsCreated payloads s (create_chunks_for_document document_id payloads s).1 objects
  unfolding create_chunks_for_document
  create-IsCreated payloads s objects h =
      elim (Bool-cases (is_some (find (has_id document_id) s.current.documents))) [
        | inr missing ↦ ground arith
        | inl there ↦ record {
          objects_new = ground arith;
          rows = ground arith;
          documents = ground arith;
          present = there;
          now = ground arith;
        }
      ]

  created_rows :
      (payloads : List ChunkPayload) (s s' : Session) (objects : List Chunk)
      → IsCreated payloads s s' objects
      → select (of_document document_id) s.current.chunks ≡ []
      → stored document_id s'.current.chunks ≡ payloads
  created_rows payloads s s' objects made none_old =
      ap (stored document_id) made.rows
      ∙ ap (map row_of) (select-append (of_document document_id) s.current.chunks objects)
      ∙ ap (λ (l : List Chunk). map row_of (l ++ select (of_document document_id) objects)) none_old
      ∙ ap (stored document_id) made.objects_new
      ∙ stored-new_chunks s.current.next_id 0 payloads

  -- The document is completed at a time, its chunks are the given ones, in order, and each of its
  -- rows has an embedding; all of this is committed.
  pub record IsStored (chunks : List ChunkWithPage) (now : ℕ) (s : Session) : Type 0 where
    pub committed : s.committed ≡ s.current
    pub rows : stored document_id s.committed.chunks ≡ map payload chunks
    pub embedded : Waiting document_id [] s.committed.chunks
    pub document : Document
    pub found : get_document_by_id document_id s.committed ≡ some document
    pub status : document.status ≡ completed
    pub processed_at : document.processed_at ≡ some now

  -- The last statements of the second transaction.
  finish : Query (Unit {0})
  finish = do
    now ← gets (λ s. s.now)
    execute (update_document document_id (with_time completed now))
    commit

  finish-IsStored :
      (chunks : List ChunkWithPage) (now : ℕ) (s : Session)
      → stored document_id s.current.chunks ≡ map payload chunks
      → Waiting document_id [] s.current.chunks
      → is_some (find (has_id document_id) s.current.documents) ≡ true
      → s.now ≡ now
      → IsStored chunks now (finish s).1
  unfolding finish commit update_document get_document_by_id
  finish-IsStored chunks now s rows embedded there time =
      elim (Option-cases (find (has_id document_id) s.current.documents)) [
        | inl missing ↦ ground arith
        | inr (d, found) ↦ record {
          committed = refl;
          rows = rows;
          embedded = embedded;
          document = with_time completed s.now d;
          found = ground (
            arith,
            find-update (has_id document_id) (with_time completed s.now) s.current.documents,
          );
          status = refl;
          processed_at = ap some time;
        }
      ]

module _ (env : Environment) (others : Db → Db) (document_id : ℕ) where
  store_chunks-IsStored :
      (chunks : List ChunkWithPage) (s : Session)
      → select (of_document document_id) s.current.chunks ≡ []
      → (store_chunks env others document_id chunks s).0 ≡ ok tt
      → IsStored document_id chunks s.now (store_chunks env others document_id chunks s).1
  unfolding store_chunks finish
  store_chunks-IsStored chunks s none_old h =
      let create = create_chunks_for_document document_id (map payload chunks) in
      elim (Result-cases (create s).0) [
        | inr (x, refused) ↦ ground arith
        | inl (objects, created) ↦
            let made = create-IsCreated document_id (map payload chunks) s objects created in
            let s1 = (create s).1 in
            let batches = embed_batches env.client (length objects) objects in
            elim (Result-cases (batches s1).0) [
              | inr (x, refused) ↦ ground arith
              | inl (u, embedded) ↦
                  let waiting =
                    subst (λ (rows : List Chunk). Waiting document_id (ids objects) rows)
                      (sym made.rows)
                      (All-append _ s.current.chunks objects
                        (Waiting-old document_id (ids objects) s.current.chunks none_old)
                        (Waiting-new document_id (ids objects) objects (All-is_in objects))) in
                  let (done, kept) =
                    embed_batches-Waiting document_id env.client (length objects) objects s1
                      (omega arith) embedded waiting in
                  let p =
                    bind-ok create
                      (λ (l : List Chunk).
                        embed_batches env.client (length l) l >> finish document_id)
                      s objects created in
                  let q = bind-ok batches (λ _. finish document_id) s1 u embedded in
                  subst (λ (t : Result (Unit {0}) × Session). IsStored document_id chunks s.now t.1)
                    (sym (p ∙ q))
                    (finish-IsStored document_id chunks s.now (batches s1).1
                      (kept.rows
                        ∙ created_rows document_id (map payload chunks) s (create s).1 objects made
                            none_old)
                      done
                      (subst (λ (ds : List Document). is_some (find (has_id document_id) ds) ≡ true)
                        (sym (kept.documents ∙ made.documents)) made.present)
                      (kept.now ∙ made.now))
            ]
      ]

  -- The session that stores the chunks: what the others left of the first transaction.
  abbrev pub restarted : Session → Session
  restarted s = (meanwhile others (begin_processing env others document_id s).1).1

  body_stores :
      (d : Document) (chunks : List ChunkWithPage) (s : Session)
      → chunks_of_pdf env others document_id d.file_path ≡ ok chunks
      → process_body env others document_id d s
        ≡ store_chunks env others document_id chunks (restarted s)
  unfolding process_body
  body_stores d chunks s pdf = ground (arith, begin-ok env others document_id s)

  restarted_now : (s : Session) → (restarted s).now ≡ s.now
  unfolding begin_processing delete_chunks_for_document commit
  restarted_now s = refl

  -- If the document was found, its PDF gives these chunks, what the others committed left it no
  -- chunk, and the processing returns, then the document is completed at the session's time,
  -- exactly the PDF's chunks are stored for it, in their order, each of its rows has an embedding,
  -- and all of it is committed.
  pub process_document_text-IsStored :
      (s : Session) (d : Document) (chunks : List ChunkWithPage)
      → get_document_by_id document_id s.current ≡ some d
      → chunks_of_pdf env others document_id d.file_path ≡ ok chunks
      → select (of_document document_id) (base env others document_id s).chunks ≡ []
      → (process_document_text env others document_id s).0 ≡ ok tt
      → IsStored document_id chunks s.now (process_document_text env others document_id s).1
  process_document_text-IsStored s d chunks found pdf none_old h =
      elim (Bool-cases (is_startable (some d))) [
        | inr busy ↦
            let refused = process_document_text-refused env others document_id s (rw found busy) in
            absurd (ground (arith, refused.0))
        | inl ready ↦
            let p = started env others document_id s d found ready in
            let body = process_body env others document_id d in
            elim (Result-cases (body s).0) [
              | inr (e, failed) ↦
                  let fails = fail_processing_lem env others document_id e (body s).1 in
                  absurd (ground (arith, p, fails.0))
              | inl (u, fine) ↦
                  let q : process_document_text env others document_id s ≡ body s =
                    p ∙ ground arith in
                  let b = body_stores d chunks s pdf in
                  rw q (
                    rw b (
                      subst
                        (λ n.
                          IsStored document_id chunks n
                            (store_chunks env others document_id chunks (restarted s)).1)
                        (restarted_now s)
                        (store_chunks-IsStored chunks (restarted s) none_old
                          (ap (λ t. t.0) (sym (q ∙ b)) ∙ h))))
            ]
      ]
