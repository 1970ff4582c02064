-- ===== src/Chat/Streams/Setup.antt =====
-- The set-up of a stream commits the question, or nothing; with the answer it makes a turn.
use mathlib.Core.Path.{subst}
use vector_doc_qa.Prelude.{
  ℕ, ◌≡◌, ap, sym, refl, ◌∙◌, Option, none, some, List, [], ◌∷◌, ◌++◌, arith, inl, inr, true,
}
use vector_doc_qa.Errors.{Exc, Result, ok, err, Result-cases}
use vector_doc_qa.Exec.{gets, ◌>>=◌, ◌>>◌, pure}
use vector_doc_qa.Text.{Text}
use vector_doc_qa.Models.{User, Message, Role, user}
use vector_doc_qa.Database.{Db, read, Session, commit, rollback}
use vector_doc_qa.Repositories.Messages.{create_message}
use vector_doc_qa.Chat.Sources.{SearchResult}
use vector_doc_qa.Chat.Queries.{
  Pipeline, document_history, validate_document_for_query, search_chunks_with_timings,
}
use vector_doc_qa.Chat.Turns.{
  create_message-IsInserted, create_message-committed, validate_lem, search_rows, IsUndone,
  bind-IsUndone, commit-IsUndone, is_http, http_error-is_http,
}
use vector_doc_qa.Chat.Stored.{bound}
use vector_doc_qa.Chat.Streams.{Prepared, store_question, prepare_stream, set_up_stream}

module _ (p : Pipeline) (document_id : ℕ) (current_user : User) (query : Text) where
  store_question-IsUndone :
      (history : List (Role × Text))
      → IsUndone (store_question p document_id current_user query history)
  unfolding store_question
  store_question-IsUndone history =
      bind-IsUndone (create_message (some document_id) none current_user.id user query none) _
        (create_message-committed (some document_id) none current_user.id user query none)
        λ asked.
          bind-IsUndone (search_chunks_with_timings p query document_id 5)
            (λ found.
              commit
              >> pure (record {
                conversation_history = history;
                search_results = found.0;
                embedding_tokens = found.1;
              }))
            (λ s. (search_rows p query document_id 5 s).1) λ found. commit-IsUndone _

  prepare_stream-IsUndone : IsUndone (prepare_stream p document_id current_user query)
  unfolding prepare_stream
  prepare_stream-IsUndone =
      bind-IsUndone (validate_document_for_query document_id current_user)
        (λ d.
          gets (read (document_history p document_id current_user))
          >>= store_question p document_id current_user query)
        (λ s. ap (λ t. t.committed) (validate_lem document_id current_user s).1)
        λ d.
          bind-IsUndone (gets (read (document_history p document_id current_user)))
            (store_question p document_id current_user query) (λ s. refl) store_question-IsUndone

  -- When the set-up of a stream raises, nothing is committed, the session is back at what was
  -- committed, and the exception is an HTTPException.
  pub set_up_stream-failed :
      (s : Session) (e : Exc)
      → (set_up_stream p document_id current_user query s).0 ≡ err e
      → ((set_up_stream p document_id current_user query s).1.committed ≡ s.committed)
        × ((set_up_stream p document_id current_user query s).1.current ≡ s.committed)
        × (is_http e ≡ true)
  unfolding set_up_stream rollback
  set_up_stream-failed s e h =
      elim (Result-cases (prepare_stream p document_id current_user query s).0) [
        | inl (r, fine) ↦ absurd (ground arith)
        | inr (x, failed) ↦
            ground (arith, prepare_stream-IsUndone.undone s x failed, http_error-is_http p x)
      ]

  -- The question is the last message that is committed.
  pub record IsAsked (s s' : Session) : Type 0 where
    pub asked : Message
    pub messages : s'.committed.messages ≡ s.current.messages ++ asked ∷ []
    pub text : asked.content ≡ query
    pub speaker : asked.role ≡ user
    pub document : asked.document_id ≡ some document_id
    pub author : asked.user_id ≡ current_user.id

  store_question-IsAsked :
      (history : List (Role × Text)) (s : Session) (r : Prepared)
      → (store_question p document_id current_user query history s).0 ≡ ok r
      → IsAsked s (store_question p document_id current_user query history s).1
  unfolding store_question commit
  store_question-IsAsked history s r h =
      let create = create_message (some document_id) none current_user.id user query none in
      let search = search_chunks_with_timings p query document_id 5 in
      let save = λ (found : List SearchResult × Option ℕ).
        commit
        >> pure (record {
          conversation_history = history;
          search_results = found.0;
          embedding_tokens = found.1;
        }) in
      let b = bound create (λ _. search >>= save) s r h in
      let i =
        create_message-IsInserted (some document_id) none current_user.id user query none b.value s
          b.first in
      let s1 = (create s).1 in
      let c = bound search save s1 r (ap (λ t. t.0) (sym b.rest) ∙ h) in
      subst (λ (t : Result Prepared × Session). IsAsked s t.1) (sym (b.rest ∙ c.rest))
        (record {
          asked = b.value;
          messages =
              ap (λ (db : Db). db.messages) (search_rows p query document_id 5 s1).0 ∙ i.messages;
          text = i.text;
          speaker = i.speaker;
          document = i.document;
          author = i.author;
        })

  prepare_stream-IsAsked :
      (s : Session) (r : Prepared)
      → (prepare_stream p document_id current_user query s).0 ≡ ok r
      → IsAsked s (prepare_stream p document_id current_user query s).1
  unfolding prepare_stream
  prepare_stream-IsAsked s r h =
      let ask = store_question p document_id current_user query in
      let b =
        bound (validate_document_for_query document_id current_user)
          (λ _. gets (read (document_history p document_id current_user)) >>= ask) s r h in
      let same = (validate_lem document_id current_user s).1 in
      let history = document_history p document_id current_user s.current in
      let q : prepare_stream p document_id current_user query s ≡ ask history s =
        ground (arith, b.rest, same) in
      subst (λ (t : Result Prepared × Session). IsAsked s t.1) (sym q)
        (store_question-IsAsked history s r (ap (λ t. t.0) (sym q) ∙ h))

  pub set_up_stream-IsAsked :
      (s : Session) (r : Prepared)
      → (set_up_stream p document_id current_user query s).0 ≡ ok r
      → IsAsked s (set_up_stream p document_id current_user query s).1
  unfolding set_up_stream
  set_up_stream-IsAsked s r h =
      elim (Result-cases (prepare_stream p document_id current_user query s).0) [
        | inr (e, failed) ↦ absurd (ground arith)
        | inl (r', fine) ↦
            let q : set_up_stream p document_id current_user query s
                ≡ prepare_stream p document_id current_user query s =
              ground arith in
            subst (λ (t : Result Prepared × Session). IsAsked s t.1) (sym q)
              (prepare_stream-IsAsked s r (ap (λ t. t.0) (sym q) ∙ h))
      ]
