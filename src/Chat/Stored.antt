-- ===== src/Chat/Stored.antt =====
-- What a query that returns has stored.
use mathlib.Core.Path.{subst}
use vector_doc_qa.Prelude.{
  ℕ, ◌≡◌, refl, ap, sym, ◌∙◌, Option, none, some, List, [], ◌∷◌, ◌++◌, arith, inl, inr,
}
use vector_doc_qa.Errors.{Result, ok, Result-cases}
use vector_doc_qa.Exec.{gets, ◌>>=◌, bind-ok}
use vector_doc_qa.Text.{Text}
use vector_doc_qa.Models.{User, Message, Role, user, assistant}
use vector_doc_qa.Database.{Db, read, Session, Query, LlmTokenUsage, commit}
use vector_doc_qa.Repositories.Messages.{create_message}
use vector_doc_qa.Anthropic.Usage.{consume_last_answer_usage}
use vector_doc_qa.Anthropic.Answers.{generate_answer}
use vector_doc_qa.Chat.Sources.{
  SearchResult, PipelineMeta, build_pipeline_meta, build_message_sources_payload,
}
use vector_doc_qa.Chat.Queries.{
  Pipeline, QueryResponse, document_history, validate_document_for_query,
  search_chunks_with_timings, store_answer, answer_document, ask_document, query_document,
  query_document_command, document_tokens,
}
use vector_doc_qa.Chat.Turns.{
  create_message-IsInserted, validate_lem, search_rows, answer_rows, consume_rows,
}

-- A block that returns, from its first action on.
pub record IsBound {A B : Type 0} (m : Query A) (f : A → Query B) (s : Session) : Type 0 where
  pub value : A
  pub first : (m s).0 ≡ ok value
  pub rest : (m >>= f) s ≡ f value (m s).1

pub bound :
    {A B : Type 0} (m : Query A) (f : A → Query B) (s : Session) (b : B)
    → ((m >>= f) s).0 ≡ ok b
    → IsBound m f s
bound m f s b h = elim (Result-cases (m s).0) [
  | inr (e, failed) ↦ absurd (ground arith)
  | inl (a, fine) ↦ record { value = a; first = fine; rest = bind-ok m f s a fine }
]

used : (s : Session) → (consume_last_answer_usage s).0 ≡ ok s.answer_usage
unfolding consume_last_answer_usage
used s = refl

-- The question and the answer are the last two messages that are committed.
pub record IsTurn (document_id : ℕ) (current_user : User) (query : Text) (r : QueryResponse)
    (s s' : Session) : Type 0 where
  pub asked : Message
  pub answered : Message
  pub messages : s'.committed.messages ≡ (s.current.messages ++ asked ∷ []) ++ answered ∷ []
  pub question : (asked.content ≡ query) × (asked.role ≡ user)
  pub answer : (answered.content ≡ r.answer) × (answered.role ≡ assistant)
  pub context : (asked.document_id ≡ some document_id) × (answered.document_id ≡ some document_id)
  pub author : (asked.user_id ≡ current_user.id) × (answered.user_id ≡ current_user.id)

module _ (p : Pipeline) (document_id : ℕ) (current_user : User) (query : Text) where
  -- The second message.
  record IsAnswered (r : QueryResponse) (s s' : Session) : Type 0 where
    answered : Message
    messages : s'.committed.messages ≡ s.current.messages ++ answered ∷ []
    content : answered.content ≡ r.answer
    role : answered.role ≡ assistant
    document : answered.document_id ≡ some document_id
    author : answered.user_id ≡ current_user.id

  IsAnswered-from :
      (r : QueryResponse) (s1 s s' : Session)
      → s1.current ≡ s.current
      → IsAnswered r s1 s'
      → IsAnswered r s s'
  IsAnswered-from r s1 s s' same a = record {
    answered = a.answered;
    messages = a.messages ∙ ap (λ (db : Db). db.messages ++ a.answered ∷ []) same;
    content = a.content;
    role = a.role;
    document = a.document;
    author = a.author;
  }

  store_answer-IsAnswered :
      (found : List SearchResult) (meta : PipelineMeta) (answer : Text) (s : Session)
      (r : QueryResponse)
      → (store_answer p (some document_id) none current_user query found meta answer s).0 ≡ ok r
      → IsAnswered r s
          (store_answer p (some document_id) none current_user query found meta answer s).1
  unfolding store_answer commit
  store_answer-IsAnswered found meta answer s r h =
      let create =
        create_message (some document_id) none current_user.id assistant answer
          (some (build_message_sources_payload found (some meta))) in
      elim (Result-cases (create s).0) [
        | inr (e, failed) ↦ absurd (ground arith)
        | inl (m, fine) ↦
            let i =
              create_message-IsInserted (some document_id) none current_user.id assistant answer _ m
                s fine in
            record {
              answered = m;
              messages = ground (arith, i.messages);
              content = ground (arith, i.text);
              role = i.speaker;
              document = i.document;
              author = i.author;
            }
      ]

  answer_document-IsAnswered :
      (history : List (Role × Text)) (found : List SearchResult × Option ℕ) (s : Session)
      (r : QueryResponse)
      → (answer_document p document_id current_user query history found s).0 ≡ ok r
      → IsAnswered r s (answer_document p document_id current_user query history found s).1
  unfolding answer_document
  answer_document-IsAnswered history (found, tokens) s r h =
      let respond = generate_answer p.model query found history in
      let store = λ (answer : Text) (usage : Option LlmTokenUsage).
        store_answer p (some document_id) none current_user query found
          (build_pipeline_meta p.floats found history p.elapsed p.similarity_threshold
            (document_tokens p tokens usage))
          answer in
      let b = bound respond (λ answer. consume_last_answer_usage >>= store answer) s r h in
      let s1 = (respond s).1 in
      let q =
        b.rest ∙ bind-ok consume_last_answer_usage (store b.value) s1 s1.answer_usage (used s1) in
      let s2 = (consume_last_answer_usage s1).1 in
      let a = store_answer-IsAnswered found _ b.value s2 r (ap (λ t. t.0) (sym q) ∙ h) in
      subst (λ (t : Result QueryResponse × Session). IsAnswered r s t.1) (sym q)
        (IsAnswered-from r s2 s _
          ((consume_rows s1).0 ∙ (answer_rows p.model query found history s).0) a)

  ask_document-IsTurn :
      (history : List (Role × Text)) (s : Session) (r : QueryResponse)
      → (ask_document p document_id current_user query history s).0 ≡ ok r
      → IsTurn document_id current_user query r s
          (ask_document p document_id current_user query history s).1
  unfolding ask_document
  ask_document-IsTurn history s r h =
      let create = create_message (some document_id) none current_user.id user query none in
      let search = search_chunks_with_timings p query document_id 5 in
      let respond = answer_document p document_id current_user query history in
      let b = bound create (λ _. search >>= respond) s r h in
      let i =
        create_message-IsInserted (some document_id) none current_user.id user query none b.value s
          b.first in
      let s1 = (create s).1 in
      let c = bound search respond s1 r (ap (λ t. t.0) (sym b.rest) ∙ h) in
      let s2 = (search s1).1 in
      let q = b.rest ∙ c.rest in
      let a = answer_document-IsAnswered history c.value s2 r (ap (λ t. t.0) (sym q) ∙ h) in
      subst (λ (t : Result QueryResponse × Session). IsTurn document_id current_user query r s t.1)
        (sym q)
        (record {
          asked = b.value;
          answered = a.answered;
          messages =
              a.messages
              ∙ ap (λ (db : Db). db.messages ++ a.answered ∷ [])
                  (search_rows p query document_id 5 s1).0
              ∙ ap (λ l. l ++ a.answered ∷ []) i.messages;
          question = (i.text, i.speaker);
          answer = (a.content, a.role);
          context = (i.document, a.document);
          author = (i.author, a.author);
        })

  query_document-IsTurn :
      (s : Session) (r : QueryResponse)
      → (query_document p document_id current_user query s).0 ≡ ok r
      → IsTurn document_id current_user query r s
          (query_document p document_id current_user query s).1
  unfolding query_document
  query_document-IsTurn s r h =
      let ask = ask_document p document_id current_user query in
      let b =
        bound (validate_document_for_query document_id current_user)
          (λ _. gets (read (document_history p document_id current_user)) >>= ask) s r h in
      let same = (validate_lem document_id current_user s).1 in
      let history = document_history p document_id current_user s.current in
      let q : query_document p document_id current_user query s ≡ ask history s =
        ground (arith, b.rest, same) in
      subst (λ (t : Result QueryResponse × Session). IsTurn document_id current_user query r s t.1)
        (sym q) (ask_document-IsTurn history s r (ap (λ t. t.0) (sym q) ∙ h))

  -- When a query of a document returns, the committed messages are those that the session saw,
  -- followed by the question and then the answer that it returns, both by the caller and about the
  -- document.
  pub query_document_command-IsTurn :
      (s : Session) (r : QueryResponse)
      → (query_document_command p document_id current_user query s).0 ≡ ok r
      → IsTurn document_id current_user query r s
          (query_document_command p document_id current_user query s).1
  unfolding query_document_command
  query_document_command-IsTurn s r h =
      elim (Result-cases (query_document p document_id current_user query s).0) [
        | inr (e, failed) ↦ absurd (ground arith)
        | inl (r', fine) ↦
            let q : query_document_command p document_id current_user query s
                ≡ query_document p document_id current_user query s =
              ground arith in
            subst
              (λ (t : Result QueryResponse × Session).
                IsTurn document_id current_user query r s t.1)
              (sym q) (query_document-IsTurn s r (ap (λ t. t.0) (sym q) ∙ h))
      ]
