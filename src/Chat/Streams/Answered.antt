-- ===== src/Chat/Streams/Answered.antt =====
-- What the events of a stream leave in the database.
use mathlib.Core.Path.{subst}
use mathlib.Core.List.{append_assoc, append-nil}
use vector_doc_qa.Prelude.{
  ℕ, ◌≡◌, refl, ap, sym, ◌∙◌, inl, inr, true, Option, none, some, List, [], ◌∷◌, ◌++◌, map, arith,
}
use vector_doc_qa.Errors.{Exc, Result-cases}
use vector_doc_qa.Text.{Text}
use vector_doc_qa.Json.{Json}
use vector_doc_qa.Models.{User, Message, assistant}
use vector_doc_qa.Database.{Db, Session, open_session, commit}
use vector_doc_qa.Repositories.Messages.{create_message, has_references}
use vector_doc_qa.Anthropic.Answers.{Streamed}
use vector_doc_qa.Chat.Sources.{PipelineMeta, build_message_sources_payload}
use vector_doc_qa.Chat.Turns.{create_message-IsInserted}
use vector_doc_qa.Chat.Queries.{Pipeline}
use vector_doc_qa.Chat.Streams.{
  Event, token, done, Events, Prepared, concat, end_persisted, end_answered, end_failed,
  stream_meta, end_stream_events, stream_events, persist_assistant_message, run_events,
}
use vector_doc_qa.Chat.Streams.Contract.{streamed_by, run-stream_events}

-- The texts that the client has put together from the tokens, and the message that `done` names.
abbrev pub answer_of : List Event → Text
answer_of [] = []
answer_of (token t ∷ events) = t ++ answer_of events
answer_of (_ ∷ events) = answer_of events

abbrev pub done_of : List Event → Option ℕ
done_of [] = none
done_of (done id ∷ events) = some id
done_of (_ ∷ events) = done_of events

module _ (others : Db → Db) (document_id : ℕ) (current_user : User) where
  -- An assistant's message about the document, after what the others had committed.
  pub record IsWritten (content : Text) (id : ℕ) (db db' : Db) : Type 0 where
    pub row : Message
    pub messages : db'.messages ≡ (others db).messages ++ row ∷ []
    pub key : row.id ≡ id
    pub speaker : row.role ≡ assistant
    pub text : row.content ≡ content
    pub document : row.document_id ≡ some document_id
    pub author : row.user_id ≡ current_user.id

  pub persist-IsWritten :
      (content : Text) (payload : Option Json) (id : ℕ) (s : Session)
      → (persist_assistant_message others document_id current_user content payload s).0 ≡ some id
      → IsWritten content id s.committed
          (persist_assistant_message others document_id current_user content payload s).1.committed
  unfolding persist_assistant_message commit
  persist-IsWritten content payload id s h =
      let w = open_session (others s.committed) s.now in
      let create =
        create_message (some document_id) none current_user.id assistant content payload in
      elim (Result-cases (create w).0) [
        | inr (e, failed) ↦ absurd (ground arith)
        | inl (m, fine) ↦
            let i =
              create_message-IsInserted (some document_id) none current_user.id assistant content
                payload m w fine in
            record {
              row = m;
              messages = ground (arith, i.messages);
              key = ground arith;
              speaker = i.speaker;
              text = i.text;
              document = i.document;
              author = i.author;
            }
      ]

  -- The write is accepted if its document and its user are still there.
  pub persist-accepted :
      (content : Text) (payload : Option Json) (s : Session)
      → has_references (some document_id) none current_user.id (others s.committed) ≡ true
      → (id : ℕ) × ((persist_assistant_message others document_id current_user content payload s).0
          ≡ some id)
  unfolding persist_assistant_message commit create_message
  persist-accepted content payload s h = ((others s.committed).next_id, ground arith)

  abbrev run : Events → Session → List Event × Session
  run = run_events others document_id current_user

  persisted-done :
      (o : Option ℕ) (id : ℕ) (s : Session)
      → done_of (run (end_persisted o) s).0 ≡ some id
      → (o ≡ some id)
        × ((run (end_persisted o) s).1 ≡ s)
        × (answer_of (run (end_persisted o) s).0 ≡ [])
  unfolding run_events end_persisted
  persisted-done none id s h = absurd (ground arith)
  persisted-done (some k) id s h = (h, refl, refl)

  answered-done :
      (prepared : Prepared) (tokens : List Text) (m : PipelineMeta) (id : ℕ) (s : Session)
      → done_of (run (end_answered prepared tokens m) s).0 ≡ some id
      → IsWritten
          (concat tokens)
          id
          s.committed
          (run (end_answered prepared tokens m) s).1.committed
        × (answer_of (run (end_answered prepared tokens m) s).0 ≡ [])
  unfolding run_events end_answered
  answered-done prepared tokens m id s h =
      let payload = some (build_message_sources_payload prepared.search_results (some m)) in
      let written =
        persist_assistant_message others document_id current_user (concat tokens) payload s in
      let (same, kept, silent) = persisted-done written.0 id written.1 h in
      (rw kept (persist-IsWritten (concat tokens) payload id s same), silent)

  end-done :
      (p : Pipeline) (prepared : Prepared) (streamed : Streamed) (raised : Option Exc) (id : ℕ)
      (s : Session)
      → done_of (run (end_stream_events p prepared streamed raised) s).0 ≡ some id
      → IsWritten
          (concat streamed.tokens)
          id
          s.committed
          (run (end_stream_events p prepared streamed raised) s).1.committed
        × (answer_of (run (end_stream_events p prepared streamed raised) s).0 ≡ [])
  unfolding run_events end_stream_events end_failed
  end-done p prepared streamed (some e) id s h = absurd (ground arith)
  end-done p prepared streamed none id s h =
      answered-done prepared streamed.tokens (stream_meta p prepared streamed.usage) id
        (record s { stream_usage = none }) h

  answer_of-tokens :
      (tokens : List Text) (events : List Event)
      → answer_of (map token tokens ++ events) ≡ concat tokens ++ answer_of events
  answer_of-tokens [] events = refl
  answer_of-tokens (t ∷ tokens) events =
      ap (λ (text : Text). t ++ text) (answer_of-tokens tokens events)
      ∙ sym (append_assoc t (concat tokens) (answer_of events))

  pub done_of-tokens :
      (tokens : List Text) (events : List Event)
      → done_of (map token tokens ++ events) ≡ done_of events
  done_of-tokens [] events = refl
  done_of-tokens (t ∷ tokens) events = done_of-tokens tokens events

  module _ (p : Pipeline) (query : Text) (prepared : Prepared) where
    abbrev streamed : Streamed
    streamed = streamed_by p query prepared

    -- When the events of a stream have a `done`, the message that it names is the last one that is
    -- committed, by the assistant and about the document, and its content is what the tokens make up.
    pub stream_events-done :
        (id : ℕ) (s : Session)
        → done_of (run_events others document_id current_user (stream_events p query prepared) s).0
          ≡ some id
        → IsWritten
            (answer_of
              (run_events others document_id current_user (stream_events p query prepared) s).0)
            id
            s.committed
            (run_events others document_id current_user
              (stream_events p query prepared)
              s).1.committed
    stream_events-done id s h =
        let ran = run-stream_events others document_id current_user p query prepared s in
        let ending =
          run (end_stream_events p prepared streamed streamed.raised)
            (record s { stream_usage = none }) in
        let (written, silent) =
          end-done p prepared streamed streamed.raised id (record s { stream_usage = none })
            (sym (done_of-tokens streamed.tokens ending.0)
              ∙ ap (λ (t : List Event × Session). done_of t.0) (sym ran)
              ∙ h) in
        let same : concat streamed.tokens ≡ answer_of (run (stream_events p query prepared) s).0 =
          sym (append-nil (concat streamed.tokens))
          ∙ ap (λ text. concat streamed.tokens ++ text) (sym silent)
          ∙ sym (answer_of-tokens streamed.tokens ending.0)
          ∙ ap (λ (t : List Event × Session). answer_of t.0) (sym ran) in
        subst
          (λ text.
            IsWritten text id s.committed (run (stream_events p query prepared) s).1.committed)
          same
          (subst
            (λ (t : List Event × Session).
              IsWritten (concat streamed.tokens) id s.committed t.1.committed)
            (sym ran) written)
