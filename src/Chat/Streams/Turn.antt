-- ===== src/Chat/Streams/Turn.antt =====
-- A streamed query from end to end: the set-up, the two tasks, and what the client sees.
use vector_doc_qa.Prelude.{ℕ, ◌≡◌, ap, ◌∙◌, some, [], ◌∷◌, ◌++◌, sym}
use vector_doc_qa.Errors.{ok}
use vector_doc_qa.Text.{Text}
use vector_doc_qa.Models.{User, Message, user, assistant}
use vector_doc_qa.Database.{Db, Session}
use vector_doc_qa.Chat.Queries.{Pipeline}
use vector_doc_qa.Chat.Streams.{Prepared, set_up_stream, stream_events}
use vector_doc_qa.Chat.Streams.Setup.{set_up_stream-IsAsked}
use vector_doc_qa.Chat.Streams.Answered.{answer_of, done_of, stream_events-done}
use vector_doc_qa.Chat.Streams.Queue.{State, initial, finished, Reach}
use vector_doc_qa.Chat.Streams.Delivery.{Reach-delivered}

-- The question and the answer that the client has put together are the last two messages.
pub record IsStreamedTurn (document_id : ℕ) (current_user : User) (query : Text) (id : ℕ)
    (s : Session) (u : State) : Type 0 where
  pub asked : Message
  pub answered : Message
  pub messages : u.session.committed.messages ≡ (s.current.messages ++ asked ∷ []) ++ answered ∷ []
  pub question : (asked.content ≡ query) × (asked.role ≡ user)
  pub answer : (answered.content ≡ answer_of u.delivered) × (answered.role ≡ assistant)
  pub key : answered.id ≡ id
  pub context : (asked.document_id ≡ some document_id) × (answered.document_id ≡ some document_id)
  pub author : (asked.user_id ≡ current_user.id) × (answered.user_id ≡ current_user.id)

abbrev pub nobody : Db → Db
nobody db = db

-- When the set-up of a stream returns, the client has seen the end of the stream with a `done`, and
-- nobody else commits anything in between, the committed messages are those that the session saw,
-- followed by the question and then the text of the tokens, the message that `done` names.
pub Reach-IsStreamedTurn :
    (p : Pipeline) (document_id : ℕ) (current_user : User) (query : Text) (s : Session)
    (prepared : Prepared) (id : ℕ) (u : State)
    → (set_up_stream p document_id current_user query s).0 ≡ ok prepared
    → Reach nobody document_id current_user
        (initial
          (stream_events p query prepared)
          (set_up_stream p document_id current_user query s).1)
        u
    → u.consumer ≡ finished
    → done_of u.delivered ≡ some id
    → IsStreamedTurn document_id current_user query id s u
Reach-IsStreamedTurn p document_id current_user query s prepared id u ready r f told =
    let s1 = (set_up_stream p document_id current_user query s).1 in
    let events = stream_events p query prepared in
    let (seen, left) = Reach-delivered nobody document_id current_user events s1 u r f in
    let a = set_up_stream-IsAsked p document_id current_user query s prepared ready in
    let w =
      stream_events-done nobody document_id current_user p query prepared id s1
        (ap done_of (sym seen) ∙ told) in
    record {
      asked = a.asked;
      answered = w.row;
      messages =
          ap (λ (t : Session). t.committed.messages) left
          ∙ w.messages
          ∙ ap (λ l. l ++ w.row ∷ []) a.messages;
      question = (a.text, a.speaker);
      answer = (w.text ∙ ap answer_of (sym seen), w.speaker);
      key = w.key;
      context = (a.document, w.document);
      author = (a.author, w.author);
    }
