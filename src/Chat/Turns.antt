-- ===== src/Chat/Turns.antt =====
-- A query stores both messages of a turn, or none.
pub mod OfWorkspaces
use vector_doc_qa.Prelude.{
  ℕ, ◌≡◌, refl, ap, sym, ◌∙◌, Bool, true, false, ◌&&◌, Option, none, some, List, [], ◌∷◌, ◌++◌, map,
  arith, inl, inr,
}
use vector_doc_qa.Errors.{Exc, is_ok, ok, err, http, Result-cases}
use vector_doc_qa.Exec.{gets, ◌>>=◌, ◌>>◌, bind-ok, pure, lift}
use vector_doc_qa.Text.{Text}
use vector_doc_qa.Json.{Json}
use vector_doc_qa.Models.{User, Message, Role, user, assistant}
use vector_doc_qa.Database.{read, Db, Session, Query, commit, rollback}
use vector_doc_qa.Repositories.Documents.{Hit, get_document_for_user, document_has_chunks}
use vector_doc_qa.Repositories.Messages.{create_message}
use vector_doc_qa.Embedding.{generate_embedding, consume_last_embedding_usage_tokens}
use vector_doc_qa.Documents.Status.{is_completed}
use vector_doc_qa.Anthropic.Usage.{consume_last_answer_usage}
use vector_doc_qa.Anthropic.Answers.{LanguageModel, read_reply, generate_answer}
use vector_doc_qa.Chat.Sources.{
  SearchResult, PipelineMeta, build_pipeline_meta, build_message_sources_payload,
  workspace_search_result,
}
use vector_doc_qa.Chat.Queries.{
  Pipeline, http_error, validate_document_for_query, search_chunks_with_timings, check_workspace,
  document_history, store_answer, answer_document, ask_document, query_document,
  query_document_command, document_tokens, answer_workspace, search_workspace, ask_workspace,
  workspace_history, query_workspace, query_workspace_command,
}

-- The request may ask about the document.
abbrev pub is_queryable : ℕ → User → Db → Bool
is_queryable document_id current_user db =
    elim (get_document_for_user document_id current_user.id db) [
      | none ↦ false
      | some d ↦ is_completed d.status && document_has_chunks document_id db
    ]

pub validate_lem :
    (document_id : ℕ) (current_user : User) (s : Session)
    → (is_ok (validate_document_for_query document_id current_user s).0
        ≡ is_queryable document_id current_user s.current)
      × ((validate_document_for_query document_id current_user s).1 ≡ s)
unfolding validate_document_for_query
validate_lem document_id current_user s = ground arith

-- What a statement that only reads rows, or asks a provider, leaves alone.
pub generate_rows :
    (p : Pipeline) (query : Text) (s : Session)
    → ((generate_embedding p.client query s).1.current ≡ s.current)
      × ((generate_embedding p.client query s).1.committed ≡ s.committed)
unfolding generate_embedding
generate_rows p query s = ground arith

pub search_rows :
    (p : Pipeline) (query : Text) (document_id top_k : ℕ) (s : Session)
    → ((search_chunks_with_timings p query document_id top_k s).1.current ≡ s.current)
      × ((search_chunks_with_timings p query document_id top_k s).1.committed ≡ s.committed)
unfolding search_chunks_with_timings consume_last_embedding_usage_tokens
search_rows p query document_id top_k s = ground (arith, generate_rows p query s)

pub answer_rows :
    (model : LanguageModel) (query : Text) (found : List SearchResult)
    (history : List (Role × Text)) (s : Session)
    → ((generate_answer model query found history s).1.current ≡ s.current)
      × ((generate_answer model query found history s).1.committed ≡ s.committed)
unfolding generate_answer read_reply
answer_rows model query found history s = ground arith

pub consume_rows :
    (s : Session)
    → ((consume_last_answer_usage s).1.current ≡ s.current)
      × ((consume_last_answer_usage s).1.committed ≡ s.committed)
unfolding consume_last_answer_usage
consume_rows s = (refl, refl)

-- A message that was inserted: the last of the table, and nothing else but the key's counter changes.
pub record IsInserted (document_id workspace_id : Option ℕ) (user_id : ℕ) (role : Role)
    (content : Text) (m : Message) (s s' : Session) : Type 0 where
  pub messages : s'.current.messages ≡ s.current.messages ++ m ∷ []
  pub committed : s'.committed ≡ s.committed
  pub document : m.document_id ≡ document_id
  pub workspace : m.workspace_id ≡ workspace_id
  pub author : m.user_id ≡ user_id
  pub speaker : m.role ≡ role
  pub text : m.content ≡ content

pub create_message-IsInserted :
    (document_id workspace_id : Option ℕ) (user_id : ℕ) (role : Role) (content : Text)
    (sources : Option Json) (m : Message) (s : Session)
    → (create_message document_id workspace_id user_id role content sources s).0 ≡ ok m
    → IsInserted document_id workspace_id user_id role content m s
        (create_message document_id workspace_id user_id role content sources s).1
unfolding create_message
create_message-IsInserted document_id workspace_id user_id role content sources m s h = record {
  messages = ground arith;
  committed = ground arith;
  document = ground arith;
  workspace = ground arith;
  author = ground arith;
  speaker = ground arith;
  text = ground arith;
}

pub create_message-committed :
    (document_id workspace_id : Option ℕ) (user_id : ℕ) (role : Role) (content : Text)
    (sources : Option Json) (s : Session)
    → (create_message document_id workspace_id user_id role content sources s).1.committed
      ≡ s.committed
unfolding create_message
create_message-committed document_id workspace_id user_id role content sources s = ground arith

-- An action that commits nothing, and one that has committed nothing if it raises.
abbrev pub Keeps : {A : Type 0} → Query A → Type 0
Keeps m = (s : Session) → (m s).1.committed ≡ s.committed

pub record IsUndone {A : Type 0} (m : Query A) : Type 0 where
  pub undone : (s : Session) (e : Exc) → (m s).0 ≡ err e → (m s).1.committed ≡ s.committed

bind_undone :
    {A B : Type 0} (m : Query A) (f : A → Query B)
    → Keeps m
    → ((a : A) → IsUndone (f a))
    → (s : Session) (e : Exc) → ((m >>= f) s).0 ≡ err e
    → ((m >>= f) s).1.committed ≡ s.committed
bind_undone m f keeps rest s e h = elim (Result-cases (m s).0) [
  | inr (x, failed) ↦ ground (arith, keeps s)
  | inl (a, fine) ↦
      let p = bind-ok m f s a fine in
      ap (λ t. t.1.committed) p ∙ (rest a).undone (m s).1 e (ap (λ t. t.0) (sym p) ∙ h) ∙ keeps s
]

pub bind-IsUndone :
    {A B : Type 0} (m : Query A) (f : A → Query B)
    → Keeps m
    → ((a : A) → IsUndone (f a))
    → IsUndone (m >>= f)
bind-IsUndone m f keeps rest = record { undone = bind_undone m f keeps rest }

commit_undone :
    {A : Type 0} (a : A) (s : Session) (e : Exc)
    → ((commit >> pure a) s).0 ≡ err e
    → ((commit >> pure a) s).1.committed ≡ s.committed
unfolding commit
commit_undone a s e h = absurd (ground arith)

pub commit-IsUndone : {A : Type 0} (a : A) → IsUndone (commit >> pure a)
commit-IsUndone a = record { undone = commit_undone a }

abbrev pub is_http : Exc → Bool
is_http (http status d) = true
is_http _ = false

pub http_error-is_http : (p : Pipeline) (e : Exc) → is_http (http_error p e) ≡ true
http_error-is_http p e = ground arith

module _ (p : Pipeline) (current_user : User) (query : Text) where
  pub store_answer-IsUndone :
      (d w : Option ℕ) (found : List SearchResult) (meta : PipelineMeta) (answer : Text)
      → IsUndone (store_answer p d w current_user query found meta answer)
  unfolding store_answer
  store_answer-IsUndone d w found meta answer =
      bind-IsUndone
        (create_message d w current_user.id assistant answer
          (some (build_message_sources_payload found (some meta))))
        (λ m.
          commit
          >> pure
              (record { query = query; answer = answer; sources = found; pipeline_meta = meta }))
        (create_message-committed d w current_user.id assistant answer _) λ m. commit-IsUndone _

module _ (p : Pipeline) (document_id : ℕ) (current_user : User) (query : Text) where
  answer_document-IsUndone :
      (history : List (Role × Text)) (found : List SearchResult × Option ℕ)
      → IsUndone (answer_document p document_id current_user query history found)
  unfolding answer_document
  answer_document-IsUndone history (found, tokens) =
      bind-IsUndone (generate_answer p.model query found history)
        (λ answer. consume_last_answer_usage >>= λ usage.
          store_answer p (some document_id) none current_user query found
            (build_pipeline_meta p.floats found history p.elapsed p.similarity_threshold
              (document_tokens p tokens usage))
            answer)
        (λ s. (answer_rows p.model query found history s).1)
        λ answer.
          bind-IsUndone consume_last_answer_usage _ (λ s. (consume_rows s).1)
            λ usage.
              store_answer-IsUndone p current_user query (some document_id) none found _ answer

  ask_document-IsUndone :
      (history : List (Role × Text))
      → IsUndone (ask_document p document_id current_user query history)
  unfolding ask_document
  ask_document-IsUndone history =
      bind-IsUndone (create_message (some document_id) none current_user.id user query none) _
        (create_message-committed (some document_id) none current_user.id user query none)
        λ asked.
          bind-IsUndone (search_chunks_with_timings p query document_id 5)
            (answer_document p document_id current_user query history)
            (λ s. (search_rows p query document_id 5 s).1) (answer_document-IsUndone history)

  query_document-IsUndone : IsUndone (query_document p document_id current_user query)
  unfolding query_document
  query_document-IsUndone =
      bind-IsUndone (validate_document_for_query document_id current_user)
        (λ d.
          gets (read (document_history p document_id current_user))
          >>= ask_document p document_id current_user query)
        (λ s. ap (λ t. t.committed) (validate_lem document_id current_user s).1)
        λ d.
          bind-IsUndone (gets (read (document_history p document_id current_user)))
            (ask_document p document_id current_user query) (λ s. refl) ask_document-IsUndone

  -- When a query of a document raises, nothing is committed, the session is back at what was
  -- committed, and the exception is an HTTPException.
  pub query_document_command-failed :
      (s : Session) (e : Exc)
      → (query_document_command p document_id current_user query s).0 ≡ err e
      → ((query_document_command p document_id current_user query s).1.committed ≡ s.committed)
        × ((query_document_command p document_id current_user query s).1.current ≡ s.committed)
        × (is_http e ≡ true)
  unfolding query_document_command rollback
  query_document_command-failed s e h =
      elim (Result-cases (query_document p document_id current_user query s).0) [
        | inl (r, fine) ↦ absurd (ground arith)
        | inr (x, failed) ↦
            ground (arith, query_document-IsUndone.undone s x failed, http_error-is_http p x)
      ]
