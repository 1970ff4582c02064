-- ===== src/Chat/Queries.antt =====
-- The commands of backend/app/services/document_query_service.py and the query of
-- backend/app/services/workspace_service.py, without the
-- stream and the history.
use vector_doc_qa.Prelude.{
  ℕ, zero, suc, ◌*◌, Bool, not, Option, none, some, List, [], map, reverse, ◌==◌,
}
use vector_doc_qa.Errors.{Exc, err, http, value_error, message, with_number}
use vector_doc_qa.Exec.{◌>>=◌, ◌>>◌, pure, raise, raise_if, or_raise, gets, catch}
use vector_doc_qa.Text.{Text}
use vector_doc_qa.Models.{User, Document, Role, user, assistant, Vector}
use vector_doc_qa.Database.{Db, Query, LlmTokenUsage, read, commit, rollback}
use vector_doc_qa.Repositories.Documents.{
  Hit, get_document_for_user, document_has_chunks, search_document_chunks_by_embedding,
}
use vector_doc_qa.Repositories.Messages.{
  create_message, list_recent_message_pairs_for_document_user,
  list_recent_message_pairs_for_workspace_user,
}
use vector_doc_qa.Repositories.Workspaces.{
  get_workspace_query_preflight, search_workspace_chunks_by_embedding,
}
use vector_doc_qa.Documents.Status.{is_completed}
use vector_doc_qa.Embedding.{Client, generate_embedding, consume_last_embedding_usage_tokens}
use vector_doc_qa.Anthropic.Usage.{consume_last_answer_usage}
use vector_doc_qa.Anthropic.Answers.{LanguageModel, generate_answer}
use vector_doc_qa.Chat.Sources.{
  Floats, SearchResult, PipelineMeta, Elapsed, Tokens, search_result, workspace_search_result,
  build_pipeline_meta, build_message_sources_payload,
}

-- The providers, the floats, the clock's measurements and the two settings of a query.
pub record Pipeline : Type 0 where
  pub client : Client
  pub model : LanguageModel
  pub cosine_distance : Vector → Vector → ℕ
  pub float_le : ℕ → ℕ → Bool
  pub floats : Floats
  pub elapsed : Elapsed
  pub history_window_turns : ℕ
  pub similarity_threshold : ℕ

pub record QueryResponse : Type 0 where
  pub query : Text
  pub answer : Text
  pub sources : List SearchResult
  pub pipeline_meta : PipelineMeta

abbrev pub input_of : Option LlmTokenUsage → Option ℕ
input_of none = none
input_of (some u) = u.input_tokens

abbrev pub output_of : Option LlmTokenUsage → Option ℕ
output_of none = none
output_of (some u) = u.output_tokens

-- The oldest first.
unfoldable pub build_recent_conversation_history : ℕ → ℕ → ℕ → Db → List (Role × Text)
unfolding list_recent_message_pairs_for_document_user
build_recent_conversation_history document_id user_id zero db = []
build_recent_conversation_history document_id user_id (suc window_turns) db =
    reverse
      (list_recent_message_pairs_for_document_user document_id user_id (suc window_turns * 2) db)

unfoldable pub build_recent_workspace_history : ℕ → ℕ → ℕ → Db → List (Role × Text)
unfolding list_recent_message_pairs_for_workspace_user
build_recent_workspace_history workspace_id user_id zero db = []
build_recent_workspace_history workspace_id user_id (suc window_turns) db =
    reverse
      (list_recent_message_pairs_for_workspace_user workspace_id user_id (suc window_turns * 2) db)

unfoldable pub validate_document_for_query : ℕ → User → Query Document
validate_document_for_query document_id current_user = do
  found ← gets (read (get_document_for_user document_id current_user.id))
  document ← or_raise found (http 404 (with_number "Document with ID " document_id " not found"))
  raise_if (not (is_completed document.status))
      (http 400 (with_number "Document " document_id " not processed yet"))
  has_chunks ← gets (read (document_has_chunks document_id))
  raise_if (not has_chunks) (http 400 (with_number "Document " document_id " has no chunks"))
  pure document

module _ (p : Pipeline) where
  -- search_chunks_with_timings, with the tokens that the embedding used.
  unfoldable pub search_chunks_with_timings : Text → ℕ → ℕ → Query (List SearchResult × Option ℕ)
  search_chunks_with_timings query document_id top_k = do
    query_embedding ← generate_embedding p.client query
    embedding_tokens ← consume_last_embedding_usage_tokens
    rows ← gets (
        read (
          search_document_chunks_by_embedding p.cosine_distance p.float_le document_id
            query_embedding top_k))
    pure (map (search_result p.floats) rows, embedding_tokens)

  -- The except clauses of the search: a ValueError is the client's fault, all else the server's.
  abbrev pub search_failure : Exc → Query (List SearchResult × Option ℕ)
  search_failure (value_error d) = raise (http 400 d)
  search_failure e = raise (http 500 (message "Search failed"))

  unfoldable pub search_document_command : ℕ → User → Text → ℕ → Query (List SearchResult)
  search_document_command document_id current_user query top_k = do
    validate_document_for_query document_id current_user
    results ← catch (search_chunks_with_timings query document_id top_k) search_failure
    pure results.0

  -- The end of the try block: the assistant's message, and the one commit of both messages.
  unfoldable pub store_answer :
      Option ℕ
      → Option ℕ
      → User
      → Text
      → List SearchResult
      → PipelineMeta
      → Text
      → Query QueryResponse
  store_answer document_id workspace_id current_user query search_results pipeline_meta answer = do
    create_message document_id workspace_id current_user.id assistant answer
        (some (build_message_sources_payload search_results (some pipeline_meta)))
    commit
    pure (record {
      query = query;
      answer = answer;
      sources = search_results;
      pipeline_meta = pipeline_meta;
    })

  abbrev pub document_tokens : Option ℕ → Option LlmTokenUsage → Tokens
  document_tokens embedding_tokens usage = record {
    embedding_tokens = embedding_tokens;
    llm_input_tokens = input_of usage;
    llm_output_tokens = output_of usage;
  }

  -- From the answer of the model on.
  unfoldable pub answer_document :
      ℕ → User → Text → List (Role × Text) → List SearchResult × Option ℕ → Query QueryResponse
  answer_document document_id current_user query conversation_history
        (search_results, embedding_tokens) =
      do
        answer ← generate_answer p.model query search_results conversation_history
        llm_usage ← consume_last_answer_usage
        store_answer (some document_id) none current_user query search_results
            (build_pipeline_meta p.floats search_results conversation_history p.elapsed
              p.similarity_threshold (document_tokens embedding_tokens llm_usage))
            answer

  -- From the user's message on.
  unfoldable pub ask_document : ℕ → User → Text → List (Role × Text) → Query QueryResponse
  ask_document document_id current_user query conversation_history =
      create_message (some document_id) none current_user.id user query none
      >> (search_chunks_with_timings query document_id 5
          >>= answer_document document_id current_user query conversation_history)

  abbrev pub document_history : ℕ → User → Db → List (Role × Text)
  document_history document_id current_user =
      build_recent_conversation_history document_id current_user.id p.history_window_turns

  -- The body of the try block.
  unfoldable pub query_document : ℕ → User → Text → Query QueryResponse
  query_document document_id current_user query =
      validate_document_for_query document_id current_user
      >> (gets (read (document_history document_id current_user))
          >>= ask_document document_id current_user query)

  -- The except clauses: the transaction is undone, and an HTTPException is raised again.
  abbrev pub http_error : Exc → Exc
  http_error (http status d) = http status d
  http_error (value_error d) = http 400 d
  http_error e = http 500 (message "Query failed")

  abbrev pub query_failure : Exc → Query QueryResponse
  query_failure e s = (err (http_error e), (rollback s).1)

  unfoldable pub query_document_command : ℕ → User → Text → Query QueryResponse
  query_document_command document_id current_user query =
      catch (query_document document_id current_user query) query_failure

  -- One statement before the try block of a workspace's query.
  unfoldable pub check_workspace : ℕ → User → Query (Unit {0})
  check_workspace workspace_id current_user = do
    found ← gets (read (get_workspace_query_preflight workspace_id current_user.id))
    preflight ← or_raise found (http 404 (message "Workspace not found"))
    raise_if (preflight.1 == 0) (http 400 (message "Workspace has no documents"))
    raise_if (not preflight.2) (http 400 (message "Workspace has no searchable chunks"))

  abbrev no_tokens : Tokens
  no_tokens = record { embedding_tokens = none; llm_input_tokens = none; llm_output_tokens = none }

  unfoldable pub answer_workspace :
      ℕ → User → Text → List (Role × Text) → List (Hit × Text) → Query QueryResponse
  answer_workspace workspace_id current_user query conversation_history search_rows = do
    let search_results = map (workspace_search_result p.floats) search_rows
    answer ← generate_answer p.model query search_results conversation_history
    store_answer none (some workspace_id) current_user query search_results
        (build_pipeline_meta p.floats search_results conversation_history p.elapsed
          p.similarity_threshold no_tokens)
        answer

  unfoldable pub search_workspace : ℕ → Text → Query (List (Hit × Text))
  search_workspace workspace_id query = do
    query_embedding ← generate_embedding p.client query
    gets (
        read (
          search_workspace_chunks_by_embedding p.cosine_distance p.float_le workspace_id
            query_embedding 5))

  unfoldable pub ask_workspace : ℕ → User → Text → List (Role × Text) → Query QueryResponse
  ask_workspace workspace_id current_user query conversation_history =
      create_message none (some workspace_id) current_user.id user query none
      >> (search_workspace workspace_id query
          >>= answer_workspace workspace_id current_user query conversation_history)

  abbrev pub workspace_history : ℕ → User → Db → List (Role × Text)
  workspace_history workspace_id current_user =
      build_recent_workspace_history workspace_id current_user.id p.history_window_turns

  unfoldable pub query_workspace : ℕ → User → Text → Query QueryResponse
  query_workspace workspace_id current_user query =
      gets (read (workspace_history workspace_id current_user))
      >>= ask_workspace workspace_id current_user query

  -- Here an HTTPException has no clause of its own.
  abbrev pub workspace_http_error : Exc → Exc
  workspace_http_error (value_error d) = http 400 d
  workspace_http_error e = http 500 (message "Query failed")

  abbrev pub workspace_query_failure : Exc → Query QueryResponse
  workspace_query_failure e s = (err (workspace_http_error e), (rollback s).1)

  unfoldable pub query_workspace_command : ℕ → User → Text → Query QueryResponse
  query_workspace_command workspace_id current_user query = do
    check_workspace workspace_id current_user
    catch (query_workspace workspace_id current_user query) workspace_query_failure
