-- ===== src/Tests/Chats.antt =====
-- Runs of the queries.
use vector_doc_qa.Prelude.{ℕ, ◌≡◌, refl, true, Option, none, some, [], ◌∷◌, map}
use vector_doc_qa.Errors.{Exc, is_ok, ok, err, http, message}
use vector_doc_qa.Json.{Json, int, float, end, field, opt_int, Fields, items}
use vector_doc_qa.Models.{completed, WorkspaceDocument}
use vector_doc_qa.Database.{Session, open_session, commit, rollback}
use vector_doc_qa.Chat.Sources.{
  build_pipeline_meta, statistics, PipelineMeta, dump_result, dump_meta,
  build_message_sources_payload, extract_sources_and_pipeline_meta,
}
use vector_doc_qa.Chat.Sources.Roundtrip.{extract-build_message_sources_payload}
use vector_doc_qa.Text.{strip, lstrip, is_space}
use vector_doc_qa.Embedding.{generate_embedding, is_blank, consume_last_embedding_usage_tokens}
use vector_doc_qa.Repositories.Documents.{
  get_document_for_user, document_has_chunks, search_document_chunks_by_embedding, hits,
}
use vector_doc_qa.Repositories.Messages.{
  create_message, list_recent_message_pairs_for_document_user,
}
use vector_doc_qa.Chat.Queries.{
  query_document, validate_document_for_query, build_recent_conversation_history, ask_document,
  search_chunks_with_timings, answer_document, store_answer, QueryResponse, query_document_command,
  query_workspace_command,
}
use vector_doc_qa.Chat.Turns.{is_http, query_document_command-failed}
use vector_doc_qa.Chat.Stored.{IsTurn, query_document_command-IsTurn}
use vector_doc_qa.Tests.Data.{
  alice, one_result, short_text, rows, session, floats, pipeline, working_client, broken_client,
}

abbrev failure : Exc
failure = http 500 (message "Query failed")

query_failed :
    (query_document_command (pipeline broken_client) 2 alice short_text (session completed)).0
    ≡ err failure
unfolding query_document_command vector_doc_qa.Chat.Queries.query_document
    vector_doc_qa.Chat.Queries.validate_document_for_query
    vector_doc_qa.Repositories.Documents.get_document_for_user
    vector_doc_qa.Repositories.Documents.document_has_chunks vector_doc_qa.Chat.Queries.ask_document
    vector_doc_qa.Repositories.Messages.create_message
    vector_doc_qa.Chat.Queries.search_chunks_with_timings vector_doc_qa.Embedding.generate_embedding
    vector_doc_qa.Text.strip vector_doc_qa.Text.is_space
query_failed = refl

query_document_command-failed_example :
    ((query_document_command
        (pipeline broken_client)
        2
        alice
        short_text
        (session completed)).1.committed
      ≡ (session completed).committed)
    × ((query_document_command
          (pipeline broken_client)
          2
          alice
          short_text
          (session completed)).1.current
        ≡ (session completed).committed)
    × (is_http failure ≡ true)
query_document_command-failed_example =
    query_document_command-failed (pipeline broken_client) 2 alice short_text (session completed)
      failure query_failed

abbrev metadata : PipelineMeta
metadata =
    build_pipeline_meta floats (one_result ∷ []) [] (pipeline working_client).elapsed 0
      (record { embedding_tokens = some 3; llm_input_tokens = none; llm_output_tokens = none })

-- The embedding uses three tokens, and the model answers with the question.
abbrev answered_response : QueryResponse
answered_response = record {
  query = short_text;
  answer = short_text;
  sources = one_result ∷ [];
  pipeline_meta = metadata;
}

query_done :
    is_ok
      (query_document_command (pipeline working_client) 2 alice short_text (session completed)).0
    ≡ true
unfolding query_document_command query_document validate_document_for_query get_document_for_user
    document_has_chunks build_recent_conversation_history
    list_recent_message_pairs_for_document_user ask_document create_message
    search_chunks_with_timings generate_embedding is_blank strip lstrip is_space
    consume_last_embedding_usage_tokens search_document_chunks_by_embedding hits answer_document
    vector_doc_qa.Anthropic.Answers.generate_answer vector_doc_qa.Anthropic.Answers.read_reply
    vector_doc_qa.Anthropic.Usage.consume_last_answer_usage build_pipeline_meta statistics
    store_answer build_message_sources_payload commit rollback
query_done = refl

response_example :
    (query_document_command (pipeline working_client) 2 alice short_text (session completed)).0
    ≡ ok answered_response
unfolding query_document_command query_document validate_document_for_query get_document_for_user
    document_has_chunks build_recent_conversation_history
    list_recent_message_pairs_for_document_user ask_document create_message
    search_chunks_with_timings generate_embedding is_blank strip lstrip is_space
    consume_last_embedding_usage_tokens search_document_chunks_by_embedding hits answer_document
    vector_doc_qa.Anthropic.Answers.generate_answer vector_doc_qa.Anthropic.Answers.read_reply
    vector_doc_qa.Anthropic.Usage.consume_last_answer_usage build_pipeline_meta statistics
    store_answer build_message_sources_payload commit rollback
response_example = refl

query_document_command-IsTurn_example :
    IsTurn 2 alice short_text answered_response
      (session completed)
      (query_document_command (pipeline working_client) 2 alice short_text (session completed)).1
query_document_command-IsTurn_example =
    query_document_command-IsTurn (pipeline working_client) 2 alice short_text (session completed)
      answered_response response_example

abbrev member : WorkspaceDocument
member = record { id = 8; workspace_id = 5; document_id = 2; added_at = 3 }

abbrev shared : Session
shared = open_session (rows completed (member ∷ []) []) 7

workspace_failed :
    (query_workspace_command (pipeline broken_client) 5 alice short_text shared).0 ≡ err failure
unfolding query_workspace_command vector_doc_qa.Chat.Queries.check_workspace
    vector_doc_qa.Repositories.Workspaces.get_workspace_query_preflight
    vector_doc_qa.Chat.Queries.query_workspace vector_doc_qa.Chat.Queries.ask_workspace
    vector_doc_qa.Repositories.Messages.create_message vector_doc_qa.Chat.Queries.search_workspace
    vector_doc_qa.Embedding.generate_embedding vector_doc_qa.Text.strip vector_doc_qa.Text.is_space
workspace_failed = refl

-- A validation that reads the fields in their order.
abbrev as_opt : Json → Option ℕ
as_opt (int n) = some n
as_opt _ = none

as_opt-opt_int : (o : Option ℕ) → as_opt (opt_int o) ≡ o
unfolding opt_int
as_opt-opt_int none = refl
as_opt-opt_int (some n) = refl

abbrev read_meta : Fields → Option PipelineMeta
read_meta
      (field k0 (int v0) (
        field k1 (int v1) (
          field k2 (int v2) (
            field k3 (int v3) (
              field k4 (float v4) (
                field k5 (float v5) (
                  field k6 (int v6) (
                    field k7 (int v7) (
                      field k8 (float v8) (
                        field k9
                          (int v9)
                          (field k10 v10 (field k11 v11 (field k12 v12 end))))))))))))) =
    some (record {
      embed_ms = v0;
      retrieval_ms = v1;
      llm_ms = v2;
      total_ms = v3;
      top_similarity = v4;
      avg_similarity = v5;
      chunks_retrieved = v6;
      chunks_above_threshold = v7;
      similarity_spread = v8;
      chat_history_turns_included = v9;
      embedding_tokens = as_opt v10;
      llm_input_tokens = as_opt v11;
      llm_output_tokens = as_opt v12;
    })
read_meta _ = none

read_meta-dump_meta : (m : PipelineMeta) → read_meta (dump_meta m) ≡ some m
unfolding dump_meta
read_meta-dump_meta m = rw (
  as_opt-opt_int m.embedding_tokens,
  as_opt-opt_int m.llm_input_tokens,
  as_opt-opt_int m.llm_output_tokens,
)

extract-build_message_sources_payload_example :
    extract_sources_and_pipeline_meta read_meta
      (some (build_message_sources_payload (one_result ∷ []) (some metadata)))
    ≡ (some (items (map dump_result (one_result ∷ []))), some metadata)
extract-build_message_sources_payload_example =
    extract-build_message_sources_payload read_meta (one_result ∷ []) (some metadata)
      read_meta-dump_meta
