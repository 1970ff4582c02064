-- ===== src/Chat/Streams.antt =====
-- query_document_stream_events_command of backend/app/services/document_query_service.py: the set-up,
-- the events of the answer, and the writes of the assistant's message in sessions of their own.
pub mod Queue
pub mod Setup
pub mod Contract
pub mod Answered
pub mod Terminal
pub mod Marks
pub mod Delivery
pub mod Progress
pub mod Turn
pub mod Disconnect
use vector_doc_qa.Prelude.{ℕ, Option, none, some, List, [], ◌∷◌, ◌++◌, map, is_empty, if◌then◌else◌}
use vector_doc_qa.Errors.{Exc, Detail, Result, ok, err, message}
use vector_doc_qa.Exec.{◌>>=◌, ◌>>◌, pure, gets, catch}
use vector_doc_qa.Text.{Text, strip}
use vector_doc_qa.Text.Write.{codes}
use vector_doc_qa.Json.{Json, array, items}
use vector_doc_qa.Models.{User, Role, user, assistant}
use vector_doc_qa.Database.{Db, Session, Query, LlmTokenUsage, open_session, read, commit, rollback}
use vector_doc_qa.Repositories.Messages.{create_message}
use vector_doc_qa.Anthropic.Answers.{Streamed, error_answer, generate_answer_stream}
use vector_doc_qa.Chat.Sources.{
  SearchResult, PipelineMeta, dump_result, build_pipeline_meta, build_message_sources_payload,
}
use vector_doc_qa.Chat.Queries.{
  Pipeline, document_history, document_tokens, http_error, search_chunks_with_timings,
  validate_document_for_query,
}

-- ServerSentEvent, by its `event`; the last is the comment of the heartbeat.
pub data Event : Type 0 where
  sources : Json → Event
  token : Text → Event
  meta : PipelineMeta → Event
  done : ℕ → Event
  error : Detail → Event
  keep_alive : Event

-- The generator of the events: what it yields and does, in order. `persist` is a call of
-- _persist_assistant_message, with what follows its result.
pub data Events : Type 0 where
  finish : Events
  yield : Event → Events → Events
  set_usage : Option LlmTokenUsage → Events → Events
  consume_usage : (Option LlmTokenUsage → Events) → Events
  persist : Text → Option Json → (Option ℕ → Events) → Events

-- What the set-up leaves for the events.
pub record Prepared : Type 0 where
  pub conversation_history : List (Role × Text)
  pub search_results : List SearchResult
  pub embedding_tokens : Option ℕ

-- "".join(answer_tokens)
abbrev pub concat : List Text → Text
concat [] = []
concat (t ∷ tokens) = t ++ concat tokens

abbrev query_failed : Detail
query_failed = message "Query failed"

abbrev saving_failed : Text
saving_failed = codes "I encountered an internal error saving the final response. Please retry."

abbrev pub sources_event : Prepared → Event
sources_event prepared = sources (array (items (map dump_result prepared.search_results)))

abbrev pub emit_tokens : List Text → Events → Events
emit_tokens [] rest = rest
emit_tokens (t ∷ tokens) rest = yield (token t) (emit_tokens tokens rest)

-- The `except Exception` clause, with the tokens that came before.
unfoldable pub partial_answer : List Text → Text
partial_answer answer_tokens =
    let partial = strip (concat answer_tokens) in if is_empty partial then error_answer else partial

unfoldable pub end_failed : Prepared → List Text → Events
unfolding partial_answer build_message_sources_payload
end_failed prepared answer_tokens =
    persist (partial_answer answer_tokens)
      (some (build_message_sources_payload prepared.search_results none))
      (λ _. yield (error query_failed) finish)

-- After the answer's message was written, or not.
unfoldable pub end_persisted : Option ℕ → Events
end_persisted (some assistant_message_id) = yield (done assistant_message_id) finish
end_persisted none = persist saving_failed none (λ _. yield (error query_failed) finish)

unfoldable pub end_answered : Prepared → List Text → PipelineMeta → Events
unfolding end_persisted build_message_sources_payload
end_answered prepared answer_tokens pipeline_meta = yield (meta pipeline_meta) (
    persist (concat answer_tokens)
      (some (build_message_sources_payload prepared.search_results (some pipeline_meta)))
      end_persisted)

module _ (p : Pipeline) where
  -- Transaction 1, from the user's message on. The embedding, its usage and the search are the statements of
  -- search_chunks_with_timings.
  unfoldable pub store_question : ℕ → User → Text → List (Role × Text) → Query Prepared
  store_question document_id current_user query conversation_history =
      create_message (some document_id) none current_user.id user query none
      >> (search_chunks_with_timings p query document_id 5 >>= λ found.
          commit
          >> pure (record {
            conversation_history = conversation_history;
            search_results = found.0;
            embedding_tokens = found.1;
          }))

  unfoldable pub prepare_stream : ℕ → User → Text → Query Prepared
  prepare_stream document_id current_user query =
      validate_document_for_query document_id current_user
      >> (gets (read (document_history p document_id current_user))
          >>= store_question document_id current_user query)

  abbrev setup_failure : Exc → Query Prepared
  setup_failure e s = (err (http_error p e), (rollback s).1)

  -- Up to the definition of the generators.
  unfoldable pub set_up_stream : ℕ → User → Text → Query Prepared
  unfolding rollback
  set_up_stream document_id current_user query =
      catch (prepare_stream document_id current_user query) setup_failure

  unfoldable pub stream_meta : Prepared → Option LlmTokenUsage → PipelineMeta
  unfolding build_pipeline_meta
  stream_meta prepared llm_usage =
      build_pipeline_meta p.floats prepared.search_results prepared.conversation_history p.elapsed
        p.similarity_threshold (document_tokens p prepared.embedding_tokens llm_usage)

  unfoldable pub end_stream_events : Prepared → Streamed → Option Exc → Events
  unfolding end_answered end_failed stream_meta
  end_stream_events prepared streamed (some e) = end_failed prepared streamed.tokens
  end_stream_events prepared streamed none = set_usage streamed.usage (
      consume_usage
        (λ llm_usage. end_answered prepared streamed.tokens (stream_meta prepared llm_usage)))

  unfoldable pub stream_events : Text → Prepared → Events
  unfolding end_stream_events generate_answer_stream
  stream_events query prepared =
      let streamed =
        generate_answer_stream p.model query prepared.search_results
          prepared.conversation_history in
      yield (sources_event prepared) (
        set_usage none
          (emit_tokens streamed.tokens (end_stream_events prepared streamed streamed.raised)))

-- `others` is what other sessions commit before a write begins. An exception closes the write's
-- session, which undoes it.
module _ (others : Db → Db) (document_id : ℕ) (current_user : User) where
  abbrev write_message : Text → Option Json → Query ℕ
  write_message content sources_payload =
      create_message (some document_id) none current_user.id assistant content sources_payload
      >>= λ assistant_message. commit >> pure assistant_message.id

  abbrev after_write : Session → Result ℕ × Session → Option ℕ × Session
  after_write s (ok id, w) = (some id, record s { committed = w.committed })
  after_write s (err e, w) = (none, record s { committed = w.committed })

  unfoldable pub persist_assistant_message : Text → Option Json → Session → Option ℕ × Session
  unfolding commit
  persist_assistant_message content sources_payload s =
      after_write s
        (write_message content sources_payload (open_session (others s.committed) s.now))

  -- The generator, run to its end.
  unfoldable pub run_events : Events → Session → List Event × Session
  unfolding persist_assistant_message
  run_events finish s = ([], s)
  run_events (yield event rest) s = let (events, s') = run_events rest s in (event ∷ events, s')
  run_events (set_usage usage rest) s = run_events rest (record s { stream_usage = usage })
  run_events (consume_usage rest) s =
      run_events (rest s.stream_usage) (record s { stream_usage = none })
  run_events (persist content sources_payload rest) s =
      let (id, s') = persist_assistant_message content sources_payload s in run_events (rest id) s'
