-- ===== src/Tests/Streams.antt =====
-- Runs of the streams.
use vector_doc_qa.Prelude.{
  ℕ, ◌≡◌, refl, ap, ◌∙◌, true, Option, some, List, [], ◌∷◌, length, ◌++◌, ◌≤◌, zero, suc,
}
use vector_doc_qa.Errors.{ok, err, http, message}
use vector_doc_qa.Models.{completed}
use vector_doc_qa.Database.{Session}
use vector_doc_qa.Repositories.Messages.{has_references}
use vector_doc_qa.Chat.Turns.{is_http}
use vector_doc_qa.Chat.Streams.{
  Event, Events, token, yield, finish, Prepared, set_up_stream, stream_events, run_events,
}
use vector_doc_qa.Chat.Streams.Setup.{set_up_stream-failed}
use vector_doc_qa.Chat.Streams.Contract.{is_contract, streamed_by, stream_events-is_contract}
use vector_doc_qa.Chat.Streams.Answered.{done_of}
use vector_doc_qa.Chat.Streams.Terminal.{IsEnded, stream_events-IsEnded}
use vector_doc_qa.Chat.Streams.Queue.{maxsize, State, initial, ending, disconnected, here}
use vector_doc_qa.Chat.Streams.Delivery.{Reach-bounded, Reach-delivered}
use vector_doc_qa.Chat.Streams.Progress.{CanFinish, Reach-CanFinish}
use vector_doc_qa.Chat.Streams.Disconnect.{disconnected-ending}
use vector_doc_qa.Chat.Streams.Turn.{IsStreamedTurn, nobody, Reach-IsStreamedTurn}
use vector_doc_qa.Tests.Data.{
  alice, one_result, short_text, session, pipeline, working_client, broken_client,
}

abbrev prepared : Prepared
prepared = record {
  conversation_history = [];
  search_results = one_result ∷ [];
  embedding_tokens = some 3;
}

abbrev asked : Session
asked = (set_up_stream (pipeline working_client) 2 alice short_text (session completed)).1

abbrev events : Events
events = stream_events (pipeline working_client) short_text prepared

set_up :
    (set_up_stream (pipeline working_client) 2 alice short_text (session completed)).0 ≡ ok prepared
unfolding set_up_stream vector_doc_qa.Chat.Streams.prepare_stream
    vector_doc_qa.Chat.Queries.validate_document_for_query
    vector_doc_qa.Repositories.Documents.get_document_for_user
    vector_doc_qa.Repositories.Documents.document_has_chunks
    vector_doc_qa.Chat.Streams.store_question vector_doc_qa.Repositories.Messages.create_message
    vector_doc_qa.Chat.Queries.search_chunks_with_timings vector_doc_qa.Embedding.generate_embedding
    vector_doc_qa.Text.strip vector_doc_qa.Text.is_space
    vector_doc_qa.Embedding.consume_last_embedding_usage_tokens vector_doc_qa.Database.commit
    vector_doc_qa.Chat.Queries.build_recent_conversation_history
    vector_doc_qa.Repositories.Documents.search_document_chunks_by_embedding
set_up = refl

set_up_failed :
    (set_up_stream (pipeline broken_client) 2 alice short_text (session completed)).0
    ≡ err (http 500 (message "Query failed"))
unfolding set_up_stream vector_doc_qa.Chat.Streams.prepare_stream
    vector_doc_qa.Chat.Queries.validate_document_for_query
    vector_doc_qa.Repositories.Documents.get_document_for_user
    vector_doc_qa.Repositories.Documents.document_has_chunks
    vector_doc_qa.Chat.Streams.store_question vector_doc_qa.Repositories.Messages.create_message
    vector_doc_qa.Chat.Queries.search_chunks_with_timings vector_doc_qa.Embedding.generate_embedding
    vector_doc_qa.Text.strip vector_doc_qa.Text.is_space
set_up_failed = refl

set_up_stream-failed_example :
    ((set_up_stream (pipeline broken_client) 2 alice short_text (session completed)).1.committed
      ≡ (session completed).committed)
    × ((set_up_stream (pipeline broken_client) 2 alice short_text (session completed)).1.current
        ≡ (session completed).committed)
    × (is_http (http 500 (message "Query failed")) ≡ true)
set_up_stream-failed_example =
    set_up_stream-failed (pipeline broken_client) 2 alice short_text (session completed)
      (http 500 (message "Query failed")) set_up_failed

stream_events-is_contract_example :
    is_contract (run_events nobody 2 alice events (session completed)).0 ≡ true
stream_events-is_contract_example =
    stream_events-is_contract nobody 2 alice (pipeline working_client) short_text prepared
      (session completed)

run_done : done_of (run_events nobody 2 alice events (session completed)).0 ≡ some 20
unfolding run_events stream_events vector_doc_qa.Repositories.Messages.create_message
run_done = refl

stream_events-IsEnded_example :
    IsEnded nobody 2 alice
      (streamed_by (pipeline working_client) short_text prepared).tokens
      (streamed_by (pipeline working_client) short_text prepared).raised
      (session completed).committed
      (run_events nobody 2 alice events (session completed))
stream_events-IsEnded_example =
    stream_events-IsEnded nobody 2 alice (pipeline working_client) short_text prepared
      (session completed) refl

-- The two tasks, to the end.
completed_run : CanFinish nobody 2 alice (initial events asked)
completed_run = Reach-CanFinish nobody 2 alice events asked (initial events asked) here refl

Reach-CanFinish_example : CanFinish nobody 2 alice (initial events asked)
Reach-CanFinish_example =
    Reach-CanFinish nobody 2 alice events asked (initial events asked) here refl

Reach-bounded_example :
    (length completed_run.last.queue ≤ maxsize)
    × ((rest : List Event) × (completed_run.last.delivered ++ rest
          ≡ (run_events nobody 2 alice events asked).0))
Reach-bounded_example =
    Reach-bounded nobody 2 alice events asked completed_run.last completed_run.run

Reach-delivered_example :
    (completed_run.last.delivered ≡ (run_events nobody 2 alice events asked).0)
    × (completed_run.last.session ≡ (run_events nobody 2 alice events asked).1)
Reach-delivered_example =
    Reach-delivered nobody 2 alice events asked completed_run.last completed_run.run
      completed_run.done

asked_done : done_of (run_events nobody 2 alice events asked).0 ≡ some 21
unfolding run_events stream_events set_up_stream vector_doc_qa.Repositories.Messages.create_message
    vector_doc_qa.Chat.Streams.prepare_stream vector_doc_qa.Chat.Queries.validate_document_for_query
    vector_doc_qa.Repositories.Documents.get_document_for_user
    vector_doc_qa.Repositories.Documents.document_has_chunks
    vector_doc_qa.Chat.Streams.store_question vector_doc_qa.Chat.Queries.search_chunks_with_timings
    vector_doc_qa.Embedding.generate_embedding vector_doc_qa.Text.strip vector_doc_qa.Text.is_space
    vector_doc_qa.Embedding.consume_last_embedding_usage_tokens
asked_done = refl

delivered : completed_run.last.delivered ≡ (run_events nobody 2 alice events asked).0
delivered =
    (Reach-delivered nobody 2 alice events asked completed_run.last completed_run.run
      completed_run.done).0

Reach-IsStreamedTurn_example :
    IsStreamedTurn 2 alice short_text 21 (session completed) completed_run.last
Reach-IsStreamedTurn_example =
    Reach-IsStreamedTurn (pipeline working_client) 2 alice short_text (session completed) prepared
      21 completed_run.last set_up completed_run.run completed_run.done
      (ap done_of delivered ∙ asked_done)

abbrev full : ℕ → List (Option Event)
full zero = []
full (suc n) = some (token short_text) ∷ full n

-- A client that does not read, and a generator that has one more token.
abbrev stalled : State
stalled = record (initial (yield (token short_text) finish) asked) { queue = full maxsize }

disconnected-ending_example : (disconnected stalled).producer ≡ ending
disconnected-ending_example =
    disconnected-ending nobody 2 alice (yield (token short_text) finish) stalled
      (disconnected stalled) refl refl here
