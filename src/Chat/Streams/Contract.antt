-- ===== src/Chat/Streams/Contract.antt =====
-- The order of the events of a stream.
use vector_doc_qa.Prelude.{
  ℕ, ◌≡◌, refl, ap, ◌∙◌, Bool, true, false, Option, none, some, List, [], ◌∷◌, ◌++◌, map, arith,
}
use vector_doc_qa.Errors.{Exc}
use vector_doc_qa.Text.{Text}
use vector_doc_qa.Models.{User}
use vector_doc_qa.Database.{Db, Session}
use vector_doc_qa.Anthropic.Answers.{Streamed, generate_answer_stream}
use vector_doc_qa.Chat.Sources.{PipelineMeta}
use vector_doc_qa.Chat.Queries.{Pipeline}
use vector_doc_qa.Chat.Streams.{
  Event, sources, sources_event, token, meta, done, error, Events, Prepared, emit_tokens,
  end_persisted, end_answered, end_failed, stream_meta, end_stream_events, stream_events,
  run_events,
}

-- The metadata and the end of an answer, or the error alone.
abbrev pub is_end : List Event → Bool
is_end (meta m ∷ done id ∷ []) = true
is_end (meta m ∷ error d ∷ []) = true
is_end (error d ∷ []) = true
is_end _ = false

abbrev pub tokens_then_end : List Event → Bool
tokens_then_end (token t ∷ events) = tokens_then_end events
tokens_then_end events = is_end events

abbrev pub is_contract : List Event → Bool
is_contract (sources payload ∷ events) = tokens_then_end events
is_contract _ = false

-- The events of a stream are its sources and tokens before the events of its end.
abbrev pub streamed_by : Pipeline → Text → Prepared → Streamed
streamed_by p query prepared =
    generate_answer_stream p.model query prepared.search_results prepared.conversation_history

module _ (others : Db → Db) (document_id : ℕ) (current_user : User) where
  pub run-emit_tokens :
      (tokens : List Text) (rest : Events) (s : Session)
      → run_events others document_id current_user (emit_tokens tokens rest) s ≡ (
        map token tokens ++ (run_events others document_id current_user rest s).0,
        (run_events others document_id current_user rest s).1,
      )
  unfolding run_events
  run-emit_tokens [] rest s = refl
  run-emit_tokens (t ∷ tokens) rest s = rw (run-emit_tokens tokens rest s)

  abbrev pub run_end : Pipeline → Text → Prepared → Session → List Event × Session
  run_end p query prepared s =
      run_events others document_id current_user
        (end_stream_events p prepared (streamed_by p query prepared)
          (streamed_by p query prepared).raised)
        (record s { stream_usage = none })

  pub run-stream_events :
      (p : Pipeline) (query : Text) (prepared : Prepared) (s : Session)
      → run_events others document_id current_user (stream_events p query prepared) s ≡ (
        sources_event prepared ∷ map token (streamed_by p query prepared).tokens
            ++ (run_end p query prepared s).0,
        (run_end p query prepared s).1,
      )
  unfolding run_events stream_events
  run-stream_events p query prepared s =
      ap (λ (t : List Event × Session). (sources_event prepared ∷ t.0, t.1))
        (run-emit_tokens (streamed_by p query prepared).tokens
          (end_stream_events p prepared (streamed_by p query prepared)
            (streamed_by p query prepared).raised)
          (record s { stream_usage = none }))

  run-end_persisted :
      (id : Option ℕ) (m : PipelineMeta) (s : Session)
      → is_end (meta m ∷ (run_events others document_id current_user (end_persisted id) s).0) ≡ true
  unfolding run_events end_persisted
  run-end_persisted id m s = ground arith

  run-end_answered :
      (prepared : Prepared) (tokens : List Text) (m : PipelineMeta) (s : Session)
      → is_end (run_events others document_id current_user (end_answered prepared tokens m) s).0
        ≡ true
  unfolding run_events end_answered
  run-end_answered prepared tokens m s = run-end_persisted _ m _

  run-end_stream_events :
      (p : Pipeline) (prepared : Prepared) (streamed : Streamed) (raised : Option Exc) (s : Session)
      → is_end
          (run_events others document_id current_user
            (end_stream_events p prepared streamed raised)
            s).0
        ≡ true
  unfolding run_events end_stream_events end_failed
  run-end_stream_events p prepared streamed none s =
      run-end_answered prepared streamed.tokens (stream_meta p prepared streamed.usage)
        (record s { stream_usage = none })
  run-end_stream_events p prepared streamed (some e) s = refl

  tokens_then_end-append :
      (tokens : List Text) (events : List Event)
      → is_end events ≡ true
      → tokens_then_end (map token tokens ++ events) ≡ true
  tokens_then_end-append [] events h = ground (arith, h)
  tokens_then_end-append (t ∷ tokens) events h = tokens_then_end-append tokens events h

  -- The events of a stream that runs to its end are the sources, then tokens, then the metadata with
  -- one last event, which is `done` or `error`, or one `error` alone.
  pub stream_events-is_contract :
      (p : Pipeline) (query : Text) (prepared : Prepared) (s : Session)
      → is_contract
          (run_events others document_id current_user (stream_events p query prepared) s).0
        ≡ true
  stream_events-is_contract p query prepared s =
      ap (λ (t : List Event × Session). is_contract t.0) (run-stream_events p query prepared s)
      ∙ tokens_then_end-append (streamed_by p query prepared).tokens _
          (run-end_stream_events p prepared (streamed_by p query prepared) _ _)
