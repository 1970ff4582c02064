-- ===== src/Chat/Streams/Terminal.antt =====
-- The events of a stream leave an answer in the history, whether the provider fails or not.
use mathlib.Core.Path.{subst}
use vector_doc_qa.Prelude.{ℕ, ◌≡◌, refl, sym, ◌∙◌, true, Option, none, some, List, inl, inr}
use vector_doc_qa.Errors.{Exc}
use vector_doc_qa.Text.{Text, strip}
use vector_doc_qa.Text.Write.{codes}
use vector_doc_qa.Text.Strip.{IsBlank, HasInk, strip-cases}
use vector_doc_qa.Models.{User}
use vector_doc_qa.Database.{Db, Session}
use vector_doc_qa.Repositories.Messages.{has_references}
use vector_doc_qa.Anthropic.Answers.{Streamed}
use vector_doc_qa.Chat.Sources.{PipelineMeta, build_message_sources_payload}
use vector_doc_qa.Chat.Queries.{Pipeline}
use vector_doc_qa.Chat.Streams.{
  Event, Prepared, concat, partial_answer, end_persisted, end_answered, end_failed, stream_meta,
  end_stream_events, stream_events, run_events,
}
use vector_doc_qa.Chat.Streams.Contract.{streamed_by, run-stream_events}
use vector_doc_qa.Chat.Streams.Answered.{
  IsWritten, persist-IsWritten, persist-accepted, done_of, done_of-tokens,
}

-- The text that a stream of the tokens leaves in the history.
pub data IsRecorded (tokens : List Text) : Option Exc → Text → Type 0 where
  whole : IsRecorded tokens none (concat tokens)
  partial : (e : Exc) → HasInk (concat tokens) → IsRecorded tokens (some e) (strip (concat tokens))
  apology :
      (e : Exc)
      → IsBlank (concat tokens)
      → IsRecorded tokens (some e) (
          codes "I encountered an error communicating with the AI service. Please try again later.")

partial_answer-IsRecorded :
    (tokens : List Text) (e : Exc) → IsRecorded tokens (some e) (partial_answer tokens)
unfolding partial_answer
partial_answer-IsRecorded tokens e = elim (strip-cases (concat tokens)) [
  | inl (nothing, blank) ↦ rw nothing (apology e blank)
  | inr (something, ink) ↦ rw something (partial e ink)
]

-- Whether the client is told of it.
abbrev pub announced : Option Exc → ℕ → Option ℕ
announced none id = some id
announced (some e) id = none

module _ (others : Db → Db) (document_id : ℕ) (current_user : User) where
  pub record IsTerminal (content : Text) (raised : Option Exc) (db : Db)
      (ran : List Event × Session) : Type 0 where
    pub id : ℕ
    pub written : IsWritten others document_id current_user content id db ran.1.committed
    pub told : done_of ran.0 ≡ announced raised id

  module _ (s : Session)
      (linked : has_references (some document_id) none current_user.id (others s.committed)
        ≡ true) where
    end_answered-IsTerminal :
        (prepared : Prepared) (tokens : List Text) (m : PipelineMeta)
        → IsTerminal
            (concat tokens)
            none
            s.committed
            (run_events others document_id current_user (end_answered prepared tokens m) s)
    unfolding run_events end_answered end_persisted
    end_answered-IsTerminal prepared tokens m =
        let payload = some (build_message_sources_payload prepared.search_results (some m)) in
        let (id, accepted) =
          persist-accepted others document_id current_user (concat tokens) payload s linked in
        let written =
          persist-IsWritten others document_id current_user (concat tokens) payload id s accepted in
        rw accepted (record { id = id; written = written; told = refl })

    end_failed-IsTerminal :
        (prepared : Prepared) (tokens : List Text) (e : Exc)
        → IsTerminal
            (partial_answer tokens)
            (some e)
            s.committed
            (run_events others document_id current_user (end_failed prepared tokens) s)
    unfolding run_events end_failed
    end_failed-IsTerminal prepared tokens e =
        let payload = some (build_message_sources_payload prepared.search_results none) in
        let (id, accepted) =
          persist-accepted others document_id current_user (partial_answer tokens) payload s
            linked in
        record {
          id = id;
          written =
              persist-IsWritten others document_id current_user (partial_answer tokens) payload id s
                accepted;
          told = refl;
        }

  pub record IsEnded (tokens : List Text) (raised : Option Exc) (db : Db)
      (ran : List Event × Session) : Type 0 where
    pub content : Text
    pub recorded : IsRecorded tokens raised content
    pub terminal : IsTerminal content raised db ran

  end_stream_events-IsEnded :
      (p : Pipeline) (prepared : Prepared) (streamed : Streamed) (raised : Option Exc) (s : Session)
      → has_references (some document_id) none current_user.id (others s.committed) ≡ true
      → IsEnded streamed.tokens raised s.committed (
          run_events others document_id current_user
            (end_stream_events p prepared streamed raised)
            s)
  unfolding run_events end_stream_events
  end_stream_events-IsEnded p prepared streamed none s h = record {
    content = concat streamed.tokens;
    recorded = whole;
    terminal =
        end_answered-IsTerminal (record s { stream_usage = none }) h prepared streamed.tokens
          (stream_meta p prepared streamed.usage);
  }
  end_stream_events-IsEnded p prepared streamed (some e) s h = record {
    content = partial_answer streamed.tokens;
    recorded = partial_answer-IsRecorded streamed.tokens e;
    terminal = end_failed-IsTerminal s h prepared streamed.tokens e;
  }

  -- When the document and its user are still there, a stream leaves one more message by the
  -- assistant. When the provider does not raise, that is the whole text of the tokens, and `done`
  -- names it. When it raises, there is no `done`, and the message is what came of the answer, without
  -- the white space around it, or a fixed apology if all that came is white space.
  pub stream_events-IsEnded :
      (p : Pipeline) (query : Text) (prepared : Prepared) (s : Session)
      → has_references (some document_id) none current_user.id (others s.committed) ≡ true
      → IsEnded
          (streamed_by p query prepared).tokens
          (streamed_by p query prepared).raised
          s.committed
          (run_events others document_id current_user (stream_events p query prepared) s)
  stream_events-IsEnded p query prepared s h =
      let streamed = streamed_by p query prepared in
      let ran = run-stream_events others document_id current_user p query prepared s in
      let e =
        end_stream_events-IsEnded p prepared streamed streamed.raised
          (record s { stream_usage = none }) h in
      subst (IsEnded streamed.tokens streamed.raised s.committed) (sym ran) (record {
        content = e.content;
        recorded = e.recorded;
        terminal = record {
          id = e.terminal.id;
          written = e.terminal.written;
          told = done_of-tokens others document_id current_user streamed.tokens _ ∙ e.terminal.told;
        };
      })
