-- ===== src/Anthropic/Answers.antt =====
-- The two calls of backend/app/services/anthropic_service.py. The client is a parameter: what it
-- returns, or how it fails. Logging is not modelled.
use vector_doc_qa.Prelude.{
  ℕ, Option, none, some, List, [], ◌∷◌, ◌++◌, ◌==◌, is_empty, if◌then◌else◌,
}
use vector_doc_qa.Errors.{Exc, other, message}
use vector_doc_qa.Exec.{◌>>◌, pure, raise, modify}
use vector_doc_qa.Text.{Text}
use vector_doc_qa.Text.Write.{codes}
use vector_doc_qa.Models.{Role}
use vector_doc_qa.Database.{Query, LlmTokenUsage}
use vector_doc_qa.Chat.Sources.{SearchResult}
use vector_doc_qa.Anthropic.Prompt.{build_prompt}
use vector_doc_qa.Anthropic.Usage.{UsagePayload, extract_llm_token_usage}

-- `client.messages.create`: the texts of the message's blocks with its usage, an APIStatusError, or
-- another exception.
pub data Reply : Type 0 where
  replied : List Text → Option UsagePayload → Reply
  status_error : ℕ → Reply
  failure : Exc → Reply

-- How `client.messages.stream` ends after its texts. A final message that cannot be had counts as one
-- without usage.
pub data StreamEnd : Type 0 where
  final_message : Option UsagePayload → StreamEnd
  stream_status_error : ℕ → StreamEnd
  stream_failure : Exc → StreamEnd

-- The client, asked with a prompt.
pub record LanguageModel : Type 0 where
  pub create : Text → Reply
  pub stream : Text → List Text × StreamEnd

abbrev pub overloaded_answer : Text
overloaded_answer =
    codes "I'm sorry, the AI service is currently overloaded. Please try again in a few minutes."

abbrev pub error_answer : Text
error_answer =
    codes "I encountered an error communicating with the AI service. Please try again later."

abbrev pub apology : ℕ → Text
apology status_code = if status_code == 529 then overloaded_answer else error_answer

abbrev set_answer_usage : Option LlmTokenUsage → Query (Unit {0})
set_answer_usage usage = modify (λ s. record s { answer_usage = usage })

-- `response.content[0].text`
abbrev first_text : List Text → Query Text
first_text [] = raise (other (message "list index out of range"))
first_text (text ∷ texts) = pure text

unfoldable pub read_reply : Reply → Query Text
unfolding extract_llm_token_usage
read_reply (replied content usage) =
    set_answer_usage (extract_llm_token_usage usage) >> first_text content
read_reply (status_error status_code) = pure (apology status_code)
read_reply (failure e) = raise e

unfoldable pub generate_answer :
    LanguageModel → Text → List SearchResult → List (Role × Text) → Query Text
unfolding build_prompt
generate_answer model query chunks conversation_history =
    set_answer_usage none
    >> read_reply (model.create (build_prompt query chunks conversation_history))

-- What a stream yields, the usage that it leaves, and the exception that it ends with, if any.
pub record Streamed : Type 0 where
  pub tokens : List Text
  pub usage : Option LlmTokenUsage
  pub raised : Option Exc

-- `if token: yield token`
unfoldable pub non_empty : List Text → List Text
non_empty [] = []
non_empty (token ∷ tokens) =
    let rest = non_empty tokens in if is_empty token then rest else token ∷ rest

unfoldable pub end_stream : List Text → StreamEnd → Streamed
unfolding extract_llm_token_usage
end_stream tokens (final_message usage) = record {
  tokens = tokens;
  usage = extract_llm_token_usage usage;
  raised = none;
}
end_stream tokens (stream_status_error status_code) = record {
  tokens = tokens ++ apology status_code ∷ [];
  usage = none;
  raised = none;
}
end_stream tokens (stream_failure e) = record { tokens = tokens; usage = none; raised = some e }

unfoldable pub generate_answer_stream :
    LanguageModel → Text → List SearchResult → List (Role × Text) → Streamed
unfolding build_prompt end_stream non_empty
generate_answer_stream model query chunks conversation_history =
    let (texts, end) = model.stream (build_prompt query chunks conversation_history) in
    end_stream (non_empty texts) end
