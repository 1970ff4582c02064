-- ===== src/Anthropic/Usage.antt =====
-- The token usage of a call, which the service leaves in context variables. The counts of the
-- provider are natural numbers here.
use vector_doc_qa.Prelude.{ℕ, ◌+◌, Option, none, some}
use vector_doc_qa.Errors.{ok}
use vector_doc_qa.Database.{Query, LlmTokenUsage}

-- The attributes of `usage`, each of them if it is there and an integer.
pub record UsagePayload : Type 0 where
  pub input_tokens : Option ℕ
  pub output_tokens : Option ℕ
  pub cache_creation_input_tokens : Option ℕ
  pub cache_read_input_tokens : Option ℕ

-- `tokens or 0`
abbrev pub or_zero : Option ℕ → ℕ
or_zero none = 0
or_zero (some n) = n

abbrev with_cache : UsagePayload → Option ℕ → Option ℕ
with_cache payload none = none
with_cache payload (some n) =
    some
      (n + (or_zero payload.cache_creation_input_tokens + or_zero payload.cache_read_input_tokens))

abbrev usage_of : Option ℕ → Option ℕ → Option LlmTokenUsage
usage_of none none = none
usage_of input output = some (record { input_tokens = input; output_tokens = output })

unfoldable pub extract_llm_token_usage : Option UsagePayload → Option LlmTokenUsage
extract_llm_token_usage none = none
extract_llm_token_usage (some payload) =
    usage_of (with_cache payload payload.input_tokens) payload.output_tokens

unfoldable pub consume_last_answer_usage : Query (Option LlmTokenUsage)
consume_last_answer_usage s = (ok s.answer_usage, record s { answer_usage = none })

unfoldable pub consume_last_stream_usage : Query (Option LlmTokenUsage)
consume_last_stream_usage s = (ok s.stream_usage, record s { stream_usage = none })
