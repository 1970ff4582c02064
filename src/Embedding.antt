-- ===== src/Embedding.antt =====
-- backend/app/services/embedding_service.py. The OpenAI client is a parameter: what its call
-- returns, or the exception that it raises. Logging is not modelled.
pub mod Alignment
pub mod Complete
use vector_doc_qa.Prelude.{
  ℕ, zero, suc, Bool, ◌||◌, not, Option, none, some, List, [], ◌∷◌, ◌++◌, ◌==◌, length, is_empty,
  any, if◌then◌else◌,
}
use vector_doc_qa.Errors.{
  Exc, Result, ok, err, and_then, value_error, message, with_number, with_numbers,
}
use vector_doc_qa.Exec.{◌>>=◌, ◌>>◌, pure, raise_if, modify, lift, gets, or_raise}
use vector_doc_qa.Text.{Text, strip}
use vector_doc_qa.Models.{Vector}
use vector_doc_qa.Database.{Session, Query}

abbrev pub embedding_dimensions : ℕ
embedding_dimensions = 1536

pub record EmbeddingItem : Type 0 where
  pub index : ℕ
  pub embedding : Vector

-- `usage` is `response.usage.prompt_tokens` if it is an integer.
pub record EmbeddingResponse : Type 0 where
  pub items : List EmbeddingItem
  pub usage : Option ℕ

-- client.embeddings.create
abbrev pub Client : Type 0
Client = List Text → Result EmbeddingResponse

unfoldable pub consume_last_embedding_usage_tokens : Query (Option ℕ)
consume_last_embedding_usage_tokens s = (ok s.embedding_usage, record s { embedding_usage = none })

abbrev set_usage : Option ℕ → Query (Unit {0})
set_usage tokens = modify (λ s. record s { embedding_usage = tokens })

-- `not text or not text.strip()`
unfoldable pub is_blank : Text → Bool
is_blank text = is_empty text || is_empty (strip text)

wrong_dimensions : ℕ → Exc
wrong_dimensions n =
    value_error (with_numbers "Expected " embedding_dimensions " dimensions, got " n)

abbrev first : List EmbeddingItem → Option EmbeddingItem
first [] = none
first (item ∷ items) = some item

-- `client` is asked for one text; an answer without an item is an IndexError.
unfoldable pub generate_embedding : Client → Text → Query Vector
unfolding is_blank wrong_dimensions
generate_embedding client text = do
  raise_if (is_blank text) (value_error (message "Cannot generate embedding for empty text"))
  set_usage none
  response ← lift (client (text ∷ []))
  set_usage response.usage
  item ← or_raise (first response.items) (Exc.other (message "list index out of range"))
  raise_if (not (length item.embedding == embedding_dimensions))
      (wrong_dimensions (length item.embedding))
  pure item.embedding

-- The first text that is blank, from `index` on, is refused.
unfoldable pub check_texts : ℕ → List Text → Result (Unit {0})
check_texts index [] = ok tt
check_texts index (text ∷ texts) =
    if is_empty (strip text)
    then err (
        value_error
          (with_number "Invalid batch text at index " index ": must be a non-empty string"))
    else check_texts (suc index) texts

-- `embeddings_by_index`, a dict in insertion order.
abbrev pub ByIndex : Type 0
ByIndex = List (ℕ × Vector)

unfoldable pub lookup : ℕ → ByIndex → Option Vector
lookup index [] = none
lookup index ((k, v) ∷ rest) = if k == index then some v else lookup index rest

abbrev pub has_index : ℕ → ByIndex → Bool
has_index index by_index = any (λ (e : ℕ × Vector). e.0 == index) by_index

unfoldable pub collect : List EmbeddingItem → ByIndex → Result ByIndex
unfolding wrong_dimensions
collect [] by_index = ok by_index
collect (item ∷ items) by_index =
    if has_index item.index by_index
    then err (value_error (with_number "Duplicate embedding index in response: " item.index ""))
    else if not (length item.embedding == embedding_dimensions)
    then err (wrong_dimensions (length item.embedding))
    else collect items (by_index ++ (item.index, item.embedding) ∷ [])

-- for index in range(index, index + rounds)
unfoldable pub in_order : ℕ → ℕ → ByIndex → Result (List Vector)
in_order zero index by_index = ok []
in_order (suc rounds) index by_index = elim (lookup index by_index) [
  | none ↦ err (value_error (with_number "Missing embedding at index " index ""))
  | some v ↦ and_then (in_order rounds (suc index) by_index) (λ vs. ok (v ∷ vs))
]

-- The embeddings of a response, in the order of the `count` texts.
unfoldable pub order_embeddings : ℕ → List EmbeddingItem → Result (List Vector)
unfolding collect in_order
order_embeddings count items = and_then (collect items []) λ by_index.
    if not (length by_index == count)
    then err (value_error (with_numbers "Expected " count " embeddings, got " (length by_index)))
    else in_order count 0 by_index

unfoldable pub generate_embeddings_batch : Client → List Text → Query (List Vector)
unfolding check_texts order_embeddings
generate_embeddings_batch client texts = do
  raise_if (is_empty texts) (value_error (message "Cannot generate embeddings for empty list"))
  lift (check_texts 0 texts)
  set_usage none
  response ← lift (client texts)
  set_usage response.usage
  lift (order_embeddings (length texts) response.items)
