-- ===== src/Chat/Sources.antt =====
-- What an answer is stored with: the search results and the pipeline's metadata, as JSON and back. A
-- float is its bit pattern, and the arithmetic on floats is a parameter.
pub mod Roundtrip
use vector_doc_qa.Prelude.{
  ℕ, ◌+◌, ◌/◌, suc, Bool, Option, none, some, List, [], ◌∷◌, map, length, if◌then◌else◌, select,
}
use vector_doc_qa.Text.{Text}
use vector_doc_qa.Json.{
  Json, Fields, Items, null, int, float, string, array, object, end, field, get, items, opt_int,
}
use vector_doc_qa.Models.{Role, Chunk}
use vector_doc_qa.Repositories.Documents.{Hit}

-- Python's arithmetic on floats, as far as it is used.
pub record Floats : Type 0 where
  pub zero : ℕ
  pub max : ℕ → List ℕ → ℕ
  pub min : ℕ → List ℕ → ℕ
  pub sum : List ℕ → ℕ
  pub subtract : ℕ → ℕ → ℕ
  pub divide : ℕ → ℕ → ℕ
  -- round(x, 4) and 1 - x
  pub round : ℕ → ℕ
  pub one_minus : ℕ → ℕ
  pub greater : ℕ → ℕ → Bool

-- A search result; the last field is there for a workspace only.
pub record SearchResult : Type 0 where
  pub chunk_id : ℕ
  pub content : Text
  pub similarity : ℕ
  pub chunk_index : ℕ
  pub page_start : Option ℕ
  pub page_end : Option ℕ
  pub document : Option (ℕ × Text)

pub record PipelineMeta : Type 0 where
  pub embed_ms : ℕ
  pub retrieval_ms : ℕ
  pub llm_ms : ℕ
  pub total_ms : ℕ
  pub top_similarity : ℕ
  pub avg_similarity : ℕ
  pub chunks_retrieved : ℕ
  pub chunks_above_threshold : ℕ
  pub similarity_spread : ℕ
  pub chat_history_turns_included : ℕ
  pub embedding_tokens : Option ℕ
  pub llm_input_tokens : Option ℕ
  pub llm_output_tokens : Option ℕ

-- The measured times, in milliseconds.
pub record Elapsed : Type 0 where
  pub embed_ms : ℕ
  pub retrieval_ms : ℕ
  pub llm_ms : ℕ
  pub total_ms : ℕ

-- What the two services report of their use.
pub record Tokens : Type 0 where
  pub embedding_tokens : Option ℕ
  pub llm_input_tokens : Option ℕ
  pub llm_output_tokens : Option ℕ

abbrev pub similarities_of : List SearchResult → List ℕ
similarities_of results = map (λ (r : SearchResult). r.similarity) results

module _ (floats : Floats) where
  -- The largest, the mean and the spread, all zero without a result.
  unfoldable pub statistics : List ℕ → ℕ × ℕ × ℕ
  statistics [] = (floats.zero, floats.zero, floats.zero)
  statistics (x ∷ xs) = (
    floats.max x xs,
    floats.divide (floats.sum (x ∷ xs)) (length (x ∷ xs)),
    floats.subtract (floats.max x xs) (floats.min x xs),
  )

  unfoldable pub build_pipeline_meta :
      List SearchResult → List (Role × Text) → Elapsed → ℕ → Tokens → PipelineMeta
  build_pipeline_meta search_results conversation_history elapsed similarity_threshold tokens =
      let similarities = similarities_of search_results in
      let (top, avg, spread) = statistics similarities in
      record {
        embed_ms = elapsed.embed_ms;
        retrieval_ms = elapsed.retrieval_ms;
        llm_ms = elapsed.llm_ms;
        total_ms = elapsed.total_ms;
        top_similarity = floats.round top;
        avg_similarity = floats.round avg;
        chunks_retrieved = length search_results;
        chunks_above_threshold =
            length (select (λ x. floats.greater x similarity_threshold) similarities);
        similarity_spread = floats.round spread;
        chat_history_turns_included = length conversation_history / 2;
        embedding_tokens = tokens.embedding_tokens;
        llm_input_tokens = tokens.llm_input_tokens;
        llm_output_tokens = tokens.llm_output_tokens;
      }

  -- search_chunks_from_embedding: a row of the search as a result.
  abbrev pub search_result : Hit → SearchResult
  search_result (c, distance) = record {
    chunk_id = c.id;
    content = c.content;
    similarity = floats.round (floats.one_minus distance);
    chunk_index = c.chunk_index;
    page_start = c.page_start;
    page_end = c.page_end;
    document = none;
  }

  abbrev pub workspace_search_result : Hit × Text → SearchResult
  workspace_search_result ((c, distance), filename) = record {
    chunk_id = c.id;
    content = c.content;
    similarity = floats.round (floats.one_minus distance);
    chunk_index = c.chunk_index;
    page_start = c.page_start;
    page_end = c.page_end;
    document = some (c.document_id, filename);
  }

abbrev pub dump_document : Option (ℕ × Text) → Fields
dump_document none = end
dump_document (some (id, filename)) =
    field "document_id" (int id) (field "document_filename" (string filename) end)

-- source.model_dump()
abbrev pub dump_result : SearchResult → Json
dump_result r = object (
    field "chunk_id" (int r.chunk_id) (
      field "content" (string r.content) (
        field "similarity" (float r.similarity) (
          field "chunk_index" (int r.chunk_index) (
            field "page_start" (opt_int r.page_start)
              (field "page_end" (opt_int r.page_end) (dump_document r.document)))))))

-- pipeline_meta.model_dump()
unfoldable pub dump_meta : PipelineMeta → Fields
dump_meta m = field "embed_ms" (int m.embed_ms) (
    field "retrieval_ms" (int m.retrieval_ms) (
      field "llm_ms" (int m.llm_ms) (
        field "total_ms" (int m.total_ms) (
          field "top_similarity" (float m.top_similarity) (
            field "avg_similarity" (float m.avg_similarity) (
              field "chunks_retrieved" (int m.chunks_retrieved) (
                field "chunks_above_threshold" (int m.chunks_above_threshold) (
                  field "similarity_spread" (float m.similarity_spread) (
                    field "chat_history_turns_included" (int m.chat_history_turns_included) (
                      field "embedding_tokens" (opt_int m.embedding_tokens) (
                        field "llm_input_tokens" (opt_int m.llm_input_tokens)
                          (field "llm_output_tokens" (opt_int m.llm_output_tokens) end))))))))))))

abbrev pub meta_fields : Option PipelineMeta → Fields
meta_fields none = end
meta_fields (some m) = field "pipeline_meta" (object (dump_meta m)) end

unfoldable pub build_message_sources_payload : List SearchResult → Option PipelineMeta → Json
build_message_sources_payload sources pipeline_meta =
    object (field "sources" (array (items (map dump_result sources))) (meta_fields pipeline_meta))

abbrev pub as_array : Option Json → Option Items
as_array (some (array xs)) = some xs
as_array _ = none

abbrev pub as_object : Option Json → Option Fields
as_object (some (object fs)) = some fs
as_object _ = none

-- `model_validate` is `PipelineMeta.model_validate` of pydantic, none where it raises a
-- ValidationError.
module _ (model_validate : Fields → Option PipelineMeta) where
  abbrev pub validated : Option Fields → Option PipelineMeta
  validated none = none
  validated (some fs) = model_validate fs

  unfoldable pub extract_sources_and_pipeline_meta :
      Option Json → Option Items × Option PipelineMeta
  unfolding get
  extract_sources_and_pipeline_meta (some (array raw_sources)) = (some raw_sources, none)
  extract_sources_and_pipeline_meta (some (object raw_sources)) = (
    as_array (get "sources" raw_sources),
    validated (as_object (get "pipeline_meta" raw_sources)),
  )
  extract_sources_and_pipeline_meta _ = (none, none)
