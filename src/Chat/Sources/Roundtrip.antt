-- ===== src/Chat/Sources/Roundtrip.antt =====
-- The sources and the metadata of an answer are read back as they were stored.
use vector_doc_qa.Prelude.{◌≡◌, refl, ap, Option, none, some, List, map}
use vector_doc_qa.Json.{Fields, get, items}
use vector_doc_qa.Chat.Sources.{
  SearchResult, PipelineMeta, dump_result, dump_meta, build_message_sources_payload,
  extract_sources_and_pipeline_meta,
}

-- The sources and the metadata read back from a stored answer are those that were stored, if
-- pydantic accepts every dump of metadata as what was dumped.
pub extract-build_message_sources_payload :
    (model_validate : Fields → Option PipelineMeta) (sources : List SearchResult)
    (meta : Option PipelineMeta)
    → ((m : PipelineMeta) → model_validate (dump_meta m) ≡ some m)
    → extract_sources_and_pipeline_meta model_validate
        (some (build_message_sources_payload sources meta))
      ≡ (some (items (map dump_result sources)), meta)
unfolding extract_sources_and_pipeline_meta build_message_sources_payload get
extract-build_message_sources_payload v sources none h = refl
extract-build_message_sources_payload v sources (some m) h =
    ap (λ x. (some (items (map dump_result sources)), x)) (h m)
