-- ===== src/Config/Chunked.antt =====
-- The chunks made with settings that are accepted.
use vector_doc_qa.Prelude.{◌≤◌, ◌<◌, ◌≡◌, List, none, some, ℕ}
use vector_doc_qa.Text.{Text}
use vector_doc_qa.Pdf.Pages.{PageBoundary}
use vector_doc_qa.Pdf.Chunking.{chunk_text}
use vector_doc_qa.Pdf.Chunking.Guarantees.{IsChunking, chunk_text-IsChunking}
use vector_doc_qa.Config.{
  pos, Library, Settings, max_chunk_size, validate_runtime_security_guardrails,
}
use vector_doc_qa.Config.Guarded.{validate_runtime_security_guardrails-IsChunkable}

-- chunk_text with the settings' own sizes makes chunks of bounded length.
pub record IsChunked (s : Settings) (text : Text) (boundaries : List PageBoundary) : Type 0 where
  pub size : ℕ
  pub overlap : ℕ
  pub chunk_size : s.chunk_size ≡ pos size
  pub chunk_overlap : s.chunk_overlap ≡ pos overlap
  pub bounded : size ≤ max_chunk_size
  pub overlap_smaller : overlap < size
  pub chunking :
      IsChunking text size overlap boundaries
        (chunk_text size overlap text none none (some boundaries))

module _ (lib : Library) where
  -- With settings that the validator accepts, their chunk size is at most 10000 and their overlap is
  -- smaller, and with these chunk_text cuts every text, with its page boundaries, into slices that
  -- hold each character that is no white space, none empty or longer than the chunk size.
  pub validate_runtime_security_guardrails-IsChunked :
      (s : Settings) (text : Text) (boundaries : List PageBoundary)
      → validate_runtime_security_guardrails lib s ≡ none
      → IsChunked s text boundaries
  validate_runtime_security_guardrails-IsChunked s text boundaries h =
      let c = validate_runtime_security_guardrails-IsChunkable lib s h in
      record {
        size = c.size;
        overlap = c.overlap;
        chunk_size = c.chunk_size;
        chunk_overlap = c.chunk_overlap;
        bounded = c.bounded;
        overlap_smaller = c.overlap_smaller;
        chunking =
            chunk_text-IsChunking c.size c.overlap text none none (some boundaries) c.positive;
      }
