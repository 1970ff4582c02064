-- ===== src/Anthropic/Prompt.antt =====
-- The prompt of backend/app/services/anthropic_service.py. A search result of a workspace carries the
-- file name of its document.
use vector_doc_qa.Prelude.{
  ℕ, ◌+◌, Bool, ◌&&◌, not, none, some, List, [], ◌∷◌, ◌++◌, any, is_empty, if◌then◌else◌,
}
use vector_doc_qa.Text.{Text, strip}
use vector_doc_qa.Text.Write.{codes, str_int, join_with}
use vector_doc_qa.Models.{Role, user, assistant}
use vector_doc_qa.Chat.Sources.{SearchResult}

-- `chunk.get("document_filename")`, and whether it is truthy.
abbrev pub filename_of : SearchResult → Text
filename_of chunk = elim chunk.document [ none ↦ [] | some d ↦ d.1 ]

abbrev pub has_filename : SearchResult → Bool
has_filename chunk = not (is_empty (filename_of chunk))

abbrev pub excerpt : Bool → ℕ → SearchResult → Text
excerpt has_document_filenames i chunk =
    if has_document_filenames && has_filename chunk
    then codes "Excerpt "
      ++ str_int i
      ++ codes " (from \""
      ++ filename_of chunk
      ++ codes "\"):\n"
      ++ chunk.content
    else codes "Excerpt " ++ str_int i ++ codes ":\n" ++ chunk.content

-- The loop over `enumerate(chunks, 1)`, from an index on.
unfoldable pub excerpts_from : Bool → ℕ → List SearchResult → List Text
excerpts_from has_document_filenames i [] = []
excerpts_from has_document_filenames i (chunk ∷ chunks) =
    excerpt has_document_filenames i chunk ∷ excerpts_from has_document_filenames (i + 1) chunks

abbrev pub speaker : Role → Text
speaker user = codes "User: "
speaker assistant = codes "Assistant: "

-- A message that is blank is left out.
unfoldable pub history_lines : List (Role × Text) → List Text
history_lines [] = []
history_lines ((role, content) ∷ messages) =
    let rest = history_lines messages in
    if is_empty (strip content) then rest else (speaker role ++ strip content) ∷ rest

abbrev pub section_of : List Text → Text
section_of lines =
    if is_empty lines
    then []
    else codes "Recent conversation history (oldest to newest):\n"
      ++ join_with (codes "\n") lines
      ++ codes "\n\n"

unfoldable pub history_section : List (Role × Text) → Text
unfolding history_lines
history_section conversation_history = section_of (history_lines conversation_history)

abbrev pub excerpts_intro : Bool → Text
excerpts_intro has_document_filenames =
    if has_document_filenames
    then codes "Here are excerpts from multiple documents:"
    else codes "Here are excerpts from a document:"

abbrev pub citation_instruction : Bool → Text
citation_instruction has_document_filenames =
    if has_document_filenames
    then codes "\nWhen citing information, mention which document it came from."
    else []

abbrev pub instructions : Text
instructions =
    codes
      "\n\nYou are a helpful assistant. Answer the user's question using only the provided excerpts."
    ++ codes
        "\n\nIf the specific answer is not explicitly stated, synthesize relevant details from the text that address the core of the user's inquiry."
    ++ codes
        "\n\nIf the excerpts contain absolutely no relevant information, state that you cannot answer based on the provided text."

unfoldable pub build_prompt : Text → List SearchResult → List (Role × Text) → Text
unfolding join_with
build_prompt query chunks conversation_history =
    let has_document_filenames = any has_filename chunks in
    excerpts_intro has_document_filenames
    ++ codes "\n\n"
    ++ join_with (codes "\n\n") (excerpts_from has_document_filenames 1 chunks)
    ++ codes "\n\n"
    ++ history_section conversation_history
    ++ codes "Current question: "
    ++ query
    ++ instructions
    ++ citation_instruction has_document_filenames
