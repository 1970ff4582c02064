-- ===== src/Tests/Data.antt =====
-- Rows, providers and sessions that the tests share.
use vector_doc_qa.Prelude.{ℕ, zero, suc, false, ltb, leb, none, some, List, [], ◌∷◌}
use vector_doc_qa.Errors.{ok, err, runtime_error, message}
use vector_doc_qa.Text.{Text}
use vector_doc_qa.Models.{
  User, Document, Chunk, Message, Workspace, WorkspaceDocument, RefreshToken, DocumentStatus, user,
  Vector,
}
use vector_doc_qa.Database.{Db, Session, open_session}
use vector_doc_qa.Embedding.{EmbeddingItem, Client}
use vector_doc_qa.Documents.Processing.{Environment}
use vector_doc_qa.Chat.Sources.{Floats, SearchResult}
use vector_doc_qa.Anthropic.Answers.{LanguageModel, replied, final_message}
use vector_doc_qa.Chat.Queries.{Pipeline}

abbrev pub zeros : ℕ → Vector
zeros zero = []
zeros (suc n) = 0 ∷ zeros n

-- The items of a response to texts from an index on.
abbrev pub items_from : ℕ → List Text → List EmbeddingItem
items_from index [] = []
items_from index (t ∷ texts) =
    record { index = index; embedding = zeros 1536 } ∷ items_from (suc index) texts

abbrev pub working_client : Client
working_client texts = ok (record { items = items_from 0 texts; usage = some 3 })

abbrev pub broken_client : Client
broken_client texts = err (runtime_error (message "no connection"))

abbrev pub alice : User
alice = record {
  id = 1;
  username = "alice";
  email = "a@b.c";
  hashed_password = "pw";
  is_demo = false;
}

-- "ab cd"
abbrev pub short_text : Text
short_text = 97 ∷ 98 ∷ 32 ∷ 99 ∷ 100 ∷ []

abbrev pub report : DocumentStatus → Document
report status = record {
  id = 2;
  filename = 102 ∷ [];
  file_path = 102 ∷ [];
  file_size = 9;
  status = status;
  user_id = 1;
  uploaded_at = 4;
  processed_at = none;
  error_message = none;
}

abbrev pub team : Workspace
team = record { id = 5; name = "team"; user_id = 1; created_at = 1; updated_at = 1 }

abbrev pub old_chunk : Chunk
old_chunk = record {
  id = 3;
  document_id = 2;
  content = short_text;
  chunk_index = 0;
  page_start = some 1;
  page_end = some 1;
  embedding = some (zeros 3);
}

abbrev pub chat : Message
chat = record {
  id = 9;
  document_id = none;
  workspace_id = some 5;
  user_id = 1;
  role = user;
  content = short_text;
  sources = none;
  created_at = 6;
}

abbrev pub token_row : RefreshToken
token_row = record { id = 7; user_id = 1; token = "old"; expires_at = 100 }

abbrev pub rows : DocumentStatus → List WorkspaceDocument → List Message → Db
rows status members messages = record {
  users = alice ∷ [];
  documents = report status ∷ [];
  chunks = old_chunk ∷ [];
  messages = messages;
  workspaces = team ∷ [];
  workspace_documents = members;
  refresh_tokens = token_row ∷ [];
  next_id = 20;
}

abbrev pub session : DocumentStatus → Session
session status = open_session (rows status [] []) 7

-- One page, "ab cd", and chunks of four characters.
abbrev pub environment : Client → Environment
environment client = record {
  read_file_bytes = λ path. ok (1 ∷ []);
  extract_pages = λ pdf. ok (some short_text ∷ []);
  client = client;
  chunk_size = 4;
  chunk_overlap = 1;
}

abbrev pub alone : Db → Db
alone db = db

abbrev pub floats : Floats
floats = record {
  zero = 0;
  max = λ x xs. x;
  min = λ x xs. x;
  sum = λ xs. 0;
  subtract = λ x y. 0;
  divide = λ x y. x;
  round = λ x. x;
  one_minus = λ x. x;
  greater = λ x y. ltb y x;
}

-- A model that always answers the same, and streams it twice with an empty text in between.
abbrev pub echo : LanguageModel
echo = record {
  create = λ prompt. replied (short_text ∷ []) none;
  stream = λ prompt. (short_text ∷ [] ∷ short_text ∷ [], final_message none);
}

abbrev pub pipeline : Client → Pipeline
pipeline client = record {
  client = client;
  model = echo;
  cosine_distance = λ u v. 0;
  float_le = leb;
  floats = floats;
  elapsed = record { embed_ms = 1; retrieval_ms = 1; llm_ms = 1; total_ms = 3 };
  history_window_turns = 5;
  similarity_threshold = 0;
}

abbrev pub one_result : SearchResult
one_result = record {
  chunk_id = 3;
  content = short_text;
  similarity = 0;
  chunk_index = 0;
  page_start = some 1;
  page_end = some 1;
  document = none;
}
