-- ===== src/DemoSeed/Fixture.antt =====
-- The fixture of the demo account, as it is read: JSON with defaults where a key is missing or has another type.
use vector_doc_qa.Prelude.{
  ℕ, Bool, ◌||◌, Option, none, some, List, [], ◌∷◌, ◌++◌, is_empty, is_some, if◌then◌else◌, String,
}
use vector_doc_qa.Errors.{Result, ok, err, and_then, value_error, message}
use vector_doc_qa.Text.{Text, strip}
use vector_doc_qa.Text.Write.{codes, str_int}
use vector_doc_qa.Json.{Json, Fields, Items, null, array, object, get, nil, cons}
use vector_doc_qa.Models.{Vector}

-- The file, the built-in functions that read a JSON value, and the storage. `fixture` is none if there
-- is no file; `int_of` is none for a TypeError or a ValueError, and its numbers are not negative.
pub record Environment : Type 0 where
  pub fixture : Result (Option Json)
  pub str_of : Json → Text
  pub int_of : Json → Option ℕ
  pub float_of : Json → Result ℕ
  pub is_truthy : Json → Bool
  pub b64decode : Text → Option Text
  pub read_file_bytes : Text → Result Text
  pub write_file_bytes : Text → Text → Result (Unit {0})
  pub get_password_hash : String → String

abbrev as_dict : Json → Option Fields
as_dict (object fields) = some fields
as_dict _ = none

abbrev checked : Fields → Result (Option Fields)
checked payload = elim (get "documents" payload) [
  | some (array documents) ↦ ok (some payload)
  | _ ↦ err (value_error (message "Demo seed fixture must include a 'documents' list"))
]

abbrev payload_of : Option Json → Result (Option Fields)
payload_of none = ok none
payload_of (some (object payload)) = checked payload
payload_of (some _) = err (value_error (message "Demo seed fixture must be a JSON object"))

unfoldable pub load_fixture_payload : Environment → Result (Option Fields)
unfolding get
load_fixture_payload env = and_then env.fixture payload_of

-- The objects of a list.
unfoldable pub dicts : Items → List Fields
dicts nil = []
dicts (cons (object fields) rest) = fields ∷ dicts rest
dicts (cons _ rest) = dicts rest

-- The objects of the list under a key, none if it is missing or no list.
unfoldable pub dicts_of : String → Fields → List Fields
unfolding dicts get
dicts_of key fields = elim (get key fields) [ some (array xs) ↦ dicts xs | _ ↦ [] ]

unfoldable pub build_fixture_documents_payload : Option Fields → List Fields
unfolding dicts_of
build_fixture_documents_payload none = []
build_fixture_documents_payload (some payload) = dicts_of "documents" payload

module _ (env : Environment) where
  unfoldable pub coerce_int : Option Json → ℕ → ℕ
  coerce_int none default = default
  coerce_int (some value) default = elim (env.int_of value) [ none ↦ default | some n ↦ n ]

  unfoldable pub coerce_optional_int : Option Json → Option ℕ
  coerce_optional_int none = none
  coerce_optional_int (some null) = none
  coerce_optional_int (some value) = env.int_of value

  -- str(payload.get(key, default))
  abbrev str_or : Option Json → Text → Text
  str_or none default = default
  str_or (some value) default = env.str_of value

  unfoldable pub filename_of : ℕ → Fields → Text
  unfolding get
  filename_of index doc_payload =
      str_or (get "filename" doc_payload) (codes "demo-document-" ++ str_int index ++ codes ".pdf")

  abbrev or_upload : ℕ → Text → Text
  or_upload index file_path =
      if is_empty file_path
      then codes "uploads/demo-seed-" ++ str_int index ++ codes ".pdf"
      else file_path

  unfoldable pub file_path_of : ℕ → Fields → Text
  unfolding get
  file_path_of index doc_payload = or_upload index (strip (str_or (get "file_path" doc_payload) []))

  unfoldable pub encoded_content_of : Fields → Option Text
  unfolding get
  encoded_content_of doc_payload = elim (get "file_content_base64" doc_payload) [
    | none ↦ none
    | some value ↦ if env.is_truthy value then some (env.str_of value) else none
  ]

  -- [float(value) for value in raw_embedding]
  unfoldable pub floats_of : Items → Result Vector
  floats_of nil = ok []
  floats_of (cons value rest) =
      and_then (env.float_of value) (λ x. and_then (floats_of rest) (λ xs. ok (x ∷ xs)))

  unfoldable pub embedding_of : Fields → Result Vector
  unfolding get floats_of
  embedding_of chunk_payload = elim (get "embedding" chunk_payload) [
    | some (array xs) ↦ floats_of xs
    | _ ↦ ok []
  ]

  abbrev pub page_start_of : Fields → Option ℕ
  page_start_of chunk_payload = coerce_optional_int (get "page_start" chunk_payload)

  abbrev pub page_end_of : Fields → Option ℕ
  page_end_of chunk_payload = coerce_optional_int (get "page_end" chunk_payload)

  abbrev pub content_of : Fields → Text
  content_of chunk_payload = str_or (get "content" chunk_payload) []

  abbrev pub has_page : Fields → Bool
  has_page chunk_payload =
      is_some (page_start_of chunk_payload) || is_some (page_end_of chunk_payload)
