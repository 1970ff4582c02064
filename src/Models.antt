-- ===== src/Models.antt =====
-- The tables of backend/app/models: one record for each mapped class. Times are numbers, an
-- embedding is its list of floats, and a float is its bit pattern, since the models only store them.
use vector_doc_qa.Prelude.{ℕ, String, Bool, Option, List}
use vector_doc_qa.Errors.{Detail}
use vector_doc_qa.Text.{Text}
use vector_doc_qa.Json.{Json}

abbrev pub Vector : Type 0
Vector = List ℕ

pub data DocumentStatus : Type 0 where
  pending processing completed failed : DocumentStatus

pub record User : Type 0 where
  pub id : ℕ
  pub username : String
  pub email : String
  pub hashed_password : String
  pub is_demo : Bool

pub record Document : Type 0 where
  pub id : ℕ
  pub filename : Text
  pub file_path : Text
  pub file_size : ℕ
  pub status : DocumentStatus
  pub user_id : ℕ
  pub uploaded_at : ℕ
  pub processed_at : Option ℕ
  pub error_message : Option Detail

pub record Chunk : Type 0 where
  pub id : ℕ
  pub document_id : ℕ
  pub content : Text
  pub chunk_index : ℕ
  pub page_start : Option ℕ
  pub page_end : Option ℕ
  pub embedding : Option Vector

-- The two roles that the check constraint on `messages.role` allows.
pub data Role : Type 0 where
  user assistant : Role

pub record Message : Type 0 where
  pub id : ℕ
  pub document_id : Option ℕ
  pub workspace_id : Option ℕ
  pub user_id : ℕ
  pub role : Role
  pub content : Text
  pub sources : Option Json
  pub created_at : ℕ

pub record Workspace : Type 0 where
  pub id : ℕ
  pub name : String
  pub user_id : ℕ
  pub created_at : ℕ
  pub updated_at : ℕ

pub record WorkspaceDocument : Type 0 where
  pub id : ℕ
  pub workspace_id : ℕ
  pub document_id : ℕ
  pub added_at : ℕ

pub record RefreshToken : Type 0 where
  pub id : ℕ
  pub user_id : ℕ
  pub token : String
  pub expires_at : ℕ
