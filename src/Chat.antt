-- ===== src/Chat.antt =====
-- Questions about documents and workspaces: the pipeline of backend/app/services/document_query_service.py
-- and of backend/app/services/workspace_service.py.
pub mod Sources
pub mod Queries
pub mod History
pub mod Turns
pub mod Stored
pub mod Streams
