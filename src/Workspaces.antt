-- ===== src/Workspaces.antt =====
-- backend/app/services/workspace_service.py
pub mod Commands
