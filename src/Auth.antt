-- ===== src/Auth.antt =====
-- Authentication: backend/app/core/security.py, services/auth_commands_service.py and
-- services/auth_query_service.py.
pub mod Security
pub mod Commands
pub mod Requests
pub mod Rotation
pub mod Csrf
