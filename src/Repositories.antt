-- ===== src/Repositories.antt =====
-- backend/app/repositories: one module for each file. A query that only reads is a function of the
-- rows; one that writes is an action of the session.
pub mod Documents
pub mod DemoSeed
pub mod Messages
pub mod Users
pub mod RefreshTokens
pub mod Workspaces
