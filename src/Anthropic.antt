-- ===== src/Anthropic.antt =====
-- backend/app/services/anthropic_service.py
pub mod Prompt
pub mod Content
pub mod Usage
pub mod Answers
