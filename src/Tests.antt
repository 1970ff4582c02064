-- ===== src/Tests.antt =====
-- The theorems at concrete inputs, and runs of the code.
mod Data
mod Processing
mod Texts
mod Sessions
mod Chats
mod Streams
mod Prompts
mod Seeds
mod Reports
mod Addresses
mod Rows
