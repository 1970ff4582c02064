-- ===== src/DemoSeed.antt =====
-- backend/app/services/demo_seed_service.py
pub mod Fixture
pub mod Signatures
pub mod Seeding
pub mod Undone
pub mod Seeded
pub mod Recorded
pub mod Replaced
pub mod Unchanged
pub mod Settled
pub mod Repeated
