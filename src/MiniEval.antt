-- ===== src/MiniEval.antt =====
-- backend/scripts/run_mini_eval.py: an evaluation of the answers over a fixture of questions.
pub mod Cases
pub mod Metrics
pub mod Thresholds
pub mod Meeting
pub mod Fallback
pub mod Recommended
