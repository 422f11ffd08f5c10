-- ===== src/Runner.antt =====
-- The writing procedures: ectest/internal/runner.
pub mod Env
pub mod Settle
pub mod State
pub mod Sampling
pub mod Hold
pub mod Series
pub mod Steps
pub mod Mapping
pub mod Gates
pub mod Results
pub mod Handback
pub mod Restoring
pub mod Kept
pub mod Reached
pub mod Recorded
