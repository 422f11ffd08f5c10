-- ===== src/Spec.antt =====
-- The verdict rules of the test specification: ectest/internal/spec.
pub mod Verdict
pub mod Sample
pub mod Tables
pub mod Handback
pub mod Registers
pub mod Aggregate
pub mod Mapping
pub mod Gate
