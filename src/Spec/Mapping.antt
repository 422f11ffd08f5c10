-- ===== src/Spec/Mapping.antt =====
-- ectest/internal/spec/eval.go: T1, the mapping test.
pub mod Defs
pub mod Series
pub mod Failing
pub mod Eval
pub mod Verdicts
