-- ===== src/Spec/Handback.antt =====
-- ectest/internal/spec/eval.go: T2 (hand-back) and T3 (settling) of one sub-run.
pub mod Defs
pub mod Sorting
pub mod Leaving
pub mod Steady
pub mod Holding
