-- ===== src/Spec/Aggregate.antt =====
-- ectest/internal/spec/eval.go: `AggregateHandback`, T2 and T3 of a channel from the repetitions.
pub mod Defs
pub mod Runs
