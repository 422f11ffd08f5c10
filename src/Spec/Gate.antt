-- ===== src/Spec/Gate.antt =====
-- ectest/internal/spec/eval.go: `EvalG4`, the stability of the temperatures in the gate window.
pub mod Defs
pub mod Stability
