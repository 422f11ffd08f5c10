-- ===== src/Runner/Results.antt =====
-- ectest/internal/runner/runner.go: `FinishHandback` and what the hand-back tests T2 and T3 collect.
use minisforum_n5pro_fan_pro.Prelude.{
  ℕ, Option, none, some, List, [], ◌∷◌, ◌++◌, map, length, ltb, if◌then◌else◌,
}
use minisforum_n5pro_fan_pro.Spec.Sample.{Sample, Label, high, middle}
use minisforum_n5pro_fan_pro.Spec.Verdict.{inconclusive}
use minisforum_n5pro_fan_pro.Spec.Tables.{Crossed, judged_regs, settle, table_input}
use minisforum_n5pro_fan_pro.Spec.Registers.{eval_regs}
use minisforum_n5pro_fan_pro.Spec.Aggregate.Defs.{Sub, TestResult, aggregate}
use minisforum_n5pro_fan_pro.Runner.State.{AbortReason}
use minisforum_n5pro_fan_pro.Runner.Series.{
  Deviation, over_samples, add_observed, mark_crossing, handback_runs,
}
use minisforum_n5pro_fan_pro.Runner.Steps.{NotRun}

-- What the values of T2 list, with the aggregated results. `aborted` stands before the reasons of both tests.
pub record HandbackReport : Type 0 where
  pub t2 : TestResult
  pub t3 : TestResult
  pub aborted : Option AbortReason
  pub auto_value : ℕ
  pub middle_duty : ℕ
  pub register_values : List (ℕ × ℕ)
  pub deviations : List Deviation
  pub settle_time : ℕ

-- `index_panic` is an index out of range, which the source does not catch.
pub data HandbackOutcome : Type 0 where
  not_applicable : HandbackOutcome
  not_run : NotRun → HandbackOutcome
  finished : HandbackReport → HandbackOutcome
  index_panic : HandbackOutcome

-- An abort makes a test inconclusive.
abbrev pub after_abort : Option AbortReason → TestResult → TestResult
after_abort none t = t
after_abort (some why) t = record t { verdict = inconclusive }

abbrev value_at : ℕ → Option ℕ → List (ℕ × ℕ) → List (ℕ × ℕ)
value_at n none rest = rest
value_at n (some v) rest = (n, v) ∷ rest

unfoldable pub values_at : List ℕ → (ℕ → Option ℕ) → List (ℕ × ℕ)
values_at [] auto_a = []
values_at (n ∷ ns) auto_a = value_at n (auto_a n) (values_at ns auto_a)

unfoldable pub finish_handback :
    ℕ
    → List (List Sub)
    → Option AbortReason
    → (a m : ℕ) → List ℕ
    → (ℕ → Option ℕ)
    → List Deviation
    → HandbackReport
unfolding aggregate values_at settle
finish_handback ch runs abort a m regs auto_a deviations =
    let both = aggregate ch runs (high ∷ middle ∷ []) in
    record {
      t2 = after_abort abort both.0;
      t3 = after_abort abort both.1;
      aborted = abort;
      auto_value = a;
      middle_duty = m;
      register_values = if ltb 1 (length regs) then values_at regs auto_a else [];
      deviations = deviations;
      settle_time = settle ch;
    }

-- What a sub-run is judged against: A of every judged register, and the crossing in its window.
pub record Reference : Type 0 where
  pub auto_a : ℕ → Option ℕ
  pub crossed : Option Crossed

-- The result of a sub-run from the samples of its hold and of its observation, timed from `ts0`.
unfoldable pub sub_of : ℕ → Reference → Label → ℕ → (ts0 : ℕ) → (hold auto : List Sample) → Sub
unfolding over_samples add_observed handback_runs mark_crossing judged_regs table_input eval_regs
sub_of ch known label duty ts0 hold auto =
    let series = over_samples (add_observed (judged_regs ch) ts0) (λ n. []) auto in
    let runs = handback_runs ch label duty (judged_regs ch) series known.auto_a in
    record {
      label = label;
      result = eval_regs (
          mark_crossing ch known.crossed (map (table_input ch) hold ++ map (table_input ch) auto)
            runs);
    }

-- Appends the sub-runs of a repetition, unless there are none.
abbrev pub append_run : List (List Sub) → List Sub → List (List Sub)
append_run runs [] = runs
append_run runs (s ∷ ss) = runs ++ ((s ∷ ss) ∷ [])
