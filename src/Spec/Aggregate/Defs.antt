-- ===== src/Spec/Aggregate/Defs.antt =====
-- ectest/internal/spec/eval.go: `AggregateHandback`. Reasons and criteria are values that carry the numbers
-- which the source formats into texts.
use minisforum_n5pro_fan_pro.Prelude.{
  ℕ, ◌+◌, Bool, true, false, not, ◌&&◌, ◌||◌, Option, none, some, List, [], ◌∷◌, ◌++◌, map, length,
  ltb, ◌==◌, if◌then◌else◌,
}
use minisforum_n5pro_fan_pro.Spec.Verdict.{Verdict, inconclusive, same, combine}
use minisforum_n5pro_fan_pro.Spec.Sample.{Label, high, middle, replay}
use minisforum_n5pro_fan_pro.Spec.Tables.{runs_required}
use minisforum_n5pro_fan_pro.Spec.Registers.{
  RegsResult, Note, MergedReason, t2_disagree, t3_disagree, finals_differ,
}

-- A sub-run with its label, as `SubResult.Label` gives it.
pub record Sub : Type 0 where
  pub label : Label
  pub result : RegsResult

pub data RunReason : Type 0 where
  missing_labels : List Label → RunReason
  mixed : RunReason

pub record RunResult : Type 0 where
  pub run : ℕ
  pub verdict : Verdict
  pub reason : Option RunReason
  pub subs : List Sub

pub data TestReason : Type 0 where
  too_few_runs : ℕ → TestReason
  of_run : ℕ → RunReason → TestReason
  of_sub : ℕ → Label → MergedReason → TestReason

pub data Criterion : Type 0 where
  left_written : (met : Bool) → (left seen : ℕ) → Criterion
  regs_agree : (met : Bool) → (agree seen : ℕ) → List Note → Criterion

pub record TestResult : Type 0 where
  pub channel : ℕ
  pub verdict : Verdict
  pub reasons : List TestReason
  pub criteria : List Criterion
  pub runs : List RunResult

abbrev pub same_label : Label → Label → Bool
same_label high high = true
same_label middle middle = true
same_label replay replay = true
same_label _ _ = false

unfoldable pub has_label : Label → List Sub → Bool
has_label l [] = false
has_label l (s ∷ ss) = same_label s.label l || has_label l ss

unfoldable pub missing_of : List Sub → List Label → List Label
unfolding has_label
missing_of subs [] = []
missing_of subs (l ∷ ls) =
    let rest = missing_of subs ls in if has_label l subs then rest else l ∷ rest

-- One repetition in one test; `note_mixed` is set for T2 only.
unfoldable pub judge_run : Bool → ℕ → List Verdict → List Label → List Sub → RunResult
judge_run note_mixed i vs [] subs = record {
  run = i;
  verdict = combine vs;
  reason = if note_mixed && same (combine vs) inconclusive then some mixed else none;
  subs = subs;
}
judge_run note_mixed i vs (l ∷ ls) subs = record {
  run = i;
  verdict = inconclusive;
  reason = some (missing_labels (l ∷ ls));
  subs = subs;
}

abbrev pub sub2 : Sub → Verdict
sub2 s = s.result.t2

abbrev pub sub3 : Sub → Verdict
sub3 s = s.result.t3

unfoldable pub run2 : List Label → ℕ → List Sub → RunResult
unfolding judge_run missing_of
run2 want i subs = judge_run true i (map sub2 subs) (missing_of subs want) subs

-- The reason of a repetition without both labels is set in T3 too, the other one in T2 alone.
unfoldable pub run3 : List Label → ℕ → List Sub → RunResult
unfolding judge_run missing_of
run3 want i subs = judge_run false i (map sub3 subs) (missing_of subs want) subs

unfoldable pub number_runs : (ℕ → List Sub → RunResult) → ℕ → List (List Sub) → List RunResult
number_runs f i [] = []
number_runs f i (r ∷ rs) = f i r ∷ number_runs f (i + 1) rs

unfoldable pub sub_reasons : (Sub → MergedReason) → ℕ → List Sub → List TestReason
sub_reasons f i [] = []
sub_reasons f i (s ∷ ss) = of_sub i s.label (f s) ∷ sub_reasons f i ss

abbrev run_reason : ℕ → Option RunReason → List TestReason
run_reason i none = []
run_reason i (some r) = of_run i r ∷ []

unfoldable pub reasons2 : List RunResult → List TestReason
unfolding sub_reasons
reasons2 [] = []
reasons2 (r ∷ rs) =
    run_reason r.run r.reason ++ (sub_reasons (λ s. s.result.t2_reason) r.run r.subs ++ reasons2 rs)

unfoldable pub reasons3 : List RunResult → List TestReason
unfolding sub_reasons
reasons3 [] = []
reasons3 (r ∷ rs) = sub_reasons (λ s. s.result.t3_reason) r.run r.subs ++ reasons3 rs

unfoldable pub all_subs : List (List Sub) → List Sub
all_subs [] = []
all_subs (r ∷ rs) = r ++ all_subs rs

unfoldable pub count_left : List Sub → ℕ
count_left [] = 0
count_left (s ∷ ss) = let n = count_left ss in if s.result.left then n + 1 else n

pub data Test : Type 0 where
  t2 t3 : Test

-- A note that says that the registers disagree in the test.
abbrev disagrees : Test → Note → Bool
disagrees t2 (t2_disagree vs) = true
disagrees t3 (t3_disagree vs) = true
disagrees _ _ = false

-- A note that is listed with the test.
abbrev listed : Test → Note → Bool
listed t2 (t2_disagree vs) = true
listed t3 (t3_disagree vs) = true
listed t3 (finals_differ vs) = true
listed _ _ = false

unfoldable pub agrees_in : Test → List Note → Bool
agrees_in t [] = true
agrees_in t (n ∷ ns) = not (disagrees t n) && agrees_in t ns

unfoldable pub listed_notes : Test → List Note → List Note
listed_notes t [] = []
listed_notes t (n ∷ ns) = let rest = listed_notes t ns in if listed t n then n ∷ rest else rest

abbrev has_regs : Option Bool → Bool
has_regs none = false
has_regs (some b) = true

pub record RegsCount : Type 0 where
  pub seen : ℕ
  pub agree : ℕ
  pub notes : List Note

unfoldable pub count_regs : Test → List Sub → RegsCount
unfolding agrees_in listed_notes
count_regs t [] = record { seen = 0; agree = 0; notes = [] }
count_regs t (s ∷ ss) =
    let rest = count_regs t ss in
    if has_regs s.result.regs_agree
    then record {
      seen = rest.seen + 1;
      agree = if agrees_in t s.result.reg_notes then rest.agree + 1 else rest.agree;
      notes = listed_notes t s.result.reg_notes ++ rest.notes;
    }
    else rest

-- `regsCrit`: absent when no sub-run has more than one register.
unfoldable pub regs_criterion : Test → List Sub → List Criterion
unfolding count_regs
regs_criterion t subs =
    let c = count_regs t subs in
    if c.seen == 0 then [] else regs_agree (c.agree == c.seen) c.agree c.seen c.notes ∷ []

unfoldable pub left_criterion : List Sub → List Criterion
unfolding count_left
left_criterion subs =
    let seen = length subs in
    let left = count_left subs in
    if seen == 0 then [] else left_written (left == seen) left seen ∷ []

abbrev pub verdicts_of : List RunResult → List Verdict
verdicts_of [] = []
verdicts_of (r ∷ rs) = r.verdict ∷ verdicts_of rs

abbrev pub few : List (List Sub) → List TestReason
few runs = if ltb (length runs) runs_required then too_few_runs (length runs) ∷ [] else []

unfoldable pub aggregate : ℕ → List (List Sub) → List Label → TestResult × TestResult
unfolding run2 run3 number_runs reasons2 reasons3 all_subs left_criterion regs_criterion
aggregate ch runs want =
    let rs2 = number_runs (run2 want) 1 runs in
    let rs3 = number_runs (run3 want) 1 runs in
    let short = ltb (length runs) runs_required in
    (
      record {
        channel = ch;
        verdict = if short then inconclusive else combine (verdicts_of rs2);
        reasons = few runs ++ reasons2 rs2;
        criteria = left_criterion (all_subs runs) ++ regs_criterion t2 (all_subs runs);
        runs = rs2;
      },
      record {
        channel = ch;
        verdict = if short then inconclusive else combine (verdicts_of rs3);
        reasons = few runs ++ reasons3 rs3;
        criteria = regs_criterion t3 (all_subs runs);
        runs = rs3;
      },
    )
