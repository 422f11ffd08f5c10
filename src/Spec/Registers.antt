-- ===== src/Spec/Registers.antt =====
-- ectest/internal/spec/eval.go: `EvalHandbackRegs`, one sub-run over every judged register of a channel.
-- `SubResult.Others` of the source is a field of the merged result here. A merged reason is the list of the
-- registers with their verdicts and reasons, marked when they disagree.
pub mod Agreement
use minisforum_n5pro_fan_pro.Prelude.{
  ℕ, ◌≡◌, ◌≢◌, refl, ◌↔◌, Bool, true, false, ◌&&◌, not, Option, none, some, List, [], ◌∷◌, map, All,
  arith, Bool-cases, inl, inr, if◌then◌else◌, ◌==◌,
}
use minisforum_n5pro_fan_pro.Spec.Verdict.{
  Verdict, pass, fail, inconclusive, same, combine, combine-pass, combine-fail, all_are,
  all_are_iff, same→eq,
}
use minisforum_n5pro_fan_pro.Spec.Handback.Defs.{
  HandbackRun, SubResult, Reason, no_register, eval_handback,
}

-- The note of a disagreement in one test, and of different final values.
pub data Note : Type 0 where
  t2_disagree t3_disagree : List Verdict → Note
  finals_differ : List (Option ℕ) → Note

pub record Part : Type 0 where
  pub reg : Option ℕ
  pub verdict : Verdict
  pub reason : Reason

pub data MergedReason : Type 0 where
  plain : Reason → MergedReason
  agreed : List Part → MergedReason
  disagree : List Part → MergedReason

pub record RegsResult : Type 0 where
  pub main : Option SubResult  -- the primary register; `none` without a register
  pub others : List SubResult
  pub left : Bool
  pub t2 : Verdict
  pub t2_reason : MergedReason
  pub t3 : Verdict
  pub t3_reason : MergedReason
  pub regs_agree : Option Bool
  pub reg_notes : List Note

abbrev pub part2 : SubResult → Part
part2 s = record { reg = s.reg; verdict = s.t2; reason = s.t2_reason }

abbrev pub part3 : SubResult → Part
part3 s = record { reg = s.reg; verdict = s.t3; reason = s.t3_reason }

abbrev pub verdicts : List Part → List Verdict
verdicts [] = []
verdicts (p ∷ ps) = p.verdict ∷ verdicts ps

-- The closure `merge` of the source.
pub record Merged : Type 0 where
  pub verdict : Verdict
  pub reason : MergedReason
  pub same_verdict : Bool

unfoldable pub all_same : List Verdict → Bool
unfolding all_are
all_same [] = true
all_same (v ∷ vs) = all_are v (v ∷ vs)

unfoldable pub merge : List Part → Merged
unfolding all_same
merge ps =
    if all_same (verdicts ps)
    then record { verdict = combine (verdicts ps); reason = agreed ps; same_verdict = true }
    else record { verdict = inconclusive; reason = disagree ps; same_verdict = false }

unfoldable pub all_left : List SubResult → Bool
all_left [] = true
all_left (s ∷ ss) = s.left && all_left ss

abbrev differs : Option ℕ → Option ℕ → Bool
differs (some a) (some b) = not (a == b)
differs _ _ = false

-- Whether a later final value differs from the primary one, both being present.
unfoldable pub finals_differ_in : Option ℕ → List SubResult → Bool
finals_differ_in v [] = false
finals_differ_in v (s ∷ ss) =
    let rest = finals_differ_in v ss in if differs v s.final_value then true else rest

abbrev note_if : Bool → Note → List Note → List Note
note_if true n ns = n ∷ ns
note_if false n ns = ns

unfoldable pub merge_regs : List SubResult → RegsResult
unfolding merge all_left finals_differ_in
merge_regs [] = record {
  main = none;
  others = [];
  left = false;
  t2 = inconclusive;
  t2_reason = plain no_register;
  t3 = inconclusive;
  t3_reason = plain no_register;
  regs_agree = none;
  reg_notes = [];
}
merge_regs (s ∷ []) = record {
  main = some s;
  others = [];
  left = s.left;
  t2 = s.t2;
  t2_reason = plain s.t2_reason;
  t3 = s.t3;
  t3_reason = plain s.t3_reason;
  regs_agree = none;
  reg_notes = [];
}
merge_regs (s ∷ o ∷ os) =
    let all = s ∷ o ∷ os in
    let m2 = merge (map part2 all) in
    let m3 = merge (map part3 all) in
    record {
      main = some s;
      others = o ∷ os;
      left = s.left && all_left (o ∷ os);
      t2 = m2.verdict;
      t2_reason = m2.reason;
      t3 = m3.verdict;
      t3_reason = m3.reason;
      regs_agree = some (m2.same_verdict && m3.same_verdict);
      reg_notes = note_if (not m2.same_verdict) (t2_disagree (map (λ x. x.t2) all)) (
          note_if (not m3.same_verdict) (t3_disagree (map (λ x. x.t3) all)) (
            note_if (finals_differ_in s.final_value (o ∷ os))
              (finals_differ (map (λ x. x.final_value) all)) []));
    }

unfoldable pub eval_regs : List HandbackRun → RegsResult
unfolding merge_regs
eval_regs rs = merge_regs (map eval_handback rs)
