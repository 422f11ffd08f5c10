-- ===== src/Report/Stored/SameRows.antt =====
-- What the report makes of stored samples.
use minisforum_n5pro_fan_pro.Prelude.{
  ℕ, ◌+◌, ◌≡◌, refl, ap, ◌∙◌, Bool, Option, none, some, List, [], ◌∷◌, ◌++◌, map, ℤ, leb, All,
  arith, if◌then◌else◌,
}
use minisforum_n5pro_fan_pro.Spec.Sample.{Sample, t1_rest, t1_step, gate}
use minisforum_n5pro_fan_pro.Spec.Tables.{table_input, t1_steps, gate_trend, mean_ℤ}
use minisforum_n5pro_fan_pro.Spec.Mapping.Defs.{T1Step}
use minisforum_n5pro_fan_pro.Spec.Mapping.Eval.{Rest, eval_t1}
use minisforum_n5pro_fan_pro.Spec.Gate.Defs.{
  Limit, tctl, nvme, hdd, Input, system, ambient, disk, input_value, limit_seen, values,
  values_when, last_ts, judge_values, judge_input, eval_g4, keep, judge_means, lowest, highest,
}
use minisforum_n5pro_fan_pro.Runner.Env.{tach_of}
use minisforum_n5pro_fan_pro.Runner.State.{AbortReason}
use minisforum_n5pro_fan_pro.Runner.Series.{
  over_samples, no_rest, add_rest, add_t1_sample, empty_step, reg_dcr, add_fans, add_inputs,
  add_other_dcr,
}
use minisforum_n5pro_fan_pro.Runner.Steps.{incomplete}
use minisforum_n5pro_fan_pro.Runner.Mapping.{judged, not_run}
use minisforum_n5pro_fan_pro.Runner.Gates.{GateDetail, g3}
use minisforum_n5pro_fan_pro.Report.Lines.{Line, phase_samples, has_t1_complete, write_ts}
use minisforum_n5pro_fan_pro.Report.Rebuild.{or_abort, timed_step, rebuild_steps, recompute_t1}
use minisforum_n5pro_fan_pro.Report.Gates.{
  StoredGate, GateId, without_window, compare_gate, check_load, check_stability, check_gate,
  check_gates, load, stability, other,
}
use minisforum_n5pro_fan_pro.Report.Compare.{of_g4}
use minisforum_n5pro_fan_pro.Report.Stored.{cell, stored}
use minisforum_n5pro_fan_pro.Report.Stored.Exact.{
  Exact, cell_exact, stored-Exact, phase_samples-stored, phase_samples-All,
}

over_samples-stored :
    {A : Type 0} (f : Sample → A → A) (a : A) (ss : List Sample)
    → ((s : Sample) → Exact s → (b : A) → f (stored s) b ≡ f s b)
    → All Exact ss
    → over_samples f a (map stored ss) ≡ over_samples f a ss
unfolding over_samples
over_samples-stored f a [] same h = refl
over_samples-stored f a (s ∷ ss) same h =
    over_samples-stored f (f (stored s) a) ss same h.1
    ∙ ap (λ b. over_samples f b ss) (same s h.0 a)

add_rest-stored :
    (ch : ℕ) (s : Sample) → Exact s → (r : Rest) → add_rest ch (stored s) r ≡ add_rest ch s r
unfolding add_rest add_fans add_inputs add_other_dcr reg_dcr table_input
add_rest-stored ch s e r = rw (stored-Exact s e) refl

add_t1_sample-stored :
    (ch t : ℕ) (s : Sample)
    → Exact s
    → (st : T1Step) → add_t1_sample ch t (stored s) st ≡ add_t1_sample ch t s st
unfolding add_t1_sample add_fans add_inputs add_other_dcr reg_dcr table_input
add_t1_sample-stored ch t s e st = rw (stored-Exact s e) refl

timed_step-stored :
    (ch duty : ℕ) (o : Option ℕ) (ss : List Sample)
    → All Exact ss
    → timed_step ch duty o (map stored ss) ≡ timed_step ch duty o ss
timed_step-stored ch duty (some t) ss h =
    over_samples-stored (add_t1_sample ch t) (empty_step duty) ss (add_t1_sample-stored ch t) h
timed_step-stored ch duty none ss h =
    ap (λ (st : T1Step). record st { t = [] })
      (over_samples-stored (add_t1_sample ch 0) (empty_step duty) ss (add_t1_sample-stored ch 0) h)

rebuild_steps-stored :
    (ch : ℕ) (smp : List Sample) (ls : List Line) (duties : List ℕ)
    → All Exact smp
    → rebuild_steps ch (map stored smp) ls duties ≡ rebuild_steps ch smp ls duties
unfolding rebuild_steps
rebuild_steps-stored ch smp ls [] h = refl
rebuild_steps-stored ch smp ls (duty ∷ duties) h =
    let rows = phase_samples (t1_step duty) smp in
    ap
      (λ x.
        timed_step ch duty (write_ts ls ch duty) x ∷ rebuild_steps ch (map stored smp) ls duties)
      (phase_samples-stored (t1_step duty) smp)
    ∙ ap (λ x. x ∷ rebuild_steps ch (map stored smp) ls duties)
        (timed_step-stored ch duty (write_ts ls ch duty) rows
          (phase_samples-All Exact (t1_step duty) smp h))
    ∙ ap (λ x. timed_step ch duty (write_ts ls ch duty) rows ∷ x)
        (rebuild_steps-stored ch smp ls duties h)

-- From exact samples the report recomputes T1 as if nothing had been rounded.
pub recompute_t1-stored :
    (ch : ℕ) (abort : Option AbortReason) (smp : List Sample) (ls : List Line)
    → All Exact smp
    → recompute_t1 ch abort (map stored smp) ls ≡ recompute_t1 ch abort smp ls
unfolding recompute_t1
recompute_t1-stored ch abort smp ls h =
    let rows = phase_samples t1_rest smp in
    let rests : over_samples (add_rest ch) no_rest (phase_samples t1_rest (map stored smp))
        ≡ over_samples (add_rest ch) no_rest rows =
      ap (over_samples (add_rest ch) no_rest) (phase_samples-stored t1_rest smp)
      ∙ over_samples-stored (add_rest ch) no_rest rows (add_rest-stored ch)
          (phase_samples-All Exact t1_rest smp h) in
    let of = λ (x : Rest) (steps : List T1Step).
      if has_t1_complete ls
      then judged (eval_t1 ch (tach_of ch) x steps (1 ∷ 2 ∷ 3 ∷ []))
      else not_run (or_abort abort incomplete) in
    ap (λ x. of x (rebuild_steps ch (map stored smp) ls t1_steps)) rests
    ∙ ap (of (over_samples (add_rest ch) no_rest rows)) (rebuild_steps-stored ch smp ls t1_steps h)

limit_seen-stored : (l : Limit) (ss : List Sample) → limit_seen l (map stored ss) ≡ limit_seen l ss
unfolding limit_seen stored cell
limit_seen-stored l [] = refl
limit_seen-stored tctl (s ∷ ss) = ground (arith, limit_seen-stored tctl ss)
limit_seen-stored nvme (s ∷ ss) = ground (arith, limit_seen-stored nvme ss)
limit_seen-stored hdd (s ∷ ss) = ground (arith, limit_seen-stored hdd ss)

input_value-stored : (c : Input) (s : Sample) → Exact s → input_value c (stored s) ≡ input_value c s
unfolding stored
input_value-stored system s e = cell_exact s.ec_sys e.1
input_value-stored ambient s e = cell_exact s.ec_amb e.3
input_value-stored disk s e = cell_exact s.hdd_max e.4

values-stored :
    (c : Input) (ss : List Sample) → All Exact ss → values c (map stored ss) ≡ values c ss
unfolding values
values-stored c [] h = refl
values-stored c (s ∷ ss) h =
    ap (λ o. keep o (values c (map stored ss))) (input_value-stored c s h.0)
    ∙ ap (keep (input_value c s)) (values-stored c ss h.1)

values_when-stored :
    (at : ℕ → Bool) (c : Input) (ss : List Sample)
    → All Exact ss
    → values_when at c (map stored ss) ≡ values_when at c ss
unfolding values_when stored
values_when-stored at c [] h = refl
values_when-stored at c (s ∷ ss) h =
    let rest = values_when at c (map stored ss) in
    ap (λ o. if at s.ts then o ∷ rest else rest) (input_value-stored c s h.0)
    ∙ ap (λ x. if at s.ts then input_value c s ∷ x else x) (values_when-stored at c ss h.1)

last_ts-stored : (t : ℕ) (ss : List Sample) → last_ts t (map stored ss) ≡ last_ts t ss
unfolding last_ts stored
last_ts-stored t [] = refl
last_ts-stored t (s ∷ ss) = last_ts-stored s.ts ss

judge_values-stored :
    (c : Input) (t0 t1 : ℕ) (rows : List Sample) (vs : List ℤ)
    → All Exact rows
    → judge_values c t0 t1 (map stored rows) vs ≡ judge_values c t0 t1 rows vs
unfolding judge_values
judge_values-stored c t0 t1 rows [] h = refl
judge_values-stored c t0 t1 rows (v ∷ vs) h =
    let first = λ (ts : ℕ). leb ts (t0 + gate_trend) in
    let last = λ (ts : ℕ). leb t1 (ts + gate_trend) in
    ap
      (λ x.
        judge_means c (lowest v vs) (highest v vs) (mean_ℤ x)
          (mean_ℤ (values_when last c (map stored rows))))
      (values_when-stored first c rows h)
    ∙ ap
        (λ x.
          judge_means c (lowest v vs) (highest v vs) (mean_ℤ (values_when first c rows)) (mean_ℤ x))
        (values_when-stored last c rows h)

judge_input-stored :
    (c : Input) (s : Sample) (ss : List Sample)
    → All Exact (s ∷ ss)
    → judge_input c (stored s) (map stored ss) ≡ judge_input c s ss
unfolding judge_input stored
judge_input-stored c s ss h =
    ap (λ t. judge_values c s.ts t (map stored (s ∷ ss)) (values c (map stored (s ∷ ss))))
      (last_ts-stored s.ts ss)
    ∙ ap (judge_values c s.ts (last_ts s.ts ss) (map stored (s ∷ ss))) (values-stored c (s ∷ ss) h)
    ∙ judge_values-stored c s.ts (last_ts s.ts ss) (s ∷ ss) (values c (s ∷ ss)) h

eval_g4-stored :
    (s : Sample) (ss : List Sample)
    → All Exact (s ∷ ss)
    → (eval_g4 (stored s) (map stored ss)).passes ≡ (eval_g4 s ss).passes
unfolding eval_g4
eval_g4-stored s ss h =
    let rows = s ∷ ss in
    rw
      (
        limit_seen-stored tctl rows,
        limit_seen-stored nvme rows,
        limit_seen-stored hdd rows,
        judge_input-stored system s ss h,
        judge_input-stored ambient s ss h,
        judge_input-stored disk s ss h,
      )
      refl

check_load-stored :
    (cpus : ℕ) (result : Bool) (d : GateDetail) (ss : List Sample)
    → check_load cpus result d (map stored ss) ≡ check_load cpus result d ss
unfolding check_load g3 stored
check_load-stored cpus result d [] = refl
check_load-stored cpus result d (s ∷ ss) = refl

check_stability-stored :
    (result : Bool) (d : GateDetail) (ss : List Sample)
    → All Exact ss
    → check_stability result d (map stored ss) ≡ check_stability result d ss
unfolding check_stability
check_stability-stored result d [] h = refl
check_stability-stored result d (s ∷ ss) h =
    ap (λ b. if without_window result d then [] else compare_gate of_g4 result b)
      (eval_g4-stored s ss h)

check_gate-stored :
    (cpus : ℕ) (rows : List Sample) (id : GateId) (result : Option Bool) (d : GateDetail)
    → All Exact rows
    → check_gate cpus (map stored rows) id result d ≡ check_gate cpus rows id result d
check_gate-stored cpus rows load (some b) d h = check_load-stored cpus b d rows
check_gate-stored cpus rows stability (some b) d h = check_stability-stored b d rows h
check_gate-stored cpus rows other (some b) d h = refl
check_gate-stored cpus rows load none d h = refl
check_gate-stored cpus rows stability none d h = refl
check_gate-stored cpus rows other none d h = refl

-- From exact samples the report judges the gates as if nothing had been rounded.
pub check_gates-stored :
    (cpus : ℕ) (gs : List StoredGate) (smp : List Sample)
    → All Exact smp
    → check_gates cpus gs (map stored smp) ≡ check_gates cpus gs smp
unfolding check_gates
check_gates-stored cpus [] smp h = refl
check_gates-stored cpus (g ∷ gs) smp h =
    ap (λ x. check_gate cpus x g.id g.result g.detail ++ check_gates cpus gs (map stored smp))
      (phase_samples-stored gate smp)
    ∙ ap (λ x. x ++ check_gates cpus gs (map stored smp))
        (check_gate-stored cpus (phase_samples gate smp) g.id g.result g.detail
          (phase_samples-All Exact gate smp h))
    ∙ ap (λ x. check_gate cpus (phase_samples gate smp) g.id g.result g.detail ++ x)
        (check_gates-stored cpus gs smp h)
