-- ===== src/Tests/Reports.antt =====
-- A test of pwm1 with one step, and a gate window of two samples.
use minisforum_n5pro_fan_pro.Prelude.{
  ℕ, ◌*◌, ◌≡◌, ◌≢◌, refl, inl, inr, true, none, some, List, [], ◌∷◌, ℤ, pos, ◌≤◌, ◌⊎◌, All, Any,
  arith,
}
use minisforum_n5pro_fan_pro.Spec.Verdict.{pass, fail}
use minisforum_n5pro_fan_pro.Spec.Sample.{Sample, gate}
use minisforum_n5pro_fan_pro.Spec.Tables.{
  other_regs, Mean, min_duty, max_m, m_value, leave_counts, crossing, step_boundaries,
}
use minisforum_n5pro_fan_pro.Spec.Tables.Middle.{m_value-Usable}
use minisforum_n5pro_fan_pro.Spec.Tables.Sides.{StaysIn, crossing-none}
use minisforum_n5pro_fan_pro.Spec.Handback.Defs.{dist}
use minisforum_n5pro_fan_pro.Spec.Mapping.Defs.{T1Step, own_ok, own_series, step_judged}
use minisforum_n5pro_fan_pro.Spec.Mapping.Failing.{Differs}
use minisforum_n5pro_fan_pro.Spec.Mapping.Eval.{Rest, eval_t1}
use minisforum_n5pro_fan_pro.Spec.Mapping.Verdicts.{t1-pass, t1-fail}
use minisforum_n5pro_fan_pro.Spec.Gate.Defs.{system, values, eval_g4}
use minisforum_n5pro_fan_pro.Spec.Gate.Stability.{g4-passes}

abbrev quiet : Rest
quiet = record {
  fans = λ f. some 900 ∷ some 910 ∷ [];
  inputs = λ ch. some (pos 30_000) ∷ [];
  dcr = λ n. some 120 ∷ [];
}

abbrev step_to : ℕ → ℕ → T1Step
step_to d shown = record {
  duty = d;
  dcr = some 120 ∷ some shown ∷ [];
  dcr4 = [];
  fans = λ f. some (10 * d) ∷ [];
  others = λ n. some 120 ∷ some 121 ∷ [];
  t = 500 ∷ 5_000 ∷ [];
  inputs = λ ch. some (pos 30_500) ∷ [];
}

abbrev good_steps : List T1Step
good_steps = step_to 255 255 ∷ step_to 217 217 ∷ []

abbrev bad_steps : List T1Step
bad_steps = step_to 255 255 ∷ step_to 217 255 ∷ []

good_steps-verdict : (eval_t1 1 1 quiet good_steps (1 ∷ 2 ∷ [])).verdict ≡ pass
unfolding eval_t1 other_regs
good_steps-verdict = refl

t1-pass_example : own_ok 1 good_steps ≡ true
t1-pass_example = ((t1-pass 1 1 quiet good_steps (1 ∷ 2 ∷ [])).0 good_steps-verdict).3

bad_steps_differ : Any (λ st. Any (Differs 1 st) (own_series 1 st)) bad_steps
unfolding own_series step_judged
bad_steps_differ = inr (inl (inl (inr (inl (refl, λ e. absurd (omega (arith, e)))))))

t1-fail_example : (eval_t1 1 1 quiet bad_steps (1 ∷ 2 ∷ [])).verdict ≡ fail
t1-fail_example = (t1-fail 1 1 quiet bad_steps (1 ∷ 2 ∷ [])).1 (inl bad_steps_differ)

abbrev row : ℕ → ℤ → Sample
row ts t = record {
  ts = ts;
  phase = gate;
  ch = 1;
  written = none;
  dcr = [];
  fan = [];
  ec_cpu = none;
  ec_board = none;
  load1 = none;
  ec_sys = some t;
  ec_amb = some (pos 28_000);
  hdd_max = some (pos 35_000);
  nvme_max = some (pos 40_000);
  tctl = some (pos 50_000);
}

window_passes : (eval_g4 (row 0 (pos 30_000)) (row 300_000 (pos 30_500) ∷ [])).passes ≡ true
unfolding eval_g4
window_passes = refl

g4-passes_example : values system (row 0 (pos 30_000) ∷ row 300_000 (pos 30_500) ∷ []) ≢ []
g4-passes_example =
    (((g4-passes (row 0 (pos 30_000)) (row 300_000 (pos 30_500) ∷ [])).0 window_passes).1 system).0

m_value-Usable_example :
    (min_duty ≤ m_value 120)
    × (m_value 120 ≤ max_m)
    × ((120 ≤ 184) ⊎ (216 ≤ 120) → leave_counts ≤ dist (m_value 120) 120)
m_value-Usable_example = m_value-Usable 120

abbrev cool : Mean ℤ
cool = record { sum = pos 66_000; count = 2 }

cool-stays : crossing 3 (some cool) (some (pos 35_000) ∷ none ∷ []) ≡ none
unfolding crossing
cool-stays = refl

crossing-none_example : All (StaysIn (step_boundaries 3) cool) (some (pos 35_000) ∷ none ∷ [])
crossing-none_example = (crossing-none 3 cool (some (pos 35_000) ∷ none ∷ [])).0 cool-stays
