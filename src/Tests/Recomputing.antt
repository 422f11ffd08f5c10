-- ===== src/Tests/Recomputing.antt =====
-- A mapping test and the gates on the desk, and what the report recomputes.
use minisforum_n5pro_fan_pro.Prelude.{
  ℕ, ◌≡◌, refl, Option, none, some, [], ◌∷◌, map, All, arith, pos,
}
use minisforum_n5pro_fan_pro.Spec.Verdict.{fail}
use minisforum_n5pro_fan_pro.Spec.Mapping.Eval.{T1Verdict, dcr_differs}
use minisforum_n5pro_fan_pro.Runner.Env.{Env, Config, Readings, tach_of}
use minisforum_n5pro_fan_pro.Runner.State.{Run, new_runner}
use minisforum_n5pro_fan_pro.Runner.Mapping.{AfterT1, judged, run_t1}
use minisforum_n5pro_fan_pro.Runner.Recorded.{AllSilent}
use minisforum_n5pro_fan_pro.Runner.Gates.{Gated, gates}
use minisforum_n5pro_fan_pro.Report.Lines.{line_of}
use minisforum_n5pro_fan_pro.Report.Stored.{stored}
use minisforum_n5pro_fan_pro.Report.Stored.Exact.{Exact}
use minisforum_n5pro_fan_pro.Report.Gates.{check_gates}
use mathlib.Core.Path.{subst}
use minisforum_n5pro_fan_pro.Report.Gates.Alike.{NotGate, stored_gates, check_gates-gates}
use minisforum_n5pro_fan_pro.Report.Rebuild.{recompute_t1}
use minisforum_n5pro_fan_pro.Report.Rebuild.Parts.{NotT1}
use minisforum_n5pro_fan_pro.Report.Rebuild.SameVerdict.{recompute_t1-run_t1}
use minisforum_n5pro_fan_pro.Tests.Running.{no_readings, desk, quiet_desk}

-- The desk with temperatures: those of the processor and of the NVMe disk are no whole tenths.
abbrev warm : Readings
warm = record no_readings {
  ec_sys = some (pos 35_000);
  ec_amb = some (pos 31_500);
  hdd_max = some (pos 38_000);
  nvme_max = some (pos 42_850);
  tctl = some (pos 45_875);
}

abbrev warm_desk : Env
warm_desk = record desk { read = λ w. (w, warm) }

abbrev short_holds : Config
short_holds = record {
  channel = 1;
  own_tach = 1;
  tachs = 1 ∷ 2 ∷ 3 ∷ [];
  hold = 10_000;
  sample = 5_000;
  observe = 180_000;
  pre = 300_000;
  window = 300_000;
  online_cpus = 8;
  repeat = 3;
}

abbrev at_start : Run warm_desk
at_start = new_runner warm_desk quiet_desk

abbrev run_after : Option (AfterT1 warm_desk short_holds) → Run warm_desk
run_after none = at_start
run_after (some (r, o)) = r

-- The registers show 255 at every step.
abbrev not_followed : T1Verdict
not_followed = record { verdict = fail; reason = dcr_differs }

abbrev at_end : Run warm_desk
at_end = run_after (run_t1 warm_desk short_holds at_start)

fails : run_t1 warm_desk short_holds at_start ≡ some (at_end, judged not_followed)
unfolding run_t1 new_runner
fails = refl

nothing_recorded : All (λ s. NotT1 s.phase) at_start.samples
unfolding new_runner
nothing_recorded = tt

nothing_logged : AllSilent at_start.events
unfolding new_runner
nothing_logged = tt

tach_of_pwm1 : ◌≡◌ {A = ℕ} 1 (tach_of 1)
unfolding tach_of
tach_of_pwm1 = refl

all-Exact : All Exact at_end.samples
unfolding run_t1 new_runner
all-Exact = omega arith

recompute_t1-run_t1_example :
    recompute_t1 1 none (map stored at_end.samples) (map (line_of at_end.start) at_end.events)
    ≡ judged not_followed
recompute_t1-run_t1_example =
    recompute_t1-run_t1 warm_desk short_holds at_start at_end not_followed none tach_of_pwm1 refl
      nothing_recorded nothing_logged fails all-Exact

no_window_before : All NotGate at_start.samples
unfolding new_runner
no_window_before = tt

abbrev ExactRun : Option (Gated warm_desk short_holds) → Type 0
ExactRun none = Unit
ExactRun (some g) = All Exact g.run.samples

window_exact : ExactRun (gates warm_desk short_holds at_start)
unfolding gates new_runner
window_exact = omega arith

check_gates-gates_example :
    (g : Gated warm_desk short_holds) × (gates warm_desk short_holds at_start ≡ some g)
    × (check_gates 8 (stored_gates warm_desk short_holds g) (map stored g.run.samples) ≡ [])
check_gates-gates_example =
    check_gates-gates warm_desk short_holds at_start no_window_before
      (λ g e. subst ExactRun e window_exact)
