-- ===== src/Runner/Series.antt =====
-- ectest/internal/runner/runner.go: how the samples of a hold become the data that the rules judge: `RegDCR`, `AddInputs`,
-- `AddOtherDCR`, `AddT1Sample`, the series of `observeIn`, `AutoValues`, `HandbackRuns`, `HoldDeviation` and the
-- marks of a crossing. A map that the source appends to is a function; a value -1 or NaN is `none`.
use minisforum_n5pro_fan_pro.Prelude.{
  ℕ, ◌-◌, Bool, true, false, ◌&&◌, not, Option, none, some, List, [], ◌∷◌, ◌++◌, map, ℤ, length,
  get_or, leb, ltb, ◌==◌, if◌then◌else◌,
}
use minisforum_n5pro_fan_pro.Spec.Sample.{Sample, Label, since_ms}
use minisforum_n5pro_fan_pro.Spec.Tables.{
  Mean, Crossed, crossing, judged, judged_regs, mem_reg, other_regs, t3_limit_s, table_input,
}
use minisforum_n5pro_fan_pro.Spec.Handback.Defs.{
  DcrSample, HandbackRun, CrossedIn, in_pre_window, in_sub_run,
}
use minisforum_n5pro_fan_pro.Spec.Mapping.Defs.{T1Step}
use minisforum_n5pro_fan_pro.Spec.Mapping.Eval.{Rest}
use minisforum_n5pro_fan_pro.Runner.Env.{channel_dcr}

-- `RegDCR`.
unfoldable pub reg_dcr : Sample → ℕ → Option ℕ
reg_dcr s n = if ltb n 1 then none else get_or s.dcr (n - 1) none

-- The loop over the tachs of a sample.
unfoldable pub add_fans : Sample → (ℕ → List (Option ℕ)) → ℕ → List (Option ℕ)
add_fans s m n =
    if leb 1 n && leb n (length s.fan) then m n ++ (get_or s.fan (n - 1) none ∷ []) else m n

unfoldable pub add_inputs : ℕ → Sample → (ℕ → List (Option ℤ)) → ℕ → List (Option ℤ)
unfolding table_input
add_inputs ch s m oc =
    if leb 1 oc && leb oc 3 && not (oc == ch) then m oc ++ (table_input oc s ∷ []) else m oc

unfoldable pub add_other_dcr : ℕ → Sample → (ℕ → List (Option ℕ)) → ℕ → List (Option ℕ)
unfolding reg_dcr other_regs mem_reg
add_other_dcr ch s m n = if mem_reg n (other_regs ch) then m n ++ (reg_dcr s n ∷ []) else m n

-- What the source calls with every sample of a hold, over all of them.
unfoldable pub over_samples {ℓ} : {A : Type ℓ} → (Sample → A → A) → A → List Sample → A
over_samples f a [] = a
over_samples f a (s ∷ ss) = over_samples f (f s a) ss

abbrev pub no_rest : Rest
no_rest = record { fans = λ n. []; inputs = λ n. []; dcr = λ n. [] }

-- The callback of the hold before the first write.
unfoldable pub add_rest : ℕ → Sample → Rest → Rest
unfolding add_fans add_inputs add_other_dcr
add_rest ch s rest = record {
  fans = add_fans s rest.fans;
  inputs = add_inputs ch s rest.inputs;
  dcr = add_other_dcr ch s rest.dcr;
}

abbrev register_of : Option ℕ → ℕ
register_of none = 0
register_of (some n) = n

-- `AddT1Sample` for a step written at the run time `tws`.
unfoldable pub add_t1_sample : ℕ → ℕ → Sample → T1Step → T1Step
unfolding channel_dcr reg_dcr add_fans add_inputs add_other_dcr
add_t1_sample ch tws s st = record {
  duty = st.duty;
  dcr = st.dcr ++ (reg_dcr s (register_of (channel_dcr ch)) ∷ []);
  dcr4 = if ch == 3 then st.dcr4 ++ (reg_dcr s 4 ∷ []) else st.dcr4;
  fans = add_fans s st.fans;
  others = add_other_dcr ch s st.others;
  t = st.t ++ (since_ms s.ts tws ∷ []);
  inputs = add_inputs ch s st.inputs;
}

abbrev pub empty_step : ℕ → T1Step
empty_step duty = record {
  duty = duty;
  dcr = [];
  dcr4 = [];
  fans = λ n. [];
  others = λ n. [];
  t = [];
  inputs = λ n. [];
}

abbrev add_dcr : ℕ → Option ℕ → List DcrSample → List DcrSample
add_dcr t none xs = xs
add_dcr t (some v) xs = xs ++ (record { t = t; dcr = v } ∷ [])

-- The readable values of the judged registers, timed from `ts0`.
unfoldable pub add_observed : List ℕ → ℕ → Sample → (ℕ → List DcrSample) → ℕ → List DcrSample
unfolding reg_dcr mem_reg
add_observed regs ts0 s m n =
    if mem_reg n regs then add_dcr (since_ms s.ts ts0) (reg_dcr s n) (m n) else m n

unfoldable pub first_known : List (Option ℤ) → Option ℤ
first_known [] = none
first_known (none ∷ vs) = first_known vs
first_known (some v ∷ vs) = some v

abbrev single : Option ℤ → Option (Mean ℤ)
single none = none
single (some v) = some (record { sum = v; count = 1 })

-- `PreCrossing`, and the crossing of a sub-run: the reference is the first readable value.
unfoldable pub pre_crossing : ℕ → List (Option ℤ) → Option Crossed
unfolding first_known crossing
pre_crossing ch vs = crossing ch (single (first_known vs)) vs

abbrev crossed_in : Option Crossed → Option Crossed → Option CrossedIn
crossed_in (some c) o = some (in_pre_window c)
crossed_in none (some c) = some (in_sub_run c)
crossed_in none none = none

unfoldable pub mark_crossing :
    ℕ → Option Crossed → List (Option ℤ) → List HandbackRun → List HandbackRun
unfolding pre_crossing
mark_crossing ch pre vs hr =
    map {A = HandbackRun} (λ h. record h { crossed = crossed_in pre (pre_crossing ch vs) }) hr

-- The value of the last sample of a series.
unfoldable pub last_dcr : Option ℕ → List DcrSample → Option ℕ
last_dcr o [] = o
last_dcr o (x ∷ xs) = last_dcr (some x.dcr) xs

-- `AutoValues`: A of every judged register that has samples.
unfoldable pub auto_values : (ℕ → List DcrSample) → List ℕ → ℕ → Option ℕ
unfolding last_dcr mem_reg
auto_values pre regs n = if mem_reg n regs then last_dcr none (pre n) else none

abbrev known : Option ℕ → Bool
known none = false
known (some v) = true

-- `HandbackRuns`, the data of one sub-run for every register.
unfoldable pub handback_runs :
    ℕ → Label → ℕ → List ℕ → (ℕ → List DcrSample) → (ℕ → Option ℕ) → List HandbackRun
unfolding t3_limit_s
handback_runs ch label duty regs smp auto_a =
    map
      (λ n. record {
        label = label;
        reg = if ltb 1 (length regs) then some n else none;
        written = duty;
        samples = smp n;
        timing_known = true;
        auto = register_of (auto_a n);
        auto_known = known (auto_a n);
        limit_s = t3_limit_s ch;
        crossed = none;
      })
      regs

-- A sample of a hold after the settle time, with the registers that differ from the written value.
pub record Deviation : Type 0 where
  pub rep : ℕ
  pub label : Label
  pub t : ℕ
  pub written : ℕ
  pub registers : List (ℕ × ℕ)

abbrev differing : ℕ → ℕ → Option ℕ → List (ℕ × ℕ) → List (ℕ × ℕ)
differing w n none rest = rest
differing w n (some v) rest = if v == w then rest else (n, v) ∷ rest

unfoldable pub deviating : ℕ → Sample → List ℕ → List (ℕ × ℕ)
unfolding reg_dcr
deviating w s [] = []
deviating w s (n ∷ ns) = differing w n (reg_dcr s n) (deviating w s ns)

abbrev deviation_of : ℕ → Label → ℕ → ℕ → List (ℕ × ℕ) → List Deviation
deviation_of rep label t w [] = []
deviation_of rep label t w (d ∷ ds) =
    record { rep = rep; label = label; t = t; written = w; registers = d ∷ ds } ∷ []

-- `HoldDeviation`: at most one deviation.
unfoldable pub hold_deviation : ℕ → ℕ → Label → ℕ → Sample → ℕ → List Deviation
unfolding judged judged_regs deviating
hold_deviation ch rep label w s tws =
    let t = since_ms s.ts tws in
    if not (judged ch t) then [] else deviation_of rep label t w (deviating w s (judged_regs ch))

unfoldable pub hold_deviations : ℕ → ℕ → Label → ℕ → ℕ → List Sample → List Deviation
unfolding hold_deviation
hold_deviations ch rep label w tws [] = []
hold_deviations ch rep label w tws (s ∷ ss) =
    hold_deviation ch rep label w s tws ++ hold_deviations ch rep label w tws ss
