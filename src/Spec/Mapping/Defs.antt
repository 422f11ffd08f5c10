-- ===== src/Spec/Mapping/Defs.antt =====
-- ectest/internal/spec/eval.go: the criteria of `EvalT1`. A Go map from channels, tachs or registers to
-- series is a function (a missing key is an empty series); -1 and NaN are `none`.
use minisforum_n5pro_fan_pro.Prelude.{
  ℕ, ◌+◌, ◌-◌, ◌*◌, ◌/◌, Bool, true, false, not, ◌&&◌, ◌||◌, Option, none, some, List, [], ◌∷◌,
  ◌++◌, ℤ, length, drop, get_elem?, leb, ltb, ◌==◌, if◌then◌else◌,
}
use minisforum_n5pro_fan_pro.Spec.Tables.{
  Mean, Crossed, judged, mean, mean_ℤ, spread, crossing, reg_channel, t1_other_rpm, t1_other_dcr,
  t1_own_step_rpm,
}
use minisforum_n5pro_fan_pro.Spec.Handback.Defs.{dist}

pub record T1Step : Type 0 where
  pub duty : ℕ
  pub dcr : List (Option ℕ)
  pub dcr4 : List (Option ℕ)
  pub fans : ℕ → List (Option ℕ)
  pub others : ℕ → List (Option ℕ)
  pub t : List ℕ
  pub inputs : ℕ → List (Option ℤ)

abbrev judged_at : ℕ → Option ℕ → Bool → Bool
judged_at ch none untimed = untimed
judged_at ch (some t) untimed = judged ch t

-- `T1Step.judged`: without times every sample is judged.
unfoldable pub step_judged : T1Step → ℕ → ℕ → Bool
unfolding judged
step_judged st ch i = judged_at ch (get_elem? st.t i) (length st.t == 0)

-- One register over one step: the judged samples, those of them without a value, the first that differs.
pub record SeriesScan : Type 0 where
  pub judged : ℕ
  pub missing : ℕ
  pub differs : Option ℕ

abbrev scan_value : ℕ → Option ℕ → SeriesScan → SeriesScan
scan_value duty none r = record {
  judged = 1 + r.judged;
  missing = 1 + r.missing;
  differs = r.differs;
}
scan_value duty (some v) r = record {
  judged = 1 + r.judged;
  missing = r.missing;
  differs = if v == duty then r.differs else some v;
}

unfoldable pub scan_series : T1Step → ℕ → ℕ → List (Option ℕ) → SeriesScan
unfolding step_judged
scan_series st ch i [] = record { judged = 0; missing = 0; differs = none }
scan_series st ch i (v ∷ vs) =
    let rest = scan_series st ch (i + 1) vs in
    if step_judged st ch i then scan_value st.duty v rest else rest

-- The registers whose series a step of channel `ch` must show at the written value.
unfoldable pub own_series : ℕ → T1Step → List (List (Option ℕ))
own_series ch st = if ch == 3 then st.dcr ∷ st.dcr4 ∷ [] else st.dcr ∷ []

abbrev is_some {ℓ} : {A : Type ℓ} → Option A → Bool
is_some none = false
is_some (some a) = true

-- `dcrOK` and `dcrKnown` of one series.
unfoldable pub series_ok : T1Step → ℕ → List (Option ℕ) → Bool
unfolding scan_series
series_ok st ch vs = not (is_some (scan_series st ch 0 vs).differs)

unfoldable pub series_known : T1Step → ℕ → List (Option ℕ) → Bool
unfolding scan_series
series_known st ch vs = let s = scan_series st ch 0 vs in not (s.judged == 0) && s.missing == 0

unfoldable pub all_b {ℓ} : {A : Type ℓ} → (A → Bool) → List A → Bool
all_b f [] = true
all_b f (x ∷ xs) = f x && all_b f xs

unfoldable pub dcr_ok : ℕ → List T1Step → Bool
unfolding series_ok own_series all_b
dcr_ok ch steps = all_b (λ st. all_b (series_ok st ch) (own_series ch st)) steps

unfoldable pub dcr_known : ℕ → List T1Step → Bool
unfolding series_known own_series all_b
dcr_known ch steps = all_b (λ st. all_b (series_known st ch) (own_series ch st)) steps

-- The tach noise at rest.
abbrev too_wide : Option (ℕ × ℕ) → Bool
too_wide none = false
too_wide (some (lo, hi)) = ltb t1_other_rpm (hi - lo)

unfoldable pub noisy : (ℕ → List (Option ℕ)) → List ℕ → List ℕ
unfolding spread
noisy rest [] = []
noisy rest (f ∷ fs) =
    let more = noisy rest fs in if too_wide (spread (rest f)) then f ∷ more else more

-- `math.Round` of a mean of duty registers: half away from zero.
unfoldable pub round_mean : Mean ℕ → ℕ
round_mean m = (2 * m.sum + m.count) / (2 * m.count)

-- Another register over one step: the judged samples, whether one has no value, and the largest deviation.
pub record OtherScan : Type 0 where
  pub judged : ℕ
  pub missing : Bool
  pub max_dev : ℕ

abbrev scan_other_value : ℕ → Option ℕ → OtherScan → OtherScan
scan_other_value base none r = record { judged = 1 + r.judged; missing = true; max_dev = r.max_dev }
scan_other_value base (some v) r = record {
  judged = 1 + r.judged;
  missing = r.missing;
  max_dev = if ltb r.max_dev (dist v base) then dist v base else r.max_dev;
}

unfoldable pub scan_other : T1Step → ℕ → ℕ → ℕ → List (Option ℕ) → OtherScan
unfolding step_judged
scan_other st ch base i [] = record { judged = 0; missing = false; max_dev = 0 }
scan_other st ch base i (v ∷ vs) =
    let rest = scan_other st ch base (i + 1) vs in
    if step_judged st ch i then scan_other_value base v rest else rest

-- A register moves when its deviation from its rest value reaches `t1_other_dcr` in a step.
unfoldable pub moves_in : ℕ → ℕ → ℕ → List T1Step → Bool
unfolding scan_other
moves_in ch base n [] = false
moves_in ch base n (st ∷ sts) =
    leb t1_other_dcr (scan_other st ch base 0 (st.others n)).max_dev || moves_in ch base n sts

-- No value is missing in any step, and every step has a judged sample.
unfoldable pub complete_in : ℕ → ℕ → ℕ → List T1Step → Bool
unfolding scan_other
complete_in ch base n [] = true
complete_in ch base n (st ∷ sts) =
    let s = scan_other st ch base 0 (st.others n) in
    not s.missing && not (s.judged == 0) && complete_in ch base n sts

abbrev pub moves_from : ℕ → ℕ → Option (Mean ℕ) → List T1Step → Bool
moves_from ch n none steps = false
moves_from ch n (some m) steps = moves_in ch (round_mean m) n steps

abbrev pub complete_from : ℕ → ℕ → Option (Mean ℕ) → List T1Step → Bool
complete_from ch n none steps = false
complete_from ch n (some m) steps = complete_in ch (round_mean m) n steps

-- The registers of the other channels that left their rest value.
unfoldable pub moved_regs : ℕ → (ℕ → List (Option ℕ)) → List T1Step → List ℕ → List ℕ
unfolding moves_in mean round_mean
moved_regs ch rest_dcr steps [] = []
moved_regs ch rest_dcr steps (n ∷ ns) =
    let more = moved_regs ch rest_dcr steps ns in
    if moves_from ch n (mean (rest_dcr n)) steps then n ∷ more else more

unfoldable pub others_known : ℕ → (ℕ → List (Option ℕ)) → List T1Step → List ℕ → Bool
unfolding complete_in mean round_mean
others_known ch rest_dcr steps [] = true
others_known ch rest_dcr steps (n ∷ ns) =
    complete_from ch n (mean (rest_dcr n)) steps && others_known ch rest_dcr steps ns

-- The table inputs of another channel over all steps.
unfoldable pub inputs_of : ℕ → List T1Step → List (Option ℤ)
inputs_of oc [] = []
inputs_of oc (st ∷ sts) = st.inputs oc ++ inputs_of oc sts

-- The other channels with an EC automatic whose table input crossed a step.
unfoldable pub crossed_channels :
    ℕ → (ℕ → List (Option ℤ)) → List T1Step → List ℕ → List (ℕ × Crossed)
unfolding crossing mean_ℤ inputs_of
crossed_channels ch rest_in steps [] = []
crossed_channels ch rest_in steps (oc ∷ ocs) =
    let more = crossed_channels ch rest_in steps ocs in
    if oc == ch then more else elim (crossing oc (mean_ℤ (rest_in oc)) (inputs_of oc steps)) [
      | none ↦ more
      | some c ↦ (oc, c) ∷ more
    ]

-- A channel of which a register moved.
unfoldable pub channel_moved : ℕ → List ℕ → Bool
unfolding reg_channel
channel_moved oc [] = false
channel_moved oc (n ∷ ns) = reg_channel n == oc || channel_moved oc ns

unfoldable pub crossed_and_moved : List ℕ → List (ℕ × Crossed) → List (ℕ × Crossed)
unfolding channel_moved
crossed_and_moved moved [] = []
crossed_and_moved moved ((oc, c) ∷ cs) =
    let more = crossed_and_moved moved cs in if channel_moved oc moved then (oc, c) ∷ more else more

-- The mean of the last three samples of the own tach.
unfoldable pub own_mean : ℕ → T1Step → Option (Mean ℕ)
unfolding mean
own_mean own st = let s = st.fans own in mean (drop (length s - 3) s)

-- The drop from the step before: at least `t1_own_step_rpm`, where both means are known.
abbrev drops : Option (Mean ℕ) → Option (Mean ℕ) → Bool
drops (some a) (some b) =
    not (ltb (a.sum * b.count) (t1_own_step_rpm * (a.count * b.count) + b.sum * a.count))
drops _ _ = true

unfoldable pub own_from : ℕ → Option (Mean ℕ) → List T1Step → Bool
unfolding own_mean
own_from own before [] = true
own_from own before (st ∷ sts) =
    let m = own_mean own st in is_some m && drops before m && own_from own m sts

-- `ownOK`: trivially true without a tach.
unfoldable pub own_ok : ℕ → List T1Step → Bool
unfolding own_from
own_ok own steps = if own == 0 then true else own_from own none steps
