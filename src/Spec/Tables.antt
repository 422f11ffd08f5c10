-- ===== src/Spec/Tables.antt =====
-- ectest/internal/spec/eval.go: the numbers of the specification and the tables of the channels.
-- Times are milliseconds and temperatures thousandths of a degree, as in Sample.
pub mod Middle
pub mod Sides
use minisforum_n5pro_fan_pro.Prelude.{
  ℕ, ◌+◌, ◌*◌, Bool, false, ◌&&◌, ◌||◌, not, Option, none, some, List, [], ◌∷◌, ℤ, pos, ◌+ℤ◌, sub_ℕ,
  leb_ℤ, ltb_ℤ, leb, ltb, ◌==◌, if◌then◌else◌,
}
use minisforum_n5pro_fan_pro.Spec.Sample.{Sample}

abbrev pub pcie_channel : ℕ
pcie_channel = 4

abbrev pub leave_counts : ℕ
leave_counts = 16

abbrev pub hold_counts : ℕ
hold_counts = 2

abbrev pub leave_within : ℕ
leave_within = 60_000

abbrev pub observe_s : ℕ
observe_s = 900

abbrev pub observe_fast_s : ℕ
observe_fast_s = 180

abbrev pub pre_s : ℕ
pre_s = 900

abbrev pub pre_fast_s : ℕ
pre_fast_s = 300

abbrev pub settle_band : ℕ
settle_band = 2

abbrev pub settle_hold : ℕ
settle_hold = 120_000

abbrev pub t1_own_step_rpm : ℕ
t1_own_step_rpm = 200

abbrev pub t1_other_rpm : ℕ
t1_other_rpm = 50

abbrev pub t1_other_dcr : ℕ
t1_other_dcr = 16

abbrev pub runs_required : ℕ
runs_required = 3

abbrev pub min_duty : ℕ
min_duty = 100

abbrev pub max_m : ℕ
max_m = 200

abbrev pub m_offset : ℕ
m_offset = 48

abbrev pub limit_tctl : ℤ
limit_tctl = pos 85_000

abbrev pub limit_nvme : ℤ
limit_nvme = pos 70_000

abbrev pub limit_hdd : ℤ
limit_hdd = pos 50_000

abbrev pub gate_temp_delta : ℕ
gate_temp_delta = 1_000

abbrev pub gate_trend : ℕ
gate_trend = 60_000

abbrev pub due_tolerance : ℕ
due_tolerance = 500

abbrev pub crossing_distance : ℕ
crossing_distance = 2_000

abbrev pub t1_steps : List ℕ
t1_steps = 255 ∷ 217 ∷ 179 ∷ 140 ∷ []

-- `SettleS`, in milliseconds.
unfoldable pub settle : ℕ → ℕ
settle ch = if ch == 3 then 10_000 else 1_000

unfoldable pub t3_limit_s : ℕ → ℕ
t3_limit_s ch = if ch == 1 || ch == 2 then observe_fast_s else observe_s

unfoldable pub pre_window_s : ℕ → ℕ
pre_window_s ch = if ch == 1 || ch == 2 then pre_fast_s else pre_s

-- The limit of the load, in hundredths: one tenth of the online CPUs.
unfoldable pub gate_load_limit : ℕ → ℕ
gate_load_limit cpus = 10 * cpus

-- The millisecond covers the rounding of the stored times.
unfoldable pub judged : ℕ → ℕ → Bool
unfolding settle
judged ch t = leb (settle ch) (t + 1)

unfoldable pub table_input : ℕ → Sample → Option ℤ
table_input ch s =
    if ch == 1 then s.ec_cpu else if ch == 2 then s.ec_board else if ch == 3 then s.ec_amb else none

unfoldable pub step_boundaries : ℕ → List ℕ
step_boundaries ch =
    if ch == 1
    then 25_000 ∷ 45_000 ∷ 55_000 ∷ 65_000 ∷ 75_000 ∷ 82_000 ∷ 87_000 ∷ []
    else if ch == 2
    then 60_000 ∷ []
    else if ch == 3
    then 34_000 ∷ []
    else []

unfoldable pub judged_regs : ℕ → List ℕ
judged_regs ch =
    if ch == 1 || ch == 2
    then ch ∷ []
    else if ch == 3
    then 3 ∷ 4 ∷ []
    else if ch == 4
    then 5 ∷ []
    else []

unfoldable pub mem_reg : ℕ → List ℕ → Bool
mem_reg n [] = false
mem_reg n (m ∷ ms) = n == m || mem_reg n ms

unfoldable pub other_from : List ℕ → List ℕ → List ℕ
unfolding mem_reg
other_from own [] = []
other_from own (n ∷ ns) = let rest = other_from own ns in if mem_reg n own then rest else n ∷ rest

unfoldable pub other_regs : ℕ → List ℕ
unfolding other_from judged_regs
other_regs ch = other_from (judged_regs ch) (1 ∷ 2 ∷ 3 ∷ 4 ∷ 5 ∷ [])

unfoldable pub reg_channel : ℕ → ℕ
reg_channel n = if n == 1 || n == 2 then n else if n == 3 || n == 4 then 3 else pcie_channel

unfoldable pub m_value : ℕ → ℕ
m_value a =
    let m = a + m_offset in
    let capped = if ltb max_m m then max_m else m in
    if ltb capped min_duty then min_duty else capped

-- A mean: a sum over a positive count. A single reading has the count 1.
pub record Mean {ℓ} (A : Type ℓ) : Type ℓ where
  pub sum : A
  pub count : ℕ

-- What `Crossing` formats into its text.
pub record Crossed : Type 0 where
  pub ref : Mean ℤ
  pub value : ℤ
  pub boundary : ℕ

-- The reference lies below the step at `s`.
abbrev pub below : Mean ℤ → ℕ → Bool
below ref s = ltb_ℤ ref.sum (pos (s * ref.count))

-- `v` lies at least `crossing_distance` beyond the step at `s`, on the other side than the reference.
unfoldable pub crosses : Mean ℤ → ℤ → ℕ → Bool
crosses ref v s =
    (below ref s && leb_ℤ (pos (s + crossing_distance)) v)
    || (not (below ref s) && leb_ℤ v (sub_ℕ s crossing_distance))

unfoldable pub first_step : Mean ℤ → ℤ → List ℕ → Option Crossed
unfolding crosses
first_step ref v [] = none
first_step ref v (s ∷ ss) =
    if crosses ref v s
    then some (record { ref = ref; value = v; boundary = s })
    else first_step ref v ss

abbrev pub or_else : Option Crossed → Option Crossed → Option Crossed
or_else (some c) d = some c
or_else none d = d

unfoldable pub first_crossing : List ℕ → Mean ℤ → List (Option ℤ) → Option Crossed
unfolding first_step
first_crossing bs ref [] = none
first_crossing bs ref (none ∷ vs) = first_crossing bs ref vs
first_crossing bs ref (some v ∷ vs) = or_else (first_step ref v bs) (first_crossing bs ref vs)

unfoldable pub crossing : ℕ → Option (Mean ℤ) → List (Option ℤ) → Option Crossed
unfolding first_crossing step_boundaries
crossing ch none vs = none
crossing ch (some ref) vs = first_crossing (step_boundaries ch) ref vs

-- `spread`: the lowest and the highest of the readable values.
unfoldable pub spread_from : Option (ℕ × ℕ) → List (Option ℕ) → Option (ℕ × ℕ)
spread_from acc [] = acc
spread_from acc (none ∷ vs) = spread_from acc vs
spread_from none (some v ∷ vs) = spread_from (some (v, v)) vs
spread_from (some (lo, hi)) (some v ∷ vs) =
    spread_from (some (if ltb v lo then v else lo, if ltb hi v then v else hi)) vs

unfoldable pub spread : List (Option ℕ) → Option (ℕ × ℕ)
unfolding spread_from
spread vs = spread_from none vs

unfoldable pub sum_known : List (Option ℕ) → Mean ℕ
sum_known [] = record { sum = 0; count = 0 }
sum_known (none ∷ vs) = sum_known vs
sum_known (some v ∷ vs) = let m = sum_known vs in record { sum = v + m.sum; count = 1 + m.count }

unfoldable pub mean : List (Option ℕ) → Option (Mean ℕ)
unfolding sum_known
mean vs = let m = sum_known vs in if m.count == 0 then none else some m

unfoldable pub sum_known_ℤ : List (Option ℤ) → Mean ℤ
unfolding ◌+ℤ◌
sum_known_ℤ [] = record { sum = pos 0; count = 0 }
sum_known_ℤ (none ∷ vs) = sum_known_ℤ vs
sum_known_ℤ (some v ∷ vs) =
    let m = sum_known_ℤ vs in record { sum = v +ℤ m.sum; count = 1 + m.count }

-- `meanF`.
unfoldable pub mean_ℤ : List (Option ℤ) → Option (Mean ℤ)
unfolding sum_known_ℤ
mean_ℤ vs = let m = sum_known_ℤ vs in if m.count == 0 then none else some m
