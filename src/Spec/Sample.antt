-- ===== src/Spec/Sample.antt =====
-- ectest/internal/spec/sample.go: one row of samples.csv.
-- Times are whole milliseconds since the start of the run (the resolution of samples.csv), for a
-- clock that counts these, temperatures thousandths of a degree (the unit of hwmon), the load
-- hundredths (the unit of /proc/loadavg). `none` stands for an unknown value: -1 in an integer field,
-- NaN in a float field. The wall-clock stamp and the two columns of the reference rig are left out.
use minisforum_n5pro_fan_pro.Prelude.{ℕ, ◌-◌, Option, none, List, ℤ, replicate}

-- The sub-runs of a hand-back test.
pub data Label : Type 0 where
  high middle replay : Label

pub data Phase : Type 0 where
  boot_state gate t1_rest t2_pre : Phase
  t1_step : (duty : ℕ) → Phase
  t2_hold : (rep : ℕ) → Label → Phase
  t2_auto : (rep : ℕ) → Label → Phase

pub record Sample : Type 0 where
  pub ts : ℕ
  pub phase : Phase
  pub ch : ℕ
  pub written : Option ℕ
  pub dcr : List (Option ℕ)  -- DCR1 to DCR5
  pub fan : List (Option ℕ)  -- fan1 to fan3
  pub ec_cpu : Option ℤ
  pub ec_sys : Option ℤ
  pub ec_board : Option ℤ
  pub ec_amb : Option ℤ
  pub hdd_max : Option ℤ
  pub nvme_max : Option ℤ
  pub tctl : Option ℤ
  pub load1 : Option ℕ

unfoldable pub new_sample : ℕ → Phase → ℕ → Option ℕ → Sample
new_sample ts phase ch written = record {
  ts = ts;
  phase = phase;
  ch = ch;
  written = written;
  dcr = replicate 5 none;
  fan = replicate 3 none;
  ec_cpu = none;
  ec_sys = none;
  ec_board = none;
  ec_amb = none;
  hdd_max = none;
  nvme_max = none;
  tctl = none;
  load1 = none;
}

-- `SinceMS` on whole milliseconds, which its roundings leave alone; a sample is never stamped before the write or command that it is measured from.
abbrev pub since_ms : ℕ → ℕ → ℕ
since_ms a b = a - b
