-- ===== src/Runner/Env.antt =====
-- ectest/internal/runner/runner.go: `Env`, `Readings` and `Config`. The machine is a parameter: every operation
-- takes its state and returns the next one. Times are milliseconds.
use minisforum_n5pro_fan_pro.Prelude.{
  ℕ, ◌+◌, ◌*◌, Bool, Option, none, some, List, ℤ, ◌==◌, if◌then◌else◌,
}
use minisforum_n5pro_fan_pro.Spec.Tables.{t3_limit_s, pre_window_s, settle_hold, runs_required}

pub record Readings : Type 0 where
  pub fan : ℕ → Option ℕ
  pub tctl : Option ℤ
  pub nvme_max : Option ℤ
  pub hdd_max : Option ℤ
  pub ec_cpu : Option ℤ
  pub ec_sys : Option ℤ
  pub ec_board : Option ℤ
  pub ec_amb : Option ℤ
  pub load1 : Option ℕ

-- `n5driver.DCR.Reg`: the value of duty register n.
abbrev pub Dcr : Type 0
Dcr = ℕ → ℕ

-- The register of a pwm channel: `ChannelDCR`.
unfoldable pub channel_dcr : ℕ → Option ℕ
channel_dcr ch =
    if ch == 1
    then some 1
    else if ch == 2
    then some 2
    else if ch == 3
    then some 3
    else if ch == 4
    then some 5
    else none

-- The outcome of `Env.Restore`: `unverified` is ErrRestoreUnverified.
pub data Restoring : Type 0 where
  done unverified failed : Restoring

pub record Env : Type 1 where
  pub World : Type 0
  pub now : World → ℕ
  pub sleep : ℕ → World → World × Bool  -- false: cancelled
  pub enter_manual : ℕ → World → World × Bool
  pub write_duty : ℕ → ℕ → World → World × Bool
  pub auto : ℕ → World → World × Bool
  pub restore : ℕ → World → World × Restoring
  pub dcr : World → World × Option Dcr
  pub read : World → World × Readings
  pub foreign : World → World × Bool  -- `Guard`: another writer became active
  pub before_write : World → World × Bool
  pub before_hot : ℕ → World → World × Bool

pub record Config : Type 0 where
  pub channel : ℕ
  pub own_tach : ℕ
  pub tachs : List ℕ
  pub hold : ℕ
  pub sample : ℕ
  pub observe : ℕ
  pub pre : ℕ
  pub window : ℕ
  pub online_cpus : ℕ
  pub repeat : ℕ

unfoldable pub pre_window : Config → ℕ
pre_window c = if c.pre == 0 then c.observe else c.pre

unfoldable pub handback_observe : Config → ℕ
handback_observe c = c.observe + settle_hold

-- `SpecConfig`.
unfoldable pub spec_config : ℕ → ℕ → List ℕ → Config
unfolding t3_limit_s pre_window_s
spec_config ch own_tach tachs = record {
  channel = ch;
  own_tach = own_tach;
  tachs = tachs;
  hold = 60_000;
  sample = 5_000;
  observe = 1_000 * t3_limit_s ch;
  pre = 1_000 * pre_window_s ch;
  window = 300_000;
  online_cpus = 0;
  repeat = runs_required;
}

unfoldable pub tach_of : ℕ → ℕ
tach_of ch = if ch == 1 then 1 else if ch == 2 then 2 else if ch == 3 then 3 else 0
