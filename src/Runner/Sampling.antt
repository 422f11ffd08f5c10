-- ===== src/Runner/Sampling.antt =====
-- ectest/internal/runner/runner.go: `sampleAt`, one row of readings and the safety limits that end a run.
use minisforum_n5pro_fan_pro.Prelude.{
  ℕ, ◌+◌, ◌-◌, Bool, true, false, ◌&&◌, not, Option, none, some, List, [], ◌∷◌, ◌++◌, ℤ, leb_ℤ, leb,
  ◌==◌, if◌then◌else◌,
}
use minisforum_n5pro_fan_pro.Spec.Sample.{Sample, Phase}
use minisforum_n5pro_fan_pro.Spec.Tables.{due_tolerance, limit_tctl, limit_nvme, limit_hdd}
use minisforum_n5pro_fan_pro.Spec.Handback.Defs.{dist}
use minisforum_n5pro_fan_pro.Spec.Gate.Defs.{Limit, tctl, nvme, hdd}
use minisforum_n5pro_fan_pro.Runner.Env.{Env, Config, Dcr, Readings, channel_dcr}
use minisforum_n5pro_fan_pro.Runner.State.{
  Run, AbortReason, foreign_writer, lost_sensor, too_hot, tach_zero, off_due, log_event,
}

-- `lostAfter`.
abbrev pub lost_after : ℕ
lost_after = 3

abbrev pub reading : Limit → Readings → Option ℤ
reading tctl rd = rd.tctl
reading nvme rd = rd.nvme_max
reading hdd rd = rd.hdd_max

-- The channel that a sensor with an abort limit belongs to, and its limit.
abbrev pub hot_of : Limit → ℕ
hot_of tctl = 1
hot_of nvme = 2
hot_of hdd = 3

abbrev pub limit_temp : Limit → ℤ
limit_temp tctl = limit_tctl
limit_temp nvme = limit_nvme
limit_temp hdd = limit_hdd

abbrev over_value : Limit → Option ℤ → Option ℤ
over_value l none = none
over_value l (some v) = if leb_ℤ (limit_temp l) v then some v else none

-- The value of a sensor that has reached its limit.
unfoldable pub over : Limit → Readings → Option ℤ
over l rd = over_value l (reading l rd)

abbrev same_limit : Limit → Limit → Bool
same_limit tctl tctl = true
same_limit nvme nvme = true
same_limit hdd hdd = true
same_limit _ _ = false

abbrev set_limit : Limit → ℕ → (Limit → ℕ) → Limit → ℕ
set_limit l n m k = if same_limit k l then n else m k

abbrev duty_is_zero : Option Dcr → Option ℕ → Bool
duty_is_zero (some d) (some n) = d n == 0
duty_is_zero _ _ = false

abbrev is_zero : Option ℕ → Bool
is_zero none = false
is_zero (some v) = v == 0

-- The first tach that reports 0 although the duty of its channel is not known to be 0.
unfoldable pub stalled : Readings → Option Dcr → List ℕ → Option AbortReason
unfolding channel_dcr
stalled rd d [] = none
stalled rd d (n ∷ ns) =
    let rest = stalled rd d ns in
    if is_zero (rd.fan n) && not (duty_is_zero d (channel_dcr n)) then some (tach_zero n) else rest

unfoldable pub dcr_columns : Option Dcr → List (Option ℕ)
dcr_columns none = none ∷ none ∷ none ∷ none ∷ none ∷ []
dcr_columns (some d) = some (d 1) ∷ some (d 2) ∷ some (d 3) ∷ some (d 4) ∷ some (d 5) ∷ []

module _ (env : Env) (cfg : Config) where
  open env use {World, now, dcr, read, foreign}

  -- A sample near its due time is stored at that time, a later one at its own, with an event.
  unfoldable pub stamp : Option ℕ → Run env → Run env × ℕ
  stamp none r = (r, now r.world - r.start)
  stamp (some due) r = if leb (dist (now r.world) due) due_tolerance then (r, due - r.start) else (
    log_event env (off_due (now r.world - r.start) (due - r.start)) r,
    now r.world - r.start,
  )

  -- A sensor with an enforced limit that has had no value for `lost_after` samples.
  abbrev pub lose : Limit → Option ℤ → Run env → Run env × Option AbortReason
  lose l (some v) r =
      (if r.limit_sensors l then record r { nan_run = set_limit l 0 r.nan_run } else r, none)
  lose l none r =
      let n = r.nan_run l + 1 in
      if r.limit_sensors l
      then (
        record r { nan_run = set_limit l n r.nan_run },
        if leb lost_after n then some (lost_sensor l) else none,
      )
      else (r, none)

  -- The loop over the sensors returns at the first one that is lost.
  unfoldable pub lose_all : List Limit → Readings → Run env → Run env × Option AbortReason
  lose_all [] rd r = (r, none)
  lose_all (l ∷ ls) rd r =
      let (q, why) = lose l (reading l rd) r in
      elim why [ none ↦ lose_all ls rd q | some reason ↦ (q, some reason) ]

  -- The first temperature limit that is reached names the channel.
  unfoldable pub mark_hot : Limit → Run env → Run env
  mark_hot l r = elim r.abort [
    | none ↦ (if r.hot == 0 then record r { hot = hot_of l } else r)
    | some why ↦ r
  ]

  unfoldable pub check_hot :
      List Limit → Readings → Option Dcr → Run env → Run env × Option AbortReason
  unfolding over mark_hot stalled
  check_hot [] rd d r = (r, stalled rd d cfg.tachs)
  check_hot (l ∷ ls) rd d r = elim (over l rd) [
    | none ↦ check_hot ls rd d r
    | some v ↦ (mark_hot l r, some (too_hot l v))
  ]

  abbrev pub limits : List Limit
  limits = tctl ∷ nvme ∷ hdd ∷ []

  -- The checks on the readings that were stored.
  unfoldable pub check_limits : Readings → Option Dcr → Run env → Run env × Option AbortReason
  unfolding lose_all check_hot
  check_limits rd d r =
      let (w, other) = foreign r.world in
      let g : Run env = record r { world = w } in
      let (q, lost) = lose_all limits rd g in
      if other
      then (g, some foreign_writer)
      else elim lost [ some why ↦ (q, some why) | none ↦ check_hot limits rd d q ]

  unfoldable pub row : ℕ → Phase → Option ℕ → Option Dcr → Readings → Sample
  unfolding dcr_columns
  row ts phase written d rd = record {
    ts = ts;
    phase = phase;
    ch = cfg.channel;
    written = written;
    dcr = dcr_columns d;
    fan = rd.fan 1 ∷ rd.fan 2 ∷ rd.fan 3 ∷ [];
    ec_cpu = rd.ec_cpu;
    ec_sys = rd.ec_sys;
    ec_board = rd.ec_board;
    ec_amb = rd.ec_amb;
    hdd_max = rd.hdd_max;
    nvme_max = rd.nvme_max;
    tctl = rd.tctl;
    load1 = rd.load1;
  }

  abbrev pub read_dcr : Bool → World → World × Option Dcr
  read_dcr true w = dcr w
  read_dcr false w = (w, none)

  -- The new state, the sample, and why the run must stop.
  unfoldable pub sample_at :
      Phase → Option ℕ → Option ℕ → Run env → Run env × Sample × Option AbortReason
  unfolding stamp row check_limits
  sample_at phase written due r =
      let (q, ts) = stamp due r in
      let (v, d) = read_dcr q.dcr_ok q.world in
      let (w, rd) = read v in
      let s = row ts phase written d rd in
      let (p, why) = check_limits rd d (record q { world = w; samples = q.samples ++ (s ∷ []) }) in
      (p, s, why)
