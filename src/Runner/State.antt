-- ===== src/Runner/State.antt =====
-- ectest/internal/runner/runner.go: the state of a `Runner` and the operations that write. Reasons and events are
-- values that carry what the source formats; a Go map is a function. The callbacks that stream samples and events,
-- the tag and the texts of errors are left out.
use minisforum_n5pro_fan_pro.Prelude.{
  ℕ, Bool, true, false, ◌||◌, Option, none, some, List, [], ◌∷◌, ◌++◌, ℤ, ltb, ◌==◌, Text,
  if◌then◌else◌,
}
use minisforum_n5pro_fan_pro.Spec.Sample.{Sample, Label}
use minisforum_n5pro_fan_pro.Spec.Tables.{Crossed, min_duty}
use minisforum_n5pro_fan_pro.Spec.Gate.Defs.{Limit}
use minisforum_n5pro_fan_pro.Runner.Env.{Env}

-- Why a run stops early.
pub data AbortReason : Type 0 where
  foreign_writer cancelled : AbortReason
  lost_sensor : Limit → AbortReason
  too_hot : Limit → ℤ → AbortReason
  tach_zero : ℕ → AbortReason
  no_manual no_write no_auto : AbortReason
  by_caller : Text → AbortReason

pub data Event : Type 0 where
  wrote_duty write_failed : (ch duty : ℕ) → Event
  manual_mode manual_failed auto_sent auto_failed : (ch : ℕ) → Event
  restored restored_differs restore_failed : (ch : ℕ) → Event
  hot_restored hot_differs hot_failed hot_unsaved : (ch : ℕ) → Event
  aborted : AbortReason → Event
  off_due : (read due : ℕ) → Event
  t1_begins t2_begins : (ch : ℕ) → Event
  t2_values : List (ℕ × Option ℕ) → (middle : ℕ) → Event
  t2_crossed : Crossed → Event
  t2_auto : (rep : ℕ) → Label → Event
  t1_complete t2_complete : Event

pub record Stamped : Type 0 where
  pub time : ℕ
  pub event : Event

-- A map from channels, with one entry replaced.
unfoldable pub set {ℓ} : {A : Type ℓ} → ℕ → A → (ℕ → A) → ℕ → A
set ch v m c = if c == ch then v else m c

module _ (env : Env) where
  open env use {World, now, before_write, write_duty, enter_manual, auto, dcr}

  -- The state of a run, with the machine it acts on. `hot` is 0 when no temperature limit was reached.
  pub record Run : Type 0 where
    pub world : World
    pub start : ℕ
    pub samples : List Sample
    pub events : List Stamped
    pub abort : Option AbortReason
    pub limit_sensors : Limit → Bool
    pub nan_run : Limit → ℕ
    pub touched : ℕ → Bool
    pub restore_err : ℕ → Bool
    pub overrides : ℕ → Bool
    pub warnings : List ℕ
    pub dcr_ok : Bool
    pub wrote : Bool
    pub hot : ℕ

  abbrev read_ok : Option (ℕ → ℕ) → Bool
  read_ok none = false
  read_ok (some d) = true

  -- `NewRunner`.
  unfoldable pub new_runner : World → Run
  new_runner w = record {
    world = (dcr w).0;
    start = now w;
    samples = [];
    events = [];
    abort = none;
    limit_sensors = λ l. false;
    nan_run = λ l. 0;
    touched = λ ch. false;
    restore_err = λ ch. false;
    overrides = λ ch. false;
    warnings = [];
    dcr_ok = read_ok (dcr w).1;
    wrote = false;
    hot = 0;
  }

  abbrev pub log_event : Event → Run → Run
  log_event e r = record r { events = r.events ++ (record { time = now r.world; event = e } ∷ []) }

  -- The first reason wins.
  unfoldable pub stop : AbortReason → Run → Run
  stop why r = elim r.abort [
    | none ↦ log_event (aborted why) (record r { abort = some why })
    | some first ↦ r
  ]

  -- `firstWrite`.
  unfoldable pub first_write : Run → Run × Bool
  first_write r =
      let (w, fine) = before_write r.world in
      if r.wrote
      then (r, true)
      else if fine
      then (record r { world = w; wrote = true }, true)
      else (record r { world = w }, false)

  -- Marks the channel as touched, acts on it and logs how it went; `none` on an error, otherwise the time logged.
  abbrev pub act : ℕ → (World → World × Bool) → Event → Event → Run → Run × Option ℕ
  act ch call good bad r =
      let (w, fine) = call r.world in
      let q : Run = record r { world = w; touched = set ch true r.touched } in
      if fine then (log_event good q, some (now w)) else (log_event bad q, none)

  -- What follows the call before the first write.
  abbrev pub after_first : (Run → Run × Option ℕ) → Run × Bool → Run × Option ℕ
  after_first next (r, true) = next r
  after_first next (r, false) = (r, none)

  unfoldable pub write : ℕ → ℕ → Run → Run × Option ℕ
  unfolding first_write set
  write ch duty r =
      if ltb duty min_duty || ltb 255 duty
      then (r, none)
      else after_first (act ch (write_duty ch duty) (wrote_duty ch duty) (write_failed ch duty))
          (first_write r)

  unfoldable pub manual : ℕ → Run → Run × Option ℕ
  unfolding first_write set
  manual ch r =
      after_first (act ch (enter_manual ch) (manual_mode ch) (manual_failed ch)) (first_write r)

  unfoldable pub send_auto : ℕ → Run → Run × Option ℕ
  unfolding first_write set
  send_auto ch r = after_first (act ch (auto ch) (auto_sent ch) (auto_failed ch)) (first_write r)
