-- ===== src/Writer/Defs.antt =====
-- ectest/internal/pwmw/pwmw.go: `Writer.Write` and what is built on it. The kernel behind sysfs and the hooks
-- of the writer are a parameter. The trace lists every system call that writes an attribute, the latest first.
use minisforum_n5pro_fan_pro.Prelude.{
  ℕ, Bool, false, ◌&&◌, ◌||◌, not, Option, none, some, List, ◌∷◌, ℤ, pos, leb_ℤ, ltb_ℤ, ltb, Text,
  codes, text_eq, atoi, if◌then◌else◌,
}
use minisforum_n5pro_fan_pro.Writer.Device.{
  Attr, duty, enable, Device, PathName, Sysfs, DeviceError, Resolved, found, failed, device_eq,
  resolve,
}

abbrev pub min_duty : ℤ
min_duty = pos 100

-- What the writer needs from the machine.
pub record Kernel : Type 1 where
  pub World : Type 0
  pub sysfs : World → Sysfs
  pub write_attr : PathName → ℕ → Attr → ℤ → World → World × Bool  -- false: the write failed
  pub before : ℕ → Attr → ℤ → World → World
  pub after : ℕ → Attr → ℤ → Bool → World → World

-- One system call that writes an attribute, and the device that was checked for it.
pub record Attempt : Type 0 where
  pub ch : ℕ
  pub attr : Attr
  pub value : ℤ
  pub device : Device
  pub done : Bool

pub data WriteError : Type 0 where
  out_of_range device_changed no_attr io_failed bad_value value_outside : WriteError
  unresolved : DeviceError → WriteError

pub data Outcome : Type 0 where
  ok panics : Outcome
  error : WriteError → Outcome

-- The checks on the value: the first panics, the second is an error.
abbrev pub ok_value : Attr → ℤ → Bool
ok_value duty v = leb_ℤ min_duty v
ok_value enable v = (leb_ℤ v (pos 1) && leb_ℤ (pos 1) v) || (leb_ℤ v (pos 2) && leb_ℤ (pos 2) v)

abbrev pub too_high : Attr → ℤ → Bool
too_high duty v = ltb_ℤ (pos 255) v
too_high enable v = false

module _ (k : Kernel) (want : Device) where
  open k use {World, sysfs, write_attr, before, after}

  abbrev pub Trace : Type 0
  Trace = World × List Attempt

  abbrev pub Action : Type 0
  Action = World → List Attempt → Outcome × World × List Attempt

  -- The system call between the hooks.
  unfoldable pub commit : PathName → Device → ℕ → Attr → ℤ → Action
  commit dir dev ch a v w log =
      let (w', fine) = write_attr dir ch a v (before ch a v w) in
      (
        if fine then ok else error io_failed,
        after ch a v fine w',
        record { ch = ch; attr = a; value = v; device = dev; done = fine } ∷ log,
      )

  -- From the resolved device on.
  unfoldable pub write_resolved : Resolved → ℕ → Attr → ℤ → Action
  unfolding commit device_eq
  write_resolved (failed e) ch a v w log = (error (unresolved e), w, log)
  write_resolved (found dev dir) ch a v w log =
      if not (device_eq dev want)
      then (error device_changed, w, log)
      else if not ((sysfs w).exists dir ch a)
      then (error no_attr, w, log)
      else commit dir dev ch a v w log

  -- `Writer.Write`.
  unfoldable pub write : ℕ → Attr → ℤ → Action
  unfolding write_resolved resolve
  write ch a v w log =
      if ltb ch 1 || ltb 4 ch
      then (panics, w, log)
      else if not (ok_value a v)
      then (panics, w, log)
      else if too_high a v
      then (error out_of_range, w, log)
      else write_resolved (resolve (sysfs w)) ch a v w log

  unfoldable pub enter_manual : ℕ → Action
  unfolding write
  enter_manual ch = write ch enable (pos 1)

  unfoldable pub set_duty : ℕ → ℤ → Action
  unfolding write
  set_duty ch d = write ch duty d

  unfoldable pub auto : ℕ → Action
  unfolding write
  auto ch = write ch enable (pos 2)

  abbrev pub and_then : Outcome × World × List Attempt → Action → Outcome × World × List Attempt
  and_then (ok, w, log) next = next w log
  and_then (error e, w, log) next = (error e, w, log)
  and_then (panics, w, log) next = (panics, w, log)

  unfoldable pub restore_duty : ℕ → Option ℤ → Action
  unfolding enter_manual set_duty
  restore_duty ch none w log = (error bad_value, w, log)
  restore_duty ch (some d) w log =
      if ltb_ℤ d min_duty || ltb_ℤ (pos 255) d
      then (error value_outside, w, log)
      else and_then (enter_manual ch w log) (set_duty ch d)

  -- `RestoreTo`: "auto" or a duty.
  unfoldable pub restore_to : ℕ → Text → Action
  unfolding auto restore_duty atoi
  restore_to ch value w log =
      if text_eq value (codes "auto") then auto ch w log else restore_duty ch (atoi value) w log
