-- ===== src/Tests/Writing.antt =====
-- A machine whose driver has one hwmon device and takes every write, and restores on it.
use minisforum_n5pro_fan_pro.Prelude.{
  ℕ, suc, ◌==◌, if◌then◌else◌, arith, pos, ◌≡◌, ◌≢◌, refl, inl, Bool, true, none, some, [], ◌∷◌,
  All, Text, codes,
}
use minisforum_n5pro_fan_pro.Writer.Device.{Device, module_name, PathName}
use minisforum_n5pro_fan_pro.Writer.Defs.{Kernel, ok, panics, restore_to}
use minisforum_n5pro_fan_pro.Writer.Safety.{SafeAttempt, restore_to-IsSafe}
use minisforum_n5pro_fan_pro.Writer.Panics.{restore_to-ne-panics}
use minisforum_n5pro_fan_pro.Writer.Effect.{Restored, restore_to-Restored}
use minisforum_n5pro_fan_pro.Restore.Handover.{check_restore_value-resolve_restore}
use minisforum_n5pro_fan_pro.Restore.StateFile.{check_restore_value}
use minisforum_n5pro_fan_pro.Restore.Values.{
  ConfigFile, decoded, resolve_restore, parse_restore_arg, parsed, pcie_restore, sort_ints,
}
use minisforum_n5pro_fan_pro.Restore.ValueLaws.{
  IsRestoreValue, IsAccepted, resolve_restore-IsRestoreValue, parse_restore_arg-IsAccepted,
  resolve_restore-pcie,
}
use minisforum_n5pro_fan_pro.Restore.StateFile.{StateFile, active, restore_from_state, channels_of}
use minisforum_n5pro_fan_pro.Restore.Recovery.{
  RestoredAll, restore_from_state-IsSafe, restore_from_state_complete,
}

abbrev device_path : PathName
device_path = codes "n5-fan" ∷ codes "platform" ∷ codes "devices" ∷ []

abbrev driver : Device
driver = record { name = module_name; device_path = device_path; src_version = codes "1.0" }

-- The world counts the system calls.
abbrev machine : Kernel
machine = record {
  World = ℕ;
  sysfs = λ w. record {
    hwmon = some (
        record { name_file = codes "k10temp"; real = none }
        ∷ record {
          name_file = module_name;
          real = some (codes "hwmon3" ∷ codes "hwmon" ∷ device_path);
        }
        ∷ []);
    src_version = codes "1.0";
    exists = λ dir ch a. true;
  };
  write_attr = λ dir ch a v w. (suc w, true);
  before = λ ch a v w. w;
  after = λ ch a v fine w. w;
}

restore_to-IsSafe_example :
    All (SafeAttempt driver) (restore_to machine driver 1 (codes "200") 0 []).2
restore_to-IsSafe_example = restore_to-IsSafe machine driver 1 (codes "200") 0 [] tt

restore_ok : (restore_to machine driver 1 (codes "200") 0 []).0 ≡ ok
unfolding restore_to
restore_ok = refl

restore_to-Restored_example :
    Restored machine driver 1 (codes "200") [] (restore_to machine driver 1 (codes "200") 0 []).2
restore_to-Restored_example = restore_to-Restored machine driver 1 (codes "200") 0 [] restore_ok

restore_to-ne-panics_example : (restore_to machine driver 4 (codes "99") 0 []).0 ≢ panics
restore_to-ne-panics_example =
    restore_to-ne-panics machine driver 4 (codes "99") 0 [] (ground arith) (ground arith)

abbrev argument_for_1 : ℕ → Text
argument_for_1 ch = if ch == 1 then codes "150" else []

abbrev fangov_file : ConfigFile
fangov_file =
    decoded (
      record { pwm = pos 3; stop = codes " auto" }
      ∷ record { pwm = pos 4; stop = codes "120" }
      ∷ [])

resolve_restore-IsRestoreValue_example :
    All
      (λ r. IsRestoreValue r.value)
      (resolve_restore argument_for_1 fangov_file (4 ∷ 3 ∷ 1 ∷ [])).values
resolve_restore-IsRestoreValue_example =
    resolve_restore-IsRestoreValue argument_for_1 fangov_file (4 ∷ 3 ∷ 1 ∷ [])

argument_for_1-parsed : parse_restore_arg (codes "pwm1=150") ≡ parsed 1 (codes "150")
unfolding parse_restore_arg
argument_for_1-parsed = refl

parse_restore_arg-IsAccepted_example : IsAccepted 1 (codes "150")
parse_restore_arg-IsAccepted_example =
    parse_restore_arg-IsAccepted (codes "pwm1=150") 1 (codes "150") argument_for_1-parsed

resolve_restore-pcie_example :
    All
      (λ r. r.channel ≡ 4 → r.value ≡ pcie_restore)
      (resolve_restore (λ ch. []) fangov_file (4 ∷ 3 ∷ [])).values
resolve_restore-pcie_example =
    resolve_restore-pcie (λ ch. []) fangov_file (4 ∷ 3 ∷ []) (λ ch. inl refl)

abbrev left_open : StateFile
left_open = record {
  state = active;
  device = driver;
  channels = (codes "4", codes "auto") ∷ (codes "1", codes "auto") ∷ [];
}

abbrev saves : StateFile → ℕ → ℕ × Bool
saves st w = (w, true)

restore_from_state-IsSafe_example :
    All (SafeAttempt driver) (restore_from_state machine saves true left_open 0 []).log
restore_from_state-IsSafe_example = restore_from_state-IsSafe machine left_open saves true 0 [] tt

recovery_fine : (restore_from_state machine saves true left_open 0 []).fine ≡ true
unfolding restore_from_state
recovery_fine = refl

restore_from_state_complete_example :
    RestoredAll machine left_open
      (sort_ints (channels_of left_open.channels))
      []
      (restore_from_state machine saves true left_open 0 []).log
restore_from_state_complete_example =
    (restore_from_state_complete machine left_open saves true 0 [] recovery_fine).1

check_restore_value-resolve_restore_example :
    All
      (λ r. check_restore_value r.value ≡ true)
      (resolve_restore argument_for_1 fangov_file (4 ∷ 3 ∷ 1 ∷ [])).values
check_restore_value-resolve_restore_example =
    check_restore_value-resolve_restore argument_for_1 fangov_file (4 ∷ 3 ∷ 1 ∷ [])
