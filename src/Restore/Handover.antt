-- ===== src/Restore/Handover.antt =====
-- The restore values that a run resolves are what the guardian later finds in the state file.
use minisforum_n5pro_fan_pro.Prelude.{
  ℕ, ◌≤◌, ◌≡◌, refl, inl, inr, true, some, List, pos, All, All-map, Text, text_eq, text_eq_iff,
  arith, Bool-cases,
}
use minisforum_n5pro_fan_pro.Restore.Values.{auto_text, ConfigFile, resolve_restore}
use minisforum_n5pro_fan_pro.Restore.ValueLaws.{
  IsRestoreValue, resolve_restore-IsRestoreValue, atoi-itoa,
}
use minisforum_n5pro_fan_pro.Restore.StateFile.{check_restore_value, duty_ok}

duty_ok-pos : (d : ℕ) → 100 ≤ d → d ≤ 255 → duty_ok (some (pos d)) ≡ true
duty_ok-pos d lo hi = ground arith

value_lem : (v : Text) → IsRestoreValue v → check_restore_value v ≡ true
unfolding check_restore_value
value_lem v (inl e) = rw ((text_eq_iff v auto_text).1 e) refl
value_lem v (inr (d, lo, hi, e)) = elim (Bool-cases (text_eq v auto_text)) [
  | inl auto ↦ rw auto refl
  | inr other ↦ rw (other, e, atoi-itoa d (omega arith)) (duty_ok-pos d lo hi)
]

-- Whatever the --restore arguments and the configuration file are, every restore value that a run resolves, and so
-- writes to the state file, is one that the guardian accepts when it restores from that file.
pub check_restore_value-resolve_restore :
    (args : ℕ → Text) (file : ConfigFile) (chans : List ℕ)
    → All (λ r. check_restore_value r.value ≡ true) (resolve_restore args file chans).values
check_restore_value-resolve_restore args file chans =
    All-map {P = λ r. IsRestoreValue r.value} {Q = λ r. check_restore_value r.value ≡ true}
      (λ r. value_lem r.value) (resolve_restore args file chans).values
      (resolve_restore-IsRestoreValue args file chans)
