-- ===== src/Writer/Safety.antt =====
-- What a write and a restore can do to the hardware.
use minisforum_n5pro_fan_pro.Prelude.{
  ℕ, ◌≤◌, ◌≡◌, refl, ◌⊎◌, inl, inr, true, false, ◌||◌, Option, none, some, List, ℤ, pos, ◌≤ℤ◌, All,
  ltb_ℤ, ltb, arith, Bool-cases, Text, codes, text_eq, atoi,
}
use minisforum_n5pro_fan_pro.Writer.Device.{
  Attr, duty, enable, Device, PathName, Resolved, found, failed, device_eq, device_eq_iff, resolve,
}
use minisforum_n5pro_fan_pro.Writer.Defs.{
  Kernel, Attempt, Outcome, ok, panics, error, write, write_resolved, commit, ok_value,
  enter_manual, set_duty, auto, restore_duty, restore_to, and_then, too_high, min_duty,
}

-- A duty is in 100..255 and an enable value is 1 or 2.
abbrev pub SafeValue : Attr → ℤ → Type 0
SafeValue duty v = (pos 100 ≤ℤ v) × (v ≤ℤ pos 255)
SafeValue enable v = (v ≡ pos 1) ⊎ (v ≡ pos 2)

-- A system call on a channel 1..4 of the device `want`, with a safe value.
abbrev pub SafeAttempt : Device → Attempt → Type 0
SafeAttempt want a = (1 ≤ a.ch) × (a.ch ≤ 4) × (a.device ≡ want) × SafeValue a.attr a.value

safe_value : (a : Attr) (v : ℤ) → ok_value a v ≡ true → too_high a v ≡ false → SafeValue a v
safe_value duty v h q = (ground arith, ground arith)
safe_value enable v h q = ground arith

pub ok_of_safe : (a : Attr) (v : ℤ) → SafeValue a v → (ok_value a v ≡ true) × (too_high a v ≡ false)
ok_of_safe duty v s = (ground arith, ground arith)
ok_of_safe enable v s = (ground arith, refl)

module _ (k : Kernel) (want : Device) where
  open k use {World, sysfs}

  commit-IsSafe :
      (dir : PathName) (dev : Device) (ch : ℕ) (a : Attr) (v : ℤ) (w : World) (log : List Attempt)
      → 1 ≤ ch
      → ch ≤ 4
      → dev ≡ want
      → SafeValue a v
      → All (SafeAttempt want) log
      → All (SafeAttempt want) (commit k want dir dev ch a v w log).2
  unfolding commit
  commit-IsSafe dir dev ch a v w log lo hi same s h = ((lo, hi, same, s), h)

  write_resolved-IsSafe :
      (r : Resolved) (ch : ℕ) (a : Attr) (v : ℤ) (w : World) (log : List Attempt)
      → 1 ≤ ch
      → ch ≤ 4
      → SafeValue a v
      → All (SafeAttempt want) log
      → All (SafeAttempt want) (write_resolved k want r ch a v w log).2
  unfolding write_resolved
  write_resolved-IsSafe (failed e) ch a v w log lo hi s h = h
  write_resolved-IsSafe (found dev dir) ch a v w log lo hi s h =
      elim (Bool-cases (device_eq dev want)) [
        | inl e ↦ rw e (elim (Bool-cases ((sysfs w).exists dir ch a)) [
          | inl x ↦
              rw x (commit-IsSafe dir dev ch a v w log lo hi ((device_eq_iff dev want).0 e) s h)
          | inr x ↦ rw x h
        ])
        | inr e ↦ rw e h
      ]

  write-IsSafe :
      (ch : ℕ) (a : Attr) (v : ℤ) (w : World) (log : List Attempt)
      → All (SafeAttempt want) log
      → All (SafeAttempt want) (write k want ch a v w log).2
  unfolding write
  write-IsSafe ch a v w log h = elim (Bool-cases (ltb ch 1 || ltb 4 ch)) [
    | inl out ↦ rw out h
    | inr inside ↦ rw inside (elim (Bool-cases (ok_value a v)) [
      | inl good ↦ rw good (elim (Bool-cases (too_high a v)) [
        | inl high ↦ rw high h
        | inr low ↦ rw low (
            write_resolved-IsSafe (resolve (sysfs w)) ch a v w log (ground arith) (ground arith)
              (safe_value a v good low) h)
      ])
      | inr bad ↦ rw bad h
    ])
  ]

  and_then-IsSafe :
      (r : Outcome × World × List Attempt)
      (next : World → List Attempt → Outcome × World × List Attempt)
      → ((w : World) (log : List Attempt)
          → All (SafeAttempt want) log
          → All (SafeAttempt want) (next w log).2)
      → All (SafeAttempt want) r.2
      → All (SafeAttempt want) (and_then k want r next).2
  and_then-IsSafe (ok, w, log) next keep h = keep w log h
  and_then-IsSafe (panics, w, log) next keep h = h
  and_then-IsSafe (error e, w, log) next keep h = h

  restore_duty-IsSafe :
      (ch : ℕ) (o : Option ℤ) (w : World) (log : List Attempt)
      → All (SafeAttempt want) log
      → All (SafeAttempt want) (restore_duty k want ch o w log).2
  unfolding restore_duty enter_manual set_duty
  restore_duty-IsSafe ch none w log h = h
  restore_duty-IsSafe ch (some d) w log h =
      elim (Bool-cases (ltb_ℤ d min_duty || ltb_ℤ (pos 255) d)) [
        | inl out ↦ rw out h
        | inr fine ↦ rw fine (
            and_then-IsSafe (enter_manual k want ch w log) (set_duty k want ch d)
              (λ w' log' h'. write-IsSafe ch duty d w' log' h')
              (write-IsSafe ch enable (pos 1) w log h))
      ]

  -- Every system call of a restore, to any text as value, is on a channel 1..4 of the device recorded at the
  -- start and writes a duty in 100..255 or an enable value of 1 or 2, if that holds of the calls before it.
  pub restore_to-IsSafe :
      (ch : ℕ) (value : Text) (w : World) (log : List Attempt)
      → All (SafeAttempt want) log
      → All (SafeAttempt want) (restore_to k want ch value w log).2
  unfolding restore_to auto
  restore_to-IsSafe ch value w log h = elim (Bool-cases (text_eq value (codes "auto"))) [
    | inl e ↦ rw e (write-IsSafe ch enable (pos 2) w log h)
    | inr e ↦ rw e (restore_duty-IsSafe ch (atoi value) w log h)
  ]
