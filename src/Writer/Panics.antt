-- ===== src/Writer/Panics.antt =====
-- The panics of `Writer.Write` and the restore.
use minisforum_n5pro_fan_pro.Prelude.{
  ℕ, ◌≤◌, ◌≡◌, ◌≢◌, refl, inl, inr, false, ◌||◌, Option, none, some, List, ℤ, pos, ltb_ℤ, ltb,
  arith, Bool-cases, Text, codes, text_eq, atoi,
}
use minisforum_n5pro_fan_pro.Writer.Device.{
  Attr, duty, enable, Device, Resolved, found, failed, resolve,
}
use minisforum_n5pro_fan_pro.Writer.Defs.{
  Kernel, Attempt, Outcome, ok, panics, error, write, write_resolved, commit, enter_manual,
  set_duty, auto, restore_duty, restore_to, and_then, min_duty,
}
use minisforum_n5pro_fan_pro.Writer.Safety.{SafeValue, ok_of_safe}

module _ (k : Kernel) (want : Device) where
  open k use {World, sysfs}

  write_resolved-ne-panics :
      (r : Resolved) (ch : ℕ) (a : Attr) (v : ℤ) (w : World) (log : List Attempt)
      → (write_resolved k want r ch a v w log).0 ≢ panics
  unfolding write_resolved commit
  write_resolved-ne-panics (failed e) ch a v w log h = cc
  write_resolved-ne-panics (found dev dir) ch a v w log h = ground arith

  write-ne-panics :
      (ch : ℕ) (a : Attr) (v : ℤ) (w : World) (log : List Attempt)
      → 1 ≤ ch
      → ch ≤ 4
      → SafeValue a v
      → (write k want ch a v w log).0 ≢ panics
  unfolding write
  write-ne-panics ch a v w log lo hi s h =
      let inside : (ltb ch 1 || ltb 4 ch) ≡ false = ground arith in
      let good = ok_of_safe a v s in
      write_resolved-ne-panics (resolve (sysfs w)) ch a v w log (rw (inside, good.0, good.1) at h)

  and_then-ne-panics :
      (r : Outcome × World × List Attempt)
      (next : World → List Attempt → Outcome × World × List Attempt)
      → r.0 ≢ panics
      → ((w : World) (log : List Attempt) → (next w log).0 ≢ panics)
      → (and_then k want r next).0 ≢ panics
  and_then-ne-panics (ok, w, log) next h keep = keep w log
  and_then-ne-panics (panics, w, log) next h keep = absurd (h refl)
  and_then-ne-panics (error e, w, log) next h keep = λ q. cc

  restore_duty-ne-panics :
      (ch : ℕ) (o : Option ℤ) (w : World) (log : List Attempt)
      → 1 ≤ ch
      → ch ≤ 4
      → (restore_duty k want ch o w log).0 ≢ panics
  unfolding restore_duty enter_manual set_duty
  restore_duty-ne-panics ch none w log lo hi = λ h. cc
  restore_duty-ne-panics ch (some d) w log lo hi =
      elim (Bool-cases (ltb_ℤ d min_duty || ltb_ℤ (pos 255) d)) [
        | inl out ↦ rw out (λ h. cc)
        | inr fine ↦ rw fine (
            and_then-ne-panics (write k want ch enable (pos 1) w log) (write k want ch duty d)
              (write-ne-panics ch enable (pos 1) w log lo hi (inl refl))
              (λ w' log'. write-ne-panics ch duty d w' log' lo hi (ground arith, ground arith)))
      ]

  -- A restore of a channel 1..4 never panics, whatever its value is.
  pub restore_to-ne-panics :
      (ch : ℕ) (value : Text) (w : World) (log : List Attempt)
      → 1 ≤ ch
      → ch ≤ 4
      → (restore_to k want ch value w log).0 ≢ panics
  unfolding restore_to auto
  restore_to-ne-panics ch value w log lo hi = elim (Bool-cases (text_eq value (codes "auto"))) [
    | inl e ↦ rw e (write-ne-panics ch enable (pos 2) w log lo hi (inr refl))
    | inr e ↦ rw e (restore_duty-ne-panics ch (atoi value) w log lo hi)
  ]
