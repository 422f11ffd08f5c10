-- ===== src/Writer/Effect.antt =====
-- What a restore that reports no error has done.
use minisforum_n5pro_fan_pro.Prelude.{
  ℕ, ◌≡◌, refl, ap, ◌∙◌, ◌⊎◌, inl, inr, true, ◌||◌, Option, none, some, List, ◌∷◌, ℤ, pos, ◌≤ℤ◌,
  ltb_ℤ, arith, Bool-cases, Text, codes, text_eq, text_eq_iff, atoi,
}
use minisforum_n5pro_fan_pro.Writer.Device.{
  Attr, duty, enable, Device, Resolved, found, failed, device_eq_iff, resolve,
}
use minisforum_n5pro_fan_pro.Writer.Defs.{
  Kernel, Attempt, Outcome, ok, panics, error, write, write_resolved, commit, enter_manual,
  set_duty, auto, restore_duty, restore_to, and_then, min_duty,
}

module _ (k : Kernel) (want : Device) where
  open k use {World, sysfs}

  -- What a write does that ends without an error: one call is added, and it succeeded.
  Added : ℕ → Attr → ℤ → List Attempt → Outcome × World × List Attempt → Type 0
  Added ch a v log r =
      r.0 ≡ ok → r.2 ≡ record { ch = ch; attr = a; value = v; device = want; done = true } ∷ log

  write_resolved-Added :
      (r : Resolved) (ch : ℕ) (a : Attr) (v : ℤ) (w : World) (log : List Attempt)
      → Added ch a v log (write_resolved k want r ch a v w log)
  unfolding write_resolved commit Added
  write_resolved-Added (failed e) ch a v w log h = cc
  write_resolved-Added (found dev dir) ch a v w log h = ground (arith, device_eq_iff dev want)

  write-Added :
      (ch : ℕ) (a : Attr) (v : ℤ) (w : World) (log : List Attempt)
      → Added ch a v log (write k want ch a v w log)
  unfolding write Added
  write-Added ch a v w log h = ground (arith, write_resolved-Added (resolve (sysfs w)) ch a v w log)

  -- What a restore without an error has done.
  abbrev pub Restored : ℕ → Text → List Attempt → List Attempt → Type 0
  Restored ch value log log' =
      ((value ≡ codes "auto")
        × (log'
            ≡ record { ch = ch; attr = enable; value = pos 2; device = want; done = true } ∷ log))
      ⊎ ((d : ℤ) × (atoi value ≡ some d)
          × (pos 100 ≤ℤ d)
          × (d ≤ℤ pos 255)
          × (log'
              ≡ record { ch = ch; attr = duty; value = d; device = want; done = true }
                ∷ record { ch = ch; attr = enable; value = pos 1; device = want; done = true }
                ∷ log))

  duty-Added :
      (ch : ℕ) (d : ℤ) (log : List Attempt) (r : Outcome × World × List Attempt)
      → Added ch enable (pos 1) log r
      → (and_then k want r (set_duty k want ch d)).0 ≡ ok
      → (and_then k want r (set_duty k want ch d)).2
        ≡ record { ch = ch; attr = duty; value = d; device = want; done = true }
          ∷ record { ch = ch; attr = enable; value = pos 1; device = want; done = true }
          ∷ log
  unfolding set_duty Added
  duty-Added ch d log (ok, w, log') added h =
      write-Added ch duty d w log' h
      ∙ ap (λ l. record { ch = ch; attr = duty; value = d; device = want; done = true } ∷ l)
          (added refl)
  duty-Added ch d log (panics, w, log') added h = cc
  duty-Added ch d log (error e, w, log') added h = cc

  restore_duty-Restored :
      (ch : ℕ) (value : Text) (o : Option ℤ) (w : World) (log : List Attempt)
      → atoi value ≡ o
      → (restore_duty k want ch o w log).0 ≡ ok
      → Restored ch value log (restore_duty k want ch o w log).2
  unfolding restore_duty enter_manual
  restore_duty-Restored ch value none w log e h = cc
  restore_duty-Restored ch value (some d) w log e h =
      elim (Bool-cases (ltb_ℤ d min_duty || ltb_ℤ (pos 255) d)) [
        | inl out ↦ absurd (ground arith)
        | inr fine ↦ inr (
          d,
          e,
          ground arith,
          ground arith,
          rw fine (
              duty-Added ch d log (write k want ch enable (pos 1) w log)
                (write-Added ch enable (pos 1) w log) (rw fine at h)),
        )
      ]

  -- A restore that reports no error has either been asked for "auto" and sent the automatic command, or has
  -- been asked for a duty in 100..255, put the channel into manual mode and written that duty; no other
  -- system call was made, and each of these succeeded on the device recorded at the start.
  pub restore_to-Restored :
      (ch : ℕ) (value : Text) (w : World) (log : List Attempt)
      → (restore_to k want ch value w log).0 ≡ ok
      → Restored ch value log (restore_to k want ch value w log).2
  unfolding restore_to auto Added
  restore_to-Restored ch value w log h = elim (Bool-cases (text_eq value (codes "auto"))) [
    | inl e ↦ inl (
      (text_eq_iff value (codes "auto")).0 e,
      rw e (write-Added ch enable (pos 2) w log (rw e at h)),
    )
    | inr e ↦ rw e (restore_duty-Restored ch value (atoi value) w log refl (rw e at h))
  ]
