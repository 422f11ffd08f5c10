-- ===== src/Runner/Steps.antt =====
-- ectest/internal/runner/runner.go: what the procedures share: how they go on after a hold and after a command, why a
-- test is not run, and the restore at their end. The source returns at once where these call `cut`.
use minisforum_n5pro_fan_pro.Prelude.{ℕ, Bool, true, false, Option, none, some, List, [], ◌∷◌}
use minisforum_n5pro_fan_pro.Spec.Sample.{Sample}
use minisforum_n5pro_fan_pro.Runner.Env.{Env}
use minisforum_n5pro_fan_pro.Runner.State.{Run, AbortReason, set, stop}
use minisforum_n5pro_fan_pro.Runner.Hold.{Held}
use minisforum_n5pro_fan_pro.Runner.Restoring.{restore}

-- The reason that `NotImplemented` is given; the verdict is INCONCLUSIVE. `cut_short` carries `r.Abort`.
pub data NotRun : Type 0 where
  no_registers no_dcr_sample no_data incomplete : NotRun
  not_started : AbortReason → NotRun
  cut_short : Option AbortReason → NotRun

-- The samples that a hold hands to its caller.
abbrev pub samples_of : List (ℕ × Sample) → List Sample
samples_of [] = []
samples_of ((k, s) ∷ ss) = s ∷ samples_of ss

module _ (env : Env) where
  -- What follows a hold: `none` means that the hold did not end.
  abbrev pub after_hold {ℓ} :
      {B : Type ℓ} → Option (Held env) → (cut full : Held env → Option B) → Option B
  after_hold none cut full = none
  after_hold (some h) cut full = elim h.full [ true ↦ full h | false ↦ cut h ]

  -- What follows a command, which gives the time logged: an error stops the run.
  abbrev pub after_command {ℓ} :
      {B : Type ℓ}
      → AbortReason
      → Run env × Option ℕ
      → (Run env → Option B)
      → (ℕ → Run env → Option B)
      → Option B
  after_command why (r, none) cut next = cut (stop env why r)
  after_command why (r, some t) cut next = next t r

  -- A procedure starts only with readable registers and before any abort.
  abbrev pub unless_stopped {ℓ} : {B : Type ℓ} → Run env → (NotRun → B) → (Run env → B) → B
  unless_stopped r give_up next = elim r.dcr_ok [
    | false ↦ give_up no_registers
    | true ↦ elim r.abort [ none ↦ next r | some why ↦ give_up (not_started why) ]
  ]

  abbrev pub forget_if : ℕ → Run env × Bool → Run env
  forget_if ch (r, true) = record r { touched = set ch false r.touched }
  forget_if ch (r, false) = r

  -- The restore of a channel at the end of a procedure: the channel is not touched any more if that succeeds.
  unfoldable pub give_back : ℕ → Run env → Run env
  unfolding restore set
  give_back ch r = forget_if ch (restore env ch r)
