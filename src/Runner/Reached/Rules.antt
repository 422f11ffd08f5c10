-- ===== src/Runner/Reached/Rules.antt =====
-- Rules for the procedures: what holds of every result of a computation that gives one.
use mathlib.Core.Path.{subst}
use minisforum_n5pro_fan_pro.Prelude.{ℕ, ◌≡◌, refl, sym, Option, none, some, split-bool}
use minisforum_n5pro_fan_pro.Spec.Sample.{Phase}
use minisforum_n5pro_fan_pro.Runner.Env.{Env, Config}
use minisforum_n5pro_fan_pro.Runner.State.{Run, AbortReason, stop}
use minisforum_n5pro_fan_pro.Runner.Hold.{Held, hold_from}
use minisforum_n5pro_fan_pro.Runner.Hold.Slots.{hold_from-Ends}
use minisforum_n5pro_fan_pro.Runner.Steps.{after_hold, after_command}

-- There is a result, and it has the property.
abbrev pub Gives : {A : Type 0} → (A → Type 0) → Option A → Type 0
Gives P none = ⊥
Gives P (some x) = P x

pub Gives-result :
    {A : Type 0} (P : A → Type 0) (o : Option A) → Gives P o → (x : A) × (o ≡ some x) × P x
Gives-result P none h = absurd h
Gives-result P (some x) h = (x, refl, h)

module _ (env : Env) {B : Type 0} (P : B → Type 0) where
  pub after_hold-Gives :
      (cfg : Config) (anchor : ℕ) (phase : Phase) (duty : Option ℕ) (d : ℕ) (r : Run env)
      (cut full : Held env → Option B)
      → ((h : Held env)
          → hold_from env cfg anchor phase duty d r ≡ some h
          → Gives P (cut h) × Gives P (full h))
      → Gives P (after_hold env (hold_from env cfg anchor phase duty d r) cut full)
  after_hold-Gives cfg anchor phase duty d r cut full gives =
      let (h, ends) = hold_from-Ends env cfg anchor phase duty d r in
      subst (λ o. Gives P (after_hold env o cut full)) (sym ends)
        (split-bool (Gives P) h.full (full h) (cut h) (λ _. (gives h ends).1)
          (λ _. (gives h ends).0))

  pub after_command-Gives :
      (why : AbortReason) (o : Run env × Option ℕ) (cut : Run env → Option B)
      (next : ℕ → Run env → Option B)
      → Gives P (cut (stop env why o.0))
      → ((t : ℕ) → o.1 ≡ some t → Gives P (next t o.0))
      → Gives P (after_command env why o cut next)
  after_command-Gives why (r, none) cut next stops goes = stops
  after_command-Gives why (r, some t) cut next stops goes = goes t refl
