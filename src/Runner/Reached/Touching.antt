-- ===== src/Runner/Reached/Touching.antt =====
-- A command marks its channel as touched, and nothing but a restore takes that mark away.
use minisforum_n5pro_fan_pro.Prelude.{
  ℕ, ◌≡◌, Bool, true, false, ◌||◌, Option, some, ltb, arith, split-if,
}
use minisforum_n5pro_fan_pro.Spec.Sample.{Phase}
use minisforum_n5pro_fan_pro.Runner.Env.{Env, Config}
use minisforum_n5pro_fan_pro.Runner.State.{
  Run, Event, AbortReason, wrote_duty, write_failed, manual_mode, manual_failed, auto_sent,
  auto_failed, set, act, after_first, first_write, write, manual, send_auto, stop,
}
use minisforum_n5pro_fan_pro.Runner.Hold.{Held, hold_from}
use minisforum_n5pro_fan_pro.Runner.Kept.{Property, Outlasts, hold_from-Kept, stop-Kept}
use minisforum_n5pro_fan_pro.Runner.Reached.{
  Reached, written, in_manual, handed_back, held, stopped,
}

module _ (env : Env) where
  open env use {World}

  set-keeps : (ch c : ℕ) (m : ℕ → Bool) → m c ≡ true → set ch true m c ≡ true
  unfolding set
  set-keeps ch c m h = ground (arith, h)

  set_self : (ch : ℕ) (m : ℕ → Bool) → set ch true m ch ≡ true
  unfolding set
  set_self ch m = ground arith

  module _ (ch : ℕ) (call : World → World × Bool) (good bad : Event) where
    act-touches : (r : Run env) → (act env ch call good bad r).0.touched ch ≡ true
    act-touches r =
        split-if {A = Run env × Option ℕ} (λ o. o.0.touched ch ≡ true) (call r.world).1 _ _
          (λ _. set_self ch r.touched) (λ _. set_self ch r.touched)

    after_first-touches :
        (o : Run env × Bool) (t : ℕ)
        → (after_first env (act env ch call good bad) o).1 ≡ some t
        → (after_first env (act env ch call good bad) o).0.touched ch ≡ true
    after_first-touches (q, true) t h = act-touches q
    after_first-touches (q, false) t h = cc

    act-keeps :
        (c : ℕ) (r : Run env) → r.touched c ≡ true → (act env ch call good bad r).0.touched c ≡ true
    act-keeps c r h =
        split-if {A = Run env × Option ℕ} (λ o. o.0.touched c ≡ true) (call r.world).1 _ _
          (λ _. set-keeps ch c r.touched h) (λ _. set-keeps ch c r.touched h)

    after_first-keeps :
        (c : ℕ) (o : Run env × Bool)
        → o.0.touched c ≡ true
        → (after_first env (act env ch call good bad) o).0.touched c ≡ true
    after_first-keeps c (q, true) h = act-keeps c q h
    after_first-keeps c (q, false) h = h

  first_write-keeps :
      (c : ℕ) (r : Run env) → r.touched c ≡ true → (first_write env r).0.touched c ≡ true
  unfolding first_write
  first_write-keeps c r h =
      split-if {A = Run env × Bool} (λ o. o.0.touched c ≡ true) r.wrote _ _ (λ _. h)
        (λ _.
          split-if {A = Run env × Bool} (λ o. o.0.touched c ≡ true) (env.before_write r.world).1 _ _
            (λ _. h) (λ _. h))

  module _ (cfg : Config) (w : World) (ch : ℕ) where
    -- A state that the run reaches, in which the channel is touched.
    abbrev pub Away : Run env → Type 0
    Away r = Reached env cfg w r × (r.touched ch ≡ true)

    pub manual-Away :
        (r : Run env) (t : ℕ)
        → Reached env cfg w r
        → (manual env ch r).1 ≡ some t
        → Away (manual env ch r).0
    unfolding manual
    manual-Away r t s h = (
      in_manual ch r s,
      after_first-touches ch (env.enter_manual ch) (manual_mode ch) (manual_failed ch)
          (first_write env r) t h,
    )

    pub send_auto-Away :
        (r : Run env) (t : ℕ)
        → Reached env cfg w r
        → (send_auto env ch r).1 ≡ some t
        → Away (send_auto env ch r).0
    unfolding send_auto
    send_auto-Away r t s h = (
      handed_back ch r s,
      after_first-touches ch (env.auto ch) (auto_sent ch) (auto_failed ch) (first_write env r) t h,
    )

    pub manual-keeps_Away : (r : Run env) → Away r → Away (manual env ch r).0
    unfolding manual
    manual-keeps_Away r s = (
      in_manual ch r s.0,
      after_first-keeps ch (env.enter_manual ch) (manual_mode ch) (manual_failed ch) ch
          (first_write env r) (first_write-keeps ch r s.1),
    )

    pub send_auto-keeps_Away : (r : Run env) → Away r → Away (send_auto env ch r).0
    unfolding send_auto
    send_auto-keeps_Away r s = (
      handed_back ch r s.0,
      after_first-keeps ch (env.auto ch) (auto_sent ch) (auto_failed ch) ch (first_write env r)
          (first_write-keeps ch r s.1),
    )

    pub write-keeps_Away : (duty : ℕ) (r : Run env) → Away r → Away (write env ch duty r).0
    unfolding write
    write-keeps_Away duty r s = (
      written ch duty r s.0,
      split-if {A = Run env × Option ℕ} (λ o. o.0.touched ch ≡ true) (ltb duty 100 || ltb 255 duty)
          _ _ (λ _. s.1)
          (λ _.
            after_first-keeps ch (env.write_duty ch duty) (wrote_duty ch duty)
              (write_failed ch duty) ch (first_write env r) (first_write-keeps ch r s.1)),
    )

    abbrev Mark : Property env
    Mark v t wrote = t ch ≡ true

    outlasts : Outlasts env Mark
    outlasts = record {
      sleep_keeps = λ d v t wrote h. h;
      dcr_keeps = λ v t wrote h. h;
      read_keeps = λ v t wrote h. h;
      foreign_keeps = λ v t wrote h. h;
    }

    pub stop-Away : (why : AbortReason) (r : Run env) → Away r → Away (stop env why r)
    stop-Away why r s = (stopped why r s.0, stop-Kept env Mark outlasts cfg why r s.1)

    pub hold_from-Away :
        (anchor : ℕ) (phase : Phase) (duty : Option ℕ) (d : ℕ) (r : Run env) (h : Held env)
        → Away r
        → hold_from env cfg anchor phase duty d r ≡ some h
        → Away h.run
    hold_from-Away anchor phase duty d r h s e = (
      held anchor phase duty d r h s.0 e,
      hold_from-Kept env Mark outlasts cfg anchor phase duty d r h s.1 e,
    )
