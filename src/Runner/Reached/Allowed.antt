-- ===== src/Runner/Reached/Allowed.antt =====
-- What the writes of a run may do to the machine: before the state file is there nothing but read, after that write duties in
-- 100..255 and commands.
use mathlib.Core.Path.{subst}
use minisforum_n5pro_fan_pro.Prelude.{
  ℕ, ◌≤◌, ◌≡◌, refl, sym, ◌∙◌, Bool, true, false, ◌||◌, Option, ltb, arith, split-if,
}
use minisforum_n5pro_fan_pro.Runner.Env.{Env}
use minisforum_n5pro_fan_pro.Runner.State.{
  Run, Event, wrote_duty, write_failed, manual_mode, manual_failed, auto_sent, auto_failed, act,
  after_first, first_write, write, manual, send_auto,
}
use minisforum_n5pro_fan_pro.Runner.Kept.{Property, Outlasts}

-- `Allowed b w` is a property of the machine that reading, sleeping and a refused state file keep; `b` is whether
-- the state file is there. Once it is, commands, restores and the writing of a duty in 100..255 keep it too.
pub record Discipline (env : Env) (Allowed : Bool → env.World → Type 0) : Type 0 where
  pub sleep_keeps : (b : Bool) (d : ℕ) (w : env.World) → Allowed b w → Allowed b (env.sleep d w).0
  pub dcr_keeps : (b : Bool) (w : env.World) → Allowed b w → Allowed b (env.dcr w).0
  pub read_keeps : (b : Bool) (w : env.World) → Allowed b w → Allowed b (env.read w).0
  pub foreign_keeps : (b : Bool) (w : env.World) → Allowed b w → Allowed b (env.foreign w).0
  pub opens :
      (w : env.World) → Allowed false w → Allowed (env.before_write w).1 (env.before_write w).0
  pub hot_keeps : (ch : ℕ) (w : env.World) → Allowed true w → Allowed true (env.before_hot ch w).0
  pub manual_keeps :
      (ch : ℕ) (w : env.World) → Allowed true w → Allowed true (env.enter_manual ch w).0
  pub write_keeps :
      (ch d : ℕ) (w : env.World)
      → 100 ≤ d
      → d ≤ 255
      → Allowed true w
      → Allowed true (env.write_duty ch d w).0
  pub auto_keeps : (ch : ℕ) (w : env.World) → Allowed true w → Allowed true (env.auto ch w).0
  pub restore_keeps : (ch : ℕ) (w : env.World) → Allowed true w → Allowed true (env.restore ch w).0

module _ (env : Env) (Allowed : Bool → env.World → Type 0) (laws : Discipline env Allowed) where
  open env use {World}
  open laws use {
    sleep_keeps, dcr_keeps, read_keeps, foreign_keeps, opens, hot_keeps, manual_keeps, write_keeps,
    auto_keeps, restore_keeps,
  }

  -- A run that has not written has not touched any channel either.
  abbrev pub Sound : Property env
  Sound w t wrote = Allowed wrote w × (wrote ≡ false → (c : ℕ) → t c ≡ false)

  abbrev pub Fine : Run env → Type 0
  Fine r = Sound r.world r.touched r.wrote

  abbrev pub Open : Run env → Type 0
  Open r = (r.wrote ≡ true) × Allowed true r.world

  pub outlasts : Outlasts env Sound
  outlasts = record {
    sleep_keeps = λ d w t wrote h. (sleep_keeps wrote d w h.0, h.1);
    dcr_keeps = λ w t wrote h. (dcr_keeps wrote w h.0, h.1);
    read_keeps = λ w t wrote h. (read_keeps wrote w h.0, h.1);
    foreign_keeps = λ w t wrote h. (foreign_keeps wrote w h.0, h.1);
  }

  pub Fine-Open : (r : Run env) → Fine r → r.wrote ≡ true → Open r
  Fine-Open r h e = (e, subst (λ b. Allowed b r.world) e h.0)

  pub Open-Fine : (r : Run env) → Open r → Fine r
  Open-Fine r h = (subst (λ b. Allowed b r.world) (sym h.0) h.1, λ f. absurd (ground (arith, h, f)))

  first_write-Fine :
      (r : Run env)
      → Fine r
      → Fine (first_write env r).0
        × ((first_write env r).1 ≡ true → (first_write env r).0.wrote ≡ true)
  unfolding first_write
  first_write-Fine r h =
      split-if {A = Run env × Bool} (λ o. Fine o.0 × (o.1 ≡ true → o.0.wrote ≡ true)) r.wrote _ _
        (λ e. (h, λ _. e))
        (λ e.
          let calm = subst (λ b. Allowed b r.world) e h.0 in
          let after = opens r.world calm in
          split-if {A = Run env × Bool} (λ o. Fine o.0 × (o.1 ≡ true → o.0.wrote ≡ true))
            (env.before_write r.world).1 _ _
            (λ f.
              ((subst (λ b. Allowed b (env.before_write r.world).0) f after, λ g. cc), λ _. refl))
            (λ f. (
              (subst (λ b. Allowed b (env.before_write r.world).0) (f ∙ sym e) after, h.1),
              λ g. cc,
            )))

  act-Open :
      (ch : ℕ) (call : World → World × Bool) (good bad : Event) (r : Run env)
      → ((w : World) → Allowed true w → Allowed true (call w).0)
      → Open r
      → Open (act env ch call good bad r).0
  act-Open ch call good bad r keep h =
      split-if {A = Run env × Option ℕ} (λ o. Open o.0) (call r.world).1 _ _
        (λ _. (h.0, keep r.world h.1)) (λ _. (h.0, keep r.world h.1))

  after_first-Fine :
      (next : Run env → Run env × Option ℕ) (o : Run env × Bool)
      → ((q : Run env) → Open q → Open (next q).0)
      → Fine o.0 × (o.1 ≡ true → o.0.wrote ≡ true)
      → Fine (after_first env next o).0
  after_first-Fine next (q, true) keep h =
      Open-Fine (next q).0 (keep q (Fine-Open q h.0 (h.1 refl)))
  after_first-Fine next (q, false) keep h = h.0

  acts-Fine :
      (ch : ℕ) (call : World → World × Bool) (good bad : Event) (r : Run env)
      → ((w : World) → Allowed true w → Allowed true (call w).0)
      → Fine r
      → Fine (after_first env (act env ch call good bad) (first_write env r)).0
  acts-Fine ch call good bad r keep h =
      after_first-Fine (act env ch call good bad) (first_write env r)
        (λ q. act-Open ch call good bad q keep) (first_write-Fine r h)

  pub write-Fine : (ch duty : ℕ) (r : Run env) → Fine r → Fine (write env ch duty r).0
  unfolding write
  write-Fine ch duty r h =
      split-if {A = Run env × Option ℕ} (λ o. Fine o.0) (ltb duty 100 || ltb 255 duty) _ _ (λ _. h)
        (λ e.
          acts-Fine ch (env.write_duty ch duty) (wrote_duty ch duty) (write_failed ch duty) r
            (λ w. write_keeps ch duty w (ground (arith, e)) (ground (arith, e))) h)

  pub manual-Fine : (ch : ℕ) (r : Run env) → Fine r → Fine (manual env ch r).0
  unfolding manual
  manual-Fine ch r h =
      acts-Fine ch (env.enter_manual ch) (manual_mode ch) (manual_failed ch) r (manual_keeps ch) h

  pub send_auto-Fine : (ch : ℕ) (r : Run env) → Fine r → Fine (send_auto env ch r).0
  unfolding send_auto
  send_auto-Fine ch r h =
      acts-Fine ch (env.auto ch) (auto_sent ch) (auto_failed ch) r (auto_keeps ch) h
