-- ===== src/Runner/Restoring/Covered.antt =====
-- The channels that a run has taken from their restore value, and what `Close` does with them.
use mathlib.Core.Path.{subst}
use minisforum_n5pro_fan_pro.Prelude.{
  ℕ, ◌≡◌, ◌≢◌, refl, sym, ap, ◌∙◌, ◌⊎◌, inl, inr, Bool, true, false, ◌&&◌, ◌||◌, not, Option, List,
  [], ◌∷◌, All, Any, All-map, ◌==◌, ltb, arith, Bool-cases, split-if,
}
use minisforum_n5pro_fan_pro.Runner.Env.{Env}
use minisforum_n5pro_fan_pro.Runner.State.{
  Run, Event, wrote_duty, write_failed, manual_mode, manual_failed, auto_sent, auto_failed, set,
  act, after_first, first_write, write, manual, send_auto,
}
use minisforum_n5pro_fan_pro.Runner.Restoring.{
  hot_channel, close_one, close_channels, touch_hot, channels, close, unrestored_of, unrestored,
}
use minisforum_n5pro_fan_pro.Runner.Steps.{forget_if, give_back}
use minisforum_n5pro_fan_pro.Runner.Restoring.Homes.{Homes, Restores, restore-Restores}

module _ (env : Env) (Home : ℕ → env.World → Type 0) (laws : Homes env Home) where
  open env use {World}
  open laws use {before_write_keeps, manual_keeps, write_keeps, auto_keeps}

  -- Every channel that the run does not list as touched is home.
  abbrev pub Covered : Run env → Type 0
  Covered r = (c : ℕ) → r.touched c ≡ false → Home c r.world

  untouched : (ch c : ℕ) (m : ℕ → Bool) → set ch true m c ≡ false → (c ≢ ch) × (m c ≡ false)
  unfolding set
  untouched ch c m h = (λ e. ground (arith, h, e), ground (arith, h))

  set_other : (ch c : ℕ) (m : ℕ → Bool) → (c == ch) ≡ false → set ch false m c ≡ false → m c ≡ false
  unfolding set
  set_other ch c m ne h = ground (arith, ne, h)

  act-Covered :
      (ch : ℕ) (call : World → World × Bool) (good bad : Event) (r : Run env)
      → ((w : World) (c : ℕ) → c ≢ ch → Home c w → Home c (call w).0)
      → Covered r
      → Covered (act env ch call good bad r).0
  act-Covered ch call good bad r keep h = elim (Bool-cases (call r.world).1) [
    | inl e ↦
        rw e (λ c u.
          keep r.world c (untouched ch c r.touched u).0 (h c (untouched ch c r.touched u).1))
    | inr e ↦
        rw e (λ c u.
          keep r.world c (untouched ch c r.touched u).0 (h c (untouched ch c r.touched u).1))
  ]

  first_write-Covered : (r : Run env) → Covered r → Covered (first_write env r).0
  unfolding first_write
  first_write-Covered r h = elim (Bool-cases r.wrote) [
    | inl e ↦ rw e h
    | inr e ↦ rw e (elim (Bool-cases (env.before_write r.world).1) [
      | inl f ↦ rw f (λ c u. before_write_keeps r.world c (h c u))
      | inr f ↦ rw f (λ c u. before_write_keeps r.world c (h c u))
    ])
  ]

  after_first-Covered :
      (next : Run env → Run env × Option ℕ) (o : Run env × Bool)
      → ((q : Run env) → Covered q → Covered (next q).0)
      → Covered o.0
      → Covered (after_first env next o).0
  after_first-Covered next (q, true) keep h = keep q h
  after_first-Covered next (q, false) keep h = h

  acts-Covered :
      (ch : ℕ) (call : World → World × Bool) (good bad : Event) (r : Run env)
      → ((w : World) (c : ℕ) → c ≢ ch → Home c w → Home c (call w).0)
      → Covered r
      → Covered (after_first env (act env ch call good bad) (first_write env r)).0
  acts-Covered ch call good bad r keep h =
      after_first-Covered (act env ch call good bad) (first_write env r)
        (λ q. act-Covered ch call good bad q keep) (first_write-Covered r h)

  pub write-Covered : (ch duty : ℕ) (r : Run env) → Covered r → Covered (write env ch duty r).0
  unfolding write
  write-Covered ch duty r h = elim (Bool-cases (ltb duty 100 || ltb 255 duty)) [
    | inl e ↦ rw e h
    | inr e ↦ rw e (
        acts-Covered ch (env.write_duty ch duty) (wrote_duty ch duty) (write_failed ch duty) r
          (write_keeps ch duty) h)
  ]

  pub manual-Covered : (ch : ℕ) (r : Run env) → Covered r → Covered (manual env ch r).0
  unfolding manual
  manual-Covered ch r h =
      acts-Covered ch (env.enter_manual ch) (manual_mode ch) (manual_failed ch) r (manual_keeps ch)
        h

  pub send_auto-Covered : (ch : ℕ) (r : Run env) → Covered r → Covered (send_auto env ch r).0
  unfolding send_auto
  send_auto-Covered ch r h =
      acts-Covered ch (env.auto ch) (auto_sent ch) (auto_failed ch) r (auto_keeps ch) h

  close_one-Covered :
      (ch : ℕ) (r : Run env) (o : Run env × Bool)
      → Restores env Home laws ch r o
      → Covered r
      → Covered (close_one env ch r o)
  close_one-Covered ch r (q, fine) s h = elim (Bool-cases (r.touched ch)) [
    | inr home ↦ rw home h
    | inl away ↦ rw away (elim (Bool-cases fine) [
      | inl e ↦ rw e (λ c u. elim (Bool-cases (c == ch)) [
        | inl here ↦ subst (λ x. Home x q.world) (ground (arith, here)) (s.own e)
        | inr other ↦
            s.others c (λ i. ground (arith, other, i))
              (h c (ap (λ m. m c) (sym s.same) ∙ set_other ch c q.touched other u))
      ])
      | inr e ↦ rw e (λ c u. s.others c (λ i. cc) (h c (ap (λ m. m c) (sym s.same) ∙ u)))
    ])
  ]

  forget_if-Covered :
      (ch : ℕ) (r : Run env) (o : Run env × Bool)
      → Restores env Home laws ch r o
      → r.touched ch ≡ true
      → Covered r
      → Covered (forget_if env ch o)
  forget_if-Covered ch r (q, true) s away h = λ c u. elim (Bool-cases (c == ch)) [
    | inl here ↦ subst (λ x. Home x q.world) (ground (arith, here)) (s.own refl)
    | inr other ↦
        s.others c (λ i. ground (arith, other, i))
          (h c (ap (λ m. m c) (sym s.same) ∙ set_other ch c q.touched other u))
  ]
  forget_if-Covered ch r (q, false) s away h = λ c u.
      let calm : r.touched c ≡ false = ap (λ m. m c) (sym s.same) ∙ u in
      s.others c (λ i. ground (arith, i, calm, away)) (h c calm)

  pub give_back-Covered :
      (ch : ℕ) (r : Run env) → r.touched ch ≡ true → Covered r → Covered (give_back env ch r)
  unfolding give_back
  give_back-Covered ch r away h =
      forget_if-Covered ch r _ (restore-Restores env Home laws ch r) away h

  close_channels-Covered :
      (chs : List ℕ) (r : Run env) → Covered r → Covered (close_channels env chs r)
  unfolding close_channels
  close_channels-Covered [] r h = h
  close_channels-Covered (ch ∷ chs) r h =
      close_channels-Covered chs _
        (close_one-Covered ch r _ (restore-Restores env Home laws ch r) h)

  touch_hot-Covered : (r : Run env) → Covered r → Covered (touch_hot env r)
  unfolding touch_hot
  touch_hot-Covered r h =
      elim (Bool-cases (ltb 0 (hot_channel env r) && not (r.overrides (hot_channel env r)))) [
        | inl e ↦ rw e (λ c u. h c (untouched (hot_channel env r) c r.touched u).1)
        | inr e ↦ rw e h
      ]

  pub close-Covered : (r : Run env) → Covered r → Covered (close env r)
  unfolding close
  close-Covered r h = close_channels-Covered channels _ (touch_hot-Covered r h)

  listed :
      (r : Run env) (chs : List ℕ)
      → Covered r
      → All (λ ch. Home ch r.world ⊎ Any (λ c. c ≡ ch) (unrestored_of env r chs)) chs
  unfolding unrestored_of
  listed r [] h = tt
  listed r (ch ∷ chs) h =
      split-if (λ u. All (λ c. Home c r.world ⊎ Any (λ x. x ≡ c) u) (ch ∷ chs)) (r.touched ch)
        (ch ∷ unrestored_of env r chs) (unrestored_of env r chs)
        (λ away. (
          inr (inl refl),
          All-map {Q = λ c. Home c r.world ⊎ Any (λ x. x ≡ c) (ch ∷ unrestored_of env r chs)}
              (λ c s. elim s [ inl k ↦ inl k | inr m ↦ inr (inr m) ]) chs (listed r chs h),
        ))
        (λ at_home. (inl (h ch at_home), listed r chs h))

  -- After `Close`, if every channel that was not listed as touched was home before, each of the channels 1..4 is
  -- home or stands in the list of the channels that could not be restored.
  pub close-Listed :
      (r : Run env)
      → Covered r
      → All
          (λ ch. Home ch (close env r).world ⊎ Any (λ c. c ≡ ch) (unrestored env (close env r)))
          channels
  unfolding unrestored
  close-Listed r h = listed (close env r) channels (close-Covered r h)
