-- ===== src/Runner/Reached/Orderly.antt =====
-- What `Close`, and any sequence of operations, may do to the machine.
use minisforum_n5pro_fan_pro.Prelude.{
  ℕ, suc, ◌≡◌, refl, inl, inr, Bool, true, false, ◌||◌, ◌&&◌, not, Option, none, some, List, [],
  ◌∷◌, ltb, ◌==◌, arith, Bool-cases, split-if,
}
use minisforum_n5pro_fan_pro.Spec.Tables.{settle, judged_regs}
use minisforum_n5pro_fan_pro.Runner.Env.{Env, Config, Restoring, done, unverified, failed}
use minisforum_n5pro_fan_pro.Runner.Settle.{
  Settled, Ending, reached, timed_out, cancelled, unavailable, wait_dcr,
}
use minisforum_n5pro_fan_pro.Runner.State.{Run, set, new_runner}
use minisforum_n5pro_fan_pro.Runner.Restoring.{
  channels, hot_channel, compared, after_wait, settle_hot, save_hot, write_hot, restore_hot,
  after_restore, restore, close_one, close_channels, touch_hot, close,
}
use minisforum_n5pro_fan_pro.Runner.Restoring.Homes.{Kept, wait_dcr-Kept}
use minisforum_n5pro_fan_pro.Runner.Kept.{sample_at-Kept, hold_from-Kept, stop-Kept}
use minisforum_n5pro_fan_pro.Runner.Reached.{
  Reached, begun, written, in_manual, handed_back, sampled, held, stopped, closed, logged,
  given_back, limits_seen,
}
use minisforum_n5pro_fan_pro.Runner.Steps.{forget_if, give_back}
use minisforum_n5pro_fan_pro.Runner.Reached.Allowed.{
  Discipline, Fine, Open, outlasts, Fine-Open, Open-Fine, write-Fine, manual-Fine, send_auto-Fine,
}

module _ (env : Env) (Allowed : Bool → env.World → Type 0) (laws : Discipline env Allowed) where
  open env use {World}
  open laws use {sleep_keeps, dcr_keeps, hot_keeps, manual_keeps, write_keeps, restore_keeps}

  abbrev Opened : Run env → Type 0
  Opened r = Open env Allowed laws r

  abbrev Keeps : Run env → Type 0
  Keeps r = Fine env Allowed laws r

  compared-Opened : (ch : ℕ) (e : Ending) (r : Run env) → Opened r → Opened (compared env ch e r)
  compared-Opened ch reached r h = h
  compared-Opened ch unavailable r h = h
  compared-Opened ch timed_out r h = h
  compared-Opened ch cancelled r h = h

  after_wait-Opened :
      (ch : ℕ) (r : Run env) (o : Option (World × Settled))
      → Opened r
      → Kept env (Allowed true) o
      → Opened (after_wait env ch r o)
  after_wait-Opened ch r none h k = h
  after_wait-Opened ch r (some (w, s)) h k =
      compared-Opened ch s.ending (record r { world = w }) (h.0, k)

  settle_hot-Opened : (ch t0 : ℕ) (r : Run env) → Opened r → Opened (settle_hot env ch t0 r)
  unfolding settle_hot
  settle_hot-Opened ch t0 r h =
      split-if Opened r.dcr_ok
        (after_wait env ch r (
          wait_dcr env t0 (judged_regs ch) 255 (settle ch) (settle ch) (suc (settle ch)) none 0
            r.world))
        _
        (λ _. after_wait-Opened ch r _ h (
          wait_dcr-Kept env (Allowed true) (sleep_keeps true) (dcr_keeps true) t0 (judged_regs ch)
            255 (settle ch) (settle ch) (suc (settle ch)) none 0 r.world h.1))
        (λ _. h)

  save_hot-Opened : (ch : ℕ) (r : Run env) → Opened r → Opened (save_hot env ch r)
  save_hot-Opened ch r h =
      split-if Opened (env.before_hot ch r.world).1 _ _ (λ _. (h.0, hot_keeps ch r.world h.1))
        (λ _. (h.0, hot_keeps ch r.world h.1))

  write_hot-keeps : (ch : ℕ) (w : World) → Allowed true w → Allowed true (write_hot env ch w).0
  unfolding write_hot
  write_hot-keeps ch w h =
      split-if {A = World × Bool} (λ o. Allowed true o.0) (env.enter_manual ch w).1 _ _
        (λ _. write_keeps ch 255 _ (omega arith) (omega arith) (manual_keeps ch w h))
        (λ _. manual_keeps ch w h)

  restore_hot-Opened : (ch : ℕ) (r : Run env) → Opened r → Opened (restore_hot env ch r).0
  unfolding restore_hot
  restore_hot-Opened ch r h =
      let q = save_hot env ch r in
      let saved = save_hot-Opened ch r h in
      split-if {A = Run env × Bool} (λ o. Opened o.0) (write_hot env ch q.world).1 _ _
        (λ _.
          settle_hot-Opened ch (env.now q.world)
            (record q {
              world = (write_hot env ch q.world).0;
              overrides = set ch true q.overrides;
              restore_err = set ch false q.restore_err;
            })
            (saved.0, write_hot-keeps ch q.world saved.1))
        (λ _. (saved.0, write_hot-keeps ch q.world saved.1))

  after_restore-Opened :
      (ch : ℕ) (r : Run env) (w : World) (how : Restoring)
      → r.wrote ≡ true
      → Allowed true w
      → Opened (after_restore env ch r w how).0
  after_restore-Opened ch r w done e k = (e, k)
  after_restore-Opened ch r w unverified e k = (e, k)
  after_restore-Opened ch r w failed e k = (e, k)

  restore-Opened : (ch : ℕ) (r : Run env) → Opened r → Opened (restore env ch r).0
  unfolding restore
  restore-Opened ch r h =
      split-if {A = Run env × Bool} (λ o. Opened o.0) (ch == hot_channel env r)
        (restore_hot env ch r)
        (after_restore env ch r (env.restore ch r.world).0 (env.restore ch r.world).1)
        (λ _. restore_hot-Opened ch r h)
        (λ _.
          after_restore-Opened ch r _ (env.restore ch r.world).1 h.0 (restore_keeps ch r.world h.1))

  forget_if-Keeps : (ch : ℕ) (o : Run env × Bool) → Opened o.0 → Keeps (forget_if env ch o)
  forget_if-Keeps ch (q, true) h =
      Open-Fine env Allowed laws (record q { touched = set ch false q.touched }) h
  forget_if-Keeps ch (q, false) h = Open-Fine env Allowed laws q h

  give_back-Keeps : (ch : ℕ) (r : Run env) → Opened r → Keeps (give_back env ch r)
  unfolding give_back
  give_back-Keeps ch r h = forget_if-Keeps ch (restore env ch r) (restore-Opened ch r h)

  -- A touched channel says that the run has written.
  touched_Opened : (ch : ℕ) (r : Run env) → Keeps r → r.touched ch ≡ true → Opened r
  touched_Opened ch r h e = elim (Bool-cases r.wrote) [
    | inl wrote ↦ Fine-Open env Allowed laws r h wrote
    | inr calm ↦ absurd (ground (arith, h.1 calm ch, e))
  ]

  close_one-Keeps :
      (ch : ℕ) (r : Run env) (o : Run env × Bool)
      → (Opened r → Opened o.0)
      → Keeps r
      → Keeps (close_one env ch r o)
  close_one-Keeps ch r (q, fine) restores h =
      split-if Keeps (not (r.touched ch)) _ _ (λ _. h)
        (λ e.
          let now_open = restores (touched_Opened ch r h (ground (arith, e))) in
          split-if Keeps fine _ _
            (λ _.
              Open-Fine env Allowed laws (record q { touched = set ch false q.touched }) now_open)
            (λ _. Open-Fine env Allowed laws q now_open))

  close_channels-Keeps : (chs : List ℕ) (r : Run env) → Keeps r → Keeps (close_channels env chs r)
  unfolding close_channels
  close_channels-Keeps [] r h = h
  close_channels-Keeps (ch ∷ chs) r h =
      close_channels-Keeps chs _ (close_one-Keeps ch r (restore env ch r) (restore-Opened ch r) h)

  calm_hot : (r : Run env) → r.wrote ≡ false → hot_channel env r ≡ 0
  unfolding hot_channel
  calm_hot r calm =
      split-if (λ n. n ≡ 0) (r.hot == 0 || not r.wrote) 0 r.hot (λ _. refl)
        (λ e. absurd (ground (arith, e, calm)))

  touch_hot-Keeps : (r : Run env) → Keeps r → Keeps (touch_hot env r)
  unfolding touch_hot
  touch_hot-Keeps r h =
      split-if Keeps (ltb 0 (hot_channel env r) && not (r.overrides (hot_channel env r))) _ _
        (λ e. (h.0, λ calm. absurd (ground (arith, e, calm_hot r calm)))) (λ _. h)

  close-Keeps : (r : Run env) → Keeps r → Keeps (close env r)
  unfolding close
  close-Keeps r h = close_channels-Keeps channels _ (touch_hot-Keeps r h)

  module _ (cfg : Config) (w : World) (start : Allowed false w) where
    Reached-Keeps : (r : Run env) → Reached env cfg w r → Keeps r
    unfolding new_runner
    Reached-Keeps r begun = (dcr_keeps false w start, λ _ c. refl)
    Reached-Keeps r (written ch duty q s) =
        write-Fine env Allowed laws ch duty q (Reached-Keeps q s)
    Reached-Keeps r (in_manual ch q s) = manual-Fine env Allowed laws ch q (Reached-Keeps q s)
    Reached-Keeps r (handed_back ch q s) = send_auto-Fine env Allowed laws ch q (Reached-Keeps q s)
    Reached-Keeps r (sampled phase duty due q s) =
        sample_at-Kept env _ (outlasts env Allowed laws) cfg phase duty due q (Reached-Keeps q s)
    Reached-Keeps r (held anchor phase duty d q h s e) =
        hold_from-Kept env _ (outlasts env Allowed laws) cfg anchor phase duty d q h
          (Reached-Keeps q s) e
    Reached-Keeps r (stopped why q s) =
        stop-Kept env _ (outlasts env Allowed laws) cfg why q (Reached-Keeps q s)
    Reached-Keeps r (closed q s) = close-Keeps q (Reached-Keeps q s)
    Reached-Keeps r (logged e q s) = Reached-Keeps q s
    Reached-Keeps r (given_back ch q s away) =
        give_back-Keeps ch q (touched_Opened ch q (Reached-Keeps q s) away)
    Reached-Keeps r (limits_seen seen q s) = Reached-Keeps q s

    -- Let `Allowed` be any property of the machine that sleeps, readings and `BeforeWrite` keep, that commands,
    -- restores and `BeforeHot` keep once `BeforeWrite` has succeeded, and the writing of a duty then too if the
    -- duty is in 100..255 (the laws `Discipline`). When it holds at the start of a run, it holds in every state
    -- that the run reaches by writes, commands, samples, holds, stops, closes, log
    -- entries and restores of touched channels.
    pub Reached-Allowed : (r : Run env) → Reached env cfg w r → Allowed r.wrote r.world
    Reached-Allowed r s = (Reached-Keeps r s).0
