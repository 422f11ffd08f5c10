-- ===== src/Runner/Restoring/Homes.antt =====
-- What a run relies on when it restores a channel, and what the restore of one channel then does.
use minisforum_n5pro_fan_pro.Prelude.{
  ℕ, zero, suc, ◌-◌, ◌≡◌, ◌≢◌, refl, ◌∙◌, Bool, true, false, Option, none, some, List, ◌==◌, leb,
  split-bool, split-if, arith, Bool-cases, inl, inr,
}
use minisforum_n5pro_fan_pro.Spec.Tables.{settle, judged_regs}
use minisforum_n5pro_fan_pro.Runner.Env.{Env, Dcr, Restoring, done, unverified, failed}
use minisforum_n5pro_fan_pro.Runner.Settle.{
  Settled, Ending, reached, timed_out, cancelled, unavailable, poll_wait, at_target, judge_read,
  wait_dcr,
}
use minisforum_n5pro_fan_pro.Runner.State.{Run, set}
use minisforum_n5pro_fan_pro.Runner.Restoring.{
  hot_channel, compared, after_wait, settle_hot, save_hot, write_hot, restore_hot, after_restore,
  restore,
}

-- `Home ch w`: in the state w the channel is where a run may leave it, at its restore value or at the 255 of a
-- temperature abort. No operation takes another channel from there, readings and sleeps none, and a restore that
-- is not refused, like manual mode and 255 together, brings its channel there.
pub record Homes (env : Env) (Home : ℕ → env.World → Type 0) : Type 0 where
  pub sleep_keeps : (d : ℕ) (w : env.World) (c : ℕ) → Home c w → Home c (env.sleep d w).0
  pub dcr_keeps : (w : env.World) (c : ℕ) → Home c w → Home c (env.dcr w).0
  pub read_keeps : (w : env.World) (c : ℕ) → Home c w → Home c (env.read w).0
  pub foreign_keeps : (w : env.World) (c : ℕ) → Home c w → Home c (env.foreign w).0
  pub before_write_keeps : (w : env.World) (c : ℕ) → Home c w → Home c (env.before_write w).0
  pub before_hot_keeps :
      (ch : ℕ) (w : env.World) (c : ℕ) → Home c w → Home c (env.before_hot ch w).0
  pub manual_keeps :
      (ch : ℕ) (w : env.World) (c : ℕ) → c ≢ ch → Home c w → Home c (env.enter_manual ch w).0
  pub write_keeps :
      (ch d : ℕ) (w : env.World) (c : ℕ) → c ≢ ch → Home c w → Home c (env.write_duty ch d w).0
  pub auto_keeps : (ch : ℕ) (w : env.World) (c : ℕ) → c ≢ ch → Home c w → Home c (env.auto ch w).0
  pub restore_keeps :
      (ch : ℕ) (w : env.World) (c : ℕ) → c ≢ ch → Home c w → Home c (env.restore ch w).0
  pub restored :
      (ch : ℕ) (w : env.World) → (env.restore ch w).1 ≢ failed → Home ch (env.restore ch w).0
  pub hot_set :
      (ch : ℕ) (w : env.World)
      → (env.enter_manual ch w).1 ≡ true
      → (env.write_duty ch 255 (env.enter_manual ch w).0).1 ≡ true
      → Home ch (env.write_duty ch 255 (env.enter_manual ch w).0).0

abbrev pub Kept : (env : Env) → (env.World → Type 0) → Option (env.World × Settled) → Type 0
Kept env P none = Unit
Kept env P (some (w, s)) = P w

-- A wait for the registers keeps what sleeps and readings keep.
module _ (env : Env) (P : env.World → Type 0)
    (sleeps : (d : ℕ) (w : env.World) → P w → P (env.sleep d w).0)
    (reads : (w : env.World) → P w → P (env.dcr w).0) (t0 : ℕ) (regs : List ℕ)
    (want least timeout : ℕ) where
  open env use {World, now, sleep, dcr}

  judge_read-Kept :
      (el : ℕ) (w : World) (o have : Option Dcr) (again : Option Dcr → ℕ → Option (World × Settled))
      → P w
      → ((d : Option Dcr) (last : ℕ) → Kept env P (again d last))
      → Kept env P (judge_read env t0 regs want least timeout el w o have again)
  judge_read-Kept el w (some d) have again p keep = elim (Bool-cases (at_target want d regs)) [
    | inl e ↦ rw e p
    | inr e ↦
        rw e
          (elim (Bool-cases (leb timeout el)) [ inl f ↦ rw f p | inr f ↦ rw f (keep (some d) el) ])
  ]
  judge_read-Kept el w none none again p keep = p
  judge_read-Kept el w none (some d) again p keep = elim (Bool-cases (leb timeout el)) [
    | inl f ↦ rw f p
    | inr f ↦ rw f (keep (some d) el)
  ]

  pub wait_dcr-Kept :
      (fuel : ℕ) (have : Option Dcr) (after : ℕ) (w : World)
      → P w
      → Kept env P (wait_dcr env t0 regs want least timeout fuel have after w)
  unfolding wait_dcr
  wait_dcr-Kept zero have after w p = tt
  wait_dcr-Kept (suc fuel) have after w p =
      split-bool (Kept env P) (leb least (now w - t0)) _ _
        (λ _. judge_read-Kept (now w - t0) (dcr w).0 (dcr w).1 have _ (reads w p) (λ d last.
          split-bool (Kept env P) (sleep (poll_wait (now w - t0) least) (dcr w).0).1 _ _
            (λ _. wait_dcr-Kept fuel d last _ (sleeps _ _ (reads w p)))
            (λ _. sleeps _ _ (reads w p))))
        (λ _.
          split-bool (Kept env P) (sleep (poll_wait (now w - t0) least) w).1 _ _
            (λ _. wait_dcr-Kept fuel have after _ (sleeps _ _ p)) (λ _. sleeps _ _ p))

module _ (env : Env) (Home : ℕ → env.World → Type 0) (laws : Homes env Home) where
  open env use {World}
  open laws use {
    sleep_keeps, dcr_keeps, before_hot_keeps, manual_keeps, write_keeps, restore_keeps, hot_set,
  }

  -- The restore of `ch` keeps the other channels where they are, brings `ch` home unless it fails, and leaves the
  -- list of touched channels alone.
  pub record Restores (ch : ℕ) (r : Run env) (o : Run env × Bool) : Type 0 where
    pub others : (c : ℕ) → c ≢ ch → Home c r.world → Home c o.0.world
    pub own : o.1 ≡ true → Home ch o.0.world
    pub same : o.0.touched ≡ r.touched

  -- One state is no worse than another for all channels.
  pub record NoWorse (r q : Run env) : Type 0 where
    pub homes : (c : ℕ) → Home c r.world → Home c q.world
    pub same : q.touched ≡ r.touched

  compared-NoWorse : (ch : ℕ) (e : Ending) (r : Run env) → NoWorse r (compared env ch e r)
  compared-NoWorse ch reached r = record { homes = λ c h. h; same = refl }
  compared-NoWorse ch unavailable r = record { homes = λ c h. h; same = refl }
  compared-NoWorse ch timed_out r = record { homes = λ c h. h; same = refl }
  compared-NoWorse ch cancelled r = record { homes = λ c h. h; same = refl }

  after_wait-NoWorse :
      (ch : ℕ) (r : Run env) (o : Option (World × Settled))
      → ((c : ℕ) → Home c r.world → Kept env (Home c) o)
      → NoWorse r (after_wait env ch r o)
  after_wait-NoWorse ch r none h = record { homes = λ c h. h; same = refl }
  after_wait-NoWorse ch r (some (w, s)) h =
      let after = compared-NoWorse ch s.ending (record r { world = w }) in
      record { homes = λ c x. after.homes c (h c x); same = after.same }

  settle_hot-NoWorse : (ch t0 : ℕ) (r : Run env) → NoWorse r (settle_hot env ch t0 r)
  unfolding settle_hot
  settle_hot-NoWorse ch t0 r =
      split-if (NoWorse r) r.dcr_ok
        (after_wait env ch r (
          wait_dcr env t0 (judged_regs ch) 255 (settle ch) (settle ch) (suc (settle ch)) none 0
            r.world))
        _
        (λ _. after_wait-NoWorse ch r _ (λ c.
          wait_dcr-Kept env (Home c) (λ d w. sleep_keeps d w c) (λ w. dcr_keeps w c) t0
            (judged_regs ch) 255 (settle ch) (settle ch) (suc (settle ch)) none 0 r.world))
        (λ _. record { homes = λ c h. h; same = refl })

  set_other : (ch c : ℕ) (v : Bool) (m : ℕ → Bool) → c ≢ ch → set ch v m c ≡ m c
  unfolding set
  set_other ch c v m ne = ground (arith, ne)

  save_hot-NoWorse : (ch : ℕ) (r : Run env) → NoWorse r (save_hot env ch r)
  save_hot-NoWorse ch r = elim (Bool-cases (env.before_hot ch r.world).1) [
    | inl e ↦ rw e (record { homes = λ c h. before_hot_keeps ch r.world c h; same = refl })
    | inr e ↦ rw e (record { homes = λ c h. before_hot_keeps ch r.world c h; same = refl })
  ]

  write_hot-keeps : (ch : ℕ) (w : World) (c : ℕ) → c ≢ ch → Home c w → Home c (write_hot env ch w).0
  unfolding write_hot
  write_hot-keeps ch w c ne h = elim (Bool-cases (env.enter_manual ch w).1) [
    | inl e ↦ rw e (write_keeps ch 255 _ c ne (manual_keeps ch w c ne h))
    | inr e ↦ rw e (manual_keeps ch w c ne h)
  ]

  write_hot-Home :
      (ch : ℕ) (w : World) → (write_hot env ch w).1 ≡ true → Home ch (write_hot env ch w).0
  unfolding write_hot
  write_hot-Home ch w h = elim (Bool-cases (env.enter_manual ch w).1) [
    | inl e ↦ rw e (hot_set ch w e (rw e at h))
    | inr e ↦ absurd (ground (arith, h, e))
  ]

  restore_hot-Restores : (ch : ℕ) (r : Run env) → Restores ch r (restore_hot env ch r)
  unfolding restore_hot
  restore_hot-Restores ch r =
      let saved = save_hot-NoWorse ch r in
      let q = save_hot env ch r in
      elim (Bool-cases (write_hot env ch q.world).1) [
        | inl fine ↦
            let settled = settle_hot-NoWorse ch (env.now q.world) (record q {
              world = (write_hot env ch q.world).0;
              overrides = set ch true q.overrides;
              restore_err = set ch false q.restore_err;
            }) in
            rw fine (record {
              others =
                  λ c ne h. settled.homes c (write_hot-keeps ch q.world c ne (saved.homes c h));
              own = λ _. settled.homes ch (write_hot-Home ch q.world fine);
              same = settled.same ∙ saved.same;
            })
        | inr bad ↦ rw bad (record {
          others = λ c ne h. write_hot-keeps ch q.world c ne (saved.homes c h);
          own = λ h. cc;
          same = saved.same;
        })
      ]

  after_restore-Restores :
      (ch : ℕ) (r : Run env) (w : World) (how : Restoring)
      → ((c : ℕ) → c ≢ ch → Home c r.world → Home c w)
      → (how ≢ failed → Home ch w)
      → Restores ch r (after_restore env ch r w how)
  after_restore-Restores ch r w done keep home = record {
    others = keep;
    own = λ _. home (λ e. cc);
    same = refl;
  }
  after_restore-Restores ch r w unverified keep home = record {
    others = keep;
    own = λ _. home (λ e. cc);
    same = refl;
  }
  after_restore-Restores ch r w failed keep home = record {
    others = keep;
    own = λ h. cc;
    same = refl;
  }

  pub restore-Restores : (ch : ℕ) (r : Run env) → Restores ch r (restore env ch r)
  unfolding restore
  restore-Restores ch r = elim (Bool-cases (ch == hot_channel env r)) [
    | inl e ↦ rw e (restore_hot-Restores ch r)
    | inr e ↦ rw e (
        after_restore-Restores ch r _ _ (λ c ne h. restore_keeps ch r.world c ne h)
          (laws.restored ch r.world))
  ]
