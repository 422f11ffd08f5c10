-- ===== src/Runner/Restoring.antt =====
-- ectest/internal/runner/runner.go: `HotChannel`, `Close`, `restore`, `restoreHot` and `Unrestored`. The wait for
-- the registers takes as much fuel as it can use, a round for each millisecond of the settle time.
pub mod Homes
pub mod Covered
pub mod HotWait
use minisforum_n5pro_fan_pro.Prelude.{
  ℕ, ◌+◌, suc, Bool, true, false, ◌||◌, ◌&&◌, not, Option, none, some, List, [], ◌∷◌, ◌++◌, leb,
  ltb, ◌==◌, if◌then◌else◌,
}
use minisforum_n5pro_fan_pro.Spec.Tables.{settle, judged_regs}
use minisforum_n5pro_fan_pro.Runner.Env.{Env, Restoring, done, unverified, failed}
use minisforum_n5pro_fan_pro.Runner.Settle.{
  Settled, Ending, reached, timed_out, cancelled, unavailable, wait_dcr,
}
use minisforum_n5pro_fan_pro.Runner.State.{
  Run, Event, restored, restored_differs, restore_failed, hot_restored, hot_differs, hot_failed,
  hot_unsaved, set, log_event,
}

-- The channels that `Close` and `Unrestored` go through.
abbrev pub channels : List ℕ
channels = 1 ∷ 2 ∷ 3 ∷ 4 ∷ []

module _ (env : Env) where
  open env use {World, now, enter_manual, write_duty, before_hot}

  -- Only in a run that wrote.
  unfoldable pub hot_channel : Run env → ℕ
  hot_channel r = if r.hot == 0 || not r.wrote then 0 else r.hot

  -- The outcome of a wait, logged. Without registers there is nothing to compare.
  abbrev pub compared : ℕ → Ending → Run env → Run env
  compared ch reached r = log_event env (hot_restored ch) r
  compared ch unavailable r = log_event env (hot_restored ch) r
  compared ch timed_out r =
      let q = log_event env (hot_differs ch) r in record q { warnings = q.warnings ++ (ch ∷ []) }
  compared ch cancelled r =
      let q = log_event env (hot_differs ch) r in record q { warnings = q.warnings ++ (ch ∷ []) }

  -- `none`: the wait did not end.
  abbrev pub after_wait : ℕ → Run env → Option (World × Settled) → Run env
  after_wait ch r none = r
  after_wait ch r (some (w, s)) = compared ch s.ending (record r { world = w })

  -- The settle wait after 255 was written at `t0`.
  unfoldable pub settle_hot : ℕ → ℕ → Run env → Run env
  unfolding wait_dcr judged_regs settle
  settle_hot ch t0 r =
      if r.dcr_ok
      then after_wait ch r (
          wait_dcr env t0 (judged_regs ch) 255 (settle ch) (settle ch) (suc (settle ch)) none 0
            r.world)
      else log_event env (hot_restored ch) r

  abbrev pub save_hot : ℕ → Run env → Run env
  save_hot ch r =
      let (w, fine) = before_hot ch r.world in
      let q : Run env = record r { world = w } in
      if fine then q else log_event env (hot_unsaved ch) q

  -- Manual mode, then 255 when that was taken.
  unfoldable pub write_hot : ℕ → World → World × Bool
  write_hot ch w =
      let (v, fine) = enter_manual ch w in
      let (u, good) = write_duty ch 255 v in if fine then (u, good) else (v, false)

  unfoldable pub restore_hot : ℕ → Run env → Run env × Bool
  unfolding settle_hot set write_hot
  restore_hot ch r =
      let q = save_hot ch r in
      let (w, fine) = write_hot ch q.world in
      if fine
      then (
        settle_hot ch (now q.world) (record q {
          world = w;
          overrides = set ch true q.overrides;
          restore_err = set ch false q.restore_err;
        }),
        true,
      )
      else (
        log_event env (hot_failed ch)
            (record q { world = w; restore_err = set ch true q.restore_err }),
        false,
      )

  abbrev pub after_restore : ℕ → Run env → World → Restoring → Run env × Bool
  after_restore ch r w done = (
    log_event env (restored ch) (record r { world = w; restore_err = set ch false r.restore_err }),
    true,
  )
  after_restore ch r w unverified =
      let q = log_event env (restored_differs ch) (record r { world = w }) in
      (
        record q { warnings = q.warnings ++ (ch ∷ []); restore_err = set ch false q.restore_err },
        true,
      )
  after_restore ch r w failed = (
    log_event env (restore_failed ch)
        (record r { world = w; restore_err = set ch true r.restore_err }),
    false,
  )

  unfoldable pub restore : ℕ → Run env → Run env × Bool
  unfolding hot_channel restore_hot set
  restore ch r =
      let (w, how) = env.restore ch r.world in
      if ch == hot_channel r then restore_hot ch r else after_restore ch r w how

  -- One turn of the loop of `Close`.
  abbrev pub close_one : ℕ → Run env → Run env × Bool → Run env
  close_one ch r (q, fine) =
      if not (r.touched ch)
      then r
      else if fine
      then record q { touched = set ch false q.touched }
      else q

  unfoldable pub close_channels : List ℕ → Run env → Run env
  unfolding restore set
  close_channels [] r = r
  close_channels (ch ∷ chs) r = close_channels chs (close_one ch r (restore ch r))

  -- The channel of a tripped limit counts as touched.
  unfoldable pub touch_hot : Run env → Run env
  unfolding hot_channel set
  touch_hot r =
      let h = hot_channel r in
      if ltb 0 h && not (r.overrides h) then record r { touched = set h true r.touched } else r

  unfoldable pub close : Run env → Run env
  unfolding touch_hot close_channels
  close r = close_channels channels (touch_hot r)

  unfoldable pub unrestored_of : Run env → List ℕ → List ℕ
  unrestored_of r [] = []
  unrestored_of r (ch ∷ chs) =
      let rest = unrestored_of r chs in if r.touched ch then ch ∷ rest else rest

  -- `Unrestored`: the channels that it lists.
  unfoldable pub unrestored : Run env → List ℕ
  unfolding unrestored_of
  unrestored r = unrestored_of r channels
