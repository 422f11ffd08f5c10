-- ===== src/Runner/Recorded/Commands.antt =====
-- What commands, writes and restores add to the lists of a run.
use mathlib.Core.Path.{subst}
use minisforum_n5pro_fan_pro.Prelude.{
  ℕ, suc, ◌≡◌, refl, Bool, true, false, ◌||◌, Option, none, some, [], ◌∷◌, ltb, ◌==◌, split-if,
  arith,
}
use minisforum_n5pro_fan_pro.Spec.Tables.{settle, judged_regs}
use minisforum_n5pro_fan_pro.Runner.Env.{Env, Restoring, done, unverified, failed}
use minisforum_n5pro_fan_pro.Runner.Settle.{
  Settled, Ending, reached, timed_out, cancelled, unavailable, wait_dcr,
}
use minisforum_n5pro_fan_pro.Runner.State.{
  Run, Event, wrote_duty, write_failed, manual_mode, manual_failed, restored, restored_differs,
  restore_failed, hot_restored, hot_differs, hot_failed, hot_unsaved, set, act, after_first,
  first_write, write, manual, log_event,
}
use minisforum_n5pro_fan_pro.Runner.Restoring.{
  hot_channel, compared, after_wait, settle_hot, save_hot, write_hot, restore_hot, after_restore,
  restore,
}
use minisforum_n5pro_fan_pro.Runner.Steps.{forget_if, give_back}
use minisforum_n5pro_fan_pro.Runner.Recorded.{
  Silent, Log, Adds, Quietly, log_of, log_event-Adds, log_event-Quietly,
}

module _ (env : Env) where
  open env use {World}

  module _ (a : Log) where
    -- Nothing but events that the report does not read.
    abbrev Fine : Run env → Type 0
    Fine r = Quietly a (log_of env r) []

    log-Fine : (e : Event) (r : Run env) → Silent e → Fine r → Fine (log_event env e r)
    log-Fine e r s h = log_event-Quietly env a [] e r s h

    first_write-Fine : (r : Run env) → Fine r → Fine (first_write env r).0
    unfolding first_write
    first_write-Fine r h =
        split-if {A = Run env × Bool} (λ o. Fine o.0) r.wrote _ _ (λ _. h)
          (λ _.
            split-if {A = Run env × Bool} (λ o. Fine o.0) (env.before_write r.world).1 _ _ (λ _. h)
              (λ _. h))

    after_first-Fine :
        (next : Run env → Run env × Option ℕ) (o : Run env × Bool)
        → ((q : Run env) → Fine q → Fine (next q).0)
        → Fine o.0
        → Fine (after_first env next o).0
    after_first-Fine next (q, true) keep h = keep q h
    after_first-Fine next (q, false) keep h = h

    act-Fine :
        (ch : ℕ) (call : World → World × Bool) (good bad : Event) (r : Run env)
        → Silent good
        → Silent bad
        → Fine r
        → Fine (act env ch call good bad r).0
    act-Fine ch call good bad r s t h =
        let q : Run env = record r { world = (call r.world).0; touched = set ch true r.touched } in
        split-if {A = Run env × Option ℕ} (λ o. Fine o.0) (call r.world).1 _ _
          (λ _. log-Fine good q s h) (λ _. log-Fine bad q t h)

    pub manual-Fine : (ch : ℕ) (r : Run env) → Fine r → Fine (manual env ch r).0
    unfolding manual
    manual-Fine ch r h =
        after_first-Fine (act env ch (env.enter_manual ch) (manual_mode ch) (manual_failed ch))
          (first_write env r)
          (λ q k. act-Fine ch (env.enter_manual ch) (manual_mode ch) (manual_failed ch) q tt tt k)
          (first_write-Fine r h)

    compared-Fine : (ch : ℕ) (e : Ending) (r : Run env) → Fine r → Fine (compared env ch e r)
    compared-Fine ch reached r h = log-Fine (hot_restored ch) r tt h
    compared-Fine ch unavailable r h = log-Fine (hot_restored ch) r tt h
    compared-Fine ch timed_out r h = log-Fine (hot_differs ch) r tt h
    compared-Fine ch cancelled r h = log-Fine (hot_differs ch) r tt h

    after_wait-Fine :
        (ch : ℕ) (r : Run env) (o : Option (World × Settled))
        → Fine r
        → Fine (after_wait env ch r o)
    after_wait-Fine ch r none h = h
    after_wait-Fine ch r (some (w, s)) h = compared-Fine ch s.ending (record r { world = w }) h

    settle_hot-Fine : (ch t0 : ℕ) (r : Run env) → Fine r → Fine (settle_hot env ch t0 r)
    unfolding settle_hot
    settle_hot-Fine ch t0 r h =
        split-if Fine r.dcr_ok
          (after_wait env ch r (
            wait_dcr env t0 (judged_regs ch) 255 (settle ch) (settle ch) (suc (settle ch)) none 0
              r.world))
          _ (λ _. after_wait-Fine ch r _ h) (λ _. log-Fine (hot_restored ch) r tt h)

    save_hot-Fine : (ch : ℕ) (r : Run env) → Fine r → Fine (save_hot env ch r)
    save_hot-Fine ch r h =
        let q : Run env = record r { world = (env.before_hot ch r.world).0 } in
        split-if Fine (env.before_hot ch r.world).1 _ _ (λ _. h)
          (λ _. log-Fine (hot_unsaved ch) q tt h)

    restore_hot-Fine : (ch : ℕ) (r : Run env) → Fine r → Fine (restore_hot env ch r).0
    unfolding restore_hot
    restore_hot-Fine ch r h =
        let q = save_hot env ch r in
        let saved = save_hot-Fine ch r h in
        split-if {A = Run env × Bool} (λ o. Fine o.0) (write_hot env ch q.world).1 _ _
          (λ _.
            settle_hot-Fine ch (env.now q.world)
              (record q {
                world = (write_hot env ch q.world).0;
                overrides = set ch true q.overrides;
                restore_err = set ch false q.restore_err;
              })
              saved)
          (λ _.
            log-Fine (hot_failed ch)
              (record q {
                world = (write_hot env ch q.world).0;
                restore_err = set ch true q.restore_err;
              })
              tt saved)

    after_restore-Fine :
        (ch : ℕ) (r : Run env) (w : World) (how : Restoring)
        → Fine r
        → Fine (after_restore env ch r w how).0
    after_restore-Fine ch r w done h =
        log-Fine (restored ch) (record r { world = w; restore_err = set ch false r.restore_err }) tt
          h
    after_restore-Fine ch r w unverified h =
        log-Fine (restored_differs ch) (record r { world = w }) tt h
    after_restore-Fine ch r w failed h =
        log-Fine (restore_failed ch)
          (record r { world = w; restore_err = set ch true r.restore_err }) tt h

    forget_if-Fine : (ch : ℕ) (o : Run env × Bool) → Fine o.0 → Fine (forget_if env ch o)
    forget_if-Fine ch (q, true) h = h
    forget_if-Fine ch (q, false) h = h

    pub give_back-Fine : (ch : ℕ) (r : Run env) → Fine r → Fine (give_back env ch r)
    unfolding give_back restore
    give_back-Fine ch r h = forget_if-Fine ch (restore env ch r) (
        split-if {A = Run env × Bool} (λ o. Fine o.0) (ch == hot_channel env r)
          (restore_hot env ch r)
          (after_restore env ch r (env.restore ch r.world).0 (env.restore ch r.world).1)
          (λ _. restore_hot-Fine ch r h)
          (λ _. after_restore-Fine ch r _ (env.restore ch r.world).1 h))

  -- A write that succeeds adds its event, at the time that it gives.
  abbrev Logged : ℕ → ℕ → Log → Run env × Option ℕ → Type 0
  Logged ch duty a (q, none) = Unit
  Logged ch duty a (q, some t) =
      Adds a (log_of env q) [] (record { time = t; event = wrote_duty ch duty } ∷ [])

  act-Logged :
      (ch duty : ℕ) (call : World → World × Bool) (bad : Event) (a : Log) (r : Run env)
      → a ≡ log_of env r
      → Logged ch duty a (act env ch call (wrote_duty ch duty) bad r)
  act-Logged ch duty call bad a r e =
      let q : Run env = record r { world = (call r.world).0; touched = set ch true r.touched } in
      split-if {A = Run env × Option ℕ} (Logged ch duty a) (call r.world).1 _ _
        (λ _. rw e (log_event-Adds env (wrote_duty ch duty) q)) (λ _. tt)

  after_first-Logged :
      (ch duty : ℕ) (call : World → World × Bool) (bad : Event) (a : Log) (o : Run env × Bool)
      → a ≡ log_of env o.0
      → Logged ch duty a (after_first env (act env ch call (wrote_duty ch duty) bad) o)
  after_first-Logged ch duty call bad a (q, true) e = act-Logged ch duty call bad a q e
  after_first-Logged ch duty call bad a (q, false) e = tt

  first_write_same : (r : Run env) → log_of env r ≡ log_of env (first_write env r).0
  unfolding first_write
  first_write_same r =
      split-if {A = Run env × Bool} (λ o. log_of env r ≡ log_of env o.0) r.wrote _ _ (λ _. refl)
        (λ _.
          split-if {A = Run env × Bool} (λ o. log_of env r ≡ log_of env o.0)
            (env.before_write r.world).1 _ _ (λ _. refl) (λ _. refl))

  write-Logged : (ch duty : ℕ) (r : Run env) → Logged ch duty (log_of env r) (write env ch duty r)
  unfolding write
  write-Logged ch duty r =
      split-if {A = Run env × Option ℕ} (Logged ch duty (log_of env r))
        (ltb duty 100 || ltb 255 duty) _ _ (λ _. tt)
        (λ _.
          after_first-Logged ch duty (env.write_duty ch duty) (write_failed ch duty) (log_of env r)
            (first_write env r) (first_write_same r))

  Logged-some :
      (ch duty t : ℕ) (a : Log) (o : Run env × Option ℕ)
      → Logged ch duty a o
      → o.1 ≡ some t
      → Adds a (log_of env o.0) [] (record { time = t; event = wrote_duty ch duty } ∷ [])
  Logged-some ch duty t a (q, none) h e = cc
  Logged-some ch duty t a (q, some u) h e =
      let same : u ≡ t = ground (arith, e) in
      subst (λ x. Adds a (log_of env q) [] (record { time = x; event = wrote_duty ch duty } ∷ []))
        same h

  pub write-Adds :
      (ch duty t : ℕ) (r : Run env)
      → (write env ch duty r).1 ≡ some t
      → Adds
          (log_of env r)
          (log_of env (write env ch duty r).0)
          []
          (record { time = t; event = wrote_duty ch duty } ∷ [])
  write-Adds ch duty t r e =
      Logged-some ch duty t (log_of env r) (write env ch duty r) (write-Logged ch duty r) e
