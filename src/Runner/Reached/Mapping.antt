-- ===== src/Runner/Reached/Mapping.antt =====
-- The states that the mapping test leaves behind.
use minisforum_n5pro_fan_pro.Prelude.{
  ℕ, ◌≡◌, none, some, List, [], ◌∷◌, ◌++◌, split-bool, split-option,
}
use minisforum_n5pro_fan_pro.Spec.Sample.{t1_rest, t1_step}
use minisforum_n5pro_fan_pro.Spec.Tables.{t1_steps}
use minisforum_n5pro_fan_pro.Spec.Mapping.Defs.{T1Step}
use minisforum_n5pro_fan_pro.Spec.Mapping.Eval.{Rest}
use minisforum_n5pro_fan_pro.Runner.Env.{Env, Config}
use minisforum_n5pro_fan_pro.Runner.State.{
  Run, no_manual, no_write, write, manual, log_event, t1_begins, t1_complete,
}
use minisforum_n5pro_fan_pro.Runner.Hold.{Held}
use minisforum_n5pro_fan_pro.Runner.Series.{over_samples, no_rest, add_rest}
use minisforum_n5pro_fan_pro.Runner.Steps.{not_started, samples_of}
use minisforum_n5pro_fan_pro.Runner.Mapping.{
  AfterT1, not_run, t1_cut, step_of, t1_loop, t1_finish, t1_measure, run_t1,
}
use minisforum_n5pro_fan_pro.Runner.Reached.{Reached, in_manual, held, stopped, logged, given_back}
use minisforum_n5pro_fan_pro.Runner.Reached.Touching.{
  Away, manual-Away, write-keeps_Away, hold_from-Away,
}
use minisforum_n5pro_fan_pro.Runner.Reached.Rules.{
  Gives, Gives-result, after_hold-Gives, after_command-Gives,
}

module _ (env : Env) (cfg : Config) (w : env.World) where
  open env use {now}

  abbrev Ok : AfterT1 env cfg → Type 0
  Ok o = Reached env cfg w o.0

  abbrev AwayHere : Run env → Type 0
  AwayHere r = Away env cfg w cfg.channel r

  t1_finish-Gives :
      (rest : Rest) (steps : List T1Step) (r : Run env)
      → AwayHere r
      → Gives Ok (t1_finish env cfg rest steps r)
  unfolding t1_finish
  t1_finish-Gives rest steps r s =
      given_back cfg.channel (log_event env t1_complete r) (logged t1_complete r s.0) s.1

  t1_loop-Gives :
      (rest : Rest) (duties : List ℕ) (steps : List T1Step) (r : Run env)
      → AwayHere r
      → Gives Ok (t1_loop env cfg duties steps (t1_finish env cfg rest) r)
  unfolding t1_loop
  t1_loop-Gives rest [] steps r s = t1_finish-Gives rest steps r s
  t1_loop-Gives rest (duty ∷ duties) steps r s =
      let after = write-keeps_Away env cfg w cfg.channel duty r s in
      let p = (write env cfg.channel duty r).0 in
      after_command-Gives env Ok no_write (write env cfg.channel duty r) (t1_cut env cfg) _
        (stopped no_write p after.0)
        (λ tw e.
          after_hold-Gives env Ok cfg tw (t1_step duty) (some duty) cfg.hold p
            (λ h. t1_cut env cfg h.run)
            (λ h.
              t1_loop env cfg duties (steps ++ (step_of env cfg duty tw h ∷ []))
                (t1_finish env cfg rest) h.run)
            (λ h ends.
              let kept =
                hold_from-Away env cfg w cfg.channel tw (t1_step duty) (some duty) cfg.hold p h
                  after ends in
              (
                kept.0,
                t1_loop-Gives rest duties (steps ++ (step_of env cfg duty tw h ∷ [])) h.run kept,
              )))

  t1_measure-Gives : (r : Run env) → Reached env cfg w r → Gives Ok (t1_measure env cfg r)
  unfolding t1_measure
  t1_measure-Gives r s =
      let q = log_event env (t1_begins cfg.channel) r in
      let rest_of =
        λ (h : Held env). over_samples (add_rest cfg.channel) no_rest (samples_of h.seen) in
      after_hold-Gives env Ok cfg (now q.world) t1_rest none cfg.hold q (λ h. t1_cut env cfg h.run)
        _
        (λ h ends.
          let kept = held (now q.world) t1_rest none cfg.hold q h (logged _ r s) ends in
          (
            kept,
            after_command-Gives env Ok no_manual (manual env cfg.channel h.run) (t1_cut env cfg) _
                (stopped no_manual _ (in_manual cfg.channel h.run kept))
                (λ t e.
                  t1_loop-Gives (rest_of h) t1_steps [] _
                    (manual-Away env cfg w cfg.channel h.run t kept e)),
          ))

  -- From any state that a run reaches, the mapping test gives an outcome, and the state that it leaves is one that
  -- the run reaches by writes, commands, holds, stops, log entries and restores of touched channels.
  pub run_t1-Reached :
      (r : Run env)
      → Reached env cfg w r
      → (o : AfterT1 env cfg) × (run_t1 env cfg r ≡ some o) × Reached env cfg w o.0
  unfolding run_t1
  run_t1-Reached r s = Gives-result Ok (run_t1 env cfg r) (
      split-bool (Gives Ok) r.dcr_ok _ _
        (λ _.
          split-option (Gives Ok) r.abort (t1_measure env cfg r)
            (λ why. some (r, not_run (not_started why))) (λ _. t1_measure-Gives r s) (λ why _. s))
        (λ _. s))
