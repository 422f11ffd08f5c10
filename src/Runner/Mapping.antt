-- ===== src/Runner/Mapping.antt =====
-- ectest/internal/runner/runner.go: `RunT1`, the mapping test of a channel. It takes the samples at rest, enters manual mode
-- and writes the duties of the specification one after the other, each held.
use minisforum_n5pro_fan_pro.Prelude.{ℕ, ◌-◌, Option, none, some, List, [], ◌∷◌, ◌++◌}
use minisforum_n5pro_fan_pro.Spec.Sample.{t1_rest, t1_step}
use minisforum_n5pro_fan_pro.Spec.Verdict.{Verdict, inconclusive}
use minisforum_n5pro_fan_pro.Spec.Tables.{t1_steps}
use minisforum_n5pro_fan_pro.Spec.Mapping.Defs.{T1Step}
use minisforum_n5pro_fan_pro.Spec.Mapping.Eval.{Rest, T1Verdict, eval_t1}
use minisforum_n5pro_fan_pro.Runner.Env.{Env, Config}
use minisforum_n5pro_fan_pro.Runner.State.{
  Run, no_manual, no_write, write, manual, log_event, t1_begins, t1_complete,
}
use minisforum_n5pro_fan_pro.Runner.Hold.{Held, hold_from}
use minisforum_n5pro_fan_pro.Runner.Series.{
  over_samples, no_rest, add_rest, add_t1_sample, empty_step,
}
use minisforum_n5pro_fan_pro.Runner.Steps.{
  NotRun, cut_short, after_hold, after_command, unless_stopped, give_back, samples_of,
}

pub data T1Outcome : Type 0 where
  not_run : NotRun → T1Outcome
  judged : T1Verdict → T1Outcome

abbrev pub verdict_of : T1Outcome → Verdict
verdict_of (not_run why) = inconclusive
verdict_of (judged v) = v.verdict

module _ (env : Env) (cfg : Config) where
  open env use {now}

  abbrev pub AfterT1 : Type 0
  AfterT1 = Run env × T1Outcome

  abbrev pub t1_cut : Run env → Option AfterT1
  t1_cut r = some (r, not_run (cut_short r.abort))

  -- The data of a step written at `tw`.
  unfoldable pub step_of : ℕ → ℕ → Held env → T1Step
  unfolding over_samples add_t1_sample
  step_of duty tw h =
      over_samples (add_t1_sample cfg.channel (tw - h.run.start)) (empty_step duty)
        (samples_of h.seen)

  -- The loop over the duties, with the steps done so far and what follows.
  unfoldable pub t1_loop :
      List ℕ → List T1Step → (List T1Step → Run env → Option AfterT1) → Run env → Option AfterT1
  unfolding write hold_from step_of
  t1_loop [] steps next r = next steps r
  t1_loop (duty ∷ duties) steps next r =
      after_command env no_write (write env cfg.channel duty r) t1_cut (λ tw q.
        after_hold env (hold_from env cfg tw (t1_step duty) (some duty) cfg.hold q)
          (λ h. t1_cut h.run) (λ h. t1_loop duties (steps ++ (step_of duty tw h ∷ [])) next h.run))

  unfoldable pub t1_finish : Rest → List T1Step → Run env → Option AfterT1
  unfolding give_back eval_t1
  t1_finish rest steps r = some (
    give_back env cfg.channel (log_event env t1_complete r),
    judged (eval_t1 cfg.channel cfg.own_tach rest steps cfg.tachs),
  )

  -- The samples at rest, then manual mode and the steps.
  unfoldable pub t1_measure : Run env → Option AfterT1
  unfolding t1_loop t1_finish hold_from manual over_samples add_rest
  t1_measure r =
      let q = log_event env (t1_begins cfg.channel) r in
      after_hold env (hold_from env cfg (now q.world) t1_rest none cfg.hold q) (λ h. t1_cut h.run)
        (λ h. after_command env no_manual (manual env cfg.channel h.run) t1_cut (λ t p.
          t1_loop t1_steps []
            (t1_finish (over_samples (add_rest cfg.channel) no_rest (samples_of h.seen))) p))

  unfoldable pub run_t1 : Run env → Option AfterT1
  unfolding t1_measure
  run_t1 r = unless_stopped env r (λ why. some (r, not_run why)) t1_measure
