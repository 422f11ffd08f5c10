-- ===== src/Runner/Handback.antt =====
-- ectest/internal/runner/runner.go: `RunHandback`, the hand-back tests T2 and T3 of a channel, with `observeIn`.
-- Each repetition writes 255 and a middle duty, holds it, gives the automatic command and observes.
use minisforum_n5pro_fan_pro.Prelude.{
  ℕ, zero, suc, ◌+◌, ◌-◌, Option, none, some, List, [], ◌∷◌, ◌++◌, map, ◌==◌, if◌then◌else◌,
}
use minisforum_n5pro_fan_pro.Spec.Sample.{Sample, Label, high, middle, t2_pre, t2_hold}
use minisforum_n5pro_fan_pro.Spec.Sample
use minisforum_n5pro_fan_pro.Spec.Tables.{Crossed, pcie_channel, judged_regs, m_value, table_input}
use minisforum_n5pro_fan_pro.Spec.Handback.Defs.{DcrSample}
use minisforum_n5pro_fan_pro.Spec.Aggregate.Defs.{Sub}
use minisforum_n5pro_fan_pro.Runner.Env.{Env, Config, pre_window, handback_observe}
use minisforum_n5pro_fan_pro.Runner.State.{
  Run, AbortReason, no_manual, no_write, no_auto, write, manual, send_auto, log_event, t2_begins,
  t2_values, t2_crossed, t2_auto, t2_complete,
}
use minisforum_n5pro_fan_pro.Runner.Hold.{Held, hold_from}
use minisforum_n5pro_fan_pro.Runner.Series.{
  Deviation, over_samples, add_observed, auto_values, pre_crossing, hold_deviations,
}
use minisforum_n5pro_fan_pro.Runner.Steps.{
  no_dcr_sample, cut_short, after_hold, after_command, unless_stopped, give_back, samples_of,
}
use minisforum_n5pro_fan_pro.Runner.Results.{
  HandbackOutcome, not_applicable, not_run, finished, index_panic, finish_handback, Reference,
  sub_of, append_run,
}

module _ (env : Env) (cfg : Config) where
  open env use {now}

  abbrev pub AfterHandback : Type 0
  AfterHandback = Run env × HandbackOutcome

  -- What the sub-runs of a repetition leave behind.
  pub record SubRuns : Type 0 where
    pub run : Run env
    pub subs : List Sub
    pub deviations : List Deviation

  abbrev pub break : List Sub → List Deviation → Run env → Option SubRuns
  break subs deviations r = some (record { run = r; subs = subs; deviations = deviations })

  -- The deviations in the hold of a duty written at `tw`.
  abbrev pub deviations_in : ℕ → Label → ℕ → ℕ → Held env → List Deviation
  deviations_in rep label duty tw h =
      hold_deviations cfg.channel rep label duty (tw - h.run.start) (samples_of h.seen)

  -- The automatic command, its event, which gives the time 0, and the observation.
  unfoldable pub observe_sub :
      Reference
      → ℕ
      → Label
      → ℕ
      → List Sub
      → List Deviation
      → (List Sub → Run env → Option SubRuns)
      → Held env
      → Option SubRuns
  unfolding send_auto hold_from handback_observe sub_of
  observe_sub known rep label duty subs deviations next h =
      after_command env no_auto (send_auto env cfg.channel h.run) (break subs deviations) (λ t p.
        let t0 = now p.world in
        let q = log_event env (t2_auto rep label) p in
        let more = λ (o : Held env).
          subs
          ++ (sub_of cfg.channel known label duty (t0 - o.run.start) (samples_of h.seen)
                (samples_of o.seen)
              ∷ []) in
        after_hold env
          (hold_from env cfg t0 (Sample.t2_auto rep label) none (handback_observe cfg) q)
          (λ o. break (more o) deviations o.run) (λ o. next (more o) o.run))

  unfoldable pub sub_loop :
      Reference → ℕ → List (Label × ℕ) → List Sub → List Deviation → Run env → Option SubRuns
  unfolding write manual hold_from observe_sub hold_deviations
  sub_loop known rep [] subs deviations r = break subs deviations r
  sub_loop known rep ((label, duty) ∷ rest) subs deviations r =
      after_command env no_manual (manual env cfg.channel r) (break subs deviations) (λ t q.
        after_command env no_write (write env cfg.channel duty q) (break subs deviations) (λ tw p.
          after_hold env (hold_from env cfg tw (t2_hold rep label) (some duty) cfg.hold p)
            (λ h. break subs (deviations ++ deviations_in rep label duty tw h) h.run)
            (λ h.
              let listed = deviations ++ deviations_in rep label duty tw h in
              observe_sub known rep label duty subs listed
                (λ more o. sub_loop known rep rest more listed o) h)))

  -- The event of a complete run.
  abbrev pub log_complete : Option AbortReason → Run env → Run env
  log_complete none r = log_event env t2_complete r
  log_complete (some why) r = r

  -- The end of the tests: the event, the results and the restore of the channel.
  unfoldable pub finish_run :
      (a m : ℕ) → Reference → List (List Sub) → List Deviation → Run env → Option AfterHandback
  unfolding finish_handback judged_regs give_back
  finish_run a m known runs deviations r = some (
    give_back env cfg.channel (log_complete r.abort r),
    finished (
        finish_handback cfg.channel runs r.abort a m (judged_regs cfg.channel) known.auto_a
          deviations),
  )

  abbrev pub after_subs : Option SubRuns → (SubRuns → Option AfterHandback) → Option AfterHandback
  after_subs none next = none
  after_subs (some s) next = next s

  -- The repetitions that are left, from number `rep` on; an abort ends them.
  unfoldable pub rep_loop :
      (a m : ℕ)
      → Reference
      → (left rep : ℕ) → List (List Sub)
      → List Deviation
      → Run env
      → Option AfterHandback
  unfolding sub_loop finish_run
  rep_loop a m known zero rep runs deviations r = finish_run a m known runs deviations r
  rep_loop a m known (suc left) rep runs deviations r =
      after_subs (sub_loop known rep ((high, 255) ∷ (middle, m) ∷ []) [] deviations r) (λ s.
        elim s.run.abort [
          | none ↦ rep_loop a m known left (rep + 1) (append_run runs s.subs) s.deviations s.run
          | some why ↦ finish_run a m known (append_run runs s.subs) s.deviations s.run
        ])

  abbrev pub cut_handback : Run env → Option AfterHandback
  cut_handback r = some (r, not_run (cut_short r.abort))

  -- Without a sample of the first judged register there is no A.
  abbrev pub no_auto_value : Run env → Option AfterHandback
  no_auto_value r =
      some (r, not_run (elim r.abort [ none ↦ no_dcr_sample | some why ↦ cut_short (some why) ]))

  abbrev pub log_crossing : Option Crossed → Run env → Run env
  log_crossing none r = r
  log_crossing (some c) r = log_event env (t2_crossed c) r

  -- The values of A from the samples of the window before, and the repetitions.
  abbrev pub with_reference :
      (ℕ → List DcrSample) → List Sample → Run env → Option ℕ → Option AfterHandback
  with_reference series seen r none = no_auto_value r
  with_reference series seen r (some a) =
      let regs = judged_regs cfg.channel in
      let auto_a = auto_values series regs in
      let crossed = pre_crossing cfg.channel (map (table_input cfg.channel) seen) in
      rep_loop a (m_value a) (record { auto_a = auto_a; crossed = crossed }) cfg.repeat 1 [] []
        (log_crossing crossed
          (log_event env (t2_values (map (λ n. (n, auto_a n)) regs) (m_value a)) r))

  -- What follows the window before: the source indexes the first judged register.
  abbrev pub with_first :
      List ℕ → (ℕ → List DcrSample) → List Sample → Run env → Option AfterHandback
  with_first [] series seen r = some (r, index_panic)
  with_first (n ∷ ns) series seen r = with_reference series seen r (auto_values series (n ∷ ns) n)

  unfoldable pub measure_handback : Run env → Option AfterHandback
  unfolding send_auto hold_from pre_window over_samples add_observed judged_regs auto_values
      pre_crossing table_input rep_loop m_value
  measure_handback r =
      after_command env no_auto
        (send_auto env cfg.channel (log_event env (t2_begins cfg.channel) r)) cut_handback
        (λ ta q.
          after_hold env (hold_from env cfg ta t2_pre none (pre_window cfg) q)
            (λ h. no_auto_value h.run)
            (λ h.
              let regs = judged_regs cfg.channel in
              let series =
                over_samples (add_observed regs (ta - h.run.start)) (λ n. []) (samples_of h.seen) in
              with_first regs series (samples_of h.seen) h.run))

  unfoldable pub run_handback : Run env → Option AfterHandback
  unfolding measure_handback
  run_handback r =
      if cfg.channel == pcie_channel
      then some (r, not_applicable)
      else unless_stopped env r (λ why. some (r, not_run why)) measure_handback
