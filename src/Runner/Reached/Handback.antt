-- ===== src/Runner/Reached/Handback.antt =====
-- The states that the hand-back tests leave behind.
use minisforum_n5pro_fan_pro.Prelude.{
  ℕ, zero, suc, ◌+◌, ◌-◌, ◌<◌, ◌≡◌, ◌≢◌, refl, sym, ◌⊎◌, inl, inr, arith, Option, none, some, List,
  [], ◌∷◌, ◌++◌, map, ◌==◌, split-bool, split-if, split-option,
}
use minisforum_n5pro_fan_pro.Spec.Sample.{Sample, Label, high, middle, t2_pre, t2_hold}
use minisforum_n5pro_fan_pro.Spec.Sample
use minisforum_n5pro_fan_pro.Spec.Tables.{Crossed, pcie_channel, judged_regs, m_value, table_input}
use minisforum_n5pro_fan_pro.Spec.Handback.Defs.{DcrSample}
use minisforum_n5pro_fan_pro.Spec.Aggregate.Defs.{Sub}
use minisforum_n5pro_fan_pro.Runner.Env.{Env, Config, pre_window, handback_observe}
use minisforum_n5pro_fan_pro.Runner.State.{
  Run, AbortReason, no_manual, no_write, no_auto, write, manual, send_auto, log_event, t2_begins,
  t2_values, t2_crossed, t2_auto, t2_complete,
}
use minisforum_n5pro_fan_pro.Runner.Hold.{Held}
use minisforum_n5pro_fan_pro.Runner.Series.{
  Deviation, over_samples, add_observed, auto_values, pre_crossing,
}
use minisforum_n5pro_fan_pro.Runner.Steps.{not_started, samples_of}
use minisforum_n5pro_fan_pro.Runner.Handback.{
  AfterHandback, SubRuns, break, deviations_in, observe_sub, sub_loop, log_complete, finish_run,
  after_subs, rep_loop, cut_handback, log_crossing, with_reference, with_first, measure_handback,
  run_handback,
}
use minisforum_n5pro_fan_pro.Runner.Results.{
  HandbackOutcome, index_panic, Reference, not_run, append_run,
}
use minisforum_n5pro_fan_pro.Runner.Reached.{Reached, handed_back, stopped, logged, given_back}
use minisforum_n5pro_fan_pro.Runner.Reached.Touching.{
  Away, send_auto-Away, manual-keeps_Away, send_auto-keeps_Away, write-keeps_Away, stop-Away,
  hold_from-Away,
}
use minisforum_n5pro_fan_pro.Runner.Reached.Rules.{
  Gives, Gives-result, after_hold-Gives, after_command-Gives,
}

judged_regs-none : (ch : ℕ) → judged_regs ch ≡ [] → (ch ≡ 0) ⊎ (4 < ch)
unfolding judged_regs
judged_regs-none ch h = ground arith

module _ (env : Env) (cfg : Config) (w : env.World) where
  open env use {now}

  -- No index is out of range, unless the channel is outside 1..4.
  abbrev pub InRange : HandbackOutcome → Type 0
  InRange o = (o ≢ index_panic) ⊎ ((cfg.channel ≡ 0) ⊎ (4 < cfg.channel))

  abbrev Ok : AfterHandback env cfg → Type 0
  Ok o = Reached env cfg w o.0 × InRange o.1

  abbrev AwayHere : Run env → Type 0
  AwayHere r = Away env cfg w cfg.channel r

  abbrev AwaySubs : SubRuns env cfg → Type 0
  AwaySubs s = AwayHere s.run

  observe_sub-Gives :
      (known : Reference) (rep : ℕ) (label : Label) (duty : ℕ) (subs : List Sub)
      (deviations : List Deviation) (next : List Sub → Run env → Option (SubRuns env cfg))
      (h : Held env)
      → AwayHere h.run
      → ((more : List Sub) (r : Run env) → AwayHere r → Gives AwaySubs (next more r))
      → Gives AwaySubs (observe_sub env cfg known rep label duty subs deviations next h)
  unfolding observe_sub
  observe_sub-Gives known rep label duty subs deviations next h s goes =
      let after = send_auto-keeps_Away env cfg w cfg.channel h.run s in
      let p = (send_auto env cfg.channel h.run).0 in
      let q = log_event env (t2_auto rep label) p in
      after_command-Gives env AwaySubs no_auto (send_auto env cfg.channel h.run)
        (break env cfg subs deviations) _ (stop-Away env cfg w cfg.channel no_auto p after)
        (λ t e.
          after_hold-Gives env AwaySubs cfg (now p.world) (Sample.t2_auto rep label) none
            (handback_observe cfg) q _ _
            (λ o ends.
              let kept =
                hold_from-Away env cfg w cfg.channel (now p.world) (Sample.t2_auto rep label) none
                  (handback_observe cfg) q o (logged (t2_auto rep label) p after.0, after.1) ends in
              (kept, goes _ o.run kept)))

  sub_loop-Gives :
      (known : Reference) (rep : ℕ) (todo : List (Label × ℕ)) (subs : List Sub)
      (deviations : List Deviation) (r : Run env)
      → AwayHere r
      → Gives AwaySubs (sub_loop env cfg known rep todo subs deviations r)
  unfolding sub_loop
  sub_loop-Gives known rep [] subs deviations r s = s
  sub_loop-Gives known rep ((label, duty) ∷ todo) subs deviations r s =
      let taken = manual-keeps_Away env cfg w cfg.channel r s in
      let q = (manual env cfg.channel r).0 in
      let set_to = write-keeps_Away env cfg w cfg.channel duty q taken in
      let p = (write env cfg.channel duty q).0 in
      after_command-Gives env AwaySubs no_manual (manual env cfg.channel r)
        (break env cfg subs deviations) _ (stop-Away env cfg w cfg.channel no_manual q taken)
        (λ t e.
          after_command-Gives env AwaySubs no_write (write env cfg.channel duty q)
            (break env cfg subs deviations) _ (stop-Away env cfg w cfg.channel no_write p set_to)
            (λ tw f.
              after_hold-Gives env AwaySubs cfg tw (t2_hold rep label) (some duty) cfg.hold p _ _
                (λ h ends.
                  let kept =
                    hold_from-Away env cfg w cfg.channel tw (t2_hold rep label) (some duty) cfg.hold
                      p h set_to ends in
                  let listed = deviations ++ deviations_in env cfg rep label duty tw h in
                  (
                    kept,
                    observe_sub-Gives known rep label duty subs listed
                        (λ more o. sub_loop env cfg known rep todo more listed o) h kept
                        (λ more o away. sub_loop-Gives known rep todo more listed o away),
                  ))))

  log_complete-Away :
      (o : Option AbortReason) (r : Run env) → AwayHere r → AwayHere (log_complete env cfg o r)
  log_complete-Away none r s = (logged t2_complete r s.0, s.1)
  log_complete-Away (some why) r s = s

  finish_run-Gives :
      (a m : ℕ) (known : Reference) (runs : List (List Sub)) (deviations : List Deviation)
      (r : Run env)
      → AwayHere r
      → Gives Ok (finish_run env cfg a m known runs deviations r)
  unfolding finish_run
  finish_run-Gives a m known runs deviations r s =
      let done = log_complete-Away r.abort r s in
      (given_back cfg.channel (log_complete env cfg r.abort r) done.0 done.1, inl (λ e. cc))

  after_subs-Gives :
      (o : Option (SubRuns env cfg)) (next : SubRuns env cfg → Option (AfterHandback env cfg))
      → Gives AwaySubs o
      → ((s : SubRuns env cfg) → AwayHere s.run → Gives Ok (next s))
      → Gives Ok (after_subs env cfg o next)
  after_subs-Gives none next h goes = h
  after_subs-Gives (some s) next h goes = goes s h

  rep_loop-Gives :
      (a m : ℕ) (known : Reference) (left rep : ℕ) (runs : List (List Sub))
      (deviations : List Deviation) (r : Run env)
      → AwayHere r
      → Gives Ok (rep_loop env cfg a m known left rep runs deviations r)
  unfolding rep_loop
  rep_loop-Gives a m known zero rep runs deviations r s =
      finish_run-Gives a m known runs deviations r s
  rep_loop-Gives a m known (suc left) rep runs deviations r s =
      after_subs-Gives (sub_loop env cfg known rep ((high, 255) ∷ (middle, m) ∷ []) [] deviations r)
        _ (sub_loop-Gives known rep ((high, 255) ∷ (middle, m) ∷ []) [] deviations r s)
        (λ u away.
          split-option (Gives Ok) u.run.abort
            (rep_loop env cfg a m known left (rep + 1) (append_run runs u.subs) u.deviations u.run)
            (λ why. finish_run env cfg a m known (append_run runs u.subs) u.deviations u.run)
            (λ _.
              rep_loop-Gives a m known left (rep + 1) (append_run runs u.subs) u.deviations u.run
                away)
            (λ why _. finish_run-Gives a m known (append_run runs u.subs) u.deviations u.run away))

  log_crossing-Away :
      (o : Option Crossed) (r : Run env) → AwayHere r → AwayHere (log_crossing env cfg o r)
  log_crossing-Away none r s = s
  log_crossing-Away (some c) r s = (logged (t2_crossed c) r s.0, s.1)

  with_reference-Gives :
      (series : ℕ → List DcrSample) (seen : List Sample) (r : Run env) (o : Option ℕ)
      → AwayHere r
      → Gives Ok (with_reference env cfg series seen r o)
  with_reference-Gives series seen r none s = (s.0, inl (λ e. cc))
  with_reference-Gives series seen r (some a) s =
      let regs = judged_regs cfg.channel in
      let auto_a = auto_values series regs in
      let crossed = pre_crossing cfg.channel (map (table_input cfg.channel) seen) in
      let said = t2_values (map (λ n. (n, auto_a n)) regs) (m_value a) in
      rep_loop-Gives a (m_value a) (record { auto_a = auto_a; crossed = crossed }) cfg.repeat 1 []
        [] _ (log_crossing-Away crossed (log_event env said r) (logged said r s.0, s.1))

  with_first-Gives :
      (regs : List ℕ) (series : ℕ → List DcrSample) (seen : List Sample) (r : Run env)
      → regs ≡ judged_regs cfg.channel
      → AwayHere r
      → Gives Ok (with_first env cfg regs series seen r)
  with_first-Gives [] series seen r e s = (s.0, inr (judged_regs-none cfg.channel (sym e)))
  with_first-Gives (n ∷ ns) series seen r e s = with_reference-Gives series seen r _ s

  measure_handback-Gives :
      (r : Run env) → Reached env cfg w r → Gives Ok (measure_handback env cfg r)
  unfolding measure_handback
  measure_handback-Gives r s =
      let q = log_event env (t2_begins cfg.channel) r in
      let begun = logged (t2_begins cfg.channel) r s in
      let p = (send_auto env cfg.channel q).0 in
      after_command-Gives env Ok no_auto (send_auto env cfg.channel q) (cut_handback env cfg) _
        (stopped no_auto p (handed_back cfg.channel q begun), inl (λ e. cc))
        (λ ta e. after_hold-Gives env Ok cfg ta t2_pre none (pre_window cfg) p _ _ (λ h ends.
          let kept =
            hold_from-Away env cfg w cfg.channel ta t2_pre none (pre_window cfg) p h
              (send_auto-Away env cfg w cfg.channel q ta begun e) ends in
          (
            (kept.0, inl (λ e. cc)),
            with_first-Gives (judged_regs cfg.channel)
                (over_samples (add_observed (judged_regs cfg.channel) (ta - h.run.start)) (λ n. [])
                  (samples_of h.seen))
                (samples_of h.seen) h.run refl kept,
          )))

  -- From any state that a run reaches, the hand-back tests give an outcome, and the state that they leave is one
  -- that the run reaches by writes, commands, holds, stops, log entries and restores of touched channels. The outcome
  -- is not the panic of an index out of range, unless the channel is outside 1..4.
  pub run_handback-Reached :
      (r : Run env)
      → Reached env cfg w r
      → (o : AfterHandback env cfg) × (run_handback env cfg r ≡ some o)
        × (Reached env cfg w o.0 × InRange o.1)
  unfolding run_handback
  run_handback-Reached r s = Gives-result Ok (run_handback env cfg r) (
      split-if (Gives Ok) (cfg.channel == pcie_channel) _ _ (λ _. (s, inl (λ e. cc)))
        (λ _.
          split-bool (Gives Ok) r.dcr_ok _ _
            (λ _.
              split-option (Gives Ok) r.abort (measure_handback env cfg r)
                (λ why. some (r, not_run (not_started why))) (λ _. measure_handback-Gives r s)
                (λ why _. (s, inl (λ e. cc))))
            (λ _. (s, inl (λ e. cc)))))
