-- ===== src/Report/Gates/Alike.antt =====
-- The gates that a run has judged, recomputed from its samples.
use mathlib.Core.Path.{subst}
use minisforum_n5pro_fan_pro.Prelude.{
  ◌≡◌, refl, sym, ap, ◌∙◌, Bool, true, false, Option, none, some, List, [], ◌∷◌, ◌++◌, map, All,
  All-map, ◌==◌, split-bool, split-if, split-option,
}
use minisforum_n5pro_fan_pro.Spec.Sample.{Sample, gate}
use minisforum_n5pro_fan_pro.Spec.Gate.Defs.{eval_g4}
use minisforum_n5pro_fan_pro.Runner.Env.{Env, Config}
use minisforum_n5pro_fan_pro.Runner.State.{Run, AbortReason, stop}
use minisforum_n5pro_fan_pro.Runner.Sampling.{sample_at}
use minisforum_n5pro_fan_pro.Runner.Hold.{Held}
use minisforum_n5pro_fan_pro.Runner.Steps.{samples_of}
use minisforum_n5pro_fan_pro.Runner.Gates.{
  GateDetail, not_sampled, not_completed, over_window, Judged, g3, Gated, after_window, window_of,
  after_first, gates,
}
use minisforum_n5pro_fan_pro.Runner.Hold.Slots.{hold_from-Ends}
use minisforum_n5pro_fan_pro.Runner.Reached.Rules.{Gives, Gives-result}
use minisforum_n5pro_fan_pro.Runner.Recorded.{Log, Quietly, Quietly-nothing, Quietly-trans, log_of}
use minisforum_n5pro_fan_pro.Runner.Recorded.Holds.{
  stop-Quietly, sample_at-Quietly, hold_from-Handed,
}
use minisforum_n5pro_fan_pro.Report.Compare.{Place}
use minisforum_n5pro_fan_pro.Report.Lines.{same_phase, phase_samples}
use minisforum_n5pro_fan_pro.Report.Rebuild.Parts.{
  phase_samples-append, phase_samples-none, phase_samples-all,
}
use minisforum_n5pro_fan_pro.Report.Stored.{stored}
use minisforum_n5pro_fan_pro.Report.Stored.Exact.{Exact}
use minisforum_n5pro_fan_pro.Report.Stored.SameRows.{check_gates-stored}
use minisforum_n5pro_fan_pro.Report.Gates.{
  StoredGate, load, stability, compare_gate, check_load, check_stability, check_gates,
  without_window,
}

-- The gates as meta.json stores them.
abbrev pub stored_of : (g3 g4 : Judged) → List StoredGate
stored_of a b =
    record { id = load; result = some a.passes; detail = a.detail }
    ∷ record { id = stability; result = some b.passes; detail = b.detail }
    ∷ []

abbrev pub stored_gates : (env : Env) (cfg : Config) → Gated env cfg → List StoredGate
stored_gates env cfg g = stored_of g.load g.stable

-- Not a sample of the gate.
abbrev pub NotGate : Sample → Type 0
NotGate s = same_phase s.phase gate ≡ false

compare_same : (p : Place) (b : Bool) → compare_gate p b b ≡ []
compare_same p true = refl
compare_same p false = refl

module _ (env : Env) (cfg : Config) where
  open env use {now}

  -- The report finds no mismatch.
  abbrev Alike : Gated env cfg → Type 0
  Alike g = check_gates cfg.online_cpus (stored_gates env cfg g) g.run.samples ≡ []

  check_both :
      (a b : Judged) (smp rows : List Sample)
      → phase_samples gate smp ≡ rows
      → check_load cfg.online_cpus a.passes a.detail rows ≡ []
      → check_stability b.passes b.detail rows ≡ []
      → check_gates cfg.online_cpus (stored_of a b) smp ≡ []
  unfolding check_gates
  check_both a b smp rows e h k =
      ap
        (λ x.
          check_load cfg.online_cpus a.passes a.detail x
          ++ (check_stability b.passes b.detail x ++ []))
        e
      ∙ ap (λ x. x ++ (check_stability b.passes b.detail rows ++ [])) h
      ∙ ap (λ x. x ++ []) k

  load_alike :
      (s : Sample) (ss : List Sample)
      → check_load cfg.online_cpus
          (g3 s cfg.online_cpus).passes
          (g3 s cfg.online_cpus).detail
          (s ∷ ss)
        ≡ []
  unfolding check_load
  load_alike s ss =
      split-if (λ x. x ≡ []) (cfg.online_cpus == 0) _ _ (λ _. refl)
        (λ _. compare_same Place.of_g3 (g3 s cfg.online_cpus).passes)

  stability_alike :
      (d : GateDetail) (s : Sample) (ss : List Sample)
      → check_stability (eval_g4 s ss).passes d (s ∷ ss) ≡ []
  unfolding check_stability
  stability_alike d s ss =
      split-if (λ x. x ≡ []) (without_window (eval_g4 s ss).passes d) _ _ (λ _. refl)
        (λ _. compare_same Place.of_g4 (eval_g4 s ss).passes)

  after_window-Alike :
      (s : Sample) (h : Held env)
      → phase_samples gate h.run.samples ≡ s ∷ samples_of h.seen
      → Alike (after_window env cfg s h)
  unfolding after_window check_stability
  after_window-Alike s h e =
      split-bool {A = Gated env cfg} Alike h.full _ _
        (λ _.
          let ev = eval_g4 s (samples_of h.seen) in
          let d = over_window cfg.window ev.parts in
          check_both (g3 s cfg.online_cpus) (record { passes = ev.passes; detail = d })
            h.run.samples (s ∷ samples_of h.seen) e (load_alike s (samples_of h.seen))
            (stability_alike d s (samples_of h.seen)))
        (λ _.
          check_both (g3 s cfg.online_cpus)
            (record { passes = false; detail = not_completed h.run.abort }) h.run.samples
            (s ∷ samples_of h.seen) e (load_alike s (samples_of h.seen)) refl)

  gate_rows :
      (a b : Log) (ss : List Sample)
      → Quietly a b ss
      → All NotGate a.samples
      → All (λ s. s.phase ≡ gate) ss
      → phase_samples gate b.samples ≡ ss
  gate_rows a b ss (es, adds, quiet) before here =
      ap (phase_samples gate) adds.samples
      ∙ phase_samples-append gate a.samples ss
      ∙ ap (λ x. x ++ phase_samples gate ss) (phase_samples-none gate a.samples before)
      ∙ phase_samples-all gate ss
          (All-map {Q = λ s. same_phase s.phase gate ≡ true} (λ s e. rw e refl) ss here)

  after_first-Alike :
      (a : Log) (o : Run env × Sample × Option AbortReason)
      → Quietly a (log_of env o.0) (o.1 ∷ [])
      → o.1.phase ≡ gate
      → All NotGate a.samples
      → Gives Alike (after_first env cfg o)
  after_first-Alike a (q, s, some why) h e before =
      let h' = stop-Quietly env cfg a (s ∷ []) why q h in
      after_window-Alike s (record { run = stop env why q; full = false; seen = [] })
        (gate_rows a (log_of env (stop env why q)) (s ∷ []) h' before (e, tt))
  after_first-Alike a (q, s, none) h e before =
      let (k, ends) = hold_from-Ends env cfg (now q.world) gate none cfg.window q in
      let handed = hold_from-Handed env cfg (now q.world) gate none cfg.window q k ends in
      subst (λ o. Gives Alike (window_of env cfg s o)) (sym ends)
        (after_window-Alike s k (
          gate_rows a (log_of env k.run) (s ∷ samples_of k.seen) (Quietly-trans h handed.0) before
            (e, handed.1)))

  gates-Gives : (r : Run env) → All NotGate r.samples → Gives Alike (gates env cfg r)
  unfolding gates check_load check_stability
  gates-Gives r before =
      let taken =
        sample_at-Quietly env cfg (log_of env r) gate none none [] r
          (Quietly-nothing (log_of env r)) in
      split-option (Gives Alike) r.abort (after_first env cfg (sample_at env cfg gate none none r))
        _
        (λ _.
          after_first-Alike (log_of env r) (sample_at env cfg gate none none r) taken.0 taken.1
            before)
        (λ why _.
          let unsampled : Judged = record { passes = false; detail = not_sampled why } in
          check_both unsampled unsampled r.samples [] (phase_samples-none gate r.samples before)
            refl refl)

  -- In a run without samples of the gate before, the gates G3 and G4 are judged, whether the window is completed or
  -- not, and the report finds no mismatch between the two stored results and the ones that it recomputes from the
  -- samples as samples.csv stores them, with temperatures of one decimal. This is so when in the samples that the
  -- judged run holds the temperatures of the controller and of the disks are whole tenths of a degree (those of the
  -- processor and of the NVMe disks may be any), and for times in whole milliseconds.
  pub check_gates-gates :
      (r : Run env)
      → All NotGate r.samples
      → ((g : Gated env cfg) → gates env cfg r ≡ some g → All Exact g.run.samples)
      → (g : Gated env cfg) × (gates env cfg r ≡ some g)
        × (check_gates cfg.online_cpus (stored_gates env cfg g) (map stored g.run.samples) ≡ [])
  check_gates-gates r before exact =
      let (g, e, alike) = Gives-result Alike (gates env cfg r) (gates-Gives r before) in
      (
        g,
        e,
        check_gates-stored cfg.online_cpus (stored_gates env cfg g) g.run.samples (exact g e)
            ∙ alike,
      )
