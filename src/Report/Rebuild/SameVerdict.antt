-- ===== src/Report/Rebuild/SameVerdict.antt =====
-- The report recomputes the verdict of the mapping test from what the run has recorded.
use mathlib.Core.List.{append_assoc}
use minisforum_n5pro_fan_pro.Prelude.{
  ℕ, ◌≡◌, refl, sym, ap, ◌∙◌, true, false, Option, some, List, [], ◌∷◌, ◌++◌, map, All, All-map,
  All-append, if◌then◌else◌,
}
use minisforum_n5pro_fan_pro.Spec.Sample.{Sample, t1_rest}
use minisforum_n5pro_fan_pro.Spec.Tables.{t1_steps}
use minisforum_n5pro_fan_pro.Spec.Mapping.Defs.{T1Step}
use minisforum_n5pro_fan_pro.Spec.Mapping.Eval.{T1Verdict, eval_t1}
use minisforum_n5pro_fan_pro.Runner.Env.{Env, Config, tach_of}
use minisforum_n5pro_fan_pro.Runner.State.{Run, AbortReason, Stamped}
use minisforum_n5pro_fan_pro.Runner.Series.{over_samples, no_rest, add_rest}
use minisforum_n5pro_fan_pro.Runner.Mapping.{judged, not_run, run_t1}
use minisforum_n5pro_fan_pro.Runner.Steps.{incomplete}
use minisforum_n5pro_fan_pro.Runner.Recorded.{AllSilent, Log, log_of}
use minisforum_n5pro_fan_pro.Runner.Recorded.Mapping.{Whole, run_t1-Whole}
use minisforum_n5pro_fan_pro.Report.Lines.{line_of, same_phase, phase_samples, has_t1_complete}
use minisforum_n5pro_fan_pro.Report.Stored.{stored}
use minisforum_n5pro_fan_pro.Report.Stored.Exact.{Exact}
use minisforum_n5pro_fan_pro.Report.Stored.SameRows.{recompute_t1-stored}
use minisforum_n5pro_fan_pro.Report.Rebuild.{or_abort, rebuild_steps, recompute_t1}
use minisforum_n5pro_fan_pro.Report.Rebuild.Parts.{
  phase_samples-middle, lines_of, has_t1_complete-end, OtherThan, NoWriteOf, Different, Taken-rest,
  Silent-NoWriteOf, rebuild_steps-Taken, NotT1-rest, NotT1-other, NotT1,
}

duties_differ : Different t1_steps
duties_differ = ((refl, (refl, (refl, tt))), ((refl, (refl, tt)), ((refl, tt), (tt, tt))))

rest_other : (duties : List ℕ) (s : Sample) → s.phase ≡ t1_rest → OtherThan duties s
rest_other [] s e = tt
rest_other (d ∷ duties) s e = (rw e refl, rest_other duties s e)

module _ (env : Env) (cfg : Config) (a b : Log) (v : T1Verdict) (h : Whole env cfg a b v)
    (before : All (λ s. NotT1 s.phase) a.samples) (quiet : AllSilent a.events) where
  abbrev recorded : List Sample
  recorded = (a.samples ++ h.at_rest) ++ h.shown.ss

  abbrev evs : List Stamped
  evs = (a.events ++ h.waits.0) ++ (h.shown.es ++ (h.shown.end ∷ h.shown.tail))

  ends : has_t1_complete (lines_of h.middle.start evs) ≡ true
  ends =
      ap (λ x. has_t1_complete (lines_of h.middle.start x))
        (sym (append_assoc (a.events ++ h.waits.0) h.shown.es (h.shown.end ∷ h.shown.tail)))
      ∙ has_t1_complete-end h.middle.start ((a.events ++ h.waits.0) ++ h.shown.es) h.shown.end
          h.shown.tail h.shown.ended

  rests : phase_samples t1_rest recorded ≡ h.at_rest
  rests =
      ap (phase_samples t1_rest) (append_assoc a.samples h.at_rest h.shown.ss)
      ∙ phase_samples-middle t1_rest a.samples h.at_rest h.shown.ss
          (All-map {Q = λ s. same_phase s.phase t1_rest ≡ false} (λ s k. NotT1-rest s.phase k)
            a.samples before)
          (All-map {Q = λ s. same_phase s.phase t1_rest ≡ true} (λ s k. rw k refl) h.at_rest
            h.phases)
          (Taken-rest cfg.channel h.middle.start h.shown.taken)

  steps_same :
      rebuild_steps cfg.channel recorded (lines_of h.middle.start evs) t1_steps ≡ h.shown.steps
  steps_same =
      rebuild_steps-Taken cfg.channel h.middle.start h.shown.taken (a.samples ++ h.at_rest)
        (a.events ++ h.waits.0) (h.shown.end ∷ h.shown.tail)
        (All-append (OtherThan t1_steps) a.samples h.at_rest
          (All-map {Q = OtherThan t1_steps} (NotT1-other t1_steps) a.samples before)
          (All-map {Q = OtherThan t1_steps} (rest_other t1_steps) h.at_rest h.phases))
        (All-append (NoWriteOf cfg.channel t1_steps) a.events h.waits.0
          (All-map {Q = NoWriteOf cfg.channel t1_steps} (Silent-NoWriteOf cfg.channel t1_steps)
            a.events quiet)
          (All-map {Q = NoWriteOf cfg.channel t1_steps} (Silent-NoWriteOf cfg.channel t1_steps)
            h.waits.0 h.waits.2))
        duties_differ

  judged_alike :
      (abort : Option AbortReason)
      → cfg.own_tach ≡ tach_of cfg.channel
      → cfg.tachs ≡ 1 ∷ 2 ∷ 3 ∷ []
      → recompute_t1 cfg.channel abort recorded (lines_of h.middle.start evs) ≡ judged v
  unfolding recompute_t1
  judged_alike abort own tachs =
      let ch = cfg.channel in
      let rest_of = λ (x : List Sample). over_samples (add_rest ch) no_rest x in
      let of = λ (x : List Sample) (ss : List T1Step).
        judged (eval_t1 ch (tach_of ch) (rest_of x) ss (1 ∷ 2 ∷ 3 ∷ [])) in
      ap
        (λ x.
          if x
          then of (phase_samples t1_rest recorded)
              (rebuild_steps ch recorded (lines_of h.middle.start evs) t1_steps)
          else not_run (or_abort abort incomplete))
        ends
      ∙ ap (λ x. of x (rebuild_steps ch recorded (lines_of h.middle.start evs) t1_steps)) rests
      ∙ ap (of h.at_rest) steps_same
      ∙ ap (λ t. judged (eval_t1 ch t (rest_of h.at_rest) h.shown.steps (1 ∷ 2 ∷ 3 ∷ []))) (sym own)
      ∙ ap (λ t. judged (eval_t1 ch cfg.own_tach (rest_of h.at_rest) h.shown.steps t)) (sym tachs)
      ∙ ap judged (sym h.shown.verdict)

recompute_t1-in_memory :
    (env : Env) (cfg : Config) (r q : Run env) (v : T1Verdict) (abort : Option AbortReason)
    → cfg.own_tach ≡ tach_of cfg.channel
    → cfg.tachs ≡ 1 ∷ 2 ∷ 3 ∷ []
    → All (λ s. NotT1 s.phase) r.samples
    → AllSilent r.events
    → run_t1 env cfg r ≡ some (q, judged v)
    → recompute_t1 cfg.channel abort q.samples (map (line_of q.start) q.events) ≡ judged v
recompute_t1-in_memory env cfg r q v abort own tachs before quiet e =
    let h = run_t1-Whole env cfg r q v e in
    let samples_same : q.samples ≡ recorded env cfg (log_of env r) (log_of env q) v h before quiet =
      h.shown.adds.samples ∙ ap (λ x. x ++ h.shown.ss) h.waits.1.samples in
    let events_same : q.events ≡ evs env cfg (log_of env r) (log_of env q) v h before quiet =
      h.shown.adds.events
      ∙ ap (λ x. x ++ (h.shown.es ++ (h.shown.end ∷ h.shown.tail))) h.waits.1.events in
    ap (λ x. recompute_t1 cfg.channel abort x (map (line_of q.start) q.events)) samples_same
    ∙ ap
        (λ x.
          recompute_t1 cfg.channel abort
            (recorded env cfg (log_of env r) (log_of env q) v h before quiet)
            (map (line_of q.start) x))
        events_same
    ∙ ap
        (λ t.
          recompute_t1 cfg.channel abort
            (recorded env cfg (log_of env r) (log_of env q) v h before quiet)
            (lines_of t (evs env cfg (log_of env r) (log_of env q) v h before quiet)))
        h.shown.adds.start
    ∙ judged_alike env cfg (log_of env r) (log_of env q) v h before quiet abort own tachs

-- When the mapping test is judged, the report recomputes the same verdict from the samples as samples.csv stores them,
-- with temperatures of one decimal, and from the events of the run, each with its time since the start. This is so for
-- a channel with its own tach and the tachs 1..3, when the run had neither samples of the mapping test nor writes nor
-- the event of its end before, when the temperatures of the controller and of the disks in its samples are whole
-- tenths of a degree (those of the processor and of the NVMe disks may be any), and for times in whole milliseconds.
pub recompute_t1-run_t1 :
    (env : Env) (cfg : Config) (r q : Run env) (v : T1Verdict) (abort : Option AbortReason)
    → cfg.own_tach ≡ tach_of cfg.channel
    → cfg.tachs ≡ 1 ∷ 2 ∷ 3 ∷ []
    → All (λ s. NotT1 s.phase) r.samples
    → AllSilent r.events
    → run_t1 env cfg r ≡ some (q, judged v)
    → All Exact q.samples
    → recompute_t1 cfg.channel abort (map stored q.samples) (map (line_of q.start) q.events)
      ≡ judged v
recompute_t1-run_t1 env cfg r q v abort own tachs before quiet e exact =
    recompute_t1-stored cfg.channel abort q.samples (map (line_of q.start) q.events) exact
    ∙ recompute_t1-in_memory env cfg r q v abort own tachs before quiet e
