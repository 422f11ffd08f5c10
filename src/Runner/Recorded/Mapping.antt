-- ===== src/Runner/Recorded/Mapping.antt =====
-- What a mapping test that was judged has recorded: the samples at rest, for each duty the write and the samples of its
-- hold, and the event at the end.
use mathlib.Core.Path.{subst}
use mathlib.Core.List.{append-nil, append_assoc}
use minisforum_n5pro_fan_pro.Prelude.{
  ℕ, ◌-◌, ◌≡◌, refl, sym, ap, ◌∙◌, Option, none, some, List, [], ◌∷◌, ◌++◌, All, split-bool,
  split-option,
}
use minisforum_n5pro_fan_pro.Spec.Sample.{Sample, t1_rest, t1_step}
use minisforum_n5pro_fan_pro.Spec.Tables.{t1_steps}
use minisforum_n5pro_fan_pro.Spec.Mapping.Defs.{T1Step}
use minisforum_n5pro_fan_pro.Spec.Mapping.Eval.{Rest, T1Verdict, eval_t1}
use minisforum_n5pro_fan_pro.Runner.Env.{Env, Config}
use minisforum_n5pro_fan_pro.Runner.State.{
  Run, Stamped, no_manual, no_write, wrote_duty, write, manual, log_event, t1_begins, t1_complete,
}
use minisforum_n5pro_fan_pro.Runner.Series.{
  over_samples, no_rest, add_rest, add_t1_sample, empty_step,
}
use minisforum_n5pro_fan_pro.Runner.Steps.{not_started, samples_of}
use minisforum_n5pro_fan_pro.Runner.Mapping.{
  AfterT1, not_run, judged, t1_cut, step_of, t1_loop, t1_finish, t1_measure, run_t1,
}
use minisforum_n5pro_fan_pro.Runner.Reached.Rules.{Gives, after_hold-Gives, after_command-Gives}
use minisforum_n5pro_fan_pro.Runner.Recorded.{
  AllSilent, Log, Adds, Adds-trans, Quietly, Quietly-nothing, Quietly-trans, log_of, log_event-Adds,
  log_event-Quietly,
}
use minisforum_n5pro_fan_pro.Runner.Recorded.Holds.{hold_from-Handed}
use minisforum_n5pro_fan_pro.Runner.Recorded.Commands.{manual-Fine, give_back-Fine, write-Adds}

-- The step of a duty written at `tw` in a run that began at `start`.
abbrev pub step_from : (ch start duty tw : ℕ) → List Sample → T1Step
step_from ch start duty tw ss = over_samples (add_t1_sample ch (tw - start)) (empty_step duty) ss

-- The duties written one after the other, each followed by the samples of its hold and other events: the steps, the
-- samples and the events.
pub data Taken (ch start : ℕ) : List ℕ → List T1Step → List Sample → List Stamped → Type 0 where
  nothing : Taken ch start [] [] [] []
  step :
      (duty tw : ℕ) (duties : List ℕ) (steps : List T1Step) (ss more : List Sample)
      (es later : List Stamped)
      → All (λ s. s.phase ≡ t1_step duty) ss
      → AllSilent es
      → Taken ch start duties steps more later
      → Taken ch start
          (duty ∷ duties)
          (step_from ch start duty tw ss ∷ steps)
          (ss ++ more)
          (record { time = tw; event = wrote_duty ch duty } ∷ (es ++ later))

pub record Shown (cfg : Config) (a b : Log) (rest : Rest) (before : List T1Step) (duties : List ℕ)
    (v : T1Verdict) : Type 0 where
  pub steps : List T1Step
  pub ss : List Sample
  pub es : List Stamped
  pub end : Stamped
  pub tail : List Stamped
  pub taken : Taken cfg.channel a.start duties steps ss es
  pub adds : Adds a b ss (es ++ (end ∷ tail))
  pub ended : end.event ≡ t1_complete
  pub silent : AllSilent tail
  pub verdict : v ≡ eval_t1 cfg.channel cfg.own_tach rest (before ++ steps) cfg.tachs

module _ (env : Env) (cfg : Config) where
  open env use {now}

  abbrev ShownBy : Log → Rest → List T1Step → List ℕ → AfterT1 env cfg → Type 0
  ShownBy a rest before duties (q, not_run why) = Unit
  ShownBy a rest before duties (q, judged v) = Shown cfg a (log_of env q) rest before duties v

  t1_finish-Shown :
      (rest : Rest) (steps : List T1Step) (r : Run env)
      → Gives (ShownBy (log_of env r) rest steps []) (t1_finish env cfg rest steps r)
  unfolding t1_finish
  t1_finish-Shown rest steps r =
      let q = log_event env t1_complete r in
      let (tail, back, quiet) =
        give_back-Fine env (log_of env q) cfg.channel q (Quietly-nothing (log_of env q)) in
      record {
        steps = [];
        ss = [];
        es = [];
        end = record { time = now r.world; event = t1_complete };
        tail = tail;
        taken = nothing;
        adds = Adds-trans (log_event-Adds env t1_complete r) back;
        ended = refl;
        silent = quiet;
        verdict =
            ap (λ x. eval_t1 cfg.channel cfg.own_tach rest x cfg.tachs) (sym (append-nil steps));
      }

  -- One more step before the others.
  add_step :
      (a b c : Log) (rest : Rest) (before : List T1Step) (duty tw : ℕ) (duties : List ℕ)
      (ss : List Sample) (v : T1Verdict)
      → Adds a b [] (record { time = tw; event = wrote_duty cfg.channel duty } ∷ [])
      → (d : Log) → Quietly b c ss
      → All (λ s. s.phase ≡ t1_step duty) ss
      → Shown cfg c d rest (before ++ (step_from cfg.channel c.start duty tw ss ∷ [])) duties v
      → Shown cfg a d rest before (duty ∷ duties) v
  add_step a b c rest before duty tw duties ss v wrote d (es, held, quiet) phases shown =
      let same : c.start ≡ a.start = held.start ∙ wrote.start in
      let now_taken =
        subst (λ t. Taken cfg.channel t duties shown.steps shown.ss shown.es) same shown.taken in
      record {
        steps = step_from cfg.channel a.start duty tw ss ∷ shown.steps;
        ss = ss ++ shown.ss;
        es = record { time = tw; event = wrote_duty cfg.channel duty } ∷ (es ++ shown.es);
        end = shown.end;
        tail = shown.tail;
        taken = step duty tw duties shown.steps ss shown.ss es shown.es phases quiet now_taken;
        adds =
            subst (Adds a d (ss ++ shown.ss))
              (ap (λ x. record { time = tw; event = wrote_duty cfg.channel duty } ∷ x)
                (sym (append_assoc es shown.es (shown.end ∷ shown.tail))))
              (Adds-trans wrote (Adds-trans held shown.adds));
        ended = shown.ended;
        silent = shown.silent;
        verdict =
            shown.verdict
            ∙ ap (λ x. eval_t1 cfg.channel cfg.own_tach rest x cfg.tachs)
                (append_assoc before (step_from cfg.channel c.start duty tw ss ∷ []) shown.steps
                  ∙ ap (λ t. before ++ (step_from cfg.channel t duty tw ss ∷ shown.steps)) same);
      }

  later_step :
      (a b c : Log) (rest : Rest) (before : List T1Step) (duty tw : ℕ) (duties : List ℕ)
      (ss : List Sample)
      → Adds a b [] (record { time = tw; event = wrote_duty cfg.channel duty } ∷ [])
      → Quietly b c ss
      → All (λ s. s.phase ≡ t1_step duty) ss
      → (o : AfterT1 env cfg)
      → ShownBy c rest (before ++ (step_from cfg.channel c.start duty tw ss ∷ [])) duties o
      → ShownBy a rest before (duty ∷ duties) o
  later_step a b c rest before duty tw duties ss wrote quiet phases (q, not_run why) h = tt
  later_step a b c rest before duty tw duties ss wrote quiet phases (q, judged v) h =
      add_step a b c rest before duty tw duties ss v wrote (log_of env q) quiet phases h

  Gives-map :
      {A : Type 0} (P Q : A → Type 0) (o : Option A) → ((x : A) → P x → Q x) → Gives P o → Gives Q o
  Gives-map P Q none f h = h
  Gives-map P Q (some x) f h = f x h

  t1_loop-Shown :
      (rest : Rest) (duties : List ℕ) (before : List T1Step) (r : Run env)
      → Gives
          (ShownBy (log_of env r) rest before duties)
          (t1_loop env cfg duties before (t1_finish env cfg rest) r)
  unfolding t1_loop step_of
  t1_loop-Shown rest [] before r = t1_finish-Shown rest before r
  t1_loop-Shown rest (duty ∷ duties) before r =
      let p = (write env cfg.channel duty r).0 in
      let P = ShownBy (log_of env r) rest before (duty ∷ duties) in
      after_command-Gives env P no_write (write env cfg.channel duty r) (t1_cut env cfg) _ tt
        (λ tw e.
          after_hold-Gives env P cfg tw (t1_step duty) (some duty) cfg.hold p
            (λ h. t1_cut env cfg h.run)
            (λ h.
              t1_loop env cfg duties (before ++ (step_of env cfg duty tw h ∷ []))
                (t1_finish env cfg rest) h.run)
            (λ h ends.
              let handed =
                hold_from-Handed env cfg tw (t1_step duty) (some duty) cfg.hold p h ends in
              (
                tt,
                Gives-map
                    (ShownBy (log_of env h.run) rest (before ++ (step_of env cfg duty tw h ∷ []))
                      duties)
                    P _
                    (later_step (log_of env r) (log_of env p) (log_of env h.run) rest before duty tw
                      duties (samples_of h.seen) (write-Adds env cfg.channel duty tw r e) handed.0
                      handed.1)
                    (t1_loop-Shown rest duties (before ++ (step_of env cfg duty tw h ∷ [])) h.run),
              )))

  -- A judged test from the state `a` to the state `b`: the samples at rest, then the steps.
  pub record Whole (a b : Log) (v : T1Verdict) : Type 0 where
    pub middle : Log
    pub at_rest : List Sample
    pub waits : Quietly a middle at_rest
    pub phases : All (λ s. s.phase ≡ t1_rest) at_rest
    pub shown :
        Shown cfg middle b (over_samples (add_rest cfg.channel) no_rest at_rest) [] t1_steps v

  abbrev WholeBy : Log → AfterT1 env cfg → Type 0
  WholeBy a (q, not_run why) = Unit
  WholeBy a (q, judged v) = Whole a (log_of env q) v

  whole_of :
      (a middle : Log) (ss : List Sample)
      → Quietly a middle ss
      → All (λ s. s.phase ≡ t1_rest) ss
      → (o : AfterT1 env cfg)
      → ShownBy middle (over_samples (add_rest cfg.channel) no_rest ss) [] t1_steps o
      → WholeBy a o
  whole_of a middle ss quiet phases (q, not_run why) h = tt
  whole_of a middle ss quiet phases (q, judged v) h = record {
    middle = middle;
    at_rest = ss;
    waits = quiet;
    phases = phases;
    shown = h;
  }

  t1_measure-Whole : (r : Run env) → Gives (WholeBy (log_of env r)) (t1_measure env cfg r)
  unfolding t1_measure
  t1_measure-Whole r =
      let a = log_of env r in
      let q = log_event env (t1_begins cfg.channel) r in
      let P = WholeBy a in
      after_hold-Gives env P cfg (now q.world) t1_rest none cfg.hold q (λ h. t1_cut env cfg h.run) _
        (λ h ends.
          let handed = hold_from-Handed env cfg (now q.world) t1_rest none cfg.hold q h ends in
          let p = (manual env cfg.channel h.run).0 in
          let taken = manual-Fine env (log_of env h.run) cfg.channel h.run (Quietly-nothing _) in
          let rest = over_samples (add_rest cfg.channel) no_rest (samples_of h.seen) in
          let began = log_event-Quietly env a [] (t1_begins cfg.channel) r tt (Quietly-nothing a) in
          let quiet =
            subst (Quietly a (log_of env p)) (append-nil (samples_of h.seen))
              (Quietly-trans (Quietly-trans began handed.0) taken) in
          (
            tt,
            after_command-Gives env P no_manual (manual env cfg.channel h.run) (t1_cut env cfg) _ tt
                (λ t e.
                  Gives-map (ShownBy (log_of env p) rest [] t1_steps) P _
                    (whole_of a (log_of env p) (samples_of h.seen) quiet handed.1)
                    (t1_loop-Shown rest t1_steps [] p)),
          ))

  -- A mapping test that is judged has recorded all that it is judged by.
  pub run_t1-Whole :
      (r q : Run env) (v : T1Verdict)
      → run_t1 env cfg r ≡ some (q, judged v)
      → Whole (log_of env r) (log_of env q) v
  unfolding run_t1
  run_t1-Whole r q v e =
      let P = WholeBy (log_of env r) in
      subst (Gives P) e (
        split-bool (Gives P) r.dcr_ok _ _
          (λ _.
            split-option (Gives P) r.abort (t1_measure env cfg r)
              (λ why. some (r, not_run (not_started why))) (λ _. t1_measure-Whole r) (λ why _. tt))
          (λ _. tt))
