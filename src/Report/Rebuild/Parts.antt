-- ===== src/Report/Rebuild/Parts.antt =====
-- The parts of a recorded mapping test, found again by their phases and events.
use mathlib.Core.List.{append-nil, append_assoc}
use minisforum_n5pro_fan_pro.Prelude.{
  ℕ, ◌-◌, ◌≡◌, refl, sym, ap, ◌∙◌, true, false, some, List, [], ◌∷◌, ◌++◌, map, All, All-map,
  All-append, arith, ◌==◌,
}
use minisforum_n5pro_fan_pro.Spec.Sample.{Sample, Phase, t1_rest, t1_step}
use minisforum_n5pro_fan_pro.Spec.Mapping.Defs.{T1Step}
use minisforum_n5pro_fan_pro.Runner.State.{Event, Stamped, wrote_duty, t1_complete}
use minisforum_n5pro_fan_pro.Runner.Recorded.{Silent}
use minisforum_n5pro_fan_pro.Runner.Recorded.Mapping.{step_from, Taken, nothing, step}
use minisforum_n5pro_fan_pro.Report.Lines.{
  Line, line_of, same_phase, phase_samples, has_t1_complete, is_write, write_ts,
}
use minisforum_n5pro_fan_pro.Report.Rebuild.{timed_step, rebuild_steps}

-- The samples of a phase among others.
pub phase_samples-append :
    (p : Phase) (xs ys : List Sample)
    → phase_samples p (xs ++ ys) ≡ phase_samples p xs ++ phase_samples p ys
unfolding phase_samples
phase_samples-append p [] ys = refl
phase_samples-append p (s ∷ xs) ys = ground (arith, phase_samples-append p xs ys)

pub phase_samples-none :
    (p : Phase) (ss : List Sample)
    → All (λ s. same_phase s.phase p ≡ false) ss
    → phase_samples p ss ≡ []
unfolding phase_samples
phase_samples-none p [] h = refl
phase_samples-none p (s ∷ ss) h = rw h.0 (phase_samples-none p ss h.1)

pub phase_samples-all :
    (p : Phase) (ss : List Sample)
    → All (λ s. same_phase s.phase p ≡ true) ss
    → phase_samples p ss ≡ ss
unfolding phase_samples
phase_samples-all p [] h = refl
phase_samples-all p (s ∷ ss) h = rw h.0 (ap (λ xs. s ∷ xs) (phase_samples-all p ss h.1))

-- A middle part in the phase, and no other sample of it.
pub phase_samples-middle :
    (p : Phase) (xs ss ys : List Sample)
    → All (λ s. same_phase s.phase p ≡ false) xs
    → All (λ s. same_phase s.phase p ≡ true) ss
    → All (λ s. same_phase s.phase p ≡ false) ys
    → phase_samples p (xs ++ (ss ++ ys)) ≡ ss
phase_samples-middle p xs ss ys h k l =
    phase_samples-append p xs (ss ++ ys)
    ∙ ap (λ a. a ++ phase_samples p (ss ++ ys)) (phase_samples-none p xs h)
    ∙ phase_samples-append p ss ys
    ∙ ap (λ a. phase_samples p ss ++ a) (phase_samples-none p ys l)
    ∙ append-nil (phase_samples p ss)
    ∙ phase_samples-all p ss k

abbrev pub lines_of : ℕ → List Stamped → List Line
lines_of start es = map (line_of start) es

-- The first write of a duty.
write_ts-skip :
    (start ch duty : ℕ) (es later : List Stamped)
    → All (λ e. is_write ch duty e.event ≡ false) es
    → write_ts (lines_of start (es ++ later)) ch duty ≡ write_ts (lines_of start later) ch duty
unfolding write_ts line_of
write_ts-skip start ch duty [] later h = refl
write_ts-skip start ch duty (e ∷ es) later h = rw h.0 (write_ts-skip start ch duty es later h.1)

write_ts-first :
    (start ch duty tw : ℕ) (later : List Stamped)
    → write_ts (lines_of start (record { time = tw; event = wrote_duty ch duty } ∷ later)) ch duty
      ≡ some (tw - start)
unfolding write_ts line_of
write_ts-first start ch duty tw later = ground arith

pub has_t1_complete-end :
    (start : ℕ) (es : List Stamped) (e : Stamped) (tail : List Stamped)
    → e.event ≡ t1_complete
    → has_t1_complete (lines_of start (es ++ (e ∷ tail))) ≡ true
unfolding has_t1_complete line_of
has_t1_complete-end start [] e tail h = rw h refl
has_t1_complete-end start (x ∷ es) e tail h = ground (arith, has_t1_complete-end start es e tail h)

-- Neither a sample of a step of these duties nor a write of one of them.
abbrev pub OtherThan : List ℕ → Sample → Type 0
OtherThan duties s = All (λ d. same_phase s.phase (t1_step d) ≡ false) duties

abbrev pub NoWriteOf : ℕ → List ℕ → Stamped → Type 0
NoWriteOf ch duties e = All (λ d. is_write ch d e.event ≡ false) duties

abbrev pub Different : List ℕ → Type 0
Different [] = Unit
Different (d ∷ ds) = All (λ e. (d == e) ≡ false) ds × Different ds

Silent-is_write : (ch d : ℕ) (e : Event) → Silent e → is_write ch d e ≡ false
Silent-is_write ch d (wrote_duty c x) s = absurd s
Silent-is_write ch d _ s = refl

in_phase : (p q : Phase) → p ≡ q → same_phase q q ≡ true → same_phase p q ≡ true
in_phase p q e h = rw e h

Taken-other :
    (ch start d : ℕ) {duties : List ℕ} {steps : List T1Step} {ss : List Sample} {es : List Stamped}
    → Taken ch start duties steps ss es
    → All (λ e. (d == e) ≡ false) duties
    → All (λ s. same_phase s.phase (t1_step d) ≡ false) ss
Taken-other ch start d nothing ne = tt
Taken-other ch start d (step duty tw duties steps ss more es later phases quiet rest) ne =
    All-append (λ s. same_phase s.phase (t1_step d) ≡ false) ss more
      (All-map {Q = λ s. same_phase s.phase (t1_step d) ≡ false}
        (λ s e. rw e (ground (arith, ne.0))) ss phases)
      (Taken-other ch start d rest ne.1)

pub Taken-rest :
    (ch start : ℕ) {duties : List ℕ} {steps : List T1Step} {ss : List Sample} {es : List Stamped}
    → Taken ch start duties steps ss es
    → All (λ s. same_phase s.phase t1_rest ≡ false) ss
Taken-rest ch start nothing = tt
Taken-rest ch start (step duty tw duties steps ss more es later phases quiet rest) =
    All-append (λ s. same_phase s.phase t1_rest ≡ false) ss more
      (All-map {Q = λ s. same_phase s.phase t1_rest ≡ false} (λ s e. rw e refl) ss phases)
      (Taken-rest ch start rest)

other_duties :
    (duty : ℕ) (duties : List ℕ) (s : Sample)
    → s.phase ≡ t1_step duty
    → All (λ e. (duty == e) ≡ false) duties
    → OtherThan duties s
other_duties duty duties s e ne =
    All-map {Q = λ d. same_phase s.phase (t1_step d) ≡ false} (λ d h. rw e h) duties ne

no_write :
    (ch duty tw : ℕ) (duties : List ℕ)
    → All (λ e. (duty == e) ≡ false) duties
    → NoWriteOf ch duties (record { time = tw; event = wrote_duty ch duty })
no_write ch duty tw duties ne =
    All-map {Q = λ d. is_write ch d (wrote_duty ch duty) ≡ false} (λ d h. ground (arith, h)) duties
      ne

pub Silent-NoWriteOf :
    (ch : ℕ) (duties : List ℕ) (e : Stamped) → Silent e.event → NoWriteOf ch duties e
Silent-NoWriteOf ch [] e s = tt
Silent-NoWriteOf ch (d ∷ duties) e s =
    (Silent-is_write ch d e.event s, Silent-NoWriteOf ch duties e s)

pub rebuild_steps-Taken :
    (ch start : ℕ) {duties : List ℕ} {steps : List T1Step} {ss : List Sample} {es : List Stamped}
    → Taken ch start duties steps ss es
    → (before : List Sample) (old tail : List Stamped) → All (OtherThan duties) before
    → All (NoWriteOf ch duties) old
    → Different duties
    → rebuild_steps ch (before ++ ss) (lines_of start (old ++ (es ++ tail))) duties ≡ steps
unfolding rebuild_steps
rebuild_steps-Taken ch start nothing before old tail b o d = refl
rebuild_steps-Taken ch start (step duty tw duties steps ss more es later phases quiet rest) before
      old tail b o d =
    let smp = before ++ (ss ++ more) in
    let w : Stamped = record { time = tw; event = wrote_duty ch duty } in
    let ls = lines_of start (old ++ (w ∷ ((es ++ later) ++ tail))) in
    let at : write_ts ls ch duty ≡ some (tw - start) =
      write_ts-skip start ch duty old (w ∷ ((es ++ later) ++ tail))
        (All-map {Q = λ e. is_write ch duty e.event ≡ false} (λ e h. h.0) old o)
      ∙ write_ts-first start ch duty tw ((es ++ later) ++ tail) in
    let here : phase_samples (t1_step duty) smp ≡ ss =
      phase_samples-middle (t1_step duty) before ss more
        (All-map {Q = λ s. same_phase s.phase (t1_step duty) ≡ false} (λ s h. h.0) before b)
        (All-map {Q = λ s. same_phase s.phase (t1_step duty) ≡ true} (λ s e. rw e (ground arith)) ss
          phases)
        (Taken-other ch start duty rest d.0) in
    let ih =
      rebuild_steps-Taken ch start rest (before ++ ss) (old ++ (w ∷ es)) tail
        (All-append (OtherThan duties) before ss
          (All-map {Q = OtherThan duties} (λ s h. h.1) before b)
          (All-map {Q = OtherThan duties} (λ s e. other_duties duty duties s e d.0) ss phases))
        (All-append (NoWriteOf ch duties) old (w ∷ es)
          (All-map {Q = NoWriteOf ch duties} (λ e h. h.1) old o)
          (
            no_write ch duty tw duties d.0,
            All-map {Q = NoWriteOf ch duties} (λ e s. Silent-NoWriteOf ch duties e s) es quiet,
          ))
        d.1 in
    let samples_same = append_assoc before ss more in
    let events_same : ((old ++ (w ∷ es)) ++ (later ++ tail))
        ≡ (old ++ (w ∷ ((es ++ later) ++ tail))) =
      append_assoc old (w ∷ es) (later ++ tail)
      ∙ ap (λ x. old ++ (w ∷ x)) (sym (append_assoc es later tail)) in
    ap
      (λ t.
        timed_step ch duty t (phase_samples (t1_step duty) smp) ∷ rebuild_steps ch smp ls duties)
      at
    ∙ ap (λ x. step_from ch start duty tw x ∷ rebuild_steps ch smp ls duties) here
    ∙ ap (λ x. step_from ch start duty tw ss ∷ x)
        (ap (λ x. rebuild_steps ch x ls duties) (sym samples_same)
          ∙ ap (λ x. rebuild_steps ch ((before ++ ss) ++ more) (lines_of start x) duties)
              (sym events_same)
          ∙ ih)

-- Not a sample of the mapping test.
abbrev pub NotT1 : Phase → Type 0
NotT1 t1_rest = ⊥
NotT1 (t1_step d) = ⊥
NotT1 _ = Unit

pub NotT1-rest : (p : Phase) → NotT1 p → same_phase p t1_rest ≡ false
NotT1-rest t1_rest h = absurd h
NotT1-rest (t1_step d) h = absurd h
NotT1-rest _ h = refl

pub NotT1-step : (p : Phase) (d : ℕ) → NotT1 p → same_phase p (t1_step d) ≡ false
NotT1-step t1_rest d h = absurd h
NotT1-step (t1_step x) d h = absurd h
NotT1-step _ d h = refl

pub NotT1-other : (duties : List ℕ) (s : Sample) → NotT1 s.phase → OtherThan duties s
NotT1-other [] s h = tt
NotT1-other (d ∷ duties) s h = (NotT1-step s.phase d h, NotT1-other duties s h)
