-- ===== src/Runner/Recorded/Holds.antt =====
-- What samples, holds and stops add to the lists of a run.
use mathlib.Core.Path.{subst}
use mathlib.Core.List.{append_assoc}
use minisforum_n5pro_fan_pro.Prelude.{
  ℕ, zero, suc, ◌+◌, ◌-◌, ◌*◌, ◌/◌, ◌≡◌, refl, sym, ap, ◌∙◌, inl, inr, Option, none, some, List, [],
  ◌∷◌, ◌++◌, ℤ, ◌==◌, ltb, Option-cases, split-option, split-bool, split-if, All, All-append,
}
use minisforum_n5pro_fan_pro.Spec.Sample.{Sample, Phase}
use minisforum_n5pro_fan_pro.Spec.Gate.Defs.{Limit}
use minisforum_n5pro_fan_pro.Runner.Env.{Env, Config, Dcr, Readings}
use minisforum_n5pro_fan_pro.Runner.State.{
  Run, AbortReason, cancelled, too_hot, aborted, off_due, stop, log_event,
}
use minisforum_n5pro_fan_pro.Runner.Sampling.{
  stamp, reading, lose, lose_all, mark_hot, over, check_hot, limits, check_limits, read_dcr, row,
  sample_at,
}
use minisforum_n5pro_fan_pro.Runner.Hold.{
  Held, next_slot, after_sample, hold_loop, hold_from, slots,
}
use minisforum_n5pro_fan_pro.Runner.Steps.{samples_of}
use minisforum_n5pro_fan_pro.Runner.Recorded.{
  Log, Quietly, Quietly-nothing, log_of, log_event-Quietly,
}

module _ (env : Env) where
  module _ (cfg : Config) (a : Log) (ss : List Sample) where
    open env use {foreign}

    -- What the operations below keep.
    abbrev Fine : Run env → Type 0
    Fine r = Quietly a (log_of env r) ss

    pub stop-Quietly : (why : AbortReason) (r : Run env) → Fine r → Fine (stop env why r)
    unfolding stop
    stop-Quietly why r h =
        split-option Fine r.abort (log_event env (aborted why) (record r { abort = some why }))
          (λ first. r)
          (λ _. log_event-Quietly env a ss (aborted why) (record r { abort = some why }) tt h)
          (λ first _. h)

    stamp-Quietly : (due : Option ℕ) (r : Run env) → Fine r → Fine (stamp env cfg due r).0
    unfolding stamp
    stamp-Quietly none r h = h
    stamp-Quietly (some due) r h =
        split-if {A = Run env × ℕ} (λ x. Fine x.0) _ _ _ (λ _. h)
          (λ _. log_event-Quietly env a ss (off_due _ _) r tt h)

    lose-Quietly : (l : Limit) (o : Option ℤ) (r : Run env) → Fine r → Fine (lose env cfg l o r).0
    lose-Quietly l (some v) r h = split-if Fine (r.limit_sensors l) _ _ (λ _. h) (λ _. h)
    lose-Quietly l none r h =
        split-if {A = Run env × Option AbortReason} (λ x. Fine x.0) (r.limit_sensors l) _ _ (λ _. h)
          (λ _. h)

    lose_all-Quietly :
        (ls : List Limit) (rd : Readings) (r : Run env) → Fine r → Fine (lose_all env cfg ls rd r).0
    unfolding lose_all
    lose_all-Quietly [] rd r h = h
    lose_all-Quietly (l ∷ ls) rd r h =
        let lost = lose-Quietly l (reading l rd) r h in
        let q = (lose env cfg l (reading l rd) r).0 in
        split-option {B = Run env × Option AbortReason} (λ x. Fine x.0)
          (lose env cfg l (reading l rd) r).1 (lose_all env cfg ls rd q) (λ why. (q, some why))
          (λ _. lose_all-Quietly ls rd q lost) (λ why _. lost)

    mark_hot-Quietly : (l : Limit) (r : Run env) → Fine r → Fine (mark_hot env cfg l r)
    unfolding mark_hot
    mark_hot-Quietly l r h = elim (Option-cases r.abort) [
      | inl e ↦ rw e (split-if Fine (r.hot == 0) _ _ (λ _. h) (λ _. h))
      | inr (why, e) ↦ rw e h
    ]

    check_hot-Quietly :
        (ls : List Limit) (rd : Readings) (d : Option Dcr) (r : Run env)
        → Fine r
        → Fine (check_hot env cfg ls rd d r).0
    unfolding check_hot
    check_hot-Quietly [] rd d r h = h
    check_hot-Quietly (l ∷ ls) rd d r h =
        split-option {B = Run env × Option AbortReason} (λ x. Fine x.0) (over l rd)
          (check_hot env cfg ls rd d r) (λ v. (mark_hot env cfg l r, some (too_hot l v)))
          (λ _. check_hot-Quietly ls rd d r h) (λ v _. mark_hot-Quietly l r h)

    check_limits-Quietly :
        (rd : Readings) (d : Option Dcr) (r : Run env)
        → Fine r
        → Fine (check_limits env cfg rd d r).0
    unfolding check_limits
    check_limits-Quietly rd d r h =
        let g : Run env = record r { world = (foreign r.world).0 } in
        let watched = lose_all-Quietly (limits env cfg) rd g h in
        split-if {A = Run env × Option AbortReason} (λ x. Fine x.0) (foreign r.world).1 _ _ (λ _. h)
          (λ _.
            split-option {B = Run env × Option AbortReason} (λ x. Fine x.0)
              (lose_all env cfg (limits env cfg) rd g).1 _ _
              (λ _. check_hot-Quietly (limits env cfg) rd d _ watched) (λ why _. watched))

  add_row :
      (a : Log) (ss : List Sample) (r : Run env) (s : Sample)
      → Quietly a (log_of env r) ss
      → Quietly a (log_of env (record r { samples = r.samples ++ (s ∷ []) })) (ss ++ (s ∷ []))
  add_row a ss r s (es, h, silent) = (
    es,
    record {
      samples = ap (λ x. x ++ (s ∷ [])) h.samples ∙ append_assoc a.samples ss (s ∷ []);
      events = h.events;
      start = h.start;
    },
    silent,
  )

  module _ (cfg : Config) (a : Log) (phase : Phase) where
    open env use {World, now}

    -- The sample is added last, in its phase.
    pub sample_at-Quietly :
        (duty due : Option ℕ) (ss : List Sample) (r : Run env)
        → Quietly a (log_of env r) ss
        → Quietly a
            (log_of env (sample_at env cfg phase duty due r).0)
            (ss ++ ((sample_at env cfg phase duty due r).1 ∷ []))
          × ((sample_at env cfg phase duty due r).1.phase ≡ phase)
    unfolding sample_at row
    sample_at-Quietly duty due ss r h =
        let stamped = stamp-Quietly cfg a ss due r h in
        let (q, ts) = stamp env cfg due r in
        let (v, d) = read_dcr env cfg q.dcr_ok q.world in
        let (w, rd) = env.read v in
        let s = row env cfg ts phase duty d rd in
        (check_limits-Quietly cfg a (ss ++ (s ∷ [])) rd d _ (add_row a ss q s stamped), refl)

    samples_of-snoc :
        (k : ℕ) (s : Sample) (seen : List (ℕ × Sample))
        → samples_of (seen ++ ((k, s) ∷ [])) ≡ samples_of seen ++ (s ∷ [])
    samples_of-snoc k s [] = refl
    samples_of-snoc k s ((j, x) ∷ seen) = ap (λ ss. x ∷ ss) (samples_of-snoc k s seen)

    -- What a hold adds are the samples that it hands to its caller.
    abbrev Handed : Run env → List (ℕ × Sample) → Type 0
    Handed r seen =
        Quietly a (log_of env r) (samples_of seen) × All (λ s. s.phase ≡ phase) (samples_of seen)

    abbrev AllHanded : Option (Held env) → Type 0
    AllHanded none = Unit
    AllHanded (some h) = Handed h.run h.seen

    snoc-Handed :
        (k : ℕ) (s : Sample) (seen : List (ℕ × Sample)) (q : Run env)
        → Quietly a (log_of env q) (samples_of seen ++ (s ∷ []))
        → s.phase ≡ phase
        → All (λ x. x.phase ≡ phase) (samples_of seen)
        → Handed q (seen ++ ((k, s) ∷ []))
    snoc-Handed k s seen q h e before =
        let same = sym (samples_of-snoc k s seen) in
        (
          subst (Quietly a (log_of env q)) same h,
          subst (All (λ x. x.phase ≡ phase)) same
              (All-append (λ x. x.phase ≡ phase) (samples_of seen) (s ∷ []) before (e, tt)),
        )

    module _ (anchor : ℕ) (duty : Option ℕ) (n : ℕ) where
      after_sample-Handed :
          (k : ℕ) (seen : List (ℕ × Sample)) (o : Run env × Sample × Option AbortReason)
          (next : Run env → List (ℕ × Sample) → Option (Held env))
          → Handed o.0 (seen ++ ((k, o.1) ∷ []))
          → ((p : Run env) (more : List (ℕ × Sample)) → Handed p more → AllHanded (next p more))
          → AllHanded (after_sample env cfg anchor phase duty n k seen o next)
      after_sample-Handed k seen (q, s, none) next h keep = keep q (seen ++ ((k, s) ∷ [])) h
      after_sample-Handed k seen (q, s, some why) next h keep =
          (stop-Quietly cfg a (samples_of (seen ++ ((k, s) ∷ []))) why q h.0, h.1)

      hold_loop-Handed :
          (fuel k : ℕ) (seen : List (ℕ × Sample)) (r : Run env)
          → Handed r seen
          → AllHanded (hold_loop env cfg anchor phase duty n fuel k seen r)
      unfolding hold_loop
      hold_loop-Handed zero k seen r h = tt
      hold_loop-Handed (suc fuel) k seen r h =
          let due = anchor + k * cfg.sample in
          let slept : Run env = record r { world = (env.sleep (due - now r.world) r.world).0 } in
          let taken = sample_at-Quietly duty (some due) (samples_of seen) slept h.0 in
          split-bool AllHanded (ltb n k) _ _ (λ _. h)
            (λ _.
              split-bool AllHanded (env.sleep (due - now r.world) r.world).1 _ _
                (λ _.
                  after_sample-Handed k seen (sample_at env cfg phase duty (some due) slept)
                    (λ p more.
                      hold_loop env cfg anchor phase duty n fuel
                        (next_slot k n ((now p.world - anchor) / cfg.sample + 1)) more p)
                    (snoc-Handed k (sample_at env cfg phase duty (some due) slept).1 seen
                      (sample_at env cfg phase duty (some due) slept).0 taken.0 taken.1 h.1)
                    (λ p more fine. hold_loop-Handed fuel _ more p fine))
                (λ _. (stop-Quietly cfg a (samples_of seen) cancelled slept h.0, h.1)))

  -- A hold adds the samples that it hands to its caller, all in its phase, and no event that the report reads.
  pub hold_from-Handed :
      (cfg : Config) (anchor : ℕ) (phase : Phase) (duty : Option ℕ) (d : ℕ) (r : Run env)
      (h : Held env)
      → hold_from env cfg anchor phase duty d r ≡ some h
      → Quietly (log_of env r) (log_of env h.run) (samples_of h.seen)
        × All (λ s. s.phase ≡ phase) (samples_of h.seen)
  unfolding hold_from
  hold_from-Handed cfg anchor phase duty d r h e = subst (AllHanded cfg (log_of env r) phase) e (
      hold_loop-Handed cfg (log_of env r) phase anchor duty (slots cfg d) (slots cfg d + 1) 1 [] r
        (Quietly-nothing (log_of env r), tt))
