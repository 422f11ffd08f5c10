-- ===== src/Runner/Kept.antt =====
-- What samples, holds and stops keep: a property of the machine, of the touched channels and of whether the run has
-- written, when it outlasts sleeps and readings.
use mathlib.Core.Path.{subst}
use minisforum_n5pro_fan_pro.Prelude.{
  ℕ, zero, suc, ◌+◌, ◌-◌, ◌*◌, ◌/◌, ◌≡◌, inl, inr, Bool, true, false, Option, none, some, List, [],
  ◌∷◌, ◌++◌, ℤ, ◌==◌, ltb, Option-cases, split-option, split-bool, split-if,
}
use minisforum_n5pro_fan_pro.Spec.Sample.{Sample, Phase}
use minisforum_n5pro_fan_pro.Spec.Gate.Defs.{Limit}
use minisforum_n5pro_fan_pro.Runner.Env.{Env, Config, Dcr, Readings}
use minisforum_n5pro_fan_pro.Runner.State.{Run, AbortReason, cancelled, too_hot, stop}
use minisforum_n5pro_fan_pro.Runner.Sampling.{
  stamp, reading, lose, lose_all, mark_hot, over, check_hot, limits, check_limits, read_dcr,
  sample_at,
}
use minisforum_n5pro_fan_pro.Runner.Hold.{
  Held, next_slot, after_sample, hold_loop, hold_from, slots,
}

abbrev pub Property : Env → Type 1
Property env = env.World → (ℕ → Bool) → Bool → Type 0

-- Sleeps and readings keep the property.
pub record Outlasts (env : Env) (Q : Property env) : Type 0 where
  pub sleep_keeps :
      (d : ℕ) (w : env.World) (t : ℕ → Bool) (wrote : Bool)
      → Q w t wrote
      → Q (env.sleep d w).0 t wrote
  pub dcr_keeps :
      (w : env.World) (t : ℕ → Bool) (wrote : Bool) → Q w t wrote → Q (env.dcr w).0 t wrote
  pub read_keeps :
      (w : env.World) (t : ℕ → Bool) (wrote : Bool) → Q w t wrote → Q (env.read w).0 t wrote
  pub foreign_keeps :
      (w : env.World) (t : ℕ → Bool) (wrote : Bool) → Q w t wrote → Q (env.foreign w).0 t wrote

module _ (env : Env) (Q : Property env) (laws : Outlasts env Q) (cfg : Config) where
  open env use {World, now, foreign}
  open laws use {sleep_keeps, dcr_keeps, read_keeps, foreign_keeps}

  abbrev Fine : Run env → Type 0
  Fine r = Q r.world r.touched r.wrote

  pub stop-Kept : (why : AbortReason) (r : Run env) → Fine r → Fine (stop env why r)
  unfolding stop
  stop-Kept why r h = elim (Option-cases r.abort) [ inl e ↦ rw e h | inr (a, e) ↦ rw e h ]

  stamp-Kept : (due : Option ℕ) (r : Run env) → Fine r → Fine (stamp env cfg due r).0
  unfolding stamp
  stamp-Kept none r h = h
  stamp-Kept (some due) r h = split-if {A = Run env × ℕ} (λ x. Fine x.0) _ _ _ (λ _. h) (λ _. h)

  lose-Kept : (l : Limit) (o : Option ℤ) (r : Run env) → Fine r → Fine (lose env cfg l o r).0
  lose-Kept l (some v) r h = split-if Fine (r.limit_sensors l) _ _ (λ _. h) (λ _. h)
  lose-Kept l none r h =
      split-if {A = Run env × Option AbortReason} (λ x. Fine x.0) (r.limit_sensors l) _ _ (λ _. h)
        (λ _. h)

  lose_all-Kept :
      (ls : List Limit) (rd : Readings) (r : Run env) → Fine r → Fine (lose_all env cfg ls rd r).0
  unfolding lose_all
  lose_all-Kept [] rd r h = h
  lose_all-Kept (l ∷ ls) rd r h =
      let lost = lose-Kept l (reading l rd) r h in
      let q = (lose env cfg l (reading l rd) r).0 in
      split-option {B = Run env × Option AbortReason} (λ x. Fine x.0)
        (lose env cfg l (reading l rd) r).1 (lose_all env cfg ls rd q) (λ why. (q, some why))
        (λ _. lose_all-Kept ls rd q lost) (λ why _. lost)

  mark_hot-Kept : (l : Limit) (r : Run env) → Fine r → Fine (mark_hot env cfg l r)
  unfolding mark_hot
  mark_hot-Kept l r h = elim (Option-cases r.abort) [
    | inl e ↦ rw e (split-if Fine (r.hot == 0) _ _ (λ _. h) (λ _. h))
    | inr (a, e) ↦ rw e h
  ]

  check_hot-Kept :
      (ls : List Limit) (rd : Readings) (d : Option Dcr) (r : Run env)
      → Fine r
      → Fine (check_hot env cfg ls rd d r).0
  unfolding check_hot
  check_hot-Kept [] rd d r h = h
  check_hot-Kept (l ∷ ls) rd d r h =
      split-option {B = Run env × Option AbortReason} (λ x. Fine x.0) (over l rd)
        (check_hot env cfg ls rd d r) (λ v. (mark_hot env cfg l r, some (too_hot l v)))
        (λ _. check_hot-Kept ls rd d r h) (λ v _. mark_hot-Kept l r h)

  check_limits-Kept :
      (rd : Readings) (d : Option Dcr) (r : Run env) → Fine r → Fine (check_limits env cfg rd d r).0
  unfolding check_limits
  check_limits-Kept rd d r h =
      let guarded : Fine (record r { world = (foreign r.world).0 }) = foreign_keeps r.world _ _ h in
      let watched = lose_all-Kept (limits env cfg) rd _ guarded in
      split-if {A = Run env × Option AbortReason} (λ x. Fine x.0) (foreign r.world).1 _ _
        (λ _. guarded)
        (λ _.
          split-option {B = Run env × Option AbortReason} (λ x. Fine x.0)
            (lose_all env cfg (limits env cfg) rd (record r { world = (foreign r.world).0 })).1 _ _
            (λ _. check_hot-Kept (limits env cfg) rd d _ watched) (λ why _. watched))

  read_dcr-keeps :
      (b : Bool) (w : World) (t : ℕ → Bool) (wrote : Bool)
      → Q w t wrote
      → Q (read_dcr env cfg b w).0 t wrote
  read_dcr-keeps true w t wrote h = dcr_keeps w t wrote h
  read_dcr-keeps false w t wrote h = h

  pub sample_at-Kept :
      (phase : Phase) (duty due : Option ℕ) (r : Run env)
      → Fine r
      → Fine (sample_at env cfg phase duty due r).0
  unfolding sample_at
  sample_at-Kept phase duty due r h =
      let stamped = stamp-Kept due r h in
      let (q, ts) = stamp env cfg due r in
      let (v, d) = read_dcr env cfg q.dcr_ok q.world in
      check_limits-Kept (env.read v).1 d _
        (read_keeps v _ _ (read_dcr-keeps q.dcr_ok q.world _ _ stamped))

  module _ (anchor : ℕ) (phase : Phase) (duty : Option ℕ) (n : ℕ) where
    abbrev AllFine : Option (Held env) → Type 0
    AllFine none = Unit
    AllFine (some h) = Fine h.run

    after_sample-Kept :
        (k : ℕ) (seen : List (ℕ × Sample)) (o : Run env × Sample × Option AbortReason)
        (next : Run env → List (ℕ × Sample) → Option (Held env))
        → Fine o.0
        → ((p : Run env) (more : List (ℕ × Sample)) → Fine p → AllFine (next p more))
        → AllFine (after_sample env cfg anchor phase duty n k seen o next)
    after_sample-Kept k seen (q, s, none) next h keep = keep q (seen ++ ((k, s) ∷ [])) h
    after_sample-Kept k seen (q, s, some why) next h keep = stop-Kept why q h

    hold_loop-Kept :
        (fuel k : ℕ) (seen : List (ℕ × Sample)) (r : Run env)
        → Fine r
        → AllFine (hold_loop env cfg anchor phase duty n fuel k seen r)
    unfolding hold_loop
    hold_loop-Kept zero k seen r h = tt
    hold_loop-Kept (suc fuel) k seen r h =
        let due = anchor + k * cfg.sample in
        let slept : Run env = record r { world = (env.sleep (due - now r.world) r.world).0 } in
        let rested : Fine slept = sleep_keeps _ _ _ _ h in
        split-bool AllFine (ltb n k) _ _ (λ _. h)
          (λ _.
            split-bool AllFine (env.sleep (due - now r.world) r.world).1 _ _
              (λ _.
                after_sample-Kept k seen (sample_at env cfg phase duty (some due) slept)
                  (λ p more.
                    hold_loop env cfg anchor phase duty n fuel
                      (next_slot k n ((now p.world - anchor) / cfg.sample + 1)) more p)
                  (sample_at-Kept phase duty (some due) slept rested)
                  (λ p more fine. hold_loop-Kept fuel _ more p fine))
              (λ _. stop-Kept cancelled slept rested))

  pub hold_from-Kept :
      (anchor : ℕ) (phase : Phase) (duty : Option ℕ) (d : ℕ) (r : Run env) (h : Held env)
      → Fine r
      → hold_from env cfg anchor phase duty d r ≡ some h
      → Fine h.run
  unfolding hold_from
  hold_from-Kept anchor phase duty d r h fine e =
      subst (AllFine anchor phase duty (slots cfg d)) e
        (hold_loop-Kept anchor phase duty (slots cfg d) (slots cfg d + 1) 1 [] r fine)
