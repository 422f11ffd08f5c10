-- ===== src/Runner/Hold/Slots.antt =====
-- The slots in which a hold takes its samples.
use mathlib.Core.Path.{subst}
use minisforum_n5pro_fan_pro.Prelude.{
  ℕ, zero, suc, ◌+◌, ◌-◌, ◌*◌, ◌/◌, ◌≤◌, ◌<◌, ◌≡◌, refl, ◌⊎◌, inl, true, Option, none, some, List,
  [], ◌∷◌, ◌++◌, ltb, arith, split-bool,
}
use minisforum_n5pro_fan_pro.Spec.Sample.{Sample, Phase}
use minisforum_n5pro_fan_pro.Runner.Env.{Env, Config}
use minisforum_n5pro_fan_pro.Runner.State.{Run, AbortReason}
use minisforum_n5pro_fan_pro.Runner.Sampling.{sample_at}
use minisforum_n5pro_fan_pro.Runner.Hold.{
  Held, next_slot, slots, after_sample, hold_loop, hold_from,
}

-- The slots rise strictly from above `a`, and the last one is `b` (without any, `a` is `b`).
abbrev pub RisesTo : ℕ → ℕ → List (ℕ × Sample) → Type 0
RisesTo a b [] = a ≡ b
RisesTo a b ((k, s) ∷ ss) = (a < k) × RisesTo k b ss

RisesTo-snoc :
    (a b k : ℕ) (s : Sample) (ss : List (ℕ × Sample))
    → RisesTo a b ss
    → b < k
    → RisesTo a k (ss ++ ((k, s) ∷ []))
RisesTo-snoc a b k s [] h lt = (omega arith, refl)
RisesTo-snoc a b k s ((j, x) ∷ ss) h lt = (h.0, RisesTo-snoc j b k s ss h.1 lt)

next_slot-later : (k n reached : ℕ) → k < next_slot k n reached
unfolding next_slot
next_slot-later k n reached = ground arith

next_slot-last : (k n reached : ℕ) → k < n → next_slot k n reached ≤ n
unfolding next_slot
next_slot-last k n reached lt = ground arith

module _ (env : Env) (cfg : Config) (anchor : ℕ) (phase : Phase) (written : Option ℕ) (n : ℕ) where
  open env use {World, now, sleep}

  abbrev Ends : Option (Held env) → Type 0
  Ends o = (h : Held env) × (o ≡ some h)

  after_sample-Ends :
      (k : ℕ) (seen : List (ℕ × Sample)) (r : Run env × Sample × Option AbortReason)
      (next : Run env → List (ℕ × Sample) → Option (Held env))
      → ((p : Run env) (more : List (ℕ × Sample)) → Ends (next p more))
      → Ends (after_sample env cfg anchor phase written n k seen r next)
  after_sample-Ends k seen (q, s, none) next h = h q (seen ++ ((k, s) ∷ []))
  after_sample-Ends k seen (q, s, some why) next h = (_, refl)

  hold_loop-Ends :
      (fuel k : ℕ) (seen : List (ℕ × Sample)) (r : Run env)
      → 0 < fuel
      → n + 1 < fuel + k
      → Ends (hold_loop env cfg anchor phase written n fuel k seen r)
  unfolding hold_loop
  hold_loop-Ends zero k seen r lo enough = absurd (omega arith)
  hold_loop-Ends (suc fuel) k seen r lo enough =
      split-bool Ends (ltb n k) _ _ (λ past. (_, refl))
        (λ here.
          split-bool Ends (sleep (anchor + k * cfg.sample - now r.world) r.world).1 _ _
            (λ slept. after_sample-Ends k seen _ _ (λ p more.
              hold_loop-Ends fuel _ more p (ground arith) (
                let later = next_slot-later k n ((now p.world - anchor) / cfg.sample + 1) in
                omega arith)))
            (λ cut. (_, refl)))

  -- A full hold has taken its samples in rising slots, up to the last one.
  abbrev Complete : Option (Held env) → Type 0
  Complete none = Unit
  Complete (some h) = h.full ≡ true → RisesTo 0 n h.seen

  after_sample-Complete :
      (k : ℕ) (seen : List (ℕ × Sample)) (r : Run env × Sample × Option AbortReason)
      (next : Run env → List (ℕ × Sample) → Option (Held env))
      → ((p : Run env) (s : Sample) → Complete (next p (seen ++ ((k, s) ∷ []))))
      → Complete (after_sample env cfg anchor phase written n k seen r next)
  after_sample-Complete k seen (q, s, none) next h = h q s
  after_sample-Complete k seen (q, s, some why) next h = λ e. cc

  hold_loop-Complete :
      (fuel k b : ℕ) (seen : List (ℕ × Sample)) (r : Run env)
      → RisesTo 0 b seen
      → b < k
      → (k ≤ n) ⊎ (b ≡ n)
      → Complete (hold_loop env cfg anchor phase written n fuel k seen r)
  unfolding hold_loop
  hold_loop-Complete zero k b seen r rises lt last = tt
  hold_loop-Complete (suc fuel) k b seen r rises lt last =
      split-bool Complete (ltb n k) _ _
        (λ past _. subst (λ x. RisesTo 0 x seen) (ground arith) rises)
        (λ here.
          split-bool Complete (sleep (anchor + k * cfg.sample - now r.world) r.world).1 _ _
            (λ slept.
              after_sample-Complete k seen
                (sample_at env cfg phase written (some (anchor + k * cfg.sample))
                  (record r { world = (sleep (anchor + k * cfg.sample - now r.world) r.world).0 }))
                (λ p more.
                  hold_loop env cfg anchor phase written n fuel
                    (next_slot k n ((now p.world - anchor) / cfg.sample + 1)) more p)
                (λ p s.
                  hold_loop-Complete fuel _ k _ p (RisesTo-snoc 0 b k s seen rises lt)
                    (next_slot-later k n ((now p.world - anchor) / cfg.sample + 1))
                    (ground (arith, next_slot-last k n ((now p.world - anchor) / cfg.sample + 1)))))
            (λ cut e. cc))

-- A hold ends: its loop gives a result within the rounds that it has slots for, whatever the machine does.
pub hold_from-Ends :
    (env : Env) (cfg : Config) (anchor : ℕ) (phase : Phase) (written : Option ℕ) (d : ℕ)
    (r : Run env)
    → (h : Held env) × (hold_from env cfg anchor phase written d r ≡ some h)
unfolding hold_from
hold_from-Ends env cfg anchor phase written d r =
    hold_loop-Ends env cfg anchor phase written (slots cfg d) (slots cfg d + 1) 1 [] r (omega arith)
      (omega arith)

-- A hold that was not cut short has taken its samples in strictly rising slots, none before the first, and the
-- last slot, the end of the hold, is among them: it is the slot of the last sample.
pub hold_from-Complete :
    (env : Env) (cfg : Config) (anchor : ℕ) (phase : Phase) (written : Option ℕ) (d : ℕ)
    (r : Run env) (h : Held env)
    → hold_from env cfg anchor phase written d r ≡ some h
    → h.full ≡ true
    → RisesTo 0 (slots cfg d) h.seen
unfolding hold_from slots
hold_from-Complete env cfg anchor phase written d r h e =
    subst (Complete env cfg anchor phase written (slots cfg d)) e (
      hold_loop-Complete env cfg anchor phase written (slots cfg d) (slots cfg d + 1) 1 0 [] r refl
        (omega arith) (inl (ground arith)))
