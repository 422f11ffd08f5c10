-- ===== src/Runner/Settle.antt =====
-- ectest/internal/runner/settle.go: `WaitDCR`, the wait for the duty registers after a write. The loop takes
-- fuel; `none` is that it ran out.
use mathlib.Core.Path.{subst}
use minisforum_n5pro_fan_pro.Prelude.{
  ℕ, zero, suc, ◌+◌, ◌-◌, ◌≤◌, ◌<◌, ◌≡◌, ◌≢◌, refl, inl, inr, Bool, true, false, ◌&&◌, Option, none,
  some, List, [], ◌∷◌, All, leb, ltb, ◌==◌, if◌then◌else◌, arith, Bool-cases, split-bool,
}
use minisforum_n5pro_fan_pro.Runner.Env.{Env, Dcr}

abbrev pub settle_poll : ℕ
settle_poll = 200

pub data Ending : Type 0 where
  reached timed_out cancelled unavailable : Ending

-- `Reached` and `Err` are the ending; `dcr` is the last good reading.
pub record Settled : Type 0 where
  pub dcr : Option Dcr
  pub after : ℕ
  pub ending : Ending

unfoldable pub all_at : ℕ → Dcr → List ℕ → Bool
all_at want d [] = true
all_at want d (n ∷ ns) = d n == want && all_at want d ns

-- Without registers to compare the target is never reached.
abbrev pub at_target : ℕ → Dcr → List ℕ → Bool
at_target want d [] = false
at_target want d (n ∷ ns) = all_at want d (n ∷ ns)

abbrev pub poll_wait : ℕ → ℕ → ℕ
poll_wait el least =
    if ltb el least && ltb (least - el) settle_poll then least - el else settle_poll

module _ (env : Env) (t0 : ℕ) (regs : List ℕ) (want least timeout : ℕ) where
  open env use {World, now, sleep, dcr}

  abbrev pub Wait : Type 0
  Wait = World × Settled

  -- What a round does once the registers have been read, `el` after the write; `again` waits and goes on.
  abbrev pub judge_read :
      ℕ → World → Option Dcr → Option Dcr → (Option Dcr → ℕ → Option Wait) → Option Wait
  judge_read el w (some d) have again =
      if at_target want d regs
      then some (w, record { dcr = some d; after = el; ending = reached })
      else if leb timeout el
      then some (w, record { dcr = some d; after = el; ending = timed_out })
      else again (some d) el
  judge_read el w none none again =
      some (w, record { dcr = none; after = el; ending = unavailable })
  judge_read el w none (some d) again =
      if leb timeout el
      then some (w, record { dcr = some d; after = el; ending = timed_out })
      else again (some d) el

  unfoldable pub wait_dcr : ℕ → Option Dcr → ℕ → World → Option Wait
  unfolding all_at
  wait_dcr zero have after w = none
  wait_dcr (suc fuel) have after w =
      let el = now w - t0 in
      let read = dcr w in
      let go_on : World → Option Dcr → ℕ → Option Wait = λ v d last.
        elim (sleep (poll_wait el least) v).1 [
          | true ↦ wait_dcr fuel d last (sleep (poll_wait el least) v).0
          | false ↦ some (
            (sleep (poll_wait el least) v).0,
            record { dcr = d; after = last; ending = cancelled },
          )
        ] in
      elim (leb least el) [
        | true ↦ judge_read el read.0 read.1 have (λ d last. go_on read.0 d last)
        | false ↦ go_on w have after
      ]

-- What the loop relies on: the clock does not run backwards, and a sleep that is not cancelled lasts.
pub record ClockLaws (env : Env) : Type 0 where
  pub dcr_later : (w : env.World) → env.now w ≤ env.now (env.dcr w).0
  pub sleep_lasts :
      (d : ℕ) (w : env.World) → (env.sleep d w).1 ≡ true → env.now w + d ≤ env.now (env.sleep d w).0

-- What the ending of a wait says.
abbrev pub Means : List ℕ → ℕ → ℕ → ℕ → Settled → Ending → Type 0
Means regs want least timeout s reached =
    (regs ≢ []) × ((d : Dcr) × (s.dcr ≡ some d) × All (λ n. d n ≡ want) regs) × (least ≤ s.after)
Means regs want least timeout s timed_out = (timeout ≤ s.after) × (least ≤ s.after)
Means regs want least timeout s cancelled = Unit
Means regs want least timeout s unavailable = (s.dcr ≡ none) × (least ≤ s.after)

all_at-All : (want : ℕ) (d : Dcr) (ns : List ℕ) → all_at want d ns ≡ true → All (λ n. d n ≡ want) ns
unfolding all_at
all_at-All want d [] h = tt
all_at-All want d (n ∷ ns) h = (ground arith, all_at-All want d ns (ground arith))

at_target-All :
    (want : ℕ) (d : Dcr) (regs : List ℕ)
    → at_target want d regs ≡ true
    → (regs ≢ []) × All (λ n. d n ≡ want) regs
at_target-All want d [] h = cc
at_target-All want d (n ∷ ns) h = (λ e. cc, all_at-All want d (n ∷ ns) h)

module _ (env : Env) (t0 : ℕ) (regs : List ℕ) (want least timeout : ℕ) where
  open env use {World, now, sleep, dcr}

  -- The result of a wait means what its ending says.
  abbrev Meant : Option (World × Settled) → Type 0
  Meant none = Unit
  Meant (some (w, s)) = Means regs want least timeout s s.ending

  judge_read-Meant :
      (el : ℕ) (w : World) (o have : Option Dcr) (again : Option Dcr → ℕ → Option (World × Settled))
      → least ≤ el
      → ((d : Option Dcr) (last : ℕ) → Meant (again d last))
      → Meant (judge_read env t0 regs want least timeout el w o have again)
  judge_read-Meant el w (some d) have again le keep = elim (Bool-cases (at_target want d regs)) [
    | inl e ↦ rw e (let (n, a) = at_target-All want d regs e in (n, (d, refl, a), le))
    | inr e ↦ rw e (elim (Bool-cases (leb timeout el)) [
      | inl f ↦ rw f (ground arith, le)
      | inr f ↦ rw f (keep (some d) el)
    ])
  ]
  judge_read-Meant el w none none again le keep = (refl, le)
  judge_read-Meant el w none (some d) again le keep = elim (Bool-cases (leb timeout el)) [
    | inl f ↦ rw f (ground arith, le)
    | inr f ↦ rw f (keep (some d) el)
  ]

  go_on-Meant :
      (el : ℕ) (v : World) (d : Option Dcr) (last : ℕ) (next : World → Option (World × Settled))
      → ((u : World) → Meant (next u))
      → Meant (elim (sleep (poll_wait el least) v).1 [
        | true ↦ next (sleep (poll_wait el least) v).0
        | false ↦
            some (
              (sleep (poll_wait el least) v).0,
              record { dcr = d; after = last; ending = cancelled },
            )
      ])
  go_on-Meant el v d last next keep = elim (Bool-cases (sleep (poll_wait el least) v).1) [
    | inl e ↦ rw e (keep (sleep (poll_wait el least) v).0)
    | inr e ↦ rw e tt
  ]

  wait_dcr-Meant :
      (fuel : ℕ) (have : Option Dcr) (after : ℕ) (w : World)
      → Meant (wait_dcr env t0 regs want least timeout fuel have after w)
  unfolding wait_dcr
  wait_dcr-Meant zero have after w = tt
  wait_dcr-Meant (suc fuel) have after w =
      split-bool Meant (leb least (now w - t0)) _ _
        (λ e.
          judge_read-Meant (now w - t0) (dcr w).0 (dcr w).1 have _ (ground arith)
            (λ d last. go_on-Meant (now w - t0) (dcr w).0 d last _ (wait_dcr-Meant fuel d last)))
        (λ e. go_on-Meant (now w - t0) w have after _ (wait_dcr-Meant fuel have after))

  -- Whatever the clock and the registers do, the result of the wait is what its ending says: `reached` that the
  -- last reading has every register of a nonempty list at the target, and that this reading, like the one of
  -- `timed_out`, was taken no earlier than the settle time (`least`) after the write; `timed_out` that the limit
  -- has passed; `unavailable` that no reading was ever made, and that the settle time had passed.
  pub wait_dcr_meaning :
      (fuel : ℕ) (have : Option Dcr) (after : ℕ) (w w' : World) (s : Settled)
      → wait_dcr env t0 regs want least timeout fuel have after w ≡ some (w', s)
      → Means regs want least timeout s s.ending
  wait_dcr_meaning fuel have after w w' s e = subst Meant e (wait_dcr-Meant fuel have after w)

-- The end of the loop, with a clock that advances.
module _ (env : Env) (clock : ClockLaws env) (t0 : ℕ) (regs : List ℕ) (want least timeout : ℕ) where
  open env use {World, now, sleep, dcr}
  open clock use {dcr_later, sleep_lasts}

  abbrev pub Ends : Option (World × Settled) → Type 0
  Ends o = (r : World × Settled) × (o ≡ some r)

  judge_read-Ends :
      (el : ℕ) (w : World) (o have : Option Dcr) (again : Option Dcr → ℕ → Option (World × Settled))
      → (el < timeout → (d : Option Dcr) (last : ℕ) → Ends (again d last))
      → Ends (judge_read env t0 regs want least timeout el w o have again)
  judge_read-Ends el w (some d) have again keep = elim (Bool-cases (at_target want d regs)) [
    | inl e ↦ rw e (_, refl)
    | inr e ↦ rw e (elim (Bool-cases (leb timeout el)) [
      | inl f ↦ rw f (_, refl)
      | inr f ↦ rw f (keep (ground arith) (some d) el)
    ])
  ]
  judge_read-Ends el w none none again keep = (_, refl)
  judge_read-Ends el w none (some d) again keep = elim (Bool-cases (leb timeout el)) [
    | inl f ↦ rw f (_, refl)
    | inr f ↦ rw f (keep (ground arith) (some d) el)
  ]

  -- With a clock that does not run backwards and sleeps that last, the loop ends: it gives a result when the fuel,
  -- a positive number, goes beyond what is left, in milliseconds, of the settle time and of the limit.
  pub wait_dcr-Ends :
      (fuel : ℕ) (have : Option Dcr) (after : ℕ) (w : World)
      → t0 ≤ now w
      → 0 < fuel
      → t0 + least < now w + fuel
      → t0 + timeout < now w + fuel
      → Ends (wait_dcr env t0 regs want least timeout fuel have after w)
  unfolding wait_dcr
  wait_dcr-Ends zero have after w s p q r = absurd (omega arith)
  wait_dcr-Ends (suc fuel) have after w s p q r =
      split-bool Ends (leb least (now w - t0)) _ _
        (λ e. judge_read-Ends (now w - t0) (dcr w).0 (dcr w).1 have _ (λ early d last.
          split-bool Ends (sleep (poll_wait (now w - t0) least) (dcr w).0).1 _ _
            (λ slept.
              let later : now (dcr w).0 + poll_wait (now w - t0) least
                  ≤ now (sleep (poll_wait (now w - t0) least) (dcr w).0).0 =
                sleep_lasts (poll_wait (now w - t0) least) (dcr w).0 slept in
              let reading : now w ≤ now (dcr w).0 = dcr_later w in
              let positive : 0 < poll_wait (now w - t0) least = ground arith in
              wait_dcr-Ends fuel d last (sleep (poll_wait (now w - t0) least) (dcr w).0).0
                (omega arith) (omega arith) (omega arith) (omega arith))
            (λ cut. (_, refl))))
        (λ e.
          split-bool Ends (sleep (poll_wait (now w - t0) least) w).1 _ _
            (λ slept.
              let later : now w + poll_wait (now w - t0) least
                  ≤ now (sleep (poll_wait (now w - t0) least) w).0 =
                sleep_lasts (poll_wait (now w - t0) least) w slept in
              let early : now w - t0 < least = ground arith in
              let positive : 0 < poll_wait (now w - t0) least = ground arith in
              wait_dcr-Ends fuel have after (sleep (poll_wait (now w - t0) least) w).0 (omega arith)
                (omega arith) (omega arith) (omega arith))
            (λ cut. (_, refl)))
