-- ===== src/Runner/Hold.antt =====
-- ectest/internal/runner/runner.go: `holdFrom`, the loop that samples on a fixed cadence. Each round takes one
-- fuel; the samples handed to the caller are listed with the slots they were due in. The sampling interval is positive,
-- as the option parser demands; the source panics at an interval of zero, where a quotient here is zero.
pub mod Slots
use minisforum_n5pro_fan_pro.Prelude.{
  ℕ, zero, suc, ◌+◌, ◌-◌, ◌*◌, ◌/◌, ◌≤◌, ◌<◌, ◌≡◌, refl, inl, inr, Bool, true, false, ◌&&◌, Option,
  none, some, List, [], ◌∷◌, ◌++◌, leb, ltb, ◌==◌, if◌then◌else◌, arith, Bool-cases,
}
use minisforum_n5pro_fan_pro.Spec.Sample.{Sample, Phase}
use minisforum_n5pro_fan_pro.Runner.Env.{Env, Config}
use minisforum_n5pro_fan_pro.Runner.State.{Run, AbortReason, cancelled, stop}
use minisforum_n5pro_fan_pro.Runner.Sampling.{sample_at}

-- The next slot: at least one further, and never beyond the last one when that is still to come.
unfoldable pub next_slot : (k n reached : ℕ) → ℕ
next_slot k n reached =
    let next = if leb reached k then k + 1 else reached in if ltb k n && ltb n next then n else next

pub record Held (env : Env) : Type 0 where
  pub run : Run env
  pub full : Bool
  pub seen : List (ℕ × Sample)

-- The number of samples: at least one.
unfoldable pub slots : Config → ℕ → ℕ
slots cfg d = let n = d / cfg.sample in if ltb n 1 then 1 else n

module _ (env : Env) (cfg : Config) (anchor : ℕ) (phase : Phase) (written : Option ℕ) (n : ℕ) where
  open env use {World, now, sleep}

  abbrev pub after_sample :
      ℕ
      → List (ℕ × Sample)
      → Run env × Sample × Option AbortReason
      → (Run env → List (ℕ × Sample) → Option (Held env))
      → Option (Held env)
  after_sample k seen (q, s, none) next = next q (seen ++ ((k, s) ∷ []))
  after_sample k seen (q, s, some why) next =
      some (record { run = stop env why q; full = false; seen = seen ++ ((k, s) ∷ []) })

  unfoldable pub hold_loop : ℕ → ℕ → List (ℕ × Sample) → Run env → Option (Held env)
  unfolding sample_at next_slot stop
  hold_loop zero k seen r = none
  hold_loop (suc fuel) k seen r =
      let due = anchor + k * cfg.sample in
      let (w, slept) = sleep (due - now r.world) r.world in
      let q : Run env = record r { world = w } in
      elim (ltb n k) [
        | true ↦ some (record { run = r; full = true; seen = seen })
        | false ↦ elim slept [
          | false ↦ some (record { run = stop env cancelled q; full = false; seen = seen })
          | true ↦ after_sample k seen (sample_at env cfg phase written (some due) q) (λ p more.
              hold_loop fuel (next_slot k n ((now p.world - anchor) / cfg.sample + 1)) more p)
        ]
      ]

-- `holdFrom` for a time `d`, with the fuel that it can use.
unfoldable pub hold_from :
    (env : Env) → Config → ℕ → Phase → Option ℕ → ℕ → Run env → Option (Held env)
unfolding hold_loop slots
hold_from env cfg anchor phase written d r =
    let n = slots cfg d in hold_loop env cfg anchor phase written n (n + 1) 1 [] r
