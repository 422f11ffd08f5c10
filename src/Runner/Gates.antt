-- ===== src/Runner/Gates.antt =====
-- ectest/internal/runner/runner.go: `Gates` and `G3`, the load and the stability of the machine before a test. A detail is a
-- value that carries what the source formats; a gate without a result in `passes` is FAIL.
use minisforum_n5pro_fan_pro.Prelude.{
  ℕ, Bool, true, false, Option, none, some, List, [], leb, ltb, if◌then◌else◌,
}
use minisforum_n5pro_fan_pro.Spec.Sample.{Sample, gate}
use minisforum_n5pro_fan_pro.Spec.Tables.{gate_load_limit}
use minisforum_n5pro_fan_pro.Spec.Gate.Defs.{G4Part, eval_g4}
use minisforum_n5pro_fan_pro.Runner.Env.{Env, Config}
use minisforum_n5pro_fan_pro.Runner.State.{Run, AbortReason, stop}
use minisforum_n5pro_fan_pro.Runner.Sampling.{sample_at}
use minisforum_n5pro_fan_pro.Runner.Hold.{Held, hold_from}
use minisforum_n5pro_fan_pro.Runner.Steps.{samples_of}

pub data GateDetail : Type 0 where
  not_sampled : AbortReason → GateDetail
  not_completed : Option AbortReason → GateDetail
  load_unreadable : GateDetail
  cpus_unreadable : (load : ℕ) → GateDetail
  load_compared : (load limit cpus : ℕ) → GateDetail
  over_window : (window : ℕ) → List G4Part → GateDetail

pub record Judged : Type 0 where
  pub passes : Bool
  pub detail : GateDetail

abbrev failed : GateDetail → Judged
failed d = record { passes = false; detail = d }

abbrev load_of : Option ℕ → ℕ → Judged
load_of none cpus = failed load_unreadable
load_of (some load) cpus = if leb cpus 0 then failed (cpus_unreadable load) else record {
  passes = ltb load (gate_load_limit cpus);
  detail = load_compared load (gate_load_limit cpus) cpus;
}

-- `G3`, on the first sample of the gate; the load and its limit are hundredths.
unfoldable pub g3 : Sample → ℕ → Judged
unfolding gate_load_limit
g3 s cpus = load_of s.load1 cpus

module _ (env : Env) (cfg : Config) where
  open env use {now}

  pub record Gated : Type 0 where
    pub run : Run env
    pub load : Judged
    pub stable : Judged

  -- G4 after the window.
  unfoldable pub after_window : Sample → Held env → Gated
  unfolding g3 eval_g4
  after_window s h =
      let r = h.run in
      let ev = eval_g4 s (samples_of h.seen) in
      elim h.full [
        | true ↦ record {
          run = record r { limit_sensors = ev.limit };
          load = g3 s cfg.online_cpus;
          stable = record { passes = ev.passes; detail = over_window cfg.window ev.parts };
        }
        | false ↦ record {
          run = r;
          load = g3 s cfg.online_cpus;
          stable = failed (not_completed r.abort);
        }
      ]

  abbrev pub window_of : Sample → Option (Held env) → Option Gated
  window_of s none = none
  window_of s (some h) = some (after_window s h)

  -- The first sample, and the hold of the window unless that sample ends the run.
  abbrev pub after_first : Run env × Sample × Option AbortReason → Option Gated
  after_first (r, s, some why) =
      some (after_window s (record { run = stop env why r; full = false; seen = [] }))
  after_first (r, s, none) = window_of s (hold_from env cfg (now r.world) gate none cfg.window r)

  unfoldable pub gates : Run env → Option Gated
  unfolding after_window stop sample_at hold_from
  gates r = elim r.abort [
    | none ↦ after_first (sample_at env cfg gate none none r)
    | some why ↦
        some
          (record { run = r; load = failed (not_sampled why); stable = failed (not_sampled why) })
  ]
