-- ===== src/Runner/Recorded.antt =====
-- What a run records: the samples and the events that an operation of ectest/internal/runner/runner.go adds to its lists.
pub mod Holds
pub mod Commands
pub mod Mapping
use mathlib.Core.Path.{subst}
use mathlib.Core.List.{append-nil, append_assoc}
use minisforum_n5pro_fan_pro.Prelude.{
  ℕ, zero, suc, ◌+◌, ◌-◌, ◌*◌, ◌/◌, ◌≡◌, refl, sym, ap, ◌∙◌, inl, inr, Bool, true, false, ◌||◌,
  Option, none, some, List, [], ◌∷◌, ◌++◌, ℤ, ◌==◌, ltb, Option-cases, split-option, split-bool,
  split-if, All, All-append, arith,
}
use minisforum_n5pro_fan_pro.Spec.Sample.{Sample, Phase}
use minisforum_n5pro_fan_pro.Spec.Gate.Defs.{Limit}
use minisforum_n5pro_fan_pro.Runner.Env.{Env, Config, Dcr, Readings}
use minisforum_n5pro_fan_pro.Runner.State.{
  Run, Event, Stamped, AbortReason, cancelled, too_hot, aborted, off_due, wrote_duty, t1_complete,
  manual_mode, manual_failed, write_failed, act, after_first, first_write, write, manual, stop,
  log_event,
}
use minisforum_n5pro_fan_pro.Runner.Sampling.{
  stamp, reading, lose, lose_all, mark_hot, over, check_hot, limits, check_limits, read_dcr, row,
  sample_at,
}
use minisforum_n5pro_fan_pro.Runner.Hold.{
  Held, next_slot, after_sample, hold_loop, hold_from, slots,
}
use minisforum_n5pro_fan_pro.Runner.Steps.{samples_of}

-- An event that the report does not read when it rebuilds the mapping test.
abbrev pub Silent : Event → Type 0
Silent (wrote_duty ch duty) = ⊥
Silent t1_complete = ⊥
Silent _ = Unit

abbrev pub AllSilent : List Stamped → Type 0
AllSilent es = All (λ e. Silent e.event) es

-- The lists of a run, and its start.
pub record Log : Type 0 where
  pub samples : List Sample
  pub events : List Stamped
  pub start : ℕ

pub record Adds (a b : Log) (ss : List Sample) (es : List Stamped) : Type 0 where
  pub samples : b.samples ≡ a.samples ++ ss
  pub events : b.events ≡ a.events ++ es
  pub start : b.start ≡ a.start

pub Adds-nothing : (a : Log) → Adds a a [] []
Adds-nothing a = record {
  samples = sym (append-nil a.samples);
  events = sym (append-nil a.events);
  start = refl;
}

pub Adds-trans :
    {a b c : Log} {ss more : List Sample} {es later : List Stamped}
    → Adds a b ss es
    → Adds b c more later
    → Adds a c (ss ++ more) (es ++ later)
Adds-trans {a} {ss = ss} {more = more} {es = es} {later = later} h k = record {
  samples = k.samples ∙ ap (λ x. x ++ more) h.samples ∙ append_assoc a.samples ss more;
  events = k.events ∙ ap (λ x. x ++ later) h.events ∙ append_assoc a.events es later;
  start = k.start ∙ h.start;
}

-- Only events that the report does not read.
abbrev pub Quietly : Log → Log → List Sample → Type 0
Quietly a b ss = (es : List Stamped) × Adds a b ss es × AllSilent es

pub Quietly-nothing : (a : Log) → Quietly a a []
Quietly-nothing a = ([], Adds-nothing a, tt)

pub Quietly-trans :
    {a b c : Log} {ss more : List Sample}
    → Quietly a b ss
    → Quietly b c more
    → Quietly a c (ss ++ more)
Quietly-trans (es, h, s) (later, k, t) =
    (es ++ later, Adds-trans h k, All-append (λ e. Silent e.event) es later s t)

module _ (env : Env) where
  abbrev pub log_of : Run env → Log
  log_of r = record { samples = r.samples; events = r.events; start = r.start }

  pub log_event-Adds :
      (e : Event) (r : Run env)
      → Adds
          (log_of r)
          (log_of (log_event env e r))
          []
          (record { time = env.now r.world; event = e } ∷ [])
  log_event-Adds e r = record { samples = sym (append-nil r.samples); events = refl; start = refl }

  -- One more event.
  pub log_event-Quietly :
      (a : Log) (ss : List Sample) (e : Event) (r : Run env)
      → Silent e
      → Quietly a (log_of r) ss
      → Quietly a (log_of (log_event env e r)) ss
  log_event-Quietly a ss e r s k =
      subst (Quietly a (log_of (log_event env e r))) (append-nil ss)
        (Quietly-trans k (_, log_event-Adds e r, (s, tt)))
