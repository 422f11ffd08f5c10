-- ===== src/Report/Rebuild.antt =====
-- ectest/internal/report/recompute.go: `recomputeT1` and `recomputeT2`, the tests from the samples and the events of a
-- bundle. `none` is an index out of range, which the source does not catch.
pub mod Panics
pub mod Parts
pub mod SameVerdict
use minisforum_n5pro_fan_pro.Prelude.{
  ℕ, ◌+◌, Bool, true, false, ◌&&◌, Option, none, some, List, [], ◌∷◌, ◌++◌, map, leb, ◌==◌,
  if◌then◌else◌,
}
use minisforum_n5pro_fan_pro.Spec.Sample
use minisforum_n5pro_fan_pro.Spec.Sample.{
  Sample, Label, high, middle, replay, t1_rest, t1_step, t2_pre, t2_hold,
}
use minisforum_n5pro_fan_pro.Spec.Tables.{pcie_channel, judged_regs, m_value, t1_steps, table_input}
use minisforum_n5pro_fan_pro.Spec.Handback.Defs.{DcrSample}
use minisforum_n5pro_fan_pro.Spec.Aggregate.Defs.{Sub}
use minisforum_n5pro_fan_pro.Spec.Mapping.Defs.{T1Step}
use minisforum_n5pro_fan_pro.Spec.Mapping.Eval.{eval_t1}
use minisforum_n5pro_fan_pro.Runner.Env.{tach_of}
use minisforum_n5pro_fan_pro.Runner.State.{AbortReason, Event, wrote_duty, t2_auto}
use minisforum_n5pro_fan_pro.Runner.Series.{
  Deviation, over_samples, no_rest, add_rest, add_t1_sample, empty_step, add_observed, auto_values,
  pre_crossing, hold_deviations,
}
use minisforum_n5pro_fan_pro.Runner.Steps.{NotRun, no_data, incomplete, cut_short}
use minisforum_n5pro_fan_pro.Runner.Mapping.{T1Outcome, judged, not_run}
use minisforum_n5pro_fan_pro.Runner.Results.{
  HandbackOutcome, Reference, not_applicable, finished, finish_handback, sub_of,
}
use minisforum_n5pro_fan_pro.Runner.Results
use minisforum_n5pro_fan_pro.Report.Lines.{Line, phase_samples, has_t1_complete, write_ts}

-- The abort that meta.json tells, or else the other reason.
abbrev pub or_abort : Option AbortReason → NotRun → NotRun
or_abort none why = why
or_abort (some a) why = cut_short (some a)

-- Without a write event every sample of a step is judged.
abbrev pub timed_step : ℕ → ℕ → Option ℕ → List Sample → T1Step
timed_step ch duty (some ts) ss = over_samples (add_t1_sample ch ts) (empty_step duty) ss
timed_step ch duty none ss =
    let st : T1Step = over_samples (add_t1_sample ch 0) (empty_step duty) ss in record st { t = [] }

unfoldable pub rebuild_steps : ℕ → List Sample → List Line → List ℕ → List T1Step
unfolding over_samples add_t1_sample phase_samples write_ts
rebuild_steps ch smp ls [] = []
rebuild_steps ch smp ls (duty ∷ duties) =
    timed_step ch duty (write_ts ls ch duty) (phase_samples (t1_step duty) smp)
    ∷ rebuild_steps ch smp ls duties

unfoldable pub recompute_t1 : ℕ → Option AbortReason → List Sample → List Line → T1Outcome
unfolding rebuild_steps has_t1_complete phase_samples over_samples add_rest eval_t1 tach_of
recompute_t1 ch abort smp ls =
    if has_t1_complete ls
    then judged (
        eval_t1 ch (tach_of ch) (over_samples (add_rest ch) no_rest (phase_samples t1_rest smp))
          (rebuild_steps ch smp ls t1_steps) (1 ∷ 2 ∷ 3 ∷ []))
    else not_run (or_abort abort incomplete)

-- One sub-run rebuilt, for the charts.
pub record SubRun : Type 0 where
  pub rep : ℕ
  pub written : ℕ
  pub regs : ℕ → List DcrSample
  pub auto : ℕ → Option ℕ
  pub eval : Sub

-- The variables of the loop over the events.
pub record Rebuilt : Type 0 where
  pub runs : List (List Sub)
  pub deviations : List Deviation
  pub cur : ℕ
  pub last_write : Option ℕ
  pub subs : List SubRun

-- The written value that the hold shows, else the one of the test.
unfoldable pub written_in : ℕ → List Sample → ℕ
written_in w [] = w
written_in w (s ∷ ss) = elim s.written [ none ↦ written_in w ss | some v ↦ v ]

abbrev pub default_duty : ℕ → Label → ℕ
default_duty m middle = m
default_duty m _ = 255

-- Appends to the last repetition; there is none when the first event is one of repetition 0.
unfoldable pub append_last : List (List Sub) → Sub → Option (List (List Sub))
append_last [] s = none
append_last (r ∷ []) s = some ((r ++ (s ∷ [])) ∷ [])
append_last (r ∷ t ∷ ts) s = elim (append_last (t ∷ ts) s) [ none ↦ none | some us ↦ some (r ∷ us) ]

unfoldable pub append_sub : (cur rep : ℕ) → List (List Sub) → Sub → Option (List (List Sub))
unfolding append_last
append_sub cur rep runs s =
    if rep == cur then append_last runs s else some (runs ++ ((s ∷ []) ∷ []))

abbrev deviations_since : ℕ → ℕ → Label → ℕ → Option ℕ → List Sample → List Deviation
deviations_since ch rep label w none hold = []
deviations_since ch rep label w (some tws) hold = hold_deviations ch rep label w tws hold

abbrev pub with_runs : Option (List (List Sub)) → (List (List Sub) → Rebuilt) → Option Rebuilt
with_runs none next = none
with_runs (some runs) next = some (next runs)

-- The sub-run of an automatic command at `ts`.
unfoldable pub rebuild_sub :
    ℕ → Reference → ℕ → List Sample → Rebuilt → (ts rep : ℕ) → Label → Option Rebuilt
unfolding append_sub written_in hold_deviations sub_of phase_samples over_samples add_observed
    judged_regs
rebuild_sub ch known m smp st ts rep label =
    let hold = phase_samples (t2_hold rep label) smp in
    let auto = phase_samples (Sample.t2_auto rep label) smp in
    let w = written_in (default_duty m label) hold in
    let s = sub_of ch known label w ts hold auto in
    with_runs (append_sub st.cur rep st.runs s) (λ runs. record {
      runs = runs;
      deviations = st.deviations ++ deviations_since ch rep label w st.last_write hold;
      cur = rep;
      last_write = st.last_write;
      subs =
          st.subs
          ++ (record {
            rep = rep;
            written = w;
            regs = over_samples (add_observed (judged_regs ch) ts) (λ n. []) auto;
            auto = known.auto_a;
            eval = s;
          }
              ∷ []);
    })

-- One event at `ts`: a write of a channel 1..4, an automatic command of a sub-run H or M, or another.
abbrev pub rebuild_event : ℕ → Reference → ℕ → List Sample → Rebuilt → ℕ → Event → Option Rebuilt
rebuild_event ch known m smp st ts (wrote_duty c d) =
    some (if leb 1 c && leb c 4 then record st { last_write = some ts } else st)
rebuild_event ch known m smp st ts (t2_auto rep high) = rebuild_sub ch known m smp st ts rep high
rebuild_event ch known m smp st ts (t2_auto rep middle) =
    rebuild_sub ch known m smp st ts rep middle
rebuild_event ch known m smp st ts _ = some st

abbrev pub rebuild_line :
    ℕ → Reference → ℕ → List Sample → Rebuilt → Option ℕ → Event → Option Rebuilt
rebuild_line ch known m smp st none e = some st
rebuild_line ch known m smp st (some ts) e = rebuild_event ch known m smp st ts e

abbrev pub and_then : Option Rebuilt → (Rebuilt → Option Rebuilt) → Option Rebuilt
and_then none next = none
and_then (some st) next = next st

unfoldable pub rebuild_runs : ℕ → Reference → ℕ → List Sample → List Line → Rebuilt → Option Rebuilt
unfolding rebuild_sub
rebuild_runs ch known m smp [] st = some st
rebuild_runs ch known m smp (l ∷ ls) st =
    and_then (rebuild_line ch known m smp st l.ts l.event) (rebuild_runs ch known m smp ls)

abbrev pub no_runs : Rebuilt
no_runs = record { runs = []; deviations = []; cur = 0; last_write = none; subs = [] }

abbrev pub conclude :
    ℕ
    → Option AbortReason
    → (a m : ℕ) → List ℕ
    → Reference
    → Option Rebuilt
    → Option (HandbackOutcome × List SubRun)
conclude ch abort a m regs known none = none
conclude ch abort a m regs known (some st) =
    some (finished (finish_handback ch st.runs abort a m regs known.auto_a st.deviations), st.subs)

-- With A of the first register; without it there is no data.
abbrev pub from_auto :
    ℕ
    → Option AbortReason
    → List Sample
    → List Line
    → List ℕ
    → Reference
    → Option ℕ
    → Option (HandbackOutcome × List SubRun)
from_auto ch abort smp ls regs known none = some (Results.not_run (or_abort abort no_data), [])
from_auto ch abort smp ls regs known (some a) =
    conclude ch abort a (m_value a) regs known (rebuild_runs ch known (m_value a) smp ls no_runs)

abbrev pub from_regs :
    ℕ
    → Option AbortReason
    → List Sample
    → List Line
    → List ℕ
    → Option (HandbackOutcome × List SubRun)
from_regs ch abort smp ls [] = none
from_regs ch abort smp ls (n ∷ ns) =
    let before = phase_samples t2_pre smp in
    let auto_a = auto_values (over_samples (add_observed (n ∷ ns) 0) (λ k. []) before) (n ∷ ns) in
    let crossed = pre_crossing ch (map (table_input ch) before) in
    from_auto ch abort smp ls (n ∷ ns) (record { auto_a = auto_a; crossed = crossed }) (auto_a n)

unfoldable pub recompute_t2 :
    ℕ → Option AbortReason → List Sample → List Line → Option (HandbackOutcome × List SubRun)
unfolding rebuild_runs finish_handback judged_regs phase_samples over_samples add_observed
    auto_values pre_crossing table_input m_value
recompute_t2 ch abort smp ls =
    if ch == pcie_channel
    then some (not_applicable, [])
    else from_regs ch abort smp ls (judged_regs ch)
