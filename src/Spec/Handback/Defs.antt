-- ===== src/Spec/Handback/Defs.antt =====
-- ectest/internal/spec/eval.go: `EvalHandback`. Times are milliseconds since the auto command. A reason
-- is a value that carries the numbers which the source formats into a text.
use minisforum_n5pro_fan_pro.Prelude.{
  ℕ, ◌+◌, ◌-◌, ◌*◌, Bool, true, false, ◌&&◌, not, Option, none, some, List, [], ◌∷◌, leb, ltb, ◌==◌,
  if◌then◌else◌,
}
use minisforum_n5pro_fan_pro.Spec.Verdict.{Verdict, pass, fail, inconclusive}
use minisforum_n5pro_fan_pro.Spec.Sample.{Label}
use minisforum_n5pro_fan_pro.Spec.Tables.{
  Crossed, leave_counts, hold_counts, leave_within, observe_s, settle_band, settle_hold,
}

pub record DcrSample : Type 0 where
  pub t : ℕ
  pub dcr : ℕ

-- Where the reference channel crossed a step: in the window of A, or between write and end of log.
pub data CrossedIn : Type 0 where
  in_pre_window : Crossed → CrossedIn
  in_sub_run : Crossed → CrossedIn

pub record HandbackRun : Type 0 where
  pub label : Label
  pub reg : Option ℕ
  pub written : ℕ
  pub samples : List DcrSample
  pub timing_known : Bool
  pub auto : ℕ
  pub auto_known : Bool
  pub limit_s : ℕ
  pub crossed : Option CrossedIn

pub data Reason : Type 0 where
  no_samples no_register : Reason
  left_in_time : (written at : ℕ) → Reason
  left_late : (at : ℕ) → Reason
  left_untimed : (written deviation : ℕ) → Reason
  held_to_end : (written observed : ℕ) → Reason
  held_but_short : (observed needed : ℕ) → Reason
  moved_little : (deviation : ℕ) → Reason
  too_close : (written auto : ℕ) → Reason → Reason
  steady_in_time : (value at : ℕ) → Reason
  steady_late : (at limit : ℕ) → Reason
  steady_untimed : (value : ℕ) → Reason
  never_steady : (limit : ℕ) → Reason
  no_steady_window : (observed : ℕ) → Reason
  crossed_step : CrossedIn → Reason → Reason

pub record SubResult : Type 0 where
  pub label : Label
  pub reg : Option ℕ
  pub written : ℕ
  pub left : Bool
  pub left_at : Option ℕ
  pub max_dev : ℕ
  pub held : ℕ
  pub observed : ℕ
  pub t2 : Verdict
  pub t2_reason : Reason
  pub settle_at : Option ℕ  -- `Settled` is that this is present
  pub final_value : Option ℕ
  pub t3 : Verdict
  pub t3_reason : Reason

-- `absInt(a - b)`.
abbrev pub dist : ℕ → ℕ → ℕ
dist a b = (a - b) + (b - a)

-- `sort.SliceStable` by time.
unfoldable pub insert_by_time : DcrSample → List DcrSample → List DcrSample
insert_by_time x [] = x ∷ []
insert_by_time x (y ∷ ys) =
    let rest = insert_by_time x ys in if leb x.t y.t then x ∷ y ∷ ys else y ∷ rest

unfoldable pub sort_by_time : List DcrSample → List DcrSample
unfolding insert_by_time
sort_by_time [] = []
sort_by_time (x ∷ xs) = insert_by_time x (sort_by_time xs)

unfoldable pub last_time : ℕ → List DcrSample → ℕ
last_time t [] = t
last_time t (x ∷ xs) = last_time x.t xs

-- The first loop: the deviations from the written value.
pub record Scan : Type 0 where
  pub max_dev : ℕ
  pub left : Bool
  pub left_at : Option ℕ
  pub all_within : Bool

unfoldable pub scan_step : Bool → ℕ → Scan → DcrSample → Scan
scan_step timed w s x =
    let d = dist x.dcr w in
    let leaves = leb leave_counts d && not s.left in
    record {
      max_dev = if ltb s.max_dev d then d else s.max_dev;
      left = if leaves then true else s.left;
      left_at = if leaves && timed then some x.t else s.left_at;
      all_within = if ltb hold_counts d then false else s.all_within;
    }

unfoldable pub scan : Bool → ℕ → Scan → List DcrSample → Scan
unfolding scan_step
scan timed w s [] = s
scan timed w s (x ∷ xs) = scan timed w (scan_step timed w s x) xs

abbrev pub scan_start : Scan
scan_start = record { max_dev = 0; left = false; left_at = none; all_within = true }

-- The inner loop of the steady window: it stops at the first sample after `end`.
unfoldable pub window_ok : ℕ → ℕ → List DcrSample → Bool
window_ok v end [] = true
window_ok v end (y ∷ ys) =
    if leb y.t end
    then (if ltb settle_band (dist y.dcr v) then false else window_ok v end ys)
    else true

-- The search for the first steady window; it breaks at a window that the data does not cover. The end of a window is a
-- sum of whole milliseconds, where the source adds seconds in float64.
unfoldable pub first_steady : ℕ → List DcrSample → Option DcrSample
unfolding window_ok
first_steady last [] = none
first_steady last (x ∷ xs) =
    let rest = first_steady last xs in
    if ltb last (x.t + settle_hold)
    then none
    else if window_ok x.dcr (x.t + settle_hold) (x ∷ xs)
    then some x
    else rest

-- The verdict of a test with its reason.
pub record Judged : Type 0 where
  pub verdict : Verdict
  pub reason : Reason

abbrev pub judge : Verdict → Reason → Judged
judge v r = record { verdict = v; reason = r }

-- The first `switch`: T2 from the scan. `need` is the whole log of the sub-run.
unfoldable pub judge_left : HandbackRun → Scan → ℕ → ℕ → Judged
judge_left r s observed need =
    if s.left
    then elim s.left_at [
      | some t ↦
          if leb t leave_within
          then judge pass (left_in_time r.written t)
          else judge inconclusive (left_late t)
      | none ↦ judge inconclusive (left_untimed r.written s.max_dev)
    ]
    else if s.all_within
    then (if r.timing_known && leb need observed
        then judge fail (held_to_end r.written observed)
        else judge inconclusive (held_but_short observed need))
    else judge inconclusive (moved_little s.max_dev)

unfoldable pub judge_close : HandbackRun → Judged → Judged
judge_close r j =
    if r.auto_known && ltb (dist r.written r.auto) leave_counts
    then judge inconclusive (too_close r.written r.auto j.reason)
    else j

-- The second `switch`: T3 from the first steady window.
unfoldable pub judge_steady : Bool → ℕ → ℕ → ℕ → Option DcrSample → Judged
judge_steady timed limit observed last (some x) =
    if timed
    then (if leb x.t limit
        then judge pass (steady_in_time x.dcr x.t)
        else judge fail (steady_late x.t limit))
    else judge inconclusive (steady_untimed x.dcr)
judge_steady timed limit observed last none =
    if timed && leb (limit + settle_hold) last
    then judge fail (never_steady limit)
    else judge inconclusive (no_steady_window observed)

unfoldable pub judge_crossed : Option CrossedIn → Judged → Judged
judge_crossed none j = j
judge_crossed (some c) j = judge inconclusive (crossed_step c j.reason)

-- The T3 limit of the run in milliseconds; 0 stands for the default.
unfoldable pub limit_of : HandbackRun → ℕ
limit_of r = 1_000 * (if r.limit_s == 0 then observe_s else r.limit_s)

abbrev pub time_of : Option DcrSample → Option ℕ
time_of none = none
time_of (some x) = some x.t

abbrev pub value_of : Option DcrSample → Option ℕ
value_of none = none
value_of (some x) = some x.dcr

-- The evaluation over the sorted samples.
unfoldable pub eval_sorted : HandbackRun → List DcrSample → SubResult
unfolding scan judge_left judge_close judge_steady judge_crossed first_steady last_time limit_of
eval_sorted r [] = record {
  label = r.label;
  reg = r.reg;
  written = r.written;
  left = false;
  left_at = none;
  max_dev = 0;
  held = 0;
  observed = 0;
  t2 = inconclusive;
  t2_reason = no_samples;
  settle_at = none;
  final_value = none;
  t3 = inconclusive;
  t3_reason = no_samples;
}
eval_sorted r (x ∷ xs) =
    let last = last_time x.t xs in
    let observed = if r.timing_known then last else last - x.t in
    let limit = limit_of r in
    let s = scan r.timing_known r.written scan_start (x ∷ xs) in
    let steady = first_steady last (x ∷ xs) in
    let j2 =
      judge_crossed r.crossed (judge_close r (judge_left r s observed (limit + settle_hold))) in
    let j3 = judge_crossed r.crossed (judge_steady r.timing_known limit observed last steady) in
    record {
      label = r.label;
      reg = r.reg;
      written = r.written;
      left = s.left;
      left_at = s.left_at;
      max_dev = s.max_dev;
      held = if s.all_within then observed else 0;
      observed = observed;
      t2 = j2.verdict;
      t2_reason = j2.reason;
      settle_at = time_of steady;
      final_value = value_of steady;
      t3 = j3.verdict;
      t3_reason = j3.reason;
    }

unfoldable pub eval_handback : HandbackRun → SubResult
unfolding eval_sorted sort_by_time
eval_handback r = eval_sorted r (sort_by_time r.samples)
