-- ===== src/Report/Compare.antt =====
-- ectest/internal/report/recompute.go: `compareTests` and `compareRuns`, the differences between the stored results of
-- a bundle and the recomputed ones. A Go map that is filled in order keeps the last entry of a key. Of an identifier
-- that the source formats the parts are kept.
pub mod Agreement
use minisforum_n5pro_fan_pro.Prelude.{
  ℕ, Bool, true, false, ◌||◌, Option, none, some, List, [], ◌∷◌, ◌++◌, Text, text_eq, ◌==◌,
  if◌then◌else◌,
}
use minisforum_n5pro_fan_pro.Spec.Verdict.{Verdict, same}
use minisforum_n5pro_fan_pro.Spec.Sample.{Label}
use minisforum_n5pro_fan_pro.Spec.Aggregate.Defs.{Sub, RunResult}

-- The parts of a `spec.Result` that are compared.
pub record Tested : Type 0 where
  pub id : Text
  pub verdict : Verdict
  pub runs : List RunResult

-- One side of a mismatch.
pub data Side : Type 0 where
  shown : Verdict → Side
  gate_result : Bool → Side
  not_recomputed missing no_gate_samples : Side

pub data Place : Type 0 where
  of_test : Text → Place
  of_run : Text → ℕ → Place
  of_sub of_t2 of_t3 : Text → ℕ → Label → Place
  of_g3 of_g4 : Place

pub record Mismatch : Type 0 where
  pub place : Place
  pub stored : Side
  pub recomputed : Side

abbrev pub differ : Place → Side → Side → Mismatch
differ p s r = record { place = p; stored = s; recomputed = r }

-- The mismatch of two verdicts, if they differ.
abbrev pub unless_same : Place → Verdict → Verdict → List Mismatch
unless_same p s r = if same s r then [] else differ p (shown s) (shown r) ∷ []

-- The loop over the sub-runs of both sides, by index.
unfoldable pub compare_subs : Text → ℕ → List Sub → List Sub → List Mismatch
compare_subs id n [] [] = []
compare_subs id n [] (r ∷ rs) =
    differ (of_sub id n r.label) missing (shown r.result.t2) ∷ compare_subs id n [] rs
compare_subs id n (s ∷ ss) [] =
    differ (of_sub id n s.label) (shown s.result.t2) not_recomputed ∷ compare_subs id n ss []
compare_subs id n (s ∷ ss) (r ∷ rs) =
    unless_same (of_t2 id n r.label) s.result.t2 r.result.t2
    ++ (unless_same (of_t3 id n r.label) s.result.t3 r.result.t3 ++ compare_subs id n ss rs)

abbrev pub or_found {ℓ} : {A : Type ℓ} → Option A → Option A → Option A
or_found (some a) o = some a
or_found none o = o

-- The last repetition of a number.
unfoldable pub find_run : ℕ → List RunResult → Option RunResult
find_run n [] = none
find_run n (r ∷ rs) = or_found (find_run n rs) (if r.run == n then some r else none)

unfoldable pub has_run : ℕ → List RunResult → Bool
has_run n [] = false
has_run n (r ∷ rs) = r.run == n || has_run n rs

abbrev pub against_run : Text → Option RunResult → RunResult → List Mismatch
against_run id none r = differ (of_run id r.run) missing (shown r.verdict) ∷ []
against_run id (some s) r =
    unless_same (of_run id r.run) s.verdict r.verdict ++ compare_subs id r.run s.subs r.subs

unfoldable pub compare_recomputed_runs : Text → List RunResult → List RunResult → List Mismatch
unfolding find_run compare_subs
compare_recomputed_runs id stored [] = []
compare_recomputed_runs id stored (r ∷ rs) =
    against_run id (find_run r.run stored) r ++ compare_recomputed_runs id stored rs

-- The stored repetitions that were not recomputed.
unfoldable pub lost_runs : Text → List RunResult → List RunResult → List Mismatch
unfolding has_run
lost_runs id recomputed [] = []
lost_runs id recomputed (s ∷ ss) =
    let rest = lost_runs id recomputed ss in
    if has_run s.run recomputed
    then rest
    else differ (of_run id s.run) (shown s.verdict) not_recomputed ∷ rest

unfoldable pub compare_runs : Text → List RunResult → List RunResult → List Mismatch
unfolding compare_recomputed_runs lost_runs
compare_runs id stored recomputed =
    compare_recomputed_runs id stored recomputed ++ lost_runs id recomputed stored

unfoldable pub find_test : Text → List Tested → Option Tested
unfolding text_eq
find_test id [] = none
find_test id (t ∷ ts) = or_found (find_test id ts) (if text_eq t.id id then some t else none)

unfoldable pub has_test : Text → List Tested → Bool
unfolding text_eq
has_test id [] = false
has_test id (t ∷ ts) = text_eq t.id id || has_test id ts

abbrev pub against_test : Option Tested → Tested → List Mismatch
against_test none t = differ (of_test t.id) missing (shown t.verdict) ∷ []
against_test (some s) t =
    unless_same (of_test t.id) s.verdict t.verdict ++ compare_runs t.id s.runs t.runs

unfoldable pub compare_recomputed : List Tested → List Tested → List Mismatch
unfolding find_test compare_runs
compare_recomputed stored [] = []
compare_recomputed stored (t ∷ ts) =
    against_test (find_test t.id stored) t ++ compare_recomputed stored ts

unfoldable pub lost_tests : List Tested → List Tested → List Mismatch
unfolding has_test
lost_tests recomputed [] = []
lost_tests recomputed (s ∷ ss) =
    let rest = lost_tests recomputed ss in
    if has_test s.id recomputed
    then rest
    else differ (of_test s.id) (shown s.verdict) not_recomputed ∷ rest

unfoldable pub compare_tests : List Tested → List Tested → List Mismatch
unfolding compare_recomputed lost_tests
compare_tests stored recomputed =
    compare_recomputed stored recomputed ++ lost_tests recomputed stored
