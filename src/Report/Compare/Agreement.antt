-- ===== src/Report/Compare/Agreement.antt =====
-- When the report finds no mismatch.
use minisforum_n5pro_fan_pro.Prelude.{
  ℕ, ◌≡◌, refl, ◌↔◌, Bool, true, false, Option, none, some, List, [], ◌∷◌, ◌++◌, Text, All, arith,
  if◌then◌else◌,
}
use minisforum_n5pro_fan_pro.Spec.Verdict.{Verdict, same, same→eq}
use minisforum_n5pro_fan_pro.Spec.Aggregate.Defs.{Sub, RunResult}
use minisforum_n5pro_fan_pro.Report.Compare.{
  Tested, Mismatch, Place, unless_same, compare_subs, find_run, has_run, against_run,
  compare_recomputed_runs, lost_runs, compare_runs, find_test, has_test, against_test,
  compare_recomputed, lost_tests, compare_tests,
}

-- As many sub-runs on both sides, with the same verdicts of both tests at the same places.
abbrev pub SameSubs : List Sub → List Sub → Type 0
SameSubs [] [] = Unit
SameSubs [] (r ∷ rs) = ⊥
SameSubs (s ∷ ss) [] = ⊥
SameSubs (s ∷ ss) (r ∷ rs) =
    (s.result.t2 ≡ r.result.t2) × ((s.result.t3 ≡ r.result.t3) × SameSubs ss rs)

abbrev pub SameRun : Option RunResult → RunResult → Type 0
SameRun none r = ⊥
SameRun (some s) r = (s.verdict ≡ r.verdict) × SameSubs s.subs r.subs

-- Every recomputed repetition is stored alike, and every stored one was recomputed.
abbrev pub SameRuns : List RunResult → List RunResult → Type 0
SameRuns stored recomputed =
    All (λ r. SameRun (find_run r.run stored) r) recomputed
    × All (λ s. has_run s.run recomputed ≡ true) stored

abbrev pub SameTest : Option Tested → Tested → Type 0
SameTest none t = ⊥
SameTest (some s) t = (s.verdict ≡ t.verdict) × SameRuns s.runs t.runs

-- Two lists of mismatches are empty together when each of them is.
both-none :
    {P Q : Type 0} (xs ys : List Mismatch)
    → ((xs ≡ []) ↔ P)
    → ((ys ≡ []) ↔ Q)
    → ((xs ++ ys) ≡ []) ↔ (P × Q)
both-none [] ys first rest = (λ h. (first.0 refl, rest.0 h), λ h. rest.1 h.1)
both-none (x ∷ xs) ys first rest = (λ h. cc, λ h. cc (first.1 h.0))

-- A list that is extended only when a test fails.
listed-none :
    {P : Type 0} (b : Bool) (m : Mismatch) (ms : List Mismatch)
    → ((ms ≡ []) ↔ P)
    → ((if b then ms else m ∷ ms) ≡ []) ↔ ((b ≡ true) × P)
listed-none true m ms rest = (λ h. (refl, rest.0 h), λ h. rest.1 h.1)
listed-none false m ms rest = (λ h. cc, λ h. cc (h.0))

same_refl : (x y : Verdict) → x ≡ y → same x y ≡ true
same_refl x y e = ground (arith, e)

unless_same-none : (p : Place) (s r : Verdict) → (unless_same p s r ≡ []) ↔ (s ≡ r)
unless_same-none p s r =
    (λ h. same→eq s r (ground (arith, h)), λ e. ground (arith, same_refl s r e))

compare_subs-none :
    (id : Text) (n : ℕ) (ss rs : List Sub) → (compare_subs id n ss rs ≡ []) ↔ SameSubs ss rs
unfolding compare_subs
compare_subs-none id n [] [] = (λ h. tt, λ h. refl)
compare_subs-none id n [] (r ∷ rs) = (λ h. cc, λ h. absurd h)
compare_subs-none id n (s ∷ ss) [] = (λ h. cc, λ h. absurd h)
compare_subs-none id n (s ∷ ss) (r ∷ rs) =
    both-none _ _ (unless_same-none (Place.of_t2 id n r.label) s.result.t2 r.result.t2) (
      both-none _ _ (unless_same-none (Place.of_t3 id n r.label) s.result.t3 r.result.t3)
        (compare_subs-none id n ss rs))

against_run-none :
    (id : Text) (o : Option RunResult) (r : RunResult) → (against_run id o r ≡ []) ↔ SameRun o r
against_run-none id none r = (λ h. cc, λ h. absurd h)
against_run-none id (some s) r =
    both-none _ _ (unless_same-none (Place.of_run id r.run) s.verdict r.verdict)
      (compare_subs-none id r.run s.subs r.subs)

compare_recomputed_runs-none :
    (id : Text) (stored rs : List RunResult)
    → (compare_recomputed_runs id stored rs ≡ []) ↔ All (λ r. SameRun (find_run r.run stored) r) rs
unfolding compare_recomputed_runs
compare_recomputed_runs-none id stored [] = (λ h. tt, λ h. refl)
compare_recomputed_runs-none id stored (r ∷ rs) =
    both-none _ _ (against_run-none id (find_run r.run stored) r)
      (compare_recomputed_runs-none id stored rs)

lost_runs-none :
    (id : Text) (recomputed ss : List RunResult)
    → (lost_runs id recomputed ss ≡ []) ↔ All (λ s. has_run s.run recomputed ≡ true) ss
unfolding lost_runs
lost_runs-none id recomputed [] = (λ h. tt, λ h. refl)
lost_runs-none id recomputed (s ∷ ss) =
    listed-none (has_run s.run recomputed) _ _ (lost_runs-none id recomputed ss)

compare_runs-none :
    (id : Text) (stored recomputed : List RunResult)
    → (compare_runs id stored recomputed ≡ []) ↔ SameRuns stored recomputed
unfolding compare_runs
compare_runs-none id stored recomputed =
    both-none _ _ (compare_recomputed_runs-none id stored recomputed)
      (lost_runs-none id recomputed stored)

against_test-none : (o : Option Tested) (t : Tested) → (against_test o t ≡ []) ↔ SameTest o t
against_test-none none t = (λ h. cc, λ h. absurd h)
against_test-none (some s) t =
    both-none _ _ (unless_same-none (Place.of_test t.id) s.verdict t.verdict)
      (compare_runs-none t.id s.runs t.runs)

compare_recomputed-none :
    (stored ts : List Tested)
    → (compare_recomputed stored ts ≡ []) ↔ All (λ t. SameTest (find_test t.id stored) t) ts
unfolding compare_recomputed
compare_recomputed-none stored [] = (λ h. tt, λ h. refl)
compare_recomputed-none stored (t ∷ ts) =
    both-none _ _ (against_test-none (find_test t.id stored) t) (compare_recomputed-none stored ts)

lost_tests-none :
    (recomputed ss : List Tested)
    → (lost_tests recomputed ss ≡ []) ↔ All (λ s. has_test s.id recomputed ≡ true) ss
unfolding lost_tests
lost_tests-none recomputed [] = (λ h. tt, λ h. refl)
lost_tests-none recomputed (s ∷ ss) =
    listed-none (has_test s.id recomputed) _ _ (lost_tests-none recomputed ss)

-- The report lists no mismatch of test results exactly when every recomputed test is stored with the same verdict, each of its
-- recomputed repetitions is stored with the same verdict and the same T2 and T3 verdicts of as many sub-runs, every
-- stored repetition of it was recomputed, and every stored test was recomputed.
pub compare_tests-none :
    (stored recomputed : List Tested)
    → (compare_tests stored recomputed ≡ []) ↔ (
        All (λ t. SameTest (find_test t.id stored) t) recomputed
        × All (λ s. has_test s.id recomputed ≡ true) stored)
unfolding compare_tests
compare_tests-none stored recomputed =
    both-none _ _ (compare_recomputed-none stored recomputed) (lost_tests-none recomputed stored)
