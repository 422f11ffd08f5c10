-- ===== src/Spec/Aggregate/Runs.antt =====
-- The verdict over the repetitions of the hand-back test.
use minisforum_n5pro_fan_pro.Prelude.{
  ℕ, ◌+◌, ◌≤◌, ◌≡◌, ◌≢◌, refl, sym, ◌↔◌, inl, inr, Bool, true, false, List, [], ◌∷◌, map, length,
  ltb, All, Any, arith, Bool-cases, if◌then◌else◌,
}
use minisforum_n5pro_fan_pro.Spec.Verdict.{
  Verdict, inconclusive, combine, combine-decided, IsDecided,
}
use minisforum_n5pro_fan_pro.Spec.Sample.{Label}
use minisforum_n5pro_fan_pro.Spec.Tables.{runs_required}
use minisforum_n5pro_fan_pro.Spec.Aggregate.Defs.{
  Sub, RunResult, sub2, sub3, has_label, missing_of, judge_run, run2, run3, number_runs,
  verdicts_of, aggregate,
}

-- Every wanted label has a sub-run, and there are sub-runs, all with the verdict `v`.
abbrev pub Unanimous : (Sub → Verdict) → List Label → Verdict → List Sub → Type 0
Unanimous f want v subs =
    (subs ≢ []) × All (λ s. f s ≡ v) subs × All (λ l. Any (λ s. s.label ≡ l) subs) want

has_label_iff :
    (l : Label) (subs : List Sub) → (has_label l subs ≡ true) ↔ Any (λ s. s.label ≡ l) subs
unfolding has_label
has_label_iff l [] = (λ h. absurd (ground arith), λ h. absurd h)
has_label_iff l (s ∷ ss) =
    (λ h. ground (arith, has_label_iff l ss), λ h. ground (arith, has_label_iff l ss))

missing_of_iff :
    (subs : List Sub) (want : List Label)
    → (missing_of subs want ≡ []) ↔ All (λ l. Any (λ s. s.label ≡ l) subs) want
unfolding missing_of
missing_of_iff subs [] = (λ h. tt, λ h. refl)
missing_of_iff subs (l ∷ ls) = elim (Bool-cases (has_label l subs)) [
  | inl e ↦ rw e (
    λ h. ((has_label_iff l subs).0 e, (missing_of_iff subs ls).0 h),
    λ h. (missing_of_iff subs ls).1 h.1,
  )
  | inr e ↦
      rw e (λ h. absurd (ground arith), λ h. absurd (ground (arith, (has_label_iff l subs).1 h.0)))
]

All-map_iff :
    (f : Sub → Verdict) (v : Verdict) (subs : List Sub)
    → All (λ x. x ≡ v) (map f subs) ↔ All (λ s. f s ≡ v) subs
All-map_iff f v [] = (λ h. h, λ h. h)
All-map_iff f v (s ∷ ss) =
    (λ h. (h.0, (All-map_iff f v ss).0 h.1), λ h. (h.0, (All-map_iff f v ss).1 h.1))

map-nonempty : (f : Sub → Verdict) (subs : List Sub) → (map f subs ≢ []) ↔ (subs ≢ [])
map-nonempty f [] = (λ h e. h refl, λ h e. h refl)
map-nonempty f (s ∷ ss) = (λ h e. cc, λ h e. cc)

judge_run-decided :
    (b : Bool) (i : ℕ) (f : Sub → Verdict) (v : Verdict)
    → IsDecided v
    → (want : List Label) (subs : List Sub) (missing : List Label) → missing ≡ missing_of subs want
    → ((judge_run b i (map f subs) missing subs).verdict ≡ v) ↔ Unanimous f want v subs
unfolding judge_run
judge_run-decided b i f v d want subs [] e = (
  λ h.
      let (n, a) = (combine-decided v d (map f subs)).0 h in
      ((map-nonempty f subs).0 n, (All-map_iff f v subs).0 a, (missing_of_iff subs want).0 (sym e)),
  λ (n, a, w).
      (combine-decided v d (map f subs)).1 ((map-nonempty f subs).1 n, (All-map_iff f v subs).1 a),
)
judge_run-decided b i f v d want subs (l ∷ ls) e = (
  λ h. absurd (ground arith),
  λ (n, a, w). absurd (ground (arith, (missing_of_iff subs want).1 w)),
)

run2-decided :
    (v : Verdict)
    → IsDecided v
    → (want : List Label) (i : ℕ) (subs : List Sub)
    → ((run2 want i subs).verdict ≡ v) ↔ Unanimous sub2 want v subs
unfolding run2
run2-decided v d want i subs =
    judge_run-decided true i sub2 v d want subs (missing_of subs want) refl

run3-decided :
    (v : Verdict)
    → IsDecided v
    → (want : List Label) (i : ℕ) (subs : List Sub)
    → ((run3 want i subs).verdict ≡ v) ↔ Unanimous sub3 want v subs
unfolding run3
run3-decided v d want i subs =
    judge_run-decided false i sub3 v d want subs (missing_of subs want) refl

module _ (v : Verdict) (P : List Sub → Type 0) (run : ℕ → List Sub → RunResult)
    (judged : (i : ℕ) (subs : List Sub) → ((run i subs).verdict ≡ v) ↔ P subs) where
  runs_iff :
      (i : ℕ) (runs : List (List Sub))
      → All (λ x. x ≡ v) (verdicts_of (number_runs run i runs)) ↔ All P runs
  unfolding number_runs
  runs_iff i [] = (λ h. tt, λ h. tt)
  runs_iff i (r ∷ rs) = (
    λ h. ((judged i r).0 h.0, (runs_iff (i + 1) rs).0 h.1),
    λ h. ((judged i r).1 h.0, (runs_iff (i + 1) rs).1 h.1),
  )

  total_decided :
      IsDecided v
      → (runs : List (List Sub))
      → ((if ltb (length runs) runs_required
            then inconclusive
            else combine (verdicts_of (number_runs run 1 runs)))
          ≡ v)
        ↔ ((runs_required ≤ length runs) × All P runs)
  unfolding number_runs
  total_decided d [] = (λ h. absurd (ground arith), λ h. absurd (omega arith))
  total_decided d (r ∷ rs) = elim (Bool-cases (ltb (length (r ∷ rs)) runs_required)) [
    | inl e ↦ rw e (λ h. absurd (ground arith), λ h. absurd (ground arith))
    | inr e ↦ rw e (
      λ h. (
        ground arith,
        (runs_iff 1 (r ∷ rs)).0
            ((combine-decided v d (verdicts_of (number_runs run 1 (r ∷ rs)))).0 h).1,
      ),
      λ h.
          (combine-decided v d (verdicts_of (number_runs run 1 (r ∷ rs)))).1
            (λ q. cc, (runs_iff 1 (r ∷ rs)).1 h.1),
    )
  ]

-- For PASS and for FAIL alike: T2 of a channel has this verdict exactly when there are at least three
-- repetitions and each of them has a sub-run of every wanted label and only sub-runs with this T2 verdict;
-- the same holds of T3 with the T3 verdicts.
pub aggregate_decided :
    (v : Verdict)
    → IsDecided v
    → (ch : ℕ) (runs : List (List Sub)) (want : List Label)
    → (((aggregate ch runs want).0.verdict ≡ v)
        ↔ ((runs_required ≤ length runs) × All (Unanimous sub2 want v) runs))
      × (((aggregate ch runs want).1.verdict ≡ v)
          ↔ ((runs_required ≤ length runs) × All (Unanimous sub3 want v) runs))
unfolding aggregate
aggregate_decided v d ch runs want = (
  total_decided v (Unanimous sub2 want v) (run2 want) (run2-decided v d want) d runs,
  total_decided v (Unanimous sub3 want v) (run3 want) (run3-decided v d want) d runs,
)
