-- ===== src/Spec/Handback/Holding.antt =====
-- T2 of one sub-run, FAIL: the register has held the written value to the end of the log.
use minisforum_n5pro_fan_pro.Prelude.{
  ℕ, ◌+◌, ◌≤◌, ◌≡◌, refl, ap, ◌∙◌, ◌↔◌, true, false, none, List, [], ◌∷◌, All, Any, arith,
  if◌then◌else◌,
}
use minisforum_n5pro_fan_pro.Spec.Verdict.{fail}
use minisforum_n5pro_fan_pro.Spec.Tables.{settle_hold}
use minisforum_n5pro_fan_pro.Spec.Handback.Defs.{
  DcrSample, HandbackRun, Scan, scan, time_of, eval_handback, limit_of, eval_sorted, last_time,
  judge_left, judge_close, scan_start,
}
use minisforum_n5pro_fan_pro.Spec.Handback.Sorting.{
  IsSorted, sort-IsSorted, sort-All, sort-Any, Any-sort, All-sort, le-last_time_iff,
}
use minisforum_n5pro_fan_pro.Spec.Handback.Leaving.{
  Holds, first_leaving, is_some, scan-first, scan-within, FarFromAuto, judge_crossed_iff,
  Holds-first_leaving,
}

fail-judge_left :
    (r : HandbackRun) (s : Scan) (observed need : ℕ)
    → ((judge_close r (judge_left r s observed need)).verdict ≡ fail) ↔ (
        FarFromAuto r
        × (s.left ≡ false)
        × (s.all_within ≡ true)
        × (r.timing_known ≡ true)
        × (need ≤ observed))
unfolding judge_left judge_close
fail-judge_left r s observed need = (λ h. ground arith, λ h. ground arith)

sorted-fail :
    (r : HandbackRun) (xs : List DcrSample)
    → IsSorted xs
    → ((eval_sorted r xs).t2 ≡ fail) ↔ (
        (r.timing_known ≡ true)
        × (r.crossed ≡ none)
        × FarFromAuto r
        × All (Holds r.written) xs
        × Any (λ x. limit_of r + settle_hold ≤ x.t) xs)
unfolding eval_sorted
sorted-fail r [] s = (λ h. cc, λ h. absurd h.4)
sorted-fail r (x ∷ xs) s = (forward, backward)
  where
    result : Scan
    result = scan r.timing_known r.written scan_start (x ∷ xs)

    found :
        (result.left ≡ is_some (first_leaving r.written (x ∷ xs)))
        × (result.left_at
            ≡ (if r.timing_known then time_of (first_leaving r.written (x ∷ xs)) else none))
    found = scan-first r.timing_known r.written scan_start (x ∷ xs) refl refl

    within : (result.all_within ≡ true) ↔ ((true ≡ true) × All (Holds r.written) (x ∷ xs))
    within = scan-within r.timing_known r.written scan_start (x ∷ xs)

    reached :
        (limit_of r + settle_hold ≤ last_time x.t xs)
        ↔ Any (λ y. limit_of r + settle_hold ≤ y.t) (x ∷ xs)
    reached = le-last_time_iff (limit_of r + settle_hold) x xs s

    forward :
        (eval_sorted r (x ∷ xs)).t2 ≡ fail
        → (r.timing_known ≡ true)
          × (r.crossed ≡ none)
          × FarFromAuto r
          × All (Holds r.written) (x ∷ xs)
          × Any (λ y. limit_of r + settle_hold ≤ y.t) (x ∷ xs)
    forward h =
        let (nc, v) = (judge_crossed_iff r _ fail (λ e. cc)).0 h in
        let (far, l, w, timed, need) = (fail-judge_left r result _ _).0 v in
        (timed, nc, far, (within.0 w).1, reached.0 (rw timed at need))

    backward :
        (r.timing_known ≡ true)
          × (r.crossed ≡ none)
          × FarFromAuto r
          × All (Holds r.written) (x ∷ xs)
          × Any (λ y. limit_of r + settle_hold ≤ y.t) (x ∷ xs)
        → (eval_sorted r (x ∷ xs)).t2 ≡ fail
    backward (timed, nc, far, hold, late) = (judge_crossed_iff r _ fail (λ e. cc)).1 (
      nc,
      (fail-judge_left r result _ _).1 (
        far,
        found.0 ∙ ap is_some (Holds-first_leaving r.written (x ∷ xs) hold),
        within.1 (refl, hold),
        timed,
        rw timed (reached.1 late),
      ),
    )

-- T2 of a sub-run is FAIL exactly when the time of the auto command is known, no table input crossed a step,
-- the written value is not too close to the auto value, every recorded sample lies within 2 counts of the
-- written value, and the samples reach the end of the log, the T3 limit plus 120 s.
pub t2-fail :
    (r : HandbackRun)
    → ((eval_handback r).t2 ≡ fail) ↔ (
        (r.timing_known ≡ true)
        × (r.crossed ≡ none)
        × FarFromAuto r
        × All (Holds r.written) r.samples
        × Any (λ x. limit_of r + settle_hold ≤ x.t) r.samples)
unfolding eval_handback
t2-fail r = (
  λ h.
      let (timed, nc, far, a, l) = (sorted-fail r _ (sort-IsSorted r.samples)).0 h in
      (timed, nc, far, All-sort _ r.samples a, Any-sort _ r.samples l),
  λ (timed, nc, far, a, l).
      (sorted-fail r _ (sort-IsSorted r.samples)).1
        (timed, nc, far, sort-All _ r.samples a, sort-Any _ r.samples l),
)
