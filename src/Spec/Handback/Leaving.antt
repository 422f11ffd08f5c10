-- ===== src/Spec/Handback/Leaving.antt =====
-- T2 of one sub-run, PASS: against a description that knows neither the sort nor the scan.
use minisforum_n5pro_fan_pro.Prelude.{
  ℕ, ◌≤◌, ◌≡◌, ◌≢◌, refl, sym, ap, ◌∙◌, ◌↔◌, ◌⊎◌, inl, inr, Bool, true, false, Option, none, some,
  List, [], ◌∷◌, All, Any, arith, leb, Bool-cases, if◌then◌else◌,
}
use minisforum_n5pro_fan_pro.Spec.Verdict.{Verdict, pass, inconclusive}
use minisforum_n5pro_fan_pro.Spec.Tables.{leave_counts, hold_counts, leave_within}
use minisforum_n5pro_fan_pro.Spec.Handback.Defs.{
  Judged, DcrSample, HandbackRun, Scan, dist, scan, scan_step, time_of, eval_handback, eval_sorted,
  judge_left, judge_close, judge_crossed, scan_start,
}
use minisforum_n5pro_fan_pro.Spec.Handback.Sorting.{IsSorted, sort-IsSorted, sort-Any, Any-sort}

abbrev pub Leaves : ℕ → DcrSample → Type 0
Leaves w x = leave_counts ≤ dist x.dcr w

abbrev pub Holds : ℕ → DcrSample → Type 0
Holds w x = dist x.dcr w ≤ hold_counts

-- The first sample that leaves the written value.
unfoldable pub first_leaving : ℕ → List DcrSample → Option DcrSample
first_leaving w [] = none
first_leaving w (x ∷ xs) = if leb leave_counts (dist x.dcr w) then some x else first_leaving w xs

abbrev pub is_some : Option DcrSample → Bool
is_some none = false
is_some (some x) = true

module _ (timed : Bool) (w : ℕ) where
  pub scan-left :
      (s : Scan) (xs : List DcrSample)
      → s.left ≡ true
      → ((scan timed w s xs).left ≡ true) × ((scan timed w s xs).left_at ≡ s.left_at)
  unfolding scan
  scan-left s [] h = (h, refl)
  scan-left s (x ∷ xs) h = ground (arith, scan-left (scan_step timed w s x) xs)

  pub scan-first :
      (s : Scan) (xs : List DcrSample)
      → s.left ≡ false
      → s.left_at ≡ none
      → ((scan timed w s xs).left ≡ is_some (first_leaving w xs))
        × ((scan timed w s xs).left_at ≡ (if timed then time_of (first_leaving w xs) else none))
  unfolding scan first_leaving
  scan-first s [] h k = ground arith
  scan-first s (x ∷ xs) h k =
      ground (arith, scan-left (scan_step timed w s x) xs, scan-first (scan_step timed w s x) xs)

  pub scan-within :
      (s : Scan) (xs : List DcrSample)
      → ((scan timed w s xs).all_within ≡ true) ↔ ((s.all_within ≡ true) × All (Holds w) xs)
  unfolding scan
  scan-within s [] = (λ h. (h, tt), λ h. h.0)
  scan-within s (x ∷ xs) = (
    λ h. ground (arith, scan-within (scan_step timed w s x) xs),
    λ h. ground (arith, scan-within (scan_step timed w s x) xs),
  )

-- In a sorted list the first sample that leaves is the earliest.
pub first_leaving_iff :
    (w limit : ℕ) (xs : List DcrSample)
    → IsSorted xs
    → ((x : DcrSample) × (first_leaving w xs ≡ some x) × (x.t ≤ limit))
      ↔ Any (λ x. Leaves w x × (x.t ≤ limit)) xs
unfolding first_leaving
first_leaving_iff w limit [] s = (λ h. cc (h.1), λ h. absurd h)
first_leaving_iff w limit (x ∷ xs) s = elim (Bool-cases (leb leave_counts (dist x.dcr w))) [
  | inl e ↦ (λ h. inl (ground arith), λ h. (x, ground arith, ground (arith, earliest xs s.0)))
  | inr e ↦ rw e (
    λ h. inr ((first_leaving_iff w limit xs s.1).0 h),
    λ h. (first_leaving_iff w limit xs s.1).1 (ground arith),
  )
]
  where
    earliest :
        (ys : List DcrSample)
        → All (λ y. x.t ≤ y.t) ys
        → Any (λ y. Leaves w y × (y.t ≤ limit)) ys
        → x.t ≤ limit
    earliest [] a h = absurd h
    earliest (y ∷ ys) a (inl p) = omega (arith, a.0)
    earliest (y ∷ ys) a (inr p) = earliest ys a.1 p

-- The auto value is unknown, or far enough from the written value to tell leaving from returning.
abbrev pub FarFromAuto : HandbackRun → Type 0
FarFromAuto r = (r.auto_known ≡ false) ⊎ (leave_counts ≤ dist r.written r.auto)

abbrev LeftBy : ℕ → Scan → Type 0
LeftBy limit s = (t : ℕ) × (s.left_at ≡ some t) × (t ≤ limit)

judge_left-pass :
    (r : HandbackRun) (s : Scan) (observed need : ℕ) (c : FarFromAuto r)
    → s.left ≡ true
    → (t : ℕ) → s.left_at ≡ some t
    → t ≤ leave_within
    → (judge_close r (judge_left r s observed need)).verdict ≡ pass
unfolding judge_left judge_close
judge_left-pass r s observed need c l t e h = ground arith

pass-judge_left :
    (r : HandbackRun) (s : Scan) (observed need : ℕ)
    → (judge_close r (judge_left r s observed need)).verdict ≡ pass
    → FarFromAuto r × (s.left ≡ true) × ((t : ℕ) × (s.left_at ≡ some t) × (t ≤ leave_within))
unfolding judge_left judge_close
pass-judge_left r s observed need h = ground arith

pub judge_crossed_iff :
    (r : HandbackRun) (v : Judged) (p : Verdict)
    → p ≢ inconclusive
    → ((judge_crossed r.crossed v).verdict ≡ p) ↔ ((r.crossed ≡ none) × (v.verdict ≡ p))
unfolding judge_crossed
judge_crossed_iff r v p n = (λ h. ground arith, λ h. ground arith)

pub timed_inv :
    (timed : Bool) (o : Option DcrSample) (t : ℕ)
    → (if timed then time_of o else none) ≡ some t
    → (timed ≡ true) × (x : DcrSample) × (o ≡ some x) × (x.t ≡ t)
timed_inv timed none t h = absurd (ground arith)
timed_inv timed (some x) t h = (ground arith, x, refl, ground arith)

sorted-pass :
    (r : HandbackRun) (xs : List DcrSample)
    → IsSorted xs
    → ((eval_sorted r xs).t2 ≡ pass) ↔ (
        (r.timing_known ≡ true)
        × (r.crossed ≡ none)
        × FarFromAuto r
        × Any (λ x. Leaves r.written x × (x.t ≤ leave_within)) xs)
unfolding eval_sorted
sorted-pass r [] s = (λ h. cc, λ h. absurd h.3)
sorted-pass r (x ∷ xs) s = (forward, backward)
  where
    first : Option DcrSample
    first = first_leaving r.written (x ∷ xs)

    result : Scan
    result = scan r.timing_known r.written scan_start (x ∷ xs)

    found :
        (result.left ≡ is_some first)
        × (result.left_at ≡ (if r.timing_known then time_of first else none))
    found = scan-first r.timing_known r.written scan_start (x ∷ xs) refl refl

    earliest :
        ((y : DcrSample) × (first ≡ some y) × (y.t ≤ leave_within))
        ↔ Any (λ x. Leaves r.written x × (x.t ≤ leave_within)) (x ∷ xs)
    earliest = first_leaving_iff r.written leave_within (x ∷ xs) s

    forward :
        (eval_sorted r (x ∷ xs)).t2 ≡ pass
        → (r.timing_known ≡ true)
          × (r.crossed ≡ none)
          × FarFromAuto r
          × Any (λ x. Leaves r.written x × (x.t ≤ leave_within)) (x ∷ xs)
    forward h =
        let (nc, v) = (judge_crossed_iff r _ pass (λ e. cc)).0 h in
        let (far, l, by) = pass-judge_left r result _ _ v in
        let (timed, y, e, at) = timed_inv r.timing_known first by.0 (sym found.1 ∙ by.1) in
        (timed, nc, far, earliest.0 (y, e, rw at by.2))

    backward :
        (r.timing_known ≡ true)
          × (r.crossed ≡ none)
          × FarFromAuto r
          × Any (λ x. Leaves r.written x × (x.t ≤ leave_within)) (x ∷ xs)
        → (eval_sorted r (x ∷ xs)).t2 ≡ pass
    backward (timed, nc, far, some_leaves) =
        let (y, e, le) = earliest.1 some_leaves in
        (judge_crossed_iff r _ pass (λ e. cc)).1 (
          nc,
          judge_left-pass r result _ _ far (found.0 ∙ ap is_some e) y.t (found.1 ∙ rw (timed, e))
              le,
        )

-- T2 of a sub-run is PASS exactly when the time of the auto command is known, no table input crossed a step,
-- the written value is not too close to the auto value, and some recorded sample, at most 60 s after the
-- command, lies at least 16 counts from the written value.
pub t2-pass :
    (r : HandbackRun)
    → ((eval_handback r).t2 ≡ pass) ↔ (
        (r.timing_known ≡ true)
        × (r.crossed ≡ none)
        × FarFromAuto r
        × Any (λ x. Leaves r.written x × (x.t ≤ leave_within)) r.samples)
unfolding eval_handback
t2-pass r = (
  λ h.
      let (timed, nc, far, a) = (sorted-pass r _ (sort-IsSorted r.samples)).0 h in
      (timed, nc, far, Any-sort _ r.samples a),
  λ (timed, nc, far, a).
      (sorted-pass r _ (sort-IsSorted r.samples)).1 (timed, nc, far, sort-Any _ r.samples a),
)

pub Holds-first_leaving :
    (w : ℕ) (xs : List DcrSample) → All (Holds w) xs → first_leaving w xs ≡ none
unfolding first_leaving
Holds-first_leaving w [] h = refl
Holds-first_leaving w (x ∷ xs) h = ground (arith, Holds-first_leaving w xs h.1)
