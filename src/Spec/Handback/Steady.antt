-- ===== src/Spec/Handback/Steady.antt =====
-- T3 of one sub-run against a description of the steady window over the recorded samples.
use mathlib.Core.Path.{subst}
use minisforum_n5pro_fan_pro.Prelude.{
  ℕ, ◌+◌, ◌≤◌, ◌<◌, ◌≡◌, refl, sym, ◌↔◌, ◌⊎◌, inl, inr, Bool, true, false, Option, none, some, List,
  [], ◌∷◌, All, Any, All-map, Any-map, All-zip, arith, leb, ltb, Bool-cases, Option-cases, ltb→lt,
}
use minisforum_n5pro_fan_pro.Spec.Verdict.{pass, fail}
use minisforum_n5pro_fan_pro.Spec.Tables.{settle_band, settle_hold}
use minisforum_n5pro_fan_pro.Spec.Handback.Defs.{
  DcrSample, HandbackRun, dist, eval_handback, limit_of, eval_sorted, window_ok, first_steady,
  sort_by_time, last_time, judge_steady, judge_crossed,
}
use minisforum_n5pro_fan_pro.Spec.Handback.Sorting.{
  IsSorted, sort-IsSorted, sort-All, sort-Any, Any-sort, All-sort, le-last_time_iff,
}

-- `y` does not contradict that the register is steady for 120 s from the sample `x` on.
abbrev pub Agrees : DcrSample → DcrSample → Type 0
Agrees x y = x.t ≤ y.t → y.t ≤ x.t + settle_hold → dist y.dcr x.dcr ≤ settle_band

-- The same, for samples after `x` only.
abbrev pub AgreesAfter : DcrSample → DcrSample → Type 0
AgreesAfter x y = x.t < y.t → y.t ≤ x.t + settle_hold → dist y.dcr x.dcr ≤ settle_band

-- On a sorted list the loop that breaks off checks every sample up to `end`.
window_ok_iff :
    (v end : ℕ) (ys : List DcrSample)
    → IsSorted ys
    → (window_ok v end ys ≡ true) ↔ All (λ y. y.t ≤ end → dist y.dcr v ≤ settle_band) ys
unfolding window_ok
window_ok_iff v end [] s = (λ h. tt, λ h. refl)
window_ok_iff v end (y ∷ ys) s = elim (Bool-cases (leb y.t end)) [
  | inl e ↦ (
    λ h. (λ k. ground arith, (window_ok_iff v end ys s.1).0 (ground arith)),
    λ h. ground (arith, h.0, window_ok_iff v end ys s.1),
  )
  | inr e ↦ rw e (
    λ h. (
      λ k. absurd (ground arith),
      All-map {Q = λ z. z.t ≤ end → dist z.dcr v ≤ settle_band} (λ z q k. absurd (ground arith)) ys
          s.0,
    ),
    λ h. refl,
  )
]

first_steady_sound :
    (last : ℕ) (xs : List DcrSample) (x : DcrSample)
    → IsSorted xs
    → first_steady last xs ≡ some x
    → Any (λ y. y ≡ x) xs × All (AgreesAfter x) xs × (x.t + settle_hold ≤ last)
unfolding first_steady
first_steady_sound last [] x s h = cc
first_steady_sound last (y ∷ ys) x s h = elim (Bool-cases (ltb last (y.t + settle_hold))) [
  | inl e ↦ absurd (ground arith)
  | inr e ↦ elim (Bool-cases (window_ok y.dcr (y.t + settle_hold) (y ∷ ys))) [
    | inl ok ↦
        let e' : y ≡ x = ground arith in
        (
          inl e',
          subst (λ z. All (AgreesAfter z) (y ∷ ys)) e'
              (All-map {Q = AgreesAfter y} (λ z q a b. q b) (y ∷ ys)
                ((window_ok_iff y.dcr (y.t + settle_hold) (y ∷ ys) s).0 ok)),
          ground arith,
        )
    | inr bad ↦ later (first_steady_sound last ys x s.1 (ground arith))
  ]
]
  where
    starts_before :
        (zs : List DcrSample) → All (λ z. y.t ≤ z.t) zs → Any (λ z. z ≡ x) zs → y.t ≤ x.t
    starts_before [] a b = absurd b
    starts_before (z ∷ zs) a (inl e) = ground arith
    starts_before (z ∷ zs) a (inr b) = starts_before zs a.1 b

    later :
        Any (λ z. z ≡ x) ys × All (AgreesAfter x) ys × (x.t + settle_hold ≤ last)
        → Any (λ z. z ≡ x) (y ∷ ys) × All (AgreesAfter x) (y ∷ ys) × (x.t + settle_hold ≤ last)
    later (m, a, b) = (inr m, (λ p q. absurd (omega (arith, starts_before ys s.0 m)), a), b)

first_steady_complete :
    (limit last : ℕ) (xs : List DcrSample)
    → IsSorted xs
    → Any (λ x. (x.t ≤ limit) × All (Agrees x) xs × (x.t + settle_hold ≤ last)) xs
    → (x : DcrSample) × (first_steady last xs ≡ some x) × (x.t ≤ limit)
unfolding first_steady
first_steady_complete limit last [] s h = absurd h
first_steady_complete limit last (y ∷ ys) s h = elim (Bool-cases (ltb last (y.t + settle_hold))) [
  | inl e ↦
      absurd
        (omega (arith, covered (y ∷ ys) (omega arith, s.0) h, ltb→lt last (y.t + settle_hold) e))
  | inr e ↦ elim (Bool-cases (window_ok y.dcr (y.t + settle_hold) (y ∷ ys))) [
    | inl ok ↦ (y, rw (e, ok), omega (arith, covered (y ∷ ys) (omega arith, s.0) h))
    | inr bad ↦ rw (e, bad) (first_steady_complete limit last ys s.1 (rest h bad))
  ]
]
  where
    covered :
        (zs : List DcrSample)
        → All (λ z. y.t ≤ z.t) zs
        → Any (λ x. (x.t ≤ limit) × All (Agrees x) (y ∷ ys) × (x.t + settle_hold ≤ last)) zs
        → (y.t ≤ limit) × (y.t + settle_hold ≤ last)
    covered [] a b = absurd b
    covered (z ∷ zs) a (inl q) = (omega (arith, a.0, q.0), omega (arith, a.0, q.2))
    covered (z ∷ zs) a (inr b) = covered zs a.1 b

    rest :
        Any (λ x. (x.t ≤ limit) × All (Agrees x) (y ∷ ys) × (x.t + settle_hold ≤ last)) (y ∷ ys)
        → window_ok y.dcr (y.t + settle_hold) (y ∷ ys) ≡ false
        → Any (λ x. (x.t ≤ limit) × All (Agrees x) ys × (x.t + settle_hold ≤ last)) ys
    rest (inl q) bad =
        let steady : window_ok y.dcr (y.t + settle_hold) (y ∷ ys) ≡ true =
          (window_ok_iff y.dcr (y.t + settle_hold) (y ∷ ys) s).1 (
            All-zip {R = λ z. z.t ≤ y.t + settle_hold → dist z.dcr y.dcr ≤ settle_band}
              (λ z g le. g le) (y ∷ ys) q.1 (omega arith, s.0)) in
        cc
    rest (inr q) bad =
        Any-map {Q = λ x. (x.t ≤ limit) × All (Agrees x) ys × (x.t + settle_hold ≤ last)}
          (λ x k. (k.0, k.1.1, k.2)) ys q

-- `x` is recorded at most `limit` after the auto command, and the data covers 120 s from `x` on.
abbrev pub InTime : ℕ → List DcrSample → DcrSample → Type 0
InTime limit xs x = (x.t ≤ limit) × Any (λ y. x.t + settle_hold ≤ y.t) xs

judge_steady-pass :
    (timed : Bool) (limit observed last : ℕ) (o : Option DcrSample) (r : HandbackRun)
    → ((judge_crossed r.crossed (judge_steady timed limit observed last o)).verdict ≡ pass)
      ↔ ((r.crossed ≡ none) × (timed ≡ true) × ((x : DcrSample) × (o ≡ some x) × (x.t ≤ limit)))
unfolding judge_steady judge_crossed
judge_steady-pass timed limit observed last none r = (λ h. absurd (ground arith), λ h. cc (h.2.1))
judge_steady-pass timed limit observed last (some x) r =
    (λ h. (ground arith, ground arith, (x, refl, ground arith)), λ h. ground arith)

sorted_sound :
    (r : HandbackRun) (xs : List DcrSample)
    → IsSorted xs
    → (eval_sorted r xs).t3 ≡ pass
    → (r.timing_known ≡ true)
      × (r.crossed ≡ none)
      × Any (λ x. All (AgreesAfter x) xs × InTime (limit_of r) xs x) xs
unfolding eval_sorted
sorted_sound r [] s h = cc
sorted_sound r (y ∷ ys) s h =
    let (nc, timed, start) = (judge_steady-pass r.timing_known (limit_of r) _ _ _ r).0 h in
    let (x, e, le) = start in
    let (m, agrees, covered) = first_steady_sound (last_time y.t ys) (y ∷ ys) x s e in
    (
      timed,
      nc,
      Any-map {Q = λ z. All (AgreesAfter z) (y ∷ ys) × InTime (limit_of r) (y ∷ ys) z}
          (λ z same.
            subst (λ u. All (AgreesAfter u) (y ∷ ys) × InTime (limit_of r) (y ∷ ys) u) (sym same)
              (agrees, (le, (le-last_time_iff (x.t + settle_hold) y ys s).0 covered)))
          (y ∷ ys) m,
    )

sorted_complete :
    (r : HandbackRun) (xs : List DcrSample)
    → IsSorted xs
    → r.timing_known ≡ true
    → r.crossed ≡ none
    → Any (λ x. All (Agrees x) xs × InTime (limit_of r) xs x) xs
    → (eval_sorted r xs).t3 ≡ pass
unfolding eval_sorted
sorted_complete r [] s timed nc h = absurd h
sorted_complete r (y ∷ ys) s timed nc h =
    (judge_steady-pass r.timing_known (limit_of r) _ _ _ r).1 (
      nc,
      timed,
      first_steady_complete (limit_of r) (last_time y.t ys) (y ∷ ys) s (
          Any-map
            {Q = λ x.
              (x.t ≤ limit_of r) × All (Agrees x) (y ∷ ys) × (x.t + settle_hold ≤ last_time y.t ys)}
            (λ x k. (k.1.0, k.0, (le-last_time_iff (x.t + settle_hold) y ys s).1 k.1.1)) (y ∷ ys)
            h),
    )

-- When T3 of a sub-run is PASS, the time of the auto command is known, no table input crossed a step, and
-- some recorded sample, at most the T3 limit after the command, starts a steady state: the data covers the
-- 120 s after it, and every recorded sample of these 120 s lies within 2 counts of it.
pub t3-pass_sound :
    (r : HandbackRun)
    → (eval_handback r).t3 ≡ pass
    → (r.timing_known ≡ true)
      × (r.crossed ≡ none)
      × Any (λ x. All (AgreesAfter x) r.samples × InTime (limit_of r) r.samples x) r.samples
unfolding eval_handback
t3-pass_sound r h =
    let (timed, nc, a) = sorted_sound r _ (sort-IsSorted r.samples) h in
    (
      timed,
      nc,
      Any-sort _ r.samples (
          Any-map {Q = λ x. All (AgreesAfter x) r.samples × InTime (limit_of r) r.samples x}
            (λ x k. (All-sort _ r.samples k.0, (k.1.0, Any-sort _ r.samples k.1.1))) _ a),
    )

-- When the time of the auto command is known, no table input crossed a step, and some recorded sample, at
-- most the T3 limit after the command, has 120 s of data after it in which every sample recorded lies within
-- 2 counts of it (those of the same instant included), T3 of the sub-run is PASS.
pub t3-pass_complete :
    (r : HandbackRun)
    → r.timing_known ≡ true
    → r.crossed ≡ none
    → Any (λ x. All (Agrees x) r.samples × InTime (limit_of r) r.samples x) r.samples
    → (eval_handback r).t3 ≡ pass
unfolding eval_handback
t3-pass_complete r timed nc h = sorted_complete r _ (sort-IsSorted r.samples) timed nc (
    sort-Any _ r.samples (
      Any-map
        {Q = λ x.
          All (Agrees x) (sort_by_time r.samples) × InTime (limit_of r) (sort_by_time r.samples) x}
        (λ x k. (sort-All _ r.samples k.0, (k.1.0, sort-Any _ r.samples k.1.1))) r.samples h))

sorted_decided :
    (r : HandbackRun) (xs : List DcrSample)
    → IsSorted xs
    → r.timing_known ≡ true
    → r.crossed ≡ none
    → Any (λ x. limit_of r + settle_hold ≤ x.t) xs
    → ((eval_sorted r xs).t3 ≡ pass) ⊎ ((eval_sorted r xs).t3 ≡ fail)
unfolding eval_sorted judge_steady judge_crossed
sorted_decided r [] s timed nc h = absurd h
sorted_decided r (y ∷ ys) s timed nc h =
    elim (Option-cases (first_steady (last_time y.t ys) (y ∷ ys))) [
      | inl e ↦ ground (arith, (le-last_time_iff (limit_of r + settle_hold) y ys s).1 h)
      | inr (x, e) ↦ ground arith
    ]

-- With a known time of the auto command, no crossed step and samples up to the end of the log, the T3 limit
-- plus 120 s, T3 of a sub-run is decided: PASS or FAIL.
pub t3_decided :
    (r : HandbackRun)
    → r.timing_known ≡ true
    → r.crossed ≡ none
    → Any (λ x. limit_of r + settle_hold ≤ x.t) r.samples
    → ((eval_handback r).t3 ≡ pass) ⊎ ((eval_handback r).t3 ≡ fail)
unfolding eval_handback
t3_decided r timed nc h =
    sorted_decided r _ (sort-IsSorted r.samples) timed nc (sort-Any _ r.samples h)
