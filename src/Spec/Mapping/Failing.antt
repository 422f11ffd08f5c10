-- ===== src/Spec/Mapping/Failing.antt =====
-- The judged samples that speak against the mapping.
use minisforum_n5pro_fan_pro.Prelude.{
  ℕ, ◌+◌, ◌≤◌, ◌≡◌, ◌≢◌, refl, ◌↔◌, ◌⊎◌, inr, true, false, Option, none, some, List, [], ◌∷◌, Any,
  arith,
}
use minisforum_n5pro_fan_pro.Spec.Tables.{Mean, mean}
use minisforum_n5pro_fan_pro.Spec.Handback.Defs.{dist}
use minisforum_n5pro_fan_pro.Spec.Mapping.Defs.{
  T1Step, step_judged, scan_series, own_series, series_ok, all_b, dcr_ok, scan_other, moves_in,
  round_mean, moved_regs, moves_from,
}
use minisforum_n5pro_fan_pro.Spec.Mapping.Series.{Has}

-- Some judged sample of a series, from index `i` on, has a value with the property `P`.
abbrev pub AnyJudged : T1Step → ℕ → (ℕ → Type 0) → ℕ → List (Option ℕ) → Type 0
AnyJudged st ch P i [] = ⊥
AnyJudged st ch P i (v ∷ vs) =
    ((step_judged st ch i ≡ true) × Has P v) ⊎ AnyJudged st ch P (i + 1) vs

-- A judged sample of a register differs from the written duty.
abbrev pub Differs : ℕ → T1Step → List (Option ℕ) → Type 0
Differs ch st vs = AnyJudged st ch (λ n. n ≢ st.duty) 0 vs

-- A judged sample of register `n` is 16 counts or more away from `base`.
abbrev pub Strays : ℕ → ℕ → ℕ → T1Step → Type 0
Strays ch n base st = AnyJudged st ch (λ v. 16 ≤ dist v base) 0 (st.others n)

-- Register `n` has a rest value, and leaves it in some step.
abbrev pub LeavesRest : ℕ → (ℕ → List (Option ℕ)) → List T1Step → ℕ → Type 0
LeavesRest ch rest steps n = Has (λ m. Any (Strays ch n (round_mean m)) steps) (mean (rest n))

module _ (ch : ℕ) where
  scan_differs_iff :
      (st : T1Step) (i : ℕ) (vs : List (Option ℕ))
      → ((scan_series st ch i vs).differs ≢ none) ↔ AnyJudged st ch (λ n. n ≢ st.duty) i vs
  unfolding scan_series
  scan_differs_iff st i [] = (λ h. absurd (h refl), λ h. absurd h)
  scan_differs_iff st i (none ∷ vs) = (
    λ h. inr (ground (arith, scan_differs_iff st (i + 1) vs)),
    λ h. ground (arith, scan_differs_iff st (i + 1) vs),
  )
  scan_differs_iff st i (some v ∷ vs) = (
    λ h. ground (arith, scan_differs_iff st (i + 1) vs),
    λ h. ground (arith, scan_differs_iff st (i + 1) vs),
  )

  series_ok_iff :
      (st : T1Step) (vs : List (Option ℕ)) → (series_ok st ch vs ≡ false) ↔ Differs ch st vs
  unfolding series_ok
  series_ok_iff st vs =
      (λ h. ground (arith, scan_differs_iff st 0 vs), λ h. ground (arith, scan_differs_iff st 0 vs))

  all_ok_iff :
      (st : T1Step) (ss : List (List (Option ℕ)))
      → (all_b (series_ok st ch) ss ≡ false) ↔ Any (Differs ch st) ss
  unfolding all_b
  all_ok_iff st [] = (λ h. cc, λ h. absurd h)
  all_ok_iff st (s ∷ ss) = (
    λ h. ground (arith, series_ok_iff st s, all_ok_iff st ss),
    λ h. ground (arith, series_ok_iff st s, all_ok_iff st ss),
  )

  -- The duty registers are wrong exactly when some judged sample of an own series differs.
  pub dcr_ok_iff :
      (steps : List T1Step)
      → (dcr_ok ch steps ≡ false) ↔ Any (λ st. Any (Differs ch st) (own_series ch st)) steps
  unfolding dcr_ok all_b
  dcr_ok_iff [] = (λ h. cc, λ h. absurd h)
  dcr_ok_iff (st ∷ sts) = (
    λ h. ground (arith, all_ok_iff st (own_series ch st), dcr_ok_iff sts),
    λ h. ground (arith, all_ok_iff st (own_series ch st), dcr_ok_iff sts),
  )

  scan_strays_iff :
      (st : T1Step) (base i : ℕ) (vs : List (Option ℕ))
      → (16 ≤ (scan_other st ch base i vs).max_dev) ↔ AnyJudged st ch (λ v. 16 ≤ dist v base) i vs
  unfolding scan_other
  scan_strays_iff st base i [] = (λ h. absurd (omega arith), λ h. absurd h)
  scan_strays_iff st base i (none ∷ vs) = (
    λ h. inr (ground (arith, scan_strays_iff st base (i + 1) vs)),
    λ h. ground (arith, scan_strays_iff st base (i + 1) vs),
  )
  scan_strays_iff st base i (some v ∷ vs) = (
    λ h. ground (arith, scan_strays_iff st base (i + 1) vs),
    λ h. ground (arith, scan_strays_iff st base (i + 1) vs),
  )

  moves_iff :
      (base n : ℕ) (steps : List T1Step)
      → (moves_in ch base n steps ≡ true) ↔ Any (Strays ch n base) steps
  unfolding moves_in
  moves_iff base n [] = (λ h. cc, λ h. absurd h)
  moves_iff base n (st ∷ sts) = (
    λ h. ground (arith, scan_strays_iff st base 0 (st.others n), moves_iff base n sts),
    λ h. ground (arith, scan_strays_iff st base 0 (st.others n), moves_iff base n sts),
  )

  moves_from_iff :
      (n : ℕ) (o : Option (Mean ℕ)) (steps : List T1Step)
      → (moves_from ch n o steps ≡ true) ↔ Has (λ m. Any (Strays ch n (round_mean m)) steps) o
  moves_from_iff n none steps = (λ h. cc, λ h. absurd h)
  moves_from_iff n (some m) steps = moves_iff (round_mean m) n steps

  -- Some other register moved exactly when one of them leaves its rest value.
  pub moved_iff :
      (rest : ℕ → List (Option ℕ)) (steps : List T1Step) (ns : List ℕ)
      → (moved_regs ch rest steps ns ≢ []) ↔ Any (LeavesRest ch rest steps) ns
  unfolding moved_regs
  moved_iff rest steps [] = (λ h. absurd (h refl), λ h. absurd h)
  moved_iff rest steps (n ∷ ns) = (
    λ h. ground (arith, moves_from_iff n (mean (rest n)) steps, moved_iff rest steps ns),
    λ h. ground (arith, moves_from_iff n (mean (rest n)) steps, moved_iff rest steps ns),
  )
