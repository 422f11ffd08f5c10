-- ===== src/Spec/Mapping/Series.antt =====
-- What the criteria of T1 mean for the recorded series.
use minisforum_n5pro_fan_pro.Prelude.{
  ℕ, ◌+◌, ◌<◌, ◌≡◌, ◌≢◌, refl, ◌↔◌, ◌⊎◌, true, false, Option, none, some, List, [], ◌∷◌, All, arith,
}
use minisforum_n5pro_fan_pro.Spec.Tables.{Mean, mean, t1_other_dcr}
use minisforum_n5pro_fan_pro.Spec.Handback.Defs.{dist}
use minisforum_n5pro_fan_pro.Spec.Mapping.Defs.{
  T1Step, step_judged, scan_series, own_series, series_ok, series_known, all_b, dcr_ok, dcr_known,
  scan_other, moves_in, complete_in, round_mean, moved_regs, others_known, moves_from,
  complete_from,
}

-- The value is present, with the property `P`.
abbrev pub Has {ℓ} : {A : Type ℓ} → (A → Type 0) → Option A → Type 0
Has P none = ⊥
Has P (some n) = P n

-- Every judged sample of a series, from index `i` on, has a value with the property `P`.
abbrev pub EveryJudged : T1Step → ℕ → (ℕ → Type 0) → ℕ → List (Option ℕ) → Type 0
EveryJudged st ch P i [] = Unit
EveryJudged st ch P i (v ∷ vs) =
    (step_judged st ch i ≡ true → Has P v) × EveryJudged st ch P (i + 1) vs

-- Some sample of the series is judged.
abbrev pub SomeJudged : T1Step → ℕ → ℕ → List (Option ℕ) → Type 0
SomeJudged st ch i [] = ⊥
SomeJudged st ch i (v ∷ vs) = (step_judged st ch i ≡ true) ⊎ SomeJudged st ch (i + 1) vs

-- A register is at the written value in every judged sample of a step, and there is one.
abbrev pub ShowsDuty : ℕ → T1Step → List (Option ℕ) → Type 0
ShowsDuty ch st vs = EveryJudged st ch (λ n. n ≡ st.duty) 0 vs × SomeJudged st ch 0 vs

-- A register stays within less than 16 counts of `base` in every judged sample of a step, and there is one.
abbrev pub Stays : ℕ → ℕ → T1Step → List (Option ℕ) → Type 0
Stays ch base st vs =
    EveryJudged st ch (λ n. dist n base < t1_other_dcr) 0 vs × SomeJudged st ch 0 vs

module _ (st : T1Step) (ch : ℕ) where
  scan_judged_iff :
      (i : ℕ) (vs : List (Option ℕ)) → ((scan_series st ch i vs).judged ≢ 0) ↔ SomeJudged st ch i vs
  unfolding scan_series
  scan_judged_iff i [] = (λ h. absurd (h refl), λ h. absurd h)
  scan_judged_iff i (none ∷ vs) = (
    λ h. ground (arith, scan_judged_iff (i + 1) vs),
    λ h. ground (arith, scan_judged_iff (i + 1) vs),
  )
  scan_judged_iff i (some v ∷ vs) = (
    λ h. ground (arith, scan_judged_iff (i + 1) vs),
    λ h. ground (arith, scan_judged_iff (i + 1) vs),
  )

  scan_clean_iff :
      (i : ℕ) (vs : List (Option ℕ))
      → (((scan_series st ch i vs).missing ≡ 0) × ((scan_series st ch i vs).differs ≡ none))
        ↔ EveryJudged st ch (λ n. n ≡ st.duty) i vs
  unfolding scan_series
  scan_clean_iff i [] = (λ h. tt, λ h. (refl, refl))
  scan_clean_iff i (none ∷ vs) = (
    λ h. (λ j. absurd (ground arith), ground (arith, scan_clean_iff (i + 1) vs)),
    λ h. ground (arith, h.0, scan_clean_iff (i + 1) vs),
  )
  scan_clean_iff i (some v ∷ vs) = (
    λ h. (λ j. ground arith, ground (arith, scan_clean_iff (i + 1) vs)),
    λ h. ground (arith, h.0, scan_clean_iff (i + 1) vs),
  )

  shows_iff :
      (vs : List (Option ℕ))
      → ((series_ok st ch vs ≡ true) × (series_known st ch vs ≡ true)) ↔ ShowsDuty ch st vs
  unfolding series_ok series_known
  shows_iff vs = (
    λ h. (ground (arith, scan_clean_iff 0 vs), ground (arith, scan_judged_iff 0 vs)),
    λ h. ground (arith, scan_clean_iff 0 vs, scan_judged_iff 0 vs),
  )

  module _ (base : ℕ) where
    scan_other_judged_iff :
        (i : ℕ) (vs : List (Option ℕ))
        → ((scan_other st ch base i vs).judged ≢ 0) ↔ SomeJudged st ch i vs
    unfolding scan_other
    scan_other_judged_iff i [] = (λ h. absurd (h refl), λ h. absurd h)
    scan_other_judged_iff i (none ∷ vs) = (
      λ h. ground (arith, scan_other_judged_iff (i + 1) vs),
      λ h. ground (arith, scan_other_judged_iff (i + 1) vs),
    )
    scan_other_judged_iff i (some v ∷ vs) = (
      λ h. ground (arith, scan_other_judged_iff (i + 1) vs),
      λ h. ground (arith, scan_other_judged_iff (i + 1) vs),
    )

    scan_other_clean_iff :
        (i : ℕ) (vs : List (Option ℕ))
        → (((scan_other st ch base i vs).missing ≡ false)
            × ((scan_other st ch base i vs).max_dev < t1_other_dcr))
          ↔ EveryJudged st ch (λ n. dist n base < t1_other_dcr) i vs
    unfolding scan_other
    scan_other_clean_iff i [] = (λ h. tt, λ h. (refl, omega arith))
    scan_other_clean_iff i (none ∷ vs) = (
      λ h. (λ j. absurd (ground arith), ground (arith, scan_other_clean_iff (i + 1) vs)),
      λ h. ground (arith, h.0, scan_other_clean_iff (i + 1) vs),
    )
    scan_other_clean_iff i (some v ∷ vs) = (
      λ h. (λ j. ground arith, ground (arith, scan_other_clean_iff (i + 1) vs)),
      λ h. ground (arith, h.0, scan_other_clean_iff (i + 1) vs),
    )

module _ (ch : ℕ) where
  all_shows_iff :
      (st : T1Step) (ss : List (List (Option ℕ)))
      → ((all_b (series_ok st ch) ss ≡ true) × (all_b (series_known st ch) ss ≡ true))
        ↔ All (ShowsDuty ch st) ss
  unfolding all_b
  all_shows_iff st [] = (λ h. tt, λ h. (refl, refl))
  all_shows_iff st (s ∷ ss) = (
    λ h. (ground (arith, shows_iff st ch s), ground (arith, all_shows_iff st ss)),
    λ h. ground (arith, shows_iff st ch s, all_shows_iff st ss),
  )

  -- The duty registers are known and right exactly when every own series of every step shows the duty.
  pub dcr_iff :
      (steps : List T1Step)
      → ((dcr_ok ch steps ≡ true) × (dcr_known ch steps ≡ true))
        ↔ All (λ st. All (ShowsDuty ch st) (own_series ch st)) steps
  unfolding dcr_ok dcr_known
  dcr_iff [] = (λ h. tt, λ h. (refl, refl))
  dcr_iff (st ∷ sts) = (
    λ h. (ground (arith, all_shows_iff st (own_series ch st)), ground (arith, dcr_iff sts)),
    λ h. ground (arith, all_shows_iff st (own_series ch st), dcr_iff sts),
  )

  Stays-iff :
      (base n : ℕ) (steps : List T1Step)
      → ((moves_in ch base n steps ≡ false) × (complete_in ch base n steps ≡ true))
        ↔ All (λ st. Stays ch base st (st.others n)) steps
  unfolding moves_in complete_in
  Stays-iff base n [] = (λ h. tt, λ h. (refl, refl))
  Stays-iff base n (st ∷ sts) = (
    λ h. (
      (
        ground (arith, scan_other_clean_iff st ch base 0 (st.others n)),
        ground (arith, scan_other_judged_iff st ch base 0 (st.others n)),
      ),
      ground (arith, Stays-iff base n sts),
    ),
    λ h. ground (
      arith,
      scan_other_clean_iff st ch base 0 (st.others n),
      scan_other_judged_iff st ch base 0 (st.others n),
      Stays-iff base n sts,
    ),
  )

  -- Register `n` has a rest value, and stays at it in every step.
  abbrev pub StaysAtRest : (ℕ → List (Option ℕ)) → List T1Step → ℕ → Type 0
  StaysAtRest rest steps n =
      Has (λ m. All (λ st. Stays ch (round_mean m) st (st.others n)) steps) (mean (rest n))

  rest_iff :
      (n : ℕ) (o : Option (Mean ℕ)) (steps : List T1Step)
      → ((moves_from ch n o steps ≡ false) × (complete_from ch n o steps ≡ true))
        ↔ Has (λ m. All (λ st. Stays ch (round_mean m) st (st.others n)) steps) o
  rest_iff n none steps = (λ h. absurd (ground arith), λ h. absurd h)
  rest_iff n (some m) steps = Stays-iff (round_mean m) n steps

  -- No other register moved and all are known exactly when each of them stays at its rest value.
  pub others_iff :
      (rest : ℕ → List (Option ℕ)) (steps : List T1Step) (ns : List ℕ)
      → ((moved_regs ch rest steps ns ≡ []) × (others_known ch rest steps ns ≡ true))
        ↔ All (StaysAtRest rest steps) ns
  unfolding moved_regs others_known
  others_iff rest steps [] = (λ h. tt, λ h. (refl, refl))
  others_iff rest steps (n ∷ ns) = (
    λ h. (
      ground (arith, rest_iff n (mean (rest n)) steps),
      ground (arith, others_iff rest steps ns),
    ),
    λ h. ground (arith, rest_iff n (mean (rest n)) steps, others_iff rest steps ns),
  )
