-- ===== src/Spec/Mapping/Verdicts.antt =====
-- When T1 is PASS and when it is FAIL.
use minisforum_n5pro_fan_pro.Prelude.{
  ℕ, ◌≡◌, ◌≢◌, refl, ◌↔◌, ◌⊎◌, inl, inr, Bool, true, false, List, [], ◌∷◌, All, Any, arith,
}
use minisforum_n5pro_fan_pro.Spec.Verdict.{pass, fail}
use minisforum_n5pro_fan_pro.Spec.Tables.{Crossed, other_regs}
use minisforum_n5pro_fan_pro.Spec.Mapping.Defs.{
  T1Step, own_series, noisy, crossed_channels, crossed_and_moved, own_ok,
}
use minisforum_n5pro_fan_pro.Spec.Mapping.Series.{ShowsDuty, StaysAtRest, dcr_iff, others_iff}
use minisforum_n5pro_fan_pro.Spec.Mapping.Failing.{Differs, LeavesRest, dcr_ok_iff, moved_iff}
use minisforum_n5pro_fan_pro.Spec.Mapping.Eval.{Rest, decide_t1, eval_t1}

decide_t1-pass :
    (ok known : Bool) (moved : List ℕ) (okay : Bool) (crossed both : List (ℕ × Crossed))
    (noise : List ℕ) (own : Bool)
    → ((decide_t1 ok known moved okay crossed both noise own).verdict ≡ pass)
    → ((ok ≡ true)
        × (known ≡ true)
        × (moved ≡ [])
        × (okay ≡ true)
        × (crossed ≡ [])
        × (noise ≡ [])
        × (own ≡ true))
unfolding decide_t1
decide_t1-pass false known moved okay crossed both noise own h = cc
decide_t1-pass true known (n ∷ ns) okay [] both noise own h = cc
decide_t1-pass true known [] okay crossed (b ∷ bs) noise own h = cc
decide_t1-pass true known (n ∷ ns) okay (c ∷ cs) (b ∷ bs) noise own h = cc
decide_t1-pass true known (n ∷ ns) okay (c ∷ cs) [] noise own h = absurd (ground arith)
decide_t1-pass true known [] okay crossed [] noise own h = ground arith

pass-decide_t1 :
    (moved : List ℕ) (crossed : List (ℕ × Crossed)) (noise : List ℕ)
    → moved ≡ []
    → crossed ≡ []
    → noise ≡ []
    → (decide_t1 true true moved true crossed (crossed_and_moved moved crossed) noise true).verdict
      ≡ pass
unfolding decide_t1 crossed_and_moved
pass-decide_t1 moved crossed noise p q r = rw (p, q, r)

decide_t1-fail :
    (ok known : Bool) (moved : List ℕ) (okay : Bool) (crossed both : List (ℕ × Crossed))
    (noise : List ℕ) (own : Bool)
    → ((decide_t1 ok known moved okay crossed both noise own).verdict ≡ fail)
      ↔ ((ok ≡ false) ⊎ ((moved ≢ []) × (crossed ≡ [])))
unfolding decide_t1
decide_t1-fail false known moved okay crossed both noise own = (λ h. inl refl, λ h. refl)
decide_t1-fail true known (n ∷ ns) okay [] both noise own = (λ h. inr (λ e. cc, refl), λ h. refl)
decide_t1-fail true known [] okay crossed (b ∷ bs) noise own =
    (λ h. absurd (ground arith), λ h. absurd (ground arith))
decide_t1-fail true known (n ∷ ns) okay (c ∷ cs) (b ∷ bs) noise own =
    (λ h. absurd (ground arith), λ h. absurd (ground arith))
decide_t1-fail true known (n ∷ ns) okay (c ∷ cs) [] noise own =
    (λ h. absurd (ground arith), λ h. absurd (ground arith))
decide_t1-fail true known [] okay crossed [] noise own =
    (λ h. absurd (ground arith), λ h. absurd (ground arith))

module _ (ch own : ℕ) (rest : Rest) (steps : List T1Step) (fans : List ℕ) where
  -- T1 is PASS exactly when all of this holds: in every step each register of the channel has a judged sample
  -- and shows the written duty in all of them; every register of another channel has a rest value, and in every
  -- step a judged sample and less than 16 counts of deviation from it in all of them; no tach is noisy at rest;
  -- the own tach meets its criterion; and no table input of another channel crossed a step.
  pub t1-pass : ((eval_t1 ch own rest steps fans).verdict ≡ pass) ↔ (
      All (λ st. All (ShowsDuty ch st) (own_series ch st)) steps
      × All (StaysAtRest ch rest.dcr steps) (other_regs ch)
      × (noisy rest.fans fans ≡ [])
      × (own_ok own steps ≡ true)
      × (crossed_channels ch rest.inputs steps (1 ∷ 2 ∷ 3 ∷ []) ≡ []))
  unfolding eval_t1
  t1-pass = (
    λ h.
        let (ok, known, moved, okay, crossed, noise, tach) = decide_t1-pass _ _ _ _ _ _ _ _ h in
        (
          (dcr_iff ch steps).0 (ok, known),
          (others_iff ch rest.dcr steps (other_regs ch)).0 (moved, okay),
          noise,
          tach,
          crossed,
        ),
    λ (shows, stays, noise, tach, crossed).
        let (ok, known) = (dcr_iff ch steps).1 shows in
        let (moved, okay) = (others_iff ch rest.dcr steps (other_regs ch)).1 stays in
        rw (ok, known, okay, tach) (pass-decide_t1 _ _ _ moved crossed noise),
  )

  -- T1 is FAIL exactly when some judged sample of a register of the channel differs from the duty written in its
  -- step, or a register of another channel with a rest value has a judged sample that is 16 counts or more away
  -- from it, while no table input of another channel crossed a step.
  pub t1-fail : ((eval_t1 ch own rest steps fans).verdict ≡ fail) ↔ (
      Any (λ st. Any (Differs ch st) (own_series ch st)) steps
      ⊎ (Any (LeavesRest ch rest.dcr steps) (other_regs ch)
          × (crossed_channels ch rest.inputs steps (1 ∷ 2 ∷ 3 ∷ []) ≡ [])))
  unfolding eval_t1
  t1-fail =
      let decided = decide_t1-fail _ _ _ _ _ _ _ _ in
      let moved = moved_iff ch rest.dcr steps (other_regs ch) in
      (
        λ h. elim (decided.0 h) [
          | inl e ↦ inl ((dcr_ok_iff ch steps).0 e)
          | inr (m, c) ↦ inr (moved.0 m, c)
        ],
        λ h.
            decided.1 (elim h [
              | inl d ↦ inl ((dcr_ok_iff ch steps).1 d)
              | inr (m, c) ↦ inr (moved.1 m, c)
            ]),
      )
