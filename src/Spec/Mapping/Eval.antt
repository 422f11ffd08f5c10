-- ===== src/Spec/Mapping/Eval.antt =====
-- ectest/internal/spec/eval.go: the verdict of `EvalT1`, and what it means for the recorded series.
use minisforum_n5pro_fan_pro.Prelude.{
  ℕ, Bool, true, false, not, ◌||◌, Option, List, [], ◌∷◌, ℤ, if◌then◌else◌,
}
use minisforum_n5pro_fan_pro.Spec.Verdict.{Verdict, pass, fail, inconclusive}
use minisforum_n5pro_fan_pro.Spec.Tables.{Crossed, other_regs}
use minisforum_n5pro_fan_pro.Spec.Mapping.Defs.{
  T1Step, dcr_ok, dcr_known, noisy, moved_regs, others_known, crossed_channels, crossed_and_moved,
  own_ok,
}

pub data T1Reason : Type 0 where
  dcr_differs dcr_unreadable tach_noise own_tach all_met : T1Reason
  register_follows : List ℕ → T1Reason
  crossed_and_moved_channels : List (ℕ × Crossed) → T1Reason
  crossed_only : List (ℕ × Crossed) → T1Reason

pub record T1Verdict : Type 0 where
  pub verdict : Verdict
  pub reason : T1Reason

abbrev t1 : Verdict → T1Reason → T1Verdict
t1 v r = record { verdict = v; reason = r }

-- The last `switch` of `EvalT1`, over what the criteria found.
unfoldable pub decide_t1 :
    Bool
    → Bool
    → List ℕ
    → Bool
    → List (ℕ × Crossed)
    → List (ℕ × Crossed)
    → List ℕ
    → Bool
    → T1Verdict
decide_t1 false known moved okay crossed both noise own = t1 fail dcr_differs
decide_t1 true known (n ∷ ns) okay [] both noise own = t1 fail (register_follows (n ∷ ns))
decide_t1 true known moved okay crossed (b ∷ bs) noise own =
    t1 inconclusive (crossed_and_moved_channels (b ∷ bs))
decide_t1 true known moved okay crossed [] noise own =
    if not known || not okay then t1 inconclusive dcr_unreadable else elim noise [
      | [] ↦ if not own then t1 inconclusive own_tach else elim crossed [
        | [] ↦ t1 pass all_met
        | c ∷ cs ↦ t1 inconclusive (crossed_only (c ∷ cs))
      ]
      | f ∷ fs ↦ t1 inconclusive tach_noise
    ]

-- What is known at rest, before the first write.
pub record Rest : Type 0 where
  pub fans : ℕ → List (Option ℕ)
  pub inputs : ℕ → List (Option ℤ)
  pub dcr : ℕ → List (Option ℕ)

unfoldable pub eval_t1 : (ch own : ℕ) → Rest → List T1Step → List ℕ → T1Verdict
unfolding decide_t1 dcr_ok dcr_known moved_regs others_known crossed_channels crossed_and_moved
    noisy own_ok
eval_t1 ch own rest steps fans =
    let moved = moved_regs ch rest.dcr steps (other_regs ch) in
    let crossed = crossed_channels ch rest.inputs steps (1 ∷ 2 ∷ 3 ∷ []) in
    decide_t1 (dcr_ok ch steps) (dcr_known ch steps) moved
      (others_known ch rest.dcr steps (other_regs ch)) crossed (crossed_and_moved moved crossed)
      (noisy rest.fans fans) (own_ok own steps)
