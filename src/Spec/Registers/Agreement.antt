-- ===== src/Spec/Registers/Agreement.antt =====
-- The verdict over the judged registers of a channel.
use minisforum_n5pro_fan_pro.Prelude.{
  ◌≡◌, ◌≢◌, refl, sym, ◌∙◌, ◌↔◌, inl, inr, true, List, [], ◌∷◌, map, All, All-map, arith,
  Bool-cases,
}
use minisforum_n5pro_fan_pro.Spec.Verdict.{Verdict, combine-decided, all_are_iff, IsDecided}
use minisforum_n5pro_fan_pro.Spec.Handback.Defs.{HandbackRun, SubResult, eval_handback}
use minisforum_n5pro_fan_pro.Spec.Registers.{
  Part, merge, eval_regs, all_same, part2, part3, verdicts,
}

All-trans : (v w : Verdict) (vs : List Verdict) → v ≡ w → All (λ x. x ≡ v) vs → All (λ x. x ≡ w) vs
All-trans v w vs e h = All-map (λ x (p : x ≡ v). cc) vs h

all_same-of-All : (v : Verdict) (vs : List Verdict) → All (λ x. x ≡ v) vs → all_same vs ≡ true
unfolding all_same
all_same-of-All v [] h = refl
all_same-of-All v (x ∷ xs) h = (all_are_iff x (x ∷ xs)).1 (refl, All-trans v x xs (sym h.0) h.1)

-- For a decided verdict the merge of two or more registers has it exactly when all of them have it.
merge-decided :
    (v : Verdict)
    → IsDecided v
    → (ps : List Part) → ps ≢ []
    → ((merge ps).verdict ≡ v) ↔ All (λ x. x ≡ v) (verdicts ps)
unfolding merge
merge-decided v d [] n = absurd (n refl)
merge-decided v d (p ∷ ps) n = elim (Bool-cases (all_same (verdicts (p ∷ ps)))) [
  | inl e ↦ rw e (
    λ h. ((combine-decided v d (verdicts (p ∷ ps))).0 h).1,
    λ h. (combine-decided v d (verdicts (p ∷ ps))).1 (λ q. cc, h),
  )
  | inr e ↦ rw e (
    λ h. absurd (ground arith),
    λ h. absurd (ground (arith, all_same-of-All v (verdicts (p ∷ ps)))),
  )
]

module _ (v : Verdict) (d : IsDecided v) (f : SubResult → Part) (g : SubResult → Verdict)
    (shows : (s : SubResult) → (f s).verdict ≡ g s) where
  parts_iff :
      (rs : List HandbackRun)
      → All (λ x. x ≡ v) (verdicts (map f (map eval_handback rs)))
        ↔ All (λ r. g (eval_handback r) ≡ v) rs
  parts_iff [] = (λ h. tt, λ h. tt)
  parts_iff (r ∷ rs) = (
    λ h. (sym (shows (eval_handback r)) ∙ h.0, (parts_iff rs).0 h.1),
    λ h. (shows (eval_handback r) ∙ h.0, (parts_iff rs).1 h.1),
  )

  merged_iff :
      (r : HandbackRun) (rs : List HandbackRun)
      → ((merge (map f (map eval_handback (r ∷ rs)))).verdict ≡ v)
        ↔ (((r ∷ rs) ≢ []) × All (λ x. g (eval_handback x) ≡ v) (r ∷ rs))
  merged_iff r rs = (
    λ h. (
      λ e. cc,
      (parts_iff (r ∷ rs)).0
          ((merge-decided v d (map f (map eval_handback (r ∷ rs))) (λ e. cc)).0 h),
    ),
    λ h.
        (merge-decided v d (map f (map eval_handback (r ∷ rs))) (λ e. cc)).1
          ((parts_iff (r ∷ rs)).1 h.1),
  )

-- For PASS and for FAIL alike: T2 over the judged registers of a sub-run has this verdict exactly when there
-- is a register and every one of them has it on its own; the same holds of T3.
pub regs_decided :
    (v : Verdict)
    → IsDecided v
    → (rs : List HandbackRun)
    → (((eval_regs rs).t2 ≡ v) ↔ ((rs ≢ []) × All (λ r. (eval_handback r).t2 ≡ v) rs))
      × (((eval_regs rs).t3 ≡ v) ↔ ((rs ≢ []) × All (λ r. (eval_handback r).t3 ≡ v) rs))
unfolding eval_regs
regs_decided v d [] = (
  (λ h. absurd (ground arith), λ h. absurd (h.0 refl)),
  (λ h. absurd (ground arith), λ h. absurd (h.0 refl)),
)
regs_decided v d (r ∷ []) =
    ((λ h. (λ e. cc, (h, tt)), λ h. h.1.0), (λ h. (λ e. cc, (h, tt)), λ h. h.1.0))
regs_decided v d (r ∷ q ∷ rs) = (
  merged_iff v d part2 (λ s. s.t2) (λ s. refl) r (q ∷ rs),
  merged_iff v d part3 (λ s. s.t3) (λ s. refl) r (q ∷ rs),
)
