-- ===== src/Spec/Verdict.antt =====
-- ectest/internal/spec/eval.go: the verdicts and how they are combined.
use minisforum_n5pro_fan_pro.Prelude.{
  ◌≡◌, refl, ◌↔◌, ◌≢◌, ◌⊎◌, Bool, true, false, ◌&&◌, List, [], ◌∷◌, if◌then◌else◌, arith, All, inl,
  inr,
}

pub data Verdict : Type 0 where
  pass fail inconclusive reported not_applicable : Verdict

-- `==` on verdicts.
abbrev pub same : Verdict → Verdict → Bool
same pass pass = true
same fail fail = true
same inconclusive inconclusive = true
same reported reported = true
same not_applicable not_applicable = true
same _ _ = false

-- The closure `all` of `combine`.
unfoldable pub all_are : Verdict → List Verdict → Bool
all_are v [] = true
all_are v (x ∷ xs) = same x v && all_are v xs

unfoldable pub combine : List Verdict → Verdict
combine [] = inconclusive
combine (x ∷ xs) =
    if all_are pass (x ∷ xs) then pass else if all_are fail (x ∷ xs) then fail else inconclusive

pub same→eq : (x y : Verdict) → same x y ≡ true → x ≡ y
same→eq x y h = ground arith

pub all_are_iff : (v : Verdict) (xs : List Verdict) → (all_are v xs ≡ true) ↔ All (λ x. x ≡ v) xs
unfolding all_are
all_are_iff v [] = (λ _. tt, λ _. refl)
all_are_iff v (x ∷ xs) =
    (λ h. ground (arith, all_are_iff v xs), λ h. ground (arith, all_are_iff v xs))

-- The combined verdict is PASS exactly when there are parts and each of them is PASS.
pub combine-pass : (vs : List Verdict) → (combine vs ≡ pass) ↔ ((vs ≢ []) × All (λ x. x ≡ pass) vs)
unfolding combine
combine-pass [] = (λ h. cc, λ h. absurd (h.0 refl))
combine-pass (x ∷ xs) = (
  λ h. (λ e. cc, ground (arith, all_are_iff pass (x ∷ xs))),
  λ h. ground (arith, all_are_iff pass (x ∷ xs)),
)

-- It is FAIL exactly when there are parts and each of them is FAIL.
pub combine-fail : (vs : List Verdict) → (combine vs ≡ fail) ↔ ((vs ≢ []) × All (λ x. x ≡ fail) vs)
unfolding combine all_are
combine-fail [] = (λ h. cc, λ h. absurd (h.0 refl))
combine-fail (x ∷ xs) = (
  λ h. (λ e. cc, ground (arith, all_are_iff fail (x ∷ xs))),
  λ h. ground (arith, all_are_iff fail (x ∷ xs)),
)

-- PASS or FAIL.
abbrev pub IsDecided : Verdict → Type 0
IsDecided v = (v ≡ pass) ⊎ (v ≡ fail)

-- For either decided verdict: the combination has it exactly when there are parts and each of them has it.
pub combine-decided :
    (v : Verdict)
    → IsDecided v
    → (vs : List Verdict) → (combine vs ≡ v) ↔ ((vs ≢ []) × All (λ x. x ≡ v) vs)
combine-decided v (inl e) vs = rw e (combine-pass vs)
combine-decided v (inr e) vs = rw e (combine-fail vs)
