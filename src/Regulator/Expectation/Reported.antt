-- ===== src/Regulator/Expectation/Reported.antt =====
-- What the check of the attributes reports.
use minisforum_n5pro_fan_pro.Prelude.{
  ℕ, ◌≡◌, refl, ◌↔◌, true, Option, none, some, List, [], ◌∷◌, ◌++◌, ℤ, All, arith,
}
use minisforum_n5pro_fan_pro.Writer.Device.{Attr, duty, enable}
use minisforum_n5pro_fan_pro.Regulator.Expectation.{
  View, Expectation, Difference, same_ℤ, differ_of, diff_from, diff,
}

-- The attribute cannot be read, or nothing is expected of it, or it has the expected value.
abbrev pub Expected : Option ℤ → Option ℤ → Type 0
Expected (some want) (some got) = got ≡ want
Expected _ _ = Unit

same_ℤ-eq : (a b : ℤ) → same_ℤ a b ≡ true → a ≡ b
same_ℤ-eq a b h = ground (arith, h)

same_ℤ_refl : (a b : ℤ) → a ≡ b → same_ℤ a b ≡ true
same_ℤ_refl a b e = ground (arith, e)

differ_of-none :
    (ch : ℕ) (a : Attr) (want got : Option ℤ) → (differ_of ch a want got ≡ []) ↔ Expected want got
differ_of-none ch a none got = (λ h. tt, λ h. refl)
differ_of-none ch a (some want) none = (λ h. tt, λ h. refl)
differ_of-none ch a (some want) (some got) =
    (λ h. ground (arith, h, same_ℤ-eq got want), λ h. ground (arith, same_ℤ_refl got want h))

append-nil :
    {P Q : Type 0} (xs ys : List Difference)
    → ((xs ≡ []) ↔ P)
    → ((ys ≡ []) ↔ Q)
    → ((xs ++ ys) ≡ []) ↔ (P × Q)
append-nil [] ys p q = (λ h. (p.0 refl, q.0 h), λ h. q.1 h.1)
append-nil (x ∷ xs) ys p q = (λ h. cc, λ h. cc (p.1 h.0))

-- Both attributes of a channel.
abbrev pub AsExpected : View → Expectation → ℕ → Type 0
AsExpected view e ch = Expected (e.enable ch) (view ch enable) × Expected (e.pwm ch) (view ch duty)

diff_from-none :
    (view : View) (e : Expectation) (chs : List ℕ)
    → (diff_from view e chs ≡ []) ↔ All (AsExpected view e) chs
unfolding diff_from
diff_from-none view e [] = (λ h. tt, λ h. refl)
diff_from-none view e (ch ∷ chs) =
    let both = append-nil _ _ (differ_of-none ch enable (e.enable ch) (view ch enable)) (
      append-nil _ _ (differ_of-none ch duty (e.pwm ch) (view ch duty))
        (diff_from-none view e chs)) in
    (λ h. let k = both.0 h in ((k.0, k.1.0), k.1.1), λ h. both.1 (h.0.0, (h.0.1, h.1)))

-- The check reports no attribute exactly when each attribute of the channels 1..4 that can be read and of which a
-- value is expected has that value.
pub diff-none :
    (view : View) (e : Expectation)
    → (diff view e ≡ []) ↔ All (AsExpected view e) (1 ∷ 2 ∷ 3 ∷ 4 ∷ [])
unfolding diff
diff-none view e = diff_from-none view e (1 ∷ 2 ∷ 3 ∷ 4 ∷ [])
