-- ===== src/Spec/Tables/Sides.antt =====
-- ectest/internal/spec/eval.go: what `Crossing` decides.
use minisforum_n5pro_fan_pro.Prelude.{
  ℕ, ◌*◌, ◌+◌, ◌≡◌, refl, ◌↔◌, Bool, true, false, ◌&&◌, ◌||◌, not, Option, none, some, List, [],
  ◌∷◌, ℤ, pos, sub_ℕ, ◌<ℤ◌, ◌≤ℤ◌, leb_ℤ, ltb_ℤ, All, arith, Bool-cases, inl, inr,
}
use minisforum_n5pro_fan_pro.Spec.Tables.{
  Mean, Crossed, crosses, below, crossing_distance, first_step, or_else, first_crossing, crossing,
  step_boundaries,
}

-- A value stays on the side of the step that the reference is on, up to the distance that counts as a crossing.
abbrev pub StaysOn : Mean ℤ → ℤ → ℕ → Type 0
StaysOn ref v s =
    (ref.sum <ℤ pos (s * ref.count) → v <ℤ pos (s + crossing_distance))
    × (pos (s * ref.count) ≤ℤ ref.sum → sub_ℕ s crossing_distance <ℤ v)

abbrev pub StaysIn : List ℕ → Mean ℤ → Option ℤ → Type 0
StaysIn bs ref none = Unit
StaysIn bs ref (some v) = All (StaysOn ref v) bs

crosses_cases :
    (b p q : Bool)
    → (((b && p) || (not b && q)) ≡ false) ↔ ((b ≡ true → p ≡ false) × (b ≡ false → q ≡ false))
crosses_cases true p q = (λ h. (λ _. ground (arith, h), λ e. cc), λ h. ground (arith, h.0 refl))
crosses_cases false p q = (λ h. (λ e. cc, λ _. h), λ h. h.1 refl)

lt_iff : (a b : ℤ) → (ltb_ℤ a b ≡ true) ↔ (a <ℤ b)
lt_iff a b = ground arith

le_iff : (a b : ℤ) → (ltb_ℤ a b ≡ false) ↔ (b ≤ℤ a)
le_iff a b = ground arith

not_le_iff : (a b : ℤ) → (leb_ℤ a b ≡ false) ↔ (b <ℤ a)
not_le_iff a b = ground arith

crosses_iff : (ref : Mean ℤ) (v : ℤ) (s : ℕ) → (crosses ref v s ≡ false) ↔ StaysOn ref v s
unfolding crosses
crosses_iff ref v s =
    let split =
      crosses_cases (below ref s) (leb_ℤ (pos (s + crossing_distance)) v)
        (leb_ℤ v (sub_ℕ s crossing_distance)) in
    let side = pos (s * ref.count) in
    (
      λ h. (
        λ lt.
            (not_le_iff (pos (s + crossing_distance)) v).0
              ((split.0 h).0 ((lt_iff ref.sum side).1 lt)),
        λ ge.
            (not_le_iff v (sub_ℕ s crossing_distance)).0
              ((split.0 h).1 ((le_iff ref.sum side).1 ge)),
      ),
      λ h. split.1 (
        λ lt. (not_le_iff (pos (s + crossing_distance)) v).1 (h.0 ((lt_iff ref.sum side).0 lt)),
        λ ge. (not_le_iff v (sub_ℕ s crossing_distance)).1 (h.1 ((le_iff ref.sum side).0 ge)),
      ),
    )

first_step_iff :
    (ref : Mean ℤ) (v : ℤ) (bs : List ℕ) → (first_step ref v bs ≡ none) ↔ All (StaysOn ref v) bs
unfolding first_step
first_step_iff ref v [] = (λ h. tt, λ h. refl)
first_step_iff ref v (s ∷ ss) = elim (Bool-cases (crosses ref v s)) [
  | inl e ↦ rw e (λ h. absurd (some_none h), λ h. absurd (clash e ((crosses_iff ref v s).1 h.0)))
  | inr e ↦ rw e (
    λ h. ((crosses_iff ref v s).0 e, (first_step_iff ref v ss).0 h),
    λ h. (first_step_iff ref v ss).1 h.1,
  )
]
  where
    some_none : {c : Crossed} → (some c ≡ none) → ⊥
    some_none h = cc

    clash : {b : Bool} → b ≡ true → b ≡ false → ⊥
    clash p q = cc

first_crossing_iff :
    (bs : List ℕ) (ref : Mean ℤ) (vs : List (Option ℤ))
    → (first_crossing bs ref vs ≡ none) ↔ All (StaysIn bs ref) vs
unfolding first_crossing
first_crossing_iff bs ref [] = (λ h. tt, λ h. refl)
first_crossing_iff bs ref (none ∷ vs) =
    (λ h. (tt, (first_crossing_iff bs ref vs).0 h), λ h. (first_crossing_iff bs ref vs).1 h.1)
first_crossing_iff bs ref (some v ∷ vs) = (
  λ h. (
    (first_step_iff ref v bs).0 (first_none _ _ h),
    (first_crossing_iff bs ref vs).0 (second_none _ _ h),
  ),
  λ h. both_none _ _ ((first_step_iff ref v bs).1 h.0) ((first_crossing_iff bs ref vs).1 h.1),
)
  where
    first_none : (a b : Option Crossed) → or_else a b ≡ none → a ≡ none
    first_none none b h = refl
    first_none (some c) b h = h

    second_none : (a b : Option Crossed) → or_else a b ≡ none → b ≡ none
    second_none none b h = h
    second_none (some c) b h = cc

    both_none : (a b : Option Crossed) → a ≡ none → b ≡ none → or_else a b ≡ none
    both_none none b p q = q
    both_none (some c) b p q = p

-- No crossing is reported for a known reference exactly when every readable value stays on the side of every
-- step of the channel's table that the reference is on, to within less than 2 C beyond the step.
pub crossing-none :
    (ch : ℕ) (ref : Mean ℤ) (vs : List (Option ℤ))
    → (crossing ch (some ref) vs ≡ none) ↔ All (StaysIn (step_boundaries ch) ref) vs
unfolding crossing
crossing-none ch ref vs = first_crossing_iff (step_boundaries ch) ref vs
