-- ===== src/Spec/Gate/Stability.antt =====
-- When the gate G4 passes.
use mathlib.Core.Path.{subst}
use minisforum_n5pro_fan_pro.Prelude.{
  ◌+◌, ◌≤◌, ◌≡◌, ◌≢◌, refl, ◌↔◌, inl, inr, true, Option, none, some, List, [], ◌∷◌, ℤ, pos_part,
  neg_part, ◌≤ℤ◌, ltb_ℤ, leb, if◌then◌else◌, All, Any, All-map, arith, Bool-cases,
}
use minisforum_n5pro_fan_pro.Spec.Sample.{Sample}
use minisforum_n5pro_fan_pro.Spec.Tables.{Mean, mean_ℤ, gate_temp_delta, gate_trend}
use minisforum_n5pro_fan_pro.Spec.Gate.Defs.{
  Limit, tctl, nvme, hdd, Input, system, ambient, disk, limit_value, limit_seen, values, lowest,
  highest, values_when, judge_means, last_ts, close, narrow, judge_values, judge_input, eval_g4,
}

-- The value is present.
abbrev pub Present : Option ℤ → Type 0
Present none = ⊥
Present (some v) = Unit {0}

limit_seen_iff :
    (l : Limit) (ss : List Sample)
    → (limit_seen l ss ≡ true) ↔ Any (λ s. Present (limit_value l s)) ss
unfolding limit_seen
limit_seen_iff l [] = (λ h. absurd (ground arith), λ h. absurd h)
limit_seen_iff l (s ∷ ss) =
    (λ h. ground (arith, limit_seen_iff l ss), λ h. ground (arith, limit_seen_iff l ss))

-- `a` is at most one degree above `b`.
abbrev pub WithinDegree : ℤ → ℤ → Type 0
WithinDegree a b = pos_part a + neg_part b ≤ pos_part b + neg_part a + gate_temp_delta

lowest_least : (lo : ℤ) (vs : List ℤ) → (lowest lo vs ≤ℤ lo) × All (λ v. lowest lo vs ≤ℤ v) vs
unfolding lowest
lowest_least lo [] = (omega arith, tt)
lowest_least lo (v ∷ vs) =
    let (a, b) = lowest_least (if ltb_ℤ v lo then v else lo) vs in (ground arith, (ground arith, b))

lowest-Any : (lo : ℤ) (vs : List ℤ) (t : ℤ) → lowest lo vs ≡ t → Any (λ v. v ≡ t) (lo ∷ vs)
unfolding lowest
lowest-Any lo [] t h = inl h
lowest-Any lo (v ∷ vs) t h = elim (Bool-cases (ltb_ℤ v lo)) [
  | inl e ↦ inr (lowest-Any v vs t (rw e at h))
  | inr e ↦ elim (lowest-Any lo vs t (rw e at h)) [ inl p ↦ inl p | inr q ↦ inr (inr q) ]
]

highest_greatest : (hi : ℤ) (vs : List ℤ) → (hi ≤ℤ highest hi vs) × All (λ v. v ≤ℤ highest hi vs) vs
unfolding highest
highest_greatest hi [] = (omega arith, tt)
highest_greatest hi (v ∷ vs) =
    let (a, b) = highest_greatest (if ltb_ℤ hi v then v else hi) vs in
    (ground arith, (ground arith, b))

highest-Any : (hi : ℤ) (vs : List ℤ) (t : ℤ) → highest hi vs ≡ t → Any (λ v. v ≡ t) (hi ∷ vs)
unfolding highest
highest-Any hi [] t h = inl h
highest-Any hi (v ∷ vs) t h = elim (Bool-cases (ltb_ℤ hi v)) [
  | inl e ↦ inr (highest-Any v vs t (rw e at h))
  | inr e ↦ elim (highest-Any hi vs t (rw e at h)) [ inl p ↦ inl p | inr q ↦ inr (inr q) ]
]

-- What holds of every element holds of one that is there.
All-at : (P : ℤ → Type 0) (a : ℤ) (vs : List ℤ) → All P vs → Any (λ v. v ≡ a) vs → P a
All-at P a [] h m = absurd m
All-at P a (v ∷ vs) h (inl e) = subst P e h.0
All-at P a (v ∷ vs) h (inr m) = All-at P a vs h.1 m

-- The span is at most one degree exactly when no value is more than a degree above another.
narrow_iff :
    (v : ℤ) (vs : List ℤ)
    → (narrow (lowest v vs) (highest v vs) ≡ true)
      ↔ All (λ a. All (λ b. WithinDegree a b) (v ∷ vs)) (v ∷ vs)
narrow_iff v vs = (forward, backward)
  where
    forward :
        narrow (lowest v vs) (highest v vs) ≡ true
        → All (λ a. All (λ b. WithinDegree a b) (v ∷ vs)) (v ∷ vs)
    forward h =
        All-map {P = λ a. a ≤ℤ highest v vs} {Q = λ a. All (λ b. WithinDegree a b) (v ∷ vs)}
          (λ a p.
            All-map {P = λ b. lowest v vs ≤ℤ b} {Q = λ b. WithinDegree a b} (λ b q. ground arith)
              (v ∷ vs) (lowest_least v vs))
          (v ∷ vs) (highest_greatest v vs)

    backward :
        All (λ a. All (λ b. WithinDegree a b) (v ∷ vs)) (v ∷ vs)
        → narrow (lowest v vs) (highest v vs) ≡ true
    backward h =
        let top : All (λ b. WithinDegree (highest v vs) b) (v ∷ vs) =
          All-at _ (highest v vs) (v ∷ vs) h (highest-Any v vs _ refl) in
        let span : WithinDegree (highest v vs) (lowest v vs) =
          All-at _ (lowest v vs) (v ∷ vs) top (lowest-Any v vs _ refl) in
        ground arith

-- The means over the first and over the last 60 s exist and differ by less than a degree.
abbrev pub IsTrendless : Option (Mean ℤ) → Option (Mean ℤ) → Type 0
IsTrendless (some a) (some b) = close a b ≡ true
IsTrendless _ _ = ⊥

-- An input is stable: it has a value, no two values are more than a degree apart, and there is no trend.
abbrev pub IsStable : Sample → List Sample → Input → Type 0
IsStable s ss c =
    (values c (s ∷ ss) ≢ [])
    × All (λ a. All (λ b. WithinDegree a b) (values c (s ∷ ss))) (values c (s ∷ ss))
    × IsTrendless (mean_ℤ (values_when (λ ts. leb ts (s.ts + gate_trend)) c (s ∷ ss)))
        (mean_ℤ (values_when (λ ts. leb (last_ts s.ts ss) (ts + gate_trend)) c (s ∷ ss)))

means_iff :
    (c : Input) (lo hi : ℤ) (a b : Option (Mean ℤ))
    → ((judge_means c lo hi a b).stable ≡ true) ↔ ((narrow lo hi ≡ true) × IsTrendless a b)
means_iff c lo hi (some a) (some b) = (λ h. (ground arith, ground arith), λ h. rw (h.0, h.1))
means_iff c lo hi none b = (λ h. cc, λ h. absurd h.1)
means_iff c lo hi (some a) none = (λ h. cc, λ h. absurd h.1)

judge_values_iff :
    (c : Input) (s : Sample) (ss : List Sample) (vs : List ℤ)
    → ((judge_values c s.ts (last_ts s.ts ss) (s ∷ ss) vs).stable ≡ true) ↔ (
        (vs ≢ [])
        × All (λ a. All (λ b. WithinDegree a b) vs) vs
        × IsTrendless
            (mean_ℤ (values_when (λ ts. leb ts (s.ts + gate_trend)) c (s ∷ ss)))
            (mean_ℤ (values_when (λ ts. leb (last_ts s.ts ss) (ts + gate_trend)) c (s ∷ ss))))
unfolding judge_values
judge_values_iff c s ss [] = (λ h. cc, λ h. absurd (h.0 refl))
judge_values_iff c s ss (v ∷ vs) = (
  λ h.
      let (n, t) = (means_iff c (lowest v vs) (highest v vs) _ _).0 h in
      (λ e. cc, (narrow_iff v vs).0 n, t),
  λ (e, n, t). (means_iff c (lowest v vs) (highest v vs) _ _).1 ((narrow_iff v vs).1 n, t),
)

stable_iff :
    (c : Input) (s : Sample) (ss : List Sample)
    → ((judge_input c s ss).stable ≡ true) ↔ IsStable s ss c
unfolding judge_input
stable_iff c s ss = judge_values_iff c s ss (values c (s ∷ ss))

-- G4 passes exactly when each sensor with an abort limit has a value in some sample of the window, and each of
-- the three inputs is stable: it has a value, no value lies more than a degree above another, and the means
-- over the first and over the last 60 s exist and differ by less than a degree.
pub g4-passes :
    (s : Sample) (ss : List Sample)
    → ((eval_g4 s ss).passes ≡ true) ↔ (
        ((l : Limit) → Any (λ x. Present (limit_value l x)) (s ∷ ss))
        × ((c : Input) → IsStable s ss c))
unfolding eval_g4
g4-passes s ss = (λ h. (limits h, inputs h), backward)
  where
    limits :
        (eval_g4 s ss).passes ≡ true → (l : Limit) → Any (λ x. Present (limit_value l x)) (s ∷ ss)
    limits h tctl = (limit_seen_iff tctl (s ∷ ss)).0 (ground arith)
    limits h nvme = (limit_seen_iff nvme (s ∷ ss)).0 (ground arith)
    limits h hdd = (limit_seen_iff hdd (s ∷ ss)).0 (ground arith)

    inputs : (eval_g4 s ss).passes ≡ true → (c : Input) → IsStable s ss c
    inputs h system = (stable_iff system s ss).0 (ground arith)
    inputs h ambient = (stable_iff ambient s ss).0 (ground arith)
    inputs h disk = (stable_iff disk s ss).0 (ground arith)

    backward :
        (((l : Limit) → Any (λ x. Present (limit_value l x)) (s ∷ ss))
          × ((c : Input) → IsStable s ss c))
        → (eval_g4 s ss).passes ≡ true
    backward (l, c) = rw (
      (limit_seen_iff tctl (s ∷ ss)).1 (l tctl),
      (limit_seen_iff nvme (s ∷ ss)).1 (l nvme),
      (limit_seen_iff hdd (s ∷ ss)).1 (l hdd),
      (stable_iff system s ss).1 (c system),
      (stable_iff ambient s ss).1 (c ambient),
      (stable_iff disk s ss).1 (c disk),
    )
