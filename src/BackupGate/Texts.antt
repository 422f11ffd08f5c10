-- ===== src/BackupGate/Texts.antt =====
-- What it means for a text to begin with another one, or to hold it.
use minisforum_n5pro_fan_pro.Prelude.{
  ◌≡◌, refl, ap, ◌↔◌, inl, inr, true, List, [], ◌∷◌, ◌++◌, ◌==◌, Text, text_eq_iff, strip_prefix,
  Any, arith, Bool-cases,
}
use minisforum_n5pro_fan_pro.BackupGate.{is_some, contains, first_equal}

-- A text begins with another one, and holds another one.
abbrev pub Begins : Text → Text → Type 0
Begins p s = (r : Text) × (s ≡ p ++ r)

abbrev pub Occurs : Text → Text → Type 0
Occurs k s = (a : Text) × (r : Text) × (s ≡ a ++ (k ++ r))

strip_prefix-Begins : (p s : Text) → is_some (strip_prefix p s) ≡ true → Begins p s
unfolding strip_prefix
strip_prefix-Begins [] s h = (s, refl)
strip_prefix-Begins (p ∷ ps) [] h = absurd (ground (arith, h))
strip_prefix-Begins (p ∷ ps) (c ∷ cs) h = elim (Bool-cases (c == p)) [
  | inl e ↦
      let (r, s) = strip_prefix-Begins ps cs (ground (arith, h, e)) in (r, ground (arith, s, e))
  | inr e ↦ absurd (ground (arith, h, e))
]

Begins-strip_prefix : (p r : Text) → is_some (strip_prefix p (p ++ r)) ≡ true
unfolding strip_prefix
Begins-strip_prefix [] r = refl
Begins-strip_prefix (p ∷ ps) r = ground (arith, Begins-strip_prefix ps r)

pub strip_prefix_iff : (p s : Text) → (is_some (strip_prefix p s) ≡ true) ↔ Begins p s
strip_prefix_iff p s = (strip_prefix-Begins p s, λ (r, e). rw e (Begins-strip_prefix p r))

contains-Occurs : (k s : Text) → contains k s ≡ true → Occurs k s
unfolding contains
contains-Occurs k [] h = let (r, e) = strip_prefix-Begins k [] h in ([], r, e)
contains-Occurs k (c ∷ cs) h = elim (Bool-cases (is_some (strip_prefix k (c ∷ cs)))) [
  | inl e ↦ let (r, s) = strip_prefix-Begins k (c ∷ cs) e in ([], r, s)
  | inr e ↦
      let (a, r, s) = contains-Occurs k cs (ground (arith, h, e)) in (c ∷ a, r, ap (λ x. c ∷ x) s)
]

Occurs-contains : (k a r : Text) → contains k (a ++ (k ++ r)) ≡ true
unfolding contains
Occurs-contains [] [] [] = ground (arith, Begins-strip_prefix [] [])
Occurs-contains [] [] (c ∷ r) = ground (arith, Begins-strip_prefix [] (c ∷ r))
Occurs-contains (x ∷ k) [] r = ground (arith, Begins-strip_prefix (x ∷ k) r)
Occurs-contains k (c ∷ a) r = ground (arith, Occurs-contains k a r)

pub contains_iff : (k s : Text) → (contains k s ≡ true) ↔ Occurs k s
contains_iff k s = (contains-Occurs k s, λ (a, r, e). rw e (Occurs-contains k a r))

pub first_equal_iff :
    (t : Text) (ns : List Text) → (is_some (first_equal t ns) ≡ true) ↔ Any (λ n. t ≡ n) ns
unfolding first_equal
first_equal_iff t [] = (λ h. absurd (ground arith), λ h. absurd h)
first_equal_iff t (n ∷ ns) = (
  λ h. ground (arith, first_equal_iff t ns, text_eq_iff t n),
  λ h. ground (arith, first_equal_iff t ns, text_eq_iff t n),
)
