-- ===== src/Report/Stored/Exact.antt =====
-- The samples of which samples.csv keeps what the rules judge.
use minisforum_n5pro_fan_pro.Prelude.{
  ℕ, suc, ◌+◌, ◌%◌, ◌≤◌, ◌≡◌, refl, ap, Option, none, some, List, [], ◌∷◌, map, ℤ, pos, negsuc, All,
  arith, split-if,
}
use minisforum_n5pro_fan_pro.Spec.Sample.{Sample, Phase}
use minisforum_n5pro_fan_pro.Report.Lines.{same_phase, phase_samples}
use minisforum_n5pro_fan_pro.Report.Stored.{tenth, tenth_ℤ, cell, stored}

-- A whole number of tenths of a degree.
abbrev pub IsTenths : ℤ → Type 0
IsTenths (pos n) = n % 100 ≡ 0
IsTenths (negsuc n) = suc n % 100 ≡ 0

abbrev pub TenthsIfKnown : Option ℤ → Type 0
TenthsIfKnown none = Unit
TenthsIfKnown (some v) = IsTenths v

-- The temperatures of the controller and of the disks are whole tenths; those of the processor and of the NVMe disks,
-- of which only the presence is judged, are whatever they are.
abbrev pub Exact : Sample → Type 0
Exact s =
    TenthsIfKnown s.ec_cpu
    × TenthsIfKnown s.ec_sys
    × TenthsIfKnown s.ec_board
    × TenthsIfKnown s.ec_amb
    × TenthsIfKnown s.hdd_max

tenth_exact : (n : ℕ) → n % 100 ≡ 0 → tenth n ≡ n
unfolding tenth
tenth_exact n h = ground arith

-- Rounding moves a number by half a tenth at most.
tenth_near : (n : ℕ) → (n ≤ tenth n + 50) × (tenth n ≤ n + 50)
unfolding tenth
tenth_near n = ground arith

pub cell_exact : (o : Option ℤ) → TenthsIfKnown o → cell o ≡ o
unfolding cell tenth_ℤ
cell_exact none h = refl
cell_exact (some (pos n)) h = ap (λ x. some (pos x)) (tenth_exact n h)
cell_exact (some (negsuc n)) h = rw (tenth_exact (suc n) h) refl

-- What the row of such a sample changes.
pub stored-Exact :
    (s : Sample) → Exact s → stored s ≡ record s { nvme_max = cell s.nvme_max; tctl = cell s.tctl }
unfolding stored
stored-Exact s (a, b, c, d, e) =
    rw
      (
        cell_exact s.ec_cpu a,
        cell_exact s.ec_sys b,
        cell_exact s.ec_board c,
        cell_exact s.ec_amb d,
        cell_exact s.hdd_max e,
      )
      refl

pub phase_samples-stored :
    (p : Phase) (ss : List Sample)
    → phase_samples p (map stored ss) ≡ map stored (phase_samples p ss)
unfolding phase_samples stored
phase_samples-stored p [] = refl
phase_samples-stored p (s ∷ ss) = ground (arith, phase_samples-stored p ss)

pub phase_samples-All :
    (P : Sample → Type 0) (p : Phase) (ss : List Sample) → All P ss → All P (phase_samples p ss)
unfolding phase_samples
phase_samples-All P p [] h = tt
phase_samples-All P p (s ∷ ss) h =
    split-if (All P) (same_phase s.phase p) _ _ (λ _. (h.0, phase_samples-All P p ss h.1))
      (λ _. phase_samples-All P p ss h.1)
