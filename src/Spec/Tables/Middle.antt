-- ===== src/Spec/Tables/Middle.antt =====
-- ectest/internal/spec/eval.go: the duty M of the middle sub-run, `MValue`.
use minisforum_n5pro_fan_pro.Prelude.{ℕ, ◌≤◌, ◌⊎◌, arith}
use minisforum_n5pro_fan_pro.Spec.Tables.{m_value, min_duty, max_m, leave_counts}
use minisforum_n5pro_fan_pro.Spec.Handback.Defs.{dist}

-- The duty M is one that may be written, at most 200, and when the auto value A is not strictly between 184 and
-- 216, it lies far enough from A for T2 to tell that the register left it.
pub m_value-Usable :
    (a : ℕ)
    → (min_duty ≤ m_value a)
      × (m_value a ≤ max_m)
      × ((a ≤ 184) ⊎ (216 ≤ a) → leave_counts ≤ dist (m_value a) a)
unfolding m_value
m_value-Usable a = (ground arith, ground arith, λ h. ground arith)
