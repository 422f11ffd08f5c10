-- ===== src/Report/Gates.antt =====
-- ectest/internal/report/recompute.go: `checkGates`, the gates G3 and G4 from the samples of the gate against meta.json.
pub mod Alike
use minisforum_n5pro_fan_pro.Prelude.{
  ℕ, Bool, true, false, Option, some, List, [], ◌∷◌, ◌++◌, ◌==◌, if◌then◌else◌,
}
use minisforum_n5pro_fan_pro.Spec.Sample.{Sample, gate}
use minisforum_n5pro_fan_pro.Spec.Gate.Defs.{eval_g4}
use minisforum_n5pro_fan_pro.Runner.Gates.{GateDetail, not_sampled, not_completed, g3}
use minisforum_n5pro_fan_pro.Report.Compare.{
  Mismatch, Place, of_g3, of_g4, differ, gate_result, no_gate_samples,
}
use minisforum_n5pro_fan_pro.Report.Lines.{phase_samples}

pub data GateId : Type 0 where
  load stability other : GateId

-- A gate of meta.json; a result other than PASS and FAIL is `none`.
pub record StoredGate : Type 0 where
  pub id : GateId
  pub result : Option Bool
  pub detail : GateDetail

-- A gate that failed since its window was not sampled or not completed.
abbrev pub without_window : Bool → GateDetail → Bool
without_window false (not_sampled why) = true
without_window false (not_completed why) = true
without_window _ _ = false

abbrev pub compare_gate : Place → Bool → Bool → List Mismatch
compare_gate p true true = []
compare_gate p false false = []
compare_gate p stored got = differ p (gate_result stored) (gate_result got) ∷ []

-- G3, unless the bundle does not tell the number of CPUs.
unfoldable pub check_load : ℕ → Bool → GateDetail → List Sample → List Mismatch
unfolding g3
check_load cpus result detail [] =
    if without_window result detail
    then []
    else differ of_g3 (gate_result result) no_gate_samples ∷ []
check_load cpus result detail (s ∷ ss) =
    if cpus == 0 then [] else compare_gate of_g3 result (g3 s cpus).passes

unfoldable pub check_stability : Bool → GateDetail → List Sample → List Mismatch
unfolding eval_g4
check_stability result detail [] =
    if without_window result detail
    then []
    else differ of_g4 (gate_result result) no_gate_samples ∷ []
check_stability result detail (s ∷ ss) =
    if without_window result detail then [] else compare_gate of_g4 result (eval_g4 s ss).passes

abbrev pub check_gate : ℕ → List Sample → GateId → Option Bool → GateDetail → List Mismatch
check_gate cpus rows load (some result) detail = check_load cpus result detail rows
check_gate cpus rows stability (some result) detail = check_stability result detail rows
check_gate cpus rows _ _ detail = []

unfoldable pub check_gates : ℕ → List StoredGate → List Sample → List Mismatch
unfolding check_load check_stability phase_samples
check_gates cpus [] smp = []
check_gates cpus (g ∷ gs) smp =
    check_gate cpus (phase_samples gate smp) g.id g.result g.detail ++ check_gates cpus gs smp
