-- ===== src/Tests/Storing.antt =====
-- Temperatures as samples.csv stores them.
use minisforum_n5pro_fan_pro.Prelude.{
  ℕ, ◌≡◌, refl, true, false, none, some, List, [], ◌∷◌, map, pos, negsuc,
}
use minisforum_n5pro_fan_pro.Spec.Sample.{Sample, gate}
use minisforum_n5pro_fan_pro.Spec.Gate.Defs.{eval_g4}
use minisforum_n5pro_fan_pro.Report.Stored.{tenth, cell, stored}

quarter : ◌≡◌ {A = ℕ} (tenth 35_250) 35_200
unfolding tenth
quarter = refl

above : ◌≡◌ {A = ℕ} (tenth 35_350) 35_400
unfolding tenth
above = refl

below : ◌≡◌ {A = ℕ} (tenth 150) 100
unfolding tenth
below = refl

under_zero : cell (some (negsuc 1_279)) ≡ some (negsuc 1_299)
unfolding cell
under_zero = refl

lost_sign : cell (some (negsuc 19)) ≡ some (pos 0)
unfolding cell
lost_sign = refl

abbrev row : ℕ → ℕ → Sample
row ts t = record {
  ts = ts;
  phase = gate;
  ch = 0;
  written = none;
  dcr = [];
  fan = [];
  ec_cpu = none;
  ec_sys = some (pos 30_000);
  ec_board = none;
  ec_amb = some (pos 30_000);
  hdd_max = some (pos t);
  nvme_max = some (pos 40_850);
  tctl = some (pos 45_875);
  load1 = none;
}

-- A disk at 35 degrees and once at 36.04: too wide in memory, and narrow enough as it is stored.
abbrev rest_of_window : List Sample
rest_of_window = row 100_000 36_040 ∷ row 200_000 35_000 ∷ []

judged_in_memory : (eval_g4 (row 0 35_000) rest_of_window).passes ≡ false
unfolding eval_g4
judged_in_memory = refl

judged_as_stored : (eval_g4 (stored (row 0 35_000)) (map stored rest_of_window)).passes ≡ true
unfolding eval_g4 stored
judged_as_stored = refl
