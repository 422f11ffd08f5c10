-- ===== src/Tests/Jobs.antt =====
-- The gate G2 on a machine with a backup under way.
use minisforum_n5pro_fan_pro.Prelude.{◌≡◌, refl, ◌↔◌, ◌⊎◌, false, true, some, [], ◌∷◌, ◌++◌, codes}
use minisforum_n5pro_fan_pro.BackupGate.{status, no_zpool, Entry, g2}
use minisforum_n5pro_fan_pro.BackupGate.Busy.{BusyPool, BusyList, g2-fails}

-- A worker of the host that has renamed itself.
abbrev worker : Entry
worker = record {
  name = codes "4242";
  comm = codes "task UPID:pve:0";
  cmdline = codes "task UPID:pve:0010:0022:6650:vzdump:101:root@pam:";
}

abbrev editor : Entry
editor = record {
  name = codes "77";
  comm = codes "vi";
  cmdline = codes "vi" ++ (0 ∷ codes "vzdump.txt");
}

refused : (g2 (status (codes "scan: none requested")) (some (editor ∷ worker ∷ []))).passes ≡ false
unfolding g2
refused = refl

open_machine : (g2 no_zpool (some (editor ∷ []))).passes ≡ true
unfolding g2
open_machine = refl

g2-fails_example :
    ((g2 (status (codes "scan: none requested")) (some (editor ∷ worker ∷ []))).passes ≡ false)
    ↔ (BusyPool (status (codes "scan: none requested")) ⊎ BusyList (some (editor ∷ worker ∷ [])))
g2-fails_example = g2-fails (status (codes "scan: none requested")) (some (editor ∷ worker ∷ []))
