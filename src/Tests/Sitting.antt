-- ===== src/Tests/Sitting.antt =====
-- A driver that the program writes to, and a login over ssh.
use minisforum_n5pro_fan_pro.Prelude.{
  ℕ, ◌≡◌, refl, ◌↔◌, true, Option, none, some, [], ◌∷◌, pos, All, arith, length, Text, codes, ◌==◌,
  if◌then◌else◌,
}
use minisforum_n5pro_fan_pro.Writer.Device.{duty, enable}
use minisforum_n5pro_fan_pro.Regulator.Expectation.{new_expectation, diff}
use minisforum_n5pro_fan_pro.Regulator.Expectation.OwnWrites.{Driver, view_of}
use minisforum_n5pro_fan_pro.Regulator.Expectation.Reported.{AsExpected, diff-none}
use minisforum_n5pro_fan_pro.Session.{Stat, parse_stat, detect}
use minisforum_n5pro_fan_pro.Session.Chain.{Ancestry, last, up, Reported, detect-Reported}

abbrev at_rest : Driver
at_rest = record {
  value = λ ch a. elim a [ duty ↦ pos 120 | enable ↦ pos 2 ];
  readable = λ ch a. true;
}

-- pwm1 in manual mode.
abbrev in_manual : Driver
in_manual = record {
  value = λ ch a.
      if ch == 1
      then elim a [ duty ↦ pos 255 | enable ↦ pos 1 ]
      else elim a [ duty ↦ pos 120 | enable ↦ pos 2 ];
  readable = λ ch a. true;
}

diff-none_example :
    (diff (view_of in_manual) (new_expectation (view_of at_rest)) ≡ [])
    ↔ All (AsExpected (view_of in_manual) (new_expectation (view_of at_rest))) (1 ∷ 2 ∷ 3 ∷ 4 ∷ [])
diff-none_example = diff-none (view_of in_manual) (new_expectation (view_of at_rest))

-- A change of the mode that nobody announced shows in both attributes.
two_differences : length (diff (view_of in_manual) (new_expectation (view_of at_rest))) ≡ 2
unfolding diff new_expectation
two_differences = refl

abbrev files : ℕ → Option Text
files n =
    if n == 40
    then some (codes "40 (bash) S 30 40 40 34816 1")
    else if n == 30
    then some (codes "30 (sshd) S 1 30 30 0 1")
    else none

abbrev bash_stat : Stat
bash_stat = record { comm = codes "bash"; ppid = pos 30; tty = pos 34_816 }

abbrev sshd_stat : Stat
sshd_stat = record { comm = codes "sshd"; ppid = pos 1; tty = pos 0 }

over_ssh : Ancestry files 40 ((40, bash_stat) ∷ (30, sshd_stat) ∷ [])
unfolding parse_stat
over_ssh = up 40 bash_stat _ (λ e. cc) (λ e. cc) refl (last 30 sshd_stat (λ e. cc) refl)

detect-Reported_example :
    All (Reported (detect files 40 (λ k. []) [])) ((40, bash_stat) ∷ (30, sshd_stat) ∷ [])
detect-Reported_example =
    detect-Reported files 40 (λ k. []) [] ((40, bash_stat) ∷ (30, sshd_stat) ∷ []) over_ssh
      (((λ e. cc), tt), (tt, tt)) (omega arith)
