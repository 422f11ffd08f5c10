-- ===== src/Regulator/Expectation.antt =====
-- ectest/internal/regulator/regulator.go: `Expectation`, the values that the program expects in the pwm attributes. A read of an
-- attribute is a parameter, `none` when it fails; a missing key of a map is `none`. The mutex is left out: every
-- operation holds it from its start to its end.
pub mod Reported
pub mod OwnWrites
use minisforum_n5pro_fan_pro.Prelude.{
  ℕ, Bool, true, false, not, ◌&&◌, Option, none, some, List, [], ◌∷◌, ◌++◌, ℤ, pos, negsuc, ◌==◌,
  if◌then◌else◌,
}
use minisforum_n5pro_fan_pro.Writer.Device.{Attr, duty, enable}
use minisforum_n5pro_fan_pro.Runner.State.{set}

abbrev pub View : Type 0
View = ℕ → Attr → Option ℤ

pub record Expectation : Type 0 where
  pub pwm : ℕ → Option ℤ
  pub enable : ℕ → Option ℤ

abbrev pub expected : Expectation → ℕ → Attr → Option ℤ
expected e ch duty = e.pwm ch
expected e ch enable = e.enable ch

abbrev pub same_ℤ : ℤ → ℤ → Bool
same_ℤ (pos a) (pos b) = a == b
same_ℤ (negsuc a) (negsuc b) = a == b
same_ℤ _ _ = false

-- `Refresh`: the values that are read now, or none.
unfoldable pub refresh : View → ℕ → Expectation → Expectation
unfolding set
refresh view ch e = record {
  pwm = set ch (view ch duty) e.pwm;
  enable = set ch (view ch Attr.enable) e.enable;
}

abbrev pub nothing : Expectation
nothing = record { pwm = λ ch. none; enable = λ ch. none }

-- `NewExpectation`.
unfoldable pub new_expectation : View → Expectation
unfolding refresh
new_expectation view = refresh view 4 (refresh view 3 (refresh view 2 (refresh view 1 nothing)))

abbrev pub is_one : Option ℤ → Bool
is_one none = false
is_one (some v) = same_ℤ v (pos 1)

-- `Expect`, called before an own write. Manual mode from another mode sets the duty 255.
unfoldable pub expect : ℕ → Attr → ℤ → Expectation → Expectation
unfolding set
expect ch duty v e = record e { pwm = set ch (some v) e.pwm }
expect ch enable v e = record {
  pwm =
      if same_ℤ v (pos 1) && not (is_one (e.enable ch))
      then set ch (some (pos 255)) e.pwm
      else e.pwm;
  enable = set ch (some v) e.enable;
}

-- `After`: what an own write that failed has left is read again.
unfoldable pub after : View → ℕ → Bool → Expectation → Expectation
unfolding refresh
after view ch failed e = if failed then refresh view ch e else e

pub record Difference : Type 0 where
  pub channel : ℕ
  pub attr : Attr
  pub found : ℤ
  pub wanted : ℤ

abbrev pub differ_of : ℕ → Attr → Option ℤ → Option ℤ → List Difference
differ_of ch a (some want) (some got) =
    if same_ℤ got want
    then []
    else record { channel = ch; attr = a; found = got; wanted = want } ∷ []
differ_of ch a _ _ = []

unfoldable pub diff_from : View → Expectation → List ℕ → List Difference
diff_from view e [] = []
diff_from view e (ch ∷ chs) =
    differ_of ch enable (expected e ch enable) (view ch enable)
    ++ (differ_of ch duty (expected e ch duty) (view ch duty) ++ diff_from view e chs)

-- `Diff`.
unfoldable pub diff : View → Expectation → List Difference
unfolding diff_from
diff view e = diff_from view e (1 ∷ 2 ∷ 3 ∷ 4 ∷ [])
