-- ===== src/Report/Stored.antt =====
-- ectest/internal/spec/sample.go: the numbers that `Row` writes to samples.csv and `ParseRow` reads again. Temperatures keep one
-- decimal, as `strconv.FormatFloat` rounds them; times and loads keep every digit that they have here.
pub mod Exact
pub mod SameRows
use minisforum_n5pro_fan_pro.Prelude.{
  ℕ, zero, suc, ◌+◌, ◌*◌, ◌/◌, ◌%◌, ◌^◌, Option, none, some, ℤ, pos, negsuc, leb, ltb, ◌==◌, Bool,
  if◌then◌else◌,
}
use minisforum_n5pro_fan_pro.Spec.Sample.{Sample}

-- Doubled until it is a thousand times a number with 53 bits, the significand of a float64.
unfoldable pub scaled : ℕ → ℕ → ℕ
scaled zero n = n
scaled (suc fuel) n = let rest = scaled fuel (2 * n) in if leb (1_000 * 2 ^ 52) n then n else rest

-- Whether the float64 of `n` thousandths is above them: the significand is rounded up.
unfoldable pub float_above : ℕ → Bool
unfolding scaled
float_above n = ltb 500 (scaled 64 n % 1_000)

-- A number of thousandths halfway between two tenths: to the even one if the float64 is exact, which it is for quarters,
-- and else to the side of the float64.
unfoldable pub halfway : ℕ → Bool
unfolding float_above
halfway n = if n % 250 == 0 then n / 100 % 2 == 1 else float_above n

-- The nearest tenth, in thousandths.
unfoldable pub tenth : ℕ → ℕ
unfolding halfway
tenth n =
    let low = 100 * (n / 100) in
    if ltb (n % 100) 50
    then low
    else if ltb 50 (n % 100)
    then low + 100
    else if halfway n
    then low + 100
    else low

-- Below zero the sign is kept; what rounds to zero is zero.
abbrev negative : ℕ → ℤ
negative zero = pos 0
negative (suc n) = negsuc n

unfoldable pub tenth_ℤ : ℤ → ℤ
unfolding tenth
tenth_ℤ (pos n) = pos (tenth n)
tenth_ℤ (negsuc n) = negative (tenth (suc n))

-- `cellF` with one decimal, and what is read from the cell.
unfoldable pub cell : Option ℤ → Option ℤ
unfolding tenth_ℤ
cell none = none
cell (some v) = some (tenth_ℤ v)

-- The sample that is read from the row of a sample.
unfoldable pub stored : Sample → Sample
unfolding cell
stored s = record s {
  ec_cpu = cell s.ec_cpu;
  ec_sys = cell s.ec_sys;
  ec_board = cell s.ec_board;
  ec_amb = cell s.ec_amb;
  hdd_max = cell s.hdd_max;
  nvme_max = cell s.nvme_max;
  tctl = cell s.tctl;
}
