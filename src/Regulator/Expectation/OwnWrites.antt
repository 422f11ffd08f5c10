-- ===== src/Regulator/Expectation/OwnWrites.antt =====
-- The check of the attributes stays silent about the program's own writes.
use minisforum_n5pro_fan_pro.Prelude.{
  ℕ, ◌≡◌, ◌≢◌, Bool, true, false, not, ◌&&◌, none, some, ℤ, pos, ◌==◌, if◌then◌else◌,
}
use minisforum_n5pro_fan_pro.Writer.Device.{Attr, duty, enable}
use minisforum_n5pro_fan_pro.Regulator.Expectation.{
  View, Expectation, expected, same_ℤ, new_expectation, expect, after,
}

-- The driver's values, and which of its attributes can be read.
pub record Driver : Type 0 where
  pub value : ℕ → Attr → ℤ
  pub readable : ℕ → Attr → Bool

abbrev pub view_of : Driver → View
view_of d ch a = if d.readable ch a then some (d.value ch a) else none

-- What a write that succeeds does, as the driver documents it: a duty is taken, manual mode from another mode sets
-- the duty 255, any other change of the mode leaves the duty. What can be read may change.
pub data Obeys (d : Driver) (ch : ℕ) (after' : Driver) : Attr → ℤ → Type 0 where
  takes_duty :
      (v : ℤ)
      → after'.value ch duty ≡ v
      → after'.value ch enable ≡ d.value ch enable
      → Obeys d ch after' duty v
  takes_mode :
      (v : ℤ)
      → after'.value ch enable ≡ v
      → after'.value ch duty ≡ (
          if same_ℤ v (pos 1) && not (same_ℤ (d.value ch enable) (pos 1))
          then pos 255
          else d.value ch duty)
      → Obeys d ch after' enable v

abbrev pub Others : ℕ → Driver → Driver → Type 0
Others ch d d' = (c : ℕ) (a : Attr) → (c == ch) ≡ false → d'.value c a ≡ d.value c a

-- The program and the driver, without another writer: reads that succeed or fail otherwise than before, own writes
-- that succeed, and own writes that fail, with any effect on their channel. The mode of a channel is known when
-- manual mode is written.
pub data Quiet (d0 : Driver) : Expectation → Driver → Type 0 where
  start : Quiet d0 (new_expectation (view_of d0)) d0
  looks :
      (e : Expectation) (d d' : Driver)
      → Quiet d0 e d
      → ((c : ℕ) (a : Attr) → d'.value c a ≡ d.value c a)
      → Quiet d0 e d'
  writes :
      (e : Expectation) (d d' : Driver) (ch : ℕ) (a : Attr) (v : ℤ)
      → Quiet d0 e d
      → e.enable ch ≢ none
      → Obeys d ch d' a v
      → Others ch d d'
      → Quiet d0 (expect ch a v e) d'
  fails :
      (e : Expectation) (d d' : Driver) (ch : ℕ) (a : Attr) (v : ℤ)
      → Quiet d0 e d
      → Others ch d d'
      → Quiet d0 (after (view_of d') ch true (expect ch a v e)) d'

-- Every expected value is the driver's.
abbrev Tracks : Expectation → Driver → Type 0
Tracks e d = (c : ℕ) (a : Attr) (v : ℤ) → expected e c a ≡ some v → d.value c a ≡ v
