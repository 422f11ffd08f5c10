-- ===== src/Report/Lines.antt =====
-- ectest/internal/report/recompute.go: the lines of events.log and the samples of a phase. A line carries the event whose text
-- it shows, and its run time in milliseconds unless the line does not begin with one.
use minisforum_n5pro_fan_pro.Prelude.{
  ℕ, ◌-◌, Bool, true, false, ◌&&◌, ◌||◌, Option, none, some, List, [], ◌∷◌, ◌==◌, if◌then◌else◌,
}
use minisforum_n5pro_fan_pro.Spec.Sample
use minisforum_n5pro_fan_pro.Spec.Sample.{
  Sample, Phase, boot_state, gate, t1_rest, t1_step, t2_pre, t2_hold,
}
use minisforum_n5pro_fan_pro.Spec.Aggregate.Defs.{same_label}
use minisforum_n5pro_fan_pro.Runner.State.{Event, Stamped, wrote_duty, t1_complete}

-- `Event` of the report.
pub record Line : Type 0 where
  pub ts : Option ℕ
  pub event : Event

-- The line that a run writes for an event.
unfoldable pub line_of : ℕ → Stamped → Line
line_of start e = record { ts = some (e.time - start); event = e.event }

-- `==` on phases.
abbrev pub same_phase : Phase → Phase → Bool
same_phase boot_state boot_state = true
same_phase gate gate = true
same_phase t1_rest t1_rest = true
same_phase t2_pre t2_pre = true
same_phase (t1_step d) (t1_step e) = d == e
same_phase (t2_hold r l) (t2_hold s m) = r == s && same_label l m
same_phase (Sample.t2_auto r l) (Sample.t2_auto s m) = r == s && same_label l m
same_phase _ _ = false

unfoldable pub phase_samples : Phase → List Sample → List Sample
phase_samples p [] = []
phase_samples p (s ∷ ss) =
    let rest = phase_samples p ss in if same_phase s.phase p then s ∷ rest else rest

abbrev pub is_t1_complete : Event → Bool
is_t1_complete t1_complete = true
is_t1_complete _ = false

-- `hasEvent` for the end of the mapping test.
unfoldable pub has_t1_complete : List Line → Bool
has_t1_complete [] = false
has_t1_complete (l ∷ ls) = is_t1_complete l.event || has_t1_complete ls

-- `isWrite`.
abbrev pub is_write : ℕ → ℕ → Event → Bool
is_write ch duty (wrote_duty c d) = c == ch && d == duty
is_write ch duty _ = false

abbrev pub time_if : Bool → Option ℕ → Option ℕ → Option ℕ
time_if true (some t) rest = some t
time_if _ _ rest = rest

-- `writeTS`: the run time of the first such write.
unfoldable pub write_ts : List Line → ℕ → ℕ → Option ℕ
write_ts [] ch duty = none
write_ts (l ∷ ls) ch duty = time_if (is_write ch duty l.event) l.ts (write_ts ls ch duty)
