-- ===== src/Lib.antt =====
-- n5-ectest: the test kit that decides how the embedded controller of a Minisforum N5 Pro drives its fans, and
-- the code that it relies on to leave the machine as it found it.
--
-- The program writes duties to the pwm channels 1..4 through the hwmon device of the kernel driver, samples the
-- duty registers, tachs and temperatures, hands each channel back to the controller and judges from the samples
-- whether it takes the channel back (T1 mapping, T2 leaving the written value, T3 reaching a steady state). A run
-- touches a channel only after a state file was written; `Close` restores what was touched, and if the worker dies
-- its guardian restores from the state file.
--
-- Parts and files:
--   Spec      ectest/internal/spec. Verdict: `Verdict`, `combine`. Sample: `Sample`, the phases. Tables: the
--             numbers and channel tables of eval.go (Middle `MValue`, Sides `Crossing`). Handback: `EvalHandback`
--             (Defs), its sort (Sorting), T2 (Leaving PASS, Holding FAIL), T3 (Steady). Registers:
--             `EvalHandbackRegs` (Agreement). Aggregate: `AggregateHandback` (Runs). Mapping: `EvalT1` (Defs the
--             criteria, Series and Failing what they say of the samples, Eval the verdict). Gate: `EvalG4`.
--   Writer    ectest/internal/pwmw. Device: `Resolve`. Defs: `Writer.Write`, `RestoreTo`. Safety: what they write
--             (Panics: its panics, Effect: what success means).
--   Restore   Values: ectest/internal/runner/restorevals.go, `ParseRestoreArg` and `ResolveRestore`. StateFile:
--             ectest/cmd/n5-ectest/guardian.go, `restoreFromState`, which restores with the Writer (Recovery).
--             Handover: the values that a run writes to the state file.
--   Runner    ectest/internal/runner. Env: `Env`, `Config`. Settle: `WaitDCR`. State: `Runner` and its writes.
--             Sampling: `sampleAt`. Hold: `holdFrom` (Slots). Restoring: `Close` and what it calls (Homes what one
--             restore does, Covered what `Close` does, HotWait the wait after a temperature abort). Kept: what
--             samples, holds and stops keep. Reached: any sequence of these operations (Forgotten which channels
--             are left behind, Allowed and Orderly what a run may do to the machine; Touching and Rules, Mapping,
--             Handback the procedures). Series: how samples become the data that is judged. Steps, Mapping, Gates,
--             Results, Handback: `RunT1`, `Gates`, `RunHandback`. Recorded: what these operations add to the lists
--             of a run (Holds, Commands, Mapping).
--   Report    ectest/internal/report/recompute.go. Lines: events and phases. Stored: what samples.csv keeps of a
--             sample (`Row`; Exact, SameRows). Rebuild: `recomputeT1`, `recomputeT2` (Panics; Parts and
--             SameVerdict on the rows of T1). Gates: `checkGates` (Alike). Compare: `compareTests` (Agreement).
--   BackupGate ectest/internal/runner/gates.go: `G2`, `BackupProcess` (Texts and Programs what a command line
--             shows, Busy what the gate finds).
--   Regulator ectest/internal/regulator. Expectation: the values expected in the pwm attributes (Reported,
--             OwnWrites). Checker: `Units`, `Processes`, `Check`.
--   Session   ectest/internal/session: `Detect`, `WithTmux` (Chain what the walk over the ancestors reports).
--   Driver    go/n5/n5driver. State: `State`, `Read`. Dump: `ParseDCR`, `DCR.String`, `ParseECRAM` (Fields,
--             RoundTrip).
--   Prelude   tests, lists, integers and texts over the native numbers. Tests: concrete runs.
--
-- How the code is modelled: times are whole milliseconds (what samples.csv stores), for a clock that counts these, so
-- that `RoundMS` changes nothing; temperatures thousandths of a degree (what hwmon reports), means fractions that are
-- compared by cross multiplication. An unknown value, -1 or NaN in the source, is `none`. A reason, event or warning
-- is a value with the numbers that the source formats. A Go map from channels is a function. Each call on the machine
-- takes its state and returns the next one.
--
-- Parameters: sysfs and the hooks of the writer (Writer.Defs.Kernel), the machine of a run (Runner.Env.Env, an
-- interface in the source), the decoded configuration file, the way a state file is saved, the answers of systemctl,
-- zpool, /proc and the environment (Regulator.Checker.Checked, BackupGate, Session), the file system of the driver
-- (Driver.State.Sysfs). What is assumed of them are the named laws Runner.Settle.ClockLaws,
-- Runner.Restoring.Homes.Homes and Runner.Reached.Allowed.Discipline, and Regulator.Expectation.OwnWrites.Obeys, what
-- the driver documents of a write.
--
-- Fuel: `wait_dcr` takes a round for each millisecond that is left, `hold_from` one for each slot and one to stop;
-- that is every round that these loops can take. `restoreHot` gives its wait the settle time and one round more.
--
-- Not modelled: the reported-only criteria of T1, the guardian's processes and signals, the regular expressions by
-- which the report reads events.log, its JSON files and its HTML, the terminal of standard input, logger, bundle,
-- snapshot, the command line, and everything in other languages. Texts, output and file formats are left out but
-- where a file above names them.
pub mod Prelude
pub mod Spec
pub mod Writer
pub mod Restore
pub mod Runner
pub mod Report
pub mod Driver
pub mod Regulator
pub mod Session
pub mod BackupGate
mod Tests
