-- ===== src/Tests/Bundles.antt =====
-- Results of a bundle, and dumps of the driver.
use minisforum_n5pro_fan_pro.Prelude.{
  ℕ, ◌≡◌, ◌≢◌, refl, ◌↔◌, true, none, some, List, [], ◌∷◌, codes, All, arith, length, replicate,
}
use minisforum_n5pro_fan_pro.Spec.Verdict.{Verdict, pass, fail}
use minisforum_n5pro_fan_pro.Spec.Sample.{high, middle}
use minisforum_n5pro_fan_pro.Spec.Tables.{judged_regs}
use minisforum_n5pro_fan_pro.Spec.Aggregate.Defs.{RunResult}
use minisforum_n5pro_fan_pro.Runner.State.{t2_auto, t2_complete}
use minisforum_n5pro_fan_pro.Runner.Results.{HandbackOutcome}
use minisforum_n5pro_fan_pro.Report.Compare.{Tested, find_test, has_test, compare_tests}
use minisforum_n5pro_fan_pro.Report.Compare.Agreement.{SameTest, compare_tests-none}
use minisforum_n5pro_fan_pro.Report.Lines.{Line}
use minisforum_n5pro_fan_pro.Report.Rebuild.{SubRun, recompute_t2}
use minisforum_n5pro_fan_pro.Report.Rebuild.Panics.{
  Numbered, recompute_t2-Total, recompute_t2-panics,
}
use minisforum_n5pro_fan_pro.Driver.Dump.{ok, parse_dcr, dcr_string}
use minisforum_n5pro_fan_pro.Driver.Dump.RoundTrip.{parse_dcr-dcr_string}

abbrev first_run : Verdict → RunResult
first_run v = record { run = 1; verdict = v; reason = none; subs = [] }

abbrev tested_t2 : Verdict → Tested
tested_t2 v = record { id = codes "T2"; verdict = v; runs = first_run v ∷ [] }

compare_tests-none_example : (compare_tests (tested_t2 pass ∷ []) (tested_t2 fail ∷ []) ≡ []) ↔ (
    All (λ t. SameTest (find_test t.id (tested_t2 pass ∷ [])) t) (tested_t2 fail ∷ [])
    × All (λ s. has_test s.id (tested_t2 fail ∷ []) ≡ true) (tested_t2 pass ∷ []))
compare_tests-none_example = compare_tests-none (tested_t2 pass ∷ []) (tested_t2 fail ∷ [])

-- A T2 test that passes while the stored one fails shows twice, in the test and in its repetition.
two_mismatches : length (compare_tests (tested_t2 pass ∷ []) (tested_t2 fail ∷ [])) ≡ 2
unfolding compare_tests
two_mismatches = refl

abbrev lines : List Line
lines =
    record { ts = some 1_000; event = t2_auto 1 high }
    ∷ record { ts = some 2_000; event = t2_auto 1 middle }
    ∷ record { ts = some 3_000; event = t2_complete }
    ∷ []

lines-Numbered : All (λ l. Numbered l.event) lines
lines-Numbered = ((λ e. cc), ((λ e. cc), (tt, tt)))

pwm3_judged : judged_regs 3 ≢ []
unfolding judged_regs
pwm3_judged = λ e. cc

recompute_t2-Total_example :
    (o : HandbackOutcome × List SubRun) × (recompute_t2 3 none [] lines ≡ some o)
recompute_t2-Total_example = recompute_t2-Total 3 none [] lines lines-Numbered pwm3_judged

recompute_t2-panics_example : recompute_t2 0 none [] lines ≡ none
recompute_t2-panics_example =
    recompute_t2-panics 0 none [] lines ((λ e. cc), (λ e. cc), (λ e. cc), (λ e. cc))

abbrev registers : List ℕ
registers = 0 ∷ 255 ∷ 0 ∷ 85 ∷ 74 ∷ 87 ∷ 87 ∷ 140 ∷ replicate 8 0

parse_dcr-dcr_string_example : parse_dcr (dcr_string registers) ≡ ok registers
parse_dcr-dcr_string_example = parse_dcr-dcr_string registers refl (omega arith)
