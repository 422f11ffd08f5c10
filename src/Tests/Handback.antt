-- ===== src/Tests/Handback.antt =====
-- Sub-runs of the hand-back test: one in which the register leaves the written duty and settles, one in which it
-- never moves.
use minisforum_n5pro_fan_pro.Prelude.{
  ℕ, ◌≡◌, ◌⊎◌, refl, inl, inr, true, none, some, [], ◌∷◌, Any, All, arith,
}
use minisforum_n5pro_fan_pro.Spec.Verdict.{pass, fail}
use minisforum_n5pro_fan_pro.Spec.Sample.{high}
use minisforum_n5pro_fan_pro.Spec.Handback.Defs.{DcrSample, HandbackRun, eval_handback, limit_of}
use minisforum_n5pro_fan_pro.Spec.Handback.Leaving.{t2-pass}
use minisforum_n5pro_fan_pro.Spec.Handback.Holding.{t2-fail}
use minisforum_n5pro_fan_pro.Spec.Handback.Steady.{
  AgreesAfter, InTime, t3-pass_sound, t3-pass_complete, t3_decided,
}
use minisforum_n5pro_fan_pro.Spec.Registers.{eval_regs}
use minisforum_n5pro_fan_pro.Spec.Registers.Agreement.{regs_decided}
use minisforum_n5pro_fan_pro.Spec.Aggregate.Defs.{Sub, sub2, aggregate}
use minisforum_n5pro_fan_pro.Spec.Aggregate.Runs.{Unanimous, aggregate_decided}

abbrev at_time : ℕ → ℕ → DcrSample
at_time t d = record { t = t; dcr = d }

abbrev leaving : HandbackRun
leaving = record {
  label = high;
  reg = some 1;
  written = 255;
  samples =
      at_time 5_000 200
      ∷ at_time 0 255
      ∷ at_time 10_000 120
      ∷ at_time 130_000 121
      ∷ at_time 300_000 120
      ∷ [];
  timing_known = true;
  auto = 120;
  auto_known = true;
  limit_s = 180;
  crossed = none;
}

abbrev holding : HandbackRun
holding = record {
  label = high;
  reg = some 1;
  written = 255;
  samples = at_time 0 255 ∷ at_time 60_000 254 ∷ at_time 300_000 255 ∷ [];
  timing_known = true;
  auto = 120;
  auto_known = true;
  limit_s = 180;
  crossed = none;
}

leaving-t2 : (eval_handback leaving).t2 ≡ pass
unfolding eval_handback
leaving-t2 = refl

t2-pass_example : (eval_handback leaving).t2 ≡ pass
t2-pass_example = (t2-pass leaving).1 (refl, refl, ground arith, ground arith)

t2-fail_example : (eval_handback holding).t2 ≡ fail
t2-fail_example =
    (t2-fail holding).1 (refl, refl, ground arith, ground arith, unfold limit_of in ground arith)

leaving-t3 : (eval_handback leaving).t3 ≡ pass
unfolding eval_handback
leaving-t3 = refl

t3-pass_sound_example :
    (leaving.timing_known ≡ true)
    × (leaving.crossed ≡ none)
    × Any
        (λ x. All (AgreesAfter x) leaving.samples × InTime (limit_of leaving) leaving.samples x)
        leaving.samples
t3-pass_sound_example = t3-pass_sound leaving leaving-t3

t3-pass_complete_example : (eval_handback leaving).t3 ≡ pass
t3-pass_complete_example = t3-pass_complete leaving refl refl (
    inr (
      inr (
        inl (
          (ground arith, (ground arith, (ground arith, (ground arith, (ground arith, tt))))),
          unfold limit_of in ground arith,
        ))))

t3_decided_example : ((eval_handback holding).t3 ≡ pass) ⊎ ((eval_handback holding).t3 ≡ fail)
t3_decided_example = t3_decided holding refl refl (unfold limit_of in ground arith)

left_sub-t2 : (eval_regs (leaving ∷ [])).t2 ≡ pass
unfolding eval_regs
left_sub-t2 = leaving-t2

regs_decided_example : (eval_regs (leaving ∷ leaving ∷ [])).t2 ≡ pass
regs_decided_example =
    (regs_decided pass (inl refl) (leaving ∷ leaving ∷ [])).0.1
      ((λ e. cc), (leaving-t2, (leaving-t2, tt)))

abbrev left_sub : Sub
left_sub = record { label = high; result = eval_regs (leaving ∷ []) }

unanimous : Unanimous sub2 (high ∷ []) pass (left_sub ∷ [])
unanimous = ((λ e. cc), (left_sub-t2, tt), (inl refl, tt))

aggregate_decided_example :
    (aggregate 1 ((left_sub ∷ []) ∷ (left_sub ∷ []) ∷ (left_sub ∷ []) ∷ []) (high ∷ [])).0.verdict
    ≡ pass
aggregate_decided_example =
    (aggregate_decided pass (inl refl) 1 ((left_sub ∷ []) ∷ (left_sub ∷ []) ∷ (left_sub ∷ []) ∷ [])
        (high ∷ [])).0.1
      (ground arith, (unanimous, (unanimous, (unanimous, tt))))
