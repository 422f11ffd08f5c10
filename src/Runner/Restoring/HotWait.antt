-- ===== src/Runner/Restoring/HotWait.antt =====
-- What the restore after a temperature abort makes of its wait.
use minisforum_n5pro_fan_pro.Prelude.{
  ℕ, suc, ◌≤◌, ◌≡◌, refl, sym, some, none, true, [], ◌∷◌, ◌++◌, All, split-if, arith,
}
use mathlib.Core.Path.{subst}
use minisforum_n5pro_fan_pro.Spec.Tables.{settle, judged_regs}
use minisforum_n5pro_fan_pro.Runner.Env.{Env, Dcr}
use minisforum_n5pro_fan_pro.Runner.Settle.{
  ClockLaws, Settled, Ending, reached, timed_out, cancelled, unavailable, Means, wait_dcr,
  wait_dcr-Ends, wait_dcr_meaning,
}
use minisforum_n5pro_fan_pro.Runner.State.{Run, hot_restored, hot_differs, log_event}
use minisforum_n5pro_fan_pro.Runner.Restoring.{settle_hot, after_wait, compared}

module _ (env : Env) (ch : ℕ) (r : Run env) where
  open env use {World}

  -- The run `q` says nothing against the restore, or warns of it; its clock and its machine are those after the wait.
  abbrev pub SaysFine : World → Run env → Type 0
  SaysFine w q =
      (q.warnings ≡ r.warnings)
      × (q.events ≡ (log_event env (hot_restored ch) (record r { world = w })).events)

  abbrev pub Warns : World → Run env → Type 0
  Warns w q =
      (q.warnings ≡ r.warnings ++ (ch ∷ []))
      × (q.events ≡ (log_event env (hot_differs ch) (record r { world = w })).events)

  -- How a run ends the wait, by the ending.
  abbrev pub Concludes : World → Settled → Ending → Run env → Type 0
  Concludes w s reached q =
      SaysFine w q × ((d : Dcr) × (s.dcr ≡ some d) × All (λ n. d n ≡ 255) (judged_regs ch))
  Concludes w s timed_out q = Warns w q × (settle ch ≤ s.after)
  Concludes w s cancelled q = Warns w q
  Concludes w s unavailable q = SaysFine w q × (s.dcr ≡ none)

  compared-Concludes :
      (w : World) (s : Settled) (e : Ending)
      → Means (judged_regs ch) 255 (settle ch) (settle ch) s e
      → Concludes w s e (compared env ch e (record r { world = w }))
  compared-Concludes w s reached m = ((refl, refl), m.1)
  compared-Concludes w s timed_out m = ((refl, refl), m.0)
  compared-Concludes w s cancelled m = (refl, refl)
  compared-Concludes w s unavailable m = ((refl, refl), m.0)

-- After 255 was written, with registers that are readable, a clock that does not run backwards, sleeps that last and a
-- write that is not stamped later than now: the wait for the judged registers at 255, within the settle time, ends with
-- a machine and a result. When the last reading has every
-- judged register of the channel at 255, and when no reading was made, the run logs that the channel is restored and
-- warns of nothing more; when the settle time has passed without that, and when the wait was cut, it logs that the
-- registers differ and adds the channel to its warnings.
pub settle_hot-Concludes :
    (env : Env) (clock : ClockLaws env) (ch t0 : ℕ) (r : Run env)
    → t0 ≤ env.now r.world
    → r.dcr_ok ≡ true
    → (o : env.World × Settled) × (wait_dcr env t0
          (judged_regs ch)
          255
          (settle ch)
          (settle ch)
          (suc (settle ch))
          none
          0
          r.world
        ≡ some o)
      × Concludes env ch r o.0 o.1 o.1.ending (settle_hot env ch t0 r)
unfolding settle_hot
settle_hot-Concludes env clock ch t0 r early ok =
    let ((w, s), e) =
      wait_dcr-Ends env clock t0 (judged_regs ch) 255 (settle ch) (settle ch) (suc (settle ch)) none
        0 r.world early (omega arith) (omega arith) (omega arith) in
    let meant =
      wait_dcr_meaning env t0 (judged_regs ch) 255 (settle ch) (settle ch) (suc (settle ch)) none 0
        r.world w s e in
    (
      (w, s),
      e,
      split-if (λ q. Concludes env ch r w s s.ending q) r.dcr_ok _ _
          (λ _.
            subst (λ x. Concludes env ch r w s s.ending (after_wait env ch r x)) (sym e)
              (compared-Concludes env ch r w s s.ending meant))
          (λ bad. cc),
    )
