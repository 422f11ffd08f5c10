-- ===== src/Tests/Running.antt =====
-- A machine whose register follows after three seconds.
use minisforum_n5pro_fan_pro.Prelude.{
  ℕ, suc, List, ◌≤◌, Option, Bool, not, All, Any, ◌⊎◌, ◌≢◌, ◌==◌, ◌+◌, ◌≡◌, refl, true, false, none,
  some, [], ◌∷◌, arith, ltb, if◌then◌else◌,
}
use minisforum_n5pro_fan_pro.Runner.Env.{Env, Config, done, Readings}
use minisforum_n5pro_fan_pro.Runner.Settle.{
  ClockLaws, Means, wait_dcr, wait_dcr_meaning, wait_dcr-Ends, reached, Settled, Ends,
}
use minisforum_n5pro_fan_pro.Spec.Tables.{judged_regs, settle}
use minisforum_n5pro_fan_pro.Spec.Sample.{t1_step}
use minisforum_n5pro_fan_pro.Runner.State.{Run, set, new_runner, write, manual}
use minisforum_n5pro_fan_pro.Runner.Hold.{Held, slots, hold_from}
use minisforum_n5pro_fan_pro.Runner.Hold.Slots.{RisesTo, hold_from-Ends, hold_from-Complete}
use minisforum_n5pro_fan_pro.Runner.Restoring.{channels, close, unrestored, settle_hot}
use minisforum_n5pro_fan_pro.Runner.Restoring.HotWait.{Concludes, settle_hot-Concludes}
use minisforum_n5pro_fan_pro.Runner.Restoring.Homes.{Homes}
use minisforum_n5pro_fan_pro.Runner.Mapping.{AfterT1, run_t1}
use minisforum_n5pro_fan_pro.Runner.Handback.{AfterHandback, run_handback}
use minisforum_n5pro_fan_pro.Runner.Reached.{Reached, begun, written, in_manual}
use minisforum_n5pro_fan_pro.Runner.Reached.Mapping.{run_t1-Reached}
use minisforum_n5pro_fan_pro.Runner.Reached.Handback.{InRange, run_handback-Reached}
use minisforum_n5pro_fan_pro.Runner.Reached.Allowed.{Discipline}
use minisforum_n5pro_fan_pro.Runner.Reached.Orderly.{Reached-Allowed}
use minisforum_n5pro_fan_pro.Runner.Reached.Forgotten.{close-NoneForgotten}

abbrev pub no_readings : Readings
no_readings = record {
  fan = λ n. some 900;
  tctl = none;
  nvme_max = none;
  hdd_max = none;
  ec_cpu = none;
  ec_sys = none;
  ec_board = none;
  ec_amb = none;
  load1 = none;
}

-- The world is the clock.
abbrev slow : Env
slow = record {
  World = ℕ;
  now = λ w. w;
  sleep = λ d w. (w + d, true);
  enter_manual = λ ch w. (w, true);
  write_duty = λ ch d w. (w, true);
  auto = λ ch w. (w, true);
  restore = λ ch w. (w, done);
  dcr = λ w. (w, some (λ n. if ltb w 3_000 then 120 else 255));
  read = λ w. (w, no_readings);
  foreign = λ w. (w, false);
  before_write = λ w. (w, true);
  before_hot = λ ch w. (w, true);
}

slow_clock : ClockLaws slow
slow_clock = record { dcr_later = λ w. ground arith; sleep_lasts = λ d w e. ground arith }

wait_dcr-Ends_example :
    Ends slow slow_clock 0
      (1 ∷ [])
      255
      1_000
      10_000
      (wait_dcr slow 0 (1 ∷ []) 255 1_000 10_000 10_001 none 0 0)
wait_dcr-Ends_example =
    wait_dcr-Ends slow slow_clock 0 (1 ∷ []) 255 1_000 10_000 10_001 none 0 0 (ground arith)
      (ground arith) (ground arith) (ground arith)

abbrev settled_at_3 : Settled
settled_at_3 = record {
  dcr = some (λ n. if ltb 3_000 3_000 then 120 else 255);
  after = 3_000;
  ending = reached;
}

settles_at_3 : wait_dcr slow 0 (1 ∷ []) 255 1_000 10_000 20 none 0 0 ≡ some (3_000, settled_at_3)
unfolding wait_dcr
settles_at_3 = refl

wait_dcr_meaning_example : Means (1 ∷ []) 255 1_000 10_000 settled_at_3 reached
wait_dcr_meaning_example =
    wait_dcr_meaning slow 0 (1 ∷ []) 255 1_000 10_000 20 none 0 0 3_000 settled_at_3 settles_at_3

-- The clock, the channels that are not where a run may leave them, and the duties written so far.
pub record Desk : Type 0 where
  pub clock : ℕ
  pub away : ℕ → Bool
  pub duties : List ℕ

abbrev pub at_255 : ℕ → Bool
at_255 d = d == 255

abbrev pub desk : Env
desk = record {
  World = Desk;
  now = λ w. w.clock;
  sleep = λ d w. (record w { clock = w.clock + d }, true);
  enter_manual = λ ch w. (record w { away = set ch true w.away }, true);
  write_duty =
      λ ch d w. (record w { away = set ch (not (at_255 d)) w.away; duties = d ∷ w.duties }, true);
  auto = λ ch w. (record w { away = set ch true w.away }, true);
  restore = λ ch w. (record w { away = set ch false w.away }, done);
  dcr = λ w. (w, some (λ n. 255));
  read = λ w. (w, no_readings);
  foreign = λ w. (w, false);
  before_write = λ w. (w, true);
  before_hot = λ ch w. (w, true);
}

abbrev AtHome : ℕ → Desk → Type 0
AtHome ch w = w.away ch ≡ false

put_aside : (ch c : ℕ) (v : Bool) (m : ℕ → Bool) → c ≢ ch → m c ≡ false → set ch v m c ≡ false
unfolding set
put_aside ch c v m ne h = ground (arith, ne, h)

put_back : (ch : ℕ) (m : ℕ → Bool) → set ch false m ch ≡ false
unfolding set
put_back ch m = ground arith

desk_homes : Homes desk AtHome
desk_homes = record {
  sleep_keeps = λ d w c h. h;
  dcr_keeps = λ w c h. h;
  read_keeps = λ w c h. h;
  foreign_keeps = λ w c h. h;
  before_write_keeps = λ w c h. h;
  before_hot_keeps = λ ch w c h. h;
  manual_keeps = λ ch w c ne h. put_aside ch c true w.away ne h;
  write_keeps = λ ch d w c ne h. put_aside ch c (not (at_255 d)) w.away ne h;
  auto_keeps = λ ch w c ne h. put_aside ch c true w.away ne h;
  restore_keeps = λ ch w c ne h. put_aside ch c false w.away ne h;
  restored = λ ch w ne. put_back ch w.away;
  hot_set = λ ch w e f. put_back ch (set ch true w.away);
}

abbrev pub quiet_desk : Desk
quiet_desk = record { clock = 0; away = λ c. false; duties = [] }

abbrev test_pwm1 : Config
test_pwm1 = record {
  channel = 1;
  own_tach = 1;
  tachs = 1 ∷ [];
  hold = 60_000;
  sample = 5_000;
  observe = 180_000;
  pre = 300_000;
  window = 300_000;
  online_cpus = 8;
  repeat = 3;
}

-- Manual mode on pwm1, then the duty 140.
abbrev written_run : Run desk
written_run = (write desk 1 140 (manual desk 1 (new_runner desk quiet_desk)).0).0

written_run-reads : written_run.dcr_ok ≡ true
unfolding new_runner write manual
written_run-reads = refl

close-NoneForgotten_example :
    All
      (λ ch.
        AtHome ch (close desk written_run).world
        ⊎ Any (λ c. c ≡ ch) (unrestored desk (close desk written_run)))
      channels
close-NoneForgotten_example =
    close-NoneForgotten desk AtHome desk_homes test_pwm1 quiet_desk (λ c. refl) written_run
      (written 1 140 _ (in_manual 1 _ begun))

hold_from-Ends_example :
    (h : Held desk) × (hold_from desk test_pwm1 0 (t1_step 140) (some 140) 10_000 written_run
      ≡ some h)
hold_from-Ends_example = hold_from-Ends desk test_pwm1 0 (t1_step 140) (some 140) 10_000 written_run

abbrev or_cut : Option (Held desk) → Held desk
or_cut none = record { run = written_run; full = false; seen = [] }
or_cut (some h) = h

abbrev full_hold : Held desk
full_hold = or_cut (hold_from desk test_pwm1 0 (t1_step 140) (some 140) 10_000 written_run)

full_hold-ran :
    hold_from desk test_pwm1 0 (t1_step 140) (some 140) 10_000 written_run ≡ some full_hold
unfolding hold_from write manual new_runner
full_hold-ran = refl

full_hold-full : full_hold.full ≡ true
unfolding hold_from write manual new_runner
full_hold-full = refl

hold_from-Complete_example : RisesTo 0 (slots test_pwm1 10_000) full_hold.seen
hold_from-Complete_example =
    hold_from-Complete desk test_pwm1 0 (t1_step 140) (some 140) 10_000 written_run full_hold
      full_hold-ran full_hold-full

desk_clock : ClockLaws desk
desk_clock = record { dcr_later = λ w. ground arith; sleep_lasts = λ d w e. ground arith }

settle_hot-Concludes_example :
    (o : Desk × Settled) × (wait_dcr desk 0
        (judged_regs 1)
        255
        (settle 1)
        (settle 1)
        (suc (settle 1))
        none
        0
        written_run.world
      ≡ some o)
    × Concludes desk 1 written_run o.0 o.1 o.1.ending (settle_hot desk 1 0 written_run)
settle_hot-Concludes_example =
    settle_hot-Concludes desk desk_clock 1 0 written_run (ground arith) written_run-reads

abbrev InOrder : Bool → Desk → Type 0
InOrder b w = All (λ d. (100 ≤ d) × (d ≤ 255)) w.duties × (b ≡ false → w.duties ≡ [])

desk_discipline : Discipline desk InOrder
desk_discipline = record {
  sleep_keeps = λ b d w h. h;
  dcr_keeps = λ b w h. h;
  read_keeps = λ b w h. h;
  foreign_keeps = λ b w h. h;
  opens = λ w h. (h.0, λ e. cc);
  hot_keeps = λ ch w h. h;
  manual_keeps = λ ch w h. h;
  write_keeps = λ ch d w lo hi h. (((lo, hi), h.0), λ e. cc);
  auto_keeps = λ ch w h. h;
  restore_keeps = λ ch w h. h;
}

Reached-Allowed_example : InOrder written_run.wrote written_run.world
Reached-Allowed_example =
    Reached-Allowed desk InOrder desk_discipline test_pwm1 quiet_desk (tt, λ _. refl) written_run
      (written 1 140 _ (in_manual 1 _ begun))

run_t1-Reached_example :
    (o : AfterT1 desk test_pwm1) × (run_t1 desk test_pwm1 (new_runner desk quiet_desk) ≡ some o)
    × Reached desk test_pwm1 quiet_desk o.0
run_t1-Reached_example = run_t1-Reached desk test_pwm1 quiet_desk (new_runner desk quiet_desk) begun

run_handback-Reached_example :
    (o : AfterHandback desk test_pwm1) × (run_handback desk test_pwm1 (new_runner desk quiet_desk)
      ≡ some o)
    × (Reached desk test_pwm1 quiet_desk o.0 × InRange desk test_pwm1 quiet_desk o.1)
run_handback-Reached_example =
    run_handback-Reached desk test_pwm1 quiet_desk (new_runner desk quiet_desk) begun
