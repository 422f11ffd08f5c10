-- ===== src/Runner/Reached/Forgotten.antt =====
-- Which channels `Close` leaves behind after any sequence of operations.
use minisforum_n5pro_fan_pro.Prelude.{ℕ, ◌≡◌, ◌⊎◌, false, All, Any}
use minisforum_n5pro_fan_pro.Runner.Env.{Env, Config}
use minisforum_n5pro_fan_pro.Runner.State.{Run, new_runner}
use minisforum_n5pro_fan_pro.Runner.Restoring.{channels, close, unrestored}
use minisforum_n5pro_fan_pro.Runner.Restoring.Homes.{Homes}
use minisforum_n5pro_fan_pro.Runner.Restoring.Covered.{
  Covered, write-Covered, manual-Covered, send_auto-Covered, close-Covered, close-Listed,
  give_back-Covered,
}
use minisforum_n5pro_fan_pro.Runner.Kept.{
  Property, Outlasts, sample_at-Kept, hold_from-Kept, stop-Kept,
}
use minisforum_n5pro_fan_pro.Runner.Reached.{
  Reached, begun, written, in_manual, handed_back, sampled, held, stopped, closed, logged,
  given_back, limits_seen,
}

module _ (env : Env) (Home : ℕ → env.World → Type 0) (laws : Homes env Home) (cfg : Config) where
  open env use {World}
  open laws use {sleep_keeps, dcr_keeps, read_keeps, foreign_keeps}

  abbrev Fine : Run env → Type 0
  Fine r = Covered env Home laws r

  abbrev Left : Property env
  Left w t wrote = (c : ℕ) → t c ≡ false → Home c w

  outlasts : Outlasts env Left
  outlasts = record {
    sleep_keeps = λ d w t wrote h c u. sleep_keeps d w c (h c u);
    dcr_keeps = λ w t wrote h c u. dcr_keeps w c (h c u);
    read_keeps = λ w t wrote h c u. read_keeps w c (h c u);
    foreign_keeps = λ w t wrote h c u. foreign_keeps w c (h c u);
  }

  module _ (w : World) (start : (c : ℕ) → Home c w) where
    Reached-Covered : (r : Run env) → Reached env cfg w r → Fine r
    unfolding new_runner
    Reached-Covered r begun = λ c u. dcr_keeps w c (start c)
    Reached-Covered r (written ch duty q s) =
        write-Covered env Home laws ch duty q (Reached-Covered q s)
    Reached-Covered r (in_manual ch q s) = manual-Covered env Home laws ch q (Reached-Covered q s)
    Reached-Covered r (handed_back ch q s) =
        send_auto-Covered env Home laws ch q (Reached-Covered q s)
    Reached-Covered r (sampled phase duty due q s) =
        sample_at-Kept env Left outlasts cfg phase duty due q (Reached-Covered q s)
    Reached-Covered r (held anchor phase duty d q h s e) =
        hold_from-Kept env Left outlasts cfg anchor phase duty d q h (Reached-Covered q s) e
    Reached-Covered r (stopped why q s) =
        stop-Kept env Left outlasts cfg why q (Reached-Covered q s)
    Reached-Covered r (closed q s) = close-Covered env Home laws q (Reached-Covered q s)
    Reached-Covered r (logged e q s) = Reached-Covered q s
    Reached-Covered r (given_back ch q s away) =
        give_back-Covered env Home laws ch q away (Reached-Covered q s)
    Reached-Covered r (limits_seen seen q s) = Reached-Covered q s

    -- Let `Home` be any property of a channel and the machine that obeys the laws `Homes`. When every channel is
    -- home at the start of a run, then after any sequence of writes, manual commands, automatic commands, samples,
    -- holds, stops, closes, log entries and restores of touched channels, and a final `Close`, each of the channels 1..4 is home or stands in the list of the
    -- channels that could not be restored.
    pub close-NoneForgotten :
        (r : Run env)
        → Reached env cfg w r
        → All
            (λ ch. Home ch (close env r).world ⊎ Any (λ c. c ≡ ch) (unrestored env (close env r)))
            channels
    close-NoneForgotten r s = close-Listed env Home laws r (Reached-Covered r s)
