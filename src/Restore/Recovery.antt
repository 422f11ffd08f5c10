-- ===== src/Restore/Recovery.antt =====
-- What a restore from the state file does to the channels.
use minisforum_n5pro_fan_pro.Prelude.{
  ℕ, ◌≡◌, refl, sym, ◌∙◌, inl, inr, Bool, true, ◌&&◌, List, [], ◌∷◌, All, and_left, and_right,
  arith, Bool-cases, Text,
}
use minisforum_n5pro_fan_pro.Writer.Defs.{Kernel, Attempt, Outcome, ok, panics, error, restore_to}
use minisforum_n5pro_fan_pro.Writer.Safety.{SafeAttempt, restore_to-IsSafe}
use minisforum_n5pro_fan_pro.Writer.Effect.{Restored, restore_to-Restored}
use minisforum_n5pro_fan_pro.Restore.Values.{pcie_restore, sort_ints}
use minisforum_n5pro_fan_pro.Restore.StateFile.{
  StateFile, Line, recover_channel, recover_channels, restore_from_state, check_restore_value,
  value_for, channels_of, bad_keys, after_write, no_lines,
}

module _ (k : Kernel) where
  open k use {World}

  after_write-log :
      (ch : ℕ) (v : Text) (r : Outcome × World × List Attempt) → (after_write k ch v r).log ≡ r.2
  after_write-log ch v (ok, w, log) = refl
  after_write-log ch v (error e, w, log) = refl
  after_write-log ch v (panics, w, log) = refl

  after_write-fine :
      (ch : ℕ) (v : Text) (r : Outcome × World × List Attempt)
      → (after_write k ch v r).fine ≡ true
      → r.0 ≡ ok
  after_write-fine ch v (ok, w, log) h = refl
  after_write-fine ch v (error e, w, log) h = cc
  after_write-fine ch v (panics, w, log) h = cc

  module _ (st : StateFile) where
    recover_channel-IsSafe :
        (ch : ℕ) (w : World) (log : List Attempt)
        → All (SafeAttempt st.device) log
        → All (SafeAttempt st.device) (recover_channel k st ch w log).log
    unfolding recover_channel
    recover_channel-IsSafe ch w log h = elim (Bool-cases (check_restore_value (value_for st ch))) [
      | inl e ↦
          rw
            (
              e,
              after_write-log ch (value_for st ch)
                  (restore_to k st.device ch (value_for st ch) w log),
            )
            (restore_to-IsSafe k st.device ch (value_for st ch) w log h)
      | inr e ↦ rw e h
    ]

    recover_channels-IsSafe :
        (chs : List ℕ) (w : World) (log : List Attempt)
        → All (SafeAttempt st.device) log
        → All (SafeAttempt st.device) (recover_channels k st chs w log).log
    unfolding recover_channels
    recover_channels-IsSafe [] w log h = h
    recover_channels-IsSafe (c ∷ cs) w log h =
        let r = recover_channel k st c w log in
        recover_channels-IsSafe cs r.world r.log (recover_channel-IsSafe c w log h)

    -- The calls in `log'` after `log` restore the channels of the list one after the other.
    abbrev pub RestoredAll : List ℕ → List Attempt → List Attempt → Type 0
    RestoredAll [] log log' = log' ≡ log
    RestoredAll (c ∷ cs) log log' =
        (mid : List Attempt) × Restored k st.device c (value_for st c) log mid
        × RestoredAll cs mid log'

    recover_channel-Restored :
        (ch : ℕ) (w : World) (log : List Attempt)
        → (recover_channel k st ch w log).fine ≡ true
        → Restored k st.device ch (value_for st ch) log (recover_channel k st ch w log).log
    unfolding recover_channel
    recover_channel-Restored ch w log h =
        elim (Bool-cases (check_restore_value (value_for st ch))) [
          | inl e ↦
              let r = restore_to k st.device ch (value_for st ch) w log in
              rw (e, after_write-log ch (value_for st ch) r)
                (restore_to-Restored k st.device ch (value_for st ch) w log
                  (after_write-fine ch (value_for st ch) r (rw e at h)))
          | inr e ↦ absurd (ground arith)
        ]

    recover_channels-RestoredAll :
        (chs : List ℕ) (w : World) (log : List Attempt)
        → (recover_channels k st chs w log).fine ≡ true
        → RestoredAll chs log (recover_channels k st chs w log).log
    unfolding recover_channels
    recover_channels-RestoredAll [] w log h = refl
    recover_channels-RestoredAll (c ∷ cs) w log h =
        let r = recover_channel k st c w log in
        (
          r.log,
          recover_channel-Restored c w log (and_left _ _ h),
          recover_channels-RestoredAll cs r.world r.log (and_right _ _ h),
        )

    no_lines-eq : (ls : List Line) → no_lines ls ≡ true → ls ≡ []
    no_lines-eq [] h = refl
    no_lines-eq (l ∷ ls) h = cc

    value_for-pcie : value_for st 4 ≡ pcie_restore
    unfolding value_for
    value_for-pcie = refl

    module _ (save : StateFile → World → World × Bool) where
      -- The marking of the state file changes neither the calls nor the result.
      restore_from_state_lem :
          (path : Bool) (w : World) (log : List Attempt)
          → let r = recover_channels k st (sort_ints (channels_of st.channels)) w log in
            let all = restore_from_state k save path st w log in
            (all.log ≡ r.log) × (all.fine ≡ (no_lines (bad_keys st.channels) && r.fine))
      unfolding restore_from_state
      restore_from_state_lem path w log =
          elim (Bool-cases (
            (no_lines (bad_keys st.channels)
              && (recover_channels k st (sort_ints (channels_of st.channels)) w log).fine)
            && path)) [ inl e ↦ rw e (refl, refl) | inr e ↦ rw e (refl, refl) ]

      -- A restore from the state file, whatever the file holds, writes only to the channels 1..4 of the device
      -- named in the file, and only duties in 100..255 and the enable values 1 and 2, if that holds of the calls
      -- before it.
      pub restore_from_state-IsSafe :
          (path : Bool) (w : World) (log : List Attempt)
          → All (SafeAttempt st.device) log
          → All (SafeAttempt st.device) (restore_from_state k save path st w log).log
      restore_from_state-IsSafe path w log h =
          rw ((restore_from_state_lem path w log).0)
            (recover_channels-IsSafe (sort_ints (channels_of st.channels)) w log h)

      -- A restore from the state file that reports success has found every key of the file to be a channel 1..4,
      -- and has restored these channels one after the other, each to its value in the file but pwm4 to 255,
      -- with no other system call.
      pub restore_from_state_complete :
          (path : Bool) (w : World) (log : List Attempt)
          → (restore_from_state k save path st w log).fine ≡ true
          → (bad_keys st.channels ≡ [])
            × RestoredAll
                (sort_ints (channels_of st.channels))
                log
                (restore_from_state k save path st w log).log
            × (value_for st 4 ≡ pcie_restore)
      restore_from_state_complete path w log h =
          let (same_log, same_fine) = restore_from_state_lem path w log in
          let fine = sym same_fine ∙ h in
          (
            no_lines-eq (bad_keys st.channels) (and_left _ _ fine),
            rw same_log (
                recover_channels-RestoredAll (sort_ints (channels_of st.channels)) w log
                  (and_right _ _ fine)),
            value_for-pcie,
          )
