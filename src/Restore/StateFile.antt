-- ===== src/Restore/StateFile.antt =====
-- ectest/cmd/n5-ectest/guardian.go: the state file and `restoreFromState`. The file as JSON and the way it is
-- written are a parameter; the lines are values that carry what the source formats.
use minisforum_n5pro_fan_pro.Prelude.{
  ℕ, Bool, true, false, ◌&&◌, ◌||◌, not, Option, none, some, List, [], ◌∷◌, ◌++◌, ℤ, pos, pos_part,
  ltb_ℤ, ◌==◌, Text, text_eq, atoi, itoa, if◌then◌else◌,
}
use minisforum_n5pro_fan_pro.Spec.Tables.{pcie_channel}
use minisforum_n5pro_fan_pro.Writer.Device.{Device}
use minisforum_n5pro_fan_pro.Writer.Defs.{
  Kernel, Attempt, Outcome, ok, panics, error, restore_to, min_duty,
}
use minisforum_n5pro_fan_pro.Restore.Values.{auto_text, pcie_restore, sort_ints}

-- The `state` field; any other text counts as open, like `active`.
pub data RunState : Type 0 where
  active restored discarded : RunState

pub record StateFile : Type 0 where
  pub state : RunState
  pub device : Device
  pub channels : List (Text × Text)

-- `stateOpen`.
unfoldable pub state_open : StateFile → Bool
state_open st = elim st.state [ active ↦ true | restored ↦ false | discarded ↦ false ]

-- The value of a key, "" when it is missing.
unfoldable pub channel_value : Text → List (Text × Text) → Text
unfolding text_eq
channel_value k [] = []
channel_value k ((j, v) ∷ m) = if text_eq j k then v else channel_value k m

-- `checkRestoreValue`.
abbrev pub duty_ok : Option ℤ → Bool
duty_ok none = false
duty_ok (some d) = not (ltb_ℤ (pos 255) d) && not (ltb_ℤ d min_duty)

unfoldable pub check_restore_value : Text → Bool
unfolding text_eq atoi
check_restore_value v = if text_eq v auto_text then true else duty_ok (atoi v)

pub data Line : Type 0 where
  invalid_channel : Text → Line
  replaced : Text → Line
  refused : ℕ → Text → Line
  write_failed : ℕ → Text → Outcome → Line
  restored_line : ℕ → Text → Line
  not_saved : Line

-- A key of the state file as a channel 1..4.
abbrev pub key_number : Option ℤ → Option ℕ
key_number none = none
key_number (some c) = if ltb_ℤ c (pos 1) || ltb_ℤ (pos 4) c then none else some (pos_part c)

unfoldable pub key_channel : Text → Option ℕ
unfolding atoi
key_channel k = key_number (atoi k)

abbrev pub add_channel : Option ℕ → List ℕ → List ℕ
add_channel none chs = chs
add_channel (some c) chs = c ∷ chs

unfoldable pub channels_of : List (Text × Text) → List ℕ
unfolding key_channel
channels_of [] = []
channels_of ((k, v) ∷ m) = add_channel (key_channel k) (channels_of m)

abbrev pub bad_line : Text → Option ℕ → List Line → List Line
bad_line k none ls = invalid_channel k ∷ ls
bad_line k (some c) ls = ls

unfoldable pub bad_keys : List (Text × Text) → List Line
unfolding key_channel
bad_keys [] = []
bad_keys ((k, v) ∷ m) = bad_line k (key_channel k) (bad_keys m)

-- The value that a channel is restored to: 255 on pwm4, whatever the file says.
unfoldable pub value_for : StateFile → ℕ → Text
unfolding channel_value itoa
value_for st ch = if ch == pcie_channel then pcie_restore else channel_value (itoa ch) st.channels

unfoldable pub replacement : StateFile → ℕ → List Line
unfolding channel_value itoa text_eq
replacement st ch =
    let val = channel_value (itoa ch) st.channels in
    if ch == pcie_channel && not (text_eq val pcie_restore) then replaced val ∷ [] else []

abbrev pub no_lines : List Line → Bool
no_lines [] = true
no_lines (l ∷ ls) = false

module _ (k : Kernel) where
  open k use {World}

  -- The result of the loop over the channels.
  pub record Recovery : Type 0 where
    pub lines : List Line
    pub fine : Bool
    pub world : World
    pub log : List Attempt

  -- A panic of the writer, which no channel 1..4 gives, ends the process in the source; it is listed here.
  abbrev pub after_write : ℕ → Text → Outcome × World × List Attempt → Recovery
  after_write ch v (ok, w, log) = record {
    lines = restored_line ch v ∷ [];
    fine = true;
    world = w;
    log = log;
  }
  after_write ch v (error e, w, log) = record {
    lines = write_failed ch v (error e) ∷ [];
    fine = false;
    world = w;
    log = log;
  }
  after_write ch v (panics, w, log) = record {
    lines = write_failed ch v panics ∷ [];
    fine = false;
    world = w;
    log = log;
  }

  unfoldable pub recover_channel : StateFile → ℕ → World → List Attempt → Recovery
  unfolding restore_to check_restore_value value_for
  recover_channel st ch w log =
      let v = value_for st ch in
      if check_restore_value v
      then after_write ch v (restore_to k st.device ch v w log)
      else record { lines = refused ch v ∷ []; fine = false; world = w; log = log }

  unfoldable pub recover_channels : StateFile → List ℕ → World → List Attempt → Recovery
  unfolding recover_channel replacement
  recover_channels st [] w log = record { lines = []; fine = true; world = w; log = log }
  recover_channels st (ch ∷ chs) w log =
      let r = recover_channel st ch w log in
      let rest = recover_channels st chs r.world r.log in
      record {
        lines = replacement st ch ++ (r.lines ++ rest.lines);
        fine = r.fine && rest.fine;
        world = rest.world;
        log = rest.log;
      }

  module _ (save : StateFile → World → World × Bool) where
    -- The state file marked restored; a failure to write it is a line only.
    abbrev pub save_restored : StateFile → Recovery → Recovery
    save_restored st r =
        let (w, written) = save (record st { state = restored }) r.world in
        record r { world = w; lines = if written then r.lines else r.lines ++ (not_saved ∷ []) }

    -- `restoreFromState`; `path` is whether a state file path was given.
    unfoldable pub restore_from_state : Bool → StateFile → World → List Attempt → Recovery
    unfolding recover_channels channels_of bad_keys sort_ints
    restore_from_state path st w log =
        let bad = bad_keys st.channels in
        let r = recover_channels st (sort_ints (channels_of st.channels)) w log in
        let fine = no_lines bad && r.fine in
        let result = record r { lines = bad ++ r.lines; fine = fine } in
        if fine && path then save_restored st result else result
