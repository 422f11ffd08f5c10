-- ===== src/Restore/Values.antt =====
-- ectest/internal/runner/restorevals.go. The configuration file of n5-fangov is what the TOML library makes
-- of it; a Go map from channels to texts is a function, in which a missing key is the empty text.
use minisforum_n5pro_fan_pro.Prelude.{
  ℕ, Bool, ◌&&◌, ◌||◌, not, Option, none, some, List, [], ◌∷◌, ◌++◌, ℤ, pos, pos_part, leb_ℤ, ltb_ℤ,
  leb, ◌==◌, Text, codes, text_eq, atoi, itoa, trim_space, cut, strip_prefix, if◌then◌else◌,
}
use minisforum_n5pro_fan_pro.Spec.Tables.{pcie_channel}
use minisforum_n5pro_fan_pro.Writer.Defs.{min_duty}

abbrev pub auto_text : Text
auto_text = codes "auto"

abbrev pub pcie_restore : Text
pcie_restore = codes "255"

pub data ArgError : Type 0 where
  no_equals bad_channel pcie_fixed bad_value below_minimum : ArgError

pub data Parsed : Type 0 where
  parsed : ℕ → Text → Parsed
  refused : ArgError → Parsed

-- The value of a channel 1..4 that has been read.
unfoldable pub parse_duty : ℕ → Option ℤ → Parsed
unfolding itoa
parse_duty ch none = refused bad_value
parse_duty ch (some d) =
    if ltb_ℤ (pos 255) d
    then refused bad_value
    else if ltb_ℤ d min_duty
    then refused below_minimum
    else parsed ch (itoa (pos_part d))

unfoldable pub parse_value : ℕ → Text → Parsed
unfolding parse_duty atoi text_eq
parse_value ch v =
    if ch == pcie_channel && not (text_eq v pcie_restore)
    then refused pcie_fixed
    else if text_eq v auto_text
    then parsed ch v
    else parse_duty ch (atoi v)

abbrev pub number_of : Option Text → Option ℤ
number_of none = none
number_of (some s) = atoi s

unfoldable pub parse_channel : Option ℤ → Text → Parsed
unfolding parse_value
parse_channel none v = refused bad_channel
parse_channel (some c) v =
    if ltb_ℤ c (pos 1) || ltb_ℤ (pos 4) c then refused bad_channel else parse_value (pos_part c) v

-- `ParseRestoreArg`: "pwmN=auto|D".
unfoldable pub parse_restore_arg : Text → Parsed
unfolding parse_channel atoi trim_space cut strip_prefix
parse_restore_arg s = elim (cut b'=' (trim_space s)) [
  | none ↦ refused no_equals
  | some (k, v) ↦ parse_channel (number_of (strip_prefix (codes "pwm") k)) v
]

-- A [[channel]] table of the configuration.
pub record FangovChannel : Type 0 where
  pub pwm : ℤ
  pub stop : Text

pub data ConfigFile : Type 0 where
  absent unreadable undecodable : ConfigFile
  decoded : List FangovChannel → ConfigFile

pub data Source : Type 0 where
  argument config builtin default fixed_pcie : Source

pub data Warning : Type 0 where
  config_unreadable : Warning
  hdd_auto_replaced : Warning
  not_a_duty : ℕ → Text → Warning
  raised : ℕ → ℤ → Warning

unfoldable pub fangov_builtin : ℕ → Text
fangov_builtin ch = if ch == 3 then codes "140" else if leb 1 ch && leb ch 4 then auto_text else []

abbrev pub put : ℕ → Text → (ℕ → Text) → ℕ → Text
put ch v m c = if c == ch then v else m c

abbrev in_channels : ℤ → Bool
in_channels c = leb_ℤ (pos 1) c && leb_ℤ c (pos 4)

-- The stop value as n5-fangov reads it.
unfoldable pub stop_value : FangovChannel → Text
unfolding trim_space text_eq fangov_builtin
stop_value c =
    let stop = trim_space c.stop in
    let named = if text_eq stop [] then auto_text else stop in
    if pos_part c.pwm == 3 && text_eq named auto_text then fangov_builtin 3 else named

unfoldable pub read_channels : (ℕ → Text) → List FangovChannel → ℕ → Text
unfolding stop_value
read_channels m [] = m
read_channels m (c ∷ cs) =
    read_channels (if in_channels c.pwm then put (pos_part c.pwm) (stop_value c) m else m) cs

-- The stop values in force with their source; `none` without a configuration.
unfoldable pub stop_values : ConfigFile → Option ((ℕ → Text) × Source)
unfolding read_channels fangov_builtin
stop_values absent = none
stop_values unreadable = some (fangov_builtin, builtin)
stop_values undecodable = some (fangov_builtin, builtin)
stop_values (decoded cs) = some (read_channels fangov_builtin cs, config)

-- The value of a channel before it is checked, with its source.
unfoldable pub chosen : (ℕ → Text) → Option ((ℕ → Text) × Source) → ℕ → Text × Source
unfolding text_eq
chosen args cfg ch = if not (text_eq (args ch) []) then (args ch, argument) else elim cfg [
  | some (stop, source) ↦
      if ch == pcie_channel then (pcie_restore, fixed_pcie) else (stop ch, source)
  | none ↦ (if ch == pcie_channel then pcie_restore else auto_text, default)
]

-- The check of a value that is not "auto".
unfoldable pub checked_duty : Option ℤ → Text
unfolding itoa
checked_duty none = auto_text
checked_duty (some d) =
    if ltb_ℤ (pos 255) d
    then auto_text
    else if ltb_ℤ d min_duty
    then itoa (pos_part min_duty)
    else itoa (pos_part d)

unfoldable pub checked : Text → Text
unfolding checked_duty text_eq atoi
checked v = if text_eq v auto_text then v else checked_duty (atoi v)

abbrev duty_warning : ℕ → Text → Option ℤ → List Warning
duty_warning ch v none = not_a_duty ch v ∷ []
duty_warning ch v (some d) =
    if ltb_ℤ (pos 255) d
    then not_a_duty ch v ∷ []
    else if ltb_ℤ d min_duty
    then raised ch d ∷ []
    else []

unfoldable pub check_warning : ℕ → Text → List Warning
unfolding text_eq atoi
check_warning ch v = if text_eq v auto_text then [] else duty_warning ch v (atoi v)

-- The stop value of pwm4 that `DeviationPCIeRestore` reports.
unfoldable pub deviation : (ℕ → Text) → Option ((ℕ → Text) × Source) → ℕ → List Text
unfolding text_eq
deviation args none ch = []
deviation args (some (stop, source)) ch =
    if ch == pcie_channel
      && text_eq (args ch) []
      && not (text_eq (stop ch) pcie_restore)
      && not (text_eq (stop ch) auto_text)
    then stop ch ∷ []
    else []

pub record RestoreValue : Type 0 where
  pub channel : ℕ
  pub value : Text
  pub source : Source

pub record RestoreValues : Type 0 where
  pub values : List RestoreValue
  pub warnings : List Warning
  pub deviations : List Text

unfoldable pub resolve_channels : (ℕ → Text) → Option ((ℕ → Text) × Source) → List ℕ → RestoreValues
unfolding chosen checked check_warning deviation
resolve_channels args cfg [] = record { values = []; warnings = []; deviations = [] }
resolve_channels args cfg (ch ∷ chs) =
    let rest = resolve_channels args cfg chs in
    let (v, source) = chosen args cfg ch in
    record {
      values = record { channel = ch; value = checked v; source = source } ∷ rest.values;
      warnings = check_warning ch v ++ rest.warnings;
      deviations = deviation args cfg ch ++ rest.deviations;
    }

unfoldable pub read_warnings : List FangovChannel → List Warning
unfolding trim_space text_eq
read_warnings [] = []
read_warnings (c ∷ cs) =
    let rest = read_warnings cs in
    let stop = trim_space c.stop in
    if pos_part c.pwm == 3 && (text_eq stop [] || text_eq stop auto_text)
    then hdd_auto_replaced ∷ rest
    else rest

abbrev file_warnings : ConfigFile → List Warning
file_warnings absent = []
file_warnings unreadable = config_unreadable ∷ []
file_warnings undecodable = config_unreadable ∷ []
file_warnings (decoded cs) = read_warnings cs

-- `sort.Ints`.
unfoldable pub insert_int : ℕ → List ℕ → List ℕ
insert_int x [] = x ∷ []
insert_int x (y ∷ ys) = let rest = insert_int x ys in if leb x y then x ∷ y ∷ ys else y ∷ rest

unfoldable pub sort_ints : List ℕ → List ℕ
unfolding insert_int
sort_ints [] = []
sort_ints (x ∷ xs) = insert_int x (sort_ints xs)

-- `ResolveRestore`.
unfoldable pub resolve_restore : (ℕ → Text) → ConfigFile → List ℕ → RestoreValues
unfolding resolve_channels stop_values sort_ints read_warnings
resolve_restore args file chans =
    let r = resolve_channels args (stop_values file) (sort_ints chans) in
    record r { warnings = file_warnings file ++ r.warnings }
