-- ===== src/Driver/State.antt =====
-- go/n5/n5driver/n5driver.go: `State` and what it means. The file system below /sys is a parameter: what a read of a file
-- gives without surrounding space (empty when it cannot be read), whether a path is there, and the entries of a folder.
-- A path is its text from the root of that file system.
use minisforum_n5pro_fan_pro.Prelude.{
  Bool, true, false, ◌&&◌, ◌||◌, not, Option, none, some, List, [], ◌∷◌, ◌++◌, map, if◌then◌else◌,
  Text, codes, text_eq,
}
use minisforum_n5pro_fan_pro.Writer.Device.{module_name}

pub record Sysfs : Type 0 where
  pub read_trim : Text → Text
  pub exists : Text → Bool
  pub is_folder : Text → Bool
  pub entries : Text → List Text  -- in order of their names; none when the folder cannot be read
  pub files : Text → List Text  -- the same, without folders and symbolic links

abbrev pub slash : Text → Text → Text
slash a b = a ++ (codes "/" ++ b)

pub record DriverState : Type 0 where
  pub loaded : Bool
  pub version : Text
  pub src_version : Text
  pub taint : Text
  pub params : List (Text × Text)
  pub hwmon_path : Option Text
  pub attrs : List Text
  pub pwm_visible : Bool
  pub dcr_path : Option Text

unfoldable pub find_hwmon_in : Sysfs → List Text → Option Text
unfolding text_eq
find_hwmon_in sys [] = none
find_hwmon_in sys (n ∷ ns) =
    let p = slash (codes "class/hwmon") n in
    let rest = find_hwmon_in sys ns in
    if text_eq (sys.read_trim (slash p (codes "name"))) module_name then some p else rest

-- `findHwmon`.
unfoldable pub find_hwmon : Sysfs → Option Text
unfolding find_hwmon_in
find_hwmon sys = find_hwmon_in sys (sys.entries (codes "class/hwmon"))

-- `DCRPath`.
abbrev pub dcr_file : Text
dcr_file = slash (codes "kernel/debug") (slash module_name (codes "dcr"))

-- `ECRAMPath`.
abbrev pub ecram_file : Text
ecram_file = slash (codes "kernel/debug") (slash module_name (codes "ecram"))

abbrev attrs_of : Sysfs → Option Text → List Text
attrs_of sys none = []
attrs_of sys (some p) = sys.files p

abbrev visible_in : Sysfs → Option Text → Bool
visible_in sys none = false
visible_in sys (some p) =
    sys.exists (slash p (codes "pwm1")) && sys.exists (slash p (codes "pwm1_enable"))

-- `Read`.
unfoldable pub read_state : Sysfs → DriverState
unfolding find_hwmon
read_state sys =
    let mod' = slash (codes "module") module_name in
    let hwmon = find_hwmon sys in
    record {
      loaded = sys.is_folder mod';
      version = sys.read_trim (slash mod' (codes "version"));
      src_version = sys.read_trim (slash mod' (codes "srcversion"));
      taint = sys.read_trim (slash mod' (codes "taint"));
      params =
          map (λ n. (n, sys.read_trim (slash (slash mod' (codes "parameters")) n)))
            (sys.entries (slash mod' (codes "parameters")));
      hwmon_path = hwmon;
      attrs = attrs_of sys hwmon;
      pwm_visible = visible_in sys hwmon;
      dcr_path = if sys.exists dcr_file then some dcr_file else none;
    }

unfoldable pub param_in : Text → List (Text × Text) → Text
unfolding text_eq
param_in n [] = []
param_in n ((k, v) ∷ ps) = let rest = param_in n ps in if text_eq k n then v else rest

-- `Param`.
unfoldable pub param : DriverState → Text → Text
unfolding param_in
param s n = param_in n s.params

unfoldable pub yes_text : Text → Bool
unfolding text_eq
yes_text v = text_eq v (codes "Y") || text_eq v (codes "y") || text_eq v (codes "1")

unfoldable pub forced : DriverState → Bool
unfolding param yes_text
forced s = yes_text (param s (codes "force"))

abbrev is_there : Option Text → Bool
is_there none = false
is_there (some p) = true

unfoldable pub write_disabled : DriverState → Bool
write_disabled s = is_there s.hwmon_path && not s.pwm_visible

pub data Mode : Type 0 where
  not_loaded no_hwmon write_on write_off : Mode

unfoldable pub mode : DriverState → Mode
mode s =
    if not s.loaded && not (is_there s.hwmon_path)
    then not_loaded
    else if not (is_there s.hwmon_path)
    then no_hwmon
    else if s.pwm_visible
    then write_on
    else write_off

pub data Why : Type 0 where
  force_loaded experimental_off not_allowed : Why

pub data Finding : Type 0 where
  bound_by_force : Finding
  pwm_hidden : Why → Finding
  registers_dumped : Finding

abbrev is_empty : Text → Bool
is_empty [] = true
is_empty (c ∷ cs) = false

-- `writeDisabledWhy`.
unfoldable pub write_disabled_why : DriverState → Why
unfolding forced param yes_text
write_disabled_why s =
    let v = param s (codes "experimental_write") in
    if forced s
    then force_loaded
    else if not (is_empty v) && not (yes_text v)
    then experimental_off
    else not_allowed

abbrev finding_if : Bool → Finding → List Finding
finding_if true f = f ∷ []
finding_if false f = []

-- `Findings`.
unfoldable pub findings : DriverState → List Finding
unfolding forced write_disabled write_disabled_why param yes_text
findings s =
    finding_if (forced s) bound_by_force
    ++ (finding_if (write_disabled s) (pwm_hidden (write_disabled_why s))
        ++ finding_if (yes_text (param s (codes "debug_regs"))) registers_dumped)
