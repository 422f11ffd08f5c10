-- ===== src/Regulator/Checker.antt =====
-- ectest/internal/regulator/regulator.go: `Units`, `Processes` and `Check`. What systemctl and /proc say is a parameter. A hit is a
-- value that carries what the source formats.
use minisforum_n5pro_fan_pro.Prelude.{
  ℕ, Bool, false, not, ◌||◌, Option, none, some, List, [], ◌∷◌, ◌++◌, map, ◌==◌, if◌then◌else◌,
  Text, codes, text_eq, is_digit, strip_prefix, split_on,
}
use minisforum_n5pro_fan_pro.Regulator.Expectation.{View, Expectation, Difference, diff}

abbrev pub names : List Text
names =
    codes "n5-fangov"
    ∷ codes "n5-fand"
    ∷ codes "fancontrol"
    ∷ codes "fan2go"
    ∷ codes "coolercontrold"
    ∷ codes "thinkfan"
    ∷ []

abbrev pub script_names : List Text
script_names = codes "f8a-pcie.sh" ∷ codes "f8a-stress.sh" ∷ []

unfoldable pub mem_text : Text → List Text → Bool
unfolding text_eq
mem_text t [] = false
mem_text t (n ∷ ns) = text_eq t n || mem_text t ns

-- `UnitRunning`: every state but these.
unfoldable pub unit_running : Text → Bool
unfolding mem_text
unit_running state =
    not (mem_text state ([] ∷ codes "inactive" ∷ codes "failed" ∷ codes "unknown" ∷ []))

pub data Hit : Type 0 where
  unit : (name state : Text) → Hit
  no_process_list : Hit
  process : (name : Text) → (pid : ℕ) → Hit
  script : (shell name : Text) → (pid : ℕ) → Hit
  holder : (pid : ℕ) → (comm link : Text) → Hit
  lock_lost : Hit
  attribute : Difference → Hit

-- `FangovState`.
unfoldable pub fangov_state : (Text → Option Text) → Text
fangov_state systemctl = elim (systemctl (codes "n5-fangov")) [ none ↦ [] | some s ↦ s ]

-- The loop of `Units`; an unusable systemctl ends it.
unfoldable pub units_from : (Text → Option Text) → List Text → List Hit
unfolding unit_running
units_from systemctl [] = []
units_from systemctl (n ∷ ns) = elim (systemctl n) [
  | none ↦ []
  | some s ↦ if unit_running s then unit n s ∷ units_from systemctl ns else units_from systemctl ns
]

unfoldable pub units : (Text → Option Text) → List Hit
unfolding units_from
units systemctl = units_from systemctl names

-- A process: its comm without surrounding space, the text of its cmdline, and the targets of its open files if they
-- can be listed.
pub record Process : Type 0 where
  pub pid : ℕ
  pub comm : Text
  pub cmdline : Text
  pub links : Option (List Text)

abbrev drop_slash : ℕ → Text → Text
drop_slash c [] = if c == b'/' then [] else c ∷ []
drop_slash c (d ∷ ds) = c ∷ d ∷ ds

-- Without slashes at the end.
unfoldable pub strip_slashes : Text → Text
strip_slashes [] = []
strip_slashes (c ∷ cs) = drop_slash c (strip_slashes cs)

unfoldable pub last_part : Text → List Text → Text
last_part t [] = t
last_part t (u ∷ us) = last_part u us

-- `filepath.Base`.
abbrev base_of : Text → Text
base_of [] = codes "/"
base_of (c ∷ cs) = last_part [] (split_on b'/' (c ∷ cs))

unfoldable pub base : Text → Text
unfolding strip_slashes last_part split_on
base [] = codes "."
base (c ∷ cs) = base_of (strip_slashes (c ∷ cs))

-- What follows one or more digits.
unfoldable pub skip_digits : Text → Text
unfolding is_digit
skip_digits [] = []
skip_digits (c ∷ cs) = let rest = skip_digits cs in if is_digit c then rest else c ∷ cs

abbrev pub after_digits : Text → Option Text
after_digits [] = none
after_digits (c ∷ cs) = if is_digit c then some (skip_digits cs) else none

infixl 5 ◌>>=◌
abbrev pub ◌>>=◌ : Option Text → (Text → Option Text) → Option Text
none >>= f = none
some t >>= f = f t

abbrev ends_well : Option Text → Bool
ends_well none = false
ends_well (some r) = text_eq r [] || text_eq r (codes "_enable")

-- The regular expression `pwmFDRe` at the start of a text.
unfoldable pub pwm_at : Text → Bool
unfolding strip_prefix skip_digits is_digit text_eq
pwm_at s = ends_well (
    strip_prefix (codes "/hwmon/hwmon") s >>= λ a.
    after_digits a >>= λ b. strip_prefix (codes "/pwm") b >>= after_digits)

unfoldable pub is_pwm_link : Text → Bool
unfolding pwm_at
is_pwm_link [] = false
is_pwm_link (c ∷ cs) = pwm_at (c ∷ cs) || is_pwm_link cs

-- The base names of the program and, behind a shell, of its script.
abbrev script_of : Text → List Text → Text
script_of argv0 [] = []
script_of argv0 (a ∷ as') =
    if text_eq argv0 (codes "bash") || text_eq argv0 (codes "sh") then base a else []

abbrev program_of : List Text → Text × Text
program_of [] = ([], [])
program_of (a ∷ as') = (base a, script_of (base a) as')

unfoldable pub program : Text → Text × Text
unfolding base split_on text_eq
program [] = ([], [])
program (c ∷ cs) = program_of (split_on 0 (c ∷ cs))

unfoldable pub holders : Process → List Text → List Hit
unfolding is_pwm_link
holders p [] = []
holders p (l ∷ ls) =
    let rest = holders p ls in if is_pwm_link l then holder p.pid p.comm l ∷ rest else rest

abbrev pub holders_of : Process → Option (List Text) → List Hit
holders_of p none = []
holders_of p (some ls) = holders p ls

unfoldable pub named : Process → List Hit
unfolding mem_text program
named p =
    let argv0 = (program p.cmdline).0 in
    let shell_script = (program p.cmdline).1 in
    if mem_text p.comm (names ++ script_names)
    then process p.comm p.pid ∷ []
    else if mem_text argv0 (names ++ script_names)
    then process argv0 p.pid ∷ []
    else if mem_text shell_script script_names
    then script argv0 shell_script p.pid ∷ []
    else []

-- The loop over the processes, in order of their pids; those of `self` are skipped.
unfoldable pub processes_from : (ℕ → Bool) → List Process → List Hit
unfolding named holders
processes_from self [] = []
processes_from self (p ∷ ps) =
    let rest = processes_from self ps in
    if self p.pid then rest else named p ++ (holders_of p p.links ++ rest)

-- `Processes`; `none` when the process list cannot be read.
unfoldable pub processes : (ℕ → Bool) → Option (List Process) → List Hit
unfolding processes_from
processes self none = no_process_list ∷ []
processes self (some ps) = processes_from self ps

-- `Check` with what it looks at: the verification of the lock, when one is held, and the expectation, when there is one.
pub record Checked : Type 0 where
  pub systemctl : Text → Option Text
  pub self : ℕ → Bool
  pub list : Option (List Process)
  pub lock : Option Bool
  pub view : View
  pub expect : Option Expectation

abbrev lock_hits : Option Bool → List Hit
lock_hits (some false) = lock_lost ∷ []
lock_hits _ = []

abbrev diff_hits : View → Option Expectation → List Hit
diff_hits view none = []
diff_hits view (some e) = map attribute (diff view e)

unfoldable pub check : Checked → List Hit
unfolding units processes diff
check c =
    units c.systemctl
    ++ (processes c.self c.list ++ (lock_hits c.lock ++ diff_hits c.view c.expect))
