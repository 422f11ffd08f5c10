-- ===== src/BackupGate.antt =====
-- ectest/internal/runner/gates.go: the gate G2, no scrub, resilver or backup. What zpool and /proc say is a parameter.
pub mod Texts
pub mod Programs
pub mod Busy
use minisforum_n5pro_fan_pro.Prelude.{
  ℕ, zero, ◌+◌, Bool, true, false, Option, none, some, List, [], ◌∷◌, ◌++◌, get_elem?, ltb, ℤ,
  if◌then◌else◌, Text, codes, text_eq, atoi, trim_space, strip_prefix, split_on,
}
use minisforum_n5pro_fan_pro.Regulator.Checker.{base}

-- The outcome of `ZpoolStatus`.
pub data Zpool : Type 0 where
  no_zpool status_failed : Zpool
  status : Text → Zpool

-- An entry of the proc directory with the text of its comm and cmdline, empty when unreadable.
pub record Entry : Type 0 where
  pub name : Text
  pub comm : Text
  pub cmdline : Text

pub data Backup : Type 0 where
  process pve_task : Text → Backup

pub data Found : Type 0 where
  zpool_failed : Found
  in_progress : Text → Found
  backup : Backup → (pid : Text) → Found

pub record GateTwo : Type 0 where
  pub passes : Bool
  pub without_zpool : Bool
  pub found : List Found

abbrev pub backup_names : List Text
backup_names = codes "vzdump" ∷ codes "proxmox-backup-client" ∷ []

abbrev pub pool_jobs : List Text
pool_jobs = codes "scrub in progress" ∷ codes "resilver in progress" ∷ []

abbrev pub is_some {ℓ} : {A : Type ℓ} → Option A → Bool
is_some none = false
is_some (some a) = true

-- `strings.Contains`.
unfoldable pub contains : Text → Text → Bool
unfolding strip_prefix
contains k [] = is_some (strip_prefix k [])
contains k (c ∷ cs) =
    let rest = contains k cs in if is_some (strip_prefix k (c ∷ cs)) then true else rest

abbrev keep_unless_zero : ℕ → Text → Text
keep_unless_zero zero [] = []
keep_unless_zero c cs = c ∷ cs

-- `strings.TrimRight` of the code point 0.
unfoldable pub trim_zeros : Text → Text
trim_zeros [] = []
trim_zeros (c ∷ cs) = keep_unless_zero c (trim_zeros cs)

abbrev trimmed : Text → Option Text → Text
trimmed s none = s
trimmed s (some r) = r

-- `strings.TrimPrefix`.
unfoldable pub trim_prefix : Text → Text → Text
unfolding strip_prefix
trim_prefix p s = trimmed s (strip_prefix p s)

-- The first of the names that equals a text.
unfoldable pub first_equal : Text → List Text → Option Text
unfolding text_eq
first_equal t [] = none
first_equal t (n ∷ ns) = let rest = first_equal t ns in if text_eq t n then some n else rest

abbrev pub or_else {ℓ} : {A : Type ℓ} → Option A → Option A → Option A
or_else none o = o
or_else (some a) o = some a

abbrev pub found_as : (Text → Backup) → Option Text → Option Backup
found_as kind none = none
found_as kind (some n) = some (kind n)

abbrev pub task_backup : Option Text → Option Backup
task_backup none = none
task_backup (some f) = found_as pve_task (first_equal f backup_names)

-- The sixth part of the name that a worker gives itself.
unfoldable pub task_type : Text → Option Text
unfolding trim_prefix split_on
task_type a = get_elem? (split_on b':' (trim_prefix (codes "task ") a)) 5

-- A program by its base name, in the first three arguments.
unfoldable pub program_backup : ℕ → Text → Option Backup
unfolding first_equal base
program_backup i a = if ltb 2 i then none else found_as process (first_equal (base a) backup_names)

-- The argument with an index.
unfoldable pub arg_backup : ℕ → Text → Option Backup
unfolding strip_prefix task_type first_equal program_backup
arg_backup i a =
    if is_some (strip_prefix (codes "task UPID:") a)
    then task_backup (task_type a)
    else program_backup i a

-- The loop over the arguments.
unfoldable pub args_backup : ℕ → List Text → Option Backup
unfolding arg_backup
args_backup i [] = none
args_backup i (a ∷ more) = or_else (arg_backup i a) (args_backup (i + 1) more)

-- `BackupProcess`.
unfoldable pub backup_process : Text → Text → Option Backup
unfolding first_equal args_backup split_on trim_zeros
backup_process comm cmdline =
    or_else (found_as process (first_equal comm backup_names))
      (args_backup 0 (split_on 0 (trim_zeros cmdline)))

abbrev pub backup_found : Text → Option Backup → List Found
backup_found pid none = []
backup_found pid (some b) = backup b pid ∷ []

abbrev pub entry_found : Entry → Option ℤ → List Found
entry_found e none = []
entry_found e (some n) = backup_found e.name (backup_process (trim_space e.comm) e.cmdline)

unfoldable pub backups : List Entry → List Found
unfolding atoi trim_space backup_process
backups [] = []
backups (e ∷ es) = entry_found e (atoi e.name) ++ backups es

unfoldable pub jobs : Text → List Text → List Found
unfolding contains
jobs out [] = []
jobs out (k ∷ ks) = let rest = jobs out ks in if contains k out then in_progress k ∷ rest else rest

abbrev pub pool_found : Zpool → List Found
pool_found no_zpool = []
pool_found status_failed = zpool_failed ∷ []
pool_found (status out) = jobs out pool_jobs

-- The processes; a proc directory that cannot be read has none.
abbrev pub listed : Option (List Entry) → List Found
listed none = []
listed (some es) = backups es

abbrev is_absent : Zpool → Bool
is_absent no_zpool = true
is_absent _ = false

abbrev pub nothing : List Found → Bool
nothing [] = true
nothing (f ∷ fs) = false

-- `G2`.
unfoldable pub g2 : Zpool → Option (List Entry) → GateTwo
unfolding jobs backups
g2 z es = record {
  passes = nothing (pool_found z ++ listed es);
  without_zpool = is_absent z;
  found = pool_found z ++ listed es;
}
