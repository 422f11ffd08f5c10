-- ===== src/BackupGate/Programs.antt =====
-- The programs whose command line shows a backup.
use minisforum_n5pro_fan_pro.Prelude.{
  ℕ, ◌+◌, ◌≤◌, ◌≡◌, refl, ◌↔◌, ◌⊎◌, inl, inr, Bool, true, false, Option, none, some, List, [], ◌∷◌,
  ltb, if◌then◌else◌, Text, codes, strip_prefix, Any, arith,
}
use minisforum_n5pro_fan_pro.Regulator.Checker.{base}
use minisforum_n5pro_fan_pro.BackupGate.{
  Backup, backup_names, is_some, first_equal, or_else, found_as, task_backup, task_type, arg_backup,
  program_backup, args_backup,
}
use minisforum_n5pro_fan_pro.BackupGate.Texts.{Begins, strip_prefix_iff, first_equal_iff}

abbrev pub IsBackupName : Text → Type 0
IsBackupName t = Any (λ n. t ≡ n) backup_names

-- The type of the task that a worker names is a backup.
abbrev pub TypedBackup : Option Text → Type 0
TypedBackup none = ⊥
TypedBackup (some f) = IsBackupName f

-- The argument with an index shows a backup: a worker by the type of its task, another program by its base name, for
-- which only the first three arguments count.
abbrev pub ShowsBackup : ℕ → Text → Type 0
ShowsBackup i a =
    (Begins (codes "task UPID:") a × TypedBackup (task_type a))
    ⊎ ((¬ Begins (codes "task UPID:") a) × ((i ≤ 2) × IsBackupName (base a)))

abbrev pub AnyShows : ℕ → List Text → Type 0
AnyShows i [] = ⊥
AnyShows i (a ∷ more) = ShowsBackup i a ⊎ AnyShows (i + 1) more

is_some-found_as : (kind : Text → Backup) (o : Option Text) → is_some (found_as kind o) ≡ is_some o
is_some-found_as kind none = refl
is_some-found_as kind (some n) = refl

pub named_iff :
    (kind : Text → Backup) (t : Text) (ns : List Text)
    → (is_some (found_as kind (first_equal t ns)) ≡ true) ↔ Any (λ n. t ≡ n) ns
named_iff kind t ns = rw (is_some-found_as kind (first_equal t ns)) (first_equal_iff t ns)

task_backup_iff : (o : Option Text) → (is_some (task_backup o) ≡ true) ↔ TypedBackup o
task_backup_iff none = (λ h. absurd (ground (arith, h)), λ h. absurd h)
task_backup_iff (some f) = named_iff (λ n. Backup.pve_task n) f backup_names

first_three :
    (i : ℕ) (o : Option Backup) {P : Type 0}
    → (is_some o ≡ true) ↔ P
    → (is_some (if ltb 2 i then none else o) ≡ true) ↔ ((i ≤ 2) × P)
first_three i o f = (λ h. ground (arith, f), λ h. ground (arith, f))

program_backup_iff :
    (i : ℕ) (a : Text) → (is_some (program_backup i a) ≡ true) ↔ ((i ≤ 2) × IsBackupName (base a))
unfolding program_backup
program_backup_iff i a =
    first_three i (found_as (λ n. Backup.process n) (first_equal (base a) backup_names))
      (named_iff (λ n. Backup.process n) (base a) backup_names)

if_iff :
    (b : Bool) (x y : Option Backup) {P Q R : Type 0}
    → (b ≡ true) ↔ P
    → (is_some x ≡ true) ↔ Q
    → (is_some y ≡ true) ↔ R
    → (is_some (if b then x else y) ≡ true) ↔ ((P × Q) ⊎ ((¬ P) × R))
if_iff true x y p q r = (λ h. inl (p.0 refl, q.0 h), λ h. ground (arith, p, q, h))
if_iff false x y p q r = (λ h. inr (λ z. cc (p.1 z), r.0 h), λ h. ground (arith, p, r, h))

arg_backup_iff : (i : ℕ) (a : Text) → (is_some (arg_backup i a) ≡ true) ↔ ShowsBackup i a
unfolding arg_backup
arg_backup_iff i a =
    if_iff (is_some (strip_prefix (codes "task UPID:") a)) (task_backup (task_type a))
      (program_backup i a) (strip_prefix_iff (codes "task UPID:") a) (task_backup_iff (task_type a))
      (program_backup_iff i a)

pub is_some-or_else :
    {A : Type 0} (a b : Option A)
    → (is_some (or_else a b) ≡ true) ↔ ((is_some a ≡ true) ⊎ (is_some b ≡ true))
is_some-or_else none b = (λ h. inr h, λ h. ground (arith, h))
is_some-or_else (some a) b = (λ h. inl refl, λ h. refl)

pub args_backup_iff :
    (i : ℕ) (as' : List Text) → (is_some (args_backup i as') ≡ true) ↔ AnyShows i as'
unfolding args_backup
args_backup_iff i [] = (λ h. absurd (ground (arith, h)), λ h. absurd h)
args_backup_iff i (a ∷ more) = (
  λ h. ground (
    arith,
    is_some-or_else (arg_backup i a) (args_backup (i + 1) more),
    arg_backup_iff i a,
    args_backup_iff (i + 1) more,
  ),
  λ h. ground (
    arith,
    is_some-or_else (arg_backup i a) (args_backup (i + 1) more),
    arg_backup_iff i a,
    args_backup_iff (i + 1) more,
  ),
)
