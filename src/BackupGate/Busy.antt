-- ===== src/BackupGate/Busy.antt =====
-- The gate G2 against what makes the machine busy.
use minisforum_n5pro_fan_pro.Prelude.{
  ◌≡◌, refl, ◌↔◌, ◌⊎◌, inl, inr, Bool, true, false, Option, none, some, List, [], ◌∷◌, ◌++◌, ℤ,
  if◌then◌else◌, Text, atoi, trim_space, split_on, Any, arith,
}
use minisforum_n5pro_fan_pro.BackupGate.{
  Zpool, in_progress, no_zpool, status_failed, status, Entry, Backup, Found, backup_names,
  pool_jobs, is_some, contains, trim_zeros, first_equal, found_as, args_backup, backup_process,
  backup_found, entry_found, backups, jobs, pool_found, listed, nothing, g2,
}
use minisforum_n5pro_fan_pro.BackupGate.Texts.{Occurs, contains_iff}
use minisforum_n5pro_fan_pro.BackupGate.Programs.{
  IsBackupName, AnyShows, named_iff, is_some-or_else, args_backup_iff,
}

-- A process that backs up, by its name or by its command line.
abbrev pub BacksUp : Entry → Type 0
BacksUp e = IsBackupName (trim_space e.comm) ⊎ AnyShows 0 (split_on 0 (trim_zeros e.cmdline))

-- An entry of the proc directory that is a process and backs up.
abbrev pub BusyEntry : Entry → Type 0
BusyEntry e = ((n : ℤ) × (atoi e.name ≡ some n)) × BacksUp e

abbrev pub BusyList : Option (List Entry) → Type 0
BusyList none = ⊥
BusyList (some es) = Any BusyEntry es

-- What zpool says of a job that is under way, or nothing.
abbrev pub BusyPool : Zpool → Type 0
BusyPool no_zpool = ⊥
BusyPool status_failed = Unit
BusyPool (status out) = Any (λ k. Occurs k out) pool_jobs

nothing-append :
    (xs ys : List Found)
    → (nothing (xs ++ ys) ≡ false) ↔ ((nothing xs ≡ false) ⊎ (nothing ys ≡ false))
nothing-append [] ys = (λ h. inr h, λ h. ground (arith, h))
nothing-append (x ∷ xs) ys = (λ h. inl refl, λ h. refl)

unless_false :
    (b : Bool) (f : Found) (fs : List Found)
    → (nothing (if b then f ∷ fs else fs) ≡ false) ↔ ((b ≡ true) ⊎ (nothing fs ≡ false))
unless_false true f fs = (λ h. inl refl, λ h. refl)
unless_false false f fs = (λ h. inr h, λ h. ground (arith, h))

jobs_iff :
    (out : Text) (ks : List Text) → (nothing (jobs out ks) ≡ false) ↔ Any (λ k. Occurs k out) ks
unfolding jobs
jobs_iff out [] = (λ h. absurd (ground (arith, h)), λ h. absurd h)
jobs_iff out (k ∷ ks) =
    let same = unless_false (contains k out) (in_progress k) (jobs out ks) in
    (
      λ h. elim (same.0 h) [
        | inl e ↦ inl ((contains_iff k out).0 e)
        | inr e ↦ inr ((jobs_iff out ks).0 e)
      ],
      λ h.
          same.1 (elim h [
            | inl e ↦ inl ((contains_iff k out).1 e)
            | inr e ↦ inr ((jobs_iff out ks).1 e)
          ]),
    )

backup_process_iff :
    (e : Entry) → (is_some (backup_process (trim_space e.comm) e.cmdline) ≡ true) ↔ BacksUp e
unfolding backup_process
backup_process_iff e =
    let name = trim_space e.comm in
    let args = split_on 0 (trim_zeros e.cmdline) in
    let named = found_as (λ n. Backup.process n) (first_equal name backup_names) in
    let either = is_some-or_else named (args_backup 0 args) in
    let by_name = named_iff (λ n. Backup.process n) name backup_names in
    let by_args = args_backup_iff 0 args in
    (
      λ h. elim (either.0 h) [ inl x ↦ inl (by_name.0 x) | inr x ↦ inr (by_args.0 x) ],
      λ h. either.1 (elim h [ inl x ↦ inl (by_name.1 x) | inr x ↦ inr (by_args.1 x) ]),
    )

backup_found_iff :
    (pid : Text) (o : Option Backup) → (nothing (backup_found pid o) ≡ false) ↔ (is_some o ≡ true)
backup_found_iff pid none = (λ h. absurd (ground (arith, h)), λ h. absurd (ground (arith, h)))
backup_found_iff pid (some b) = (λ h. refl, λ h. refl)

entry_found_iff :
    (e : Entry) (o : Option ℤ)
    → (nothing (entry_found e o) ≡ false) ↔ (((n : ℤ) × (o ≡ some n)) × BacksUp e)
entry_found_iff e none = (λ h. absurd (ground (arith, h)), λ ((n, x), h). absurd (cc))
entry_found_iff e (some n) =
    let found = backup_found_iff e.name (backup_process (trim_space e.comm) e.cmdline) in
    (
      λ h. ((n, refl), (backup_process_iff e).0 (found.0 h)),
      λ (x, h). found.1 ((backup_process_iff e).1 h),
    )

backups_iff : (es : List Entry) → (nothing (backups es) ≡ false) ↔ Any BusyEntry es
unfolding backups
backups_iff [] = (λ h. absurd (ground (arith, h)), λ h. absurd h)
backups_iff (e ∷ es) =
    let either = nothing-append (entry_found e (atoi e.name)) (backups es) in
    let first = entry_found_iff e (atoi e.name) in
    (
      λ h. elim (either.0 h) [ inl x ↦ inl (first.0 x) | inr x ↦ inr ((backups_iff es).0 x) ],
      λ h. either.1 (elim h [ inl x ↦ inl (first.1 x) | inr x ↦ inr ((backups_iff es).1 x) ]),
    )

pool_found_iff : (z : Zpool) → (nothing (pool_found z) ≡ false) ↔ BusyPool z
pool_found_iff no_zpool = (λ h. absurd (ground (arith, h)), λ h. absurd h)
pool_found_iff status_failed = (λ h. tt, λ h. refl)
pool_found_iff (status out) = jobs_iff out pool_jobs

listed_iff : (o : Option (List Entry)) → (nothing (listed o) ≡ false) ↔ BusyList o
listed_iff none = (λ h. absurd (ground (arith, h)), λ h. absurd h)
listed_iff (some es) = backups_iff es

-- The gate G2 fails exactly when zpool failed or says that a scrub or a resilver is in progress, or when a process
-- backs up: by its name, by the type of the task that a worker of the host names in its command line, or by the base
-- name of one of its first three arguments that is not such a task.
pub g2-fails :
    (z : Zpool) (o : Option (List Entry)) → ((g2 z o).passes ≡ false) ↔ (BusyPool z ⊎ BusyList o)
unfolding g2
g2-fails z o =
    let either = nothing-append (pool_found z) (listed o) in
    (
      λ h. elim (either.0 h) [
        | inl x ↦ inl ((pool_found_iff z).0 x)
        | inr x ↦ inr ((listed_iff o).0 x)
      ],
      λ h.
          either.1
            (elim h [ inl x ↦ inl ((pool_found_iff z).1 x) | inr x ↦ inr ((listed_iff o).1 x) ]),
    )
