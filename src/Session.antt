-- ===== src/Session.antt =====
-- ectest/internal/session/session.go: where a command is typed from. The file /proc/PID/stat and the environment are parameters;
-- a pid that is not positive is 0.
pub mod Chain
use minisforum_n5pro_fan_pro.Prelude.{
  ℕ, zero, suc, ◌+◌, ◌-◌, ◌*◌, ◌/◌, ◌%◌, ◌^◌, Bool, true, false, not, ◌&&◌, ◌||◌, Option, none,
  some, List, [], ◌∷◌, ◌++◌, map, ℤ, pos, negsuc, length, get_elem?, leb, ltb, ◌==◌, if◌then◌else◌,
  Text, codes, text_eq, atoi, fields, cut,
}
use minisforum_n5pro_fan_pro.Runner.State.{set}

pub data Remote : Type 0 where
  variable_set : Text → Remote
  ancestor : (comm : Text) → (pid : ℕ) → Remote
  of_client : (pid : ℕ) → Remote → Remote

pub data Tmux : Type 0 where
  outside no_client : Tmux
  clients : ℕ → Tmux

pub record Session : Type 0 where
  pub remote : List Remote
  pub console : Bool
  pub stdin : Text
  pub tmux : Tmux

-- The servers that hand out remote shells.
unfoldable pub is_remote_parent : Text → Bool
unfolding text_eq
is_remote_parent c =
    text_eq c (codes "sshd")
    || text_eq c (codes "sshd-session")
    || text_eq c (codes "dropbear")
    || text_eq c (codes "termproxy")
    || text_eq c (codes "mosh-server")
    || text_eq c (codes "telnetd")
    || text_eq c (codes "in.telnetd")
    || text_eq c (codes "ttyd")
    || text_eq c (codes "shellinaboxd")
    || text_eq c (codes "tmate")

-- The bits of a 64-bit integer.
abbrev pub bits : ℤ → ℕ
bits (pos n) = n
bits (negsuc n) = 2 ^ 64 - 1 - n

abbrev pub major : ℕ → ℕ
major b = b / 2 ^ 8 % 2 ^ 12

-- The low byte, and the bits 20..31 above it.
abbrev pub minor : ℕ → ℕ
minor b = b % 2 ^ 8 + b / 2 ^ 20 % 2 ^ 12 * 2 ^ 8

abbrev console_of : ℕ → ℕ → Bool
console_of m n = if m == 4 then leb 1 n else if m == 5 then n == 1 else m == 229

-- `LocalConsoleTTY`.
unfoldable pub local_console_tty : ℤ → Bool
local_console_tty t = if bits t == 0 then false else console_of (major (bits t)) (minor (bits t))

pub record Stat : Type 0 where
  pub comm : Text
  pub ppid : ℤ
  pub tty : ℤ

abbrev prefer : Option (Text × Text) → Option (Text × Text) → Option (Text × Text)
prefer (some p) o = some p
prefer none o = o

abbrev onto : ℕ → Option (Text × Text) → Option (Text × Text)
onto c none = none
onto c (some (a, b)) = some (c ∷ a, b)

-- What stands before and after the last `)`.
unfoldable pub cut_last : Text → Option (Text × Text)
cut_last [] = none
cut_last (c ∷ cs) = prefer (onto c (cut_last cs)) (if c == b')' then some ([], cs) else none)

abbrev both_numbers : Text → Option ℤ → Option ℤ → Option Stat
both_numbers comm (some p) (some t) = some (record { comm = comm; ppid = p; tty = t })
both_numbers comm _ _ = none

-- The fields after the name: the second one is the parent, the fifth one the terminal.
abbrev stat_fields : Text → List Text → Option Stat
stat_fields comm (a ∷ p ∷ c ∷ d ∷ t ∷ more) = both_numbers comm (atoi p) (atoi t)
stat_fields comm _ = none

abbrev after_open : Option (Text × Text) → Option Stat
after_open none = none
after_open (some (comm, rest)) = stat_fields comm (fields rest)

abbrev with_open : Option (Text × Text) → Option Stat
with_open none = none
with_open (some (before, rest)) = after_open (cut_last rest)

-- `procStat` on the text of the file: the name stands between the first `(` and the last `)`.
unfoldable pub parse_stat : Text → Option Stat
unfolding cut cut_last fields atoi
parse_stat raw = with_open (cut b'(' raw)

abbrev stat_of : Option Text → Option Stat
stat_of none = none
stat_of (some raw) = parse_stat raw

abbrev pub pid_of : ℤ → ℕ
pid_of (pos n) = n
pid_of (negsuc n) = 0

unfoldable pub note_remote : Stat → ℕ → List Remote → List Remote
unfolding is_remote_parent
note_remote st pid rs = if is_remote_parent st.comm then rs ++ (ancestor st.comm pid ∷ []) else rs

abbrev pub note : Stat → ℕ → Session → Session
note st pid s = record s {
  remote = note_remote st pid s.remote;
  console = if local_console_tty st.tty then true else s.console;
}

-- One process of the walk: it ends without a readable file, and after pid 1.
abbrev pub visit : ℕ → Option Stat → Session → (ℕ → Session → Session) → Session
visit pid none s next = s
visit pid (some st) s next = elim (pid == 1) [
  | true ↦ note st pid s
  | false ↦ next (pid_of st.ppid) (note st pid s)
]

-- The loop of `Detect`, with the hops that are left.
unfoldable pub walk : (ℕ → Option Text) → ℕ → (ℕ → Bool) → ℕ → Session → Session
unfolding parse_stat note_remote local_console_tty set
walk proc zero seen pid s = s
walk proc (suc hops) seen pid s = elim (pid == 0 || seen pid) [
  | true ↦ s
  | false ↦ visit pid (stat_of (proc pid)) s (walk proc hops (set pid true seen))
]

abbrev variable_from : (Text → Text) → List Text → List Remote
variable_from getenv [] = []
variable_from getenv (k ∷ ks) =
    if text_eq (getenv k) [] then variable_from getenv ks else variable_set k ∷ []

-- `Detect`: at most 128 processes.
unfoldable pub detect : (ℕ → Option Text) → ℕ → (Text → Text) → Text → Session
unfolding walk text_eq
detect proc pid getenv stdin =
    walk proc 128 (λ n. false) pid
      (record {
        remote =
            variable_from getenv
              (codes "SSH_CONNECTION" ∷ codes "SSH_CLIENT" ∷ codes "SSH_TTY" ∷ []);
        console = false;
        stdin = stdin;
        tmux = outside;
      })

abbrev is_nil : List Remote → Bool
is_nil [] = true
is_nil (r ∷ rs) = false

abbrev client : (ℕ → Option Text) → ℕ → Session
client proc pid = detect proc pid (λ k. []) []

unfoldable pub client_remotes : (ℕ → Option Text) → List ℕ → List Remote
unfolding detect
client_remotes proc [] = []
client_remotes proc (p ∷ ps) = map (of_client p) (client proc p).remote ++ client_remotes proc ps

unfoldable pub all_local : (ℕ → Option Text) → List ℕ → Bool
unfolding detect
all_local proc [] = true
all_local proc (p ∷ ps) =
    (client proc p).console && is_nil (client proc p).remote && all_local proc ps

-- `WithTmux`.
unfoldable pub with_tmux : Session → (ℕ → Option Text) → List ℕ → Session
unfolding client_remotes all_local
with_tmux s proc [] = record s { tmux = no_client }
with_tmux s proc (p ∷ ps) = record s {
  remote = s.remote ++ client_remotes proc (p ∷ ps);
  console = s.console || all_local proc (p ∷ ps);
  tmux = clients (length (p ∷ ps));
}
