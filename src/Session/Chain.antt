-- ===== src/Session/Chain.antt =====
-- What the walk over the ancestors reports.
use mathlib.Core.Path.{subst}
use minisforum_n5pro_fan_pro.Prelude.{
  ℕ, zero, suc, ◌≤◌, ◌≡◌, ◌≢◌, refl, sym, ◌∙◌, inl, inr, Bool, true, false, ◌||◌, Option, none,
  some, List, [], ◌∷◌, ◌++◌, All, Any, All-zip, length, ◌==◌, arith, Text, split-if, split-bool,
}
use minisforum_n5pro_fan_pro.Runner.State.{set}
use minisforum_n5pro_fan_pro.Session.{
  Session, Remote, ancestor, Stat, is_remote_parent, local_console_tty, pid_of, note_remote, note,
  stat_of, visit, walk, detect,
}

-- The file of the process can be read and says this.
abbrev pub Says : (ℕ → Option Text) → ℕ → Stat → Type 0
Says proc pid st = stat_of (proc pid) ≡ some st

-- A process and its ancestors; pid 1 can only be the last one.
pub data Ancestry (proc : ℕ → Option Text) : ℕ → List (ℕ × Stat) → Type 0 where
  last : (pid : ℕ) (st : Stat) → pid ≢ 0 → Says proc pid st → Ancestry proc pid ((pid, st) ∷ [])
  up :
      (pid : ℕ) (st : Stat) (above : List (ℕ × Stat))
      → pid ≢ 0
      → pid ≢ 1
      → Says proc pid st
      → Ancestry proc (pid_of st.ppid) above
      → Ancestry proc pid ((pid, st) ∷ above)

abbrev pub Distinct : List (ℕ × Stat) → Type 0
Distinct [] = Unit
Distinct (p ∷ ps) = All (λ q. q.0 ≢ p.0) ps × Distinct ps

-- A server that hands out remote shells is reported, and a local terminal is noted.
abbrev pub Reported : Session → ℕ × Stat → Type 0
Reported s p =
    (is_remote_parent p.1.comm ≡ true → Any (λ r. r ≡ ancestor p.1.comm p.0) s.remote)
    × (local_console_tty p.1.tty ≡ true → s.console ≡ true)

-- What one session reports the other one reports too.
abbrev Grows : Session → Session → Type 0
Grows s t =
    ((x : Remote) → Any (λ r. r ≡ x) s.remote → Any (λ r. r ≡ x) t.remote)
    × (s.console ≡ true → t.console ≡ true)

Any-append :
    (x : Remote) (rs more : List Remote) → Any (λ r. r ≡ x) rs → Any (λ r. r ≡ x) (rs ++ more)
Any-append x [] more h = absurd h
Any-append x (r ∷ rs) more (inl e) = inl e
Any-append x (r ∷ rs) more (inr h) = inr (Any-append x rs more h)

Any-last : (x : Remote) (rs : List Remote) → Any (λ r. r ≡ x) (rs ++ (x ∷ []))
Any-last x [] = inl refl
Any-last x (r ∷ rs) = inr (Any-last x rs)

note-Grows : (st : Stat) (pid : ℕ) (s : Session) → Grows s (note st pid s)
unfolding note_remote
note-Grows st pid s = (
  λ x h.
      split-if (λ rs. Any (λ r. r ≡ x) rs) (is_remote_parent st.comm) _ _
        (λ _. Any-append x s.remote _ h) (λ _. h),
  λ h. ground (arith, h),
)

note-Reported : (st : Stat) (pid : ℕ) (s : Session) → Reported (note st pid s) (pid, st)
unfolding note_remote
note-Reported st pid s = (λ e. rw e (Any-last (ancestor st.comm pid) s.remote), λ e. rw e refl)

module _ (proc : ℕ → Option Text) where
  visit-Grows :
      (pid : ℕ) (o : Option Stat) (s : Session) (next : ℕ → Session → Session)
      → ((n : ℕ) (t : Session) → Grows t (next n t))
      → Grows s (visit pid o s next)
  visit-Grows pid none s next h = (λ x k. k, λ k. k)
  visit-Grows pid (some st) s next h =
      let here = note-Grows st pid s in
      let later = h (pid_of st.ppid) (note st pid s) in
      split-bool (Grows s) (pid == 1) _ _ (λ _. here)
        (λ _. (λ x k. later.0 x (here.0 x k), λ k. later.1 (here.1 k)))

  walk-Grows :
      (hops : ℕ) (seen : ℕ → Bool) (pid : ℕ) (s : Session) → Grows s (walk proc hops seen pid s)
  unfolding walk
  walk-Grows zero seen pid s = (λ x k. k, λ k. k)
  walk-Grows (suc hops) seen pid s =
      split-bool (Grows s) (pid == 0 || seen pid) _ _ (λ _. (λ x k. k, λ k. k))
        (λ _.
          visit-Grows pid (stat_of (proc pid)) s (walk proc hops (set pid true seen))
            (λ n t. walk-Grows hops (set pid true seen) n t))

  Reported-Grows : (s t : Session) (p : ℕ × Stat) → Grows s t → Reported s p → Reported t p
  Reported-Grows s t p g r = (λ e. g.0 _ (r.0 e), λ e. g.1 (r.1 e))

  step_at :
      (hops : ℕ) (seen : ℕ → Bool) (pid : ℕ) (s : Session) (st : Stat)
      → pid ≢ 0
      → seen pid ≡ false
      → Says proc pid st
      → walk proc (suc hops) seen pid s ≡ visit pid (some st) s (walk proc hops (set pid true seen))
  unfolding walk
  step_at hops seen pid s st pos fresh says =
      let going : (pid == 0 || seen pid) ≡ false = ground (arith, pos, fresh) in
      rw (going, walk) (rw (says, walk) refl)

  visit-Reported :
      (pid : ℕ) (st : Stat) (s : Session) (next : ℕ → Session → Session)
      → ((n : ℕ) (t : Session) → Grows t (next n t))
      → Reported (visit pid (some st) s next) (pid, st)
  visit-Reported pid st s next h =
      let here = note-Reported st pid s in
      split-bool {A = Session} (λ t. Reported t (pid, st)) (pid == 1) _ _ (λ _. here)
        (λ _.
          Reported-Grows (note st pid s) (next (pid_of st.ppid) (note st pid s)) (pid, st)
            (h (pid_of st.ppid) (note st pid s)) here)

  first-Reported :
      (hops : ℕ) (seen : ℕ → Bool) (pid : ℕ) (s : Session) (st : Stat)
      → pid ≢ 0
      → seen pid ≡ false
      → Says proc pid st
      → Reported (walk proc (suc hops) seen pid s) (pid, st)
  first-Reported hops seen pid s st pos fresh says =
      subst (λ t. Reported t (pid, st)) (sym (step_at hops seen pid s st pos fresh says))
        (visit-Reported pid st s (walk proc hops (set pid true seen))
          (λ n t. walk-Grows hops (set pid true seen) n t))

  -- The walk goes on to the parent.
  next_step :
      (hops : ℕ) (seen : ℕ → Bool) (pid : ℕ) (s : Session) (st : Stat)
      → pid ≢ 0
      → pid ≢ 1
      → seen pid ≡ false
      → Says proc pid st
      → walk proc (suc hops) seen pid s
        ≡ walk proc hops (set pid true seen) (pid_of st.ppid) (note st pid s)
  next_step hops seen pid s st pos one fresh says =
      let on : (pid == 1) ≡ false = ground (arith, one) in
      step_at hops seen pid s st pos fresh says ∙ rw (on, visit) refl

  still_fresh :
      (pid n : ℕ) (seen : ℕ → Bool) → n ≢ pid → seen n ≡ false → set pid true seen n ≡ false
  unfolding set
  still_fresh pid n seen ne h = ground (arith, ne, h)

  walk-Reported :
      (hops : ℕ) (seen : ℕ → Bool) (pid : ℕ) (s : Session) (path : List (ℕ × Stat))
      → Ancestry proc pid path
      → Distinct path
      → All (λ p. seen p.0 ≡ false) path
      → length path ≤ hops
      → All (Reported (walk proc hops seen pid s)) path
  walk-Reported zero seen pid s path (last n st pos says) d fresh enough = absurd (omega arith)
  walk-Reported zero seen pid s path (up n st above pos one says rest) d fresh enough =
      absurd (omega arith)
  walk-Reported (suc hops) seen pid s path (last n st pos says) d fresh enough =
      (first-Reported hops seen pid s st pos fresh.0 says, tt)
  walk-Reported (suc hops) seen pid s path (up n st above pos one says rest) d fresh enough = (
    first-Reported hops seen pid s st pos fresh.0 says,
    subst (λ t. All (Reported t) above) (sym (next_step hops seen pid s st pos one fresh.0 says))
        (walk-Reported hops (set pid true seen) (pid_of st.ppid) (note st pid s) above rest d.1
          (All-zip (λ q ne h. still_fresh pid q.0 seen ne h) above d.0 fresh.1) (omega arith)),
  )

  unseen : (path : List (ℕ × Stat)) → All (λ p. ◌≡◌ {A = Bool} false false) path
  unseen [] = tt
  unseen (p ∷ ps) = (refl, unseen ps)

  -- Along any chain of at most 128 distinct processes with readable files, from the given one over its parents, with pid 1
  -- at most at its end: every server that hands out remote shells is among the reasons why the session is remote,
  -- and a process with a local terminal makes the session one with a local console.
  pub detect-Reported :
      (pid : ℕ) (getenv : Text → Text) (stdin : Text) (path : List (ℕ × Stat))
      → Ancestry proc pid path
      → Distinct path
      → length path ≤ 128
      → All (Reported (detect proc pid getenv stdin)) path
  unfolding detect
  detect-Reported pid getenv stdin path chain d enough =
      walk-Reported 128 (λ n. false) pid _ path chain d (unseen path) enough
