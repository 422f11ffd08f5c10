-- ===== src/Report/Rebuild/Panics.antt =====
-- The bundles from which the report rebuilds the hand-back tests without an index out of range.
use minisforum_n5pro_fan_pro.Prelude.{
  ℕ, ◌≡◌, ◌≢◌, refl, ◌⊎◌, inl, inr, ◌&&◌, Option, none, some, List, [], ◌∷◌, ◌++◌, All, arith, leb,
  ◌==◌, split-if,
}
use minisforum_n5pro_fan_pro.Spec.Sample.{Sample, Label, high, middle}
use minisforum_n5pro_fan_pro.Spec.Tables.{pcie_channel, judged_regs}
use minisforum_n5pro_fan_pro.Spec.Aggregate.Defs.{Sub}
use minisforum_n5pro_fan_pro.Runner.State.{AbortReason, Event}
use minisforum_n5pro_fan_pro.Runner.Results.{HandbackOutcome, Reference}
use minisforum_n5pro_fan_pro.Runner.Reached.Rules.{Gives, Gives-result}
use minisforum_n5pro_fan_pro.Report.Lines.{Line}
use minisforum_n5pro_fan_pro.Report.Rebuild.{
  SubRun, Rebuilt, append_last, append_sub, with_runs, rebuild_sub, rebuild_event, rebuild_line,
  and_then, rebuild_runs, no_runs, conclude, from_auto, from_regs, recompute_t2,
}

-- The event does not name a repetition 0.
abbrev pub Numbered : Event → Type 0
Numbered (Event.t2_auto rep label) = rep ≢ 0
Numbered _ = Unit

-- A repetition was begun, or none is current.
abbrev Started : Rebuilt → Type 0
Started st = (st.cur ≡ 0) ⊎ (st.runs ≢ [])

append_last-some :
    (runs : List (List Sub)) (s : Sub) → runs ≢ [] → Gives (λ rs. rs ≢ []) (append_last runs s)
unfolding append_last
append_last-some [] s h = absurd (h refl)
append_last-some (r ∷ []) s h = λ e. cc
append_last-some (r ∷ t ∷ ts) s h =
    let (us, e, k) =
      Gives-result (λ rs. rs ≢ []) (append_last (t ∷ ts) s)
        (append_last-some (t ∷ ts) s (λ f. cc)) in
    rw (e, append_last) (λ f. cc)

snoc-ne-nil : (runs : List (List Sub)) (r : List Sub) → (runs ++ (r ∷ [])) ≢ []
snoc-ne-nil [] r = λ e. cc
snoc-ne-nil (t ∷ ts) r = λ e. cc

append_sub-some :
    (cur rep : ℕ) (runs : List (List Sub)) (s : Sub)
    → rep ≢ 0
    → (cur ≡ 0) ⊎ (runs ≢ [])
    → Gives (λ rs. rs ≢ []) (append_sub cur rep runs s)
unfolding append_sub
append_sub-some cur rep runs s h (inl e) =
    split-if (Gives (λ rs. rs ≢ [])) (rep == cur) (append_last runs s) _
      (λ f. absurd (h (ground (arith, f, e)))) (λ f. snoc-ne-nil runs (s ∷ []))
append_sub-some cur rep runs s h (inr k) =
    split-if (Gives (λ rs. rs ≢ [])) (rep == cur) (append_last runs s) _
      (λ f. append_last-some runs s k) (λ f. snoc-ne-nil runs (s ∷ []))

with_runs-Started :
    (o : Option (List (List Sub))) (next : List (List Sub) → Rebuilt)
    → Gives (λ rs. rs ≢ []) o
    → ((rs : List (List Sub)) → (next rs).runs ≡ rs)
    → Gives Started (with_runs o next)
with_runs-Started none next h same = h
with_runs-Started (some rs) next h same = inr (λ e. h (ground (arith, same rs, e)))

module _ (ch : ℕ) (known : Reference) (m : ℕ) (smp : List Sample) where
  rebuild_sub-Started :
      (st : Rebuilt) (ts rep : ℕ) (label : Label)
      → rep ≢ 0
      → Started st
      → Gives Started (rebuild_sub ch known m smp st ts rep label)
  unfolding rebuild_sub
  rebuild_sub-Started st ts rep label h s =
      with_runs-Started _ _ (append_sub-some st.cur rep st.runs _ h s) (λ rs. refl)

  rebuild_event-Started :
      (st : Rebuilt) (ts : ℕ) (e : Event)
      → Numbered e
      → Started st
      → Gives Started (rebuild_event ch known m smp st ts e)
  rebuild_event-Started st ts (Event.wrote_duty c d) h s =
      split-if Started (leb 1 c && leb c 4) _ _ (λ _. s) (λ _. s)
  rebuild_event-Started st ts (Event.t2_auto rep high) h s = rebuild_sub-Started st ts rep high h s
  rebuild_event-Started st ts (Event.t2_auto rep middle) h s =
      rebuild_sub-Started st ts rep middle h s
  rebuild_event-Started st ts _ h s = s

  rebuild_line-Started :
      (st : Rebuilt) (ts : Option ℕ) (e : Event)
      → Numbered e
      → Started st
      → Gives Started (rebuild_line ch known m smp st ts e)
  rebuild_line-Started st none e h s = s
  rebuild_line-Started st (some ts) e h s = rebuild_event-Started st ts e h s

  and_then-Started :
      (o : Option Rebuilt) (next : Rebuilt → Option Rebuilt)
      → Gives Started o
      → ((st : Rebuilt) → Started st → Gives Started (next st))
      → Gives Started (and_then o next)
  and_then-Started none next h goes = h
  and_then-Started (some st) next h goes = goes st h

  rebuild_runs-Started :
      (ls : List Line) (st : Rebuilt)
      → All (λ l. Numbered l.event) ls
      → Started st
      → Gives Started (rebuild_runs ch known m smp ls st)
  unfolding rebuild_runs
  rebuild_runs-Started [] st h s = s
  rebuild_runs-Started (l ∷ ls) st h s =
      and_then-Started (rebuild_line ch known m smp st l.ts l.event) _
        (rebuild_line-Started st l.ts l.event h.0 s)
        (λ next goes. rebuild_runs-Started ls next h.1 goes)

abbrev Some : Option (HandbackOutcome × List SubRun) → Type 0
Some o = Gives (λ x. Unit) o

conclude-Some :
    (ch : ℕ) (abort : Option AbortReason) (a m : ℕ) (regs : List ℕ) (known : Reference)
    (o : Option Rebuilt)
    → Gives Started o
    → Some (conclude ch abort a m regs known o)
conclude-Some ch abort a m regs known none h = h
conclude-Some ch abort a m regs known (some st) h = tt

module _ (ch : ℕ) (abort : Option AbortReason) (smp : List Sample) (ls : List Line)
    (numbered : All (λ l. Numbered l.event) ls) where
  from_auto-Some :
      (regs : List ℕ) (known : Reference) (o : Option ℕ)
      → Some (from_auto ch abort smp ls regs known o)
  from_auto-Some regs known none = tt
  from_auto-Some regs known (some a) =
      conclude-Some ch abort a _ regs known _
        (rebuild_runs-Started ch known _ smp ls no_runs numbered (inl refl))

  from_regs-Some : (regs : List ℕ) → regs ≢ [] → Some (from_regs ch abort smp ls regs)
  from_regs-Some [] h = absurd (h refl)
  from_regs-Some (n ∷ ns) h = from_auto-Some (n ∷ ns) _ _

  -- For a channel that has registers to judge (1..4) and events without a repetition 0, the report rebuilds the
  -- hand-back tests without an index out of range, whatever the samples, the other events and their order are.
  pub recompute_t2-Total :
      judged_regs ch ≢ []
      → (o : HandbackOutcome × List SubRun) × (recompute_t2 ch abort smp ls ≡ some o)
  unfolding recompute_t2
  recompute_t2-Total h =
      let (x, e, _) =
        Gives-result (λ x. Unit) (recompute_t2 ch abort smp ls)
          (split-if Some (ch == pcie_channel) _ _ (λ _. tt)
            (λ _. from_regs-Some (judged_regs ch) h)) in
      (x, e)

-- Any other channel makes the report read an index out of range.
pub recompute_t2-panics :
    (ch : ℕ) (abort : Option AbortReason) (smp : List Sample) (ls : List Line)
    → (ch ≢ 1) × (ch ≢ 2) × (ch ≢ 3) × (ch ≢ 4)
    → recompute_t2 ch abort smp ls ≡ none
unfolding recompute_t2 judged_regs
recompute_t2-panics ch abort smp ls h = ground (arith, h.0, h.1, h.2, h.3)
