-- ===== src/Restore/ValueLaws.antt =====
-- What the restore values can be.
use mathlib.Core.Path.{subst}
use minisforum_n5pro_fan_pro.Prelude.{
  ℕ, zero, suc, ◌≤◌, ◌<◌, ◌≡◌, ◌≢◌, refl, sym, ap, ◌∙◌, ◌⊎◌, inl, inr, Bool, true, false, ◌&&◌,
  ◌||◌, not, Option, none, some, List, [], ◌∷◌, ℤ, pos, negsuc, pos_part, ltb_ℤ, ◌==◌, All, arith,
  Bool-cases, and_left, and_right, Text, codes, text_eq, text_eq_iff, atoi, itoa, cut, strip_prefix,
  trim_space,
}
use minisforum_n5pro_fan_pro.Writer.Defs.{min_duty}
use minisforum_n5pro_fan_pro.Spec.Tables.{pcie_channel}
use minisforum_n5pro_fan_pro.Restore.Values.{
  auto_text, pcie_restore, Parsed, parsed, refused, parse_duty, parse_value, parse_channel,
  parse_restore_arg, number_of, ConfigFile, RestoreValue, Source, chosen, checked, checked_duty,
  resolve_channels, resolve_restore, stop_values, sort_ints,
}

-- "auto" or the decimal text of a duty in 100..255.
abbrev pub IsRestoreValue : Text → Type 0
IsRestoreValue v = (v ≡ auto_text) ⊎ ((d : ℕ) × (100 ≤ d) × (d ≤ 255) × (v ≡ itoa d))

abbrev reads_back : Option ℤ → ℕ → Bool
reads_back none n = false
reads_back (some (pos m)) n = m == n
reads_back (some (negsuc m)) n = false

-- Whether the numbers from `count` - 1 down to 0 survive being printed and read.
round_trips : (count : ℕ) → Bool
unfolding atoi itoa
round_trips zero = true
round_trips (suc last) =
    let others = round_trips last in reads_back (atoi (itoa last)) last && others

round_trips-byte : round_trips 256 ≡ true
unfolding round_trips
round_trips-byte = refl

same_number : (n d : ℕ) → (d == n) ≡ true → n ≡ d
same_number n d h = ground arith

in_range :
    (count d : ℕ) → d < count → round_trips count ≡ true → reads_back (atoi (itoa d)) d ≡ true
unfolding round_trips
in_range zero d below all = elim below [ ]
in_range (suc last) d below all = elim (Bool-cases (d == last)) [
  | inl here ↦
      subst (λ m. reads_back (atoi (itoa m)) m ≡ true) (same_number last d here) (and_left _ _ all)
  | inr down ↦ in_range last d (ground (arith, below, down)) (and_right _ _ all)
]

reads_back-eq : (o : Option ℤ) (n : ℕ) → reads_back o n ≡ true → o ≡ some (pos n)
reads_back-eq none n h = cc
reads_back-eq (some (pos m)) n h = ground arith
reads_back-eq (some (negsuc m)) n h = cc

-- A duty that is printed is read back.
pub atoi-itoa : (d : ℕ) → d < 256 → atoi (itoa d) ≡ some (pos d)
atoi-itoa d h = reads_back-eq (atoi (itoa d)) d (in_range 256 d h round_trips-byte)

checked_duty-IsRestoreValue : (o : Option ℤ) → IsRestoreValue (checked_duty o)
unfolding checked_duty
checked_duty-IsRestoreValue none = inl refl
checked_duty-IsRestoreValue (some d) = elim (Bool-cases (ltb_ℤ (pos 255) d)) [
  | inl e ↦ rw e (inl refl)
  | inr e ↦ rw e (elim (Bool-cases (ltb_ℤ d min_duty)) [
    | inl f ↦ rw f (inr (100, omega arith, omega arith, refl))
    | inr f ↦ rw f (let (lo, hi) = in_range d e f in inr (pos_part d, lo, hi, refl))
  ])
]
  where
    in_range :
        (d : ℤ)
        → ltb_ℤ (pos 255) d ≡ false
        → ltb_ℤ d min_duty ≡ false
        → (100 ≤ pos_part d) × (pos_part d ≤ 255)
    in_range d e f = (ground arith, ground arith)

pub checked-IsRestoreValue : (v : Text) → IsRestoreValue (checked v)
unfolding checked
checked-IsRestoreValue v = elim (Bool-cases (text_eq v auto_text)) [
  | inl e ↦ rw e (inl ((text_eq_iff v auto_text).0 e))
  | inr e ↦ rw e (checked_duty-IsRestoreValue (atoi v))
]

All-resolved :
    (P : RestoreValue → Type 0) (args : ℕ → Text) (cfg : Option ((ℕ → Text) × Source))
    (chs : List ℕ)
    → ((ch : ℕ)
        → P (record {
          channel = ch;
          value = checked (chosen args cfg ch).0;
          source = (chosen args cfg ch).1;
        }))
    → All P (resolve_channels args cfg chs).values
unfolding resolve_channels
All-resolved P args cfg [] h = tt
All-resolved P args cfg (c ∷ cs) h = (h c, All-resolved P args cfg cs h)

-- Whatever the --restore arguments and the configuration file are, every resolved restore value is "auto" or
-- the decimal text of a duty in 100..255.
pub resolve_restore-IsRestoreValue :
    (args : ℕ → Text) (file : ConfigFile) (chans : List ℕ)
    → All (λ r. IsRestoreValue r.value) (resolve_restore args file chans).values
unfolding resolve_restore
resolve_restore-IsRestoreValue args file chans =
    All-resolved (λ r. IsRestoreValue r.value) args (stop_values file) (sort_ints chans)
      (λ ch. checked-IsRestoreValue (chosen args (stop_values file) ch).0)

-- What the parser of --restore accepts: a channel 1..4, with "auto" or a duty in 100..255, and for pwm4 with
-- 255 only.
abbrev pub IsAccepted : ℕ → Text → Type 0
IsAccepted ch v = (1 ≤ ch) × (ch ≤ 4) × IsRestoreValue v × (ch ≡ 4 → v ≡ pcie_restore)

abbrev Accepts : Parsed → Type 0
Accepts (parsed ch v) = IsAccepted ch v
Accepts (refused e) = Unit

parse_duty-Accepts :
    (ch : ℕ) (o : Option ℤ)
    → 1 ≤ ch
    → ch ≤ 4
    → (ch ≡ 4 → o ≡ some (pos 255))
    → Accepts (parse_duty ch o)
unfolding parse_duty itoa
parse_duty-Accepts ch none lo hi f = tt
parse_duty-Accepts ch (some d) lo hi f = elim (Bool-cases (ltb_ℤ (pos 255) d)) [
  | inl e ↦ rw e tt
  | inr e ↦ rw e (elim (Bool-cases (ltb_ℤ d min_duty)) [
    | inl g ↦ rw g tt
    | inr g ↦ rw g (
      lo,
      hi,
      inr (pos_part d, ground arith, ground arith, refl),
      λ q. ap (λ o. itoa (part o)) (f q),
    )
  ])
]
  where
    part : Option ℤ → ℕ
    part none = 0
    part (some x) = pos_part x

parse_value-Accepts : (ch : ℕ) (v : Text) → 1 ≤ ch → ch ≤ 4 → Accepts (parse_value ch v)
unfolding parse_value
parse_value-Accepts ch v lo hi =
    elim (Bool-cases (ch == pcie_channel && not (text_eq v pcie_restore))) [
      | inl e ↦ rw e tt
      | inr e ↦ rw e (elim (Bool-cases (text_eq v auto_text)) [
        | inl a ↦ rw a (lo, hi, inl ((text_eq_iff v auto_text).0 a), λ q. fixed q e)
        | inr a ↦ rw a (parse_duty-Accepts ch (atoi v) lo hi (λ q. ap atoi (fixed q e) ∙ reads_255))
      ])
    ]
  where
    fixed : ch ≡ 4 → (ch == pcie_channel && not (text_eq v pcie_restore)) ≡ false → v ≡ pcie_restore
    fixed q e = (text_eq_iff v pcie_restore).0 (ground arith)

    reads_255 : atoi pcie_restore ≡ some (pos 255)
    reads_255 = unfold atoi in refl

parse_channel-Accepts : (o : Option ℤ) (v : Text) → Accepts (parse_channel o v)
unfolding parse_channel
parse_channel-Accepts none v = tt
parse_channel-Accepts (some c) v = elim (Bool-cases (ltb_ℤ c (pos 1) || ltb_ℤ (pos 4) c)) [
  | inl e ↦ rw e tt
  | inr e ↦ rw e (parse_value-Accepts (pos_part c) v (ground arith) (ground arith))
]

parse-Accepts : (s : Text) → Accepts (parse_restore_arg s)
unfolding parse_restore_arg
parse-Accepts s = cases (cut b'=' (trim_space s)) refl
  where
    cases : (o : Option (Text × Text)) → cut b'=' (trim_space s) ≡ o → Accepts (parse_restore_arg s)
    cases none e = rw (e, parse_restore_arg) tt
    cases (some (a, b)) e =
        rw (e, parse_restore_arg)
          (parse_channel-Accepts (number_of (strip_prefix (codes "pwm") a)) b)

-- Whatever text the parser of --restore accepts, its result is a channel 1..4 with "auto" or the text of a
-- duty in 100..255, and with 255 if the channel is pwm4.
pub parse_restore_arg-IsAccepted :
    (s : Text) (ch : ℕ) (v : Text) → parse_restore_arg s ≡ parsed ch v → IsAccepted ch v
parse_restore_arg-IsAccepted s ch v e = subst Accepts e (parse-Accepts s)

checked-pcie : checked pcie_restore ≡ pcie_restore
unfolding checked checked_duty text_eq atoi itoa
checked-pcie = refl

chosen-pcie :
    (args : ℕ → Text) (cfg : Option ((ℕ → Text) × Source)) (ch : ℕ)
    → ch ≡ 4
    → (args ch ≡ []) ⊎ (args ch ≡ pcie_restore)
    → (chosen args cfg ch).0 ≡ pcie_restore
unfolding chosen
chosen-pcie args cfg ch q (inr e) = elim (Bool-cases (text_eq (args ch) [])) [
  | inl f ↦ absurd (nonempty (sym e ∙ (text_eq_iff (args ch) []).0 f))
  | inr f ↦ rw f e
]
  where
    nonempty : pcie_restore ≢ []
    nonempty h = cc
chosen-pcie args none ch q (inl e) = rw ((text_eq_iff (args ch) []).1 e) (ground arith)
chosen-pcie args (some (stop, source)) ch q (inl e) =
    rw ((text_eq_iff (args ch) []).1 e) (ground arith)

-- If every --restore argument given has come from the parser, then the resolved value of pwm4 is 255,
-- whatever the configuration file says, or whether there is one.
pub resolve_restore-pcie :
    (args : ℕ → Text) (file : ConfigFile) (chans : List ℕ)
    → ((ch : ℕ) → (args ch ≡ []) ⊎ ((s : Text) × (parse_restore_arg s ≡ parsed ch (args ch))))
    → All (λ r. r.channel ≡ 4 → r.value ≡ pcie_restore) (resolve_restore args file chans).values
unfolding resolve_restore
resolve_restore-pcie args file chans given =
    All-resolved (λ r. r.channel ≡ 4 → r.value ≡ pcie_restore) args (stop_values file)
      (sort_ints chans)
      (λ ch q.
        ap checked (chosen-pcie args (stop_values file) ch q (given_pcie ch q (given ch)))
        ∙ checked-pcie)
  where
    given_pcie :
        (ch : ℕ)
        → ch ≡ 4
        → (args ch ≡ []) ⊎ ((s : Text) × (parse_restore_arg s ≡ parsed ch (args ch)))
        → (args ch ≡ []) ⊎ (args ch ≡ pcie_restore)
    given_pcie ch q (inl e) = inl e
    given_pcie ch q (inr (s, e)) = inr ((parse_restore_arg-IsAccepted s ch (args ch) e).3 q)
