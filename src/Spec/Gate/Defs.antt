-- ===== src/Spec/Gate/Defs.antt =====
-- ectest/internal/spec/eval.go: `EvalG4`. Temperatures are thousandths of a degree and times milliseconds;
-- the tolerance 1e-9 of the source has no effect on whole thousandths. Means are compared as fractions.
use minisforum_n5pro_fan_pro.Prelude.{
  ℕ, ◌+◌, ◌*◌, Bool, true, false, ◌&&◌, ◌||◌, Option, none, some, List, [], ◌∷◌, ◌++◌, ℤ, pos_part,
  neg_part, ltb_ℤ, leb, ltb, if◌then◌else◌,
}
use minisforum_n5pro_fan_pro.Spec.Sample.{Sample}
use minisforum_n5pro_fan_pro.Spec.Tables.{Mean, mean_ℤ, gate_temp_delta, gate_trend}

-- The sensors with an abort limit, and the inputs that must be stable.
pub data Limit : Type 0 where
  tctl nvme hdd : Limit

pub data Input : Type 0 where
  system ambient disk : Input

abbrev pub limit_value : Limit → Sample → Option ℤ
limit_value tctl s = s.tctl
limit_value nvme s = s.nvme_max
limit_value hdd s = s.hdd_max

abbrev pub input_value : Input → Sample → Option ℤ
input_value system s = s.ec_sys
input_value ambient s = s.ec_amb
input_value disk s = s.hdd_max

pub data G4Part : Type 0 where
  limit_missing : Limit → G4Part
  input_missing : Input → G4Part
  window_missing : Input → G4Part
  measured : Input → (lo hi : ℤ) → (first last : Mean ℤ) → Bool → G4Part

abbrev has_value : Option ℤ → Bool
has_value none = false
has_value (some v) = true

unfoldable pub limit_seen : Limit → List Sample → Bool
limit_seen l [] = false
limit_seen l (s ∷ ss) = has_value (limit_value l s) || limit_seen l ss

-- The readable values of an input.
abbrev pub keep : Option ℤ → List ℤ → List ℤ
keep none vs = vs
keep (some v) vs = v ∷ vs

unfoldable pub values : Input → List Sample → List ℤ
values c [] = []
values c (s ∷ ss) = keep (input_value c s) (values c ss)

unfoldable pub lowest : ℤ → List ℤ → ℤ
lowest lo [] = lo
lowest lo (v ∷ vs) = lowest (if ltb_ℤ v lo then v else lo) vs

unfoldable pub highest : ℤ → List ℤ → ℤ
highest hi [] = hi
highest hi (v ∷ vs) = highest (if ltb_ℤ hi v then v else hi) vs

-- The values of the samples that satisfy a test on their time.
unfoldable pub values_when : (ℕ → Bool) → Input → List Sample → List (Option ℤ)
values_when at c [] = []
values_when at c (s ∷ ss) =
    let rest = values_when at c ss in if at s.ts then input_value c s ∷ rest else rest

unfoldable pub last_ts : ℕ → List Sample → ℕ
last_ts t [] = t
last_ts t (s ∷ ss) = last_ts s.ts ss

-- |b - a| < 1 C.
abbrev pub close : Mean ℤ → Mean ℤ → Bool
close a b =
    let margin = gate_temp_delta * (a.count * b.count) in
    ltb (pos_part b.sum * a.count + neg_part a.sum * b.count)
      (pos_part a.sum * b.count + neg_part b.sum * a.count + margin)
    && ltb (pos_part a.sum * b.count + neg_part b.sum * a.count)
        (pos_part b.sum * a.count + neg_part a.sum * b.count + margin)

-- hi - lo <= 1 C.
abbrev pub narrow : ℤ → ℤ → Bool
narrow lo hi = leb (pos_part hi + neg_part lo) (pos_part lo + neg_part hi + gate_temp_delta)

pub record InputResult : Type 0 where
  pub stable : Bool
  pub parts : List G4Part

abbrev pub judge_means : Input → (lo hi : ℤ) → Option (Mean ℤ) → Option (Mean ℤ) → InputResult
judge_means c lo hi (some a) (some b) =
    let ok = narrow lo hi && close a b in
    record { stable = ok; parts = measured c lo hi a b ok ∷ [] }
judge_means c lo hi _ _ = record { stable = false; parts = window_missing c ∷ [] }

-- A disk without a value is reported with the limit sensors.
abbrev missing_part : Input → List G4Part
missing_part disk = []
missing_part c = input_missing c ∷ []

unfoldable pub judge_values : Input → (t0 t1 : ℕ) → List Sample → List ℤ → InputResult
unfolding values_when lowest highest mean_ℤ
judge_values c t0 t1 rows [] = record { stable = false; parts = missing_part c }
judge_values c t0 t1 rows (v ∷ vs) =
    judge_means c (lowest v vs) (highest v vs)
      (mean_ℤ (values_when (λ ts. leb ts (t0 + gate_trend)) c rows))
      (mean_ℤ (values_when (λ ts. leb t1 (ts + gate_trend)) c rows))

unfoldable pub judge_input : Input → Sample → List Sample → InputResult
unfolding judge_values values last_ts
judge_input c s ss = judge_values c s.ts (last_ts s.ts ss) (s ∷ ss) (values c (s ∷ ss))

pub record G4Result : Type 0 where
  pub passes : Bool
  pub parts : List G4Part
  pub limit : Limit → Bool

abbrev limit_part : Limit → Bool → List G4Part
limit_part l true = []
limit_part l false = limit_missing l ∷ []

-- The source reads the first row, so there is one.
unfoldable pub eval_g4 : Sample → List Sample → G4Result
unfolding limit_seen judge_input
eval_g4 s ss =
    let seen = λ (l : Limit). limit_seen l (s ∷ ss) in
    let sys = judge_input system s ss in
    let amb = judge_input ambient s ss in
    let dsk = judge_input disk s ss in
    record {
      passes = seen tctl && seen nvme && seen hdd && sys.stable && amb.stable && dsk.stable;
      parts =
          limit_part tctl (seen tctl)
          ++ (limit_part nvme (seen nvme)
              ++ (limit_part hdd (seen hdd) ++ (sys.parts ++ (amb.parts ++ dsk.parts))));
      limit = seen;
    }
