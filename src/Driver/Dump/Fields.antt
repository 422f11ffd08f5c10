-- ===== src/Driver/Dump/Fields.antt =====
-- The shown bytes as fields of one line.
use minisforum_n5pro_fan_pro.Prelude.{
  ℕ, ◌+◌, ◌*◌, ◌/◌, ◌%◌, ◌<◌, ◌≡◌, refl, ap, ◌∙◌, false, some, List, [], ◌∷◌, map, All, ◌==◌, arith,
  Text, is_space, fields, fields_from, split_on, hex_digit, hex_value, parse_hex, hex_char,
  hex_byte, within,
}
use minisforum_n5pro_fan_pro.Driver.Dump.{show_bytes}

abbrev pub IsByte : ℕ → Type 0
IsByte v = v < 256

-- Neither a space nor a line end nor a colon.
abbrev pub Plain : ℕ → Type 0
Plain c = is_space c ≡ false

pub hex_char-Plain : (n : ℕ) → n < 16 → Plain (hex_char n)
unfolding hex_char is_space
hex_char-Plain n h = ground (arith, h)

hex_digit-hex_char : (n : ℕ) → n < 16 → hex_digit (hex_char n) ≡ some n
unfolding hex_char hex_digit
hex_digit-hex_char n h = ground (arith, h)

two_digits :
    (a b x y : ℕ)
    → hex_digit a ≡ some x
    → hex_digit b ≡ some y
    → parse_hex 256 (a ∷ b ∷ []) ≡ within 256 (some (16 * (16 * 0 + x) + y))
unfolding parse_hex hex_value
two_digits a b x y e f = rw (e, hex_value) (rw (f, hex_value) refl)

pub parse_hex-hex_byte : (v : ℕ) → IsByte v → parse_hex 256 (hex_byte v) ≡ some v
unfolding hex_byte
parse_hex-hex_byte v h =
    two_digits (hex_char (v / 16)) (hex_char (v % 16)) (v / 16) (v % 16)
      (hex_digit-hex_char (v / 16) (omega arith)) (hex_digit-hex_char (v % 16) (omega arith))
    ∙ ground arith

fields_from-two :
    (h l : ℕ) (s : Text)
    → Plain h
    → Plain l
    → fields_from [] (h ∷ l ∷ s) ≡ fields_from (h ∷ l ∷ []) s
unfolding fields_from
fields_from-two h l s p q = rw (p, q) refl

fields_from-show_bytes :
    (h l : ℕ) (vs : List ℕ)
    → All IsByte vs
    → fields_from (h ∷ l ∷ []) (show_bytes vs) ≡ (h ∷ l ∷ []) ∷ map hex_byte vs
unfolding fields_from show_bytes hex_byte is_space
fields_from-show_bytes h l [] b = refl
fields_from-show_bytes h l (v ∷ vs) b =
    ap (λ fs. (h ∷ l ∷ []) ∷ fs)
      (fields_from-two (hex_char (v / 16)) (hex_char (v % 16)) (show_bytes vs)
          (hex_char-Plain (v / 16) (omega arith)) (hex_char-Plain (v % 16) (omega arith))
        ∙ fields_from-show_bytes (hex_char (v / 16)) (hex_char (v % 16)) vs b.1)

pub fields-show_bytes : (vs : List ℕ) → All IsByte vs → fields (show_bytes vs) ≡ map hex_byte vs
unfolding fields fields_from show_bytes hex_byte is_space
fields-show_bytes [] b = refl
fields-show_bytes (v ∷ vs) b =
    fields_from-two (hex_char (v / 16)) (hex_char (v % 16)) (show_bytes vs)
      (hex_char-Plain (v / 16) (omega arith)) (hex_char-Plain (v % 16) (omega arith))
    ∙ fields_from-show_bytes (hex_char (v / 16)) (hex_char (v % 16)) vs b.1

-- One line.
abbrev pub NoBreak : Text → Type 0
NoBreak s = All (λ c. (c == b'\n') ≡ false) s

pub split_on-one : (s : Text) → NoBreak s → split_on b'\n' s ≡ s ∷ []
unfolding split_on
split_on-one [] h = refl
split_on-one (c ∷ cs) h = rw (h.0, split_on-one cs h.1) refl

Plain-NoBreak : (c : ℕ) → Plain c → (c == b'\n') ≡ false
unfolding is_space
Plain-NoBreak c h = ground (arith, h)

pub show_bytes-NoBreak : (vs : List ℕ) → All IsByte vs → NoBreak (show_bytes vs)
unfolding show_bytes hex_byte
show_bytes-NoBreak [] b = tt
show_bytes-NoBreak (v ∷ vs) b = (
  refl,
  (
    Plain-NoBreak _ (hex_char-Plain (v / 16) (omega arith)),
    (Plain-NoBreak _ (hex_char-Plain (v % 16) (omega arith)), show_bytes-NoBreak vs b.1),
  ),
)
