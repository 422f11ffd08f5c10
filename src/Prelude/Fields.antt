-- ===== src/Prelude/Fields.antt =====
-- More of Go's strings and strconv: lines, fields and hexadecimal numbers.
use Prim.Native.Nat.{ℕ, ◌+◌, ◌-◌, ◌*◌, ◌/◌, ◌%◌}
use mathlib.Core.Bool.{◌&&◌}
use mathlib.Core.Option.{Option, none, some}
use mathlib.Core.List.{List, [], ◌∷◌, ◌++◌}
use minisforum_n5pro_fan_pro.Prelude.Tests.{leb, ltb, ◌==◌, if◌then◌else◌}
use minisforum_n5pro_fan_pro.Prelude.Strings.{Text, is_space}

-- A field that has ended, unless it is empty.
abbrev pub end_field : Text → List Text → List Text
end_field [] fs = fs
end_field (c ∷ cs) fs = (c ∷ cs) ∷ fs

unfoldable pub fields_from : Text → Text → List Text
unfolding is_space
fields_from cur [] = end_field cur []
fields_from cur (c ∷ cs) =
    let next = end_field cur (fields_from [] cs) in
    let more = fields_from (cur ++ (c ∷ [])) cs in if is_space c then next else more

-- `strings.Fields` on ASCII.
unfoldable pub fields : Text → List Text
unfolding fields_from
fields s = fields_from [] s

abbrev pub onto_first : ℕ → List Text → List Text
onto_first c [] = (c ∷ []) ∷ []
onto_first c (l ∷ ls) = (c ∷ l) ∷ ls

-- `strings.Split` at a single code point.
unfoldable pub split_on : ℕ → Text → List Text
split_on sep [] = [] ∷ []
split_on sep (c ∷ cs) =
    let rest = split_on sep cs in if c == sep then [] ∷ rest else onto_first c rest

unfoldable pub hex_digit : ℕ → Option ℕ
hex_digit c =
    if leb b'0' c && leb c b'9'
    then some (c - b'0')
    else if leb b'a' c && leb c b'f'
    then some (c - b'a' + 10)
    else if leb b'A' c && leb c b'F'
    then some (c - b'A' + 10)
    else none

unfoldable pub hex_value : ℕ → Text → Option ℕ
unfolding hex_digit
hex_value acc [] = some acc
hex_value acc (c ∷ cs) = elim (hex_digit c) [ none ↦ none | some d ↦ hex_value (16 * acc + d) cs ]

abbrev pub within : ℕ → Option ℕ → Option ℕ
within limit none = none
within limit (some n) = if ltb n limit then some n else none

-- `strconv.ParseUint` with base 16, below `limit`; every error is `none`.
unfoldable pub parse_hex : ℕ → Text → Option ℕ
unfolding hex_value
parse_hex limit [] = none
parse_hex limit (c ∷ cs) = within limit (hex_value 0 (c ∷ cs))

unfoldable pub hex_char : ℕ → ℕ
hex_char n = if ltb n 10 then b'0' + n else b'a' + (n - 10)

-- `%02x` of a byte.
unfoldable pub hex_byte : ℕ → Text
unfolding hex_char
hex_byte v = hex_char (v / 16) ∷ hex_char (v % 16) ∷ []
