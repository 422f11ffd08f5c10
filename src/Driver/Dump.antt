-- ===== src/Driver/Dump.antt =====
-- go/n5/n5driver/n5driver.go: the dumps of the EC registers (`DCR`, `ParseDCR`) and of the EC RAM (`ECRAM`, `ParseECRAM`).
-- An array is the list of its bytes, with the list of those that a dump has covered.
pub mod Fields
pub mod RoundTrip
use minisforum_n5pro_fan_pro.Prelude.{
  ℕ, suc, ◌+◌, ◌-◌, ◌^◌, Bool, true, false, ◌||◌, Option, none, some, List, [], ◌∷◌, ◌++◌,
  replicate, set, get_or, leb, ltb, if◌then◌else◌, Text, codes, cut, trim_space, fields, split_on,
  parse_hex, hex_byte,
}
use minisforum_n5pro_fan_pro.Runner.Env.{channel_dcr}

-- `bad_byte` and `too_long` name the text, `uncovered` the first byte that the dump lacks.
pub data DumpError : Type 0 where
  bad_byte : Text → DumpError
  too_long : (row : ℕ) → DumpError
  uncovered : (at : ℕ) → DumpError

pub data Parsed {ℓ} (A : Type ℓ) : Type ℓ where
  ok : A → Parsed A
  err : DumpError → Parsed A

infixl 5 ◌>>=◌
abbrev pub ◌>>=◌ {ℓ κ} : {A : Type ℓ} {B : Type κ} → Parsed A → (A → Parsed B) → Parsed B
ok a >>= f = f a
err e >>= f = err e

pub record Dump : Type 0 where
  pub bytes : List ℕ
  pub seen : List Bool

abbrev pub empty_dump : ℕ → Dump
empty_dump n = record { bytes = replicate n 0; seen = replicate n false }

unfoldable pub put_byte : ℕ → ℕ → Dump → Dump
put_byte off v d = record { bytes = set d.bytes off v; seen = set d.seen off true }

abbrev pub byte_or : Text → Option ℕ → (ℕ → Parsed Dump) → Parsed Dump
byte_or f none next = err (bad_byte f)
byte_or f (some v) next = next v

-- The fields of one line from the offset `off` on; those beyond the block are not read.
unfoldable pub fill_dcr : List Text → ℕ → Dump → Parsed Dump
unfolding parse_hex put_byte
fill_dcr [] off d = ok d
fill_dcr (f ∷ fs) off d =
    let rest = byte_or f (parse_hex 256 f) (λ v. fill_dcr fs (off + 1) (put_byte off v d)) in
    if leb 16 off then ok d else rest

abbrev pub dcr_row : Option ℕ → Text → Dump → Parsed Dump
dcr_row none rest d = ok d
dcr_row (some a) rest d =
    if ltb a 0x1800 || ltb 0x180f a then ok d else fill_dcr (fields rest) (a - 0x1800) d

abbrev pub dcr_cut : Option (Text × Text) → Dump → Parsed Dump
dcr_cut none d = ok d
dcr_cut (some (addr, rest)) d = dcr_row (parse_hex (2 ^ 16) (trim_space addr)) rest d

unfoldable pub dcr_lines : List Text → Dump → Parsed Dump
unfolding fill_dcr cut trim_space fields parse_hex
dcr_lines [] d = ok d
dcr_lines (l ∷ ls) d = dcr_cut (cut b':' (trim_space l)) d >>= dcr_lines ls

-- The first of the bytes from `off` on that is not covered.
unfoldable pub check_seen : List ℕ → Dump → Parsed (List ℕ)
check_seen [] d = ok d.bytes
check_seen (n ∷ ns) d = if get_or d.seen n false then check_seen ns d else err (uncovered n)

-- `ParseDCR`: the bytes 3..7 must be covered.
unfoldable pub parse_dcr : Text → Parsed (List ℕ)
unfolding dcr_lines check_seen split_on
parse_dcr s = dcr_lines (split_on b'\n' s) (empty_dump 16) >>= check_seen (3 ∷ 4 ∷ 5 ∷ 6 ∷ 7 ∷ [])

unfoldable pub show_bytes : List ℕ → Text
unfolding hex_byte
show_bytes [] = []
show_bytes (v ∷ vs) = b' ' ∷ (hex_byte v ++ show_bytes vs)

-- `DCR.String`.
unfoldable pub dcr_string : List ℕ → Text
unfolding show_bytes
dcr_string d = codes "1800:" ++ show_bytes d

-- `DCR.Reg`.
unfoldable pub dcr_reg : List ℕ → ℕ → ℕ
dcr_reg d n = get_or d (2 + n) 0

abbrev reg_at : List ℕ → Option ℕ → Option ℕ
reg_at d none = none
reg_at d (some n) = some (dcr_reg d n)

-- `DCR.Channel`.
unfoldable pub dcr_channel : List ℕ → ℕ → Option ℕ
unfolding dcr_reg channel_dcr
dcr_channel d pwm = reg_at d (channel_dcr pwm)

-- One row of the EC RAM; a field beyond its end is an error.
unfoldable pub fill_ecram : ℕ → List Text → ℕ → Dump → Parsed Dump
unfolding parse_hex put_byte
fill_ecram row [] off d = ok d
fill_ecram row (f ∷ fs) off d =
    let rest = byte_or f (parse_hex 256 f) (λ v. fill_ecram row fs (off + 1) (put_byte off v d)) in
    if ltb 0xff off then err (too_long row) else rest

abbrev pub ecram_row : Option ℕ → Text → Dump → Parsed Dump
ecram_row none rest d = ok d
ecram_row (some a) rest d = if ltb 0xff a then ok d else fill_ecram a (fields rest) a d

abbrev pub ecram_cut : Option (Text × Text) → Dump → Parsed Dump
ecram_cut none d = ok d
ecram_cut (some (addr, rest)) d = ecram_row (parse_hex (2 ^ 16) (trim_space addr)) rest d

unfoldable pub ecram_lines : List Text → Dump → Parsed Dump
unfolding fill_ecram cut trim_space fields parse_hex
ecram_lines [] d = ok d
ecram_lines (l ∷ ls) d = ecram_cut (cut b':' (trim_space l)) d >>= ecram_lines ls

-- Every byte, in order of the addresses.
unfoldable pub all_seen : ℕ → List Bool → List ℕ → Parsed (List ℕ)
all_seen at [] bytes = ok bytes
all_seen at (b ∷ bs) bytes = if b then all_seen (at + 1) bs bytes else err (uncovered at)

-- `ParseECRAM`: all 256 bytes must be covered.
unfoldable pub parse_ecram : Text → Parsed (List ℕ)
unfolding ecram_lines all_seen split_on
parse_ecram s = ecram_lines (split_on b'\n' s) (empty_dump 256) >>= λ d. all_seen 0 d.seen d.bytes
