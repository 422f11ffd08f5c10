-- ===== src/Driver/Dump/RoundTrip.antt =====
-- The dump that `String` shows is the one that `ParseDCR` reads.
use mathlib.Core.List.{append_assoc}
use minisforum_n5pro_fan_pro.Prelude.{
  ℕ, ◌+◌, ◌/◌, ◌%◌, ◌≤◌, ◌<◌, ◌≡◌, refl, sym, ap, ◌∙◌, Bool, true, false, some, List, [], ◌∷◌, ◌++◌,
  map, All, length, length-append, replicate, set, leb, arith, Text, codes, cut, is_space,
  trim_left, trim_right, trim_space, keep_unless_empty, fields, hex_digit, hex_value, parse_hex,
  hex_char, hex_byte,
}
use minisforum_n5pro_fan_pro.Driver.Dump.{
  Dump, ok, ◌>>=◌, empty_dump, dcr_cut, put_byte, fill_dcr, dcr_lines, check_seen, parse_dcr,
  show_bytes, dcr_string,
}
use minisforum_n5pro_fan_pro.Driver.Dump.Fields.{
  IsByte, Plain, hex_char-Plain, parse_hex-hex_byte, fields-show_bytes, NoBreak, split_on-one,
  show_bytes-NoBreak,
}

-- Nothing is cut from the end of the dump.
trim_right-Plain : (c : ℕ) (s : Text) → Plain c → trim_right s ≡ s → trim_right (c ∷ s) ≡ c ∷ s
unfolding trim_right
trim_right-Plain c s p h = rw (p, h) refl

keep-cons : (c d : ℕ) (b : Bool) (s : Text) → keep_unless_empty c b (d ∷ s) ≡ c ∷ d ∷ s
keep-cons c d true s = refl
keep-cons c d false s = refl

trim_right-before :
    (c d : ℕ) (s : Text) → trim_right (d ∷ s) ≡ d ∷ s → trim_right (c ∷ d ∷ s) ≡ c ∷ d ∷ s
unfolding trim_right
trim_right-before c d s h = ap (keep_unless_empty c (is_space c)) h ∙ keep-cons c d (is_space c) s

trim_right-show_bytes : (vs : List ℕ) → All IsByte vs → trim_right (show_bytes vs) ≡ show_bytes vs
unfolding show_bytes hex_byte
trim_right-show_bytes [] b = unfold trim_right in refl
trim_right-show_bytes (v ∷ vs) b = trim_right-before b' ' (hex_char (v / 16)) _ (
    trim_right-before (hex_char (v / 16)) (hex_char (v % 16)) _ (
      trim_right-Plain (hex_char (v % 16)) (show_bytes vs) (hex_char-Plain (v % 16) (omega arith))
        (trim_right-show_bytes vs b.1)))

trim_space-dcr_string : (vs : List ℕ) → All IsByte vs → trim_space (dcr_string vs) ≡ dcr_string vs
unfolding trim_space trim_left is_space dcr_string
trim_space-dcr_string vs b =
    let colon =
      trim_right-Plain b':' (show_bytes vs) (unfold is_space in refl)
        (trim_right-show_bytes vs b) in
    trim_right-before b'1' b'8' _ (
      trim_right-before b'8' b'0' _
        (trim_right-before b'0' b'0' _ (trim_right-before b'0' b':' _ colon)))

set-middle :
    {A : Type 0} (xs ys : List A) (x v : A) (i : ℕ)
    → i ≡ length xs
    → set (xs ++ (x ∷ ys)) i v ≡ xs ++ (v ∷ ys)
set-middle [] ys x v i e = rw e refl
set-middle (y ∷ xs) ys x v i e = rw e (ap (λ zs. y ∷ zs) (set-middle xs ys x v (length xs) refl))

dump_eq :
    {xs ys : List ℕ} {bs cs : List Bool}
    → xs ≡ ys
    → bs ≡ cs
    → ◌≡◌ {A = Dump} (record { bytes = xs; seen = bs }) (record { bytes = ys; seen = cs })
dump_eq e f = cc

put_middle :
    (done rest : List ℕ) (covered left : List Bool) (off v x : ℕ) (y : Bool)
    → off ≡ length done
    → off ≡ length covered
    → put_byte off v (record { bytes = done ++ (x ∷ rest); seen = covered ++ (y ∷ left) })
      ≡ record { bytes = (done ++ (v ∷ [])) ++ rest; seen = (covered ++ (true ∷ [])) ++ left }
unfolding put_byte
put_middle done rest covered left off v x y d c =
    dump_eq (set-middle done rest x v off d ∙ sym (append_assoc done (v ∷ []) rest))
      (set-middle covered left y true off c ∙ sym (append_assoc covered (true ∷ []) left))

fill_one :
    (v off : ℕ) (fs : List Text) (d : Dump)
    → IsByte v
    → off < 16
    → fill_dcr (hex_byte v ∷ fs) off d ≡ fill_dcr fs (off + 1) (put_byte off v d)
unfolding fill_dcr
fill_one v off fs d b h =
    let within_block : leb 16 off ≡ false = ground (arith, h) in
    rw (within_block, fill_dcr) (rw (parse_hex-hex_byte v b) refl)

-- The bytes fill the block from the offset on, and are covered.
fill_dcr-bytes :
    (vs done rest : List ℕ) (covered left : List Bool) (off : ℕ)
    → All IsByte vs
    → off ≡ length done
    → off ≡ length covered
    → length rest ≡ length vs
    → length left ≡ length vs
    → off + length vs ≤ 16
    → fill_dcr (map hex_byte vs) off (record { bytes = done ++ rest; seen = covered ++ left })
      ≡ ok (record { bytes = done ++ vs; seen = covered ++ replicate (length vs) true })
unfolding fill_dcr put_byte
fill_dcr-bytes [] done [] covered [] off b d c r o h = refl
fill_dcr-bytes [] done (x ∷ rest) covered left off b d c r o h = absurd (omega arith)
fill_dcr-bytes [] done [] covered (x ∷ left) off b d c r o h = absurd (omega arith)
fill_dcr-bytes (v ∷ vs) done [] covered left off b d c r o h = absurd (omega arith)
fill_dcr-bytes (v ∷ vs) done (x ∷ rest) covered [] off b d c r o h = absurd (omega arith)
fill_dcr-bytes (v ∷ vs) done (x ∷ rest) covered (y ∷ left) off b d c r o h =
    fill_one v off (map hex_byte vs)
      (record { bytes = done ++ (x ∷ rest); seen = covered ++ (y ∷ left) }) b.0 (omega arith)
    ∙ ap (λ q. fill_dcr (map hex_byte vs) (off + 1) q)
        (put_middle done rest covered left off v x y d c)
    ∙ fill_dcr-bytes vs (done ++ (v ∷ [])) rest (covered ++ (true ∷ [])) left (off + 1) b.1
        (omega (arith, length-append done (v ∷ [])))
        (omega (arith, length-append covered (true ∷ []))) (omega arith) (omega arith) (omega arith)
    ∙ ap ok (
        dump_eq (append_assoc done (v ∷ []) vs)
          (append_assoc covered (true ∷ []) (replicate (length vs) true)))

cut-dcr_string :
    (vs : List ℕ)
    → All IsByte vs
    → cut b':' (trim_space (dcr_string vs)) ≡ some (codes "1800", show_bytes vs)
cut-dcr_string vs b = ap (cut b':') (trim_space-dcr_string vs b) ∙ (unfold cut dcr_string in refl)

dcr_string-NoBreak : (vs : List ℕ) → All IsByte vs → NoBreak (dcr_string vs)
unfolding dcr_string
dcr_string-NoBreak vs b = (refl, (refl, (refl, (refl, (refl, show_bytes-NoBreak vs b)))))

block-bytes :
    (vs : List ℕ)
    → length vs ≡ 16
    → All IsByte vs
    → fill_dcr (fields (show_bytes vs)) 0 (empty_dump 16)
      ≡ ok (record { bytes = vs; seen = replicate 16 true })
block-bytes vs n b =
    ap (λ fs. fill_dcr fs 0 (empty_dump 16)) (fields-show_bytes vs b)
    ∙ fill_dcr-bytes vs [] (replicate 16 0) [] (replicate 16 false) 0 b refl refl (omega (arith, n))
        (omega (arith, n)) (omega (arith, n))
    ∙ ap (λ k. ok (record { bytes = vs; seen = replicate k true })) n

line-bytes :
    (vs : List ℕ)
    → length vs ≡ 16
    → All IsByte vs
    → dcr_lines (dcr_string vs ∷ []) (empty_dump 16)
      ≡ ok (record { bytes = vs; seen = replicate 16 true })
unfolding dcr_lines parse_hex hex_value hex_digit trim_space trim_left trim_right is_space
line-bytes vs n b =
    ap (λ c. dcr_cut c (empty_dump 16) >>= dcr_lines []) (cut-dcr_string vs b)
    ∙ ap (λ p. p >>= dcr_lines []) (block-bytes vs n b)

-- The text that `String` gives for the 16 bytes of the register block is read back by `ParseDCR` as the same bytes.
pub parse_dcr-dcr_string :
    (vs : List ℕ) → length vs ≡ 16 → All IsByte vs → parse_dcr (dcr_string vs) ≡ ok vs
unfolding parse_dcr check_seen
parse_dcr-dcr_string vs n b =
    ap (λ ls. dcr_lines ls (empty_dump 16) >>= check_seen (3 ∷ 4 ∷ 5 ∷ 6 ∷ 7 ∷ []))
      (split_on-one (dcr_string vs) (dcr_string-NoBreak vs b))
    ∙ ap (λ p. p >>= check_seen (3 ∷ 4 ∷ 5 ∷ 6 ∷ 7 ∷ [])) (line-bytes vs n b)
