-- ===== src/Rules/Parser/Decode/Hex.antt =====
-- src/rules/parser.py, `decode_content`: patterns that are written as a hex block.
use nt204_r11_antn_nguyen_th.Base.{
  ℕ, ◌+◌, ◌-◌, ◌*◌, ◌/◌, ◌%◌, ◌<◌, false, ◌≡◌, refl, ap, ◌∙◌, some, List, [], ◌∷◌, ◌++◌, All,
  length, ltb, ◌==◌, if◌then◌else◌, Text, has_prefix, arith,
}
use nt204_r11_antn_nguyen_th.Rules.Syntax.{ok, need, raise_if}
use nt204_r11_antn_nguyen_th.Rules.Parser.Ident.Quoted.{quoted_text-quotes}
use nt204_r11_antn_nguyen_th.Rules.Parser.Decode.{
  hex_value, Mode, in_text, in_hex, half_hex, decode_step, decode_from, decode_raw, inner_text,
  decode_content,
}

abbrev pub hex_digit : ℕ → ℕ
hex_digit n = if ltb n 10 then b'0' + n else b'A' + (n - 10)

-- Bytes as a hex block, two digits each.
unfoldable pub hex_digits : List ℕ → Text
hex_digits [] = []
hex_digits (b ∷ bs) = hex_digit (b / 16) ∷ hex_digit (b % 16) ∷ hex_digits bs

abbrev pub hex_block : List ℕ → Text
hex_block bs = b'|' ∷ hex_digits bs ++ b'|' ∷ []

pub hex_value-hex_digit : (n : ℕ) → n < 16 → hex_value (hex_digit n) ≡ some n
unfolding hex_value
hex_value-hex_digit n h = ground (arith, h)

step_high : (n : ℕ) → n < 16 → decode_step in_hex (hex_digit n) ≡ some (half_hex n, [])
unfolding decode_step
step_high n h =
    let bar : (hex_digit n == b'|') ≡ false = ground (arith, h) in
    let blank : (hex_digit n == b' ') ≡ false = ground (arith, h) in
    let tab : (hex_digit n == b'\t') ≡ false = ground (arith, h) in
    rw (bar, blank, tab, hex_value-hex_digit n h) refl

step_low :
    (m n : ℕ) → n < 16 → decode_step (half_hex m) (hex_digit n) ≡ some (in_hex, (16 * m + n) ∷ [])
unfolding decode_step
step_low m n h =
    let blank : (hex_digit n == b' ') ≡ false = ground (arith, h) in
    let tab : (hex_digit n == b'\t') ≡ false = ground (arith, h) in
    rw (blank, tab, hex_value-hex_digit n h) refl

abbrev pub Bytes : List ℕ → Type 0
Bytes = All (λ b. b < 256)

decode-bar : decode_from in_hex (b'|' ∷ []) ≡ some []
unfolding decode_from decode_step
decode-bar = refl

decode-cons :
    (mode next : Mode) (c : ℕ) (cs : Text) (bs ds : List ℕ)
    → decode_step mode c ≡ some (next, bs)
    → decode_from next cs ≡ some ds
    → decode_from mode (c ∷ cs) ≡ some (bs ++ ds)
unfolding decode_from
decode-cons mode next c cs bs ds h k = rw (decode_from, h, k) refl

decode-hex_digits :
    (bs : List ℕ) → Bytes bs → decode_from in_hex (hex_digits bs ++ b'|' ∷ []) ≡ some bs
unfolding decode_from hex_digits
decode-hex_digits [] h = decode-bar
decode-hex_digits (b ∷ bs) h =
    let rest = hex_digits bs ++ b'|' ∷ [] in
    decode-cons in_hex _ _ (hex_digit (b % 16) ∷ rest) [] _
      (step_high (b / 16) (omega (arith, h.0)))
      (decode-cons (half_hex (b / 16)) _ _ rest (_ ∷ []) bs
        (step_low (b / 16) (b % 16) (omega arith)) (decode-hex_digits bs h.1))
    ∙ ap (λ c. some (c ∷ bs)) (omega arith)

decode-hex_block : (bs : List ℕ) → Bytes bs → decode_from in_text (hex_block bs) ≡ some bs
unfolding decode_step
decode-hex_block bs h =
    decode-cons in_text in_hex b'|' (hex_digits bs ++ b'|' ∷ []) [] bs refl (decode-hex_digits bs h)

decode_raw-filled :
    (raw : Text) (bs : List ℕ)
    → decode_from in_text raw ≡ some bs
    → 0 < length bs
    → decode_raw raw ≡ ok bs
unfolding decode_raw need raise_if
decode_raw-filled raw bs e k =
    let filled : (length bs == 0) ≡ false = ground (arith, k) in rw (e, filled) refl

-- A pattern of bytes, one at least, that is written as a hex block between quotes is decoded to just
-- these bytes.
pub decode_content-hex_block :
    (bs : List ℕ)
    → Bytes bs
    → 0 < length bs
    → decode_content (some (b'"' ∷ hex_block bs ++ b'"' ∷ [])) ≡ ok (hex_block bs, bs)
unfolding decode_content inner_text need raise_if has_prefix
decode_content-hex_block bs h k =
    rw
      (
        quoted_text-quotes (hex_block bs),
        decode_raw-filled (hex_block bs) bs (decode-hex_block bs h) k,
      )
      refl
