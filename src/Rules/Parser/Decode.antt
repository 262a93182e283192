-- ===== src/Rules/Parser/Decode.antt =====
-- src/rules/parser.py, `decode_content`: the bytes that the text of a content stands for.
pub mod Hex
use nt204_r11_antn_nguyen_th.Base.{
  ℕ, zero, suc, ◌+◌, ◌-◌, ◌*◌, ◌/◌, ◌%◌, Bool, true, false, not, ◌&&◌, ◌||◌, Option, none, some,
  List, [], ◌∷◌, ◌++◌, length, drop, ltb, leb, ◌==◌, if◌then◌else◌, Text, codes, text_eq, one_of,
  heads, is_digit, ℤ, pos, negsuc, has_prefix,
}
use nt204_r11_antn_nguyen_th.Models.Rule.{ContentSpec}
use nt204_r11_antn_nguyen_th.Rules.Syntax.{
  Reason, invalid, unsupported, Result, ok, err, need, raise_if, ◌>>=◌,
}
use nt204_r11_antn_nguyen_th.Rules.Parser.Tokens.{OptionPair}
use nt204_r11_antn_nguyen_th.Rules.Parser.Ident.{
  bad_value, duplicate, quoted_text, unescaped, non_negative_int,
}

-- `_bad_content`
abbrev pub bad_content : Reason
bad_content = bad_value (codes "content")

unfoldable pub hex_value : ℕ → Option ℕ
hex_value c =
    if is_digit c
    then some (c - b'0')
    else if leb b'a' c && leb c b'f'
    then some (c - b'a' + 10)
    else if leb b'A' c && leb c b'F'
    then some (c - b'A' + 10)
    else none

-- The bytes of `chr(c).encode("utf-8")`.
unfoldable pub utf8 : ℕ → List ℕ
utf8 c =
    if ltb c 0x80
    then c ∷ []
    else if ltb c 0x800
    then (0xC0 + c / 64) ∷ (0x80 + c % 64) ∷ []
    else if ltb c 0x10000
    then (0xE0 + c / 4096) ∷ (0x80 + c / 64 % 64) ∷ (0x80 + c % 64) ∷ []
    else (0xF0 + c / 262144) ∷ (0x80 + c / 4096 % 64) ∷ (0x80 + c / 64 % 64) ∷ (0x80 + c % 64) ∷ []

-- U+FFFD, or a lone surrogate, which has no encoding.
abbrev pub is_unencodable : ℕ → Bool
is_unencodable c = c == 0xFFFD || leb 0xD800 c && leb c 0xDFFF

-- `_encode_text`
unfoldable pub encode_text : Text → Option (List ℕ)
encode_text [] = some []
encode_text (c ∷ cs) =
    let rest = encode_text cs in
    if is_unencodable c then none else elim rest [ none ↦ none | some bs ↦ some (utf8 c ++ bs) ]

-- Where the loop of `decode_content` stands: in text, behind a backslash, or in a hex block with
-- or without a digit that waits for its other half.
pub data Mode : Type 0 where
  in_text behind_backslash in_hex : Mode
  half_hex : ℕ → Mode

-- The mode after a character, and the bytes that it adds; `none` is `_bad_content`.
unfoldable pub decode_step : Mode → ℕ → Option (Mode × List ℕ)
decode_step in_text c =
    if c == b'|'
    then some (in_hex, [])
    else if c == b'\\'
    then some (behind_backslash, [])
    else if c == b'"'
    then none
    else elim (encode_text (c ∷ [])) [ none ↦ none | some bs ↦ some (in_text, bs) ]
decode_step behind_backslash c = elim (encode_text (unescaped c)) [
  | none ↦ none
  | some bs ↦ some (in_text, bs)
]
decode_step in_hex c =
    if c == b'|'
    then some (in_text, [])
    else if c == b' ' || c == b'\t'
    then some (in_hex, [])
    else elim (hex_value c) [ none ↦ none | some h ↦ some (half_hex h, []) ]
decode_step (half_hex h) c =
    if c == b' ' || c == b'\t'
    then some (half_hex h, [])
    else elim (hex_value c) [ none ↦ none | some l ↦ some (in_hex, (16 * h + l) ∷ []) ]

-- The loop of `decode_content`, which has to end in text.
unfoldable pub decode_from : Mode → Text → Option (List ℕ)
decode_from in_text [] = some []
decode_from behind_backslash [] = none
decode_from in_hex [] = none
decode_from (half_hex h) [] = none
decode_from mode (c ∷ cs) = elim (decode_step mode c) [
  | none ↦ none
  | some (next, bs) ↦ elim (decode_from next cs) [ none ↦ none | some ds ↦ some (bs ++ ds) ]
]

-- The bytes of the text between the quotes, of which there is one at least.
unfoldable pub decode_raw : Text → Result (List ℕ)
decode_raw raw = do
  bytes ← need (decode_from in_text raw) bad_content
  raise_if (length bytes == 0) bad_content (ok bytes)

-- A value with a quote behind a `!`.
abbrev pub is_negated : Option Text → Bool
is_negated none = false
is_negated (some value) = has_prefix (codes "!\"") value

unfoldable pub inner_text : Option Text → Option Text
inner_text none = none
inner_text (some value) = quoted_text value

-- `decode_content`: the pair of the raw text and the pattern.
unfoldable pub decode_content : Option Text → Result (Text × List ℕ)
unfolding decode_raw inner_text
decode_content value =
    raise_if (is_negated value) (unsupported (codes "content_negation"))
      (do raw ← need (inner_text value) bad_content; pattern ← decode_raw raw; ok (raw, pattern))
