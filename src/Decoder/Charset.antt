-- ===== src/Decoder/Charset.antt =====
-- src/decoder/charset.py: the text of a sequence of bytes. `codecs.lookup` is an argument: the name
-- of the codec behind a label, or `none` for its errors.
pub mod Utf8
pub mod Chars
pub mod Exact
pub mod Bounds
use nt204_r11_antn_nguyen_th.Base.{
  ℕ, zero, suc, ◌+◌, ◌-◌, ◌*◌, Bool, true, false, not, ◌&&◌, ◌||◌, Option, none, some, List, [],
  ◌∷◌, map, length, filter, take, ltb, leb, ◌==◌, if◌then◌else◌, Text, codes, text_eq, lower, strip,
}

pub data DecodeStatus : Type 0 where
  full partial_text failed skipped : DecodeStatus

-- The dictionary that describes a decoding; `none` is a key that is not set.
pub record Info : Type 0 where
  pub reason : Option Text
  pub charset_unsupported : Option Text
  pub charset : Option Text
  pub invalid_byte_count : Option ℕ
  pub first_invalid_offset : Option ℕ
  pub encodings : Option (List Text)

abbrev pub no_info : Info
no_info = record {
  reason = none;
  charset_unsupported = none;
  charset = none;
  invalid_byte_count = none;
  first_invalid_offset = none;
  encodings = none;
}

pub record Decoded : Type 0 where
  pub text : Text
  pub status : DecodeStatus
  pub info : Info

pub data Codec : Type 0 where
  utf_8 ascii iso8859_1 : Codec

-- `SUPPORTED_CHARSETS`: the codecs by name, and their labels.
abbrev codec_named : Text → Option Codec
codec_named name =
    if text_eq name (codes "utf-8")
    then some utf_8
    else if text_eq name (codes "ascii")
    then some ascii
    else if text_eq name (codes "iso8859-1")
    then some iso8859_1
    else none

abbrev label : Codec → Text
label utf_8 = codes "utf-8"
label ascii = codes "us-ascii"
label iso8859_1 = codes "iso-8859-1"

abbrev is_quote : ℕ → Bool
is_quote c = c == b'"' || c == b'\''

unfoldable pub strip_left : Text → Text
strip_left [] = []
strip_left (c ∷ cs) = if is_quote c then strip_left cs else c ∷ cs

abbrev keep_end : ℕ → Text → Text
keep_end c [] = if is_quote c then [] else c ∷ []
keep_end c (d ∷ ds) = c ∷ d ∷ ds

unfoldable pub strip_right : Text → Text
strip_right [] = []
strip_right (c ∷ cs) = keep_end c (strip_right cs)

-- `_resolve_charset`
unfoldable pub resolve_charset : (Text → Option Text) → Text → Option Codec
resolve_charset lookup hint = elim (lookup (lower (strip_left (strip_right (strip hint))))) [
  | none ↦ none
  | some name ↦ codec_named name
]

abbrev pub between : ℕ → ℕ → ℕ → Bool
between low high b = leb low b && leb b high

abbrev pub continues : ℕ → Bool
continues b = between 0x80 0xBF b

unfoldable pub two_bytes : ℕ → List ℕ → Option (ℕ × ℕ)
two_bytes b [] = none
two_bytes b (c ∷ cs) = if continues c then some ((b - 0xC0) * 64 + (c - 0x80), 1) else none

-- The second byte rules out the forms that are too long and the surrogates.
unfoldable pub three_bytes : ℕ → List ℕ → Option (ℕ × ℕ)
three_bytes b [] = none
three_bytes b (c ∷ []) = none
three_bytes b (c ∷ d ∷ ds) =
    if between (if b == 0xE0 then 0xA0 else 0x80) (if b == 0xED then 0x9F else 0xBF) c
      && continues d
    then some ((b - 0xE0) * 4096 + (c - 0x80) * 64 + (d - 0x80), 2)
    else none

unfoldable pub four_bytes : ℕ → List ℕ → Option (ℕ × ℕ)
four_bytes b [] = none
four_bytes b (c ∷ []) = none
four_bytes b (c ∷ d ∷ []) = none
four_bytes b (c ∷ d ∷ e ∷ es) =
    if between (if b == 0xF0 then 0x90 else 0x80) (if b == 0xF4 then 0x8F else 0xBF) c
      && continues d
      && continues e
    then some ((b - 0xF0) * 262144 + (c - 0x80) * 4096 + (d - 0x80) * 64 + (e - 0x80), 3)
    else none

-- The character that starts with a byte, and how many bytes more it takes.
unfoldable pub char_at : Codec → ℕ → List ℕ → Option (ℕ × ℕ)
char_at utf_8 b bs =
    if ltb b 0x80
    then some (b, 0)
    else if between 0xC2 0xDF b
    then two_bytes b bs
    else if between 0xE0 0xEF b
    then three_bytes b bs
    else if between 0xF0 0xF4 b
    then four_bytes b bs
    else none
char_at ascii b bs = if ltb b 0x80 then some (b, 0) else none
char_at iso8859_1 b bs = some (b, 0)

-- `data.decode(codec, errors="surrogateescape")`, behind the bytes of a character that are passed
-- over: a byte that cannot be decoded becomes a lone surrogate.
unfoldable pub decode_escaped : Codec → ℕ → List ℕ → Text
decode_escaped codec skip [] = []
decode_escaped codec (suc skip) (b ∷ bs) = decode_escaped codec skip bs
decode_escaped codec zero (b ∷ bs) = elim (char_at codec b bs) [
  | none ↦ (0xDC00 + b) ∷ decode_escaped codec 0 bs
  | some (c, more) ↦ c ∷ decode_escaped codec more bs
]

abbrev pub later : Option ℕ → Option ℕ
later none = none
later (some i) = some (suc i)

-- `start` of the `UnicodeDecodeError` of a strict decoding; `none` is no error.
unfoldable pub first_invalid : Codec → ℕ → List ℕ → Option ℕ
first_invalid codec skip [] = none
first_invalid codec (suc skip) (b ∷ bs) = later (first_invalid codec skip bs)
first_invalid codec zero (b ∷ bs) = elim (char_at codec b bs) [
  | none ↦ some 0
  | some (c, more) ↦ later (first_invalid codec more bs)
]

-- `_ESCAPED_BYTE_RE`
abbrev pub is_escaped : ℕ → Bool
is_escaped c = between 0xDC80 0xDCFF c

abbrev pub shown : ℕ → ℕ
shown c = if is_escaped c then 0xFFFD else c

-- `decode_bytes` with the codec and the dictionary chosen.
unfoldable pub decode_with : Codec → Info → List ℕ → Decoded
decode_with codec info bytes =
    let escaped = decode_escaped codec 0 bytes in
    elim (first_invalid codec 0 bytes) [
      | none ↦ record { text = escaped; status = full; info = info }
      | some start ↦ record {
        text = map shown escaped;
        status = partial_text;
        info = record info {
          invalid_byte_count = some (length (filter is_escaped escaped));
          first_invalid_offset = some start;
        };
      }
    ]

abbrev pub labelled : Codec → Info
labelled codec = record no_info { charset = some (label codec) }

abbrev skip_because : Text → Decoded
skip_because why = record {
  text = [];
  status = skipped;
  info = record no_info { reason = some why };
}

-- `BINARY_NUL_RATIO`
abbrev pub is_binary : List ℕ → Bool
is_binary bytes = leb (3 * length bytes) (10 * length (filter (λ b. b == 0) bytes))

-- The codec that a hint stands for, and the dictionary to begin with; `[]` is no hint either.
unfoldable pub choose_codec : (Text → Option Text) → Option Text → Codec × Info
choose_codec lookup none = (utf_8, labelled utf_8)
choose_codec lookup (some []) = (utf_8, labelled utf_8)
choose_codec lookup (some (c ∷ cs)) = elim (resolve_charset lookup (c ∷ cs)) [
  | none ↦ (utf_8, record (labelled utf_8) { charset_unsupported = some (take 64 (c ∷ cs)) })
  | some codec ↦ (codec, labelled codec)
]

unfoldable pub decode_bytes : (Text → Option Text) → List ℕ → Option Text → Bool → Decoded
decode_bytes lookup [] hint detect_binary = skip_because (codes "empty_payload")
decode_bytes lookup (b ∷ bs) hint detect_binary =
    if detect_binary && is_binary (b ∷ bs)
    then skip_because (codes "binary_content")
    else let choice = choose_codec lookup hint in decode_with choice.0 choice.1 (b ∷ bs)
