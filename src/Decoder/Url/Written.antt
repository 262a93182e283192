-- ===== src/Decoder/Url/Written.antt =====
-- src/decoder/url_decoder.py, `percent_decode`: bytes that are written as percent escapes.
use nt204_r11_antn_nguyen_th.Base.{
  ℕ, ◌*◌, ◌/◌, ◌%◌, ◌<◌, Bool, true, false, ◌≡◌, refl, ap, Option, some, List, [], ◌∷◌, length,
  ◌==◌, Text, codes, text_eq, text_eq_sound, Bool-cases, inl, inr, arith,
}
use nt204_r11_antn_nguyen_th.Rules.Parser.Decode.Hex.{hex_digit, hex_value-hex_digit, Bytes}
use nt204_r11_antn_nguyen_th.Decoder.Charset.{decode_bytes}
use nt204_r11_antn_nguyen_th.Decoder.Url.{
  hex_pair, escape_at, unquote_to_bytes, has_invalid_percent, has_pair, percent_passes,
  plus_to_space, percent_decode,
}

-- Every byte as an escape.
unfoldable pub percent_encode : List ℕ → List ℕ
percent_encode [] = []
percent_encode (b ∷ bs) = b'%' ∷ hex_digit (b / 16) ∷ hex_digit (b % 16) ∷ percent_encode bs

hex_pair-hex_digit : (b : ℕ) → b < 256 → hex_pair (hex_digit (b / 16)) (hex_digit (b % 16)) ≡ some b
unfolding hex_pair
hex_pair-hex_digit b h =
    rw
      (
        hex_pair,
        hex_value-hex_digit (b / 16) (omega (arith, h)),
        hex_value-hex_digit (b % 16) (omega arith),
      )
      (ap some (omega arith))

unquote_to_bytes-percent_encode :
    (bs : List ℕ) → Bytes bs → unquote_to_bytes (percent_encode bs) ≡ bs
unfolding unquote_to_bytes escape_at percent_encode
unquote_to_bytes-percent_encode [] h = refl
unquote_to_bytes-percent_encode (b ∷ bs) h =
    rw
      (
        unquote_to_bytes,
        escape_at,
        hex_pair-hex_digit b h.0,
        unquote_to_bytes-percent_encode bs h.1,
      )
      refl

digit_plain : (n : ℕ) → n < 16 → (hex_digit n == b'%') ≡ false
digit_plain n h = ground (arith, h)

digit-no_plus : (n : ℕ) → n < 16 → (hex_digit n == b'+') ≡ false
digit-no_plus n h = ground (arith, h)

escape_valid :
    (h l b : ℕ) (bs : List ℕ)
    → hex_pair h l ≡ some b
    → (h == b'%') ≡ false
    → (l == b'%') ≡ false
    → has_invalid_percent bs ≡ false
    → has_invalid_percent (b'%' ∷ h ∷ l ∷ bs) ≡ false
unfolding has_invalid_percent
escape_valid h l b bs e p q k = rw (has_pair, e, p, q, k) refl

percent_encode_valid : (bs : List ℕ) → Bytes bs → has_invalid_percent (percent_encode bs) ≡ false
unfolding has_invalid_percent percent_encode
percent_encode_valid [] h = refl
percent_encode_valid (b ∷ bs) h =
    escape_valid _ _ b (percent_encode bs) (hex_pair-hex_digit b h.0)
      (digit_plain (b / 16) (omega (arith, h.0))) (digit_plain (b % 16) (omega arith))
      (percent_encode_valid bs h.1)

plus_to_space-percent_encode :
    (bs : List ℕ) → Bytes bs → plus_to_space (percent_encode bs) ≡ percent_encode bs
unfolding percent_encode
plus_to_space-percent_encode [] h = refl
plus_to_space-percent_encode (b ∷ bs) h =
    rw
      (
        digit-no_plus (b / 16) (omega (arith, h.0)),
        digit-no_plus (b % 16) (omega arith),
        plus_to_space-percent_encode bs h.1,
      )
      refl

length-percent_encode : (bs : List ℕ) → length (percent_encode bs) ≡ 3 * length bs
unfolding percent_encode
length-percent_encode [] = refl
length-percent_encode (b ∷ bs) = let ih = length-percent_encode bs in omega (arith, ih)

percent_encode_differs : (b : ℕ) (bs : List ℕ) → text_eq (b ∷ bs) (percent_encode (b ∷ bs)) ≡ false
percent_encode_differs b bs = elim (Bool-cases (text_eq (b ∷ bs) (percent_encode (b ∷ bs)))) [
  | inr e ↦ e
  | inl e ↦
      let long = ap length (text_eq_sound _ _ e) in
      let more = length-percent_encode (b ∷ bs) in ground (arith, long, more)
]

percent_passes-percent_encode :
    (b : ℕ) (bs : List ℕ)
    → Bytes (b ∷ bs)
    → percent_passes 1 (percent_encode (b ∷ bs))
      ≡ record { current_bytes = b ∷ bs; encodings = codes "percent" ∷ []; invalid_percent = false }
unfolding percent_passes percent_encode
percent_passes-percent_encode b bs h =
    rw
      (
        percent_passes,
        unquote_to_bytes-percent_encode (b ∷ bs) h,
        percent_encode_differs b bs,
        percent_encode_valid (b ∷ bs) h,
        unquote_to_bytes-percent_encode (b ∷ bs) h,
      )
      refl

-- Bytes, one at least, that are all written as escapes are decoded in one pass to the text, the
-- status and the description that the bytes themselves have, with the pass noted in the encodings;
-- a `+` that stands for a space does not matter, as none is written.
pub percent_decode-percent_encode :
    (lookup : Text → Option Text) (b : ℕ) (bs : List ℕ) (plus : Bool) (hint : Option Text)
    → Bytes (b ∷ bs)
    → let plain = decode_bytes lookup (b ∷ bs) hint false in
      percent_decode lookup (percent_encode (b ∷ bs)) 1 plus hint
      ≡ record plain { info = record plain.info { encodings = some (codes "percent" ∷ []) } }
unfolding percent_decode
percent_decode-percent_encode lookup b bs false hint h =
    rw (percent_passes-percent_encode b bs h) refl
percent_decode-percent_encode lookup b bs true hint h =
    rw (plus_to_space-percent_encode (b ∷ bs) h, percent_passes-percent_encode b bs h) refl
