-- ===== src/Decoder/Charset/Bounds.antt =====
-- src/decoder/charset.py, `decode_bytes`: what a partial decoding tells of the bytes.
use nt204_r11_antn_nguyen_th.Base.{
  ℕ, zero, suc, ◌+◌, ◌<◌, ◌≤◌, Bool, true, false, ◌≡◌, ◌⊎◌, inl, inr, ◌*◌, ◌==◌, refl, Option, none,
  some, List, [], ◌∷◌, length, filter, map, ◌&&◌, Text, Bool-cases, arith,
}
use nt204_r11_antn_nguyen_th.Rules.Parser.Decode.Hex.{Bytes}
use nt204_r11_antn_nguyen_th.Decoder.Charset.Exact.{
  Encodes, decode_escaped-Encodes, first_invalid-Encodes,
}
use nt204_r11_antn_nguyen_th.Decoder.Charset.{
  Codec, utf_8, ascii, iso8859_1, between, char_at, two_bytes, three_bytes, four_bytes,
  resolve_charset, choose_codec, is_binary, full, failed, skipped, shown, later, decode_escaped,
  first_invalid, is_escaped, Info, Decoded, partial_text, DecodeStatus, decode_with, decode_bytes,
}

abbrev count_escaped : Text → ℕ
count_escaped t = length (filter is_escaped t)

two_bytes_plain :
    (b c m : ℕ) (bs : List ℕ)
    → between 0xC2 0xDF b ≡ true
    → two_bytes b bs ≡ some (c, m)
    → is_escaped c ≡ false
unfolding two_bytes
two_bytes_plain b c m [] k h = cc
two_bytes_plain b c m (d ∷ bs) k h = ground (arith, k, h)

three_bytes_plain :
    (b c m : ℕ) (bs : List ℕ)
    → between 0xE0 0xEF b ≡ true
    → three_bytes b bs ≡ some (c, m)
    → is_escaped c ≡ false
unfolding three_bytes
three_bytes_plain b c m [] k h = cc
three_bytes_plain b c m (d ∷ []) k h = cc
three_bytes_plain b c m (d ∷ e ∷ bs) k h = ground (arith, k, h)

four_bytes_plain :
    (b c m : ℕ) (bs : List ℕ)
    → between 0xF0 0xF4 b ≡ true
    → four_bytes b bs ≡ some (c, m)
    → is_escaped c ≡ false
unfolding four_bytes
four_bytes_plain b c m [] k h = cc
four_bytes_plain b c m (d ∷ []) k h = cc
four_bytes_plain b c m (d ∷ e ∷ []) k h = cc
four_bytes_plain b c m (d ∷ e ∷ f ∷ bs) k h = ground (arith, k, h)

-- No byte is decoded to one of the surrogates that stand for an invalid byte.
char_plain :
    (codec : Codec) (b c m : ℕ) (bs : List ℕ)
    → b < 256
    → char_at codec b bs ≡ some (c, m)
    → is_escaped c ≡ false
unfolding char_at
char_plain utf_8 b c m bs k h =
    ground
      (arith, h, two_bytes_plain b c m bs, three_bytes_plain b c m bs, four_bytes_plain b c m bs)
char_plain ascii b c m bs k h = ground (arith, k, h)
char_plain iso8859_1 b c m bs k h = ground (arith, k, h)

invalid_byte :
    (codec : Codec) (b : ℕ) (bs : List ℕ)
    → b < 256
    → char_at codec b bs ≡ none
    → is_escaped (0xDC00 + b) ≡ true
unfolding char_at
invalid_byte utf_8 b bs k h = ground (arith, k, h)
invalid_byte ascii b bs k h = ground (arith, k, h)
invalid_byte iso8859_1 b bs k h = cc

count-le :
    (codec : Codec) (skip : ℕ) (bs : List ℕ)
    → count_escaped (decode_escaped codec skip bs) ≤ length bs
unfolding decode_escaped
count-le codec skip [] = omega arith
count-le codec (suc skip) (b ∷ bs) = let ih = count-le codec skip bs in omega (arith, ih)
count-le codec zero (b ∷ bs) =
    elim (char_at codec b bs)
      as (λ r.
        count_escaped (elim r [
          | none ↦ (0xDC00 + b) ∷ decode_escaped codec 0 bs
          | some (c, more) ↦ c ∷ decode_escaped codec more bs
        ])
        ≤ length (b ∷ bs)) [
          | none ↦ let ih = count-le codec 0 bs in ground (arith, ih)
          | some (c, more) ↦ let ih = count-le codec more bs in ground (arith, ih)
        ]

-- What the first invalid byte and the number of them say of each other.
abbrev Tells : Option ℕ → ℕ → ℕ → Type 0
Tells none n len = n ≡ 0
Tells (some i) n len = (0 < n) × (n + i ≤ len)

Tells-later : (first : Option ℕ) (n len : ℕ) → Tells first n len → Tells (later first) n (suc len)
Tells-later none n len h = h
Tells-later (some i) n len h = (h.0, omega (arith, h.1))

invalid_step :
    (codec : Codec) (b : ℕ) (bs : List ℕ)
    → b < 256
    → ((skip : ℕ)
        → Tells
            (first_invalid codec skip bs)
            (count_escaped (decode_escaped codec skip bs))
            (length bs))
    → (r : Option (ℕ × ℕ)) → char_at codec b bs ≡ r
    → Tells
        (first_invalid codec 0 (b ∷ bs))
        (count_escaped (decode_escaped codec 0 (b ∷ bs)))
        (length (b ∷ bs))
unfolding decode_escaped first_invalid
invalid_step codec b bs k ih none e =
    let rest = count-le codec 0 bs in
    rw (first_invalid, decode_escaped, e, invalid_byte codec b bs k e)
      (omega arith, omega (arith, rest))
invalid_step codec b bs k ih (some (c, more)) e =
    rw (first_invalid, decode_escaped, e, char_plain codec b c more bs k e)
      (Tells-later _ _ _ (ih more))

first_invalid-Tells :
    (codec : Codec) (skip : ℕ) (bs : List ℕ)
    → Bytes bs
    → Tells (first_invalid codec skip bs) (count_escaped (decode_escaped codec skip bs)) (length bs)
unfolding decode_escaped first_invalid
first_invalid-Tells codec skip [] h = refl
first_invalid-Tells codec (suc skip) (b ∷ bs) h =
    Tells-later _ _ _ (first_invalid-Tells codec skip bs h.1)
first_invalid-Tells codec zero (b ∷ bs) h =
    invalid_step codec b bs h.0 (λ skip. first_invalid-Tells codec skip bs h.1) _ refl

count-shown : (t : Text) → count_escaped (map shown t) ≡ 0
count-shown [] = refl
count-shown (c ∷ cs) = let ih = count-shown cs in ground (arith, ih)

-- The count and the offset of a description.
abbrev pub InBounds : ℕ → Option ℕ → Option ℕ → Type 0
InBounds len (some n) (some i) = (0 < n) × (n + i ≤ len)
InBounds len none first = ⊥
InBounds len (some n) none = ⊥

-- What the status says of the bytes, for the codec chosen, of the text and of the description.
abbrev pub Describes : Codec → Bool → List ℕ → DecodeStatus → Decoded → Type 0
Describes codec detect bs full d = Encodes codec d.text bs × (d.info.invalid_byte_count ≡ none)
Describes codec detect bs partial_text d =
    ¬ ((t : Text) × Encodes codec t bs)
    × (count_escaped d.text ≡ 0)
    × InBounds (length bs) d.info.invalid_byte_count d.info.first_invalid_offset
Describes codec detect bs failed d = ⊥
Describes codec detect bs skipped d =
    (d.text ≡ [])
    × (d.info.charset ≡ none)
    × ((bs ≡ []) ⊎ ((detect ≡ true) × (3 * length bs ≤ 10 * length (filter (λ b. b == 0) bs))))

described :
    (codec : Codec) (info : Info) (detect : Bool) (bs : List ℕ) (first : Option ℕ)
    → info.invalid_byte_count ≡ none
    → Tells first (count_escaped (decode_escaped codec 0 bs)) (length bs)
    → first_invalid codec 0 bs ≡ first
    → let d = decode_with codec info bs in Describes codec detect bs d.status d
unfolding decode_with
described codec info detect bs none h t e =
    rw (decode_with, e) (decode_escaped-Encodes codec bs e, h)
described codec info detect bs (some i) h t e =
    let broken : ¬ ((t : Text) × Encodes codec t bs) =
      λ (text, encodes). ground (arith, e, first_invalid-Encodes codec text bs encodes) in
    rw (decode_with, e) (broken, count-shown (decode_escaped codec 0 bs), t)

resolved_fresh :
    (lookup : Text → Option Text) (c : ℕ) (cs : Text) (r : Option Codec)
    → resolve_charset lookup (c ∷ cs) ≡ r
    → (choose_codec lookup (some (c ∷ cs))).1.invalid_byte_count ≡ none
unfolding choose_codec
resolved_fresh lookup c cs none e = rw (choose_codec, e) refl
resolved_fresh lookup c cs (some codec) e = rw (choose_codec, e) refl

choice_fresh :
    (lookup : Text → Option Text) (hint : Option Text)
    → (choose_codec lookup hint).1.invalid_byte_count ≡ none
unfolding choose_codec
choice_fresh lookup none = refl
choice_fresh lookup (some []) = refl
choice_fresh lookup (some (c ∷ cs)) = resolved_fresh lookup c cs _ refl

-- A decoding never fails. When it is full, the bytes are the encoding of the text in the codec chosen,
-- and no count is given. When it is partial, they are the encoding of no text at all; at least one
-- byte is counted as invalid, from the first of them on there are at least as many bytes as are
-- counted, and no surrogate that stands for a byte is left in the text. When the bytes are skipped,
-- the text is empty, and either there are no bytes or binary content is looked for and at least three
-- in ten of them are NUL.
pub decode_bytes-Describes :
    (lookup : Text → Option Text) (bs : List ℕ) (hint : Option Text) (detect_binary : Bool)
    → Bytes bs
    → let d = decode_bytes lookup bs hint detect_binary in
      Describes (choose_codec lookup hint).0 detect_binary bs d.status d
unfolding decode_bytes
decode_bytes-Describes lookup [] hint detect h = (refl, refl, inl refl)
decode_bytes-Describes lookup (b ∷ bs) hint detect h =
    let choice = choose_codec lookup hint in
    let rest =
      described choice.0 choice.1 detect (b ∷ bs) _ (choice_fresh lookup hint)
        (first_invalid-Tells choice.0 0 (b ∷ bs) h) refl in
    elim (Bool-cases (detect && is_binary (b ∷ bs))) [
      | inl e ↦ rw (decode_bytes, e) (refl, refl, inr (ground (arith, e), ground (arith, e)))
      | inr e ↦ rw (decode_bytes, e) rest
    ]
