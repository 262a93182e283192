-- ===== src/Decoder/Charset/Exact.antt =====
-- src/decoder/charset.py, `decode_bytes`: the encodings of texts, against the bytes that are decoded
-- without an error.
use nt204_r11_antn_nguyen_th.Base.{
  ℕ, zero, suc, ◌<◌, inl, inr, true, ◌≡◌, refl, sym, ap, ◌∙◌, Option, none, some, List, [], ◌∷◌,
  ◌++◌, All, ltb, drop, Text, Bool-cases, arith,
}
use nt204_r11_antn_nguyen_th.Rules.Parser.Decode.{utf8}
use nt204_r11_antn_nguyen_th.Decoder.Charset.{
  Codec, utf_8, ascii, iso8859_1, char_at, later, decode_escaped, first_invalid,
}
use nt204_r11_antn_nguyen_th.Decoder.Charset.Utf8.{Scalar, encode_utf8, encode_utf8-Reads}
use nt204_r11_antn_nguyen_th.Decoder.Charset.Chars.{char_at-Written}

-- The bytes are the encoding of the text.
abbrev pub Encodes : Codec → Text → List ℕ → Type 0
Encodes utf_8 t bs = All Scalar t × (encode_utf8 t ≡ bs)
Encodes ascii t bs = All (λ c. c < 0x80) t × (t ≡ bs)
Encodes iso8859_1 t bs = t ≡ bs

later-none : (first : Option ℕ) → later first ≡ none → first ≡ none
later-none none h = refl
later-none (some i) h = cc

-- The text of bytes without an error, behind those that are passed over, encodes to the bytes.
abbrev Exact : Codec → ℕ → List ℕ → Type 0
Exact codec skip bs = Encodes codec (decode_escaped codec skip bs) (drop skip bs)

char_passed :
    (b c more : ℕ) (bs : List ℕ)
    → char_at utf_8 b bs ≡ some (c, more)
    → first_invalid utf_8 0 (b ∷ bs) ≡ later (first_invalid utf_8 more bs)
unfolding first_invalid
char_passed b c more bs e = rw (first_invalid, e) refl

utf_8_step :
    (b : ℕ) (bs : List ℕ)
    → ((skip : ℕ) → first_invalid utf_8 skip bs ≡ none → Exact utf_8 skip bs)
    → (r : Option (ℕ × ℕ)) → char_at utf_8 b bs ≡ r
    → first_invalid utf_8 0 (b ∷ bs) ≡ none
    → Exact utf_8 0 (b ∷ bs)
unfolding decode_escaped first_invalid encode_utf8
utf_8_step b bs ih none e h = ground (arith, e, h)
utf_8_step b bs ih (some (c, more)) e h =
    let char = char_at-Written b c more bs e in
    let rest = ih more (later-none _ (sym (char_passed b c more bs e) ∙ h)) in
    rw (decode_escaped, e) ((char.0, rest.0), ap (λ xs. utf8 c ++ xs) rest.1 ∙ char.1)

utf_8-Exact : (skip : ℕ) (bs : List ℕ) → first_invalid utf_8 skip bs ≡ none → Exact utf_8 skip bs
unfolding decode_escaped first_invalid encode_utf8
utf_8-Exact zero [] h = (tt, refl)
utf_8-Exact (suc skip) [] h = (tt, refl)
utf_8-Exact (suc skip) (b ∷ bs) h = utf_8-Exact skip bs (later-none _ h)
utf_8-Exact zero (b ∷ bs) h = utf_8_step b bs (λ skip. utf_8-Exact skip bs) _ refl h

ascii-Exact : (bs : List ℕ) → first_invalid ascii 0 bs ≡ none → Exact ascii 0 bs
unfolding decode_escaped first_invalid char_at
ascii-Exact [] h = (tt, refl)
ascii-Exact (b ∷ bs) h = elim (Bool-cases (ltb b 0x80)) [
  | inl e ↦
      let rest = ascii-Exact bs (later-none _ (ground (arith, e, h))) in
      rw (decode_escaped, char_at, e) ((ground (arith, e), rest.0), ap (λ xs. b ∷ xs) rest.1)
  | inr e ↦ ground (arith, e, h)
]

iso8859_1-Exact : (bs : List ℕ) → Exact iso8859_1 0 bs
unfolding decode_escaped char_at
iso8859_1-Exact [] = refl
iso8859_1-Exact (b ∷ bs) = ap (λ xs. b ∷ xs) (iso8859_1-Exact bs)

-- Bytes that are decoded without an error are the encoding of the text that they are decoded to.
pub decode_escaped-Encodes :
    (codec : Codec) (bs : List ℕ)
    → first_invalid codec 0 bs ≡ none
    → Encodes codec (decode_escaped codec 0 bs) bs
decode_escaped-Encodes utf_8 bs h = utf_8-Exact 0 bs h
decode_escaped-Encodes ascii bs h = ascii-Exact bs h
decode_escaped-Encodes iso8859_1 bs h = iso8859_1-Exact bs

ascii_valid : (t : Text) → All (λ c. c < 0x80) t → first_invalid ascii 0 t ≡ none
unfolding first_invalid char_at
ascii_valid [] h = refl
ascii_valid (c ∷ cs) h =
    let short : ltb c 0x80 ≡ true = ground (arith, h.0) in
    rw (first_invalid, char_at, short, ascii_valid cs h.1) refl

iso8859_1_valid : (t : Text) → first_invalid iso8859_1 0 t ≡ none
unfolding first_invalid char_at
iso8859_1_valid [] = refl
iso8859_1_valid (c ∷ cs) = rw (iso8859_1_valid cs) refl

-- The encoding of a text is decoded without an error.
pub first_invalid-Encodes :
    (codec : Codec) (t : Text) (bs : List ℕ) → Encodes codec t bs → first_invalid codec 0 bs ≡ none
first_invalid-Encodes utf_8 t bs h =
    ap (first_invalid utf_8 0) (sym h.1) ∙ (encode_utf8-Reads t h.0).1
first_invalid-Encodes ascii t bs h = ap (first_invalid ascii 0) (sym h.1) ∙ ascii_valid t h.0
first_invalid-Encodes iso8859_1 t bs h = iso8859_1_valid bs
