-- ===== src/Decoder/Charset/Utf8.antt =====
-- src/decoder/charset.py, `decode_bytes`: texts that are written in UTF-8.
use nt204_r11_antn_nguyen_th.Base.{
  ℕ, ◌+◌, ◌/◌, ◌%◌, ◌<◌, ◌≤◌, ◌⊎◌, inl, inr, ◌≡◌, refl, none, some, List, [], ◌∷◌, ◌++◌, All, ltb,
  Text, Bool-cases, arith,
}
use nt204_r11_antn_nguyen_th.Rules.Parser.Decode.{utf8}
use nt204_r11_antn_nguyen_th.Decoder.Charset.{
  utf_8, Info, full, char_at, two_bytes, three_bytes, four_bytes, decode_escaped, first_invalid,
  decode_with,
}

-- A code point that is no surrogate.
abbrev pub Scalar : ℕ → Type 0
Scalar c = (c < 0xD800) ⊎ ((0xDFFF < c) × (c < 0x110000))

-- `text.encode("utf-8")`
unfoldable pub encode_utf8 : Text → List ℕ
encode_utf8 [] = []
encode_utf8 (c ∷ cs) = utf8 c ++ encode_utf8 cs

char_at-one : (c : ℕ) (bs : List ℕ) → c < 0x80 → char_at utf_8 c bs ≡ some (c, 0)
unfolding char_at
char_at-one c bs h = ground (arith, h)

char_at-two :
    (c : ℕ) (bs : List ℕ)
    → 0x80 ≤ c
    → c < 0x800
    → char_at utf_8 (0xC0 + c / 64) ((0x80 + c % 64) ∷ bs) ≡ some (c, 1)
unfolding char_at two_bytes
char_at-two c bs h k = ground (arith, h, k)

char_at-three :
    (c : ℕ) (bs : List ℕ)
    → 0x800 ≤ c
    → c < 0x10000
    → Scalar c
    → char_at utf_8 (0xE0 + c / 4096) ((0x80 + c / 64 % 64) ∷ (0x80 + c % 64) ∷ bs) ≡ some (c, 2)
unfolding char_at three_bytes
char_at-three c bs h k s = ground (arith, h, k, s)

char_at-four :
    (c : ℕ) (bs : List ℕ)
    → 0x10000 ≤ c
    → c < 0x110000
    → char_at utf_8
        (0xF0 + c / 262144)
        ((0x80 + c / 4096 % 64) ∷ (0x80 + c / 64 % 64) ∷ (0x80 + c % 64) ∷ bs)
      ≡ some (c, 3)
unfolding char_at four_bytes
char_at-four c bs h k = ground (arith, h, k)

-- The bytes are a text without an error.
abbrev pub Reads : Text → List ℕ → Type 0
Reads t bs = (decode_escaped utf_8 0 bs ≡ t) × (first_invalid utf_8 0 bs ≡ none)

read_one : (c : ℕ) (t : Text) (bs : List ℕ) → c < 0x80 → Reads t bs → Reads (c ∷ t) (c ∷ bs)
unfolding decode_escaped first_invalid
read_one c t bs h r =
    let char = char_at-one c bs h in
    (rw (decode_escaped, char, r.0) refl, rw (first_invalid, char, r.1) refl)

read_two :
    (b c d : ℕ) (t : Text) (bs : List ℕ)
    → char_at utf_8 b (d ∷ bs) ≡ some (c, 1)
    → Reads t bs
    → Reads (c ∷ t) (b ∷ d ∷ bs)
unfolding decode_escaped first_invalid
read_two b c d t bs char r =
    (rw (decode_escaped, char, r.0) refl, rw (first_invalid, char, r.1) refl)

read_three :
    (b c d e : ℕ) (t : Text) (bs : List ℕ)
    → char_at utf_8 b (d ∷ e ∷ bs) ≡ some (c, 2)
    → Reads t bs
    → Reads (c ∷ t) (b ∷ d ∷ e ∷ bs)
unfolding decode_escaped first_invalid
read_three b c d e t bs char r =
    (rw (decode_escaped, char, r.0) refl, rw (first_invalid, char, r.1) refl)

read_four :
    (b c d e f : ℕ) (t : Text) (bs : List ℕ)
    → char_at utf_8 b (d ∷ e ∷ f ∷ bs) ≡ some (c, 3)
    → Reads t bs
    → Reads (c ∷ t) (b ∷ d ∷ e ∷ f ∷ bs)
unfolding decode_escaped first_invalid
read_four b c d e f t bs char r =
    (rw (decode_escaped, char, r.0) refl, rw (first_invalid, char, r.1) refl)

read_utf8 : (c : ℕ) (t : Text) (bs : List ℕ) → Scalar c → Reads t bs → Reads (c ∷ t) (utf8 c ++ bs)
unfolding utf8
read_utf8 c t bs s r = elim (Bool-cases (ltb c 0x80)) [
  | inl e ↦ rw (e) (read_one c t bs (ground (arith, e)) r)
  | inr e ↦ elim (Bool-cases (ltb c 0x800)) [
    | inl f ↦
        rw (e, f) (read_two _ c _ t bs (char_at-two c bs (ground (arith, e)) (ground (arith, f))) r)
    | inr f ↦ elim (Bool-cases (ltb c 0x10000)) [
      | inl g ↦
          rw (e, f, g)
            (read_three _ c _ _ t bs (char_at-three c bs (ground (arith, f)) (ground (arith, g)) s)
              r)
      | inr g ↦
          rw (e, f, g)
            (read_four _ c _ _ _ t bs (char_at-four c bs (ground (arith, g)) (ground (arith, g, s)))
              r)
    ]
  ]
]

pub encode_utf8-Reads : (t : Text) → All Scalar t → Reads t (encode_utf8 t)
unfolding encode_utf8 decode_escaped first_invalid
encode_utf8-Reads [] h = (refl, refl)
encode_utf8-Reads (c ∷ cs) h = read_utf8 c cs (encode_utf8 cs) h.0 (encode_utf8-Reads cs h.1)

-- A text of code points that are no surrogates is read back as it was from its bytes in UTF-8, and
-- no invalid byte is counted.
pub decode_with-encode_utf8 :
    (t : Text) (info : Info)
    → All Scalar t
    → decode_with utf_8 info (encode_utf8 t) ≡ record { text = t; status = full; info = info }
unfolding decode_with
decode_with-encode_utf8 t info h = let r = encode_utf8-Reads t h in rw (decode_with, r.1, r.0) refl
