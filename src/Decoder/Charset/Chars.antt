-- ===== src/Decoder/Charset/Chars.antt =====
-- src/decoder/charset.py, `decode_bytes`: the characters of UTF-8, as they are read and as they are
-- written.
use nt204_r11_antn_nguyen_th.Base.{
  ℕ, ◌+◌, ◌-◌, ◌*◌, ◌/◌, ◌%◌, ◌<◌, ◌≤◌, inl, inr, Bool, true, ◌≡◌, refl, sym, subst, ◌&&◌,
  if◌then◌else◌, ◌==◌, some, List, [], ◌∷◌, ◌++◌, ltb, drop, Bool-cases, arith,
}
use nt204_r11_antn_nguyen_th.Rules.Parser.Decode.{utf8}
use nt204_r11_antn_nguyen_th.Decoder.Charset.{
  utf_8, between, continues, char_at, two_bytes, three_bytes, four_bytes,
}
use nt204_r11_antn_nguyen_th.Decoder.Charset.Utf8.{Scalar}

-- A character that is read is one that is written with the bytes that were taken.
abbrev pub Written : ℕ → List ℕ → ℕ → ℕ → Type 0
Written b bs c m = Scalar c × (utf8 c ++ drop m bs ≡ b ∷ bs)

utf8_two : (c : ℕ) → 0x80 ≤ c → c < 0x800 → utf8 c ≡ (0xC0 + c / 64) ∷ (0x80 + c % 64) ∷ []
unfolding utf8
utf8_two c h k = ground (arith, h, k)

utf8_three :
    (c : ℕ)
    → 0x800 ≤ c
    → c < 0x10000
    → utf8 c ≡ (0xE0 + c / 4096) ∷ (0x80 + c / 64 % 64) ∷ (0x80 + c % 64) ∷ []
unfolding utf8
utf8_three c h k = ground (arith, h, k)

utf8_four :
    (c : ℕ)
    → 0x10000 ≤ c
    → utf8 c
      ≡ (0xF0 + c / 262144) ∷ (0x80 + c / 4096 % 64) ∷ (0x80 + c / 64 % 64) ∷ (0x80 + c % 64) ∷ []
unfolding utf8
utf8_four c h = ground (arith, h)

two_bytes-Written :
    (b c m : ℕ) (bs : List ℕ)
    → between 0xC2 0xDF b ≡ true
    → two_bytes b bs ≡ some (c, m)
    → Written b bs c m
unfolding two_bytes
two_bytes-Written b c m [] k h = cc
two_bytes-Written b c m (d ∷ bs) k h = elim (Bool-cases (continues d)) [
  | inr e ↦ ground (arith, e, h)
  | inl e ↦
      let value : (b - 0xC0) * 64 + (d - 0x80) ≡ c = ground (arith, e, h) in
      let one : 1 ≡ m = ground (arith, e, h) in
      let low : 0x80 ≤ c = ground (arith, k, e, value) in
      let high : c < 0x800 = ground (arith, k, e, value) in
      let first : 0xC0 + c / 64 ≡ b = ground (arith, k, e, value) in
      let second : 0x80 + c % 64 ≡ d = ground (arith, k, e, value) in
      (inl (omega (arith, high)), rw (utf8_two c low high, sym one, first, second) refl)
]

-- The bounds on the second byte of three.
abbrev second_of_three : ℕ → ℕ → Bool
second_of_three b c =
    between (if b == 0xE0 then 0xA0 else 0x80) (if b == 0xED then 0x9F else 0xBF) c

abbrev value_three : ℕ → ℕ → ℕ → ℕ
value_three b d e = (b - 0xE0) * 4096 + (d - 0x80) * 64 + (e - 0x80)

three_read :
    (b d e c : ℕ) (bs : List ℕ)
    → between 0xE0 0xEF b ≡ true
    → (second_of_three b d && continues e) ≡ true
    → value_three b d e ≡ c
    → Written b (d ∷ e ∷ bs) c 2
three_read b d e c bs k o value =
    let low : 0x800 ≤ c = ground (arith, k, o, value) in
    let high : c < 0x10000 = ground (arith, k, o, value) in
    let first : 0xE0 + c / 4096 ≡ b = ground (arith, k, o, value) in
    let second : 0x80 + c / 64 % 64 ≡ d = ground (arith, k, o, value) in
    let third : 0x80 + c % 64 ≡ e = ground (arith, k, o, value) in
    let scalar : Scalar c = ground (arith, k, o, value) in
    (scalar, rw (utf8_three c low high, first, second, third) refl)

three_bytes-Written :
    (b c m : ℕ) (bs : List ℕ)
    → between 0xE0 0xEF b ≡ true
    → three_bytes b bs ≡ some (c, m)
    → Written b bs c m
unfolding three_bytes
three_bytes-Written b c m [] k h = cc
three_bytes-Written b c m (d ∷ []) k h = cc
three_bytes-Written b c m (d ∷ e ∷ bs) k h =
    elim (Bool-cases (second_of_three b d && continues e)) [
      | inr o ↦ ground (arith, o, h)
      | inl o ↦
          let value : value_three b d e ≡ c = ground (arith, o, h) in
          let two : 2 ≡ m = ground (arith, o, h) in
          subst (λ m. Written b (d ∷ e ∷ bs) c m) two (three_read b d e c bs k o value)
    ]

abbrev second_of_four : ℕ → ℕ → Bool
second_of_four b c = between (if b == 0xF0 then 0x90 else 0x80) (if b == 0xF4 then 0x8F else 0xBF) c

abbrev value_four : ℕ → ℕ → ℕ → ℕ → ℕ
value_four b d e f = (b - 0xF0) * 262144 + (d - 0x80) * 4096 + (e - 0x80) * 64 + (f - 0x80)

four_read :
    (b d e f c : ℕ) (bs : List ℕ)
    → between 0xF0 0xF4 b ≡ true
    → (second_of_four b d && continues e && continues f) ≡ true
    → value_four b d e f ≡ c
    → Written b (d ∷ e ∷ f ∷ bs) c 3
four_read b d e f c bs k o value =
    let low : 0x10000 ≤ c = ground (arith, k, o, value) in
    let high : c < 0x110000 = ground (arith, k, o, value) in
    let first : 0xF0 + c / 262144 ≡ b = ground (arith, k, o, value) in
    let second : 0x80 + c / 4096 % 64 ≡ d = ground (arith, k, o, value) in
    let third : 0x80 + c / 64 % 64 ≡ e = ground (arith, k, o, value) in
    let fourth : 0x80 + c % 64 ≡ f = ground (arith, k, o, value) in
    (inr (omega (arith, low), high), rw (utf8_four c low, first, second, third, fourth) refl)

four_bytes-Written :
    (b c m : ℕ) (bs : List ℕ)
    → between 0xF0 0xF4 b ≡ true
    → four_bytes b bs ≡ some (c, m)
    → Written b bs c m
unfolding four_bytes
four_bytes-Written b c m [] k h = cc
four_bytes-Written b c m (d ∷ []) k h = cc
four_bytes-Written b c m (d ∷ e ∷ []) k h = cc
four_bytes-Written b c m (d ∷ e ∷ f ∷ bs) k h =
    elim (Bool-cases (second_of_four b d && continues e && continues f)) [
      | inr o ↦ ground (arith, o, h)
      | inl o ↦
          let value : value_four b d e f ≡ c = ground (arith, o, h) in
          let three : 3 ≡ m = ground (arith, o, h) in
          subst (λ m. Written b (d ∷ e ∷ f ∷ bs) c m) three (four_read b d e f c bs k o value)
    ]

one-Written : (b c m : ℕ) (bs : List ℕ) → b < 0x80 → b ≡ c → 0 ≡ m → Written b bs c m
unfolding utf8
one-Written b c m bs k same none_more =
    let short : ltb b 0x80 ≡ true = ground (arith, k) in
    (inl (omega (arith, k, same)), rw (sym same, sym none_more, utf8, short) refl)

pub char_at-Written :
    (b c m : ℕ) (bs : List ℕ) → char_at utf_8 b bs ≡ some (c, m) → Written b bs c m
unfolding char_at
char_at-Written b c m bs h = elim (Bool-cases (ltb b 0x80)) [
  | inl e ↦ one-Written b c m bs (ground (arith, e)) (ground (arith, e, h)) (ground (arith, e, h))
  | inr e ↦ elim (Bool-cases (between 0xC2 0xDF b)) [
    | inl f ↦ two_bytes-Written b c m bs f (ground (arith, e, f, h))
    | inr f ↦ elim (Bool-cases (between 0xE0 0xEF b)) [
      | inl g ↦ three_bytes-Written b c m bs g (ground (arith, e, f, g, h))
      | inr g ↦ elim (Bool-cases (between 0xF0 0xF4 b)) [
        | inl i ↦ four_bytes-Written b c m bs i (ground (arith, e, f, g, i, h))
        | inr i ↦ ground (arith, e, f, g, i, h)
      ]
    ]
  ]
]
