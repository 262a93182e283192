-- ===== src/Preprocessor/Normalizer/Stable.antt =====
-- src/preprocessor/normalizer.py, `normalize_uri_path`: paths that are normalized twice.
use nt204_r11_antn_nguyen_th.Base.{
  ℕ, true, false, ◌≡◌, ◌<◌, length, refl, sym, subst, ap, ◌∙◌, inl, inr, Option, [], ◌∷◌, Text,
  upper_code, has_prefix, Bool-cases, arith,
}
use nt204_r11_antn_nguyen_th.Preprocessor.Normalizer.{
  is_escape, uppercase_hex, has_valid_start, is_connect, add_slash, normalize_uri_path,
}

-- No escape starts with `c` before this text.
abbrev Blocked : ℕ → Text → Type 0
Blocked c [] = Unit
Blocked c (h ∷ []) = Unit
Blocked c (h ∷ l ∷ cs) = is_escape c h l ≡ false

uppercase_hex_plain : (c : ℕ) (t : Text) → Blocked c t → uppercase_hex (c ∷ t) ≡ c ∷ uppercase_hex t
unfolding uppercase_hex
uppercase_hex_plain c [] h = refl
uppercase_hex_plain c (d ∷ []) h = refl
uppercase_hex_plain c (d ∷ e ∷ cs) h = rw (uppercase_hex, h) refl

escape_step :
    (c h l : ℕ) (cs : Text)
    → is_escape c h l ≡ true
    → uppercase_hex (c ∷ h ∷ l ∷ cs) ≡ c ∷ upper_code h ∷ upper_code l ∷ uppercase_hex cs
unfolding uppercase_hex
escape_step c h l cs e = rw (uppercase_hex, e) refl

behind-Blocked :
    (c h l d e : ℕ) (cs : Text)
    → is_escape c h l ≡ false
    → Blocked c (h ∷ uppercase_hex (l ∷ d ∷ e ∷ cs))
unfolding uppercase_hex
behind-Blocked c h l d e cs k = elim (Bool-cases (is_escape l d e)) [
  | inl g ↦ subst (λ t. Blocked c (h ∷ t)) (sym (escape_step l d e cs g)) k
  | inr g ↦ subst (λ t. Blocked c (h ∷ t)) (sym (uppercase_hex_plain l (d ∷ e ∷ cs) g)) k
]

-- The head of a text stays, and so does the one behind it unless an escape starts with it.
uppercase_hex-Blocked :
    (c h l : ℕ) (cs : Text) → is_escape c h l ≡ false → Blocked c (uppercase_hex (h ∷ l ∷ cs))
unfolding uppercase_hex is_escape
uppercase_hex-Blocked c h l [] e = e
uppercase_hex-Blocked c h l (d ∷ []) e = elim (Bool-cases (is_escape h l d)) [
  | inl f ↦ rw (uppercase_hex, f) (ground (arith, e, f))
  | inr f ↦ rw (uppercase_hex, f) e
]
uppercase_hex-Blocked c h l (d ∷ d' ∷ ds) e = elim (Bool-cases (is_escape h l d)) [
  | inl f ↦ rw (uppercase_hex, f) (ground (arith, e, f))
  | inr f ↦
      subst (Blocked c) (sym (uppercase_hex_plain h (l ∷ d ∷ d' ∷ ds) f))
        (behind-Blocked c h l d d' ds e)
]

escape-upper :
    (c h l : ℕ) → is_escape c h l ≡ true → is_escape c (upper_code h) (upper_code l) ≡ true
unfolding is_escape
escape-upper c h l e = ground (arith, e)

upper_twice : (c : ℕ) → upper_code (upper_code c) ≡ upper_code c
upper_twice c = ground arith

uppercase_hex_twice : (t : Text) → uppercase_hex (uppercase_hex t) ≡ uppercase_hex t
unfolding uppercase_hex
uppercase_hex_twice [] = refl
uppercase_hex_twice (c ∷ []) = refl
uppercase_hex_twice (c ∷ h ∷ []) = refl
uppercase_hex_twice (c ∷ h ∷ l ∷ cs) = elim (Bool-cases (is_escape c h l)) [
  | inl e ↦
      rw
        (
          uppercase_hex,
          e,
          escape-upper c h l e,
          upper_twice h,
          upper_twice l,
          uppercase_hex_twice cs,
        )
        refl
  | inr e ↦
      rw (uppercase_hex, e)
        (uppercase_hex_plain c _ (uppercase_hex-Blocked c h l cs e)
          ∙ ap (λ t. c ∷ t) (uppercase_hex_twice (h ∷ l ∷ cs)))
]

empty : uppercase_hex [] ≡ []
unfolding uppercase_hex
empty = refl

uppercase_hex-filled : (c : ℕ) (cs : Text) → 0 < length (uppercase_hex (c ∷ cs))
unfolding uppercase_hex
uppercase_hex-filled c [] = omega arith
uppercase_hex-filled c (d ∷ []) = omega arith
uppercase_hex-filled c (d ∷ e ∷ cs) = elim (Bool-cases (is_escape c d e)) [
  | inl f ↦ rw (uppercase_hex, f) (omega arith)
  | inr f ↦ rw (uppercase_hex, f) (omega arith)
]

connect_fixed :
    (t : Text) (method : Option Text)
    → is_connect method ≡ true
    → 0 < length t
    → uppercase_hex t ≡ t
    → normalize_uri_path t method ≡ t
unfolding normalize_uri_path
connect_fixed [] method m k e = ground (arith, k)
connect_fixed (c ∷ cs) method m k e = rw (normalize_uri_path, m) e

path_fixed :
    (t : Text) (method : Option Text)
    → is_connect method ≡ false
    → has_valid_start t ≡ true
    → uppercase_hex t ≡ t
    → normalize_uri_path t method ≡ t
unfolding normalize_uri_path add_slash has_valid_start has_prefix
path_fixed [] method m k e = cc
path_fixed (c ∷ cs) method m k e = rw (normalize_uri_path, m, e, add_slash, k) refl

slash_starts : (t : Text) → has_valid_start (b'/' ∷ t) ≡ true
unfolding has_valid_start has_prefix
slash_starts t = refl

slash-Blocked : (t : Text) → Blocked b'/' t
unfolding is_escape
slash-Blocked [] = tt
slash-Blocked (h ∷ []) = tt
slash-Blocked (h ∷ l ∷ cs) = refl

slash_fixed : (t : Text) → uppercase_hex t ≡ t → uppercase_hex (b'/' ∷ t) ≡ b'/' ∷ t
slash_fixed t e = uppercase_hex_plain b'/' t (slash-Blocked t) ∙ ap (λ s. b'/' ∷ s) e

filled_twice :
    (c : ℕ) (cs : Text) (method : Option Text)
    → let path = normalize_uri_path (c ∷ cs) method in normalize_uri_path path method ≡ path
unfolding normalize_uri_path add_slash
filled_twice c cs method =
    let t = uppercase_hex (c ∷ cs) in
    let same = uppercase_hex_twice (c ∷ cs) in
    elim (Bool-cases (is_connect method)) [
      | inl m ↦
          rw (normalize_uri_path, m) (connect_fixed t method m (uppercase_hex-filled c cs) same)
      | inr m ↦ elim (Bool-cases (has_valid_start t)) [
        | inl k ↦ rw (normalize_uri_path, m, add_slash, k) (path_fixed t method m k same)
        | inr k ↦
            rw (normalize_uri_path, m, add_slash, k)
              (path_fixed (b'/' ∷ t) method m (slash_starts t) (slash_fixed t same))
      ]
    ]

-- To normalize the path of a URI twice, for the same method, is to do it once.
pub normalize_uri_path_twice :
    (path : Text) (method : Option Text)
    → normalize_uri_path (normalize_uri_path path method) method ≡ normalize_uri_path path method
unfolding normalize_uri_path
normalize_uri_path_twice [] method = elim (Bool-cases (is_connect method)) [
  | inl m ↦ connect_fixed (b'/' ∷ []) method m (omega arith) (slash_fixed [] empty)
  | inr m ↦ path_fixed (b'/' ∷ []) method m (slash_starts []) (slash_fixed [] empty)
]
normalize_uri_path_twice (c ∷ cs) method = filled_twice c cs method
