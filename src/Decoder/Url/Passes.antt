-- ===== src/Decoder/Url/Passes.antt =====
-- src/decoder/url_decoder.py, `percent_decode`: the loop against decoding as often as asked.
use nt204_r11_antn_nguyen_th.Base.{
  ℕ, zero, suc, false, ◌≡◌, refl, sym, List, [], ◌∷◌, ◌==◌, text_eq, text_eq_sound, Bool-cases, inl,
  inr, arith,
}
use nt204_r11_antn_nguyen_th.Decoder.Url.{escape_at, unquote_to_bytes, has_percent, percent_passes}

-- To decode a number of times, come what may.
unfoldable pub unquote_times : ℕ → List ℕ → List ℕ
unquote_times zero bs = bs
unquote_times (suc n) bs = unquote_times n (unquote_to_bytes bs)

unquote_times-fixed : (n : ℕ) (bs : List ℕ) → unquote_to_bytes bs ≡ bs → unquote_times n bs ≡ bs
unfolding unquote_times
unquote_times-fixed zero bs h = refl
unquote_times-fixed (suc n) bs h = rw (h, unquote_times-fixed n bs h) refl

-- Bytes without a percent sign are decoded to themselves.
unquote_plain : (bs : List ℕ) → has_percent bs ≡ false → unquote_to_bytes bs ≡ bs
unfolding unquote_to_bytes escape_at
unquote_plain [] h = refl
unquote_plain (c ∷ []) h = refl
unquote_plain (c ∷ d ∷ []) h = refl
unquote_plain (c ∷ d ∷ e ∷ bs) h =
    let head : (c == b'%') ≡ false = ground (arith, h) in
    let tail : has_percent (d ∷ e ∷ bs) ≡ false = ground (arith, h) in
    rw (unquote_to_bytes, escape_at, head, unquote_plain (d ∷ e ∷ bs) tail) refl

-- Though the loop stops early, at bytes without a percent sign or at bytes that decoding leaves as
-- they are, it ends with the bytes that decoding the full number of times gives.
pub percent_passes-unquote_times :
    (n : ℕ) (bs : List ℕ) → (percent_passes n bs).current_bytes ≡ unquote_times n bs
unfolding percent_passes unquote_times
percent_passes-unquote_times zero bs = refl
percent_passes-unquote_times (suc n) bs = elim (Bool-cases (has_percent bs)) [
  | inr e ↦ rw (percent_passes, e) (sym (unquote_times-fixed (suc n) bs (unquote_plain bs e)))
  | inl e ↦ elim (Bool-cases (text_eq (unquote_to_bytes bs) bs)) [
    | inl same ↦
        rw (percent_passes, e, same) (sym (unquote_times-fixed (suc n) bs (text_eq_sound _ _ same)))
    | inr other ↦
        rw (percent_passes, e, other) (percent_passes-unquote_times n (unquote_to_bytes bs))
  ]
]
