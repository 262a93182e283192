-- ===== src/Decoder/Url/Forms.antt =====
-- src/decoder/url_decoder.py, `decode_query`: queries that are written pair by pair.
use nt204_r11_antn_nguyen_th.Base.{
  ℕ, ◌/◌, ◌%◌, ◌<◌, Bool, true, false, not, ◌||◌, ◌≡◌, refl, sym, ap, ◌∙◌, Option, none, List, [],
  ◌∷◌, ◌++◌, All, All-append, length, map, all, all-append, ltb, ◌==◌, Text, split_on, partition,
  append_assoc, append-nil, Bool-cases, inl, inr, arith,
}
use nt204_r11_antn_nguyen_th.Base.Strip.{partition-append, split_on-append, split_on_whole}
use nt204_r11_antn_nguyen_th.Rules.Parser.Decode.{utf8}
use nt204_r11_antn_nguyen_th.Rules.Parser.Decode.Hex.{hex_digit, Bytes}
use nt204_r11_antn_nguyen_th.Decoder.Charset.{
  utf_8, labelled, first_invalid, decode_escaped, choose_codec, decode_with, decode_bytes,
}
use nt204_r11_antn_nguyen_th.Decoder.Charset.Utf8.{Scalar, encode_utf8, decode_with-encode_utf8}
use nt204_r11_antn_nguyen_th.Decoder.Url.{
  percent_passes, percent_decode, Form, new_form, form_result, form_pair, form_pairs, aggregate,
  decode_form,
}
use nt204_r11_antn_nguyen_th.Decoder.Url.Written.{percent_encode, percent_decode-percent_encode}

abbrev pub encoded : Text → List ℕ
encoded t = percent_encode (encode_utf8 t)

-- A key and a value as a query writes them.
abbrev pub write_pair : Text × Text → List ℕ
write_pair p = encoded p.0 ++ b'=' ∷ encoded p.1

unfoldable pub write_query : List (Text × Text) → List ℕ
write_query [] = []
write_query (p ∷ []) = write_pair p
write_query (p ∷ q ∷ ps) = write_pair p ++ b'&' ∷ write_query (q ∷ ps)

-- Neither separator is a digit or a percent sign.
digit_apart :
    (sep n : ℕ) → ((sep == b'&') || (sep == b'=')) ≡ true → n < 16 → not (hex_digit n == sep) ≡ true
digit_apart sep n s h = ground (arith, s, h)

percent_encode_apart :
    (sep : ℕ) (bs : List ℕ)
    → ((sep == b'&') || (sep == b'=')) ≡ true
    → Bytes bs
    → all (λ c. not (c == sep)) (percent_encode bs) ≡ true
unfolding percent_encode
percent_encode_apart sep [] s h = refl
percent_encode_apart sep (b ∷ bs) s h =
    let sign : not (b'%' == sep) ≡ true = ground (arith, s) in
    rw
      (
        sign,
        digit_apart sep (b / 16) s (omega (arith, h.0)),
        digit_apart sep (b % 16) s (omega arith),
      )
      (percent_encode_apart sep bs s h.1)

utf8-Bytes : (c : ℕ) → Scalar c → Bytes (utf8 c)
unfolding utf8
utf8-Bytes c s = elim (Bool-cases (ltb c 0x80)) [
  | inl e ↦ rw (e) (ground (arith, e), tt)
  | inr e ↦ elim (Bool-cases (ltb c 0x800)) [
    | inl f ↦ rw (e, f) (ground (arith, f), (omega arith, tt))
    | inr f ↦ elim (Bool-cases (ltb c 0x10000)) [
      | inl g ↦ rw (e, f, g) (ground (arith, g), (omega arith, (omega arith, tt)))
      | inr g ↦ rw (e, f, g) (ground (arith, g, s), (omega arith, (omega arith, (omega arith, tt))))
    ]
  ]
]

encode_utf8-Bytes : (t : Text) → All Scalar t → Bytes (encode_utf8 t)
unfolding encode_utf8
encode_utf8-Bytes [] h = tt
encode_utf8-Bytes (c ∷ cs) h =
    All-append (λ b. b < 256) (utf8 c) (encode_utf8 cs) (utf8-Bytes c h.0)
      (encode_utf8-Bytes cs h.1)

plain_text :
    (lookup : Text → Option Text) (bs : List ℕ)
    → (decode_bytes lookup bs none false).text ≡ (decode_with utf_8 (labelled utf_8) bs).text
unfolding decode_bytes decode_with choose_codec first_invalid decode_escaped
plain_text lookup [] = refl
plain_text lookup (b ∷ bs) = refl

encoded_text :
    (lookup : Text → Option Text) (plus : Bool) (bs : List ℕ)
    → Bytes bs
    → (percent_decode lookup (percent_encode bs) 1 plus none).text
      ≡ (decode_bytes lookup bs none false).text
unfolding percent_encode percent_decode percent_passes
encoded_text lookup false [] h = refl
encoded_text lookup true [] h = refl
encoded_text lookup plus (b ∷ bs) h =
    ap (λ d. d.text) (percent_decode-percent_encode lookup b bs plus none h)

decoded_text :
    (lookup : Text → Option Text) (plus : Bool) (t : Text)
    → All Scalar t
    → (percent_decode lookup (encoded t) 1 plus none).text ≡ t
decoded_text lookup plus t h =
    encoded_text lookup plus (encode_utf8 t) (encode_utf8-Bytes t h)
    ∙ plain_text lookup (encode_utf8 t)
    ∙ ap (λ d. d.text) (decode_with-encode_utf8 t (labelled utf_8) h)

write_pair_apart :
    (p : Text × Text)
    → All Scalar p.0
    → All Scalar p.1
    → all (λ c. not (c == b'&')) (write_pair p) ≡ true
write_pair_apart p h k =
    all-append (λ c. not (c == b'&')) (encoded p.0) (b'=' ∷ encoded p.1)
      (percent_encode_apart b'&' (encode_utf8 p.0) refl (encode_utf8-Bytes p.0 h))
      (percent_encode_apart b'&' (encode_utf8 p.1) refl (encode_utf8-Bytes p.1 k))

-- The texts of a query: keys and values without surrogates.
abbrev pub Texts : List (Text × Text) → Type 0
Texts = All (λ p. All Scalar p.0 × All Scalar p.1)

split_on-write_query :
    (p : Text × Text) (ps : List (Text × Text))
    → Texts (p ∷ ps)
    → split_on b'&' (write_query (p ∷ ps)) ≡ map write_pair (p ∷ ps)
unfolding write_query
split_on-write_query p [] h = split_on_whole b'&' (write_pair p) (write_pair_apart p h.0.0 h.0.1)
split_on-write_query p (q ∷ ps) h =
    split_on-append b'&' (write_pair p) (write_query (q ∷ ps)) (write_pair_apart p h.0.0 h.0.1)
    ∙ ap (λ ws. write_pair p ∷ ws) (split_on-write_query q ps h.1)

filled : (sep : ℕ) (xs ys : List ℕ) → 0 < length (xs ++ sep ∷ ys)
filled sep [] ys = omega arith
filled sep (x ∷ xs) ys = omega arith

write_query-filled : (p : Text × Text) (ps : List (Text × Text)) → 0 < length (write_query (p ∷ ps))
unfolding write_query
write_query-filled p [] = filled b'=' (encoded p.0) (encoded p.1)
write_query-filled p (q ∷ ps) = filled b'&' (write_pair p) (write_query (q ∷ ps))

module _ (lookup : Text → Option Text) (plus : Bool) where
  abbrev text_of : List ℕ → Text
  text_of bs = (percent_decode lookup bs 1 plus none).text

  form_pair-filled :
      (bs : List ℕ) (f : Form)
      → 0 < length bs
      → (form_pair lookup 1 plus none bs f).pairs
        ≡ f.pairs ++ (text_of (partition b'=' bs).before, text_of (partition b'=' bs).after) ∷ []
  unfolding form_pair aggregate
  form_pair-filled [] f h = ground (arith, h)
  form_pair-filled (b ∷ bs) f h = refl

  form_pair-write_pair :
      (p : Text × Text) (f : Form)
      → All Scalar p.0
      → All Scalar p.1
      → (form_pair lookup 1 plus none (write_pair p) f).pairs ≡ f.pairs ++ p ∷ []
  form_pair-write_pair p f h k =
      let parts =
        partition-append b'=' (encoded p.0) (encoded p.1)
          (percent_encode_apart b'=' (encode_utf8 p.0) refl (encode_utf8-Bytes p.0 h)) in
      form_pair-filled (write_pair p) f (filled b'=' (encoded p.0) (encoded p.1))
      ∙ rw (parts, decoded_text lookup plus p.0 h, decoded_text lookup plus p.1 k) refl

  form_pairs-write_pair :
      (ps : List (Text × Text)) (f : Form)
      → Texts ps
      → (form_pairs lookup 1 plus none (map write_pair ps) f).pairs ≡ f.pairs ++ ps
  unfolding form_pairs
  form_pairs-write_pair [] f h = sym (append-nil f.pairs)
  form_pairs-write_pair (p ∷ ps) f h =
      form_pairs-write_pair ps (form_pair lookup 1 plus none (write_pair p) f) h.1
      ∙ ap (λ xs. xs ++ ps) (form_pair-write_pair p f h.0.0 h.0.1)
      ∙ append_assoc f.pairs (p ∷ []) ps

  decode_form_value :
      (bs : List ℕ)
      → 0 < length bs
      → (decode_form lookup 1 plus none bs).value
        ≡ (form_pairs lookup 1 plus none (split_on b'&' bs) new_form).pairs
  unfolding decode_form form_result
  decode_form_value [] h = ground (arith, h)
  decode_form_value (b ∷ bs) h = refl

-- A query of keys and values without surrogates, all written as percent escapes of their UTF-8, is
-- read back pair by pair, with the order, the duplicates and the empty texts that it has.
pub decode_form-write_query :
    (lookup : Text → Option Text) (plus : Bool) (ps : List (Text × Text))
    → Texts ps
    → (decode_form lookup 1 plus none (write_query ps)).value ≡ ps
unfolding write_query decode_form
decode_form-write_query lookup plus [] h = refl
decode_form-write_query lookup plus (p ∷ ps) h =
    decode_form_value lookup plus (write_query (p ∷ ps)) (write_query-filled p ps)
    ∙ ap (λ ws. (form_pairs lookup 1 plus none ws new_form).pairs) (split_on-write_query p ps h)
    ∙ form_pairs-write_pair lookup plus (p ∷ ps) new_form h
